-- ===== src/Memory/Worktrees/Split.antt =====
-- The two splits of `_checked_out_branches` undo the join of nonempty fields.
use peoplebot_releases.Base.{
  ℕ, ◌≡◌, refl, Bool, false, true, some, List, [], ◌∷◌, ◌++◌, map, eqb, All, ap, ◌∙◌, sym,
}
use peoplebot_releases.State.GitPath.{Codes, onto_head}
use peoplebot_releases.Memory.Worktrees.{complete, split_records, split_fields}

abbrev pub is_empty : Codes → Bool
is_empty [] = true
is_empty (c ∷ cs) = false

-- A field is not empty and has no NUL.
abbrev pub IsField : Codes → Type 0
IsField f = (is_empty f ≡ false) × All (λ c. eqb c 0 ≡ false) f

-- The fields of a record between NULs.
abbrev pub record_text : List Codes → Codes
record_text [] = []
record_text (f ∷ []) = f
record_text (f ∷ g ∷ fs) = f ++ 0 ∷ record_text (g ∷ fs)

-- The records between pairs of NULs.
abbrev pub records_text : List (List Codes) → Codes
records_text [] = []
records_text (r ∷ []) = record_text r
records_text (r ∷ s ∷ rs) = record_text r ++ 0 ∷ 0 ∷ records_text (s ∷ rs)

abbrev pub porcelain : List (List Codes) → Codes
porcelain rs = records_text rs ++ 0 ∷ 0 ∷ []

abbrev prepend : Codes → List Codes → List Codes
prepend [] ps = ps
prepend (c ∷ cs) ps = onto_head c (prepend cs ps)

pub complete_append : (xs : Codes) → complete (xs ++ 0 ∷ 0 ∷ []) ≡ some xs
unfolding complete
complete_append [] = refl
complete_append (x ∷ []) = refl
complete_append (x ∷ y ∷ []) = refl
complete_append (x ∷ y ∷ z ∷ xs) = rw (complete_append (y ∷ z ∷ xs))

clean_split :
    (f t : Codes)
    → All (λ c. eqb c 0 ≡ false) f
    → split_records false (f ++ t) ≡ prepend f (split_records false t)
unfolding split_records
clean_split [] t h = refl
clean_split (c ∷ f) t h = rw (h.0, clean_split f t h.1)

clean_fields :
    (f t : Codes)
    → All (λ c. eqb c 0 ≡ false) f
    → split_fields (f ++ t) ≡ prepend f (split_fields t)
unfolding split_fields
clean_fields [] t h = refl
clean_fields (c ∷ f) t h = rw (h.0, clean_fields f t h.1)

lone_nul :
    (c : ℕ) (t : Codes)
    → eqb c 0 ≡ false
    → split_records false (0 ∷ c ∷ t) ≡ onto_head 0 (split_records false (c ∷ t))
unfolding split_records
lone_nul c t h = rw h

prepend_head : (f : Codes) (ps : List Codes) → prepend f ([] ∷ ps) ≡ f ∷ ps
prepend_head [] ps = refl
prepend_head (c ∷ f) ps = rw (prepend_head f ps)

append_nil : (f : Codes) → f ++ [] ≡ f
append_nil [] = refl
append_nil (c ∷ f) = ap (λ g. c ∷ g) (append_nil f)

append_assoc : (f g h : Codes) → (f ++ g) ++ h ≡ f ++ (g ++ h)
append_assoc [] g h = refl
append_assoc (c ∷ f) g h = ap (λ k. c ∷ k) (append_assoc f g h)

prepend_append : (f g : Codes) (ps : List Codes) → prepend (f ++ g) ps ≡ prepend f (prepend g ps)
prepend_append [] g ps = refl
prepend_append (c ∷ f) g ps = ap (onto_head c) (prepend_append f g ps)

-- The fields of a record are read back.
pub split_fields-record_text :
    (f : Codes) (fs : List Codes)
    → IsField f
    → All IsField fs
    → split_fields (record_text (f ∷ fs)) ≡ f ∷ fs
unfolding split_fields
split_fields-record_text f [] h hs =
    ap split_fields (sym (append_nil f)) ∙ clean_fields f [] h.1 ∙ prepend_head f []
split_fields-record_text f (g ∷ fs) h hs = rw (
  clean_fields f (0 ∷ record_text (g ∷ fs)) h.1,
  split_fields-record_text g fs hs.0 hs.1,
  prepend_head f (g ∷ fs),
)

-- A NUL before a field is no separator.
nul_split :
    (f u : Codes)
    → IsField f
    → split_records false (0 ∷ f ++ u) ≡ onto_head 0 (split_records false (f ++ u))
nul_split [] u h = cc
nul_split (c ∷ f) u h = lone_nul c (f ++ u) h.1.0

-- A record that follows a NUL.
nul_record :
    (f : Codes) (fs : List Codes) (t : Codes)
    → IsField f
    → split_records false (0 ∷ record_text (f ∷ fs) ++ t)
      ≡ onto_head 0 (split_records false (record_text (f ∷ fs) ++ t))
nul_record f [] t h = nul_split f t h
nul_record f (g ∷ fs) t h = rw (append_assoc f (0 ∷ record_text (g ∷ fs)) t) (nul_split f _ h)

-- What follows a record is split as before, its record put onto it.
record_split :
    (f : Codes) (fs : List Codes) (t : Codes)
    → IsField f
    → All IsField fs
    → split_records false (record_text (f ∷ fs) ++ t)
      ≡ prepend (record_text (f ∷ fs)) (split_records false t)
record_split f [] t h hs = clean_split f t h.1
record_split f (g ∷ fs) t h hs = rw (
  append_assoc f (0 ∷ record_text (g ∷ fs)) t,
  clean_split f (0 ∷ record_text (g ∷ fs) ++ t) h.1,
  nul_record g fs t hs.0,
  record_split g fs t hs.0 hs.1,
  prepend_append f (0 ∷ record_text (g ∷ fs)) (split_records false t),
)

abbrev has_fields : List Codes → Bool
has_fields [] = false
has_fields (f ∷ fs) = true

-- A record: at least one field.
abbrev pub IsRecord : List Codes → Type 0
IsRecord r = (has_fields r ≡ true) × All IsField r

one_record :
    (r : List Codes) (t : Codes)
    → IsRecord r
    → split_records false (record_text r ++ t) ≡ prepend (record_text r) (split_records false t)
one_record [] t h = cc
one_record (f ∷ fs) t h = record_split f fs t h.1.0 h.1.1

-- The records of an output are read back.
pub split_records-records_text :
    (r : List Codes) (rs : List (List Codes))
    → All IsRecord (r ∷ rs)
    → split_records false (records_text (r ∷ rs)) ≡ map record_text (r ∷ rs)
unfolding split_records
split_records-records_text r [] h =
    ap (split_records false) (sym (append_nil (record_text r)))
    ∙ one_record r [] h.0
    ∙ prepend_head (record_text r) []
split_records-records_text r (s ∷ rs) h = rw (
  one_record r (0 ∷ 0 ∷ records_text (s ∷ rs)) h.0,
  split_records-records_text s rs h.1,
  prepend_head (record_text r) (map record_text (s ∷ rs)),
)

pub split_fields-IsRecord : (r : List Codes) → IsRecord r → split_fields (record_text r) ≡ r
split_fields-IsRecord [] h = cc
split_fields-IsRecord (f ∷ fs) h = split_fields-record_text f fs h.1.0 h.1.1
