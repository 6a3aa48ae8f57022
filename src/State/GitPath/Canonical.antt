-- ===== src/State/GitPath/Canonical.antt =====
-- `_validate_git_path` against a description of canonical paths by their components.
use peoplebot_releases.Base.{
  ℕ, ◌≡◌, refl, sym, ◌∙◌, ap, ◌≢◌, ◌↔◌, Bool, true, false, not, ◌&&◌, ◌||◌, List, [], ◌∷◌, ◌++◌,
  arith, eqb, keep, all, any, if◌then◌else◌, Bool-cases, inl, inr,
}
use peoplebot_releases.State.GitPath.{
  Codes, same_codes, onto_head, split_slash, join_slash, is_part, dot, dot_dot, is_absolute,
  posix_text, not_canonical,
}

pub same_codes_refl : (p : Codes) → same_codes p p ≡ true
unfolding same_codes
same_codes_refl [] = refl
same_codes_refl (c ∷ p) = ground (arith, same_codes_refl p)

pub eq_of_same_codes : (p q : Codes) → same_codes p q ≡ true → p ≡ q
unfolding same_codes
eq_of_same_codes [] [] h = refl
eq_of_same_codes [] (d ∷ q) h = cc
eq_of_same_codes (c ∷ p) [] h = cc
eq_of_same_codes (c ∷ p) (d ∷ q) h = ground (arith, eq_of_same_codes p q)

-- No slash in a component.
abbrev slash_free : Codes → Bool
slash_free = all (λ c. not (eqb c b'/'))

join-onto_head :
    (c : ℕ) (ps : List Codes) → ps ≢ [] → join_slash (onto_head c ps) ≡ c ∷ join_slash ps
unfolding join_slash
join-onto_head c [] h = absurd (h refl)
join-onto_head c (p ∷ []) h = refl
join-onto_head c (p ∷ q ∷ ps) h = refl

split_slash-ne-nil : (cs : Codes) → split_slash cs ≢ []
unfolding split_slash
split_slash-ne-nil [] = ground arith
split_slash-ne-nil (c ∷ cs) = onto (split_slash cs)
  where
    onto : (ps : List Codes) → (if eqb c b'/' then [] ∷ ps else onto_head c ps) ≢ []
    onto [] = ground arith
    onto (p ∷ ps) = ground arith

join-nil : (ps : List Codes) → ps ≢ [] → join_slash ([] ∷ ps) ≡ b'/' ∷ join_slash ps
unfolding join_slash
join-nil [] h = absurd (h refl)
join-nil (p ∷ ps) h = refl

pub join-split : (cs : Codes) → join_slash (split_slash cs) ≡ cs
unfolding split_slash
join-split [] = unfold join_slash in refl
join-split (c ∷ cs) = ground (
  arith,
  join-split cs,
  join-onto_head c (split_slash cs) (split_slash-ne-nil cs),
  join-nil (split_slash cs) (split_slash-ne-nil cs),
)

split-slash_free : (p : Codes) → slash_free p ≡ true → split_slash p ≡ p ∷ []
unfolding split_slash
split-slash_free [] h = refl
split-slash_free (c ∷ p) h = ground (arith, split-slash_free p)

split-append :
    (p rest : Codes) → slash_free p ≡ true → split_slash (p ++ b'/' ∷ rest) ≡ p ∷ split_slash rest
unfolding split_slash
split-append [] rest h = refl
split-append (c ∷ p) rest h = ground (arith, split-append p rest)

pub split-join :
    (p : Codes) (ps : List Codes)
    → all slash_free (p ∷ ps) ≡ true
    → split_slash (join_slash (p ∷ ps)) ≡ p ∷ ps
unfolding join_slash
split-join p [] h = split-slash_free p (ground arith)
split-join p (q ∷ ps) h =
    split-append p (join_slash (q ∷ ps)) (ground arith)
    ∙ ap (λ r. p ∷ r) (split-join q ps (ground arith))

all-slash_free-split : (cs : Codes) → all slash_free (split_slash cs) ≡ true
unfolding split_slash
all-slash_free-split [] = refl
all-slash_free-split (c ∷ cs) = onto (split_slash cs) (all-slash_free-split cs)
  where
    onto :
        (ps : List Codes)
        → all slash_free ps ≡ true
        → all slash_free (if eqb c b'/' then [] ∷ ps else onto_head c ps) ≡ true
    onto [] h = ground arith
    onto (p ∷ ps) h = ground arith

module _ {A : Type 0} (p q : A → Bool) where
  keep-all : (xs : List A) → all p xs ≡ true → keep p xs ≡ xs
  keep-all [] h = refl
  keep-all (x ∷ xs) h = ground (arith, keep-all xs)

  all-keep_self : (xs : List A) → all p (keep p xs) ≡ true
  all-keep_self [] = refl
  all-keep_self (x ∷ xs) = ground (arith, all-keep_self xs)

  all-keep : (xs : List A) → all q xs ≡ true → all q (keep p xs) ≡ true
  all-keep [] h = refl
  all-keep (x ∷ xs) h = ground (arith, all-keep xs)

-- A component that is neither empty nor "." nor "..".
abbrev pub is_plain : Codes → Bool
is_plain p = is_part p && not (same_codes p dot_dot)

all-is_part : (ps : List Codes) → all is_plain ps ≡ true → all is_part ps ≡ true
all-is_part [] h = refl
all-is_part (p ∷ ps) h = ground (arith, all-is_part ps)

-- Whether some part is "." or "..": the last test of the code.
abbrev has_dots : List Codes → Bool
has_dots = any (λ p. same_codes p dot || same_codes p dot_dot)

has_dots_of_plain : (ps : List Codes) → all is_plain ps ≡ true → has_dots ps ≡ false
unfolding is_part
has_dots_of_plain [] h = refl
has_dots_of_plain (p ∷ ps) h = ground (arith, has_dots_of_plain ps)

plain_of_no_dots :
    (ps : List Codes) → all is_part ps ≡ true → has_dots ps ≡ false → all is_plain ps ≡ true
plain_of_no_dots [] h k = refl
plain_of_no_dots (p ∷ ps) h k = ground (arith, plain_of_no_dots ps)

plain-not-dot : (cs : Codes) → all is_plain (split_slash cs) ≡ true → same_codes cs dot ≡ false
plain-not-dot cs h = elim (Bool-cases (same_codes cs dot)) [
  | inl e ↦ absurd (dot_not_plain (rw (eq_of_same_codes cs dot e) at h))
  | inr e ↦ e
]
  where
    dot_not_plain : all is_plain (split_slash dot) ≡ true → ⊥
    dot_not_plain k = unfold split_slash is_part same_codes in cc k

plain-not-absolute : (cs : Codes) → all is_plain (split_slash cs) ≡ true → is_absolute cs ≡ false
unfolding split_slash is_part same_codes
plain-not-absolute [] h = refl
plain-not-absolute (c ∷ cs) h = ground arith

posix_text-eq-join : (ps : List Codes) → ps ≢ [] → posix_text ps ≡ join_slash ps
unfolding posix_text
posix_text-eq-join [] h = absurd (h refl)
posix_text-eq-join (p ∷ ps) h = refl

-- The code accepts the relative paths whose components are all plain.
pub plain-accepted : (cs : Codes) → all is_plain (split_slash cs) ≡ true → not_canonical cs ≡ false
unfolding not_canonical
plain-accepted cs h =
    let kept : keep is_part (split_slash cs) ≡ split_slash cs =
      keep-all is_part is_part (split_slash cs) (all-is_part (split_slash cs) h) in
    rw (kept, posix_text-eq-join _ (split_slash-ne-nil cs), join-split, same_codes_refl)
      (ground
        (arith, plain-not-dot cs h, plain-not-absolute cs h, has_dots_of_plain (split_slash cs) h))

split-posix_text :
    (ps : List Codes)
    → same_codes (posix_text ps) dot ≡ false
    → all slash_free ps ≡ true
    → split_slash (posix_text ps) ≡ ps
unfolding posix_text
split-posix_text [] h k = unfold same_codes in cc
split-posix_text (p ∷ ps) h k = split-join p ps k

split-of_posix_text :
    (cs : Codes) (ps : List Codes)
    → posix_text ps ≡ cs
    → same_codes cs dot ≡ false
    → all slash_free ps ≡ true
    → split_slash cs ≡ ps
split-of_posix_text cs ps e h k = ap split_slash (sym e) ∙ split-posix_text ps (rw e h) k

-- The code accepts no other path.
pub accepted-plain : (cs : Codes) → not_canonical cs ≡ false → all is_plain (split_slash cs) ≡ true
unfolding not_canonical
accepted-plain cs h =
    let same : same_codes (posix_text (keep is_part (split_slash cs))) cs ≡ true = ground arith in
    let not_dot : same_codes cs dot ≡ false = ground arith in
    let no_dots : has_dots (keep is_part (split_slash cs)) ≡ false = ground arith in
    let free : all slash_free (keep is_part (split_slash cs)) ≡ true =
      all-keep is_part slash_free (split_slash cs) (all-slash_free-split cs) in
    rw
      (split-of_posix_text cs (keep is_part (split_slash cs)) (eq_of_same_codes _ cs same) not_dot
        free)
      (plain_of_no_dots (keep is_part (split_slash cs))
        (all-keep_self is_part is_part (split_slash cs)) no_dots)

-- `_validate_git_path` accepts a text, after its tests of the characters, exactly when each of
-- its components between slashes is non-empty and neither "." nor "..".
pub not_canonical_iff :
    (cs : Codes) → (not_canonical cs ≡ false) ↔ (all is_plain (split_slash cs) ≡ true)
not_canonical_iff cs = (accepted-plain cs, plain-accepted cs)
