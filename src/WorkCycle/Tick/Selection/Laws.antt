-- ===== src/WorkCycle/Tick/Selection/Laws.antt =====
-- The selected message is a candidate, and none is before it.
use peoplebot_releases.Base.{
  ℕ, String, ◌≡◌, refl, ap, ◌∙◌, Bool, true, false, none, some, List, [], ◌∷◌, All, All-append,
  keep, arith, codes, if-cases,
}
use mathlib.Core.Path.{subst, sym}
use mathlib.Core.List.Memᴰ
use mathlib.Core.List.{Memᴰ}
use peoplebot_releases.Base.Result.{Result, ok, >>=-eq-ok}
use peoplebot_releases.Base.Exec.Spec.{Spec, Spec-any, Spec-pure, Spec-bind}
use peoplebot_releases.Json.{str}
use peoplebot_releases.Execution.Timestamp.{Datetime, utc_timestamp, earlier, lex_lt, time_fields}
use peoplebot_releases.Host.{External}
use peoplebot_releases.Messaging.Store.{PublishedMessage}
use peoplebot_releases.Messaging.Remote.{PeerSource, GitRunner}
use peoplebot_releases.WorkCycle.Progress.{TaskProgress}
use peoplebot_releases.WorkCycle.Tick.Selection.{
  Candidate, key_before, insert_sorted, sorted, first_sorted, with_keys, select_earliest,
  is_candidate, read_sources,
}

-- Of three tuples, the one that is not before the second, which is not before the third.
lex_apart : (a b c : List ℕ) → lex_lt a b ≡ false → lex_lt b c ≡ false → lex_lt a c ≡ false
unfolding lex_lt
lex_apart [] [] [] h k = refl
lex_apart [] [] (z ∷ c) h k = cc
lex_apart [] (y ∷ b) c h k = cc
lex_apart (x ∷ a) [] [] h k = refl
lex_apart (x ∷ a) [] (z ∷ c) h k = cc
lex_apart (x ∷ a) (y ∷ b) [] h k = refl
lex_apart (x ∷ a) (y ∷ b) (z ∷ c) h k = ground (arith, h, k, lex_apart a b c)

earlier_apart : (a b c : Datetime) → earlier a b ≡ false → earlier b c ≡ false → earlier a c ≡ false
unfolding earlier
earlier_apart a b c h k = lex_apart (time_fields a) (time_fields b) (time_fields c) h k

lex_asym : (a b : List ℕ) → lex_lt a b ≡ true → lex_lt b a ≡ false
unfolding lex_lt
lex_asym [] [] h = refl
lex_asym [] (y ∷ b) h = refl
lex_asym (x ∷ a) [] h = cc
lex_asym (x ∷ a) (y ∷ b) h = ground (arith, h, lex_asym a b)

earlier_asym : (a b : Datetime) → earlier a b ≡ true → earlier b a ≡ false
unfolding earlier
earlier_asym a b h = lex_asym (time_fields a) (time_fields b) h

key_asym : (a b : Candidate) → key_before a b ≡ true → key_before b a ≡ false
unfolding key_before
key_asym a b h = ground (
  arith,
  h,
  earlier_asym a.created_at b.created_at,
  earlier_asym b.created_at a.created_at,
  lex_asym (codes a.item.message.message_id) (codes b.item.message.message_id),
)

key_apart :
    (a b c : Candidate) → key_before a b ≡ false → key_before b c ≡ false → key_before a c ≡ false
unfolding key_before
key_apart a b c h k = ground (
  arith,
  h,
  k,
  earlier_apart a.created_at b.created_at c.created_at,
  earlier_apart b.created_at a.created_at c.created_at,
  earlier_apart b.created_at c.created_at a.created_at,
  earlier_apart c.created_at b.created_at a.created_at,
  earlier_apart c.created_at a.created_at b.created_at,
  lex_apart (codes a.item.message.message_id) (codes b.item.message.message_id)
      (codes c.item.message.message_id),
)

-- No item of the list is before `c`.
abbrev pub IsFirst : Candidate → List Candidate → Type 0
IsFirst c cs = All (λ d. key_before d c ≡ false) cs

IsFirst-apart :
    (c d : Candidate) (cs : List Candidate) → key_before d c ≡ false → IsFirst d cs → IsFirst c cs
IsFirst-apart c d [] h k = tt
IsFirst-apart c d (e ∷ es) h (k, ks) = (key_apart e d c k h, IsFirst-apart c d es h ks)

none-IsFirst : (c : Candidate) (cs : List Candidate) → cs ≡ [] → IsFirst c cs
none-IsFirst c [] h = tt
none-IsFirst c (d ∷ ds) h = absurd (cc h)

key_irrefl : (c : Candidate) → key_before c c ≡ false
key_irrefl c = ground (arith, key_asym c c)

-- What the sort leads with: it is of the list, and none of the list is before it.
IsHead : List Candidate → List Candidate → Type 0
IsHead cs [] = cs ≡ []
IsHead cs (h ∷ _) = Memᴰ h cs × IsFirst h cs

insert-IsHead :
    (c : Candidate) (cs ds : List Candidate) → IsHead cs ds → IsHead (c ∷ cs) (insert_sorted c ds)
unfolding insert_sorted IsHead
insert-IsHead c cs [] h = (Memᴰ.head refl, (key_irrefl c, none-IsFirst c cs h))
insert-IsHead c cs (d ∷ ds) (m, k) =
    if-cases (IsHead (c ∷ cs)) (key_before d c) (d ∷ insert_sorted c ds) (c ∷ d ∷ ds)
      (λ before. (Memᴰ.tail m, (key_asym d c before, k)))
      (λ apart. (Memᴰ.head refl, (key_irrefl c, IsFirst-apart c d cs apart k)))

sorted-IsHead : (cs : List Candidate) → IsHead cs (sorted cs)
unfolding sorted IsHead
sorted-IsHead [] = refl
sorted-IsHead (c ∷ cs) = insert-IsHead c cs (sorted cs) (sorted-IsHead cs)

first_sorted-eq-some :
    (cs : List Candidate) {p : PublishedMessage}
    → first_sorted cs ≡ some p
    → (c : Candidate) × (c.item ≡ p) × Memᴰ c cs × IsFirst c cs
unfolding first_sorted IsHead
first_sorted-eq-some cs {p} h = of (sorted cs) (sorted-IsHead cs) h
  where
    of :
        (ds : List Candidate)
        → IsHead cs ds
        → (elim ds [ [] ↦ none | c ∷ _ ↦ some c.item ]) ≡ some p
        → (c : Candidate) × (c.item ≡ p) × Memᴰ c cs × IsFirst c cs
    of [] k h = absurd (cc h)
    of (c ∷ ds) (m, k) h = (c, cc h, m, k)

-- The created_at of a message, as the sort reads it.
abbrev time_of : PublishedMessage → Result Datetime
time_of p = utc_timestamp (str p.message.created_at) "message created_at"

-- The candidates are the messages in their order, each with its time.
AreKeyed : List PublishedMessage → List Candidate → Type 0
AreKeyed [] [] = Unit
AreKeyed (p ∷ ps) (c ∷ cs) = (c.item ≡ p) × (time_of p ≡ ok c.created_at) × AreKeyed ps cs
AreKeyed _ _ = ⊥

AreKeyed-cons :
    (p : PublishedMessage) (ps : List PublishedMessage) (t : Datetime) (rest cs : List Candidate)
    → time_of p ≡ ok t
    → AreKeyed ps rest
    → cs ≡ record { created_at = t; item = p } ∷ rest
    → AreKeyed (p ∷ ps) cs
unfolding AreKeyed
AreKeyed-cons p ps t rest cs h k same = subst (AreKeyed (p ∷ ps)) (sym same) (refl, h, k)

with_keys-AreKeyed :
    (ps : List PublishedMessage) {cs : List Candidate} → with_keys ps ≡ ok cs → AreKeyed ps cs
unfolding with_keys AreKeyed
with_keys-AreKeyed [] h = subst (AreKeyed []) {x = []} (cc h) tt
with_keys-AreKeyed (p ∷ ps) h =
    let (t, timed, more) = >>=-eq-ok (time_of p) _ h in
    let (rest, keyed, built) = >>=-eq-ok (with_keys ps) _ more in
    AreKeyed-cons p ps t rest _ timed (with_keys-AreKeyed ps keyed) (cc built)

-- A message of `ps` that no message of `ps` is before: by the times of creation, and at one time by
-- the code points of the identities.
pub record IsEarliest (ps : List PublishedMessage) (p : PublishedMessage) : Type 0 where
  pub candidate : Memᴰ p ps
  pub created_at : Datetime
  pub timed : time_of p ≡ ok created_at
  pub first :
      All
        (λ q.
          (t : Datetime) × (time_of q ≡ ok t)
          × (key_before
                (record { created_at = t; item = q })
                (record { created_at = created_at; item = p })
              ≡ false))
        ps

first_of :
    (p : PublishedMessage) (t : Datetime) (ps : List PublishedMessage) (cs : List Candidate)
    → AreKeyed ps cs
    → IsFirst (record { created_at = t; item = p }) cs
    → All
        (λ q.
          (u : Datetime) × (time_of q ≡ ok u)
          × (key_before (record { created_at = u; item = q }) (record { created_at = t; item = p })
              ≡ false))
        ps
unfolding AreKeyed
first_of p t [] [] k h = tt
first_of p t [] (c ∷ cs) k h = absurd k
first_of p t (q ∷ qs) [] k h = absurd k
first_of p t (q ∷ qs) (c ∷ cs) (same, timed, k) (h, hs) = (
  (
    c.created_at,
    timed,
    subst
        (λ i.
          key_before (record { created_at = c.created_at; item = i })
            (record { created_at = t; item = p })
          ≡ false)
        same h,
  ),
  first_of p t qs cs k hs,
)

member_of :
    (ps : List PublishedMessage) (cs : List Candidate) (c : Candidate)
    → AreKeyed ps cs
    → Memᴰ c cs
    → Memᴰ c.item ps × (time_of c.item ≡ ok c.created_at)
unfolding AreKeyed
member_of [] [] c k m = absurd (Memᴰ.not-nil m)
member_of [] (d ∷ ds) c k m = absurd k
member_of (p ∷ ps) [] c k m = absurd k
member_of (p ∷ ps) (d ∷ ds) c (same, timed, k) (Memᴰ.head here) = (
  Memᴰ.head (ap (λ e. e.item) here ∙ same),
  subst (λ e. time_of e.item ≡ ok e.created_at) (sym here) (ap time_of same ∙ timed),
)
member_of (p ∷ ps) (d ∷ ds) c (same, timed, k) (Memᴰ.tail m) =
    let (there, at) = member_of ps ds c k m in (Memᴰ.tail there, at)

-- The message that a tick selects is one of the candidates, and no candidate is before it by the
-- time of its creation or, at one time, by the code points of its identity.
pub select_earliest-IsEarliest :
    (ps : List PublishedMessage) {p : PublishedMessage}
    → select_earliest ps ≡ ok (some p)
    → IsEarliest ps p
unfolding select_earliest
select_earliest-IsEarliest ps {p} h =
    let (cs, keyed, chosen) = >>=-eq-ok (with_keys ps) _ h in
    let (c, same, m, first) = first_sorted-eq-some cs (cc chosen) in
    let aligned = with_keys-AreKeyed ps keyed in
    let (there, at) = member_of ps cs c aligned m in
    subst (IsEarliest ps) same (record {
      candidate = there;
      created_at = c.created_at;
      timed = at;
      first = first_of c.item c.created_at ps cs aligned first;
    })

-- What the loop over the sources collects are candidates alone.
All-keep : {A : Type 0} (q : A → Bool) (xs : List A) → All (λ x. q x ≡ true) (keep q xs)
All-keep q [] = tt
All-keep q (x ∷ xs) =
    if-cases (All (λ y. q y ≡ true)) (q x) (x ∷ keep q xs) (keep q xs) (λ h. (h, All-keep q xs))
      (λ _. All-keep q xs)

module _ (X : External) (runner : GitRunner X) (checkout environment_id : String)
    (tasks : List TaskProgress) where
  abbrev pub AreCandidates : List PublishedMessage → Type 0
  AreCandidates ps = All (λ p. is_candidate environment_id tasks p ≡ true) ps

  -- Whatever Git answers, the candidates that are read from the sources are tasks and stops for the
  -- environment that no task of the progress is of.
  pub read_sources-AreCandidates :
      (sources : List PeerSource)
      → Spec
          (λ _. Unit)
          (λ (_, ps). AreCandidates ps)
          (read_sources X runner checkout environment_id tasks sources)
  unfolding read_sources
  read_sources-AreCandidates [] = Spec-pure _ tt
  read_sources-AreCandidates (source ∷ sources) = Spec-bind _ _ (Spec-any _) λ (tip, messages) _.
      Spec-bind _ _ (Spec-any _) λ here _.
        Spec-bind _ _ (read_sources-AreCandidates sources)
          λ (cursors, candidates) h. Spec-pure _ (All-append _ _ _ (All-keep _ messages) h)

pub All-Mem : {A : Type 0} (P : A → Type 0) (x : A) (xs : List A) → All P xs → Memᴰ x xs → P x
All-Mem P x [] h m = absurd (Memᴰ.not-nil m)
All-Mem P x (y ∷ ys) (h, hs) (Memᴰ.head same) = subst P (sym same) h
All-Mem P x (y ∷ ys) (h, hs) (Memᴰ.tail m) = All-Mem P x ys hs m
