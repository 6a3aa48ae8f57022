-- ===== src/Provenance/Refs/Laws.antt =====
-- How a reference transaction can fail.
use peoplebot_releases.Base.{
  String, ◌≡◌, Option-cases, inl, inr, Bool, true, false, some, List, [], ◌∷◌, not, ◌||◌, eqb, ◌==◌,
  refl, arith, if◌then◌else◌,
}
use peoplebot_releases.Base.Result.{Error, Result, ok, err, value_error, provenance_error, os_error}
use peoplebot_releases.Base.Exec.Spec.{
  Spec, Post, Anything, Spec-pure, Spec-raise, Spec-lift, Spec-bind, Spec-guard, Spec-if,
  Spec-raise_when, Spec-catch_all,
}
use peoplebot_releases.State.Failures.{is_value_error}
use peoplebot_releases.Host.{
  External, Prepared, answered, no_git, no_start, silent, broken, Finished, finished, unanswered,
  cut_off, prepare_refs, finish_refs,
}
use peoplebot_releases.Provenance.Plumbing.{AttemptStore, git_plain}
use peoplebot_releases.Provenance.Plumbing.Laws.{Spec-git}
use peoplebot_releases.Provenance.Refs.{
  RefUpdate, RefErrors, operation, operations, timeout_error, require_direct, explain, in_time,
  finish, abort_then, inspect_prepared, abort_symbolic, abort_unknown, check_prepared,
  commit_prepared, after_prepare, update_refs, update_ref,
}

operation-raises : (u : RefUpdate) {e : Error} → operation u ≡ err e → is_value_error e ≡ true
unfolding operation
operation-raises u h = elim (Option-cases u.commit) [
  | inl n ↦ ground (arith, h, n)
  | inr (c, n) ↦ ground (arith, h, n)
]

operations-raises :
    (us : List RefUpdate) {e : Error} → operations us ≡ err e → is_value_error e ≡ true
unfolding operations
operations-raises [] h = ground (arith, h)
operations-raises (u ∷ us) {e} h = grind (arith, operation-raises, operations-raises us {e = e})

-- The exceptions that the callers choose are of a class that `P` allows, and so are the others.
pub record Allows (P : Error → Type 0) (e : RefErrors) : Type 0 where
  pub conflict : P e.conflict
  pub symbolic : P e.symbolic
  pub inspection : P e.inspection
  pub persistence : P e.persistence
  pub provenance : (c d : String) → P (provenance_error c d)
  pub value : (s : String) → P (value_error s)
  pub os : P os_error

module _ (X : External) (store : AttemptStore) (e : RefErrors) {P : Error → Type 0}
    (a : Allows P e) where
  Spec-plain : (arguments : List String) → Spec P Anything (git_plain X store arguments)
  Spec-plain arguments = Spec-git X a.provenance a.os store [] arguments ""

  Spec-direct : (name : String) → Spec P Anything (require_direct X store e name)
  unfolding require_direct
  Spec-direct name =
      Spec-bind _ _ (Spec-plain _)
        λ c _. Spec-guard _ _ _ a.symbolic λ _. Spec-raise_when _ _ a.inspection

  Spec-explain : (us : List RefUpdate) (c : Bool) → Spec P Anything (explain X store e us c)
  unfolding explain
  Spec-explain [] true = Spec-raise _ a.conflict
  Spec-explain [] false = Spec-raise _ a.persistence
  Spec-explain (u ∷ us) c = Spec-bind _ _ (Spec-direct _) λ _ _.
      Spec-bind _ _ (Spec-plain _) λ r _. Spec-guard _ _ _ a.inspection λ _. Spec-explain us _

  Spec-finish_refs : (c : String) → Spec P Anything (finish_refs X c)
  unfolding finish_refs
  Spec-finish_refs c = record { at = λ s. tt }

  Spec-abort_then :
      {A : Type 0} {Q : A → Type 0} (f : Error) → P f → Spec P Q (abort_then X store e f)
  unfolding abort_then
  Spec-abort_then f h = Spec-bind _ _ (Spec-finish_refs "abort") λ _ _. Spec-raise _ h

  Spec-in_time : (r : Finished) → Spec P Anything (in_time X store e r)
  unfolding in_time timeout_error
  Spec-in_time (finished line code) = Spec-pure _ tt
  Spec-in_time unanswered = Spec-raise _ (a.provenance _ _)
  Spec-in_time cut_off = Spec-abort_then _ a.os

  Spec-finish : (c : String) → Spec P Anything (finish X store e c)
  unfolding finish
  Spec-finish c = Spec-bind _ _ (Spec-finish_refs c) λ r _. Spec-in_time r

  Spec-inspect_prepared : (name : String) → Spec P Anything (inspect_prepared X store e name)
  unfolding inspect_prepared
  Spec-inspect_prepared name =
      Spec-bind _ _ (Spec-catch_all _ _ (Spec-plain _) λ f h. Spec-abort_then f h)
        λ c _. Spec-pure _ tt

  Spec-abort_symbolic : Spec P Anything (abort_symbolic X store e)
  unfolding abort_symbolic
  Spec-abort_symbolic =
      Spec-bind _ _ (Spec-finish _)
        λ _ _. Spec-guard _ _ _ a.persistence λ _. Spec-raise _ a.symbolic

  Spec-abort_unknown : Spec P Anything (abort_unknown X store e)
  unfolding abort_unknown
  Spec-abort_unknown =
      Spec-bind _ _ (Spec-finish _)
        λ _ _. Spec-guard _ _ _ a.persistence λ _. Spec-raise _ a.inspection

  Spec-check_prepared : (us : List RefUpdate) → Spec P Anything (check_prepared X store e us)
  unfolding check_prepared
  Spec-check_prepared [] = Spec-pure _ tt
  Spec-check_prepared (u ∷ us) = Spec-bind _ _ (Spec-inspect_prepared _) λ code _.
      Spec-if (eqb code 0) (abort_symbolic X store e)
        (if not (eqb code 1) then abort_unknown X store e else check_prepared X store e us)
        (λ _. Spec-abort_symbolic)
        λ _.
          Spec-if (not (eqb code 1)) (abort_unknown X store e) (check_prepared X store e us)
            (λ _. Spec-abort_unknown) λ _. Spec-check_prepared us

  Spec-commit_prepared : (us : List RefUpdate) → Spec P Anything (commit_prepared X store e us)
  unfolding commit_prepared
  Spec-commit_prepared us =
      Spec-bind _ _ (Spec-check_prepared us)
        λ _ _. Spec-bind _ _ (Spec-finish _) λ _ _. Spec-raise_when _ _ a.persistence

  Spec-after_prepare :
      (us : List RefUpdate) (p : Prepared) → Spec P Anything (after_prepare X store e us p)
  unfolding after_prepare timeout_error
  Spec-after_prepare us no_git = Spec-raise _ (a.provenance _ _)
  Spec-after_prepare us no_start = Spec-raise _ a.os
  Spec-after_prepare us silent = Spec-raise _ (a.provenance _ _)
  Spec-after_prepare us broken = Spec-abort_then _ a.os
  Spec-after_prepare us (answered started prepared) =
      Spec-if (not (started == "start: ok") || not (prepared == "prepare: ok"))
        (explain X store e us false) (commit_prepared X store e us) (λ _. Spec-explain us false)
        λ _. Spec-commit_prepared us

  value_allowed : (f : Error) → is_value_error f ≡ true → P f
  value_allowed (value_error s) k = a.value s
  value_allowed _ k = absurd (cc k)

  operations_allowed :
      (r : Result (List String))
      → ((f : Error) → r ≡ err f → is_value_error f ≡ true)
      → Post P Anything r
  operations_allowed (ok ls) h = tt
  operations_allowed (err f) h = value_allowed f (h f refl)

  Spec-prepare :
      (ls : List String) → Spec P Anything (prepare_refs X store.checkout e.reflog_message ls)
  unfolding prepare_refs
  Spec-prepare ls = record { at = λ s. tt }

  Spec-update_refs : (us : List RefUpdate) → Spec P Anything (update_refs X store e us)
  unfolding update_refs
  Spec-update_refs [] = Spec-raise _ (a.value _)
  Spec-update_refs (u ∷ us) =
      Spec-bind _ _
        (Spec-lift _ (operations_allowed (operations (u ∷ us)) λ f h. operations-raises (u ∷ us) h))
        λ ls _. Spec-bind _ _ (Spec-prepare ls) λ p _. Spec-after_prepare (u ∷ us) p

  pub Spec-update_ref :
      (ref_name commit expected : String)
      → Spec P Anything (update_ref X store e ref_name commit expected)
  unfolding update_ref
  Spec-update_ref ref_name commit expected =
      Spec-update_refs
        (record { ref_name = ref_name; commit = some commit; expected = expected } ∷ [])
