-- ===== src/Provenance/Plumbing/Laws.antt =====
-- The failures of GitAttemptStore's commands.
use peoplebot_releases.Base.{String, ◌<>◌, ◌≡◌, refl, true, List, arith, is_object_id}
use peoplebot_releases.Base.Result
use peoplebot_releases.Base.Result.{Error, Result, ok, err, provenance_error, value_error, os_error}
use peoplebot_releases.Base.Exec.Spec.{
  Spec, Post, Anything, Spec-pure, Spec-raise, Spec-lift, Spec-bind, Spec-guard,
}
use peoplebot_releases.State.Resolve.{Completed}
use peoplebot_releases.Json.{str}
use peoplebot_releases.State.Failures.{is_value_error}
use peoplebot_releases.Execution.Timestamp.{Datetime, utc_timestamp}
use peoplebot_releases.Execution.Timestamp.Failures.{utc_timestamp-raises}
use peoplebot_releases.Host.{
  External, Outcome, completed, not_found, timed_out, os_failed, run_command,
}
use peoplebot_releases.Provenance.Plumbing.{
  AttemptStore, git_outcome, git, object_id, write_blob, write_single, commit_date, write_commit,
}

abbrev pub IsProvenanceError : Error → Type 0
IsProvenanceError (provenance_error _ _) = Unit
IsProvenanceError _ = ⊥

module _ (X : External) (P : Error → Type 0) (value : (s : String) → P (value_error s)) where
  valued : (e : Error) → is_value_error e ≡ true → P e
  valued (value_error s) k = value s
  valued _ k = absurd (cc k)

  dated :
      (r : Result Datetime)
      → ((e : Error) → r ≡ err e → is_value_error e ≡ true)
      → Post P Anything (Result.◌>>=◌ r (λ d. ok ("@" <> X.unix_time d <> " +0000")))
  dated (ok d) h = tt
  dated (err e) h = valued e (h e refl)

  commit_date-Post : (t : String) → Post P Anything (commit_date X t)
  unfolding commit_date
  commit_date-Post t =
      dated (utc_timestamp (str t) "record timestamp") (λ e h. utc_timestamp-raises (str t) _ h)

module _ (X : External) {P : Error → Type 0}
    (provenance : (c d : String) → P (provenance_error c d)) (os : P os_error) where
  Spec-outcome : (o : Outcome) → Spec P Anything (git_outcome X o)
  unfolding git_outcome
  Spec-outcome (completed c out) = Spec-pure _ tt
  Spec-outcome not_found = Spec-raise _ (provenance _ _)
  Spec-outcome timed_out = Spec-raise _ (provenance _ _)
  Spec-outcome os_failed = Spec-raise _ os

  Spec-command :
      (c : String) (v : List (String × String)) (a : List String) (i : String)
      → Spec P Anything (run_command X c v a i)
  unfolding run_command
  Spec-command c v a i = record { at = λ s. tt }

  -- A command of Git raises ProvenanceError or OSError alone.
  pub Spec-git :
      (store : AttemptStore) (v : List (String × String)) (a : List String) (i : String)
      → Spec P Anything (git X store v a i)
  unfolding git
  Spec-git store v a i = Spec-bind _ _ (Spec-command _ _ _ _) λ o _. Spec-outcome o

  pub Spec-object_id :
      {S : Type 0} (c : Completed) (o : String)
      → Spec {S = S} P (λ s. is_object_id s ≡ true) (object_id c o)
  unfolding object_id
  Spec-object_id c o = Spec-guard _ _ _ (provenance _ _) λ h. Spec-pure _ (ground (arith, h))

  pub Spec-write_blob :
      (store : AttemptStore) (content : String)
      → Spec P (λ s. is_object_id s ≡ true) (write_blob X store content)
  unfolding write_blob
  Spec-write_blob store content = Spec-bind _ _ (Spec-git store _ _ _) λ c _. Spec-object_id c _

  pub Spec-write_single :
      (store : AttemptStore) (name blob operation : String)
      → Spec P (λ s. is_object_id s ≡ true) (write_single X store name blob operation)
  unfolding write_single
  Spec-write_single store name blob operation =
      Spec-bind _ _ (Spec-git store _ _ _) λ c _. Spec-object_id c _

  module _ (value : (s : String) → P (value_error s)) where
    -- A commit is written, or ProvenanceError, OSError or ValueError is raised.
    pub Spec-write_commit :
        (store : AttemptStore) (tree : String) (parents : List String) (time message : String)
        → Spec P (λ s. is_object_id s ≡ true) (write_commit X store tree parents time message)
    unfolding write_commit
    Spec-write_commit store tree parents time message =
        Spec-bind _ _ (Spec-lift _ (commit_date-Post X P value time)) λ date _.
          Spec-guard _ _ _ (value _)
            λ _. Spec-bind _ _ (Spec-git store _ _ _) λ c _. Spec-object_id c _
