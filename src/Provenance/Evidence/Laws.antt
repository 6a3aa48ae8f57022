-- ===== src/Provenance/Evidence/Laws.antt =====
-- What evidence that is persisted is bound to.
use peoplebot_releases.Base.{String, ◌≡◌, ap, ◌∙◌, Option, some, List, arith, eq_iff}
use peoplebot_releases.Base.Result.{ok, >>=-eq-ok}
use peoplebot_releases.Base.Exec.Spec.{
  Spec, Spec-bind, Spec-guard, Spec-any, Spec-lift_self, Spec-weaken,
}
use peoplebot_releases.Json.{str}
use peoplebot_releases.State.{state_ref}
use peoplebot_releases.State.Laws.{state_ref-eq-ok, opt_str-eq-str}
use peoplebot_releases.Host.{External}
use peoplebot_releases.Execution.{ExecutionRecord}
use peoplebot_releases.Provenance.Plumbing.{AttemptStore}
use peoplebot_releases.Provenance.Attempt.{
  ExecutionStart, execution_start, ExecutionAttemptRecord, PersistedEvidence, attempt_ref,
}
use peoplebot_releases.Provenance.Attempt.Laws.{start_of}
use peoplebot_releases.Provenance.Evidence.{
  attempt_path, execution_path, evidence_at, persist_attempt, persist_terminal, require_start,
}

-- Evidence of a path in the store's repository, on a reference.
pub record IsEvidence (store : AttemptStore) (path ref_name : String) (e : PersistedEvidence)
    : Type 0 where
  pub same_repository : e.state.repository ≡ store.repository
  pub same_path : e.state.path ≡ some path
  pub same_ref : e.ref_name ≡ ref_name

evidence_at-IsEvidence :
    (store : AttemptStore) (commit path ref_name : String) {e : PersistedEvidence}
    → evidence_at store commit path ref_name ≡ ok e
    → IsEvidence store path ref_name e
unfolding evidence_at
evidence_at-IsEvidence store commit path ref_name {e} h =
    let (s, made, rest) =
      >>=-eq-ok (state_ref (str store.repository) (str commit) (str path)) _ h in
    let (repository, _, selected, _) = state_ref-eq-ok _ _ _ made in
    let same : e ≡ record { state = s; ref_name = ref_name } = cc rest in
    record {
      same_repository = ap (λ x. x.state.repository) same ∙ cc repository;
      same_path = ap (λ x. x.state.path) same ∙ opt_str-eq-str s.path selected;
      same_ref = ap (λ x. x.ref_name) same;
    }

execution_start-eq-ok : (s : ExecutionStart) {t : ExecutionStart} → execution_start s ≡ ok t → t ≡ s
unfolding execution_start
execution_start-eq-ok s h = grind arith

module _ (X : External) (store : AttemptStore) where
  -- Whatever Git answers, `persist_attempt` that returns gives the State of attempt.json at some
  -- commit of the store's repository, on the reference of the start, which is of that repository.
  pub persist_attempt-IsEvidence :
      (r : ExecutionAttemptRecord)
      → Spec
          (λ _. Unit)
          (λ e.
            (r.start.starting_state.repository ≡ store.repository)
            × IsEvidence store attempt_path (attempt_ref X.sha256 r.start) e)
          (persist_attempt X store r)
  unfolding persist_attempt
  persist_attempt-IsEvidence r = Spec-guard _ _ _ tt λ here. Spec-bind _ _ (Spec-any _) λ _ _.
      Spec-bind _ _ (Spec-any _) λ blob _. Spec-bind _ _ (Spec-any _) λ tree _.
        Spec-bind _ _ (Spec-any _) λ commit _. Spec-bind _ _ (Spec-any _) λ _ _.
          Spec-weaken _ (Spec-lift_self _) λ e made. (
            ground (arith, here, eq_iff r.start.starting_state.repository store.repository),
            evidence_at-IsEvidence store commit attempt_path _ made,
          )

  -- The start evidence is of this store, on the reference of the record's inputs.
  pub record IsStarted (evidence : PersistedEvidence) (r : ExecutionRecord) : Type 0 where
    pub same_repository : evidence.state.repository ≡ store.repository
    pub same_ref : evidence.ref_name ≡ attempt_ref X.sha256 (start_of r)

  require_start-IsStarted :
      (evidence : PersistedEvidence) (r : ExecutionRecord)
      → Spec (λ _. Unit) (λ _. IsStarted evidence r) (require_start X store evidence r)
  unfolding require_start
  require_start-IsStarted evidence r = Spec-guard _ _ _ tt λ here.
      Spec-bind _ _ (Spec-lift_self _) λ start made. Spec-guard _ _ _ tt λ ref.
        Spec-bind _ _ (Spec-any _) λ _ _. Spec-bind _ _ (Spec-any _) λ expected _.
          Spec-bind _ _ (Spec-any _) λ content _. Spec-weaken _ (Spec-any _) λ _ _. record {
            same_repository =
                ground (arith, here, eq_iff evidence.state.repository store.repository);
            same_ref =
                ground (arith, ref, eq_iff evidence.ref_name (attempt_ref X.sha256 start))
                ∙ ap (attempt_ref X.sha256) (execution_start-eq-ok (start_of r) made);
          }

  -- Whatever Git answers, `persist_terminal` that returns had start evidence of this repository on the
  -- reference of the record's inputs, and gives the State of execution.json at some commit of the
  -- same repository, on the same reference.
  pub persist_terminal-IsEvidence :
      (evidence : PersistedEvidence) (r : ExecutionRecord)
      (artifacts : Option (List (String × String)))
      → Spec
          (λ _. Unit)
          (λ e. IsStarted evidence r × IsEvidence store execution_path evidence.ref_name e)
          (persist_terminal X store evidence r artifacts)
  unfolding persist_terminal
  persist_terminal-IsEvidence evidence r artifacts =
      Spec-bind _ _ (require_start-IsStarted evidence r) λ _ started.
        Spec-bind _ _ (Spec-any _) λ blob _. Spec-bind _ _ (Spec-any _) λ companion _.
          Spec-bind _ _ (Spec-any _) λ more _. Spec-bind _ _ (Spec-any _) λ tree _.
            Spec-bind _ _ (Spec-any _) λ commit _. Spec-bind _ _ (Spec-any _) λ _ _.
              Spec-weaken _ (Spec-lift_self _) λ e made.
                (started, evidence_at-IsEvidence store commit execution_path evidence.ref_name made)
