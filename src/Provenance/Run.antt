-- ===== src/Provenance/Run.antt =====
-- `run_with_execution_provenance` of peoplebot/provenance.py: one admitted task between the evidence of
-- its start and that of its end. The store of the evidence is an interface, as in the source.
pub mod Laws
use peoplebot_releases.Base.{
  String, ◌<>◌, Bool, true, false, not, Option, none, some, List, [], ◌∷◌, is_some, if◌then◌else◌,
}
use peoplebot_releases.Base.Result.{
  Error, Result, ok, err, value_error, admission_error, unresolved_ownership, is_exception,
  exception_type,
}
use peoplebot_releases.Base.Exec.{Exec, pure, raise, lift, catch, raise_when, ◌>>=◌, ◌>>◌}
use peoplebot_releases.Admission.Identity.{Bytes}
use peoplebot_releases.Admission.{
  AdmissionAttempt, AdmissionRelease, ExecutionAdmission, try_acquire_execution, release,
}
use peoplebot_releases.Execution.{
  ExecutionStatus, completed, no_change, blocked, failed, ExecutionRecord, TerminalOutcome,
  terminal_outcome,
}
use peoplebot_releases.Host.{External, Host, World}
use peoplebot_releases.Provenance.Plumbing.{AttemptStore}
use peoplebot_releases.Provenance.Attempt.{
  AttemptPhase, rejected, admitted_start, ExecutionStart, ExecutionAttemptRecord, attempt_record,
  PersistedEvidence, persistence_failure, record_failure, validate_terminal_binding,
}
use peoplebot_releases.Provenance.Evidence.{persist_attempt, persist_terminal}

-- AttemptEvidenceStore
pub record EvidenceStore (R : Type 0) : Type 0 where
  pub persist_start : ExecutionAttemptRecord → Exec (World R) PersistedEvidence
  pub persist_end :
      PersistedEvidence
      → ExecutionRecord
      → Option (List (String × String))
      → Exec (World R) PersistedEvidence

-- GitAttemptStore as an AttemptEvidenceStore
abbrev pub git_evidence_store : (X : External) → AttemptStore → EvidenceStore X.Repo
git_evidence_store X store = record {
  persist_start = persist_attempt X store;
  persist_end = persist_terminal X store;
}

-- The locals of the try block, which the result reports.
pub record Observed : Type 0 where
  pub task_started : Bool
  pub start_evidence : Option PersistedEvidence
  pub execution_record : Option ExecutionRecord
  pub terminal_evidence : Option PersistedEvidence
  pub task_failure : Option TerminalOutcome
  pub record_failure : Option TerminalOutcome
  pub persistence_failure : Option TerminalOutcome

pub record ProvenanceRunResult : Type 0 where
  pub admission_code : String
  pub attempt_record : ExecutionAttemptRecord
  pub observed : Observed
  pub release_failure : Option TerminalOutcome
  pub retained_admission : Option ExecutionAdmission

-- Nothing is observed, but what the store gives or raises for the attempt.
abbrev pub only_attempt : Option PersistedEvidence → Option TerminalOutcome → Observed
only_attempt evidence failure = record {
  task_started = false;
  start_evidence = evidence;
  execution_record = none;
  terminal_evidence = none;
  task_failure = none;
  record_failure = none;
  persistence_failure = failure;
}

-- What is observed with a record, and without.
abbrev pub with_record :
    PersistedEvidence
    → ExecutionRecord
    → Option TerminalOutcome
    → Option PersistedEvidence
    → Option TerminalOutcome
    → Observed
with_record evidence r task_failure terminal failure = record {
  task_started = true;
  start_evidence = some evidence;
  execution_record = some r;
  terminal_evidence = terminal;
  task_failure = task_failure;
  record_failure = none;
  persistence_failure = failure;
}

abbrev pub without_record : PersistedEvidence → Option TerminalOutcome → TerminalOutcome → Observed
without_record evidence task_failure failure = record {
  task_started = true;
  start_evidence = some evidence;
  execution_record = none;
  terminal_evidence = none;
  task_failure = task_failure;
  record_failure = some failure;
  persistence_failure = none;
}

abbrev pub is_failed : ExecutionStatus → Bool
is_failed failed = true
is_failed completed = false
is_failed no_change = false
is_failed blocked = false

-- phase
abbrev pub phase_of : AdmissionAttempt → AttemptPhase
phase_of a = if is_some a.admission then admitted_start else rejected

module _ {S A : Type 0} where
  -- try: m; except Exception as error
  unfoldable pub try_exception : Exec S A → Exec S (Result A)
  try_exception m =
      catch (do a ← m; pure (ok a)) (λ e. if is_exception e then some (pure (err e)) else none)

module _ {R : Type 0} where
  -- except AdmissionError, of the release: the failure, and the admission as it is left.
  after_release :
      Result AdmissionRelease
      → ExecutionAdmission
      → Exec (World R) (Option TerminalOutcome × Option ExecutionAdmission)
  after_release (ok _) h = pure (none, none)
  after_release (err (admission_error code detail)) h = do
    f ← lift (terminal_outcome code detail)
    pure (some f, some h)
  after_release (err e) h = raise e

  released :
      ExecutionAdmission → Exec (World R) (Option TerminalOutcome × Option ExecutionAdmission)
  unfolding after_release
  released admission w = let ((r, h), w') = release admission w in after_release r h w'

module _ (sha256 : Bytes → String) {R : Type 0} (runtime_root : String) (store : EvidenceStore R)
    (start : ExecutionStart) (task : Exec (World R) ExecutionRecord)
    (failure_record : Error → Exec (World R) ExecutionRecord)
    (terminal_artifacts : Option (ExecutionRecord → Exec (World R) (List (String × String)))) where
  -- failure_record, and its test
  checked_failure : Error → Exec (World R) ExecutionRecord
  checked_failure e = do
    r ← failure_record e
    raise_when (not (is_failed r.status))
        (value_error "failure_record must return a failed ExecutionRecord")
    pure r

  -- The task failure, and the candidate record or what its production raised.
  after_task :
      Result ExecutionRecord → Exec (World R) (Option TerminalOutcome × Result ExecutionRecord)
  unfolding checked_failure
  after_task (ok r) = pure (none, ok r)
  after_task (err e) = do
    f ← lift (terminal_outcome "execution.task_raised" ("task raised " <> exception_type e))
    r ← try_exception (checked_failure e)
    pure (some f, r)

  -- terminal_artifacts(execution_record), and persist_terminal
  persist_with :
      Option (ExecutionRecord → Exec (World R) (List (String × String)))
      → PersistedEvidence
      → ExecutionRecord
      → Exec (World R) PersistedEvidence
  persist_with none evidence r = store.persist_end evidence r none
  persist_with (some artifacts_of) evidence r = do
    artifacts ← artifacts_of r
    store.persist_end evidence r (some artifacts)

  ended :
      PersistedEvidence
      → ExecutionRecord
      → Option TerminalOutcome
      → Result PersistedEvidence
      → Exec (World R) Observed
  ended evidence r task_failure (ok terminal) =
      pure (with_record evidence r task_failure (some terminal) none)
  ended evidence r task_failure (err e) = do
    f ← lift (persistence_failure e)
    pure (with_record evidence r task_failure none (some f))

  -- The evidence of the end, for a record that is bound to the start; or the record failure.
  conclude_record :
      PersistedEvidence → Option TerminalOutcome → Result ExecutionRecord → Exec (World R) Observed
  unfolding persist_with ended
  conclude_record evidence task_failure (ok r) = do
    terminal ← try_exception (persist_with terminal_artifacts evidence r)
    ended evidence r task_failure terminal
  conclude_record evidence task_failure (err e) = do
    f ← lift (record_failure e)
    pure (without_record evidence task_failure f)

  -- `_validate_terminal_binding` of a candidate
  bound_record : Result ExecutionRecord → Result ExecutionRecord
  bound_record (err e) = err e
  bound_record (ok r) = elim (validate_terminal_binding start r) [ ok _ ↦ ok r | err e ↦ err e ]

  -- The else branch: the start is committed.
  after_evidence : PersistedEvidence → Exec (World R) Observed
  unfolding after_task conclude_record bound_record
  after_evidence evidence = try_exception task >>= λ ran.
      after_task ran >>= λ (task_failure, candidate).
      conclude_record evidence task_failure (bound_record candidate)

  after_start : Result PersistedEvidence → Exec (World R) Observed
  unfolding after_evidence
  after_start (ok evidence) = after_evidence evidence
  after_start (err e) = do f ← lift (persistence_failure e); pure (only_attempt none (some f))

  -- The try block.
  unfoldable pub observe_attempt : ExecutionAttemptRecord → Exec (World R) Observed
  unfolding after_start
  observe_attempt r = do evidence ← try_exception (store.persist_start r); after_start evidence

  result_of :
      String
      → ExecutionAttemptRecord
      → Observed
      → Option TerminalOutcome × Option ExecutionAdmission
      → ProvenanceRunResult
  result_of code r observed (failure, kept) = record {
    admission_code = code;
    attempt_record = r;
    observed = observed;
    release_failure = failure;
    retained_admission = kept;
  }

  -- except BaseException and finally: UnresolvedExecutionOwnership keeps the admission.
  concluded :
      String
      → ExecutionAttemptRecord
      → ExecutionAdmission
      → Result Observed
      → Exec (World R) ProvenanceRunResult
  unfolding released result_of
  concluded code r admission (ok observed) = do
    kept ← released admission
    pure (result_of code r observed kept)
  concluded code r admission (err (unresolved_ownership m)) = raise (unresolved_ownership m)
  concluded code r admission (err e) = do released admission; raise e

  -- The evidence of a rejected attempt.
  rejection : Result PersistedEvidence → Exec (World R) Observed
  rejection (ok evidence) = pure (only_attempt (some evidence) none)
  rejection (err e) = do f ← lift (persistence_failure e); pure (only_attempt none (some f))

  admitted :
      String → ExecutionAttemptRecord → ExecutionAdmission → Exec (World R) ProvenanceRunResult
  unfolding concluded
  admitted code r admission w =
      let (observed, w') = observe_attempt r w in concluded code r admission observed w'

  under_attempt :
      String
      → ExecutionAttemptRecord
      → Option ExecutionAdmission
      → Exec (World R) ProvenanceRunResult
  unfolding admitted rejection result_of
  under_attempt code r none = do
    evidence ← try_exception (store.persist_start r)
    observed ← rejection evidence
    pure (result_of code r observed (none, none))
  under_attempt code r (some admission) = admitted code r admission

  unfoldable pub run_with_execution_provenance : Exec (World R) ProvenanceRunResult
  unfolding under_attempt
  run_with_execution_provenance = do
    attempt ←
        try_acquire_execution sha256 runtime_root start.environment_id start.instance_id
          start.execution_id
    r ← lift (attempt_record start (phase_of attempt) attempt.code)
    under_attempt attempt.code r attempt.admission
