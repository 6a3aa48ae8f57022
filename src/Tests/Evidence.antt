-- ===== src/Tests/Evidence.antt =====
-- The theorems of the evidence and of the admitted run at concrete inputs.
use peoplebot_releases.Base.{◌≡◌, ◌↔◌, refl, none, []}
use peoplebot_releases.Base.Result.{ok, err, os_error, is_exception}
use peoplebot_releases.Base.Exec.{Exec, pure, raise}
use peoplebot_releases.Base.Exec.Spec.{Spec}
use peoplebot_releases.State.{require_identity}
use peoplebot_releases.Admission
use peoplebot_releases.Admission.{holder, resource_path}
use peoplebot_releases.Admission.Runs.{CanLock, entered}
use peoplebot_releases.Host.{World}
use peoplebot_releases.Execution.{ExecutionRecord, require_text}
use peoplebot_releases.Provenance.Plumbing.{AttemptStore}
use peoplebot_releases.Provenance.Attempt.{
  ExecutionStart, ExecutionAttemptRecord, PersistedEvidence, admitted_start, attempt_record,
  validate_terminal_binding,
}
use peoplebot_releases.Provenance.Attempt.Laws.{start_of, validate_terminal_binding_iff}
use peoplebot_releases.Provenance.Evidence.{execution_path, persist_terminal}
use peoplebot_releases.Provenance.Evidence.Laws.{IsStarted, IsEvidence, persist_terminal-IsEvidence}
use peoplebot_releases.Provenance.Run.{
  EvidenceStore, git_evidence_store, run_with_execution_provenance,
}
use peoplebot_releases.Provenance.Run.Laws.{
  IsRunResult, run_with_execution_provenance-IsRunResult, run_with_execution_provenance-unstarted,
}
use peoplebot_releases.Tests.Samples.{Script, scripted, world_of, state_a, state_b}
use peoplebot_releases.Tests.Records.{failed_record}

abbrev attempts : AttemptStore
attempts = record { checkout = "/work/repo"; repository = "repo" }

abbrev started_evidence : PersistedEvidence
started_evidence = record { state = state_a; ref_name = "refs/peoplebot/attempts/v0/1" }

persist_terminal-IsEvidence_example :
    Spec
      (λ _. Unit)
      (λ e.
        IsStarted scripted attempts started_evidence failed_record
        × IsEvidence attempts execution_path started_evidence.ref_name e)
      (persist_terminal scripted attempts started_evidence failed_record none)
persist_terminal-IsEvidence_example =
    persist_terminal-IsEvidence scripted attempts started_evidence failed_record none

abbrev review_start : ExecutionStart
review_start = record (start_of failed_record) { starting_state = state_b }

validate_terminal_binding_iff_example :
    (validate_terminal_binding review_start failed_record ≡ ok tt)
    ↔ (start_of failed_record ≡ review_start)
validate_terminal_binding_iff_example = validate_terminal_binding_iff review_start failed_record

abbrev review : Exec (World Script) ExecutionRecord
review = pure failed_record

abbrev crash : Exec (World Script) ExecutionRecord
crash = raise os_error

run_with_execution_provenance-IsRunResult_example :
    Spec
      (λ _. Unit)
      (IsRunResult scripted.sha256 "/run"
        (git_evidence_store scripted attempts)
        review_start
        review
        (λ e. review)
        none)
      (run_with_execution_provenance scripted.sha256 "/run"
        (git_evidence_store scripted attempts)
        review_start
        review
        (λ e. review)
        none)
run_with_execution_provenance-IsRunResult_example =
    run_with_execution_provenance-IsRunResult scripted.sha256 "/run"
      (git_evidence_store scripted attempts) review_start review (λ e. review) none

-- A store that cannot write.
abbrev no_store : EvidenceStore Script
no_store = record {
  persist_start = λ r. raise os_error;
  persist_end = λ e r artifacts. raise os_error;
}

abbrev at_start : World Script
at_start = world_of []

start-CanLock : CanLock scripted.sha256 "/run" "env" "bob" "x-1" at_start
unfolding Admission.require_identity
start-CanLock = record {
  environment = refl;
  instance_id = refl;
  execution = refl;
  windows = refl;
  absolute = refl;
  opens = refl;
  locks = refl;
  closes = refl;
  unlocks = refl;
}

start_free : holder (resource_path scripted.sha256 "/run" "env" "bob") at_start.os.held ≡ none
unfolding holder
start_free = refl

abbrev admitted_attempt : ExecutionAttemptRecord
admitted_attempt = record {
  start = review_start;
  phase = admitted_start;
  admission_code = "admission.acquired";
}

attempt_made : attempt_record review_start admitted_start "admission.acquired" ≡ ok admitted_attempt
unfolding attempt_record require_text require_identity
attempt_made = refl

refused :
    no_store.persist_start admitted_attempt
      (entered scripted.sha256 "/run" "env" "bob" "x-1" at_start)
    ≡ (err os_error, entered scripted.sha256 "/run" "env" "bob" "x-1" at_start)
unfolding raise
refused = refl

run_with_execution_provenance-unstarted_example :
    run_with_execution_provenance scripted.sha256 "/run" no_store review_start review
      (λ e. review)
      none
      at_start
    ≡ run_with_execution_provenance scripted.sha256 "/run" no_store review_start crash
        (λ e. review)
        none
        at_start
unfolding is_exception
run_with_execution_provenance-unstarted_example =
    run_with_execution_provenance-unstarted scripted.sha256 "/run" no_store review_start review
      crash (λ e. review) none at_start (entered scripted.sha256 "/run" "env" "bob" "x-1" at_start)
      admitted_attempt os_error start-CanLock start_free attempt_made refused refl
