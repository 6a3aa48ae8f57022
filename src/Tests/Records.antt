-- ===== src/Tests/Records.antt =====
-- The theorems of Execution at concrete inputs.
use peoplebot_releases.Base.{◌≡◌, ◌↔◌, ◌⊎◌, refl, none, some, [], ◌∷◌}
use peoplebot_releases.Base.Result.{ok}
use peoplebot_releases.State.{StateRef, require_identity}
use peoplebot_releases.Execution.{
  ExecutionRecord, failed, execution_record, partial_state, partial_state_artifacts, require_text,
}
use peoplebot_releases.Execution.Outcome.{
  IsBounded, ConcludesAs, execution_record_iff, partial_state_unique,
}
use peoplebot_releases.Execution.Timestamp.{utc_timestamp, earlier}
use peoplebot_releases.Tests.Samples.{state_a, state_b}

abbrev pub failed_record : ExecutionRecord
failed_record = record {
  execution_id = "x-1";
  environment_id = "env";
  instance_id = "bob";
  objective = "Review the plan.";
  started_at = "2026-01-02T03:04:05Z";
  finished_at = "2026-01-02T03:04:06.5Z";
  starting_state = state_a;
  blueprint = state_a;
  adapter = state_a;
  status = failed;
  procedures = [];
  input_states = [];
  input_messages = [];
  resulting_state = none;
  terminal_outcome = some (record { code = "task.failed"; summary = "It failed." });
  artifacts = state_a ∷ state_b ∷ [];
  usage = [];
  reusable_learning = [];
}

accepted : execution_record failed_record ≡ ok failed_record
unfolding execution_record require_text require_identity utc_timestamp earlier
    partial_state_artifacts
accepted = refl

execution_record_iff_example :
    (execution_record failed_record ≡ ok failed_record)
    ↔ (IsBounded failed_record × ConcludesAs failed failed_record)
execution_record_iff_example = execution_record_iff failed_record

partial_state_unique_example :
    ((partial_state_artifacts failed_record ≡ []) × (partial_state failed_record ≡ none))
    ⊎ ((s : StateRef) × (partial_state_artifacts failed_record ≡ s ∷ [])
        × (partial_state failed_record ≡ some s))
partial_state_unique_example = partial_state_unique failed_record accepted refl
