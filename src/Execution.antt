-- ===== src/Execution.antt =====
-- peoplebot/execution.py: bounded Execution provenance records. `Timestamp` has the subset of
-- RFC 3339 that the records use, `Usage` the usage observations, `Outcome` the theorems.
pub mod Timestamp
pub mod Usage
pub mod Outcome
pub mod Dict
use peoplebot_releases.Base.{
  String, ◌<>◌, Bool, true, false, not, ◌&&◌, ◌||◌, Option, none, some, List, [], ◌∷◌, ltb, length,
  keep, is_some, ◌==◌, if◌then◌else◌,
}
use peoplebot_releases.Base.Result.{Error, Result, ok, err, value_error, raise_if, ◌>>=◌, ◌>>◌}
use peoplebot_releases.Json.{str}
use peoplebot_releases.State.{StateRef, same_state, require_identity}
use Timestamp.{utc_timestamp, earlier}
use Usage.{UsageObservation}

pub data ExecutionStatus : Type 0 where
  completed no_change blocked failed : ExecutionStatus

-- `_require_text` of a text
unfoldable pub require_text : String → String → Result String
require_text value label = require_identity (str value) label

pub record TerminalOutcome : Type 0 where
  pub code : String
  pub summary : String

-- TerminalOutcome(code, summary)
unfoldable pub terminal_outcome : String → String → Result TerminalOutcome
terminal_outcome code summary = do
  c ← require_text code "terminal outcome code"
  s ← require_text summary "terminal outcome summary"
  ok (record { code = c; summary = s })

-- The fields of an ExecutionRecord, their types as its annotations say.
pub record ExecutionRecord : Type 0 where
  pub execution_id : String
  pub environment_id : String
  pub instance_id : String
  pub objective : String
  pub started_at : String
  pub finished_at : String
  pub starting_state : StateRef
  pub blueprint : StateRef
  pub adapter : StateRef
  pub status : ExecutionStatus
  pub procedures : List StateRef
  pub input_states : List StateRef
  pub input_messages : List StateRef
  pub resulting_state : Option StateRef
  pub terminal_outcome : Option TerminalOutcome
  pub artifacts : List StateRef
  pub usage : List UsageObservation
  pub reusable_learning : List StateRef

-- self.status in {COMPLETED, NO_CHANGE}
abbrev pub is_success : ExecutionStatus → Bool
is_success completed = true
is_success no_change = true
is_success blocked = false
is_success failed = false

abbrev pub is_no_change : ExecutionStatus → Bool
is_no_change no_change = true
is_no_change completed = false
is_no_change blocked = false
is_no_change failed = false

abbrev is_path_none : StateRef → Bool
is_path_none s = not (is_some s.path)

-- A recoverable partial State: a whole commit of the repository that the Execution began in.
abbrev pub is_partial : StateRef → StateRef → Bool
is_partial start artifact = artifact.repository == start.repository && is_path_none artifact

unfoldable pub partial_state_artifacts : ExecutionRecord → List StateRef
partial_state_artifacts r = keep (is_partial r.starting_state) r.artifacts

abbrev first {ℓ} : {A : Type ℓ} → List A → Option A
first [] = none
first (x ∷ xs) = some x

-- ExecutionRecord.partial_state
unfoldable pub partial_state : ExecutionRecord → Option StateRef
partial_state r = if is_success r.status then none else first (partial_state_artifacts r)

-- self.resulting_state != self.starting_state
abbrev pub retains : StateRef → Option StateRef → Bool
retains start none = false
retains start (some s) = same_state s start

-- The tests on the status, the resulting State and the terminal outcome.
check_outcome : ExecutionRecord → Result (Unit {0})
check_outcome r = do
  raise_if (is_success r.status && (not (is_some r.resulting_state) || is_some r.terminal_outcome))
      (value_error "completed/no_change Execution requires resulting State only")
  raise_if
      (not (is_success r.status) && (not (is_some r.terminal_outcome) || is_some r.resulting_state))
      (value_error "blocked/failed Execution requires terminal outcome only")
  raise_if (is_no_change r.status && not (retains r.starting_state r.resulting_state))
      (value_error "no_change Execution must retain its starting State")
  raise_if (not (is_success r.status) && ltb 1 (length (partial_state_artifacts r)))
      (value_error "blocked/failed Execution permits at most one recoverable partial State")

-- ExecutionRecord.__post_init__, whose tests of types the record's types make.
unfoldable pub execution_record : ExecutionRecord → Result ExecutionRecord
unfolding check_outcome
execution_record r = do
  require_text r.execution_id "execution_id"
  require_text r.environment_id "environment_id"
  require_text r.instance_id "instance_id"
  require_text r.objective "objective"
  started ← utc_timestamp (str r.started_at) "started_at"
  finished ← utc_timestamp (str r.finished_at) "finished_at"
  raise_if (earlier finished started) (value_error "finished_at must not precede started_at")
  check_outcome r
  ok r
