-- ===== src/Provenance/Attempt.antt =====
-- ExecutionStart, ExecutionAttemptRecord and PersistedEvidence of peoplebot/provenance.py, and the
-- binding of a terminal record to its start.
pub mod Laws
use peoplebot_releases.Base.{
  ℕ, String, ◌<>◌, Bool, true, false, not, ◌&&◌, ◌||◌, Option, none, some, List, [], ◌∷◌, ◌++◌,
  codes, is_some, ◌==◌, if◌then◌else◌,
}
use peoplebot_releases.Base.Result.{
  Error, Result, ok, err, value_error, provenance_error, resolution_error, exception_type, raise_if,
  ◌>>=◌, ◌>>◌,
}
use peoplebot_releases.Json.{Value, bool, str, obj, field, end, stable_json_bytes}
use peoplebot_releases.State.{StateRef, same_state, state_dict}
use peoplebot_releases.Admission.Identity.{Bytes, utf8, frames}
use peoplebot_releases.Execution.{ExecutionRecord, TerminalOutcome, terminal_outcome, require_text}
use peoplebot_releases.Execution.Dict.{states_dict}
use peoplebot_releases.Execution.Timestamp.{utc_timestamp}

pub data AttemptPhase : Type 0 where
  rejected admitted_start : AttemptPhase

-- The value of the enum's member.
abbrev pub phase_text : AttemptPhase → String
phase_text rejected = "rejected"
phase_text admitted_start = "admitted_start"

pub record ExecutionStart : Type 0 where
  pub execution_id : String
  pub environment_id : String
  pub instance_id : String
  pub objective : String
  pub started_at : String
  pub starting_state : StateRef
  pub blueprint : StateRef
  pub adapter : StateRef
  pub procedures : List StateRef
  pub input_states : List StateRef
  pub input_messages : List StateRef

-- ExecutionStart.__post_init__, whose tests of types the record's types make.
unfoldable pub execution_start : ExecutionStart → Result ExecutionStart
execution_start s = do
  require_text s.execution_id "execution_id"
  require_text s.environment_id "environment_id"
  require_text s.instance_id "instance_id"
  require_text s.objective "objective"
  utc_timestamp (str s.started_at) "started_at"
  raise_if (is_some s.starting_state.path)
      (value_error "starting_state must identify a repository-level commit")
  ok s

pub record ExecutionAttemptRecord : Type 0 where
  pub start : ExecutionStart
  pub phase : AttemptPhase
  pub admission_code : String

abbrev expected_code : AttemptPhase → String
expected_code rejected = "instance.already_running"
expected_code admitted_start = "admission.acquired"

-- ExecutionAttemptRecord(start, phase, admission_code)
unfoldable pub attempt_record :
    ExecutionStart → AttemptPhase → String → Result ExecutionAttemptRecord
attempt_record start phase admission_code = do
  require_text admission_code "admission_code"
  raise_if (not (admission_code == expected_code phase))
      (value_error (phase_text phase <> " requires admission code " <> expected_code phase))
  ok (record { start = start; phase = phase; admission_code = admission_code })

-- ExecutionAttemptRecord.to_dict
unfoldable pub attempt_dict : ExecutionAttemptRecord → Value
attempt_dict r = obj (
    field "adapter" (obj (state_dict r.start.adapter)) (
      field "admission_code" (str r.admission_code) (
        field "blueprint" (obj (state_dict r.start.blueprint)) (
          field "environment_id" (str r.start.environment_id) (
            field "execution_id" (str r.start.execution_id) (
              field "format" (str "peoplebot.execution-attempt.v0") (
                field "input_messages" (states_dict r.start.input_messages) (
                  field "input_states" (states_dict r.start.input_states) (
                    field "instance_id" (str r.start.instance_id) (
                      field "objective" (str r.start.objective) (
                        field "phase" (str (phase_text r.phase)) (
                          field "procedures" (states_dict r.start.procedures) (
                            field "started_at" (str r.start.started_at) (
                              field "starting_state" (obj (state_dict r.start.starting_state))
                                (field "task_started" (bool false) end)))))))))))))))

-- ExecutionAttemptRecord.to_json_bytes
unfoldable pub attempt_bytes : ExecutionAttemptRecord → String
attempt_bytes r = stable_json_bytes (attempt_dict r)

-- PersistedEvidence(state, ref_name), whose other fields keep their defaults.
pub record PersistedEvidence : Type 0 where
  pub state : StateRef
  pub ref_name : String

-- What `_attempt_digest` hashes.
unfoldable pub attempt_input : ExecutionStart → Bytes
attempt_input s =
    utf8 (codes "peoplebot.execution-provenance.v0\0attempt\0")
    ++ frames (s.starting_state.repository ∷ s.environment_id ∷ s.instance_id ∷ s.execution_id ∷ [])

-- The reference of an attempt.
unfoldable pub attempt_ref : (Bytes → String) → ExecutionStart → String
attempt_ref sha256 s = "refs/peoplebot/attempts/v0/" <> sha256 (attempt_input s)

-- `_persistence_failure`
unfoldable pub persistence_failure : Error → Result TerminalOutcome
persistence_failure (provenance_error code detail) = terminal_outcome code detail
persistence_failure (resolution_error code detail) = terminal_outcome code detail
persistence_failure e =
    terminal_outcome "provenance.persistence_failed"
      ("evidence persistence raised " <> exception_type e)

-- `_record_failure`
unfoldable pub record_failure : Error → Result TerminalOutcome
record_failure e =
    terminal_outcome "provenance.execution_record_unavailable"
      ("terminal record production raised " <> exception_type e)

-- == of tuples of States
unfoldable pub same_states : List StateRef → List StateRef → Bool
same_states [] [] = true
same_states (s ∷ ss) (t ∷ ts) = same_state s t && same_states ss ts
same_states _ _ = false

mismatch : Bool → String → Result (Unit {0})
mismatch same name =
    raise_if (not same)
      (value_error ("terminal ExecutionRecord " <> name <> " does not match start evidence"))

-- `_validate_terminal_binding` of an ExecutionRecord
unfoldable pub validate_terminal_binding : ExecutionStart → ExecutionRecord → Result (Unit {0})
unfolding mismatch same_states
validate_terminal_binding s r = do
  mismatch (r.execution_id == s.execution_id) "execution_id"
  mismatch (r.environment_id == s.environment_id) "environment_id"
  mismatch (r.instance_id == s.instance_id) "instance_id"
  mismatch (r.objective == s.objective) "objective"
  mismatch (r.started_at == s.started_at) "started_at"
  mismatch (same_state r.starting_state s.starting_state) "starting_state"
  mismatch (same_state r.blueprint s.blueprint) "blueprint"
  mismatch (same_state r.adapter s.adapter) "adapter"
  mismatch (same_states r.procedures s.procedures) "procedures"
  mismatch (same_states r.input_states s.input_states) "input_states"
  mismatch (same_states r.input_messages s.input_messages) "input_messages"
