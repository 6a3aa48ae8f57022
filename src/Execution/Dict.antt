-- ===== src/Execution/Dict.antt =====
-- The dicts of the records of peoplebot/execution.py.
use peoplebot_releases.Base.{String, Option, none, some, List}
use peoplebot_releases.Json.{Value, null, str, obj, arr, field, end, items, stable_json_bytes}
use peoplebot_releases.State.{StateRef, state_dict}
use peoplebot_releases.Execution.{
  ExecutionStatus, completed, no_change, blocked, failed, TerminalOutcome, ExecutionRecord,
}
use peoplebot_releases.Execution.Usage.{
  UsageSource, UsageConfidence, UsageObservation, provider_reported, locally_calculated, exact,
  estimated,
}

-- The value of the enum's member.
abbrev pub status_text : ExecutionStatus → String
status_text completed = "completed"
status_text no_change = "no_change"
status_text blocked = "blocked"
status_text failed = "failed"

abbrev source_text : UsageSource → String
source_text provider_reported = "provider_reported"
source_text locally_calculated = "locally_calculated"
source_text UsageSource.unknown = "unknown"

abbrev confidence_text : UsageConfidence → String
confidence_text exact = "exact"
confidence_text estimated = "estimated"
confidence_text UsageConfidence.unknown = "unknown"

-- TerminalOutcome.to_dict
unfoldable pub outcome_dict : TerminalOutcome → Value
outcome_dict t = obj (field "code" (str t.code) (field "summary" (str t.summary) end))

-- UsageObservation.to_dict
unfoldable pub usage_dict : UsageObservation → Value
usage_dict u = obj (
    field "confidence" (str (confidence_text u.confidence)) (
      field "metric" (str u.metric) (
        field "source" (str (source_text u.source))
          (field "unit" (str u.unit) (field "value" u.value end)))))

abbrev pub states_dict : List StateRef → Value
states_dict ss = arr (items (λ s. obj (state_dict s)) ss)

optional_dict : {A : Type 0} → (A → Value) → Option A → Value
optional_dict f none = null
optional_dict f (some x) = f x

-- ExecutionRecord.to_dict
unfoldable pub record_dict : ExecutionRecord → Value
unfolding optional_dict
record_dict r = obj (
    field "adapter" (obj (state_dict r.adapter)) (
      field "artifacts" (states_dict r.artifacts) (
        field "blueprint" (obj (state_dict r.blueprint)) (
          field "environment_id" (str r.environment_id) (
            field "execution_id" (str r.execution_id) (
              field "finished_at" (str r.finished_at) (
                field "format" (str "peoplebot.execution.v0") (
                  field "input_messages" (states_dict r.input_messages) (
                    field "input_states" (states_dict r.input_states) (
                      field "instance_id" (str r.instance_id) (
                        field "objective" (str r.objective) (
                          field "procedures" (states_dict r.procedures) (
                            field "resulting_state"
                              (optional_dict (λ s. obj (state_dict s)) r.resulting_state)
                              (field "reusable_learning" (states_dict r.reusable_learning) (
                                field "started_at" (str r.started_at) (
                                  field "status" (str (status_text r.status)) (
                                    field "terminal_outcome"
                                      (optional_dict outcome_dict r.terminal_outcome)
                                      (field "usage" (arr (items usage_dict r.usage))
                                        end))))))))))))))))))

-- ExecutionRecord.to_json_bytes
unfoldable pub record_bytes : ExecutionRecord → String
record_bytes r = stable_json_bytes (record_dict r)
