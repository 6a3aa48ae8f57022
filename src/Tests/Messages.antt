-- ===== src/Tests/Messages.antt =====
-- The theorems of Messaging.Message at concrete inputs.
use peoplebot_releases.Base.{
  ◌≡◌, ◌↔◌, refl, true, some, is_alphanumeric, is_identifier_code, is_object_id, contains_code,
}
use peoplebot_releases.Base.Result.{ok, err, value_error}
use peoplebot_releases.Json.{int, stable_json_bytes}
use peoplebot_releases.State.Failures.{is_value_error}
use peoplebot_releases.Messaging.Message.{
  identifier, states_unique, message_bytes, message, message_dict, message_from_dict,
  validate_correlated_reply, task, reply,
}
use peoplebot_releases.Messaging.Message.Laws.{
  IsBounded, message-IsBounded, message_from_dict-dict, validate_correlated_reply_iff,
}
use peoplebot_releases.Messaging.Message.Failures.{message_from_dict-raises}
use peoplebot_releases.State.{state_ref, require_identity, same_state, state_dict}
use peoplebot_releases.Execution.Timestamp.{utc_timestamp}
use peoplebot_releases.State.GitPath.{validate_git_path}
use peoplebot_releases.Tests.Samples.{task_fields, task_message, reply_message}

task_accepted : message task_fields ≡ ok task_message
unfolding message identifier require_identity is_alphanumeric is_identifier_code utc_timestamp
    states_unique same_state message_bytes stable_json_bytes state_dict
task_accepted = refl

message_from_dict-dict_example : message_from_dict (message_dict task_message) ≡ ok task_message
unfolding state_ref require_identity is_object_id validate_git_path contains_code
message_from_dict-dict_example =
    message_from_dict-dict task_fields {m = task_message} task_accepted (refl, (refl, tt))

message-IsBounded_example : IsBounded task_message
message-IsBounded_example = message-IsBounded task_fields {m = task_message} task_accepted

number_refused : message_from_dict (int 3) ≡ err (value_error "message fields are invalid")
unfolding message_from_dict
number_refused = refl

message_from_dict-raises_example : is_value_error (value_error "message fields are invalid") ≡ true
message_from_dict-raises_example = message_from_dict-raises (int 3) number_refused

validate_correlated_reply_iff_example :
    (validate_correlated_reply reply_message task_message ≡ ok tt) ↔ (
      (reply_message.kind ≡ reply)
      × (task_message.kind ≡ task)
      × (reply_message.reply_to ≡ some task_message.message_id)
      × (reply_message.task_id ≡ task_message.task_id)
      × (reply_message.correlation_id ≡ task_message.correlation_id)
      × (reply_message.sender ≡ task_message.recipient)
      × (reply_message.recipient ≡ task_message.sender))
validate_correlated_reply_iff_example = validate_correlated_reply_iff reply_message task_message
