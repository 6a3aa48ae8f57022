-- ===== src/WorkCycle/Tick/Reply.antt =====
-- `_reply_message` of peoplebot/work_cycle.py.
pub mod Laws
use peoplebot_releases.Base.{
  String, ◌<>◌, Bool, not, ◌||◌, Option, none, some, List, [], ◌∷◌, ◌++◌, any, codes, if◌then◌else◌,
}
use peoplebot_releases.Base.Result.{Result}
use peoplebot_releases.Json.{str}
use peoplebot_releases.State.{StateRef, same_state}
use peoplebot_releases.Admission.Identity.{Bytes, utf8}
use peoplebot_releases.Messaging.Message.{Message, MessageFields, message, reply}
use peoplebot_releases.Messaging.Store.{PublishedMessage}
use peoplebot_releases.WorkCycle.Progress.{disposition_text}
use peoplebot_releases.WorkCycle.Policy.{TaskHandlerResult}
use peoplebot_releases.WorkCycle.Bindings.{CycleBindings}

-- What the identity of a reply is the digest of.
unfoldable pub reply_input : String → String → String → Bytes
reply_input environment_id message_id disposition =
    utf8 (codes "peoplebot.reply.v0\0")
    ++ utf8 (codes environment_id)
    ++ 0 ∷ utf8 (codes message_id)
    ++ 0 ∷ utf8 (codes disposition)

-- states, with the State of the memory last, unless it is one of them
abbrev pub with_memory : List StateRef → Option StateRef → List StateRef
with_memory states none = states
with_memory states (some m) = if any (same_state m) states then states else states ++ m ∷ []

-- The arguments of the Message(...).
abbrev pub reply_fields :
    (Bytes → String)
    → String
    → Message
    → TaskHandlerResult
    → String
    → Option StateRef
    → MessageFields
reply_fields sha256 environment_id request result created_at memory_state = record {
  message_id = str (
      "reply-"
      <> sha256
          (reply_input environment_id request.message_id (disposition_text result.disposition)));
  kind = reply;
  sender = str environment_id;
  recipient = str request.sender;
  task_id = str request.task_id;
  correlation_id = str request.correlation_id;
  purpose = str (request.purpose <> ".result");
  content = str result.reply_content;
  created_at = str created_at;
  reply_to = str request.message_id;
  states = with_memory result.states memory_state;
}

-- `_reply_message`
unfoldable pub reply_to_request :
    (Bytes → String)
    → CycleBindings
    → PublishedMessage
    → TaskHandlerResult
    → String
    → Option StateRef
    → Result Message
reply_to_request sha256 bindings published result created_at memory_state =
    message
      (reply_fields sha256 bindings.environment_id published.message result created_at memory_state)
