-- ===== src/Messaging/Message.antt =====
-- The messages of peoplebot/messaging.py: their construction, their dict, and correlated replies.
pub mod Laws
pub mod Failures
use peoplebot_releases.Base.{
  ℕ, String, ◌<>◌, len, Bool, true, false, not, ◌&&◌, ◌||◌, Option, none, some, List, [], ◌∷◌, ltb,
  length, any, ◌==◌, codes, identifier_codes, if◌then◌else◌, is_some,
}
use peoplebot_releases.Base.Result.{
  Error, Result, ok, err, value_error, message_error, raise_if, ◌>>=◌, ◌>>◌,
}
use peoplebot_releases.Json
use peoplebot_releases.Json.{
  Value, Items, Fields, null, str, arr, obj, nil, cons, end, field, opt_str, items, has_keys,
  stable_json_bytes,
}
use peoplebot_releases.State.{StateRef, state_ref, state_dict, same_state, require_identity}
use peoplebot_releases.Execution.Timestamp.{utc_timestamp}

-- `_identifier`: `_IDENTIFIER` is [A-Za-z0-9][A-Za-z0-9._:@/-]{0,127}
unfoldable pub identifier : Value → String → Result String
identifier value label = do
  text ← require_identity value label
  raise_if (not (identifier_codes (codes text)))
      (value_error (label <> " is not a bounded v0 identifier"))
  ok text

pub data MessageKind : Type 0 where
  task reply stop : MessageKind

-- The value of the enum's member.
abbrev pub kind_text : MessageKind → String
kind_text task = "task"
kind_text reply = "reply"
kind_text stop = "stop"

abbrev pub is_reply : MessageKind → Bool
is_reply task = false
is_reply reply = true
is_reply stop = false

pub record Message : Type 0 where
  pub message_id : String
  pub kind : MessageKind
  pub sender : String
  pub recipient : String
  pub task_id : String
  pub correlation_id : String
  pub purpose : String
  pub content : String
  pub created_at : String
  pub reply_to : Option String
  pub states : List StateRef

-- The arguments of Message(...), with JSON values where Python may be given any value.
pub record MessageFields : Type 0 where
  pub message_id : Value
  pub kind : MessageKind
  pub sender : Value
  pub recipient : Value
  pub task_id : Value
  pub correlation_id : Value
  pub purpose : Value
  pub content : Value
  pub created_at : Value
  pub reply_to : Value
  pub states : List StateRef

-- Message.to_dict
unfoldable pub message_dict : Message → Value
message_dict m = obj (
    field "content" (str m.content) (
      field "correlation_id" (str m.correlation_id) (
        field "created_at" (str m.created_at) (
          field "format" (str "peoplebot.message.v0") (
            field "kind" (str (kind_text m.kind)) (
              field "message_id" (str m.message_id) (
                field "purpose" (str m.purpose) (
                  field "recipient" (str m.recipient) (
                    field "reply_to" (opt_str m.reply_to) (
                      field "sender" (str m.sender) (
                        field "states" (arr (items (λ s. obj (state_dict s)) m.states))
                          (field "task_id" (str m.task_id) end))))))))))))

-- Message.to_json_bytes
unfoldable pub message_bytes : Message → String
unfolding message_dict
message_bytes m = stable_json_bytes (message_dict m)

-- len({...}) == len(self.states)
unfoldable pub states_unique : List StateRef → Bool
states_unique [] = true
states_unique (s ∷ ss) = not (any (same_state s) ss) && states_unique ss

optional_identifier : Value → String → Result (Option String)
optional_identifier null label = ok none
optional_identifier value label = do text ← identifier value label; ok (some text)

-- The tests of Message.__post_init__ that are not about one identifier alone.
check_message : Message → Result Message
check_message m = do
  raise_if (is_reply m.kind && not (is_some m.reply_to))
      (value_error "reply messages require reply_to")
  raise_if (not (is_reply m.kind) && is_some m.reply_to)
      (value_error "only reply messages may set reply_to")
  raise_if (ltb 8 (length m.states)) (value_error "message exceeds eight State references")
  raise_if (not (states_unique m.states)) (value_error "message State references must be unique")
  raise_if (ltb 16384 (len (message_bytes m)))
      (value_error "serialized message exceeds 16384 bytes")
  ok m

-- Message(...)
unfoldable pub message : MessageFields → Result Message
unfolding optional_identifier check_message
message f = do
  message_id ← identifier f.message_id "message_id"
  sender ← identifier f.sender "sender"
  recipient ← identifier f.recipient "recipient"
  task_id ← identifier f.task_id "task_id"
  correlation_id ← identifier f.correlation_id "correlation_id"
  purpose ← identifier f.purpose "purpose"
  content ← require_identity f.content "content"
  raise_if (ltb 4096 (len content)) (value_error "message content exceeds 4096 bytes")
  utc_timestamp f.created_at "created_at"
  created_at ← require_identity f.created_at "created_at"
  reply_to ← optional_identifier f.reply_to "reply_to"
  check_message (record {
    message_id = message_id;
    kind = f.kind;
    sender = sender;
    recipient = recipient;
    task_id = task_id;
    correlation_id = correlation_id;
    purpose = purpose;
    content = content;
    created_at = created_at;
    reply_to = reply_to;
    states = f.states;
  })

-- The fields of a message as arguments.
abbrev pub fields_of : Message → MessageFields
fields_of m = record {
  message_id = str m.message_id;
  kind = m.kind;
  sender = str m.sender;
  recipient = str m.recipient;
  task_id = str m.task_id;
  correlation_id = str m.correlation_id;
  purpose = str m.purpose;
  content = str m.content;
  created_at = str m.created_at;
  reply_to = opt_str m.reply_to;
  states = m.states;
}

-- `_state_from_dict`
unfoldable pub state_from_dict : Value → Result StateRef
state_from_dict (obj fs) =
    if has_keys fs ("repository" ∷ "commit" ∷ "path" ∷ [])
    then state_ref (Json.get fs "repository") (Json.get fs "commit") (Json.get fs "path")
    else err (value_error "message State reference fields are invalid")
state_from_dict _ = err (value_error "message State reference fields are invalid")

unfoldable pub states_from : Items → Result (List StateRef)
states_from nil = ok []
states_from (cons v vs) = do s ← state_from_dict v; ss ← states_from vs; ok (s ∷ ss)

-- MessageKind(value)
unfoldable pub kind_from : Value → Result MessageKind
kind_from (str s) =
    if s == "task"
    then ok task
    else if s == "reply"
    then ok reply
    else if s == "stop"
    then ok stop
    else err (value_error "message kind is invalid")
kind_from _ = err (value_error "message kind is invalid")

abbrev pub message_keys : List String
message_keys =
    "content" ∷ "correlation_id" ∷ "created_at" ∷ "format" ∷ "kind" ∷ "message_id" ∷ "purpose"
    ∷ "recipient" ∷ "reply_to" ∷ "sender" ∷ "states" ∷ "task_id" ∷ []

is_text : String → Value → Bool
is_text s (str t) = t == s
is_text s _ = false

-- The list of a JSON array.
array : Value → String → Result Items
array (arr xs) detail = ok xs
array _ detail = err (value_error detail)

-- The arguments that Message.from_dict passes to the constructor, in its order of tests.
fields_from : Fields → Result MessageFields
unfolding array is_text
fields_from fs = do
  raise_if (not (has_keys fs message_keys)) (value_error "message fields are invalid")
  raise_if (not (is_text "peoplebot.message.v0" (Json.get fs "format")))
      (value_error "message format is invalid")
  xs ← array (Json.get fs "states") "message states must be an array"
  kind ← kind_from (Json.get fs "kind")
  states ← states_from xs
  ok (record {
    message_id = Json.get fs "message_id";
    kind = kind;
    sender = Json.get fs "sender";
    recipient = Json.get fs "recipient";
    task_id = Json.get fs "task_id";
    correlation_id = Json.get fs "correlation_id";
    purpose = Json.get fs "purpose";
    content = Json.get fs "content";
    created_at = Json.get fs "created_at";
    reply_to = Json.get fs "reply_to";
    states = states;
  })

-- Message.from_dict
unfoldable pub message_from_dict : Value → Result Message
unfolding fields_from
message_from_dict (obj fs) = do f ← fields_from fs; message f
message_from_dict _ = err (value_error "message fields are invalid")

abbrev same_reply : Option String → String → Bool
same_reply none message_id = false
same_reply (some r) message_id = r == message_id

abbrev is_task : MessageKind → Bool
is_task task = true
is_task reply = false
is_task stop = false

-- validate_correlated_reply
unfoldable pub validate_correlated_reply : Message → Message → Result (Unit {0})
validate_correlated_reply r request = do
  raise_if (not (is_reply r.kind) || not (is_task request.kind))
      (message_error "message.reply_invalid" "reply correlation requires reply and task")
  raise_if
      (not (same_reply r.reply_to request.message_id)
        || not (r.task_id == request.task_id)
        || not (r.correlation_id == request.correlation_id)
        || not (r.sender == request.recipient)
        || not (r.recipient == request.sender))
      (message_error "message.reply_stale" "reply does not match the exact task identity")
