-- ===== src/Messaging/Message/Failures.antt =====
-- Whatever a blob holds, reading it as a message raises ValueError alone.
use peoplebot_releases.Base.{String, ◌≡◌, true, some, arith}
use peoplebot_releases.Base.Result.{Error, Result, ok, err, ◌>>=◌}
use peoplebot_releases.Json.{Value, Items, Fields, null, str, arr, obj, nil, cons}
use peoplebot_releases.State.{require_identity}
use peoplebot_releases.State.Failures.{is_value_error, require_identity-raises, state_ref-raises}
use peoplebot_releases.Execution.Timestamp.Failures.{utc_timestamp-raises}
use peoplebot_releases.Messaging.Message.{
  Message, MessageFields, identifier, optional_identifier, check_message, message, state_from_dict,
  states_from, kind_from, array, fields_from, message_from_dict,
}

pub identifier-raises :
    (v : Value) (l : String) {e : Error} → identifier v l ≡ err e → is_value_error e ≡ true
unfolding identifier
identifier-raises v l h = grind (arith, require_identity-raises)

some-identifier-raises :
    (v : Value) (l : String) {e : Error}
    → (identifier v l >>= λ text. ok (some text)) ≡ err e
    → is_value_error e ≡ true
some-identifier-raises v l h = grind (arith, identifier-raises)

optional_identifier-raises :
    (v : Value) (l : String) {e : Error} → optional_identifier v l ≡ err e → is_value_error e ≡ true
unfolding optional_identifier
optional_identifier-raises null l h = ground (arith, h)
optional_identifier-raises v l h = some-identifier-raises v l h

check_message-raises : (m : Message) {e : Error} → check_message m ≡ err e → is_value_error e ≡ true
unfolding check_message
check_message-raises m h = ground (arith, h)

bind-raises :
    {A B : Type 0} (m : Result A) (f : A → Result B) {e : Error}
    → (m >>= f) ≡ err e
    → (m ≡ err e → is_value_error e ≡ true)
    → ((a : A) → f a ≡ err e → is_value_error e ≡ true)
    → is_value_error e ≡ true
bind-raises (ok a) f h first rest = rest a h
bind-raises (err d) f h first rest = first (cc h)

-- Whatever its arguments, Message(...) raises ValueError alone.
pub message-raises : (f : MessageFields) {e : Error} → message f ≡ err e → is_value_error e ≡ true
unfolding message
message-raises f h = bind-raises (identifier f.message_id _) _ h (identifier-raises _ _) λ _ h.
    bind-raises (identifier f.sender _) _ h (identifier-raises _ _) λ _ h.
      bind-raises (identifier f.recipient _) _ h (identifier-raises _ _) λ _ h.
        bind-raises (identifier f.task_id _) _ h (identifier-raises _ _) λ _ h.
          bind-raises (identifier f.correlation_id _) _ h (identifier-raises _ _) λ _ h.
            bind-raises (identifier f.purpose _) _ h (identifier-raises _ _) λ _ h.
              bind-raises (require_identity f.content _) _ h (require_identity-raises _ _) λ _ h.
                grind (
                  arith, require_identity-raises, utc_timestamp-raises, optional_identifier-raises,
                  check_message-raises,
                )

state_from_dict-raises :
    (v : Value) {e : Error} → state_from_dict v ≡ err e → is_value_error e ≡ true
unfolding state_from_dict
state_from_dict-raises (obj fs) h = grind (arith, state_ref-raises)
state_from_dict-raises _ h = ground (arith, h)

states_from-raises : (vs : Items) {e : Error} → states_from vs ≡ err e → is_value_error e ≡ true
unfolding states_from
states_from-raises nil h = ground (arith, h)
states_from-raises (cons v vs) {e} h =
    grind (arith, state_from_dict-raises, states_from-raises vs {e = e})

kind_from-raises : (v : Value) {e : Error} → kind_from v ≡ err e → is_value_error e ≡ true
unfolding kind_from
kind_from-raises (str s) h = ground (arith, h)
kind_from-raises _ h = ground (arith, h)

array-raises : (v : Value) (l : String) {e : Error} → array v l ≡ err e → is_value_error e ≡ true
unfolding array
array-raises (arr xs) l h = ground (arith, h)
array-raises _ l h = ground (arith, h)

fields_from-raises : (fs : Fields) {e : Error} → fields_from fs ≡ err e → is_value_error e ≡ true
unfolding fields_from
fields_from-raises fs h = grind (arith, array-raises, kind_from-raises, states_from-raises)

-- Whatever JSON value it is given, Message.from_dict raises ValueError alone.
pub message_from_dict-raises :
    (v : Value) {e : Error} → message_from_dict v ≡ err e → is_value_error e ≡ true
unfolding message_from_dict
message_from_dict-raises (obj fs) h = grind (arith, fields_from-raises, message-raises)
message_from_dict-raises _ h = ground (arith, h)
