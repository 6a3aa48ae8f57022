-- ===== src/Messaging/Message/Laws.antt =====
-- A message's dict builds it again, and what a correlated reply answers.
use peoplebot_releases.Base.{
  String, ◌≡◌, refl, ◌↔◌, true, false, ltb, Option, none, some, List, [], ◌∷◌, arith, eq_iff, All,
  ◌≤◌, length, ℕ, len, is_some, codes, identifier_codes,
}
use peoplebot_releases.Base.Result.{ok, raise_if, raise_if-eq-ok, ◌>>=◌, >>=-eq-ok}
use peoplebot_releases.Json
use peoplebot_releases.Json.{Value, str, opt_str, null, obj, arr, field, end, items, has_keys}
use peoplebot_releases.State.{require_identity, StateRef, state_ref, state_dict}
use peoplebot_releases.State.Laws.{require_identity-eq-ok}
use peoplebot_releases.Messaging.Message.{
  Message, MessageFields, MessageKind, task, reply, stop, kind_text, kind_from, identifier,
  optional_identifier, check_message, message, fields_of, message_dict, message_bytes,
  message_from_dict, is_reply, same_reply, state_from_dict, states_from, states_unique,
  validate_correlated_reply,
}

pub identifier-eq-ok : (v : Value) (l : String) {s : String} → identifier v l ≡ ok s → v ≡ str s
unfolding identifier
identifier-eq-ok v l h = grind (arith, require_identity-eq-ok)

some-identifier-eq-ok :
    (v : Value) (l : String) {o : Option String}
    → (identifier v l >>= λ text. ok (some text)) ≡ ok o
    → v ≡ opt_str o
some-identifier-eq-ok v l h = grind (arith, identifier-eq-ok)

optional_identifier-eq-ok :
    (v : Value) (l : String) {o : Option String} → optional_identifier v l ≡ ok o → v ≡ opt_str o
unfolding optional_identifier
optional_identifier-eq-ok null l h = cc
optional_identifier-eq-ok v l h = some-identifier-eq-ok v l h

check_message-eq-ok : (m : Message) {n : Message} → check_message m ≡ ok n → m ≡ n
unfolding check_message
check_message-eq-ok m h = ground (arith, h)

-- A message holds the very values that it was built from.
pub message-eq-ok : (f : MessageFields) {m : Message} → message f ≡ ok m → f ≡ fields_of m
unfolding message
message-eq-ok f h = grind (
  arith, identifier-eq-ok, require_identity-eq-ok, optional_identifier-eq-ok, check_message-eq-ok,
)

pub identifier-length :
    (t l : String) {s : String} → identifier (str t) l ≡ ok s → length (codes t) ≤ 128
unfolding identifier require_identity
identifier-length t l h = ground (arith, h, codes_nonempty (codes t))
  where
    codes_nonempty : (cs : List ℕ) → identifier_codes cs ≡ true → length cs ≤ 128
    codes_nonempty [] h = omega arith
    codes_nonempty (c ∷ cs) h = ground (arith, h)

-- The purpose of a message is an identifier.
pub message-purpose :
    (f : MessageFields) {m : Message}
    → message f ≡ ok m
    → (s : String) × (identifier f.purpose "purpose" ≡ ok s)
unfolding message
message-purpose f h =
    let (a, _, h) = >>=-eq-ok (identifier f.message_id "message_id") _ h in
    let (b, _, h) = >>=-eq-ok (identifier f.sender "sender") _ h in
    let (c, _, h) = >>=-eq-ok (identifier f.recipient "recipient") _ h in
    let (d, _, h) = >>=-eq-ok (identifier f.task_id "task_id") _ h in
    let (e, _, h) = >>=-eq-ok (identifier f.correlation_id "correlation_id") _ h in
    let (s, accepted, _) = >>=-eq-ok (identifier f.purpose "purpose") _ h in (s, accepted)

message-rebuild :
    (f : MessageFields) {m : Message} → message f ≡ ok m → message (fields_of m) ≡ ok m
message-rebuild f h = rw (message-eq-ok f h) at h

kind_from-text : (k : MessageKind) → kind_from (str (kind_text k)) ≡ ok k
unfolding kind_from
kind_from-text task = refl
kind_from-text reply = refl
kind_from-text stop = refl

-- A State that some constructor call made.
abbrev pub IsBuilt : StateRef → Type 0
IsBuilt s = state_ref (str s.repository) (str s.commit) (opt_str s.path) ≡ ok s

state_from-dict : (s : StateRef) → IsBuilt s → state_from_dict (obj (state_dict s)) ≡ ok s
unfolding state_from_dict state_dict has_keys Json.get
state_from-dict s h = h

states_from-items :
    (ss : List StateRef) → All IsBuilt ss → states_from (items (λ s. obj (state_dict s)) ss) ≡ ok ss
unfolding states_from
states_from-items [] h = refl
states_from-items (s ∷ ss) h = rw (state_from-dict s h.0, states_from-items ss h.1)

-- Reading the dict of a message that was constructed, with States that were, gives the message.
pub message_from_dict-dict :
    (f : MessageFields) {m : Message}
    → message f ≡ ok m
    → All IsBuilt m.states
    → message_from_dict (message_dict m) ≡ ok m
unfolding message_from_dict message_dict has_keys Json.get
message_from_dict-dict f {m} h built =
    rw (states_from-items m.states built, kind_from-text m.kind, message-rebuild f h)

-- The identifiers of a message.
abbrev pub identifiers_of : Message → List String
identifiers_of m =
    m.message_id ∷ m.sender ∷ m.recipient ∷ m.task_id ∷ m.correlation_id ∷ m.purpose ∷ []

-- The bounds of a message, and that it names what it replies to exactly if it is a reply.
pub record IsBounded (m : Message) : Type 0 where
  pub short_identifiers : All (λ s. length (codes s) ≤ 128) (identifiers_of m)
  pub short_content : len m.content ≤ 4096
  pub few_states : length m.states ≤ 8
  pub unique_states : states_unique m.states ≡ true
  pub short : len (message_bytes m) ≤ 16384
  pub replies : is_some m.reply_to ≡ is_reply m.kind

check_message-bounds :
    (m : Message) {n : Message}
    → check_message m ≡ ok n
    → (length n.states ≤ 8)
      × (states_unique n.states ≡ true)
      × (len (message_bytes n) ≤ 16384)
      × (is_some n.reply_to ≡ is_reply n.kind)
unfolding check_message
check_message-bounds m h = ground (arith, h)

message-bounds :
    (f : MessageFields) {m : Message}
    → message f ≡ ok m
    → (length m.states ≤ 8)
      × (states_unique m.states ≡ true)
      × (len (message_bytes m) ≤ 16384)
      × (is_some m.reply_to ≡ is_reply m.kind)
unfolding message
message-bounds f h = grind (arith, check_message-bounds)

message-texts :
    (m : Message) {n : Message}
    → message (fields_of m) ≡ ok n
    → All (λ s. length (codes s) ≤ 128) (identifiers_of m) × (len m.content ≤ 4096)
unfolding message
message-texts m h =
    let (_, a, h) = >>=-eq-ok (identifier (str m.message_id) "message_id") _ h in
    let (_, b, h) = >>=-eq-ok (identifier (str m.sender) "sender") _ h in
    let (_, c, h) = >>=-eq-ok (identifier (str m.recipient) "recipient") _ h in
    let (_, d, h) = >>=-eq-ok (identifier (str m.task_id) "task_id") _ h in
    let (_, e, h) = >>=-eq-ok (identifier (str m.correlation_id) "correlation_id") _ h in
    let (_, p, h) = >>=-eq-ok (identifier (str m.purpose) "purpose") _ h in
    let (t, same, h) = >>=-eq-ok (require_identity (str m.content) "content") _ h in
    let (_, few, _) = >>=-eq-ok (raise_if (ltb 4096 (len t)) _) _ h in
    (
      (
        identifier-length m.message_id _ a,
        (
          identifier-length m.sender _ b,
          (
            identifier-length m.recipient _ c,
            (
              identifier-length m.task_id _ d,
              (identifier-length m.correlation_id _ e, (identifier-length m.purpose _ p, tt)),
            ),
          ),
        ),
      ),
      short_text t (require_identity-eq-ok (str m.content) "content" same)
          (raise_if-eq-ok (ltb 4096 (len t)) _ few),
    )
  where
    short_text :
        (t : String) → str m.content ≡ str t → ltb 4096 (len t) ≡ false → len m.content ≤ 4096
    short_text t same few = ground (arith, same, few)

-- An accepted message has identifiers of at most 128 characters, a content of at most 4096 bytes and
-- at most eight States, all different, is at most 16384 bytes long, and names a message that it
-- replies to exactly if it is a reply.
pub message-IsBounded : (f : MessageFields) {m : Message} → message f ≡ ok m → IsBounded m
message-IsBounded f {m} h =
    let (texts, content) = message-texts m (message-rebuild f h) in
    let (few, unique, short, replies) = message-bounds f h in
    record {
      short_identifiers = texts;
      short_content = content;
      few_states = few;
      unique_states = unique;
      short = short;
      replies = replies;
    }

same_reply_iff : (o : Option String) (s : String) → (same_reply o s ≡ true) ↔ (o ≡ some s)
same_reply_iff none s = ground arith
same_reply_iff (some r) s = ground (arith, eq_iff r s)

-- A reply is accepted exactly if it is a reply, it answers a task, and it names the task's message,
-- its task and correlation, and its two parties exchanged.
pub validate_correlated_reply_iff :
    (r request : Message)
    → (validate_correlated_reply r request ≡ ok tt) ↔ (
        (r.kind ≡ reply)
        × (request.kind ≡ task)
        × (r.reply_to ≡ some request.message_id)
        × (r.task_id ≡ request.task_id)
        × (r.correlation_id ≡ request.correlation_id)
        × (r.sender ≡ request.recipient)
        × (r.recipient ≡ request.sender))
unfolding validate_correlated_reply
validate_correlated_reply_iff r request = ground (
  arith,
  eq_iff r.task_id request.task_id,
  eq_iff r.correlation_id request.correlation_id,
  eq_iff r.sender request.recipient,
  eq_iff r.recipient request.sender,
  same_reply_iff r.reply_to request.message_id,
)
