-- ===== src/Messaging/Store.antt =====
-- OutboundMessageStore of peoplebot/messaging.py: an environment's history of messages in Git.
pub mod History
pub mod Append
pub mod Appended
use peoplebot_releases.Base.{
  codes, ℕ, String, ◌<>◌, len, Bool, not, ◌&&◌, ◌||◌, Option, none, some, List, [], ◌∷◌, reverse,
  ltb, eqb, length, any, ◌==◌, strip, is_object_id, starts_with, contains_code, split_lines,
  split_words, if◌then◌else◌,
}
use peoplebot_releases.Base.Result.{
  Error, Result, ok, err, value_error, message_error, provenance_error, resolution_error, raise_if,
}
use peoplebot_releases.Base.Result
use peoplebot_releases.Base.Exec.{
  Exec, pure, raise, lift, rethrow, translate, raise_when, ◌>>=◌, ◌>>◌,
}
use peoplebot_releases.Json.{Value, str}
use peoplebot_releases.State.{StateRef, state_ref}
use peoplebot_releases.State.Resolve.{Completed, ResolvedState, resolve_state}
use peoplebot_releases.Execution.{require_text}
use peoplebot_releases.Admission.Identity.{Bytes, utf8}
use peoplebot_releases.Host.{
  External, Host, Loaded, loaded, not_json, refused, too_deep, recursion_error,
}
use peoplebot_releases.Provenance.Plumbing.{
  AttemptStore, attempt_store, git_plain, git, write_blob, write_single, write_commit,
}
use peoplebot_releases.Provenance.Refs.{RefErrors, update_ref, zero_object_id}
use peoplebot_releases.Messaging.Message.{Message, identifier, message_bytes, message_from_dict}

abbrev pub message_ref_prefix : String
message_ref_prefix = "refs/heads/peoplebot/messages/v0/"

-- `_message_ref`: the text that it accepts.
unfoldable pub message_ref : Value → Result String
message_ref (str value) =
    Result.◌>>◌
      (raise_if
        (not (starts_with value message_ref_prefix)
          || contains_code 0 value
          || contains_code 13 value
          || contains_code 10 value
          || contains_code 32 value)
        (value_error "message ref is not an owner-outbound v0 branch"))
      (ok value)
message_ref _ = err (value_error "message ref is not an owner-outbound v0 branch")

-- `outbound_message_ref`
unfoldable pub outbound_message_ref : (Bytes → String) → String → Result String
outbound_message_ref sha256 environment_id =
    Result.◌>>◌ (identifier (str environment_id) "environment_id")
      (ok (message_ref_prefix <> sha256 (utf8 (codes environment_id))))

pub record PublishedMessage : Type 0 where
  pub message : Message
  pub state : StateRef
  pub ref_name : String

pub record MessageStore : Type 0 where
  pub plumbing : AttemptStore
  pub repository : String
  pub ref_name : String

-- except StateResolutionError, and except ProvenanceError: MessageError with the code and detail.
abbrev pub from_resolution : Error → Error
from_resolution (resolution_error code detail) = message_error code detail
from_resolution e = e

abbrev pub from_provenance : Error → Error
from_provenance (provenance_error code detail) = message_error code detail
from_provenance e = e

-- except (UnicodeDecodeError, ValueError)
abbrev pub malformed : Error → Error
malformed (value_error _) = message_error "message.invalid" "message blob is malformed"
malformed e = e

abbrev pub message_state : MessageStore → String → StateRef
message_state store commit = record {
  repository = store.repository;
  commit = commit;
  path = some "message.json";
}

-- The constructor of the StateRef that is `message_state`: its tests.
unfoldable pub check_state : MessageStore → String → Result (Unit {0})
check_state store commit =
    Result.◌>>◌ (state_ref (str store.repository) (str commit) (str "message.json")) (ok tt)

-- Message.from_dict(json.loads(content))
parse_message : Loaded → Result Message
parse_message (loaded value) = translate malformed (message_from_dict value)
parse_message not_json = err (message_error "message.invalid" "message blob is malformed")
parse_message refused = err (message_error "message.invalid" "message blob is malformed")
parse_message too_deep = err recursion_error

-- The loop of `append` over the history: the published message of this identity, if its bytes are
-- the same.
unfoldable pub find_published : Message → List PublishedMessage → Result (Option PublishedMessage)
find_published m [] = ok none
find_published m (p ∷ ps) =
    let rest = find_published m ps in
    if p.message.message_id == m.message_id
    then (if message_bytes p.message == message_bytes m
        then ok (some p)
        else err (message_error "message.id_conflict" "message ID has conflicting content"))
    else rest

abbrev pub optional_list : Option String → List String
optional_list none = []
optional_list (some s) = s ∷ []

-- current or _ZERO_OBJECT_ID
abbrev pub or_zero : Option String → String
or_zero none = zero_object_id
or_zero (some s) = s

abbrev pub append_errors : RefErrors
append_errors = record {
  reflog_message = "peoplebot outbound message v0";
  conflict = provenance_error "message.publication_conflict" "outbound message ref changed";
  symbolic = provenance_error "message.ref_symbolic" "outbound message ref is symbolic";
  inspection =
      provenance_error "message.ref_inspection_failed" "outbound message ref identity is unknown";
  persistence =
      provenance_error "message.persistence_failed" "message commit could not be attached";
}

module _ (X : External) where
  -- OutboundMessageStore(checkout, repository, ref_name)
  unfoldable pub message_store : String → String → String → Exec (Host X) MessageStore
  message_store checkout repository ref_name = do
    lift (require_text repository "repository")
    lift (message_ref (str ref_name))
    plumbing ← attempt_store X checkout repository
    pure (record { plumbing = plumbing; repository = repository; ref_name = ref_name })

  valid_tip : Completed → Exec (Host X) (Option String)
  valid_tip result = do
    raise_when (not (eqb result.returncode 0) || not (is_object_id (strip result.stdout)))
        (message_error "message.ref_inspection_failed" "outbound message ref value is invalid")
    pure (some (strip result.stdout))

  -- OutboundMessageStore._current
  unfoldable pub current : MessageStore → Exec (Host X) (Option String)
  unfolding valid_tip
  current store = do
    symbolic ←
        git_plain X store.plumbing
          ("symbolic-ref" ∷ "--quiet" ∷ "--no-recurse" ∷ store.ref_name ∷ [])
    raise_when (eqb symbolic.returncode 0)
        (message_error "message.ref_symbolic" "outbound message ref is symbolic")
    raise_when (not (eqb symbolic.returncode 1))
        (message_error "message.ref_inspection_failed" "outbound message ref identity is unknown")
    result ← git_plain X store.plumbing ("rev-parse" ∷ "--verify" ∷ "--quiet" ∷ store.ref_name ∷ [])
    if eqb result.returncode 1 then pure none else valid_tip result

  -- The body of the loop of `messages`, up to the test of the identities.
  read_message : MessageStore → String → Exec (Host X) Message
  unfolding parse_message check_state
  read_message store commit = do
    parents ← git_plain X store.plumbing ("rev-list" ∷ "--parents" ∷ "-n" ∷ "1" ∷ commit ∷ [])
    raise_when
        (not (eqb parents.returncode 0)
          || eqb (length (split_words parents.stdout)) 0
          || ltb 2 (length (split_words parents.stdout)))
        (message_error "message.history_invalid"
          "message history contains a merge or invalid commit")
    lift (check_state store commit)
    resolved ←
        rethrow from_resolution
          (resolve_state X store.plumbing.checkout (message_state store commit))
    tree ← git_plain X store.plumbing ("ls-tree" ∷ "-rz" ∷ "--full-tree" ∷ commit ∷ [])
    raise_when
        (not (eqb tree.returncode 0)
          || not (tree.stdout == "100644 blob " <> resolved.selected_object <> "\tmessage.json\0"))
        (message_error "message.history_invalid" "message commit tree is not message-only")
    content ← git_plain X store.plumbing ("cat-file" ∷ "blob" ∷ resolved.selected_object ∷ [])
    raise_when (not (eqb content.returncode 0) || ltb 16384 (len content.stdout))
        (message_error "message.invalid" "message blob is unavailable or oversized")
    lift (parse_message (X.loads content.stdout))

  -- The loop over the commits, the oldest first, with the identities seen.
  read_history : MessageStore → List String → List String → Exec (Host X) (List PublishedMessage)
  read_history store seen [] = pure []
  read_history store seen (commit ∷ commits) = do
    m ← read_message store commit
    raise_when (any (λ s. s == m.message_id) seen)
        (message_error "message.duplicate_id" "message history repeats an ID")
    rest ← read_history store (m.message_id ∷ seen) commits
    pure (
        record { message = m; state = message_state store commit; ref_name = store.ref_name }
        ∷ rest)

  -- OutboundMessageStore.messages of a tip
  messages_at : MessageStore → String → Exec (Host X) (List PublishedMessage)
  messages_at store tip = do
    raise_when (not (is_object_id tip)) (value_error "message tip must be a full commit ID")
    history ← git_plain X store.plumbing ("rev-list" ∷ "--first-parent" ∷ tip ∷ [])
    raise_when (not (eqb history.returncode 0))
        (message_error "message.history_unavailable" "message history is unavailable")
    raise_when (ltb 256 (length (split_lines history.stdout)))
        (message_error "message.history_limit_exceeded" "message history exceeds 256")
    read_history store [] (reverse (split_lines history.stdout))

  history_of : MessageStore → Option String → Exec (Host X) (List PublishedMessage)
  history_of store none = pure []
  history_of store (some tip) = messages_at store tip

  -- OutboundMessageStore.messages: without a tip, that of the reference.
  unfoldable pub messages : MessageStore → Option String → Exec (Host X) (List PublishedMessage)
  unfolding read_message read_history messages_at history_of
  messages store none = do tip ← current store; history_of store tip
  messages store (some tip) = messages_at store tip

  -- The new commit of `append`.
  write_message : MessageStore → Message → Option String → Exec (Host X) String
  write_message store m tip = do
    blob ← write_blob X store.plumbing (message_bytes m)
    tree ← write_single X store.plumbing "message.json" blob "write the message tree"
    commit ←
        write_commit X store.plumbing tree (optional_list tip) m.created_at
          ("PeopleBot message " <> m.message_id)
    update_ref X store.plumbing append_errors store.ref_name commit (or_zero tip)
    pure commit

  publish_new : MessageStore → Message → Option String → Exec (Host X) PublishedMessage
  publish_new store m tip = do
    commit ← rethrow from_provenance (write_message store m tip)
    lift (check_state store commit)
    pure (record { message = m; state = message_state store commit; ref_name = store.ref_name })

  publish_unless :
      MessageStore
      → Message
      → Option String
      → Option PublishedMessage
      → Exec (Host X) PublishedMessage
  publish_unless store m tip none = publish_new store m tip
  publish_unless store m tip (some p) = pure p

  -- OutboundMessageStore.append
  unfoldable pub append : MessageStore → Message → Exec (Host X) PublishedMessage
  unfolding write_message publish_new publish_unless
  append store m = do
    tip ← current store
    existing ← messages store tip
    found ← lift (find_published m existing)
    publish_unless store m tip found
