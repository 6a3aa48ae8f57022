-- ===== src/Memory.antt =====
-- peoplebot/memory.py: the values of an Instance's memory checkpoints, and the branch of an Instance.
-- `Worktrees` has the reading of the branches that are checked out.
pub mod Laws
pub mod Worktrees
use peoplebot_releases.Base.{
  ℕ, ◌+◌, String, ◌<>◌, len, Bool, true, false, not, ◌&&◌, ◌||◌, Option, none, some, List, [], ◌∷◌,
  ◌++◌, map, ltb, length, any, ◌==◌, codes, contains_code, is_control, is_some,
}
use peoplebot_releases.Base.Result.{Result, ok, err, value_error, raise_if, ◌>>=◌, ◌>>◌}
use peoplebot_releases.Json.{Value, str}
use peoplebot_releases.State.{StateRef}
use peoplebot_releases.State.GitPath.{not_canonical}
use peoplebot_releases.Execution.{require_text}
use peoplebot_releases.Execution.Timestamp.{utc_timestamp}
use peoplebot_releases.Admission.Identity.{Bytes, utf8}

-- `_require_identity`
unfoldable pub require_identity : String → String → Result String
require_identity value label = do
  require_text value label
  raise_if (ltb 256 (length (codes value))) (value_error (label <> " exceeds 256 characters"))
  ok value

-- `_memory_path`
unfoldable pub memory_path : Value → Result String
unfolding not_canonical is_control
memory_path (str value) = do
  raise_if (value == "" || ltb 256 (length (codes value)))
      (value_error "memory item path must contain 1-256 characters")
  raise_if (contains_code b'\\' value || contains_code 0 value || any is_control (codes value))
      (value_error "memory item path must be a canonical printable POSIX path")
  raise_if (not_canonical (codes value))
      (value_error "memory item path must be a canonical relative POSIX path")
  ok value
memory_path _ = err (value_error "memory item path must contain 1-256 characters")

-- What the two digests of `instance_memory_ref` are taken of.
unfoldable pub environment_input : String → Bytes
unfolding utf8
environment_input environment_id =
    utf8 (codes "peoplebot.instance-memory.environment.v0\0") ++ utf8 (codes environment_id)

unfoldable pub instance_input : String → String → Bytes
unfolding utf8
instance_input environment_id instance_id =
    utf8 (codes "peoplebot.instance-memory.instance.v0\0")
    ++ utf8 (codes environment_id)
    ++ 0 ∷ utf8 (codes instance_id)

unfoldable pub instance_memory_ref : (Bytes → String) → String → String → Result String
unfolding require_identity environment_input instance_input
instance_memory_ref sha256 environment_id instance_id = do
  require_identity environment_id "environment_id"
  require_identity instance_id "instance_id"
  ok (
      "refs/heads/peoplebot/instances/v0/"
      <> sha256 (environment_input environment_id)
      <> "/"
      <> sha256 (instance_input environment_id instance_id))

pub record MemoryItem : Type 0 where
  pub path : String
  pub content : String

item_content : Value → Result String
item_content (str content) = do
  raise_if (contains_code 0 content) (value_error "memory item content must not contain NUL")
  raise_if (ltb 65536 (len content)) (value_error "memory item content exceeds 65536 bytes")
  ok content
item_content _ = err (value_error "memory item content must be UTF-8 text")

-- MemoryItem(path, content)
unfoldable pub memory_item : Value → Value → Result MemoryItem
unfolding item_content
memory_item path content = do
  p ← memory_path path
  c ← item_content content
  ok (record { path = p; content = c })

-- The fields of a MemoryCheckpointRequest, their types as its annotations say.
pub record MemoryCheckpointRequest : Type 0 where
  pub repository : String
  pub environment_id : String
  pub instance_id : String
  pub blueprint : StateRef
  pub expected_state : StateRef
  pub items : List MemoryItem
  pub saved_at : String
  pub initial : Bool

-- len(paths) == len(set(paths))
unfoldable pub paths_unique : List MemoryItem → Bool
paths_unique [] = true
paths_unique (i ∷ is) = not (any (λ j. i.path == j.path) is) && paths_unique is

-- The sum of the lengths of the contents.
unfoldable pub total_bytes : List MemoryItem → ℕ
total_bytes [] = 0
total_bytes (i ∷ is) = len i.content + total_bytes is

-- MemoryCheckpointRequest(...)
unfoldable pub memory_checkpoint_request : MemoryCheckpointRequest → Result MemoryCheckpointRequest
unfolding paths_unique total_bytes require_identity
memory_checkpoint_request q = do
  require_text q.repository "repository"
  require_identity q.environment_id "environment_id"
  require_identity q.instance_id "instance_id"
  raise_if (is_some q.expected_state.path)
      (value_error "expected_state must be a repository-level StateRef")
  raise_if (not (q.repository == q.expected_state.repository))
      (value_error "expected State repository must match the memory repository")
  raise_if (ltb 64 (length q.items)) (value_error "memory checkpoint exceeds 64 items")
  raise_if (not (paths_unique q.items)) (value_error "memory item paths must be unique")
  raise_if (ltb 262144 (total_bytes q.items)) (value_error "memory content exceeds 262144 bytes")
  utc_timestamp (str q.saved_at) "saved_at"
  ok q

pub record MemoryCheckpointResult : Type 0 where
  pub state : StateRef
  pub ref_name : String
  pub created : Bool
  pub changed : Bool
  pub locally_committed : Bool
  pub remote_synchronized : Bool
