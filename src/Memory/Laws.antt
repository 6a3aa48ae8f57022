-- ===== src/Memory/Laws.antt =====
-- The bounds of a memory checkpoint.
use peoplebot_releases.Base.{◌≡◌, true, none, arith, eq_iff, ◌≤◌, length, codes}
use peoplebot_releases.Base.Result.{ok}
use peoplebot_releases.Memory.{
  MemoryCheckpointRequest, memory_checkpoint_request, paths_unique, total_bytes, require_identity,
}

-- What an accepted request of a checkpoint keeps to.
pub record IsBounded (q : MemoryCheckpointRequest) : Type 0 where
  pub short_environment : length (codes q.environment_id) ≤ 256
  pub short_instance : length (codes q.instance_id) ≤ 256
  pub whole_repository : q.expected_state.path ≡ none
  pub same_repository : q.repository ≡ q.expected_state.repository
  pub few_items : length q.items ≤ 64
  pub unique_paths : paths_unique q.items ≡ true
  pub small : total_bytes q.items ≤ 262144

-- A request that is accepted is the given one; its identities have at most 256 characters, it expects
-- a State of its whole repository, and it has at most 64 items, of different paths and together of
-- at most 262144 bytes.
pub memory_checkpoint_request-IsBounded :
    (q : MemoryCheckpointRequest) {r : MemoryCheckpointRequest}
    → memory_checkpoint_request q ≡ ok r
    → (r ≡ q) × IsBounded q
unfolding memory_checkpoint_request require_identity
memory_checkpoint_request-IsBounded q h =
    ground (arith, h, eq_iff q.repository q.expected_state.repository)
