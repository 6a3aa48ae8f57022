-- ===== src/Tests/Memories.antt =====
-- The memory checkpoints, and the branches that are checked out, at concrete inputs.
use peoplebot_releases.Base.{
  List, All, map, arith, ◌≡◌, refl, true, [], ◌∷◌, codes, is_control, has_outer_space,
}
use peoplebot_releases.Base.Result.{ok}
use peoplebot_releases.State
use peoplebot_releases.State.GitPath.{same_codes}
use peoplebot_releases.Execution.{require_text}
use peoplebot_releases.Execution.Timestamp.{utc_timestamp}
use peoplebot_releases.Memory.{
  MemoryCheckpointRequest, memory_checkpoint_request, require_identity, paths_unique, total_bytes,
}
use peoplebot_releases.Memory.Worktrees.{
  checked_out_branches, complete, split_records, split_fields, after, record_branch,
  collect_branches,
}
use peoplebot_releases.Memory.Worktrees.Split.{porcelain}
use peoplebot_releases.Memory.Worktrees.Porcelain.{
  Worktree, bare_at, detached_at, on_branch, IsWorktree, AreDistinct, printed_fields,
  checked_out_branches-porcelain,
}
use peoplebot_releases.Memory.Laws.{IsBounded, memory_checkpoint_request-IsBounded}
use peoplebot_releases.Tests.Samples.{state_a, state_b}

abbrev checkpoint : MemoryCheckpointRequest
checkpoint = record {
  repository = "repo";
  environment_id = "env";
  instance_id = "bob";
  blueprint = state_a;
  expected_state = state_b;
  items =
      record { path = "notes.md"; content = "Plan." } ∷ record { path = "a/b"; content = "" } ∷ [];
  saved_at = "2026-01-02T03:04:05Z";
  initial = true;
}

checkpoint_accepted : memory_checkpoint_request checkpoint ≡ ok checkpoint
unfolding memory_checkpoint_request require_identity require_text State.require_identity
    utc_timestamp paths_unique total_bytes is_control has_outer_space
checkpoint_accepted = refl

memory_checkpoint_request-IsBounded_example : (checkpoint ≡ checkpoint) × IsBounded checkpoint
memory_checkpoint_request-IsBounded_example =
    memory_checkpoint_request-IsBounded checkpoint checkpoint_accepted

one_branch :
    checked_out_branches
      (codes "worktree /w\0HEAD 1\0branch refs/heads/main\0\0worktree /v\0bare\0\0")
    ≡ ok (codes "refs/heads/main" ∷ [])
unfolding checked_out_branches complete split_records split_fields after record_branch
    collect_branches same_codes
one_branch = refl

abbrev main_worktree : Worktree
main_worktree = on_branch (codes "/w") (codes "1") (codes "main")

abbrev other_worktrees : List Worktree
other_worktrees =
    detached_at (codes "/v") (codes "2")
    ∷ bare_at (codes "/b")
    ∷ on_branch (codes "/u") (codes "3") (codes "next")
    ∷ []

three_accepted : All IsWorktree (main_worktree ∷ other_worktrees)
three_accepted = ground arith

three_distinct : AreDistinct [] (main_worktree ∷ other_worktrees)
unfolding same_codes
three_distinct = ground arith

checked_out_branches-porcelain_example :
    checked_out_branches (porcelain (map printed_fields (main_worktree ∷ other_worktrees)))
    ≡ ok (codes "refs/heads/next" ∷ codes "refs/heads/main" ∷ [])
checked_out_branches-porcelain_example =
    checked_out_branches-porcelain main_worktree other_worktrees three_accepted three_distinct
