-- ===== src/Memory/Worktrees.antt =====
-- `_checked_out_branches` and `GitMemoryStore._require_unused_branch` of peoplebot/memory.py. The
-- output of Git is a text: bytes that are no UTF-8 are left out.
pub mod Split
pub mod Porcelain
use peoplebot_releases.Base.{
  ℕ, String, Bool, true, false, not, ◌&&◌, ◌||◌, Option, none, some, List, [], ◌∷◌, eqb, any, keep,
  codes, is_some, if◌then◌else◌,
}
use peoplebot_releases.Base.Result.{Error, Result, ok, err, value_error, memory_error, raise_if}
use peoplebot_releases.Base.Result
use peoplebot_releases.Base.Exec.{Exec, lift, raise_when, ◌>>=◌, ◌>>◌}
use peoplebot_releases.State.GitPath.{Codes, same_codes, onto_head}
use peoplebot_releases.Host.{External, Host}
use peoplebot_releases.Provenance.Plumbing.{AttemptStore, git_plain}

-- What follows a prefix.
unfoldable pub after : Codes → Codes → Option Codes
after [] cs = some cs
after (p ∷ ps) [] = none
after (p ∷ ps) (c ∷ cs) = let rest = after ps cs in if eqb p c then rest else none

onto_some : ℕ → Option Codes → Option Codes
onto_some c none = none
onto_some c (some cs) = some (c ∷ cs)

-- output[:-2], where the output ends with two NULs
unfoldable pub complete : Codes → Option Codes
unfolding onto_some
complete [] = none
complete (c ∷ []) = none
complete (c ∷ d ∷ []) = if eqb c 0 && eqb d 0 then some [] else none
complete (c ∷ d ∷ e ∷ cs) = onto_some c (complete (d ∷ e ∷ cs))

-- .split(b"\0\0"), where a NUL that may begin a separator can be pending.
unfoldable pub split_records : Bool → Codes → List Codes
split_records false [] = [] ∷ []
split_records true [] = (0 ∷ []) ∷ []
split_records pending (c ∷ cs) =
    let rest = split_records (eqb c 0 && not pending) cs in
    if eqb c 0
    then if pending then [] ∷ rest else rest
    else if pending
    then onto_head 0 (onto_head c rest)
    else onto_head c rest

-- .split(b"\0")
unfoldable pub split_fields : Codes → List Codes
split_fields [] = [] ∷ []
split_fields (c ∷ cs) =
    let rest = split_fields cs in if eqb c 0 then [] ∷ rest else onto_head c rest

abbrev pub worktree : Codes
worktree = codes "worktree "

abbrev pub branch : Codes
branch = codes "branch "

is_disposition : Codes → Bool
unfolding same_codes after
is_disposition f =
    same_codes f (codes "bare") || same_codes f (codes "detached") || is_some (after branch f)

has_path : Option Codes → Bool
has_path none = false
has_path (some []) = false
has_path (some (c ∷ cs)) = true

is_branch_name : Codes → Bool
unfolding after
is_branch_name encoded =
    is_some (after (codes "refs/heads/") encoded) && not (any (λ c. eqb c 10 || eqb c 13) encoded)

-- The branch of a disposition, if it names one.
named_branch : Option Codes → Result (Option Codes)
unfolding is_branch_name
named_branch none = ok none
named_branch (some encoded) =
    Result.◌>>◌
      (raise_if (not (is_branch_name encoded)) (value_error "worktree branch identity is invalid"))
      (ok (some encoded))

one_disposition : List Codes → Result (Option Codes)
unfolding named_branch after
one_disposition (d ∷ []) = named_branch (after branch d)
one_disposition _ = err (value_error "worktree record has ambiguous HEAD disposition")

-- The branch of one record.
unfoldable pub record_branch : List Codes → Result (Option Codes)
unfolding has_path after is_disposition one_disposition
record_branch [] = err (value_error "worktree record has no path")
record_branch (first ∷ fields) =
    Result.◌>>◌
      (raise_if (not (has_path (after worktree first))) (value_error "worktree record has no path"))
      (one_disposition (keep is_disposition fields))

-- branches.add(branch), of a branch that is not there yet
add_branch : Option Codes → List Codes → Result (List Codes)
unfolding same_codes
add_branch none branches = ok branches
add_branch (some b) branches =
    Result.◌>>◌
      (raise_if (any (same_codes b) branches)
        (value_error "worktree branch is reported more than once"))
      (ok (b ∷ branches))

unfoldable pub collect_branches : List Codes → List Codes → Result (List Codes)
unfolding record_branch split_fields add_branch
collect_branches branches [] = ok branches
collect_branches branches (r ∷ rs) =
    Result.◌>>=◌ (record_branch (split_fields r))
      (λ found. Result.◌>>=◌ (add_branch found branches) (λ known. collect_branches known rs))

from_complete : Option Codes → Result (List Codes)
unfolding collect_branches split_records
from_complete none = err (value_error "worktree output is not complete NUL-delimited porcelain")
from_complete (some cs) = collect_branches [] (split_records false cs)

-- `_checked_out_branches`
unfoldable pub checked_out_branches : Codes → Result (List Codes)
unfolding from_complete complete
checked_out_branches output = from_complete (complete output)

ambiguous : Error → Error
ambiguous (value_error _) =
    memory_error "memory.worktree_inspection_failed"
      "Git returned ambiguous structured worktree branch ownership"
ambiguous e = e

classified : Result (List Codes) → Result (List Codes)
unfolding ambiguous
classified (ok branches) = ok branches
classified (err e) = err (ambiguous e)

-- GitMemoryStore._require_unused_branch
unfoldable pub require_unused_branch :
    (X : External) → AttemptStore → String → Exec (Host X) (Unit {0})
unfolding classified checked_out_branches same_codes
require_unused_branch X store ref_name = do
  inspected ← git_plain X store ("worktree" ∷ "list" ∷ "--porcelain" ∷ "-z" ∷ [])
  raise_when (not (eqb inspected.returncode 0)) (
      memory_error "memory.worktree_inspection_failed"
        "Git could not inspect structured worktree branch ownership")
  checked_out ← lift (classified (checked_out_branches (codes inspected.stdout)))
  raise_when (any (same_codes (codes ref_name)) checked_out) (
      memory_error "memory.destination_checked_out"
        "the Instance memory branch is checked out and was preserved")
