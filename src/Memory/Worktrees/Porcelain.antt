-- ===== src/Memory/Worktrees/Porcelain.antt =====
-- What `git worktree list --porcelain -z` prints of worktrees, and that `_checked_out_branches` of
-- peoplebot/memory.py reads their branches. The attributes locked and prunable are left out.
use peoplebot_releases.Base.{
  ℕ, ◌≡◌, refl, Bool, false, ◌||◌, Option, none, some, List, [], ◌∷◌, ◌++◌, map, any, eqb, All,
  arith, codes, ◌∙◌,
}
use peoplebot_releases.Base.Result.{ok, ◌>>=◌}
use peoplebot_releases.State.GitPath.{Codes, same_codes}
use peoplebot_releases.Memory.Worktrees.{
  worktree, branch, after, record_branch, collect_branches, checked_out_branches, add_branch,
  from_complete,
}
use peoplebot_releases.Memory.Worktrees.Split.{
  IsField, IsRecord, record_text, records_text, porcelain, complete_append,
  split_records-records_text, split_fields-IsRecord,
}

-- A worktree at its path: bare, or at a commit, and then detached or on a branch.
pub data Worktree : Type 0 where
  bare_at : Codes → Worktree
  detached_at : Codes → Codes → Worktree
  on_branch : Codes → Codes → Codes → Worktree

abbrev pub full_name : Codes → Codes
full_name name = codes "refs/heads/" ++ name

abbrev pub branch_of : Worktree → Option Codes
branch_of (bare_at path) = none
branch_of (detached_at path head) = none
branch_of (on_branch path head name) = some (full_name name)

abbrev pub printed_fields : Worktree → List Codes
printed_fields (bare_at path) = (worktree ++ path) ∷ codes "bare" ∷ []
printed_fields (detached_at path head) =
    (worktree ++ path) ∷ (codes "HEAD " ++ head) ∷ codes "detached" ∷ []
printed_fields (on_branch path head name) =
    (worktree ++ path) ∷ (codes "HEAD " ++ head) ∷ (branch ++ full_name name) ∷ []

abbrev is_line_end : ℕ → Bool
is_line_end c = eqb c 10 || eqb c 13

-- No text has a NUL, the path is not empty, and no line ends in the name of a branch.
abbrev pub IsWorktree : Worktree → Type 0
IsWorktree (bare_at path) = IsField path
IsWorktree (detached_at path head) = IsField path × IsField head
IsWorktree (on_branch path head name) =
    IsField path × IsField head × IsField name × (any is_line_end name ≡ false)

-- The branches of the worktrees, the last one first.
abbrev pub branches_onto : List Codes → List Worktree → List Codes
branches_onto known [] = known
branches_onto known (bare_at path ∷ ws) = branches_onto known ws
branches_onto known (detached_at path head ∷ ws) = branches_onto known ws
branches_onto known (on_branch path head name ∷ ws) = branches_onto (full_name name ∷ known) ws

-- No branch is checked out twice.
abbrev pub AreDistinct : List Codes → List Worktree → Type 0
AreDistinct known [] = Unit
AreDistinct known (bare_at path ∷ ws) = AreDistinct known ws
AreDistinct known (detached_at path head ∷ ws) = AreDistinct known ws
AreDistinct known (on_branch path head name ∷ ws) =
    (any (same_codes (full_name name)) known ≡ false) × AreDistinct (full_name name ∷ known) ws

printed_fields-IsRecord : (w : Worktree) → IsWorktree w → IsRecord (printed_fields w)
printed_fields-IsRecord (bare_at path) h = ground (arith, h)
printed_fields-IsRecord (detached_at path head) h = ground (arith, h)
printed_fields-IsRecord (on_branch path head name) h = ground (arith, h)

record_branch-printed_fields :
    (w : Worktree) → IsWorktree w → record_branch (printed_fields w) ≡ ok (branch_of w)
unfolding record_branch after same_codes
record_branch-printed_fields (bare_at (p ∷ path)) h = refl
record_branch-printed_fields (bare_at []) h = cc (h.0)
record_branch-printed_fields (detached_at (p ∷ path) head) h = refl
record_branch-printed_fields (detached_at [] head) h = cc (h.0.0)
record_branch-printed_fields (on_branch (p ∷ path) head name) h = rw (h.3)
record_branch-printed_fields (on_branch [] head name) h = cc (h.0.0)

printed_fields-All : (ws : List Worktree) → All IsWorktree ws → All IsRecord (map printed_fields ws)
printed_fields-All [] h = tt
printed_fields-All (w ∷ ws) h = (printed_fields-IsRecord w h.0, printed_fields-All ws h.1)

step :
    (known : List Codes) (w : Worktree) (rs : List Codes)
    → IsWorktree w
    → collect_branches known (record_text (printed_fields w) ∷ rs)
      ≡ (add_branch (branch_of w) known >>= λ found. collect_branches found rs)
unfolding collect_branches
step known w rs h = rw (
  split_fields-IsRecord (printed_fields w) (printed_fields-IsRecord w h),
  record_branch-printed_fields w h,
)

collect_branches-printed_fields :
    (known : List Codes) (ws : List Worktree)
    → All IsWorktree ws
    → AreDistinct known ws
    → collect_branches known (map record_text (map printed_fields ws)) ≡ ok (branches_onto known ws)
unfolding add_branch collect_branches
collect_branches-printed_fields known [] h d = refl
collect_branches-printed_fields known (bare_at path ∷ ws) h d =
    step known (bare_at path) (map record_text (map printed_fields ws)) h.0
    ∙ collect_branches-printed_fields known ws h.1 d
collect_branches-printed_fields known (detached_at path head ∷ ws) h d =
    step known (detached_at path head) (map record_text (map printed_fields ws)) h.0
    ∙ collect_branches-printed_fields known ws h.1 d
collect_branches-printed_fields known (on_branch path head name ∷ ws) h d =
    step known (on_branch path head name) (map record_text (map printed_fields ws)) h.0
    ∙ rw (d.0) (collect_branches-printed_fields (full_name name ∷ known) ws h.1 d.1)

-- What Git prints of one or more worktrees is read as the branches that they have checked out, where
-- no branch is checked out twice, no text is empty or has a NUL and no branch has a line end.
pub checked_out_branches-porcelain :
    (w : Worktree) (ws : List Worktree)
    → All IsWorktree (w ∷ ws)
    → AreDistinct [] (w ∷ ws)
    → checked_out_branches (porcelain (map printed_fields (w ∷ ws)))
      ≡ ok (branches_onto [] (w ∷ ws))
unfolding checked_out_branches from_complete
checked_out_branches-porcelain w ws h d =
    rw
      (
        complete_append (records_text (map printed_fields (w ∷ ws))),
        split_records-records_text (printed_fields w) (map printed_fields ws)
            (printed_fields-All (w ∷ ws) h),
      )
      (collect_branches-printed_fields [] (w ∷ ws) h d)
