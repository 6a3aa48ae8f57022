-- ===== src/WorkCycle/Update.antt =====
-- `_replace_progress` of peoplebot/work_cycle.py, the tests of a cycle on the tasks of a reader's
-- progress, and the equality of the progress classes.
pub mod Laws
use peoplebot_releases.Base.{
  ℕ, suc, String, Bool, true, false, not, ◌&&◌, ◌||◌, Option, none, some, List, [], ◌∷◌, ◌++◌, any,
  keep, ◌==◌, if◌then◌else◌,
}
use peoplebot_releases.Base.Result.{Result}
use peoplebot_releases.Json.{str}
use peoplebot_releases.State.{StateRef, same_state}
use peoplebot_releases.WorkCycle.Progress.{
  TaskDisposition, claimed, completed, failed, unresolved, stopped, SourceCursor, TaskProgress,
  ReaderReconciliation, ReaderProgress, reader_progress, same_source, disposition_text,
}

-- item.disposition in {CLAIMED, UNRESOLVED, STOPPED}
abbrev pub is_barrier : TaskProgress → Bool
is_barrier t = elim t.disposition [
  | claimed ↦ true
  | completed ↦ false
  | failed ↦ false
  | unresolved ↦ true
  | stopped ↦ true
]

unfoldable pub barriers : List TaskProgress → List TaskProgress
barriers tasks = keep is_barrier tasks

-- item.disposition in {COMPLETED, FAILED}
abbrev pub is_done : TaskProgress → Bool
is_done t = elim t.disposition [
  | claimed ↦ false
  | completed ↦ true
  | failed ↦ true
  | unresolved ↦ false
  | stopped ↦ false
]

-- sum(item.disposition in {COMPLETED, FAILED} for item in tasks)
unfoldable pub completed_count : List TaskProgress → ℕ
completed_count [] = 0
completed_count (t ∷ ts) = let rest = completed_count ts in if is_done t then suc rest else rest

-- message_id in {item.message_id for item in tasks}
unfoldable pub is_handled : List TaskProgress → String → Bool
is_handled tasks message_id = any (λ t. t.message_id == message_id) tasks

unfoldable pub replaced_tasks : List TaskProgress → Option TaskProgress → List TaskProgress
replaced_tasks tasks none = tasks
replaced_tasks tasks (some task) =
    keep (λ t. not (t.message_id == task.message_id)) tasks ++ task ∷ []

abbrev pub or_given {ℓ} : {A : Type ℓ} → A → Option A → A
or_given before none = before
or_given before (some given) = given

abbrev pub added {ℓ} : {A : Type ℓ} → List A → Option A → List A
added xs none = xs
added xs (some x) = xs ++ x ∷ []

-- `_replace_progress`
unfoldable pub replace_progress :
    ReaderProgress
    → Option (List SourceCursor)
    → Option TaskProgress
    → Option ReaderReconciliation
    → Result ReaderProgress
unfolding replaced_tasks
replace_progress p cursors task reconciliation =
    reader_progress (str p.environment_id) (str p.instance_id) (or_given p.cursors cursors)
      (replaced_tasks p.tasks task) (added p.reconciliations reconciliation)

-- == of tuples
unfoldable pub equal_lists {ℓ} : {A : Type ℓ} → (A → A → Bool) → List A → List A → Bool
equal_lists same [] [] = true
equal_lists same (x ∷ xs) (y ∷ ys) = same x y && equal_lists same xs ys
equal_lists same _ _ = false

unfoldable pub same_optional : Option StateRef → Option StateRef → Bool
same_optional none none = true
same_optional (some s) (some t) = same_state s t
same_optional _ _ = false

-- SourceCursor.__eq__
unfoldable pub same_cursor : SourceCursor → SourceCursor → Bool
same_cursor a b = same_source a b && a.commit == b.commit

-- TaskProgress.__eq__
unfoldable pub same_task : TaskProgress → TaskProgress → Bool
unfolding same_optional
same_task a b =
    same_state a.message_state b.message_state
    && a.message_id == b.message_id
    && a.task_id == b.task_id
    && disposition_text a.disposition == disposition_text b.disposition
    && same_optional a.reply_state b.reply_state
    && same_optional a.memory_state b.memory_state

-- ReaderReconciliation.__eq__
unfoldable pub same_reconciliation_value : ReaderReconciliation → ReaderReconciliation → Bool
unfolding same_task equal_lists
same_reconciliation_value a b =
    a.reconciliation_id == b.reconciliation_id
    && same_state a.prior_progress_state b.prior_progress_state
    && same_task a.prior_task b.prior_task
    && a.terminal_code == b.terminal_code
    && equal_lists same_state a.evidence_states b.evidence_states
    && a.reconciled_at == b.reconciled_at

-- ReaderProgress.__eq__
unfoldable pub same_progress : ReaderProgress → ReaderProgress → Bool
unfolding same_cursor same_task same_reconciliation_value equal_lists
same_progress a b =
    a.environment_id == b.environment_id
    && a.instance_id == b.instance_id
    && equal_lists same_cursor a.cursors b.cursors
    && equal_lists same_task a.tasks b.tasks
    && equal_lists same_reconciliation_value a.reconciliations b.reconciliations
