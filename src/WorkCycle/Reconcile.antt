-- ===== src/WorkCycle/Reconcile.antt =====
-- `reconcile_reader_task` of peoplebot/work_cycle.py: an unresolved task of a reader is closed as
-- failed, with reviewed evidence.
pub mod Laws
pub mod Reconciled
use peoplebot_releases.Base.{
  ℕ, String, ◌<>◌, Bool, true, false, not, ◌&&◌, ◌||◌, Option, none, some, List, [], ◌∷◌, length,
  keep, eqb, ◌==◌, is_some, if◌then◌else◌,
}
use peoplebot_releases.Base.Result.{Error, Result, ok, err, value_error, cycle_error}
use peoplebot_releases.Base.Exec.{Exec, pure, raise, lift, gets, raise_when, ◌>>=◌, ◌>>◌}
use peoplebot_releases.Json.{Value, null, bool, str, obj, field, end}
use peoplebot_releases.State.{StateRef, same_state}
use peoplebot_releases.Admission.{
  AdmissionAttempt, ExecutionAdmission, try_acquire_execution, release_local,
}
use peoplebot_releases.Host.{External, Host, read_file}
use peoplebot_releases.Messaging.Message.{identifier}
use peoplebot_releases.WorkCycle.Progress.{
  failed, TaskProgress, ReaderReconciliation, ReaderProgress, task_progress, optional_state,
  reconciliation_dict,
}
use peoplebot_releases.WorkCycle.Update.{
  barriers, replace_progress, equal_lists, same_task, same_reconciliation_value,
}
use peoplebot_releases.WorkCycle.Store.{ProgressState, ProgressStore, progress_store, load, save}
use peoplebot_releases.WorkCycle.Bindings.{CycleBindings}

pub record ReaderReconciliationResult : Type 0 where
  pub code : String
  pub reconciled : Bool
  pub prior_progress_state : Option StateRef
  pub progress_state : Option StateRef
  pub reconciliation : Option ReaderReconciliation
  pub provider_invoked : Bool

abbrev optional_reconciliation : Option ReaderReconciliation → Value
optional_reconciliation none = null
optional_reconciliation (some r) = reconciliation_dict r

-- ReaderReconciliationResult.to_dict
unfoldable pub reconciliation_result_dict : ReaderReconciliationResult → Value
reconciliation_result_dict r = obj (
    field "code" (str r.code) (
      field "format" (str "peoplebot.reader-reconciliation-result.v0") (
        field "prior_progress_state" (optional_state r.prior_progress_state) (
          field "progress_state" (optional_state r.progress_state) (
            field "provider_invoked" (bool r.provider_invoked) (
              field "reconciled" (bool r.reconciled)
                (field "reconciliation" (optional_reconciliation r.reconciliation) end)))))))

-- ReaderReconciliationResult(code, False, None, None, None)
abbrev pub not_reconciled : String → ReaderReconciliationResult
not_reconciled code = record {
  code = code;
  reconciled = false;
  prior_progress_state = none;
  progress_state = none;
  reconciliation = none;
  provider_invoked = false;
}

abbrev pub reconciled_by :
    String → StateRef → StateRef → ReaderReconciliation → ReaderReconciliationResult
reconciled_by code prior now reconciliation = record {
  code = code;
  reconciled = true;
  prior_progress_state = some prior;
  progress_state = some now;
  reconciliation = some reconciliation;
  provider_invoked = false;
}

-- replace(prior_task, disposition=TaskDisposition.FAILED)
unfoldable pub failed_task : TaskProgress → Result TaskProgress
failed_task t =
    task_progress t.message_state (str t.message_id) (str t.task_id) failed t.reply_state
      t.memory_state

-- next((item for item in tasks if item.message_id == message_id), None)
unfoldable pub first_task : String → List TaskProgress → Option TaskProgress
first_task message_id [] = none
first_task message_id (t ∷ ts) =
    let rest = first_task message_id ts in if t.message_id == message_id then some t else rest

unfoldable pub is_same_task : Option TaskProgress → TaskProgress → Bool
is_same_task none t = false
is_same_task (some s) t = same_task s t

-- The reconciliations of the same identity.
unfoldable pub existing_in : ReaderReconciliation → ReaderProgress → List ReaderReconciliation
existing_in r p = keep (λ item. item.reconciliation_id == r.reconciliation_id) p.reconciliations

abbrev reconciliation_conflict : Error
reconciliation_conflict =
    cycle_error "cycle.reconciliation_conflict"
      "reconciliation identity already exists with different State"

module _ {S A : Type 0} where
  -- What a local variable holds of a step of a try block, its exception too.
  attempted : Exec S A → Exec S (Result A)
  attempted m s = let (r, s') = m s in (ok r, s')

module _ (X : External) (bindings : CycleBindings) (reconciliation : ReaderReconciliation)
    (execution_id : String) (evidence_check : Exec (Host X) (Unit {0})) where
  -- The branch of an identity that exists.
  already_applied :
      ProgressState → List ReaderReconciliation → Exec (Host X) ReaderReconciliationResult
  already_applied current (one ∷ []) = do
    raise_when (not (same_reconciliation_value one reconciliation)) reconciliation_conflict
    terminal ← lift (failed_task reconciliation.prior_task)
    raise_when
        (not (
          is_same_task (first_task reconciliation.prior_task.message_id current.progress.tasks)
            terminal))
        reconciliation_conflict
    pure (
        reconciled_by "cycle.reconciliation_already_applied" reconciliation.prior_progress_state
          current.state reconciliation)
  already_applied current _ = raise reconciliation_conflict

  -- The State and the barrier are the reviewed ones; the task is replaced and the progress saved.
  apply : ProgressStore → ProgressState → Exec (Host X) ReaderReconciliationResult
  apply store current = do
    raise_when (not (same_state current.state reconciliation.prior_progress_state)) (
        cycle_error "cycle.reconciliation_progress_changed"
          "reader progress differs from the exact reviewed prior State")
    raise_when
        (not (
          equal_lists same_task (barriers current.progress.tasks) (reconciliation.prior_task ∷ [])))
        (cycle_error "cycle.reconciliation_task_changed"
          "the exact unresolved task is not the sole reader barrier")
    evidence_check
    terminal ← lift (failed_task reconciliation.prior_task)
    updated ← lift (replace_progress current.progress none (some terminal) (some reconciliation))
    saved ← save X store updated (some current) reconciliation.reconciled_at
    pure
        (reconciled_by "cycle.reconciled_terminal_failure" current.state saved.state reconciliation)

  on_current : ProgressStore → Option ProgressState → Exec (Host X) ReaderReconciliationResult
  unfolding already_applied apply
  on_current store none = raise (
      cycle_error "cycle.reconciliation_progress_changed"
        "reader progress differs from the exact reviewed prior State")
  on_current store (some current) =
      if eqb (length (existing_in reconciliation current.progress)) 0
      then apply store current
      else already_applied current (existing_in reconciliation current.progress)

  -- The try block under both admissions.
  unfoldable pub reconcile_owned : Exec (Host X) ReaderReconciliationResult
  unfolding on_current
  reconcile_owned = do
    halted ← gets (λ w. is_some (read_file bindings.stop_path w.files))
    if halted then pure (not_reconciled "cycle.reconciliation_stopped") else (do
      store ←
          progress_store X bindings.local_checkout bindings.local_repository bindings.progress_ref
      current ← load X store
      on_current store current)

  with_task_owner :
      Option ExecutionAdmission
      → Exec (Host X) (Option ExecutionAdmission × Result ReaderReconciliationResult)
  unfolding attempted
  with_task_owner none = pure (none, ok (not_reconciled "cycle.reconciliation_busy"))
  with_task_owner (some admission) = do r ← attempted reconcile_owned; pure (some admission, r)

  -- task_owner as the try block leaves it, and what the block gives.
  with_attempt :
      Result AdmissionAttempt
      → Exec (Host X) (Option ExecutionAdmission × Result ReaderReconciliationResult)
  unfolding with_task_owner
  with_attempt (err e) = pure (none, err e)
  with_attempt (ok attempt) = with_task_owner attempt.admission

  release_optional : Option ExecutionAdmission → Exec (Host X) (Unit {0})
  release_optional none = pure tt
  release_optional (some admission) = release_local admission

  -- The try block and its finally block: an exception of the first release skips the second one.
  under_owner : Option ExecutionAdmission → Exec (Host X) ReaderReconciliationResult
  unfolding with_attempt release_optional attempted
  under_owner none = pure (not_reconciled "cycle.reconciliation_busy")
  under_owner (some owner) =
      attempted (
        try_acquire_execution X.sha256 bindings.runtime_root bindings.environment_id
          bindings.instance_id execution_id)
      >>= λ attempt. with_attempt attempt >>= λ (task_owner, r).
          release_optional task_owner >> release_local owner >> lift r

  unfoldable pub reconcile_reader_task : Exec (Host X) ReaderReconciliationResult
  unfolding under_owner
  reconcile_reader_task = do
    lift (identifier (str execution_id) "execution_id")
    raise_when
        (not (reconciliation.prior_progress_state.repository == bindings.local_repository)
          || not (reconciliation.prior_task.message_state.repository == bindings.local_repository))
        (value_error "reconciliation States do not match cycle repository")
    owner ←
        try_acquire_execution X.sha256 bindings.runtime_root bindings.environment_id
          ("work-cycle-owner:" <> bindings.instance_id) execution_id
    under_owner owner.admission
