-- ===== src/WorkCycle/Tick/Run.antt =====
-- `_run_owned_work_cycle_tick`, after the claim and around it, and `run_work_cycle_tick` of peoplebot/work_cycle.py.
pub mod Laws
pub mod Locks
use peoplebot_releases.Base.{
  String, ◌<>◌, Bool, true, false, not, ◌&&◌, ◌||◌, Option, none, some, List, [], ◌∷◌, leb, ◌==◌,
  is_some, if◌then◌else◌,
}
use peoplebot_releases.Base.Result
use peoplebot_releases.Base.Result.{
  Error, Result, ok, err, value_error, cycle_error, message_error, os_error,
}
use peoplebot_releases.Base.Result.{is_exception, exception_type}
use peoplebot_releases.Base.Exec.{
  Exec, pure, raise, lift, gets, catch, finally, raise_when, ◌>>=◌, ◌>>◌,
}
use peoplebot_releases.Json.{str}
use peoplebot_releases.State.{StateRef}
use peoplebot_releases.Execution.Timestamp.{utc_timestamp, earlier}
use peoplebot_releases.Admission.{ExecutionAdmission, try_acquire_execution, release_local}
use peoplebot_releases.Host.{External, Host, read_file}
use peoplebot_releases.Messaging.Message.{Message, MessageKind, task, reply, stop, identifier}
use peoplebot_releases.Messaging.Store.{PublishedMessage, message_store}
use peoplebot_releases.Messaging.Remote.{
  GitRunner, PublicationDisposition, remote_verified, failed, uncertain,
}
use peoplebot_releases.Messaging.Owned.{append_and_publish_owned_message}
use peoplebot_releases.WorkCycle.Progress
use peoplebot_releases.WorkCycle.Progress.{
  TaskDisposition, claimed, completed, unresolved, stopped, disposition_text, SourceCursor,
  TaskProgress, ReaderProgress, task_progress, reader_progress,
}
use peoplebot_releases.WorkCycle.Update.{barriers, completed_count, replace_progress, same_progress}
use peoplebot_releases.WorkCycle.Store.{ProgressState, ProgressStore, progress_store, load, save}
use peoplebot_releases.WorkCycle.Policy.{
  TaskPolicy, handler_for, TaskHandlerResult, task_handler_result, plain_result,
}
use peoplebot_releases.WorkCycle.Bindings.{CycleBindings}
use peoplebot_releases.WorkCycle.Status.{
  CycleStatus, plain_status, cycle_status, persist_cycle_status, persist_terminal_status,
}
use peoplebot_releases.WorkCycle.Tick.{Cycle, Ports, MemoryCheckpoint, on_host}
use peoplebot_releases.WorkCycle.Tick.Selection.{read_sources}
use peoplebot_releases.WorkCycle.Tick.Reply.{reply_to_request}
use peoplebot_releases.WorkCycle.Tick.Claim.{
  Claim, Progressed, returned, prepared, report, claim_phase, on_cycle_error,
}

abbrev pub is_verified : PublicationDisposition → Bool
is_verified remote_verified = true
is_verified failed = false
is_verified uncertain = false

-- except (MessageError, ValueError)
abbrev pub is_reply_error : Error → Bool
is_reply_error (message_error _ _) = true
is_reply_error (value_error _) = true
is_reply_error _ = false

-- except (CycleError, OSError, ValueError)
abbrev pub is_save_error : Error → Bool
is_save_error (cycle_error _ _) = true
is_save_error os_error = true
is_save_error (value_error _) = true
is_save_error _ = false

-- The status of a task that is done, its final progress saved or not.
unfoldable pub final_status :
    String
    → Claim
    → TaskHandlerResult
    → Option StateRef
    → Option StateRef
    → TaskDisposition
    → Option ProgressState
    → CycleStatus
final_status execution_id claim result reply_state memory_state final (some progress) =
    record (plain_status execution_id ("cycle." <> disposition_text final)
      (disposition_text final)) {
        work_invoked = is_some claim.handler_name;
        provider_invoked = result.provider_invoked;
        message_state = some claim.selected.state;
        reply_state = reply_state;
        memory_state = memory_state;
        progress_state = some progress.state;
        handler = claim.handler_name;
        terminal_progress_persisted = some true;
      }
final_status execution_id claim result reply_state memory_state final none =
    record (plain_status execution_id "cycle.terminal_progress_persist_failed" "unresolved") {
      work_invoked = is_some claim.handler_name;
      provider_invoked = result.provider_invoked;
      message_state = some claim.selected.state;
      reply_state = reply_state;
      memory_state = memory_state;
      progress_state = some claim.claimed_state.state;
      handler = claim.handler_name;
      original_code = some ("cycle." <> disposition_text final);
      original_disposition = some (disposition_text final);
      terminal_progress_persisted = some false;
    }

module _ (X : External) (runner : GitRunner X) (bindings : CycleBindings) (policy : TaskPolicy)
    (ports : Ports X) (execution_id started_at : String) where
  module _ (finished_at : String) (memory_checkpoint : Option (MemoryCheckpoint X)) where
    -- except Exception, of the memory checkpoint
    stopped_checkpoint :
        TaskHandlerResult → Error → Option (Exec (Cycle X) (Option StateRef × TaskHandlerResult))
    stopped_checkpoint result e =
        if is_exception e
        then some (do
          r ← lift (
              task_handler_result (record result {
                disposition = unresolved;
                reply_content =
                    "Task result exists but its explicit memory checkpoint stopped with "
                    <> exception_type e
                    <> ".";
                memory_items = [];
              }))
          pure (none, r))
        else none

    -- Without a checkpoint or without items, nothing is remembered.
    checkpointed :
        Option (MemoryCheckpoint X)
        → List (String × String)
        → Claim
        → Exec (Cycle X) (Option StateRef × TaskHandlerResult)
    unfolding stopped_checkpoint
    checkpointed none items claim = pure (none, claim.handler_result)
    checkpointed (some checkpoint) [] claim = pure (none, claim.handler_result)
    checkpointed (some checkpoint) (_ ∷ _) claim =
        catch
          (do
            s ← on_host (checkpoint claim.selected claim.handler_result)
            pure (s, claim.handler_result))
          (stopped_checkpoint claim.handler_result)

    -- The memory State, and the result that the reply is of.
    remember : Claim → Exec (Cycle X) (Option StateRef × TaskHandlerResult)
    unfolding checkpointed
    remember claim = checkpointed memory_checkpoint claim.handler_result.memory_items claim

    -- The State of the reply, if it is appended, and the final disposition.
    publish_reply : Message → TaskDisposition → Exec (Cycle X) (Option StateRef × TaskDisposition)
    publish_reply answer disposition =
        catch
          (do
            store ← on_host (
                message_store X bindings.local_checkout bindings.local_repository
                  bindings.outbound_ref)
            result ← on_host (
                append_and_publish_owned_message X runner bindings.runtime_root
                  bindings.environment_id ("publish:" <> execution_id) store answer
                  bindings.destination)
            pure (
              some result.local.state,
              (if is_verified result.publication.disposition then disposition else unresolved),
            ))
          (λ e. if is_reply_error e then some (pure (none, unresolved)) else none)

    -- The final progress, if it is saved.
    save_final : ProgressStore → Claim → TaskProgress → Exec (Cycle X) (Option ProgressState)
    save_final store claim final =
        catch
          (do
            next ← lift (replace_progress claim.claimed_state.progress none (some final) none)
            s ← ports.save store next (some claim.claimed_state) finished_at
            pure (some s))
          (λ e. if is_save_error e then some (pure none) else none)

    -- What follows the try block: memory, reply, final progress and status.
    unfoldable pub finish_task : ProgressStore → Claim → Exec (Cycle X) CycleStatus
    unfolding remember publish_reply save_final
    finish_task store claim = remember claim >>= λ (memory_state, result).
        lift (reply_to_request X.sha256 bindings claim.selected result finished_at memory_state)
        >>= λ answer. publish_reply answer result.disposition >>= λ (reply_state, final).
            lift (
              task_progress claim.selected.state (str claim.selected.message.message_id)
                (str claim.selected.message.task_id) final reply_state memory_state)
            >>= λ final_task. save_final store claim final_task >>= λ progress.
                lift (
                  cycle_status (
                    final_status execution_id claim result reply_state memory_state final progress))
                >>= λ status. on_host (persist_terminal_status bindings.status_path status)

    after_claim : ProgressStore → Progressed → Exec (Cycle X) CycleStatus
    after_claim store (returned status) = pure status
    after_claim store (prepared claim) = finish_task store claim

    -- The tick under the admission of the Instance. The store is made before the try block.
    unfoldable pub admitted_tick : Option ExecutionAdmission → Exec (Cycle X) CycleStatus
    unfolding after_claim
    admitted_tick none = report X bindings (plain_status execution_id "cycle.busy" "busy")
    admitted_tick (some admission) = do
      store ←
          on_host (
            progress_store X bindings.local_checkout bindings.local_repository
              bindings.progress_ref)
      outcome ←
          finally
            (catch (claim_phase X runner bindings policy ports execution_id started_at store)
              (on_cycle_error X runner bindings policy ports execution_id started_at))
            (on_host (release_local admission))
      after_claim store outcome

    -- try_acquire_execution of the Instance
    unfoldable pub acquire_instance : Exec (Cycle X) CycleStatus
    acquire_instance = do
      attempt ← on_host (
          try_acquire_execution X.sha256 bindings.runtime_root bindings.environment_id
            bindings.instance_id execution_id)
      admitted_tick attempt.admission

    -- `_run_owned_work_cycle_tick`
    unfoldable pub run_owned_tick : Exec (Cycle X) CycleStatus
    unfolding acquire_instance
    run_owned_tick = do
      lift (identifier (str execution_id) "execution_id")
      started ← lift (utc_timestamp (str started_at) "started_at")
      finished ← lift (utc_timestamp (str finished_at) "finished_at")
      raise_when (earlier finished started) (value_error "finished_at must not precede started_at")
      halted ← gets (λ c. is_some (read_file bindings.stop_path c.host.files))
      if halted
          then report X bindings (plain_status execution_id "cycle.stopped" "stopped")
          else acquire_instance

    -- The tick under the admission of its logical owner.
    under_tick_owner : Option ExecutionAdmission → Exec (Cycle X) CycleStatus
    under_tick_owner none = report X bindings (plain_status execution_id "cycle.busy" "busy")
    under_tick_owner (some admission) = finally run_owned_tick (on_host (release_local admission))

    unfoldable pub run_work_cycle_tick : Exec (Cycle X) CycleStatus
    unfolding under_tick_owner
    run_work_cycle_tick = do
      lift (identifier (str execution_id) "execution_id")
      attempt ← on_host (
          try_acquire_execution X.sha256 bindings.runtime_root bindings.environment_id
            ("work-cycle-owner:" <> bindings.instance_id) execution_id)
      under_tick_owner attempt.admission
