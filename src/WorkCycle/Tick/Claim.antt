-- ===== src/WorkCycle/Tick/Claim.antt =====
-- `_run_owned_work_cycle_tick` of peoplebot/work_cycle.py up to the end of its try block: the claim of
-- a task, and its handler.
pub mod Laws
use peoplebot_releases.Base.{
  String, ◌<>◌, Bool, true, false, not, ◌&&◌, ◌||◌, Option, none, some, List, [], ◌∷◌, leb, ◌==◌,
  is_some, if◌then◌else◌,
}
use peoplebot_releases.Base.Result
use peoplebot_releases.Base.Result.{
  Error, Result, ok, err, value_error, cycle_error, message_error, os_error,
}
use peoplebot_releases.Base.Result.{is_exception, exception_type}
use peoplebot_releases.Base.Exec.{
  Exec, pure, raise, lift, gets, catch, finally, raise_when, ◌>>=◌, ◌>>◌,
}
use peoplebot_releases.Json.{str}
use peoplebot_releases.State.{StateRef}
use peoplebot_releases.Execution.Timestamp.{utc_timestamp, earlier}
use peoplebot_releases.Admission.{ExecutionAdmission, try_acquire_execution, release_local}
use peoplebot_releases.Host.{External, Host, read_file}
use peoplebot_releases.Messaging.Message.{Message, MessageKind, task, reply, stop, identifier}
use peoplebot_releases.Messaging.Store.{PublishedMessage, message_store}
use peoplebot_releases.Messaging.Remote.{
  GitRunner, PublicationDisposition, remote_verified, failed, uncertain,
}
use peoplebot_releases.Messaging.Owned.{append_and_publish_owned_message}
use peoplebot_releases.WorkCycle.Progress
use peoplebot_releases.WorkCycle.Progress.{
  TaskDisposition, claimed, completed, unresolved, stopped, disposition_text, SourceCursor,
  TaskProgress, ReaderProgress, task_progress, reader_progress,
}
use peoplebot_releases.WorkCycle.Update.{barriers, completed_count, replace_progress, same_progress}
use peoplebot_releases.WorkCycle.Store.{ProgressState, ProgressStore, progress_store, load, save}
use peoplebot_releases.WorkCycle.Policy.{
  TaskPolicy, handler_for, TaskHandlerResult, task_handler_result, plain_result,
}
use peoplebot_releases.WorkCycle.Bindings.{CycleBindings}
use peoplebot_releases.WorkCycle.Status.{
  CycleStatus, plain_status, cycle_status, persist_cycle_status, persist_terminal_status,
}
use peoplebot_releases.WorkCycle.Tick.{Cycle, CycleHandler, Ports, on_host}
use peoplebot_releases.WorkCycle.Tick.Selection.{read_sources, select_earliest}
use peoplebot_releases.WorkCycle.Tick.Reply.{reply_to_request}

-- What the locals of the tick hold after the try block that claims the task.
pub record Claim : Type 0 where
  pub claimed_state : ProgressState
  pub selected : PublishedMessage
  pub handler_name : Option String
  pub handler_result : TaskHandlerResult

-- The try block returns a status, or goes on with a claim.
pub data Progressed : Type 0 where
  returned : CycleStatus → Progressed
  prepared : Claim → Progressed

-- handler_name with what the message is answered, or the handler to call.
pub data Decision (H : Type 0) : Type 0 where
  decided : Option String → TaskHandlerResult → Decision H
  call : String → H → Decision H

-- handler_name
abbrev pub name_of : {H : Type 0} → Decision H → Option String
name_of (decided name _) = name
name_of (call name _) = some name

abbrev pub progress_state_of : Option ProgressState → Option StateRef
progress_state_of none = none
progress_state_of (some p) = some p.state

-- barrier_code
unfoldable pub barrier_code : TaskDisposition → String
barrier_code stopped = "cycle.stopped_halt"
barrier_code unresolved = "cycle.unresolved_halt"
barrier_code _ = "cycle.claimed_unresolved"

-- barrier_disposition
unfoldable pub barrier_disposition : TaskDisposition → String
barrier_disposition stopped = "stopped"
barrier_disposition _ = "unresolved"

unfoldable pub barrier_status : String → TaskProgress → Option ProgressState → CycleStatus
unfolding barrier_code barrier_disposition
barrier_status execution_id barrier current =
    record (plain_status execution_id (barrier_code barrier.disposition)
      (barrier_disposition barrier.disposition)) {
        message_state = some barrier.message_state;
        reply_state = barrier.reply_state;
        memory_state = barrier.memory_state;
        progress_state = progress_state_of current;
      }

-- current.progress if current else ReaderProgress(...)
unfoldable pub starting_progress : CycleBindings → Option ProgressState → Result ReaderProgress
starting_progress bindings none =
    reader_progress (str bindings.environment_id) (str bindings.instance_id) [] [] []
starting_progress bindings (some current) = ok current.progress

unfoldable pub is_foreign : CycleBindings → Option ProgressState → Bool
is_foreign bindings none = false
is_foreign bindings (some current) =
    not (current.progress.environment_id == bindings.environment_id)
    || not (current.progress.instance_id == bindings.instance_id)

-- current, where it is not None and has the progress already
unfoldable pub unchanged : ReaderProgress → Option ProgressState → Option ProgressState
unchanged progress none = none
unchanged progress (some current) =
    if same_progress progress current.progress then some current else none

module _ (X : External) where
  -- A CycleStatus, and `persist_cycle_status`
  unfoldable pub report : CycleBindings → CycleStatus → Exec (Cycle X) CycleStatus
  report bindings s = do
    status ← lift (cycle_status s)
    on_host (persist_cycle_status bindings.status_path status)
    pure status

module _ (X : External) (runner : GitRunner X) (bindings : CycleBindings) (policy : TaskPolicy)
    (ports : Ports X) (execution_id started_at : String) where
  report_and_return : CycleStatus → Exec (Cycle X) Progressed
  report_and_return s = do status ← report X bindings s; pure (returned status)

  -- The status of a tick without a candidate.
  report_idle :
      ProgressStore
      → ReaderProgress
      → Option ProgressState
      → Option ProgressState
      → Exec (Cycle X) Progressed
  unfolding report_and_return
  report_idle store progress current (some kept) =
      report_and_return (record (plain_status execution_id "cycle.idle" "idle") {
        progress_state = some kept.state;
      })
  report_idle store progress current none = do
    s ← ports.save store progress current started_at
    report_and_return
        (record (plain_status execution_id "cycle.idle" "idle") { progress_state = some s.state })

  -- The handler of the route, where it is among the handlers.
  routed : Option String → Result (Decision (CycleHandler X))
  routed none =
      Result.◌>>=◌
        (task_handler_result (
          plain_result Progress.failed
            "No locally approved handler is available for this message purpose."))
        λ r. ok (decided none r)
  routed (some name) = elim (ports.handlers name) [
    | none ↦
        Result.◌>>=◌
          (task_handler_result (
            plain_result Progress.failed
              "No locally approved handler is available for this message purpose."))
          λ r. ok (decided (some name) r)
    | some handler ↦ ok (call name handler)
  ]

  -- What is decided before the claim.
  unfoldable pub decide : Message → Result (Decision (CycleHandler X))
  unfolding routed
  decide m = elim m.kind [
    | stop ↦
        Result.◌>>=◌
          (task_handler_result (
            if policy.allow_stop_messages
            then plain_result stopped "Local work cycle stopped by permitted request."
            else plain_result Progress.failed "Stop request is not permitted by local policy."))
          λ r. ok (decided none r)
    | task ↦ routed (handler_for policy m.purpose)
    | reply ↦ routed (handler_for policy m.purpose)
  ]

  -- except Exception
  stopped_handler : Error → Option (Exec (Cycle X) TaskHandlerResult)
  stopped_handler e =
      if is_exception e
      then some (
          lift (
            task_handler_result
              (plain_result unresolved ("Handler stopped with " <> exception_type e <> "."))))
      else none

  perform : Message → Decision (CycleHandler X) → Exec (Cycle X) TaskHandlerResult
  unfolding stopped_handler
  perform m (decided _ result) = pure result
  perform m (call name handler) = catch (handler m) stopped_handler

  -- The claim of the selected message, and its handler.
  claim_task :
      ProgressStore
      → ReaderProgress
      → Option ProgressState
      → PublishedMessage
      → Exec (Cycle X) Progressed
  unfolding perform
  claim_task store progress current selected = do
    decision ← lift (decide selected.message)
    claimed_one ← lift (
        task_progress selected.state (str selected.message.message_id)
          (str selected.message.task_id) claimed none none)
    next ← lift (replace_progress progress none (some claimed_one) none)
    claimed_state ← ports.save store next current started_at
    result ← perform selected.message decision
    pure (
        prepared (record {
          claimed_state = claimed_state;
          selected = selected;
          handler_name = name_of decision;
          handler_result = result;
        }))

  on_selected :
      ProgressStore
      → ReaderProgress
      → Option ProgressState
      → Option PublishedMessage
      → Exec (Cycle X) Progressed
  unfolding report_idle claim_task
  on_selected store progress current none =
      report_idle store progress current (unchanged progress current)
  on_selected store progress current (some selected) = claim_task store progress current selected

  -- The peers are read, and the earliest candidate is selected.
  read_and_select :
      ProgressStore → ReaderProgress → Option ProgressState → Exec (Cycle X) Progressed
  unfolding on_selected
  read_and_select store progress current =
      on_host (
        read_sources X runner bindings.local_checkout bindings.environment_id progress.tasks
          bindings.sources)
      >>= λ (cursors, candidates).
          lift (replace_progress progress (some cursors) none none) >>= λ updated.
          lift (select_earliest candidates) >>= λ selected.
          on_selected store updated current selected

  unless_halted :
      ProgressStore
      → ReaderProgress
      → Option ProgressState
      → List TaskProgress
      → Exec (Cycle X) Progressed
  unfolding report_and_return read_and_select
  unless_halted store progress current (barrier ∷ _) =
      report_and_return (barrier_status execution_id barrier current)
  unless_halted store progress current [] =
      if leb policy.maximum_completed_tasks (completed_count progress.tasks)
      then report_and_return (record (plain_status execution_id "cycle.exhausted" "exhausted") {
        progress_state = progress_state_of current;
      })
      else read_and_select store progress current

  -- The try block.
  unfoldable pub claim_phase : ProgressStore → Exec (Cycle X) Progressed
  unfolding unless_halted
  claim_phase store = do
    current ← ports.load store
    progress ← lift (starting_progress bindings current)
    raise_when (is_foreign bindings current) (
        cycle_error "cycle.progress_binding_mismatch"
          "reader progress belongs to another environment or Instance")
    unless_halted store progress current (barriers progress.tasks)

  -- except (CycleError, MessageError)
  unfoldable pub on_cycle_error : Error → Option (Exec (Cycle X) Progressed)
  unfolding report_and_return
  on_cycle_error (cycle_error code _) =
      some (report_and_return (plain_status execution_id code "unresolved"))
  on_cycle_error (message_error code _) =
      some (report_and_return (plain_status execution_id code "unresolved"))
  on_cycle_error _ = none
