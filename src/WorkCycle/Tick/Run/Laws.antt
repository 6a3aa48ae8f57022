-- ===== src/WorkCycle/Tick/Run/Laws.antt =====
-- Every trace that a tick leaves is one of the state machine: the end of the task, and the tick.
use peoplebot_releases.Base.{
  String, ◌≡◌, sym, ap, ◌∙◌, refl, Bool, Option, none, some, List, [], ◌∷◌,
}
use mathlib.Core.Path.{subst}
use peoplebot_releases.Base.Result.{Error, ok}
use peoplebot_releases.Base.Result.{is_exception}
use peoplebot_releases.Base.Exec.{gets}
use peoplebot_releases.Base.Exec.Spec.{Spec-any}
use peoplebot_releases.State.{StateRef}
use peoplebot_releases.Admission.{ExecutionAdmission}
use peoplebot_releases.Host.{External}
use peoplebot_releases.Messaging.Message.{Message}
use peoplebot_releases.Messaging.Store.{PublishedMessage}
use peoplebot_releases.Messaging.Remote.{GitRunner}
use peoplebot_releases.WorkCycle.Progress.{TaskDisposition, claimed, TaskProgress}
use peoplebot_releases.WorkCycle.Update.{replace_progress, replaced_tasks}
use peoplebot_releases.WorkCycle.Update.Laws.{
  replace_progress-IsWellFormed, replaced_tasks-last, task_progress-eq-ok,
}
use peoplebot_releases.WorkCycle.Store.{ProgressState, ProgressStore}
use peoplebot_releases.WorkCycle.Policy.{TaskPolicy}
use peoplebot_releases.WorkCycle.Bindings.{CycleBindings}
use peoplebot_releases.WorkCycle.Status.{plain_status}
use peoplebot_releases.WorkCycle.Tick.{Event, Handlers, MemoryCheckpoint, logged}
use peoplebot_releases.WorkCycle.Tick.Claim.{report, Claim, Progressed, returned, prepared}
use peoplebot_releases.WorkCycle.Tick.Claim.Laws.{
  IsProgressed, Triple-claimed, Triple-report, Triple-save,
}
use peoplebot_releases.WorkCycle.Tick.Triple.{
  Triple, Triple-pure, Triple-if, Triple-guard, Triple-catch_if, Triple-bind, Triple-weaken,
  Triple-same, Triple-lift_same, Triple-lift_bind, Triple-on_host_bind, Triple-finally-on_host,
}
use peoplebot_releases.WorkCycle.Tick.Traces.{
  Stage, unread, over, held, task_of, IsClaim, IsFinal, Reaches, start, ends, IsTrace,
}
use peoplebot_releases.WorkCycle.Tick.Run.{
  checkpointed, remember, publish_reply, save_final, finish_task, after_claim, admitted_tick,
  acquire_instance, run_owned_tick, under_tick_owner, run_work_cycle_tick, is_reply_error,
  is_save_error,
}

module _ (X : External) (runner : GitRunner X) (bindings : CycleBindings) (policy : TaskPolicy)
    (handlers : Handlers X) (execution_id started_at finished_at : String)
    (checkpoint : Option (MemoryCheckpoint X)) where
  abbrev pub At : Stage → List Event → Type 0
  At stage es = Reaches bindings policy stage es

  abbrev pub Ends : Error → List Event → Type 0
  Ends _ es = IsTrace bindings policy es

  -- The final progress of a claimed task.
  saved-IsFinal :
      (before : List TaskProgress) (item : PublishedMessage) (c s : ProgressState)
      (d : TaskDisposition) (r m : Option StateRef) {next : _}
      → IsClaim bindings policy before item c
      → replace_progress c.progress none (some (task_of item d r m)) none ≡ ok next
      → s.progress ≡ next
      → IsFinal bindings policy before item s
  saved-IsFinal before item c s d r m claim replaced same =
      let (built, _) = replace_progress-IsWellFormed c.progress _ _ _ replaced in
      record {
        disposition = d;
        reply_state = r;
        memory_state = m;
        tasks =
            ap (λ p. p.tasks) (same ∙ built)
            ∙ ap (λ ts. replaced_tasks ts (some (task_of item d r m))) claim.tasks
            ∙ replaced_tasks-last (task_of item d r m) (task_of item claimed none none) before refl
                claim.unhandled;
      }

  Triple-checkpointed :
      {P : List Event → Type 0} (o : Option (MemoryCheckpoint X)) (items : List (String × String))
      (claim : Claim)
      → Triple P
          (λ _. P)
          (λ _. P)
          (checkpointed X runner bindings policy
            (logged X handlers)
            execution_id
            started_at
            finished_at
            checkpoint
            o
            items
            claim)
  unfolding checkpointed
  Triple-checkpointed none items claim = Triple-pure _ λ es p. p
  Triple-checkpointed (some f) [] claim = Triple-pure _ λ es p. p
  Triple-checkpointed {P} (some f) (i ∷ items) claim =
      Triple-catch_if {F = λ _. P} _ is_exception _
        (Triple-bind {Q = λ _. P} _ _ (Triple-same _) λ s. Triple-pure _ λ es p. p)
        (λ e. Triple-bind {Q = λ _. P} _ _ (Triple-lift_same _) λ s. Triple-pure _ λ es p. p)
        λ e es p. p

  Triple-publish_reply :
      {P : List Event → Type 0} (answer : Message) (d : TaskDisposition)
      → Triple P
          (λ _. P)
          (λ _. P)
          (publish_reply X runner bindings policy
            (logged X handlers)
            execution_id
            started_at
            finished_at
            checkpoint
            answer
            d)
  unfolding publish_reply
  Triple-publish_reply {P} answer d =
      Triple-catch_if {F = λ _. P} _ is_reply_error _
        (Triple-bind {Q = λ _. P} _ _ (Triple-same _)
          λ store. Triple-bind {Q = λ _. P} _ _ (Triple-same _) λ result. Triple-pure _ λ es p. p)
        (λ e. Triple-pure _ λ es p. p) λ e es p. p

  Triple-save_final :
      (store : ProgressStore) (claim : Claim) (before : List TaskProgress) (b : Bool)
      (d : TaskDisposition) (r m : Option StateRef)
      → IsClaim bindings policy before claim.selected claim.claimed_state
      → Triple
          (At (held b before claim.selected))
          Ends
          (λ _. IsTrace bindings policy)
          (save_final X runner bindings policy
            (logged X handlers)
            execution_id
            started_at
            finished_at
            checkpoint
            store
            claim
            (task_of claim.selected d r m))
  unfolding save_final
  Triple-save_final store claim before b d r m is_claim =
      Triple-catch_if {F = Ends} _ is_save_error _
        (Triple-lift_bind _ _ (λ _ es p. (held b before claim.selected, p))
          λ next replaced.
            Triple-bind {Q = λ _. IsTrace bindings policy} _ _
              (Triple-save X bindings handlers store next _ finished_at
                (λ s es same p. (
                  over,
                  ends s
                      (saved-IsFinal before claim.selected claim.claimed_state s d r m is_claim
                        replaced same)
                      p,
                ))
                λ _ es p. (held b before claim.selected, p))
              λ s. Triple-pure _ λ es p. p)
        (λ e. Triple-pure _ λ es p. p) λ e es p. p

  Triple-finish_held :
      (store : ProgressStore) (claim : Claim) (before : List TaskProgress) (b : Bool)
      → IsClaim bindings policy before claim.selected claim.claimed_state
      → Triple
          (At (held b before claim.selected))
          Ends
          (λ _. IsTrace bindings policy)
          (finish_task X runner bindings policy
            (logged X handlers)
            execution_id
            started_at
            finished_at
            checkpoint
            store
            claim)
  unfolding finish_task remember
  Triple-finish_held store claim before b is_claim =
      let kept : (e : Error) (es : List Event) → At (held b before claim.selected) es → Ends e es =
        λ _ es p. (held b before claim.selected, p) in
      Triple-bind {Q = λ _. At (held b before claim.selected)} _ _
        (Triple-weaken _ (Triple-checkpointed checkpoint claim.handler_result.memory_items claim)
          (λ _ p. p) (λ _ es p. p) kept)
        λ (memory_state, result). Triple-lift_bind _ _ kept λ answer _.
          Triple-bind {Q = λ _. At (held b before claim.selected)} _ _
            (Triple-weaken _ (Triple-publish_reply answer result.disposition) (λ _ p. p)
              (λ _ es p. p) kept)
            λ (reply_state, final). Triple-lift_bind _ _ kept λ task made.
              Triple-bind {Q = λ _. IsTrace bindings policy} _ _
                (subst
                  (λ t.
                    Triple (At (held b before claim.selected)) Ends (λ _. IsTrace bindings policy)
                      (save_final X runner bindings policy (logged X handlers) execution_id
                        started_at finished_at checkpoint store claim t))
                  (sym (task_progress-eq-ok _ _ _ _ _ _ made))
                  (Triple-save_final store claim before b final reply_state memory_state is_claim))
                λ progress. Triple-lift_bind _ _ (λ _ es p. p) λ status _. Triple-same _

  Triple-after_claim :
      (store : ProgressStore) (outcome : Progressed)
      → Triple
          (IsProgressed X runner bindings policy handlers execution_id started_at outcome)
          Ends
          (λ _. IsTrace bindings policy)
          (after_claim X runner bindings policy
            (logged X handlers)
            execution_id
            started_at
            finished_at
            checkpoint
            store
            outcome)
  unfolding after_claim
  Triple-after_claim store (returned status) = Triple-pure _ λ es p. p
  Triple-after_claim store (prepared claim) = record {
    at = λ c (b, before, is_claim, r). (Triple-finish_held store claim before b is_claim).at c r;
  }

  is_trace :
      (o : Progressed) (es : List Event)
      → IsProgressed X runner bindings policy handlers execution_id started_at o es
      → IsTrace bindings policy es
  is_trace (returned status) es p = p
  is_trace (prepared claim) es (b, before, _, r) = (held b before claim.selected, r)

  Triple-admitted_tick :
      (a : Option ExecutionAdmission)
      → Triple
          (At unread)
          Ends
          (λ _. IsTrace bindings policy)
          (admitted_tick X runner bindings policy
            (logged X handlers)
            execution_id
            started_at
            finished_at
            checkpoint
            a)
  unfolding admitted_tick
  Triple-admitted_tick none =
      Triple-weaken _ (Triple-report X bindings {P = At unread} _) (λ _ p. p)
        (λ _ es p. (unread, p)) λ _ es p. (unread, p)
  Triple-admitted_tick (some admission) =
      Triple-on_host_bind _ _ (Spec-any _) (λ _ es p. (unread, p))
        λ store _.
          Triple-bind {Q = IsProgressed X runner bindings policy handlers execution_id started_at} _
            _
            (Triple-finally-on_host _ _
              (Triple-claimed X runner bindings policy handlers execution_id started_at store)
              (λ o e es p. is_trace o es p) λ d e es p. p)
            λ outcome. Triple-after_claim store outcome

  Triple-acquire_instance :
      Triple
        (At unread)
        Ends
        (λ _. IsTrace bindings policy)
        (acquire_instance X runner bindings policy
          (logged X handlers)
          execution_id
          started_at
          finished_at
          checkpoint)
  unfolding acquire_instance
  Triple-acquire_instance =
      Triple-on_host_bind _ _ (Spec-any _) (λ _ es p. (unread, p))
        λ attempt _. Triple-admitted_tick attempt.admission

  Triple-run_owned_tick :
      Triple
        (At unread)
        Ends
        (λ _. IsTrace bindings policy)
        (run_owned_tick X runner bindings policy
          (logged X handlers)
          execution_id
          started_at
          finished_at
          checkpoint)
  unfolding run_owned_tick gets
  Triple-run_owned_tick =
      let kept : (e : Error) (es : List Event) → At unread es → Ends e es = λ _ es p. (unread, p) in
      Triple-lift_bind _ _ kept λ _ _. Triple-lift_bind _ _ kept λ started _.
        Triple-lift_bind _ _ kept λ finished _.
          Triple-guard _ _ _ (λ es p. (unread, p))
            λ _.
              Triple-bind {Q = λ _. At unread} _ _ (record { at = λ c p. p })
                λ halted.
                  Triple-if halted
                    (report X bindings (plain_status execution_id "cycle.stopped" "stopped"))
                    (acquire_instance X runner bindings policy (logged X handlers) execution_id
                      started_at finished_at checkpoint)
                    (λ _.
                      Triple-weaken _ (Triple-report X bindings {P = At unread} _) (λ _ p. p)
                        (λ _ es p. (unread, p)) kept)
                    λ _. Triple-acquire_instance

  Triple-under_tick_owner :
      (a : Option ExecutionAdmission)
      → Triple
          (At unread)
          Ends
          (λ _. IsTrace bindings policy)
          (under_tick_owner X runner bindings policy
            (logged X handlers)
            execution_id
            started_at
            finished_at
            checkpoint
            a)
  unfolding under_tick_owner
  Triple-under_tick_owner none =
      Triple-weaken _ (Triple-report X bindings {P = At unread} _) (λ _ p. p)
        (λ _ es p. (unread, p)) λ _ es p. (unread, p)
  Triple-under_tick_owner (some admission) =
      Triple-finally-on_host _ _ Triple-run_owned_tick (λ _ e es p. p) λ d e es p. p

  -- With handlers, a load and a save that write themselves into the trace: whatever Git, the files, the
  -- locks and the handlers do, and whether it returns or raises, a tick that starts with an empty trace
  -- leaves one of the state machine. That is nothing; or one load, and then refreshed progress with the
  -- loaded tasks, of which none is a barrier; or after the load the claim of one new request for the
  -- environment, saved behind the loaded tasks where none was a barrier and the policy allowed one more,
  -- then at most one run, of the handler that the policy routes that request to, and at most one final
  -- progress, in which only the task of that request is replaced.
  pub run_work_cycle_tick-IsTrace :
      Triple
        (λ es. es ≡ [])
        Ends
        (λ _. IsTrace bindings policy)
        (run_work_cycle_tick X runner bindings policy
          (logged X handlers)
          execution_id
          started_at
          finished_at
          checkpoint)
  unfolding run_work_cycle_tick
  run_work_cycle_tick-IsTrace =
      Triple-weaken {P = At unread} _
        (Triple-lift_bind _ _ (λ _ es p. (unread, p))
          λ _ _.
            Triple-on_host_bind _ _ (Spec-any _) (λ _ es p. (unread, p))
              λ attempt _. Triple-under_tick_owner attempt.admission)
        (λ es same. subst (At unread) (sym same) start) (λ _ es p. p) λ _ es p. p
