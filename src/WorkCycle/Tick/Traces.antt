-- ===== src/WorkCycle/Tick/Traces.antt =====
-- The traces that a tick may leave: a state machine, from the empty trace.
use peoplebot_releases.Base.{
  String, ◌≡◌, Bool, true, false, Option, none, some, List, [], ◌∷◌, ◌++◌, leb,
}
use peoplebot_releases.State.{StateRef}
use peoplebot_releases.Messaging.Message.{MessageKind, task, reply, stop}
use peoplebot_releases.Messaging.Store.{PublishedMessage}
use peoplebot_releases.WorkCycle.Progress.{TaskDisposition, claimed, TaskProgress}
use peoplebot_releases.WorkCycle.Update.{barriers, completed_count, is_handled}
use peoplebot_releases.WorkCycle.Store.{ProgressState}
use peoplebot_releases.WorkCycle.Policy.{TaskPolicy, handler_for}
use peoplebot_releases.WorkCycle.Bindings.{CycleBindings}
use peoplebot_releases.WorkCycle.Tick.{Event, loaded, saved, called}
use peoplebot_releases.WorkCycle.Tick.Selection.{is_request}

-- The task of a message.
abbrev pub task_of :
    PublishedMessage → TaskDisposition → Option StateRef → Option StateRef → TaskProgress
task_of item disposition reply_state memory_state = record {
  message_state = item.state;
  message_id = item.message.message_id;
  task_id = item.message.task_id;
  disposition = disposition;
  reply_state = reply_state;
  memory_state = memory_state;
}

abbrev pub is_stop : MessageKind → Bool
is_stop stop = true
is_stop task = false
is_stop reply = false

-- The tasks of the progress that is loaded, if any.
abbrev pub tasks_in : Option ProgressState → List TaskProgress
tasks_in none = []
tasks_in (some current) = current.progress.tasks

-- fresh ts: progress with the tasks `ts` was loaded. held b before item: `item` is claimed after the tasks `before`, and `b` says whether its handler is
-- called.
pub data Stage : Type 0 where
  unread refreshed over : Stage
  fresh : List TaskProgress → Stage
  held : Bool → List TaskProgress → PublishedMessage → Stage

module _ (bindings : CycleBindings) (policy : TaskPolicy) where
  -- No task is a barrier, and the policy allows one more.
  pub record IsFree (tasks : List TaskProgress) : Type 0 where
    pub no_barrier : barriers tasks ≡ []
    pub not_exhausted : leb policy.maximum_completed_tasks (completed_count tasks) ≡ false

  -- A new request to the environment is added to free tasks, as claimed.
  pub record IsClaim (before : List TaskProgress) (item : PublishedMessage) (s : ProgressState)
      : Type 0 where
    pub free : IsFree before
    pub addressed : item.message.recipient ≡ bindings.environment_id
    pub requested : is_request item.message.kind ≡ true
    pub unhandled : is_handled before item.message.message_id ≡ false
    pub tasks : s.progress.tasks ≡ before ++ task_of item claimed none none ∷ []

  -- The task of the request has a disposition and States; the tasks before it are as they were.
  pub record IsFinal (before : List TaskProgress) (item : PublishedMessage) (s : ProgressState)
      : Type 0 where
    pub disposition : TaskDisposition
    pub reply_state : Option StateRef
    pub memory_state : Option StateRef
    pub tasks : s.progress.tasks ≡ before ++ task_of item disposition reply_state memory_state ∷ []

  pub data Reaches : Stage → List Event → Type 0 where
    start : Reaches unread []
    loads :
        {es : List Event} (current : Option ProgressState)
        → Reaches unread es
        → Reaches (fresh (tasks_in current)) (loaded current ∷ es)
    refresh :
        {es : List Event} (s : ProgressState)
        → IsFree s.progress.tasks
        → Reaches (fresh s.progress.tasks) es
        → Reaches refreshed (saved s ∷ es)
    claims :
        {es : List Event} {before : List TaskProgress} {item : PublishedMessage} (s : ProgressState)
        → IsClaim before item s
        → Reaches (fresh before) es
        → Reaches (held false before item) (saved s ∷ es)
    runs :
        {es : List Event} {before : List TaskProgress} {item : PublishedMessage} (name : String)
        → handler_for policy item.message.purpose ≡ some name
        → is_stop item.message.kind ≡ false
        → Reaches (held false before item) es
        → Reaches (held true before item) (called name item.message ∷ es)
    ends :
        {es : List Event} {b : Bool} {before : List TaskProgress} {item : PublishedMessage}
        (s : ProgressState)
        → IsFinal before item s
        → Reaches (held b before item) es
        → Reaches over (saved s ∷ es)

  abbrev pub IsTrace : List Event → Type 0
  IsTrace es = (stage : Stage) × Reaches stage es
