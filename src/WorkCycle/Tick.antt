-- ===== src/WorkCycle/Tick.antt =====
-- The tick of peoplebot/work_cycle.py. What it calls are ports: its handlers, and the load and save of
-- its progress store. `git_ports` are those of the code. `logged` are the same, but a handler that
-- runs, a load and a save write themselves into a trace beside the host, the last event first; the tick
-- itself writes no event.
pub mod Selection
pub mod Reply
pub mod Claim
pub mod Run
pub mod Triple
pub mod Traces
use peoplebot_releases.Base.{
  String, ◌<>◌, Bool, true, false, Option, none, some, List, [], ◌∷◌, if◌then◌else◌,
}
use peoplebot_releases.Base.Result.{ok}
use peoplebot_releases.Base.Exec.{Exec, pure, ◌>>=◌, ◌>>◌}
use peoplebot_releases.State.{StateRef}
use peoplebot_releases.Host.{External, Host}
use peoplebot_releases.Messaging.Message.{Message}
use peoplebot_releases.Messaging.Store.{PublishedMessage}
use peoplebot_releases.WorkCycle.Policy.{TaskHandlerResult}
use peoplebot_releases.WorkCycle.Progress.{ReaderProgress}
use peoplebot_releases.WorkCycle.Store
use peoplebot_releases.WorkCycle.Store.{ProgressState, ProgressStore}

-- What `load` returned, a progress that `save` returned, or a call of the handler of a name with a
-- message.
pub data Event : Type 0 where
  loaded : Option ProgressState → Event
  saved : ProgressState → Event
  called : String → Message → Event

module _ (X : External) where
  pub record Cycle : Type 0 where
    pub host : Host X
    pub events : List Event

  -- TaskHandler: it may do anything to the host.
  abbrev pub TaskHandler : Type 0
  TaskHandler = Message → Exec (Host X) TaskHandlerResult

  -- Mapping[str, TaskHandler]
  abbrev pub Handlers : Type 0
  Handlers = String → Option TaskHandler

  -- A handler as a tick calls it.
  abbrev pub CycleHandler : Type 0
  CycleHandler = Message → Exec Cycle TaskHandlerResult

  -- The handlers, `ReaderProgressStore.load` and `ReaderProgressStore.save`.
  pub record Ports : Type 0 where
    pub handlers : String → Option CycleHandler
    pub load : ProgressStore → Exec Cycle (Option ProgressState)
    pub save :
        ProgressStore → ReaderProgress → Option ProgressState → String → Exec Cycle ProgressState

  abbrev pub MemoryCheckpoint : Type 0
  MemoryCheckpoint = PublishedMessage → TaskHandlerResult → Exec (Host X) (Option StateRef)

module _ {X : External} where
  unfoldable pub on_host : {A : Type 0} → Exec (Host X) A → Exec (Cycle X) A
  on_host m c = let (r, h) = m c.host in (r, record c { host = h })

  unfoldable pub record_event : Event → Exec (Cycle X) (Unit {0})
  record_event e c = (ok tt, record c { events = e ∷ c.events })

module _ (X : External) (handlers : Handlers X) where
  abbrev pub git_ports : Ports X
  git_ports = record {
    handlers = λ name. elim (handlers name) [
      | none ↦ none
      | some handler ↦ some (λ m. on_host (handler m))
    ];
    load = λ store. on_host (Store.load X store);
    save = λ store progress expected at. on_host (Store.save X store progress expected at);
  }

  -- A handler that writes its calls into the trace.
  abbrev pub log_call : String → TaskHandler X → CycleHandler X
  log_call name handler m = do record_event (called name m); on_host (handler m)

  abbrev pub log_load : ProgressStore → Exec (Cycle X) (Option ProgressState)
  log_load store = do
    current ← on_host (Store.load X store)
    record_event (loaded current)
    pure current

  abbrev pub log_save :
      ProgressStore → ReaderProgress → Option ProgressState → String → Exec (Cycle X) ProgressState
  log_save store progress expected at = do
    s ← on_host (Store.save X store progress expected at)
    record_event (saved s)
    pure s

  abbrev pub logged : Ports X
  logged = record {
    handlers =
        λ name. elim (handlers name) [ none ↦ none | some handler ↦ some (log_call name handler) ];
    load = log_load;
    save = log_save;
  }
