-- ===== src/WorkCycle/Tick/Claim/Laws.antt =====
-- Every trace that a tick leaves is one of the state machine: the claim and the handler.
use peoplebot_releases.Base.{
  String, ◌≡◌, sym, ap, ◌∙◌, refl, Bool, true, false, Option, none, some, List, [], ◌∷◌, arith,
  eq_iff,
}
use mathlib.Core.Path.{subst}
use peoplebot_releases.Base.Result.{Error, ok, cycle_error, message_error}
use peoplebot_releases.Base.Result
use peoplebot_releases.Base.Result.{Result, is_exception, >>=-eq-ok}
use peoplebot_releases.Base.Exec.{Exec, catch}
use peoplebot_releases.Base.Exec.Spec.{Spec-any}
use peoplebot_releases.Host.{External}
use peoplebot_releases.Messaging.Message.{MessageKind, task, reply, stop, Message}
use peoplebot_releases.Messaging.Store.{PublishedMessage}
use peoplebot_releases.Messaging.Remote.{GitRunner}
use peoplebot_releases.WorkCycle.Progress.{reader_progress, claimed, TaskProgress, ReaderProgress}
use peoplebot_releases.WorkCycle.Update.{barriers, is_handled, replaced_tasks, replace_progress}
use peoplebot_releases.WorkCycle.Update.Laws.{
  replace_progress-IsWellFormed, replaced_tasks-unhandled, task_progress-eq-ok,
}
use peoplebot_releases.WorkCycle.Store.{ProgressState, ProgressStore}
use peoplebot_releases.WorkCycle.Store.Laws.{save-IsBound}
use peoplebot_releases.WorkCycle.Policy.{TaskPolicy, TaskHandlerResult, handler_for}
use peoplebot_releases.WorkCycle.Bindings.{CycleBindings}
use peoplebot_releases.WorkCycle.Status.{CycleStatus, plain_status}
use peoplebot_releases.WorkCycle.Tick.{
  Event, saved, Cycle, TaskHandler, Handlers, CycleHandler, loaded, log_call, log_save, logged,
}
use peoplebot_releases.WorkCycle.Tick.Selection.{is_candidate}
use peoplebot_releases.WorkCycle.Tick.Selection.Laws.{
  All-Mem, select_earliest-IsEarliest, read_sources-AreCandidates,
}
use peoplebot_releases.WorkCycle.Tick.Claim.{
  Progressed, returned, prepared, Decision, decided, call, report, claim_phase, on_cycle_error,
  report_and_return, report_idle, decide, routed, perform, claim_task, on_selected, read_and_select,
  unless_halted, unchanged, starting_progress,
}
use peoplebot_releases.WorkCycle.Tick.Triple.{
  Triple, Triple-pure, Triple-on_host, Triple-if, Triple-guard, Triple-catch, Triple-catch_if,
  Triple-given, Triple-bind, Triple-record_event, Triple-weaken, Triple-same, Triple-lift_same,
  Triple-lift_bind, Triple-on_host_bind,
}
use peoplebot_releases.WorkCycle.Tick.Traces.{
  Stage, unread, fresh, refreshed, held, loads, tasks_in, task_of, is_stop, IsFree, IsClaim,
  Reaches, refresh, claims, runs, IsTrace,
}

module _ (X : External) (bindings : CycleBindings) where
  pub Triple-report :
      {P : List Event → Type 0} (s : CycleStatus) → Triple P (λ _. P) (λ _. P) (report X bindings s)
  unfolding report
  Triple-report s =
      Triple-bind _ _ (Triple-lift_same _)
        λ status. Triple-bind _ _ (Triple-same _) λ _. Triple-pure _ λ es p. p

  pub Triple-save :
      {P : List Event → Type 0} {E : Error → List Event → Type 0}
      {Q : ProgressState → List Event → Type 0} (handlers : Handlers X) (store : ProgressStore)
      (p : ReaderProgress) (expected : Option ProgressState) (at : String)
      → ((s : ProgressState) (es : List Event) → s.progress ≡ p → P es → Q s (saved s ∷ es))
      → ((e : Error) (es : List Event) → P es → E e es)
      → Triple P E Q (log_save X handlers store p expected at)
  Triple-save {P} {E} {Q} handlers store p expected at h k =
      Triple-bind {Q = λ s es. (s.progress ≡ p) × P es} _ _
        (Triple-on_host _ _ _ (save-IsBound X store p expected at) (λ s es (same, _) q. (same, q))
          (λ e es _ q. k e es q))
        λ s.
          Triple-bind {Q = λ _ es. Q s es} _ _
            (Triple-record_event (saved s) λ es (same, q). h s es same q)
            λ _. Triple-pure s λ es q. q

-- The claim of a candidate after free tasks.
module _ (bindings : CycleBindings) (policy : TaskPolicy) where
  claimed-IsClaim :
      (progress next : ReaderProgress) (item : PublishedMessage) (s : ProgressState)
      → IsFree bindings policy progress.tasks
      → is_candidate bindings.environment_id progress.tasks item ≡ true
      → replace_progress progress none (some (task_of item claimed none none)) none ≡ ok next
      → s.progress ≡ next
      → IsClaim bindings policy progress.tasks item s
  unfolding is_candidate
  claimed-IsClaim progress next item s free new replaced same =
      let (built, _) = replace_progress-IsWellFormed progress _ _ _ replaced in
      let unhandled : is_handled progress.tasks item.message.message_id ≡ false =
        ground (arith, new) in
      record {
        free = free;
        addressed = ground (arith, new, eq_iff item.message.recipient bindings.environment_id);
        requested = ground (arith, new);
        unhandled = unhandled;
        tasks =
            ap (λ p. p.tasks) (same ∙ built)
            ∙ replaced_tasks-unhandled (task_of item claimed none none) progress.tasks unhandled;
      }

module _ (X : External) (runner : GitRunner X) (bindings : CycleBindings) (policy : TaskPolicy)
    (handlers : Handlers X) (execution_id started_at : String) where
  -- What is decided to be called is the handler of the route.
  IsRouted : Message → Decision (CycleHandler X) → Type 0
  IsRouted m (decided _ _) = Unit
  IsRouted m (call name handler) =
      (handler_for policy m.purpose ≡ some name)
      × (is_stop m.kind ≡ false)
      × ((h : TaskHandler X) × (handler ≡ log_call X handlers name h))

  decided-IsRouted :
      (m : Message) (name : Option String) (r : Result TaskHandlerResult)
      {d : Decision (CycleHandler X)}
      → Result.◌>>=◌ r (λ answer. ok (decided name answer)) ≡ ok d
      → IsRouted m d
  unfolding IsRouted
  decided-IsRouted m name r {d} h =
      let (answer, _, same) = >>=-eq-ok r (λ answer. ok (decided name answer)) h in
      subst (IsRouted m) {x = decided name answer} {y = d} (cc same) tt

  log_call-IsRouted :
      (m : Message) (name : String) (o : Option (TaskHandler X)) {d : Decision (CycleHandler X)}
      → handler_for policy m.purpose ≡ some name
      → is_stop m.kind ≡ false
      → handlers name ≡ o
      → routed X runner bindings policy (logged X handlers) execution_id started_at (some name)
        ≡ ok d
      → IsRouted m d
  unfolding routed IsRouted
  log_call-IsRouted m name none {d} named started found h =
      decided-IsRouted m (some name) _ (rw found at h)
  log_call-IsRouted m name (some handler) {d} named started found h =
      let made = rw found at h in
      subst (IsRouted m) {x = call name (log_call X handlers name handler)} {y = d} (cc made)
        (named, started, (handler, refl))

  routed-IsRouted :
      (m : Message) (o : Option String) {d : Decision (CycleHandler X)}
      → handler_for policy m.purpose ≡ o
      → is_stop m.kind ≡ false
      → routed X runner bindings policy (logged X handlers) execution_id started_at o ≡ ok d
      → IsRouted m d
  unfolding routed
  routed-IsRouted m none named started h = decided-IsRouted m none _ h
  routed-IsRouted m (some name) named started h =
      log_call-IsRouted m name (handlers name) named started refl h

  kind-IsRouted :
      (m : Message) (k : MessageKind) {d : Decision (CycleHandler X)}
      → m.kind ≡ k
      → decide X runner bindings policy (logged X handlers) execution_id started_at m ≡ ok d
      → IsRouted m d
  unfolding decide
  kind-IsRouted m stop same h = decided-IsRouted m none _ (rw same at h)
  kind-IsRouted m task same h = routed-IsRouted m _ refl (ap is_stop same) (rw same at h)
  kind-IsRouted m reply same h = routed-IsRouted m _ refl (ap is_stop same) (rw same at h)

  decide-IsRouted :
      (m : Message) {d : Decision (CycleHandler X)}
      → decide X runner bindings policy (logged X handlers) execution_id started_at m ≡ ok d
      → IsRouted m d
  decide-IsRouted m h = kind-IsRouted m m.kind refl h

  -- What the try block leaves: a trace, and with a claim its stage.
  abbrev pub IsProgressed : Progressed → List Event → Type 0
  IsProgressed (returned _) es = IsTrace bindings policy es
  IsProgressed (prepared c) es =
      (b : Bool) × (before : List TaskProgress) × IsClaim bindings policy before c.selected
        c.claimed_state
      × Reaches bindings policy (held b before c.selected) es

  abbrev At : Stage → List Event → Type 0
  At stage es = Reaches bindings policy stage es

  abbrev Ends : Error → List Event → Type 0
  Ends _ es = IsTrace bindings policy es

  Triple-report_and_return :
      (P : List Event → Type 0) (s : CycleStatus)
      → ((es : List Event) → P es → IsTrace bindings policy es)
      → Triple P Ends IsProgressed
          (report_and_return X runner bindings policy (logged X handlers) execution_id started_at s)
  unfolding report_and_return
  Triple-report_and_return P s h =
      Triple-bind {Q = λ _ es. IsTrace bindings policy es} _ _
        (Triple-weaken _ (Triple-report X bindings {P = P} s) (λ _ p. p) (λ _ es p. h es p)
          λ _ es p. h es p)
        λ status. Triple-pure _ λ es p. p

  Triple-perform :
      (item : PublishedMessage) (d : Decision (CycleHandler X)) (before : List TaskProgress)
      → IsRouted item.message d
      → Triple
          (At (held false before item))
          Ends
          (λ _ es. (b : Bool) × At (held b before item) es)
          (perform X runner bindings policy
            (logged X handlers)
            execution_id
            started_at
            item.message
            d)
  unfolding perform IsRouted
  Triple-perform item (decided _ result) before routed = Triple-pure _ λ es r. (false, r)
  Triple-perform item (call name handler) before (named, started, (h, same)) =
      Triple-catch_if {F = λ _. At (held true before item)} _ is_exception _
        (subst
          (λ f.
            Triple (At (held false before item)) (λ _. At (held true before item))
              (λ _ es. (b : Bool) × At (held b before item) es) (f item.message))
          (sym same)
          (Triple-bind {Q = λ _. At (held true before item)} _ _
            (Triple-record_event _ λ es r. runs name named started r)
            λ _.
              Triple-weaken _ (Triple-same {P = At (held true before item)} (h item.message))
                (λ _ r. r) (λ _ es r. (true, r)) λ _ es r. r))
        (λ e.
          Triple-weaken _ (Triple-lift_same {P = At (held true before item)} _) (λ _ r. r)
            (λ _ es r. (true, r)) λ _ es r. (held true before item, r))
        λ e es r. (held true before item, r)

  Triple-report_idle :
      (store : ProgressStore) (progress : ReaderProgress) (current kept : Option ProgressState)
      → IsFree bindings policy progress.tasks
      → Triple (At (fresh progress.tasks)) Ends IsProgressed (
          report_idle X runner bindings policy
            (logged X handlers)
            execution_id
            started_at
            store
            progress
            current
            kept)
  unfolding report_idle
  Triple-report_idle store progress current (some s) free =
      Triple-report_and_return (At (fresh progress.tasks)) _ λ es r. (fresh progress.tasks, r)
  Triple-report_idle store progress current none free =
      Triple-bind {Q = λ s. At refreshed} _ _
        (Triple-save X bindings handlers store progress current started_at
          (λ s es same r.
            refresh s (subst (λ p. IsFree bindings policy p.tasks) (sym same) free)
              (subst (λ p. At (fresh p.tasks) es) (sym same) r))
          λ e es r. (fresh progress.tasks, r))
        λ s. Triple-report_and_return (At refreshed) _ λ es r. (refreshed, r)

  Triple-claim_task :
      (store : ProgressStore) (progress : ReaderProgress) (current : Option ProgressState)
      (item : PublishedMessage)
      → IsFree bindings policy progress.tasks
      → is_candidate bindings.environment_id progress.tasks item ≡ true
      → Triple (At (fresh progress.tasks)) Ends IsProgressed (
          claim_task X runner bindings policy
            (logged X handlers)
            execution_id
            started_at
            store
            progress
            current
            item)
  unfolding claim_task
  Triple-claim_task store progress current item free new =
      Triple-lift_bind _ _ (λ _ es r. (fresh progress.tasks, r))
        λ decision decides.
          Triple-lift_bind _ _ (λ _ es r. (fresh progress.tasks, r))
            λ one made.
              Triple-lift_bind _ _ (λ _ es r. (fresh progress.tasks, r))
                λ next replaced.
                  let put =
                    ap (λ t. replace_progress progress none (some t) none)
                      (sym (task_progress-eq-ok _ _ _ _ _ _ made))
                    ∙ replaced in
                  Triple-bind
                    {Q = λ s es.
                      IsClaim bindings policy progress.tasks item s
                      × At (held false progress.tasks item) es}
                    _ _
                    (Triple-save X bindings handlers store next current started_at
                      (λ s es same r.
                        let claim =
                          claimed-IsClaim bindings policy progress next item s free new put same in
                        (claim, claims s claim r))
                      λ _ es r. (fresh progress.tasks, r))
                    λ s. Triple-given _ _ λ claim.
                      Triple-bind {Q = λ _ es. (b : Bool) × At (held b progress.tasks item) es} _ _
                        (Triple-perform item decision progress.tasks
                          (decide-IsRouted item.message decides))
                        λ result. Triple-pure _ λ es (b, r). (b, progress.tasks, claim, r)

  Triple-on_selected :
      (store : ProgressStore) (progress : ReaderProgress) (current : Option ProgressState)
      (selected : Option PublishedMessage)
      → IsFree bindings policy progress.tasks
      → ((item : PublishedMessage)
          → selected ≡ some item
          → is_candidate bindings.environment_id progress.tasks item ≡ true)
      → Triple (At (fresh progress.tasks)) Ends IsProgressed (
          on_selected X runner bindings policy
            (logged X handlers)
            execution_id
            started_at
            store
            progress
            current
            selected)
  unfolding on_selected
  Triple-on_selected store progress current none free new =
      Triple-report_idle store progress current (unchanged progress current) free
  Triple-on_selected store progress current (some item) free new =
      Triple-claim_task store progress current item free (new item refl)

  Triple-read_and_select :
      (store : ProgressStore) (progress : ReaderProgress) (current : Option ProgressState)
      → IsFree bindings policy progress.tasks
      → Triple (At (fresh progress.tasks)) Ends IsProgressed (
          read_and_select X runner bindings policy
            (logged X handlers)
            execution_id
            started_at
            store
            progress
            current)
  unfolding read_and_select replaced_tasks
  Triple-read_and_select store progress current free =
      Triple-on_host_bind _ _
        (read_sources-AreCandidates X runner bindings.local_checkout bindings.environment_id
          progress.tasks bindings.sources)
        (λ _ es r. (fresh progress.tasks, r))
        λ (cursors, candidates) read.
          Triple-lift_bind _ _ (λ _ es r. (fresh progress.tasks, r))
            λ updated replaced.
              Triple-lift_bind _ _ (λ _ es r. (fresh progress.tasks, r))
                λ selected chosen.
                  let kept : progress.tasks ≡ updated.tasks =
                    ap (λ p. p.tasks)
                      (sym (replace_progress-IsWellFormed progress _ _ _ replaced).0) in
                  Triple-weaken {P = At (fresh updated.tasks)} _
                    (Triple-on_selected store updated current selected
                      (subst (IsFree bindings policy) kept free)
                      λ item same.
                        let earliest =
                          select_earliest-IsEarliest candidates (chosen ∙ ap ok same) in
                        subst (λ ts. is_candidate bindings.environment_id ts item ≡ true) kept
                          (All-Mem _ item candidates read earliest.candidate))
                    (λ es r. subst (λ ts. At (fresh ts) es) kept r) (λ _ es r. r) λ _ es r. r

  Triple-unless_halted :
      (store : ProgressStore) (progress : ReaderProgress) (current : Option ProgressState)
      (halts : List TaskProgress)
      → barriers progress.tasks ≡ halts
      → Triple (At (fresh progress.tasks)) Ends IsProgressed (
          unless_halted X runner bindings policy
            (logged X handlers)
            execution_id
            started_at
            store
            progress
            current
            halts)
  unfolding unless_halted
  Triple-unless_halted store progress current (b ∷ bs) same =
      Triple-report_and_return (At (fresh progress.tasks)) _ λ es r. (fresh progress.tasks, r)
  Triple-unless_halted store progress current [] same =
      Triple-if _ _ _
        (λ _.
          Triple-report_and_return (At (fresh progress.tasks)) _ λ es r. (fresh progress.tasks, r))
        λ more.
          Triple-read_and_select store progress current
            (record { no_barrier = same; not_exhausted = more })

  starting_progress-tasks :
      (current : Option ProgressState) {p : ReaderProgress}
      → starting_progress bindings current ≡ ok p
      → tasks_in current ≡ p.tasks
  unfolding starting_progress reader_progress
  starting_progress-tasks none h = grind arith
  starting_progress-tasks (some current) h = ground (arith, h)

  -- The try block, with its handler.
  pub Triple-claimed :
      (store : ProgressStore)
      → Triple (At unread) Ends IsProgressed (
          catch
            (claim_phase X runner bindings policy (logged X handlers) execution_id started_at store)
            (on_cycle_error X runner bindings policy (logged X handlers) execution_id started_at))
  unfolding claim_phase on_cycle_error
  Triple-claimed store =
      Triple-catch {F = Ends} _ _
        (Triple-bind {Q = λ current. At (fresh (tasks_in current))} _ _
          (Triple-on_host_bind _ _ (Spec-any _) (λ _ es r. (unread, r))
            λ current _.
              Triple-bind {Q = λ _. At (fresh (tasks_in current))} _ _
                (Triple-record_event (loaded current) λ es r. loads current r)
                λ _. Triple-pure current λ es r. r)
          λ current.
            Triple-lift_bind _ _ (λ _ es r. (fresh (tasks_in current), r))
              λ progress starts.
                Triple-weaken {P = At (fresh progress.tasks)} _
                  (Triple-guard _ _ _ (λ es r. (fresh progress.tasks, r))
                    λ _. Triple-unless_halted store progress current (barriers progress.tasks) refl)
                  (λ es r.
                    subst (λ ts. At (fresh ts) es) (starting_progress-tasks current starts) r)
                  (λ _ es r. r) λ _ es r. r)
        taken λ e es _ r. r
    where
      reported :
          (s : CycleStatus) (n : Exec (Cycle X) Progressed)
          → some (
              report_and_return X runner bindings policy
                (logged X handlers)
                execution_id
                started_at
                s)
            ≡ some n
          → Triple (IsTrace bindings policy) Ends IsProgressed n
      reported s n same =
          subst (Triple (IsTrace bindings policy) Ends IsProgressed)
            {x = report_and_return X runner bindings policy (logged X handlers) execution_id
              started_at s}
            (cc same) (Triple-report_and_return (IsTrace bindings policy) s λ es r. r)

      taken :
          (e : Error) (n : Exec (Cycle X) Progressed)
          → on_cycle_error X runner bindings policy (logged X handlers) execution_id started_at e
            ≡ some n
          → Triple (Ends e) Ends IsProgressed n
      taken (cycle_error code _) n same =
          reported (plain_status execution_id code "unresolved") n same
      taken (message_error code _) n same =
          reported (plain_status execution_id code "unresolved") n same
      taken _ n same = absurd (cc same)
