-- ===== src/WorkCycle/Reconcile/Laws.antt =====
-- What the progress is before and after a reconciliation.
use peoplebot_releases.Base.{
  String, ◌≡◌, sym, ap, ◌∙◌, refl, true, false, not, none, some, List, [], ◌∷◌, ◌++◌, All, keep,
  length, eqb, arith, ◌==◌, eq_iff,
}
use mathlib.Core.Path.{subst}
use peoplebot_releases.Base.Result.{ok}
use peoplebot_releases.Base.Exec.{Exec}
use peoplebot_releases.State.{same_state}
use peoplebot_releases.Host.{External, Host}
use peoplebot_releases.WorkCycle.Progress.{
  failed, TaskProgress, ReaderReconciliation, ReaderProgress,
}
use peoplebot_releases.WorkCycle.Progress.Parse.Laws.{IsWellFormed}
use peoplebot_releases.WorkCycle.Update.{
  is_barrier, barriers, replaced_tasks, replace_progress, equal_lists, same_task,
  same_reconciliation_value,
}
use peoplebot_releases.WorkCycle.Update.Laws.{replace_progress-IsWellFormed, task_progress-eq-ok}
use peoplebot_releases.WorkCycle.Store.{ProgressState}
use peoplebot_releases.WorkCycle.Bindings.{CycleBindings}
use peoplebot_releases.WorkCycle.Reconcile.{failed_task, first_task, is_same_task, existing_in}

-- The barriers are all of the message.
abbrev BarriersOf : String → List TaskProgress → Type 0
BarriersOf m ts = All (λ b. b.message_id ≡ m) (barriers ts)

barriers-append :
    (ts : List TaskProgress) (t : TaskProgress)
    → is_barrier t ≡ false
    → barriers (ts ++ t ∷ []) ≡ barriers ts
unfolding barriers
barriers-append [] t h = ground (arith, h)
barriers-append (u ∷ ts) t h = ground (arith, barriers-append ts t h)

barriers-keep :
    (m : String) (ts : List TaskProgress)
    → BarriersOf m ts
    → barriers (keep (λ t. not (t.message_id == m)) ts) ≡ []
unfolding barriers
barriers-keep m [] h = refl
barriers-keep m (t ∷ ts) h = grind (arith, eq_iff t.message_id m, barriers-keep m ts)

barriers_of :
    (t : TaskProgress) (bs : List TaskProgress)
    → equal_lists same_task bs (t ∷ []) ≡ true
    → All (λ b. b.message_id ≡ t.message_id) bs
unfolding equal_lists same_task
barriers_of t [] h = tt
barriers_of t (b ∷ []) h = (ground (arith, h, eq_iff b.message_id t.message_id), tt)
barriers_of t (b ∷ c ∷ bs) h = absurd (ground (arith, h))

-- The only barrier is replaced by a task that is none.
barriers-replaced_tasks :
    (t u : TaskProgress) (ts : List TaskProgress)
    → equal_lists same_task (barriers ts) (t ∷ []) ≡ true
    → u.message_id ≡ t.message_id
    → is_barrier u ≡ false
    → barriers (replaced_tasks ts (some u)) ≡ []
unfolding replaced_tasks
barriers-replaced_tasks t u ts h same k =
    barriers-append (keep (λ v. not (v.message_id == u.message_id)) ts) u k
    ∙ rw same (barriers-keep t.message_id ts (barriers_of t (barriers ts) h))

-- The task of the reconciliation, as failed.
abbrev pub closed_task : TaskProgress → TaskProgress
closed_task t = record t { disposition = failed }

pub failed_task-eq-ok :
    (t : TaskProgress) {u : TaskProgress} → failed_task t ≡ ok u → u ≡ closed_task t
unfolding failed_task
failed_task-eq-ok t h = task_progress-eq-ok _ _ _ _ _ _ h

module _ (r : ReaderReconciliation) where
  -- The progress that was reviewed: its State is the prior one, the unresolved task is its only
  -- barrier, and the identity is new.
  pub record IsReviewed (current : ProgressState) : Type 0 where
    pub same_prior : same_state current.state r.prior_progress_state ≡ true
    pub only_barrier :
        equal_lists same_task (barriers current.progress.tasks) (r.prior_task ∷ []) ≡ true
    pub new_identity : eqb (length (existing_in r current.progress)) 0 ≡ true

  -- The progress after it: the task is failed, the reconciliation is the last one, and no task is a
  -- barrier.
  pub record IsClosed (current saved : ProgressState) : Type 0 where
    pub tasks :
        saved.progress.tasks
        ≡ replaced_tasks current.progress.tasks (some (closed_task r.prior_task))
    pub no_barrier : barriers saved.progress.tasks ≡ []
    pub reconciliations :
        saved.progress.reconciliations ≡ current.progress.reconciliations ++ r ∷ []
    pub well_formed : IsWellFormed saved.progress

  -- The progress that has it already.
  pub record IsApplied (current : ProgressState) : Type 0 where
    pub same_identity :
        (one : ReaderReconciliation) × (existing_in r current.progress ≡ one ∷ [])
        × (same_reconciliation_value one r ≡ true)
    pub is_failed :
        is_same_task
          (first_task r.prior_task.message_id current.progress.tasks)
          (closed_task r.prior_task)
        ≡ true

module _ (X : External) (bindings : CycleBindings) (r : ReaderReconciliation)
    (execution_id : String) (evidence_check : Exec (Host X) (Unit {0})) where
  pub applied-IsClosed :
      (current saved : ProgressState) {updated : ReaderProgress}
      → IsReviewed r current
      → replace_progress current.progress none (some (closed_task r.prior_task)) (some r)
        ≡ ok updated
      → saved.progress ≡ updated
      → IsClosed r current saved
  applied-IsClosed current saved reviewed replaced same =
      let (built, formed) = replace_progress-IsWellFormed current.progress _ _ _ replaced in
      let tasks = ap (λ p. p.tasks) (same ∙ built) in
      record {
        tasks = tasks;
        no_barrier =
            ap barriers tasks
            ∙ barriers-replaced_tasks r.prior_task (closed_task r.prior_task) current.progress.tasks
                reviewed.only_barrier refl refl;
        reconciliations = ap (λ p. p.reconciliations) (same ∙ built);
        well_formed = subst IsWellFormed (sym same) formed;
      }
