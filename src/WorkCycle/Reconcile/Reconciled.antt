-- ===== src/WorkCycle/Reconcile/Reconciled.antt =====
-- What `reconcile_reader_task` did with the progress in Git, where it returned.
use mathlib.Core.Path.{subst}
use peoplebot_releases.Base.{
  String, ◌≡◌, sym, ap, ◌∙◌, refl, Bool, true, false, not, ◌||◌, Option, none, some, List, [], ◌∷◌,
  length, eqb, arith, ◌==◌, Bool-cases, inl, inr, if◌then◌else◌,
}
use peoplebot_releases.Base.Result.{Result, ok, err}
use peoplebot_releases.Base.Exec.{Exec, raise, gets, lift, pure, ◌>>=◌}
use peoplebot_releases.Base.Exec.Spec.{Spec-any}
use peoplebot_releases.Base.Exec.Runs.{
  Effect, Effect-of, Effect-run, pure-run, bind-run, lift-run, guard-run,
}
use peoplebot_releases.State.{same_state}
use peoplebot_releases.Admission.{
  AdmissionAttempt, ExecutionAdmission, try_acquire_execution, release_local,
}
use peoplebot_releases.Admission.Frame.{
  Keeps, Keeps-run, Keeps-try_acquire_execution, Keeps-release_local,
}
use peoplebot_releases.Host.{External, Host}
use peoplebot_releases.WorkCycle.Progress.{ReaderReconciliation}
use peoplebot_releases.WorkCycle.Update.{
  barriers, replace_progress, equal_lists, same_task, same_reconciliation_value,
}
use peoplebot_releases.WorkCycle.Store.{ProgressState, ProgressStore, progress_store, load, save}
use peoplebot_releases.WorkCycle.Store.Saved.{save-IsSaved}
use peoplebot_releases.WorkCycle.Bindings.{CycleBindings}
use peoplebot_releases.WorkCycle.Reconcile.{
  ReaderReconciliationResult, not_reconciled, reconciled_by, failed_task, first_task, is_same_task,
  existing_in, attempted, already_applied, apply, on_current, reconcile_owned, with_task_owner,
  with_attempt, release_optional, under_owner, reconcile_reader_task,
}
use peoplebot_releases.WorkCycle.Reconcile.Laws.{
  IsReviewed, IsClosed, IsApplied, failed_task-eq-ok, applied-IsClosed,
}

module _ (X : External) (bindings : CycleBindings) (r : ReaderReconciliation)
    (execution_id : String) (evidence_check : Exec (Host X) (Unit {0})) where
  -- The store of the bindings was made and its progress loaded, from the repository `before`.
  pub record IsLoadedAs (before : X.Repo) (store : ProgressStore) (current : ProgressState)
      (after : Host X) : Type 0 where
    pub start : Host X
    pub after_store : Host X
    pub same_start : start.repo ≡ before
    pub made :
        progress_store X bindings.local_checkout bindings.local_repository bindings.progress_ref
          start
        ≡ (ok store, after_store)
    pub read : load X store after_store ≡ (ok (some current), after)

  -- The evidence was checked, and then the progress `saved` was saved on `current`.
  pub record IsSavedAs (store : ProgressStore) (current saved : ProgressState) (w w' : Host X)
      : Type 0 where
    pub after_check : Host X
    pub checked : evidence_check w ≡ (ok tt, after_check)
    pub wrote :
        save X store saved.progress (some current) r.reconciled_at after_check ≡ (ok saved, w')

  -- From the repository `before` to the repository `after`.
  pub data IsReconciled (before after : X.Repo) : ReaderReconciliationResult → Type 0 where
    kept : (code : String) → after ≡ before → IsReconciled before after (not_reconciled code)
    again :
        (store : ProgressStore) (current : ProgressState) (w : Host X)
        → IsLoadedAs before store current w
        → IsApplied r current
        → after ≡ w.repo
        → IsReconciled before after (
            reconciled_by "cycle.reconciliation_already_applied" r.prior_progress_state
              current.state r)
    closed :
        (store : ProgressStore) (current saved : ProgressState) (w w' : Host X)
        → IsLoadedAs before store current w
        → IsReviewed r current
        → IsSavedAs store current saved w w'
        → IsClosed r current saved
        → after ≡ w'.repo
        → IsReconciled before after
            (reconciled_by "cycle.reconciled_terminal_failure" current.state saved.state r)

  already_applied-run :
      (before : X.Repo) (store : ProgressStore) (current : ProgressState)
      (found : List ReaderReconciliation) (w : Host X) {x : ReaderReconciliationResult}
      {w' : Host X}
      → IsLoadedAs before store current w
      → existing_in r current.progress ≡ found
      → already_applied X bindings r execution_id evidence_check current found w ≡ (ok x, w')
      → IsReconciled before w'.repo x
  unfolding already_applied raise
  already_applied-run before store current [] w loaded same h = absurd (cc h)
  already_applied-run before store current (one ∷ two ∷ more) w loaded same h = absurd (cc h)
  already_applied-run before store current (one ∷ []) w {x} {w'} loaded same h =
      let (equal, h) = guard-run (not (same_reconciliation_value one r)) _ _ w h in
      let (terminal, made, h) = lift-run (failed_task r.prior_task) _ w h in
      let (is, h) =
        guard-run
          (not (is_same_task (first_task r.prior_task.message_id current.progress.tasks) terminal))
          _ _ w h in
      let (result, same_world) = pure-run _ w h in
      subst (IsReconciled before w'.repo) {y = x} result (
        again store current w loaded
          (record {
            same_identity = (one, same, ground (arith, equal));
            is_failed =
                subst
                  (λ t.
                    is_same_task (first_task r.prior_task.message_id current.progress.tasks) t
                    ≡ true)
                  (failed_task-eq-ok r.prior_task made) (ground (arith, is));
          })
          (ap (λ v. v.repo) (sym same_world)))

  apply-run :
      (before : X.Repo) (store : ProgressStore) (current : ProgressState) (w : Host X)
      {x : ReaderReconciliationResult} {w' : Host X}
      → IsLoadedAs before store current w
      → eqb (length (existing_in r current.progress)) 0 ≡ true
      → apply X bindings r execution_id evidence_check store current w ≡ (ok x, w')
      → IsReconciled before w'.repo x
  unfolding apply
  apply-run before store current w {x} {w'} loaded new h =
      let (prior, h) = guard-run (not (same_state current.state r.prior_progress_state)) _ _ w h in
      let (barrier, h) =
        guard-run
          (not (equal_lists same_task (barriers current.progress.tasks) (r.prior_task ∷ []))) _ _ w
          h in
      let (_, w1, checked, h) = bind-run evidence_check _ w h in
      let (terminal, made, h) = lift-run (failed_task r.prior_task) _ w1 h in
      let (updated, replaced, h) =
        lift-run (replace_progress current.progress none (some terminal) (some r)) _ w1 h in
      let (saved, w2, wrote, h) = bind-run _ _ w1 h in
      let (result, same_world) = pure-run _ w2 h in
      let (same, _, _, _, _) =
        Effect-run (save X store updated (some current) r.reconciled_at) w1
          (save-IsSaved X store updated r.reconciled_at (some current)) wrote in
      let reviewed : IsReviewed r current = record {
        same_prior = ground (arith, prior);
        only_barrier = ground (arith, barrier);
        new_identity = new;
      } in
      subst (IsReconciled before w'.repo) {y = x} result (
        closed store current saved w w2 loaded reviewed
          (record {
            after_check = w1;
            checked = checked;
            wrote =
                subst (λ p. save X store p (some current) r.reconciled_at w1 ≡ (ok saved, w2))
                  (sym same) wrote;
          })
          (applied-IsClosed X bindings r execution_id evidence_check current saved reviewed
            (ap (λ t. replace_progress current.progress none (some t) (some r))
                (sym (failed_task-eq-ok r.prior_task made))
              ∙ replaced)
            same)
          (ap (λ v. v.repo) (sym same_world)))

  on_current-run :
      (before : X.Repo) (store : ProgressStore) (current : ProgressState) (w : Host X)
      {x : ReaderReconciliationResult} {w' : Host X}
      → IsLoadedAs before store current w
      → on_current X bindings r execution_id evidence_check store (some current) w ≡ (ok x, w')
      → IsReconciled before w'.repo x
  unfolding on_current
  on_current-run before store current w loaded h =
      elim (Bool-cases (eqb (length (existing_in r current.progress)) 0)) [
        | inl new ↦ apply-run before store current w loaded new (rw new at h)
        | inr old ↦
            already_applied-run before store current (existing_in r current.progress) w loaded refl
              (rw old at h)
      ]

  loaded-run :
      (before : X.Repo) (store : ProgressStore) (o : Option ProgressState) (start v w : Host X)
      {x : ReaderReconciliationResult} {w' : Host X}
      → start.repo ≡ before
      → progress_store X bindings.local_checkout bindings.local_repository bindings.progress_ref
          start
        ≡ (ok store, v)
      → load X store v ≡ (ok o, w)
      → on_current X bindings r execution_id evidence_check store o w ≡ (ok x, w')
      → IsReconciled before w'.repo x
  unfolding on_current raise
  loaded-run before store none start v w same made read h = absurd (cc h)
  loaded-run before store (some current) start v w same made read h =
      on_current-run before store current w
        (record { start = start; after_store = v; same_start = same; made = made; read = read }) h

  halted-run :
      (halted : Bool) (w : Host X) {x : ReaderReconciliationResult} {w' : Host X}
      → (if halted
            then pure (not_reconciled "cycle.reconciliation_stopped")
            else progress_store X bindings.local_checkout bindings.local_repository
                bindings.progress_ref
              >>= λ store. load X store >>= λ current.
                  on_current X bindings r execution_id evidence_check store current)
          w
        ≡ (ok x, w')
      → IsReconciled w.repo w'.repo x
  halted-run true w {x} {w'} h =
      let (result, same_world) = pure-run (not_reconciled "cycle.reconciliation_stopped") w h in
      subst (IsReconciled w.repo w'.repo) {y = x} result
        (kept _ (ap (λ v. v.repo) (sym same_world)))
  halted-run false w h =
      let (store, v, made, h) = bind-run _ _ w h in
      let (current, u, read, h) = bind-run _ _ v h in
      loaded-run w.repo store current w v u refl made read h

  reconcile_owned-run :
      (w : Host X) {x : ReaderReconciliationResult} {w' : Host X}
      → reconcile_owned X bindings r execution_id evidence_check w ≡ (ok x, w')
      → IsReconciled w.repo w'.repo x
  unfolding reconcile_owned gets
  reconcile_owned-run w {x} {w'} h =
      let (halted, v, looked, h) = bind-run _ _ w h in
      subst (λ b. IsReconciled b w'.repo x) (ap (λ u. u.repo) {x = v} {y = w} (cc looked))
        (halted-run halted v h)

  -- What the try block gives, from the repository `before` to the repository `after`.
  abbrev Gives : X.Repo → X.Repo → Result ReaderReconciliationResult → Type 0
  Gives before after (ok x) = IsReconciled before after x
  Gives before after (err e) = Unit

  attempted-Gives :
      (w : Host X) (y : Result ReaderReconciliationResult) (v : Host X)
      → reconcile_owned X bindings r execution_id evidence_check w ≡ (y, v)
      → Gives w.repo v.repo y
  attempted-Gives w (ok x) v ran = reconcile_owned-run w ran
  attempted-Gives w (err e) v ran = tt

  with_task_owner-run :
      (a : Option ExecutionAdmission) (w : Host X)
      {o : Option ExecutionAdmission × Result ReaderReconciliationResult} {v : Host X}
      → with_task_owner X bindings r execution_id evidence_check a w ≡ (ok o, v)
      → Gives w.repo v.repo o.1
  unfolding with_task_owner attempted
  with_task_owner-run none w {o} {v} h =
      let (result, same_world) =
        pure-run (none, ok (not_reconciled "cycle.reconciliation_busy")) w h in
      subst (λ p. Gives w.repo v.repo p.1) {y = o} result
        (kept _ (ap (λ u. u.repo) (sym same_world)))
  with_task_owner-run (some admission) w {o} {v} h =
      let (y, u, ran, h) = bind-run _ _ w h in
      let (result, same_world) = pure-run (some admission, y) u h in
      subst (λ p. Gives w.repo v.repo p.1) {y = o} result
        (subst (λ t. Gives w.repo t.repo y) same_world (attempted-Gives w y u (cc ran)))

  with_attempt-run :
      (a : Result AdmissionAttempt) (w : Host X)
      {o : Option ExecutionAdmission × Result ReaderReconciliationResult} {v : Host X}
      → with_attempt X bindings r execution_id evidence_check a w ≡ (ok o, v)
      → Gives w.repo v.repo o.1
  unfolding with_attempt
  with_attempt-run (err e) w {o} {v} h =
      let (result, _) = pure-run (none, err e) w h in
      subst (λ p. Gives w.repo v.repo p.1) {y = o} result tt
  with_attempt-run (ok a) w h = with_task_owner-run a.admission w h

  Keeps-release_optional :
      (a : Option ExecutionAdmission)
      → Keeps (release_optional X bindings r execution_id evidence_check a)
  unfolding release_optional pure
  Keeps-release_optional none = record { at = λ w. refl }
  Keeps-release_optional (some admission) = Keeps-release_local admission

  given :
      (before after : X.Repo) (y : Result ReaderReconciliationResult) (w : Host X)
      {x : ReaderReconciliationResult} {w' : Host X}
      → Gives before after y
      → w.repo ≡ after
      → lift y w ≡ (ok x, w')
      → IsReconciled before w'.repo x
  unfolding lift
  given before after (err e) w gives same h = absurd (cc h)
  given before after (ok z) w {x} {w'} gives same h =
      subst (λ t. IsReconciled before t x) (sym same ∙ ap (λ u. u.repo) {x = w} {y = w'} (cc h))
        (subst (IsReconciled before after) {x = z} {y = x} (cc h) gives)

  under_owner-run :
      (o : Option ExecutionAdmission) (w : Host X) {x : ReaderReconciliationResult} {w' : Host X}
      → under_owner X bindings r execution_id evidence_check o w ≡ (ok x, w')
      → IsReconciled w.repo w'.repo x
  unfolding under_owner attempted
  under_owner-run none w {x} {w'} h =
      let (result, same_world) = pure-run (not_reconciled "cycle.reconciliation_busy") w h in
      subst (IsReconciled w.repo w'.repo) {y = x} result
        (kept _ (ap (λ v. v.repo) (sym same_world)))
  under_owner-run (some owner) w {x} {w'} h =
      let (attempt, w1, tried, h) = bind-run _ _ w h in
      let ((task_owner, y), w2, gave, h) = bind-run _ _ w1 h in
      let (_, w4, both, h) = bind-run _ _ w2 h in
      let (_, w3, released, left) = bind-run _ _ w2 both in
      let acquired : w1.repo ≡ w.repo =
        Keeps-run
          (try_acquire_execution X.sha256 bindings.runtime_root bindings.environment_id
            bindings.instance_id execution_id)
          w {a = attempt} {w' = w1}
          (Keeps-try_acquire_execution X.sha256 bindings.runtime_root bindings.environment_id
            bindings.instance_id execution_id)
          (cc tried) in
      let end : w4.repo ≡ w2.repo =
        Keeps-run (release_local owner) w3 (Keeps-release_local owner) left
        ∙ Keeps-run (release_optional X bindings r execution_id evidence_check task_owner) w2
            (Keeps-release_optional task_owner) released in
      subst (λ b. IsReconciled b w'.repo x) acquired
        (given w1.repo w2.repo y w4 (with_attempt-run attempt w1 gave) end h)

  reconcile_reader_task-run :
      (w : Host X) (x : ReaderReconciliationResult) (w' : Host X)
      → reconcile_reader_task X bindings r execution_id evidence_check w ≡ (ok x, w')
      → IsReconciled w.repo w'.repo x
  unfolding reconcile_reader_task
  reconcile_reader_task-run w x w' h =
      let (_, _, h) = lift-run _ _ w h in
      let (_, h) =
        guard-run
          (not (r.prior_progress_state.repository == bindings.local_repository)
            || not (r.prior_task.message_state.repository == bindings.local_repository))
          _ _ w h in
      let (attempt, w1, tried, h) = bind-run _ _ w h in
      subst (λ b. IsReconciled b w'.repo x)
        (Keeps-run _ w {a = ok attempt} (Keeps-try_acquire_execution X.sha256 _ _ _ _) tried)
        (under_owner-run attempt.admission w1 h)

  -- Where `reconcile_reader_task` returns, one of three has happened. It says that nothing is
  -- reconciled, and the repository is as it was. Or it has loaded the progress of the bindings from
  -- that repository and found the same reconciliation in it, with its task failed, and nothing was
  -- done to the repository since. Or it has loaded that progress, whose State is the reviewed one and
  -- whose only barrier is the reviewed task, has then checked the evidence, and has saved the progress
  -- on the loaded one with that task failed, the reconciliation added and no barrier left, and nothing
  -- was done to the repository since.
  pub reconcile_reader_task-IsReconciled :
      Effect
        (λ _. Unit)
        (λ w w'. IsReconciled w.repo w'.repo)
        (reconcile_reader_task X bindings r execution_id evidence_check)
  reconcile_reader_task-IsReconciled =
      Effect-of (reconcile_reader_task X bindings r execution_id evidence_check) (Spec-any _)
        reconcile_reader_task-run
