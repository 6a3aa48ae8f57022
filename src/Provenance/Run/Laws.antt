-- ===== src/Provenance/Run/Laws.antt =====
-- What the result of an admitted run says, and that its task waits for the evidence of its start.
use peoplebot_releases.Base.{
  String, ◌≡◌, ◌⊎◌, inl, inr, sym, refl, true, Option, none, some, List, arith,
}
use mathlib.Core.Path.{subst}
use peoplebot_releases.Base.Result.{Error, Result, ok, err, is_exception, unresolved_ownership}
use peoplebot_releases.Base.Exec.{Exec, pure, lift, catch, ◌>>=◌}
use peoplebot_releases.Base.Exec.Spec.{
  Spec, Post, Spec-pure, Spec-raise, Spec-bind, Spec-guard, Spec-any, Spec-catch_if,
}
use peoplebot_releases.Admission.Identity.{Bytes}
use peoplebot_releases.Admission.{ExecutionAdmission, holder, resource_path}
use peoplebot_releases.Admission.Runs.{CanLock, entered, granted_attempt}
use peoplebot_releases.Execution.{ExecutionRecord, TerminalOutcome}
use peoplebot_releases.Host.{World}
use peoplebot_releases.Provenance.Attempt.{
  ExecutionStart, ExecutionAttemptRecord, PersistedEvidence, attempt_record, admitted_start,
  validate_terminal_binding,
}
use peoplebot_releases.Provenance.Attempt.Laws.{start_of, validate_terminal_binding_iff}
use peoplebot_releases.Provenance.Run.{
  EvidenceStore, Observed, ProvenanceRunResult, only_attempt, with_record, without_record,
  try_exception, is_failed, checked_failure, after_task, ended, conclude_record, bound_record,
  after_evidence, after_start, observe_attempt, concluded, rejection, admitted, under_attempt,
  result_of, run_with_execution_provenance,
}

module _ {S A : Type 0} {Q : A → Type 0} where
  Spec-try_exception :
      (m : Exec S A)
      → Spec (λ _. Unit) Q m
      → Spec (λ _. Unit) (Post (λ _. Unit) Q) (try_exception m)
  unfolding try_exception
  Spec-try_exception m h =
      Spec-catch_if {P = λ _. Unit} _ is_exception _ (Spec-bind _ _ h λ a q. Spec-pure _ q)
        (λ e _. Spec-pure _ tt) λ _ _. tt

try_exception-raises :
    {S A : Type 0} (m : Exec S A) (s s' : S) (e : Error)
    → m s ≡ (err e, s')
    → is_exception e ≡ true
    → try_exception m s ≡ (ok (err e), s')
unfolding try_exception catch ◌>>=◌ pure
try_exception-raises m s s' e raises taken = ground (arith, raises, taken)

-- How the locals may stand after the try block.
pub data IsObserved (start : ExecutionStart) : Observed → Type 0 where
  unstarted : (failure : TerminalOutcome) → IsObserved start (only_attempt none (some failure))
  unrecorded :
      (evidence : PersistedEvidence) (task_failure : Option TerminalOutcome)
      (failure : TerminalOutcome)
      → IsObserved start (without_record evidence task_failure failure)
  unpersisted :
      (evidence : PersistedEvidence) (r : ExecutionRecord) (task_failure : Option TerminalOutcome)
      (failure : TerminalOutcome)
      → start_of r ≡ start
      → (task_failure ≡ none) ⊎ (is_failed r.status ≡ true)
      → IsObserved start (with_record evidence r task_failure none (some failure))
  committed :
      (evidence terminal : PersistedEvidence) (r : ExecutionRecord)
      (task_failure : Option TerminalOutcome)
      → start_of r ≡ start
      → (task_failure ≡ none) ⊎ (is_failed r.status ≡ true)
      → IsObserved start (with_record evidence r task_failure (some terminal) none)

module _ {R : Type 0} (sha256 : Bytes → String) (runtime_root : String) (store : EvidenceStore R)
    (start : ExecutionStart) (task : Exec (World R) ExecutionRecord)
    (failure_record : Error → Exec (World R) ExecutionRecord)
    (artifacts : Option (ExecutionRecord → Exec (World R) (List (String × String)))) where
  -- A task that raised has a failed record.
  FailedIf : Option TerminalOutcome → ExecutionRecord → Type 0
  FailedIf task_failure r = (task_failure ≡ none) ⊎ (is_failed r.status ≡ true)

  Spec-checked_failure :
      (e : Error)
      → Spec
          (λ _. Unit)
          (λ r. is_failed r.status ≡ true)
          (checked_failure sha256 runtime_root store start task failure_record artifacts e)
  unfolding checked_failure
  Spec-checked_failure e =
      Spec-bind _ _ (Spec-any _) λ r _. Spec-guard _ _ _ tt λ h. Spec-pure _ (ground (arith, h))

  Spec-after_task :
      (ran : Result ExecutionRecord)
      → Spec
          (λ _. Unit)
          (λ (f, c). Post (λ _. Unit) (FailedIf f) c)
          (after_task sha256 runtime_root store start task failure_record artifacts ran)
  unfolding after_task FailedIf
  Spec-after_task (ok r) = Spec-pure _ (inl refl)
  Spec-after_task (err e) = Spec-bind _ _ (Spec-any _) λ f _.
      Spec-bind _ _ (Spec-try_exception _ (Spec-checked_failure e))
        λ r h. Spec-pure _ (failed_if f r h)
    where
      failed_if :
          (f : TerminalOutcome) (r : Result ExecutionRecord)
          → Post (λ _. Unit) (λ x. is_failed x.status ≡ true) r
          → Post (λ _. Unit) (λ x. (some f ≡ none) ⊎ (is_failed x.status ≡ true)) r
      failed_if f (ok r) h = inr h
      failed_if f (err e) h = tt

  abbrev IsSeen : Observed → Type 0
  IsSeen o = IsObserved start o

  Spec-ended :
      (evidence : PersistedEvidence) (r : ExecutionRecord) (f : Option TerminalOutcome)
      (t : Result PersistedEvidence)
      → start_of r ≡ start
      → FailedIf f r
      → Spec
          (λ _. Unit)
          IsSeen
          (ended sha256 runtime_root store start task failure_record artifacts evidence r f t)
  unfolding ended FailedIf
  Spec-ended evidence r f (ok terminal) same h =
      Spec-pure _ (committed evidence terminal r f same h)
  Spec-ended evidence r f (err e) same h =
      Spec-bind _ _ (Spec-any _) λ g _. Spec-pure _ (unpersisted evidence r f g same h)

  -- A candidate that is bound to the start.
  IsBoundTo : Option TerminalOutcome → ExecutionRecord → Type 0
  IsBoundTo f r = (start_of r ≡ start) × FailedIf f r

  bound_record-Post :
      (f : Option TerminalOutcome) (c : Result ExecutionRecord)
      → Post (λ _. Unit) (FailedIf f) c
      → Post
          (λ _. Unit)
          (IsBoundTo f)
          (bound_record sha256 runtime_root store start task failure_record artifacts c)
  unfolding bound_record IsBoundTo
  bound_record-Post f (err e) h = tt
  bound_record-Post f (ok r) h = of (validate_terminal_binding start r) refl
    where
      of :
          (v : Result (Unit {0}))
          → validate_terminal_binding start r ≡ v
          → Post
              (λ _. Unit)
              (λ x. (start_of x ≡ start) × FailedIf f x)
              (elim v as (λ _. Result ExecutionRecord) [ ok _ ↦ ok r | err e ↦ err e ])
      of (ok tt) same = ((validate_terminal_binding_iff start r).0 same, h)
      of (err e) same = tt

  Spec-conclude_record :
      (evidence : PersistedEvidence) (f : Option TerminalOutcome) (c : Result ExecutionRecord)
      → Post (λ _. Unit) (IsBoundTo f) c
      → Spec
          (λ _. Unit)
          IsSeen
          (conclude_record sha256 runtime_root store start task failure_record artifacts evidence f
            c)
  unfolding conclude_record IsBoundTo
  Spec-conclude_record evidence f (ok r) (same, h) =
      Spec-bind _ _ (Spec-any _) λ terminal _. Spec-ended evidence r f terminal same h
  Spec-conclude_record evidence f (err e) h =
      Spec-bind _ _ (Spec-any _) λ g _. Spec-pure _ (unrecorded evidence f g)

  Spec-after_start :
      (e : Result PersistedEvidence)
      → Spec
          (λ _. Unit)
          IsSeen
          (after_start sha256 runtime_root store start task failure_record artifacts e)
  unfolding after_start after_evidence
  Spec-after_start (ok evidence) = Spec-bind _ _ (Spec-any _) λ ran _.
      Spec-bind _ _ (Spec-after_task ran) λ (f, c) h.
        Spec-conclude_record evidence f
          (bound_record sha256 runtime_root store start task failure_record artifacts c)
          (bound_record-Post f c h)
  Spec-after_start (err e) = Spec-bind _ _ (Spec-any _) λ f _. Spec-pure _ (unstarted f)

  Spec-observe_attempt :
      (r : ExecutionAttemptRecord)
      → Spec
          (λ _. Unit)
          IsSeen
          (observe_attempt sha256 runtime_root store start task failure_record artifacts r)
  unfolding observe_attempt
  Spec-observe_attempt r = Spec-bind _ _ (Spec-any _) λ e _. Spec-after_start e

  -- The result of a rejected attempt, or of an admitted one.
  pub data IsRunResult : ProvenanceRunResult → Type 0 where
    turned_away :
        (code : String) (r : ExecutionAttemptRecord) (evidence : Option PersistedEvidence)
        (failure : Option TerminalOutcome)
        → IsRunResult (record {
          admission_code = code;
          attempt_record = r;
          observed = only_attempt evidence failure;
          release_failure = none;
          retained_admission = none;
        })
    ran :
        (code : String) (r : ExecutionAttemptRecord) (o : Observed) (f : Option TerminalOutcome)
        (kept : Option ExecutionAdmission)
        → IsObserved start o
        → IsRunResult (record {
          admission_code = code;
          attempt_record = r;
          observed = o;
          release_failure = f;
          retained_admission = kept;
        })

  Spec-concluded :
      (code : String) (r : ExecutionAttemptRecord) (admission : ExecutionAdmission)
      (o : Result Observed)
      → Post (λ _. Unit) IsSeen o
      → Spec
          (λ _. Unit)
          IsRunResult
          (concluded sha256 runtime_root store start task failure_record artifacts code r admission
            o)
  unfolding concluded result_of
  Spec-concluded code r admission (ok o) h =
      Spec-bind _ _ (Spec-any _) λ (f, kept) _. Spec-pure _ (ran code r o f kept h)
  Spec-concluded code r admission (err (unresolved_ownership m)) h = Spec-raise _ tt
  Spec-concluded code r admission (err e) h = Spec-bind _ _ (Spec-any _) λ _ _. Spec-raise _ tt

  Spec-admitted :
      (code : String) (r : ExecutionAttemptRecord) (admission : ExecutionAdmission)
      → Spec
          (λ _. Unit)
          IsRunResult
          (admitted sha256 runtime_root store start task failure_record artifacts code r admission)
  unfolding admitted
  Spec-admitted code r admission = record {
    at = λ w.
        let (o, w') =
          observe_attempt sha256 runtime_root store start task failure_record artifacts r w in
        (Spec-concluded code r admission o ((Spec-observe_attempt r).at w)).at w';
  }

  Spec-rejection :
      (e : Result PersistedEvidence)
      → Spec
          (λ _. Unit)
          (λ o.
            (p : Option PersistedEvidence) × (f : Option TerminalOutcome) × (o ≡ only_attempt p f))
          (rejection sha256 runtime_root store start task failure_record artifacts e)
  unfolding rejection
  Spec-rejection (ok evidence) = Spec-pure _ (some evidence, none, refl)
  Spec-rejection (err e) = Spec-bind _ _ (Spec-any _) λ f _. Spec-pure _ (none, some f, refl)

  Spec-under_attempt :
      (code : String) (r : ExecutionAttemptRecord) (a : Option ExecutionAdmission)
      → Spec
          (λ _. Unit)
          IsRunResult
          (under_attempt sha256 runtime_root store start task failure_record artifacts code r a)
  unfolding under_attempt result_of
  Spec-under_attempt code r (some admission) = Spec-admitted code r admission
  Spec-under_attempt code r none = Spec-bind _ _ (Spec-any _) λ e _.
      Spec-bind _ _ (Spec-rejection e) λ o (p, f, same). Spec-pure _ (
        subst
          (λ x. IsRunResult (record {
            admission_code = code;
            attempt_record = r;
            observed = x;
            release_failure = none;
            retained_admission = none;
          }))
          (sym same) (turned_away code r p f))

  -- Whatever the store, the task, the locks and the callbacks do, a run that returns reports one of
  -- these: the attempt was rejected and no task started; or the evidence of the start failed and no
  -- task started; or the task started after that evidence and has no record, for a stated reason; or
  -- it has a record of the very inputs of the start, failed if the task raised, and either its
  -- terminal evidence or the reason why there is none.
  pub run_with_execution_provenance-IsRunResult :
      Spec
        (λ _. Unit)
        IsRunResult
        (run_with_execution_provenance sha256 runtime_root store start task failure_record
          artifacts)
  unfolding run_with_execution_provenance
  run_with_execution_provenance-IsRunResult = Spec-bind _ _ (Spec-any _) λ attempt _.
      Spec-bind _ _ (Spec-any _) λ r _. Spec-under_attempt attempt.code r attempt.admission

module _ {R : Type 0} (sha256 : Bytes → String) (root : String) (store : EvidenceStore R)
    (start : ExecutionStart) (task other : Exec (World R) ExecutionRecord)
    (failure_record : Error → Exec (World R) ExecutionRecord)
    (artifacts : Option (ExecutionRecord → Exec (World R) (List (String × String)))) where
  abbrev run_of : Exec (World R) ExecutionRecord → World R → Result ProvenanceRunResult × World R
  run_of t = run_with_execution_provenance sha256 root store start t failure_record artifacts

  -- Where the Instance is free and the store raises an Exception for the evidence of the start, the
  -- run is the same whatever the task: the task is not run.
  pub run_with_execution_provenance-unstarted :
      (w w' : World R) (r : ExecutionAttemptRecord) (e : Error)
      → CanLock sha256 root start.environment_id start.instance_id start.execution_id w
      → holder (resource_path sha256 root start.environment_id start.instance_id) w.os.held ≡ none
      → attempt_record start admitted_start "admission.acquired" ≡ ok r
      → store.persist_start r
          (entered sha256 root start.environment_id start.instance_id start.execution_id w)
        ≡ (err e, w')
      → is_exception e ≡ true
      → run_of task w ≡ run_of other w
  unfolding run_with_execution_provenance under_attempt admitted observe_attempt after_start ◌>>=◌
      lift
  run_with_execution_provenance-unstarted w w' r e can free made raises taken = rw (
    granted_attempt sha256 root start.environment_id start.instance_id start.execution_id w can
        free,
    made,
    try_exception-raises (store.persist_start r) _ w' e raises taken,
  )
