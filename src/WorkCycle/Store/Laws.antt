-- ===== src/WorkCycle/Store/Laws.antt =====
-- What ReaderProgressStore returns and raises, whatever Git answers.
use peoplebot_releases.Base.{String, ◌≡◌, refl, true, Option, none, some, eqb}
use peoplebot_releases.Base.Result
use peoplebot_releases.Base.Result.{
  Error, Result, ok, err, value_error, type_error, cycle_error, provenance_error, resolution_error,
  os_error, raised,
}
use peoplebot_releases.Base.Exec.{pure, translate}
use peoplebot_releases.Base.Exec.Spec.{
  Spec, Post, Anything, Spec-pure, Spec-lift, Spec-bind, Spec-guard, Spec-if, Spec-rethrow,
}
use peoplebot_releases.State.Failures.{is_value_error, state_ref-raises}
use peoplebot_releases.State.Resolve.{Completed}
use peoplebot_releases.State.Resolve.Laws.{IsResolutionFailure, resolve_state-Resolves}
use peoplebot_releases.Execution.Timestamp.Failures.{utc_timestamp-raises}
use peoplebot_releases.Host.{External, Loaded, loaded, not_json, refused, too_deep}
use peoplebot_releases.Provenance.Plumbing.Laws.{
  Spec-git, Spec-write_blob, Spec-write_single, Spec-write_commit,
}
use peoplebot_releases.Provenance.Refs.Laws.{Allows, Spec-update_ref}
use peoplebot_releases.WorkCycle.Progress.{ReaderProgress}
use peoplebot_releases.WorkCycle.Progress.Parse.{progress_from}
use peoplebot_releases.WorkCycle.Progress.Parse.Laws.{
  IsWellFormed, is_parse_error, progress_from-IsWellFormed, progress_from-raises,
}
use peoplebot_releases.WorkCycle.Store.{
  ProgressState, ProgressStore, progress_state, check_progress_state, cycle_of_resolution,
  cycle_of_provenance, cycle_of_value, parse_progress, progress_errors, valid_progress_tip,
  current_progress, load_commit, load, write_progress, save,
}

-- CycleError; ProvenanceError, ValueError, TypeError, OSError, and RecursionError of json.loads, which
-- the store lets through.
abbrev pub IsProgressFailure : Error → Type 0
IsProgressFailure (cycle_error _ _) = Unit
IsProgressFailure (provenance_error _ _) = Unit
IsProgressFailure (value_error _) = Unit
IsProgressFailure (type_error _) = Unit
IsProgressFailure os_error = Unit
IsProgressFailure (raised name) = name ≡ "builtins.RecursionError"
IsProgressFailure _ = ⊥

value_failure : (e : Error) → is_value_error e ≡ true → IsProgressFailure e
value_failure (value_error s) h = tt
value_failure _ h = absurd (cc h)

parse_failure : (e : Error) → is_parse_error e ≡ true → IsProgressFailure (cycle_of_value e)
parse_failure (value_error s) h = tt
parse_failure (type_error s) h = tt
parse_failure _ h = absurd (cc h)

resolution_failure : (e : Error) → IsResolutionFailure e → IsProgressFailure (cycle_of_resolution e)
resolution_failure (resolution_error c d) h = tt
resolution_failure os_error h = tt
resolution_failure _ h = absurd h

translated :
    (r : Result ReaderProgress)
    → ((p : ReaderProgress) → r ≡ ok p → IsWellFormed p)
    → ((e : Error) → r ≡ err e → is_parse_error e ≡ true)
    → Post IsProgressFailure IsWellFormed (translate cycle_of_value r)
translated (ok p) h k = h p refl
translated (err e) h k = parse_failure e (k e refl)

parse_progress-Post : (v : Loaded) → Post IsProgressFailure IsWellFormed (parse_progress v)
unfolding parse_progress
parse_progress-Post (loaded v) =
    translated (progress_from v) (λ p h. progress_from-IsWellFormed v h)
      (λ e h. progress_from-raises v h)
parse_progress-Post not_json = tt
parse_progress-Post refused = tt
parse_progress-Post too_deep = refl

checked-Post :
    {A : Type 0} (r : Result A)
    → ((e : Error) → r ≡ err e → is_value_error e ≡ true)
    → Post IsProgressFailure Anything r
checked-Post (ok s) h = tt
checked-Post (err e) h = value_failure e (h e refl)

forgotten :
    {A : Type 0} (r : Result A)
    → Post IsProgressFailure Anything r
    → Post IsProgressFailure Anything (Result.◌>>◌ r (ok tt))
forgotten (ok s) h = tt
forgotten (err e) h = h

check_progress_state-Post :
    (store : ProgressStore) (commit : String)
    → Post IsProgressFailure Anything (check_progress_state store commit)
unfolding check_progress_state
check_progress_state-Post store commit =
    forgotten _ (checked-Post _ λ e h. state_ref-raises _ _ _ h)

abbrev WriteFailure : Error → Type 0
WriteFailure (provenance_error _ _) = Unit
WriteFailure (value_error _) = Unit
WriteFailure os_error = Unit
WriteFailure _ = ⊥

write_failure : (e : Error) → WriteFailure e → IsProgressFailure (cycle_of_provenance e)
write_failure (provenance_error c d) h = tt
write_failure (value_error s) h = tt
write_failure os_error h = tt
write_failure _ h = absurd h

progress-Allows : Allows WriteFailure progress_errors
progress-Allows = record {
  conflict = tt;
  symbolic = tt;
  inspection = tt;
  persistence = tt;
  provenance = λ _ _. tt;
  value = λ _. tt;
  os = tt;
}

module _ (store : ProgressStore) where
  -- Bound to a commit of the store, on its reference.
  pub record IsBound (s : ProgressState) : Type 0 where
    pub state_bound : s.state ≡ progress_state store s.state.commit
    pub same_ref : s.ref_name ≡ store.ref_name

  abbrev pub IsLoaded : Option ProgressState → Type 0
  IsLoaded none = Unit
  IsLoaded (some s) = IsBound s × IsWellFormed s.progress

module _ (X : External) (store : ProgressStore) where
  Spec-valid_tip : (c : Completed) → Spec IsProgressFailure Anything (valid_progress_tip X c)
  unfolding valid_progress_tip
  Spec-valid_tip c = Spec-guard _ _ _ tt λ _. Spec-pure _ tt

  Spec-current : Spec IsProgressFailure Anything (current_progress X store)
  unfolding current_progress
  Spec-current = Spec-bind _ _ (Spec-git X (λ _ _. tt) tt store.plumbing _ _ _) λ symbolic _.
      Spec-guard _ _ _ tt λ _. Spec-guard _ _ _ tt λ _.
        Spec-bind _ _ (Spec-git X (λ _ _. tt) tt store.plumbing _ _ _) λ value _.
          Spec-if (eqb value.returncode 1) (pure none) (valid_progress_tip X value)
            (λ _. Spec-pure _ tt) λ _. Spec-valid_tip value

  Spec-load_commit :
      (c : Option String) → Spec IsProgressFailure (IsLoaded store) (load_commit X store c)
  unfolding load_commit
  Spec-load_commit none = Spec-pure _ tt
  Spec-load_commit (some commit) =
      Spec-bind _ _ (Spec-lift _ (check_progress_state-Post store commit)) λ _ _.
        Spec-bind _ _
          (Spec-rethrow cycle_of_resolution _ (resolve_state-Resolves X _ _) resolution_failure)
          λ resolved _. Spec-bind _ _ (Spec-git X (λ _ _. tt) tt store.plumbing _ _ _) λ tree _.
            Spec-guard _ _ _ tt λ _.
              Spec-bind _ _ (Spec-git X (λ _ _. tt) tt store.plumbing _ _ _) λ blob _.
                Spec-guard _ _ _ tt λ _.
                  Spec-bind _ _ (Spec-lift _ (parse_progress-Post _))
                    λ progress h. Spec-pure _ (record { state_bound = refl; same_ref = refl }, h)

  -- Whatever Git answers, `load` raises CycleError, ProvenanceError, ValueError, TypeError,
  -- OSError or RecursionError, or
  -- returns None or reader progress that is well-formed, bound to a commit of the store.
  pub load-IsLoaded : Spec IsProgressFailure (IsLoaded store) (load X store)
  unfolding load
  load-IsLoaded = Spec-bind _ _ Spec-current λ commit _. Spec-load_commit commit

  Spec-write_progress :
      (progress : ReaderProgress) (parent : Option String) (saved_at : String)
      → Spec WriteFailure Anything (write_progress X store progress parent saved_at)
  unfolding write_progress
  Spec-write_progress progress parent saved_at =
      Spec-bind _ _ (Spec-write_blob X (λ _ _. tt) tt store.plumbing _) λ blob _.
        Spec-bind _ _ (Spec-write_single X (λ _ _. tt) tt store.plumbing _ _ _) λ tree _.
          Spec-bind _ _ (Spec-write_commit X (λ _ _. tt) tt (λ _. tt) store.plumbing _ _ _ _)
            λ commit _.
              Spec-bind _ _ (Spec-update_ref X store.plumbing _ progress-Allows _ _ _)
                λ _ _. Spec-pure _ tt

  -- Whatever Git answers, `save` raises CycleError, ProvenanceError, ValueError, TypeError,
  -- OSError or RecursionError, or
  -- returns the progress that it was given, bound to a commit of the store.
  pub save-IsBound :
      (progress : ReaderProgress) (expected : Option ProgressState) (saved_at : String)
      → Spec IsProgressFailure
          (λ s. (s.progress ≡ progress) × IsBound store s)
          (save X store progress expected saved_at)
  unfolding save
  save-IsBound progress expected saved_at =
      Spec-bind _ _ (Spec-lift _ (checked-Post _ λ e h. utc_timestamp-raises _ _ h)) λ _ _.
        Spec-guard _ _ _ tt λ _.
          Spec-bind _ _
            (Spec-rethrow cycle_of_provenance _ (Spec-write_progress progress _ saved_at)
              write_failure)
            λ commit _.
              Spec-bind _ _ (Spec-lift _ (check_progress_state-Post store commit))
                λ _ _. Spec-pure _ (refl, record { state_bound = refl; same_ref = refl })
