-- ===== src/WorkCycle/Store.antt =====
-- ReaderProgressStore of peoplebot/work_cycle.py: reader progress on a reference of its own in Git.
pub mod Laws
pub mod Saved
use peoplebot_releases.Base.{
  String, ◌<>◌, len, Bool, true, false, not, ◌||◌, Option, none, some, List, [], ◌∷◌, ltb, eqb,
  ◌==◌, strip, is_object_id, starts_with, if◌then◌else◌,
}
use peoplebot_releases.Base.Result
use peoplebot_releases.Base.Result.{
  Error, Result, ok, err, value_error, cycle_error, provenance_error, resolution_error,
}
use peoplebot_releases.Base.Exec.{
  Exec, pure, raise, lift, rethrow, translate, raise_when, ◌>>=◌, ◌>>◌,
}
use peoplebot_releases.Json.{Value, str}
use peoplebot_releases.State.{StateRef, state_ref}
use peoplebot_releases.State.Resolve.{Completed, resolve_state}
use peoplebot_releases.Execution.Timestamp.{utc_timestamp}
use peoplebot_releases.Host.{
  External, Host, Loaded, loaded, not_json, refused, too_deep, recursion_error,
}
use peoplebot_releases.Provenance.Plumbing.{
  AttemptStore, attempt_store, git_plain, write_blob, write_single, write_commit,
}
use peoplebot_releases.Provenance.Refs.{RefErrors, update_ref}
use peoplebot_releases.Messaging.Store.{optional_list, or_zero}
use peoplebot_releases.WorkCycle.Progress.{ReaderProgress, progress_bytes}
use peoplebot_releases.WorkCycle.Progress.Parse.{progress_from}

pub record ProgressState : Type 0 where
  pub progress : ReaderProgress
  pub state : StateRef
  pub ref_name : String

pub record ProgressStore : Type 0 where
  pub plumbing : AttemptStore
  pub repository : String
  pub ref_name : String

abbrev pub progress_state : ProgressStore → String → StateRef
progress_state store commit = record {
  repository = store.repository;
  commit = commit;
  path = some "reader-progress.json";
}

-- The constructor of the StateRef that is `progress_state`: its tests.
unfoldable pub check_progress_state : ProgressStore → String → Result (Unit {0})
check_progress_state store commit =
    Result.◌>>◌ (state_ref (str store.repository) (str commit) (str "reader-progress.json")) (ok tt)

-- except StateResolutionError, and except ProvenanceError: CycleError with the code and detail.
abbrev pub cycle_of_resolution : Error → Error
cycle_of_resolution (resolution_error code detail) = cycle_error code detail
cycle_of_resolution e = e

abbrev pub cycle_of_provenance : Error → Error
cycle_of_provenance (provenance_error code detail) = cycle_error code detail
cycle_of_provenance e = e

-- except (UnicodeDecodeError, json.JSONDecodeError, ValueError)
abbrev pub cycle_of_value : Error → Error
cycle_of_value (value_error _) = cycle_error "cycle.progress_invalid" "reader progress is malformed"
cycle_of_value e = e

-- _progress(json.loads(blob))
unfoldable pub parse_progress : Loaded → Result ReaderProgress
parse_progress (loaded value) = translate cycle_of_value (progress_from value)
parse_progress not_json = err (cycle_error "cycle.progress_invalid" "reader progress is malformed")
parse_progress refused = err (cycle_error "cycle.progress_invalid" "reader progress is malformed")
parse_progress too_deep = err recursion_error

abbrev pub state_commit : Option ProgressState → Option String
state_commit none = none
state_commit (some p) = some p.state.commit

abbrev pub is_elsewhere : ProgressStore → Option ProgressState → Bool
is_elsewhere store none = false
is_elsewhere store (some p) = not (p.state.repository == store.repository)

abbrev pub progress_errors : RefErrors
progress_errors = record {
  reflog_message = "peoplebot reader progress v0";
  conflict = provenance_error "cycle.progress_conflict" "reader progress changed";
  symbolic = provenance_error "cycle.progress_ref_symbolic" "reader progress ref is symbolic";
  inspection =
      provenance_error "cycle.progress_inspection_failed" "reader progress identity is unknown";
  persistence =
      provenance_error "cycle.progress_persistence_failed" "reader progress could not be attached";
}

module _ (X : External) where
  -- ReaderProgressStore(checkout, repository, ref_name)
  unfoldable pub progress_store : String → String → String → Exec (Host X) ProgressStore
  progress_store checkout repository ref_name = do
    raise_when (not (starts_with ref_name "refs/peoplebot/message-readers/v0/"))
        (value_error "reader progress ref is invalid")
    plumbing ← attempt_store X checkout repository
    pure (record { plumbing = plumbing; repository = repository; ref_name = ref_name })

  valid_progress_tip : Completed → Exec (Host X) (Option String)
  valid_progress_tip value = do
    raise_when (not (eqb value.returncode 0) || not (is_object_id (strip value.stdout)))
        (cycle_error "cycle.progress_inspection_failed" "reader progress ref is invalid")
    pure (some (strip value.stdout))

  -- ReaderProgressStore._current
  unfoldable pub current_progress : ProgressStore → Exec (Host X) (Option String)
  unfolding valid_progress_tip
  current_progress store = do
    symbolic ←
        git_plain X store.plumbing
          ("symbolic-ref" ∷ "--quiet" ∷ "--no-recurse" ∷ store.ref_name ∷ [])
    raise_when (eqb symbolic.returncode 0)
        (cycle_error "cycle.progress_ref_symbolic" "reader progress ref is symbolic")
    raise_when (not (eqb symbolic.returncode 1))
        (cycle_error "cycle.progress_inspection_failed" "reader progress identity is unknown")
    value ← git_plain X store.plumbing ("rev-parse" ∷ "--verify" ∷ "--quiet" ∷ store.ref_name ∷ [])
    if eqb value.returncode 1 then pure none else valid_progress_tip value

  load_commit : ProgressStore → Option String → Exec (Host X) (Option ProgressState)
  load_commit store none = pure none
  load_commit store (some commit) = do
    lift (check_progress_state store commit)
    resolved ←
        rethrow cycle_of_resolution
          (resolve_state X store.plumbing.checkout (progress_state store commit))
    tree ← git_plain X store.plumbing ("ls-tree" ∷ "-rz" ∷ "--full-tree" ∷ commit ∷ [])
    raise_when
        (not (eqb tree.returncode 0)
          || not (
              tree.stdout
              == "100644 blob " <> resolved.selected_object <> "\treader-progress.json\0"))
        (cycle_error "cycle.progress_invalid" "reader progress commit tree is not progress-only")
    blob ← git_plain X store.plumbing ("cat-file" ∷ "blob" ∷ resolved.selected_object ∷ [])
    raise_when (not (eqb blob.returncode 0) || ltb 65536 (len blob.stdout))
        (cycle_error "cycle.progress_invalid" "reader progress blob is unavailable or oversized")
    progress ← lift (parse_progress (X.loads blob.stdout))
    pure (
        some (record {
          progress = progress;
          state = progress_state store commit;
          ref_name = store.ref_name;
        }))

  -- ReaderProgressStore.load
  unfoldable pub load : ProgressStore → Exec (Host X) (Option ProgressState)
  unfolding load_commit
  load store = do commit ← current_progress store; load_commit store commit

  -- The commit of `save`.
  write_progress : ProgressStore → ReaderProgress → Option String → String → Exec (Host X) String
  write_progress store progress parent saved_at = do
    blob ← write_blob X store.plumbing (progress_bytes progress)
    tree ← write_single X store.plumbing "reader-progress.json" blob "write reader progress tree"
    commit ←
        write_commit X store.plumbing tree (optional_list parent) saved_at
          "PeopleBot reader progress"
    update_ref X store.plumbing progress_errors store.ref_name commit (or_zero parent)
    pure commit

  -- ReaderProgressStore.save
  unfoldable pub save :
      ProgressStore → ReaderProgress → Option ProgressState → String → Exec (Host X) ProgressState
  unfolding write_progress
  save store progress expected saved_at = do
    lift (utc_timestamp (str saved_at) "saved_at")
    raise_when (is_elsewhere store expected)
        (value_error "expected progress belongs to another repository")
    commit ←
        rethrow cycle_of_provenance (write_progress store progress (state_commit expected) saved_at)
    lift (check_progress_state store commit)
    pure (record {
      progress = progress;
      state = progress_state store commit;
      ref_name = store.ref_name;
    })
