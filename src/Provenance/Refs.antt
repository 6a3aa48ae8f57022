-- ===== src/Provenance/Refs.antt =====
-- GitAttemptStore._update_refs in peoplebot/provenance.py: one prepared transaction on references.
pub mod Laws
use peoplebot_releases.Base.{
  ℕ, String, ◌<>◌, Bool, true, false, not, ◌||◌, Option, none, some, List, [], ◌∷◌, eqb, strip,
  is_object_id, contains_code, starts_with, ◌==◌, if◌then◌else◌,
}
use peoplebot_releases.Base.Result.{
  Error, Result, ok, err, value_error, provenance_error, os_error, raise_if,
}
use peoplebot_releases.Base.Result
use peoplebot_releases.Base.Exec.{Exec, pure, raise, lift, catch, raise_when, ◌>>=◌, ◌>>◌}
use peoplebot_releases.Host.{
  External, Host, Prepared, answered, no_git, no_start, silent, broken, Finished, finished,
  unanswered, cut_off, prepare_refs, finish_refs,
}
use peoplebot_releases.Provenance.Plumbing.{AttemptStore, git_plain}

abbrev pub zero_object_id : String
zero_object_id = "0000000000000000000000000000000000000000"

-- An update of a reference: the new object, or None to verify alone, and the expected object.
pub record RefUpdate : Type 0 where
  pub ref_name : String
  pub commit : Option String
  pub expected : String

-- The codes and details that the callers choose.
pub record RefErrors : Type 0 where
  pub reflog_message : String
  pub conflict : Error
  pub symbolic : Error
  pub inspection : Error
  pub persistence : Error

is_object_option : Option String → Bool
is_object_option none = true
is_object_option (some c) = is_object_id c

operation_text : String → Option String → String → Result String
operation_text name none expected = ok ("verify " <> name <> " " <> expected)
operation_text name (some commit) expected =
    if commit == zero_object_id
    then (if expected == zero_object_id
        then err (value_error "deleting an absent ref is unsupported")
        else ok ("delete " <> name <> " " <> expected))
    else if expected == zero_object_id
    then ok ("create " <> name <> " " <> commit)
    else ok ("update " <> name <> " " <> commit <> " " <> expected)

-- One line of the transaction, from an update that passes the tests.
unfoldable pub operation : RefUpdate → Result String
unfolding is_object_option operation_text
operation u =
    Result.◌>>◌
      (raise_if
        (not (starts_with u.ref_name "refs/")
          || contains_code 0 u.ref_name
          || contains_code 13 u.ref_name
          || contains_code 10 u.ref_name
          || contains_code 32 u.ref_name)
        (value_error "reference transaction input is invalid"))
      (Result.◌>>◌
        (raise_if (not (is_object_id u.expected) || not (is_object_option u.commit))
          (value_error "reference transaction objects must be full object IDs"))
        (operation_text u.ref_name u.commit u.expected))

operations : List RefUpdate → Result (List String)
operations [] = ok []
operations (u ∷ us) =
    Result.◌>>=◌ (operation u) (λ o. Result.◌>>=◌ (operations us) (λ os. ok (o ∷ os)))

timeout_error : Error
timeout_error = provenance_error "git.timeout" "Git reference transaction exceeded 15 seconds"

module _ (X : External) (store : AttemptStore) (e : RefErrors) where
  -- symbolic-ref: 0 says that the reference is symbolic, 1 that it is not.
  require_direct : String → Exec (Host X) (Unit {0})
  require_direct name = do
    symbolic ← git_plain X store ("symbolic-ref" ∷ "--quiet" ∷ "--no-recurse" ∷ name ∷ [])
    raise_when (eqb symbolic.returncode 0) e.symbolic
    raise_when (not (eqb symbolic.returncode 1)) e.inspection

  -- Whether a reference differs from what a refused transaction expected.
  conflicts : ℕ → String → String → Bool
  conflicts code observed expected =
      if expected == zero_object_id
      then eqb code 0
      else not (eqb code 0) || not (observed == expected)

  -- After a refused transaction: which error it was.
  explain : List RefUpdate → Bool → Exec (Host X) (Unit {0})
  explain [] conflict = if conflict then raise e.conflict else raise e.persistence
  explain (u ∷ us) conflict = do
    require_direct u.ref_name
    current ← git_plain X store ("rev-parse" ∷ "--verify" ∷ "--quiet" ∷ u.ref_name ∷ [])
    raise_when (not (eqb current.returncode 0 || eqb current.returncode 1)) e.inspection
    explain us (conflict || conflicts current.returncode (strip current.stdout) u.expected)

  -- The transaction may still be open where an exception is raised: it is aborted, without an answer.
  abort_then : {A : Type 0} → Error → Exec (Host X) A
  abort_then error = do finish_refs X "abort"; raise error

  -- A status line in time.
  in_time : Finished → Exec (Host X) (String × ℕ)
  in_time (finished line code) = pure (line, code)
  in_time unanswered = raise timeout_error
  in_time cut_off = abort_then os_error

  finish : String → Exec (Host X) (String × ℕ)
  finish command = do result ← finish_refs X command; in_time result

  inspect_prepared : String → Exec (Host X) ℕ
  inspect_prepared name = do
    symbolic ←
        catch (git_plain X store ("symbolic-ref" ∷ "--quiet" ∷ "--no-recurse" ∷ name ∷ []))
          (λ error. some (abort_then error))
    pure symbolic.returncode

  abort_symbolic : Exec (Host X) (Unit {0})
  abort_symbolic = do
    aborted ← finish "abort"
    raise_when (not (aborted.0 == "abort: ok")) e.persistence
    raise e.symbolic

  abort_unknown : Exec (Host X) (Unit {0})
  abort_unknown = do
    aborted ← finish "abort"
    raise_when (not (aborted.0 == "abort: ok") || not (eqb aborted.1 0)) e.persistence
    raise e.inspection

  -- A prepared transaction is aborted if a reference is symbolic or cannot be inspected.
  check_prepared : List RefUpdate → Exec (Host X) (Unit {0})
  check_prepared [] = pure tt
  check_prepared (u ∷ us) = do
    code ← inspect_prepared u.ref_name
    if eqb code 0
        then abort_symbolic
        else if not (eqb code 1)
        then abort_unknown
        else check_prepared us

  commit_prepared : List RefUpdate → Exec (Host X) (Unit {0})
  commit_prepared updates = do
    check_prepared updates
    committed ← finish "commit"
    raise_when (not (committed.0 == "commit: ok") || not (eqb committed.1 0)) e.persistence

  after_prepare : List RefUpdate → Prepared → Exec (Host X) (Unit {0})
  after_prepare updates no_git =
      raise (provenance_error "git.unavailable" "Git executable was not found")
  after_prepare updates no_start = raise os_error
  after_prepare updates silent = raise timeout_error
  after_prepare updates broken = abort_then os_error
  after_prepare updates (answered started prepared) =
      if not (started == "start: ok") || not (prepared == "prepare: ok")
      then explain updates false
      else commit_prepared updates

  -- GitAttemptStore._update_refs of a mapping that is not empty.
  unfoldable pub update_refs : List RefUpdate → Exec (Host X) (Unit {0})
  unfolding operations require_direct conflicts explain in_time finish abort_then inspect_prepared
      abort_symbolic abort_unknown check_prepared commit_prepared after_prepare timeout_error
  update_refs [] = raise (value_error "updates must be a non-empty mapping")
  update_refs (u ∷ us) = do
    lines ← lift (operations (u ∷ us))
    prepared ← prepare_refs X store.checkout e.reflog_message lines
    after_prepare (u ∷ us) prepared

  -- GitAttemptStore._update_ref
  unfoldable pub update_ref : String → String → String → Exec (Host X) (Unit {0})
  unfolding update_refs
  update_ref ref_name commit expected =
      update_refs (record { ref_name = ref_name; commit = some commit; expected = expected } ∷ [])
