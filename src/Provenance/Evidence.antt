-- ===== src/Provenance/Evidence.antt =====
-- The operations of GitAttemptStore in peoplebot/provenance.py: evidence of attempts and of their ends.
pub mod Laws
use Prim.Native.Nat.{Ordering}
use Prim.Native.String.{compare}
use peoplebot_releases.Base.{
  String, ◌<>◌, Bool, true, false, not, ◌&&◌, ◌||◌, Option, none, some, List, [], ◌∷◌, ◌++◌, any,
  eqb, is_object_id, ◌==◌, if◌then◌else◌,
}
use peoplebot_releases.Base.Result
use peoplebot_releases.Base.Result.{Error, Result, ok, err, value_error, provenance_error, raise_if}
use peoplebot_releases.Base.Exec.{Exec, pure, raise, lift, raise_when, ◌>>=◌, ◌>>◌}
use peoplebot_releases.Json.{Value, Fields, obj, str}
use peoplebot_releases.State.{StateRef, state_ref, same_path}
use peoplebot_releases.State.Resolve.{ResolvedState, resolve_state}
use peoplebot_releases.Execution.{ExecutionRecord}
use peoplebot_releases.Execution.Dict.{record_bytes}
use peoplebot_releases.Host.{
  External, Host, Loaded, loaded, not_json, refused, too_deep, recursion_error,
}
use peoplebot_releases.Provenance.Plumbing.{
  AttemptStore, git, git_plain, object_id, write_blob, write_commit,
}
use peoplebot_releases.Provenance.Refs.{RefErrors, update_ref, zero_object_id}
use peoplebot_releases.Provenance.Attempt.{
  AttemptPhase, rejected, admitted_start, ExecutionStart, execution_start, ExecutionAttemptRecord,
  attempt_record, attempt_bytes, PersistedEvidence, attempt_ref,
}
use peoplebot_releases.Provenance.Attempt.Laws.{start_of}

abbrev pub attempt_path : String
attempt_path = "attempt.json"

abbrev pub execution_path : String
execution_path = "execution.json"

abbrev pub adapter_observation_path : String
adapter_observation_path = "adapter-observation.json"

abbrev pub synchronization_observation_path : String
synchronization_observation_path = "synchronization-observation.json"

-- sorted(entries.items()), of different paths
insert_entry : String × String → List (String × String) → List (String × String)
insert_entry e [] = e ∷ []
insert_entry e (f ∷ fs) = elim (compare e.0 f.0) [
  | Ordering.gt ↦ f ∷ insert_entry e fs
  | _ ↦ e ∷ f ∷ fs
]

sorted_entries : List (String × String) → List (String × String)
unfolding insert_entry
sorted_entries [] = []
sorted_entries (e ∷ es) = insert_entry e (sorted_entries es)

is_evidence_path : String → Bool
is_evidence_path path =
    any (λ p. path == p)
      (attempt_path ∷ execution_path ∷ adapter_observation_path ∷ synchronization_observation_path
        ∷ [])

-- The input of `git mktree`.
serialized : List (String × String) → Result String
unfolding is_evidence_path
serialized [] = ok ""
serialized ((path, blob) ∷ es) =
    Result.◌>>◌
      (raise_if (not (is_evidence_path path)) (value_error "evidence path is unsupported"))
      (Result.◌>>◌
        (raise_if (not (is_object_id blob)) (value_error "evidence blob must be an object ID"))
        (Result.◌>>=◌ (serialized es)
          λ rest. ok ("100644 blob " <> blob <> "\t" <> path <> "\n" <> rest)))

-- The defaults of `_update_ref`.
evidence_errors : RefErrors
evidence_errors = record {
  reflog_message = "peoplebot execution provenance v0";
  conflict =
      provenance_error "provenance.attempt_exists"
        "the isolated attempt ref already exists or changed";
  symbolic =
      provenance_error "provenance.attempt_exists"
        "the isolated attempt ref is unexpectedly symbolic";
  inspection =
      provenance_error "provenance.ref_inspection_failed"
        "Git could not establish that the isolated attempt ref is not symbolic";
  persistence =
      provenance_error "provenance.persistence_failed"
        "Git could not update the isolated attempt ref";
}

-- StateRef(self.repository, commit, path)
evidence_at : AttemptStore → String → String → String → Result PersistedEvidence
evidence_at store commit path ref_name =
    Result.◌>>=◌ (state_ref (str store.repository) (str commit) (str path))
      λ s. ok (record { state = s; ref_name = ref_name })

start_mismatch : String → Error
start_mismatch detail = provenance_error "provenance.start_mismatch" detail

-- The companion of a mapping that is of one supported path alone.
companion_of : List (String × String) → Option (String × String)
companion_of ((path, content) ∷ []) =
    if path == adapter_observation_path || path == synchronization_observation_path
    then some (path, content)
    else none
companion_of _ = none

module _ (X : External) where
  -- GitAttemptStore._write_tree
  unfoldable pub write_tree : AttemptStore → List (String × String) → Exec (Host X) String
  unfolding serialized sorted_entries
  write_tree store entries = do
    input ← lift (serialized (sorted_entries entries))
    result ← git X store [] ("mktree" ∷ []) input
    object_id result "write the evidence tree"

  -- GitAttemptStore.persist_attempt
  unfoldable pub persist_attempt :
      AttemptStore → ExecutionAttemptRecord → Exec (Host X) PersistedEvidence
  unfolding write_tree evidence_errors evidence_at
  persist_attempt store r = do
    raise_when (not (r.start.starting_state.repository == store.repository)) (
        provenance_error "provenance.repository_mismatch"
          "starting State repository does not match evidence repository")
    resolve_state X store.checkout r.start.starting_state
    let ref_name = attempt_ref X.sha256 r.start
    blob ← write_blob X store (attempt_bytes r)
    tree ← write_tree store ((attempt_path, blob) ∷ [])
    commit ←
        write_commit X store tree (r.start.starting_state.commit ∷ []) r.start.started_at
          "PeopleBot execution attempt"
    update_ref X store evidence_errors ref_name commit zero_object_id
    lift (evidence_at store commit attempt_path ref_name)

  read_blob : AttemptStore → ResolvedState → Exec (Host X) String
  read_blob store resolved = do
    raise_when (not (resolved.selected_type == "blob"))
        (provenance_error "provenance.evidence_invalid" "evidence State does not select a blob")
    content ← git_plain X store ("cat-file" ∷ "blob" ∷ resolved.selected_object ∷ [])
    raise_when (not (eqb content.returncode 0))
        (provenance_error "state.object_unavailable" "evidence blob is unavailable locally")
    pure content.stdout

  -- GitAttemptStore.read_evidence_bytes
  unfoldable pub read_evidence_bytes : AttemptStore → StateRef → Exec (Host X) String
  unfolding read_blob
  read_evidence_bytes store state = do
    raise_when (not (state.repository == store.repository) || same_path state.path none) (
        provenance_error "provenance.evidence_mismatch"
          "evidence State must identify a path in this repository")
    resolved ← resolve_state X store.checkout state
    read_blob store resolved

  evidence_object : Loaded → Exec (Host X) Fields
  evidence_object (loaded (obj fs)) = pure fs
  evidence_object (loaded _) =
      raise (provenance_error "provenance.evidence_invalid" "evidence JSON must be an object")
  evidence_object not_json =
      raise (provenance_error "provenance.evidence_invalid" "evidence blob is not valid UTF-8 JSON")
  evidence_object refused = raise (value_error "Exceeds the limit for integer string conversion")
  evidence_object too_deep = raise recursion_error

  -- GitAttemptStore.read_evidence
  unfoldable pub read_evidence : AttemptStore → StateRef → Exec (Host X) Fields
  unfolding evidence_object
  read_evidence store state = do
    content ← read_evidence_bytes store state
    evidence_object (X.loads content)

  -- The blob of the companion, if there are companions.
  write_companion :
      AttemptStore → Option (List (String × String)) → Exec (Host X) (List (String × String))
  unfolding companion_of
  write_companion store none = pure []
  write_companion store (some artifacts) = elim (companion_of artifacts) [
    | none ↦ raise (value_error "terminal companion artifacts do not match v0")
    | some (path, content) ↦ do blob ← write_blob X store content; pure ((path, blob) ∷ [])
  ]

  -- The commit of the adapter, where it is of this repository and another commit.
  adapter_parents : AttemptStore → ExecutionRecord → String → Exec (Host X) (List String)
  adapter_parents store r start_commit =
      if not (r.adapter.repository == store.repository) then pure [] else (do
        resolve_state X store.checkout r.adapter
        pure (if r.adapter.commit == start_commit then [] else r.adapter.commit ∷ []))

  -- The tests of `persist_terminal`: the start evidence is of the inputs of the record.
  unfoldable pub require_start :
      AttemptStore → PersistedEvidence → ExecutionRecord → Exec (Host X) (Unit {0})
  unfolding start_mismatch
  require_start store evidence r = do
    raise_when
        (not (evidence.state.repository == store.repository)
          || not (same_path evidence.state.path (some attempt_path)))
        (start_mismatch "terminal evidence requires this store's exact attempt State")
    start ← lift (execution_start (start_of r))
    raise_when (not (evidence.ref_name == attempt_ref X.sha256 start))
        (start_mismatch "attempt ref does not match the terminal Execution inputs")
    resolve_state X store.checkout evidence.state
    expected ← lift (attempt_record start admitted_start "admission.acquired")
    content ← read_evidence_bytes store evidence.state
    raise_when (not (content == attempt_bytes expected))
        (start_mismatch "attempt evidence does not match the terminal Execution inputs")

  -- GitAttemptStore.persist_terminal
  unfoldable pub persist_terminal :
      AttemptStore
      → PersistedEvidence
      → ExecutionRecord
      → Option (List (String × String))
      → Exec (Host X) PersistedEvidence
  unfolding require_start write_companion adapter_parents evidence_errors evidence_at
  persist_terminal store evidence r artifacts = do
    require_start store evidence r
    blob ← write_blob X store (record_bytes r)
    companion ← write_companion store artifacts
    more ← adapter_parents store r evidence.state.commit
    tree ← write_tree store ((execution_path, blob) ∷ companion)
    commit ←
        write_commit X store tree (evidence.state.commit ∷ more) r.finished_at
          "PeopleBot execution terminal"
    update_ref X store evidence_errors evidence.ref_name commit evidence.state.commit
    lift (evidence_at store commit execution_path evidence.ref_name)
