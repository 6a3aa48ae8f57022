-- ===== src/State/Resolve.antt =====
-- `resolve_state` of peoplebot/state.py, over a Git that is a parameter.
pub mod Laws
use peoplebot_releases.Base.{
  ℕ, String, ◌<>◌, Bool, not, ◌&&◌, ◌||◌, Option, none, some, List, [], ◌∷◌, ◌++◌, eqb, any, ◌==◌,
  strip, is_tree_id,
}
use peoplebot_releases.Base.Result.{resolution_error, os_error}
use peoplebot_releases.Base.Exec.{Exec, pure, raise, gets, raise_when, ◌>>=◌, ◌>>◌}
use peoplebot_releases.Json
use peoplebot_releases.Json.{Value, str, obj, field, end}
use peoplebot_releases.State.{StateRef, state_dict}
use peoplebot_releases.Host.{
  External, Host, Outcome, completed, not_found, timed_out, os_failed, run_command, checkout_exists,
}

pub record ResolvedState : Type 0 where
  pub reference : StateRef
  pub root_tree : String
  pub selected_object : String
  pub selected_type : String

-- ResolvedState.to_dict
resolved_dict : ResolvedState → Value
resolved_dict r = obj (
    field "format" (str "peoplebot.resolved-state.v0") (
      field "reference" (obj (state_dict r.reference)) (
        field "root_tree" (str r.root_tree) (
          field "selected_object" (str r.selected_object)
            (field "selected_type" (str r.selected_type) end)))))

-- subprocess.CompletedProcess, or the `_GitResult` of provenance.py
pub record Completed : Type 0 where
  pub returncode : ℕ
  pub stdout : String

-- `_GIT_GLOBAL_OPTIONS`
abbrev pub git_global_options : List String
git_global_options = "--no-replace-objects" ∷ "--no-lazy-fetch" ∷ "--no-optional-locks" ∷ []

module _ (X : External) where
  run_outcome : Outcome → Exec (Host X) Completed
  run_outcome (completed code out) = pure (record { returncode = code; stdout = out })
  run_outcome not_found = raise (resolution_error "git.unavailable" "Git executable was not found")
  run_outcome timed_out = raise (resolution_error "git.timeout" "Git operation exceeded 15 seconds")
  run_outcome os_failed = raise os_error

  -- `_run_git`: the command after "git", and the checkout that "-C" names in it, if any
  run_git : String → List String → Exec (Host X) Completed
  run_git checkout command = do out ← run_command X checkout [] command ""; run_outcome out

  require_git_features : Exec (Host X) (Unit {0})
  require_git_features = do
    support ← run_git "" (git_global_options ++ "--version" ∷ [])
    raise_when (not (eqb support.returncode 0))
        (resolution_error "git.unsupported" "Git 2.45 or newer with --no-lazy-fetch is required")

  -- `_git`
  git : String → List String → Exec (Host X) Completed
  git checkout arguments = run_git checkout (git_global_options ++ "-C" ∷ checkout ∷ arguments)

  -- The lookup of a path in the commit, the end of `resolve_state`.
  resolve_path : String → StateRef → String → String → Exec (Host X) ResolvedState
  resolve_path checkout reference root_tree path = do
    found ← git checkout ("rev-parse" ∷ "--verify" ∷ (reference.commit <> ":" <> path) ∷ [])
    raise_when (not (eqb found.returncode 0) || not (is_tree_id (strip found.stdout)))
        (resolution_error "state.path_unavailable" "path is unavailable at exact commit")
    kind ← git checkout ("cat-file" ∷ "-t" ∷ strip found.stdout ∷ [])
    raise_when
        (not (eqb kind.returncode 0)
          || not (any (λ t. t == strip kind.stdout) ("blob" ∷ "tree" ∷ "commit" ∷ "tag" ∷ [])))
        (resolution_error "state.object_unavailable" "selected Git object could not be inspected")
    pure (record {
      reference = reference;
      root_tree = root_tree;
      selected_object = strip found.stdout;
      selected_type = strip kind.stdout;
    })

  select : String → StateRef → String → Option String → Exec (Host X) ResolvedState
  select checkout reference root_tree none = pure (record {
    reference = reference;
    root_tree = root_tree;
    selected_object = reference.commit;
    selected_type = "commit";
  })
  select checkout reference root_tree (some path) = resolve_path checkout reference root_tree path

  unfoldable pub resolve_state : String → StateRef → Exec (Host X) ResolvedState
  unfolding select resolve_path git run_git run_outcome require_git_features
  resolve_state checkout reference = do
    there ← gets (checkout_exists X checkout)
    raise_when (not there)
        (resolution_error "repository.unavailable" "checkout directory does not exist")
    require_git_features
    repository ← git checkout ("rev-parse" ∷ "--git-dir" ∷ [])
    raise_when (not (eqb repository.returncode 0))
        (resolution_error "repository.invalid" "checkout is not a Git repository")
    kind ← git checkout ("cat-file" ∷ "-t" ∷ reference.commit ∷ [])
    raise_when (not (eqb kind.returncode 0) || not (strip kind.stdout == "commit"))
        (resolution_error "state.commit_unavailable" "exact commit is unavailable")
    tree ← git checkout ("show" ∷ "-s" ∷ "--format=%T" ∷ reference.commit ∷ [])
    raise_when (not (eqb tree.returncode 0) || not (is_tree_id (strip tree.stdout)))
        (resolution_error "state.tree_unavailable" "commit root tree could not be resolved")
    select checkout reference (strip tree.stdout) reference.path
