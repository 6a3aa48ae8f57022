-- ===== src/Tests/States.antt =====
-- The theorems of State at concrete inputs.
use peoplebot_releases.Base.{
  ◌≡◌, ◌↔◌, refl, true, false, none, some, [], ◌∷◌, codes, all, ◌==◌, if◌then◌else◌,
}
use peoplebot_releases.Base.Result.{err, value_error}
use peoplebot_releases.Base.Exec.Spec.{Spec}
use peoplebot_releases.Json.{str, null, int}
use peoplebot_releases.State.{state_ref, require_identity}
use peoplebot_releases.State.GitPath.{not_canonical, split_slash}
use peoplebot_releases.State.GitPath.Canonical.{is_plain, not_canonical_iff}
use peoplebot_releases.State.Failures.{is_value_error, state_ref-raises}
use peoplebot_releases.State.Environment.{
  lookup, git_environment, is_removed, lookup-git_environment,
}
use peoplebot_releases.State.Resolve.{resolve_state}
use peoplebot_releases.State.Resolve.Laws.{IsResolutionFailure, Resolves, resolve_state-Resolves}
use peoplebot_releases.Tests.Samples.{commit_a, state_a, scripted}

parent_refused : not_canonical (codes "docs/../plan.md") ≡ true
unfolding not_canonical
parent_refused = refl

not_canonical_iff_example :
    (not_canonical (codes "docs/./plan") ≡ false)
    ↔ (all is_plain (split_slash (codes "docs/./plan")) ≡ true)
not_canonical_iff_example = not_canonical_iff (codes "docs/./plan")

number_refused :
    state_ref (int 7) (str commit_a) null
    ≡ err (value_error "repository must be non-empty and have no surrounding whitespace")
unfolding state_ref require_identity
number_refused = refl

state_ref-raises_example :
    is_value_error (value_error "repository must be non-empty and have no surrounding whitespace")
    ≡ true
state_ref-raises_example = state_ref-raises (int 7) (str commit_a) null number_refused

lookup-git_environment_example :
    lookup "GIT_DIR" (git_environment (("GIT_DIR", "/x") ∷ ("HOME", "/h") ∷ [])) ≡ (
      if "GIT_OPTIONAL_LOCKS" == "GIT_DIR"
      then some "0"
      else if is_removed "GIT_DIR"
      then none
      else lookup "GIT_DIR" (("GIT_DIR", "/x") ∷ ("HOME", "/h") ∷ []))
lookup-git_environment_example =
    lookup-git_environment "GIT_DIR" (("GIT_DIR", "/x") ∷ ("HOME", "/h") ∷ [])

resolve_state-Resolves_example :
    Spec IsResolutionFailure (Resolves state_a) (resolve_state scripted "/work/repo" state_a)
resolve_state-Resolves_example = resolve_state-Resolves scripted "/work/repo" state_a
