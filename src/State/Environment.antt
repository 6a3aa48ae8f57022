-- ===== src/State/Environment.antt =====
-- `_git_environment` of peoplebot/state.py: the process environment that Git is given.
use peoplebot_releases.Base.{
  String, ◌≡◌, refl, Bool, ◌||◌, List, [], ◌∷◌, arith, any, ◌==◌, eq_iff, starts_with,
  if◌then◌else◌, Bool-cases, inl, inr, eq_refl, Option, none, some,
}

abbrev pub Variables : Type 0
Variables = List (String × String)

-- `_GIT_ENVIRONMENT_TO_REMOVE`
abbrev pub environment_to_remove : List String
environment_to_remove =
    "GIT_ALTERNATE_OBJECT_DIRECTORIES" ∷ "GIT_CEILING_DIRECTORIES" ∷ "GIT_COMMON_DIR"
    ∷ "GIT_CONFIG_COUNT" ∷ "GIT_CONFIG_PARAMETERS" ∷ "GIT_DIR" ∷ "GIT_DISCOVERY_ACROSS_FILESYSTEM"
    ∷ "GIT_IMPLICIT_WORK_TREE" ∷ "GIT_INDEX_FILE" ∷ "GIT_NAMESPACE" ∷ "GIT_NO_LAZY_FETCH"
    ∷ "GIT_NO_REPLACE_OBJECTS" ∷ "GIT_OBJECT_DIRECTORY" ∷ "GIT_PREFIX" ∷ "GIT_SHALLOW_FILE"
    ∷ "GIT_WORK_TREE" ∷ []

-- The test of the loop, with `_GIT_CONFIG_ENVIRONMENT_PREFIXES`.
unfoldable pub is_removed : String → Bool
is_removed name =
    any (λ n. n == name) environment_to_remove
    || starts_with name "GIT_CONFIG_KEY_"
    || starts_with name "GIT_CONFIG_VALUE_"

-- environment.pop(name, None) for each name that is removed
unfoldable pub without_git : Variables → Variables
without_git [] = []
without_git ((name, value) ∷ rest) =
    let kept = without_git rest in if is_removed name then kept else (name, value) ∷ kept

-- environment[name] = value
unfoldable pub assign : String → String → Variables → Variables
assign name value [] = (name, value) ∷ []
assign name value ((n, v) ∷ rest) =
    if n == name then (name, value) ∷ rest else (n, v) ∷ assign name value rest

unfoldable pub lookup : String → Variables → Option String
lookup name [] = none
lookup name ((n, v) ∷ rest) = if n == name then some v else lookup name rest

unfoldable pub git_environment : Variables → Variables
unfolding without_git assign
git_environment environment = assign "GIT_OPTIONAL_LOCKS" "0" (without_git environment)

lookup-assign :
    (k j v : String) (vs : Variables)
    → lookup j (assign k v vs) ≡ (if k == j then some v else lookup j vs)
unfolding lookup assign
lookup-assign k j v [] = refl
lookup-assign k j v ((n, w) ∷ vs) =
    ground (arith, eq_iff k j, eq_iff n k, eq_iff n j, lookup-assign k j v vs)

lookup-without_git :
    (j : String) (vs : Variables)
    → lookup j (without_git vs) ≡ (if is_removed j then none else lookup j vs)
unfolding lookup without_git
lookup-without_git j [] = ground arith
lookup-without_git j ((n, w) ∷ vs) = elim (Bool-cases (n == j)) [
  | inl e ↦ rw ((eq_iff n j).0 e) (ground (arith, eq_refl j, lookup-without_git j vs))
  | inr e ↦ ground (arith, lookup-without_git j vs)
]

-- In the environment of Git a variable is "0" if it is GIT_OPTIONAL_LOCKS, absent if it redirects
-- or configures Git, and what the process has otherwise.
pub lookup-git_environment :
    (j : String) (vs : Variables)
    → lookup j (git_environment vs)
      ≡ (if "GIT_OPTIONAL_LOCKS" == j then some "0" else if is_removed j then none else lookup j vs)
unfolding git_environment
lookup-git_environment j vs =
    ground
      (arith, lookup-assign "GIT_OPTIONAL_LOCKS" j "0" (without_git vs), lookup-without_git j vs)
