-- ===== src/State/Resolve/Laws.antt =====
-- What `resolve_state` returns and raises.
use peoplebot_releases.Base.{
  String, ◌≡◌, refl, true, Option, none, some, List, [], ◌∷◌, arith, any, ◌==◌, is_tree_id,
}
use peoplebot_releases.Base.Result.{Error, resolution_error, os_error}
use peoplebot_releases.Base.Exec.Spec.{
  Spec, Anything, Spec-pure, Spec-raise, Spec-bind, Spec-guard, Spec-gets, Spec-raise_when,
}
use peoplebot_releases.State.{StateRef}
use peoplebot_releases.Host.{
  External, Outcome, completed, not_found, timed_out, os_failed, run_command,
}
use peoplebot_releases.State.Resolve.{
  ResolvedState, run_outcome, run_git, git, require_git_features, select, resolve_path,
  resolve_state,
}

abbrev pub IsResolutionFailure : Error → Type 0
IsResolutionFailure (resolution_error _ _) = Unit
IsResolutionFailure os_error = Unit
IsResolutionFailure _ = ⊥

abbrev kinds : List String
kinds = "blob" ∷ "tree" ∷ "commit" ∷ "tag" ∷ []

-- What a resolution of `reference` says.
pub record Resolves (reference : StateRef) (r : ResolvedState) : Type 0 where
  pub same : r.reference ≡ reference
  pub tree : is_tree_id r.root_tree ≡ true
  pub whole :
      reference.path ≡ none → (r.selected_object ≡ reference.commit) × (r.selected_type ≡ "commit")
  pub narrowed :
      (p : String)
      → reference.path ≡ some p
      → (is_tree_id r.selected_object ≡ true) × (any (λ t. t == r.selected_type) kinds ≡ true)

module _ (X : External) where
  Spec-run_outcome : (o : Outcome) → Spec IsResolutionFailure Anything (run_outcome X o)
  unfolding run_outcome
  Spec-run_outcome (completed c out) = search Spec-pure
  Spec-run_outcome not_found = search Spec-raise
  Spec-run_outcome timed_out = search Spec-raise
  Spec-run_outcome os_failed = Spec-raise _ tt

  Spec-command :
      (c : String) (v : List (String × String)) (a : List String) (i : String)
      → Spec IsResolutionFailure Anything (run_command X c v a i)
  unfolding run_command
  Spec-command c v a i = record { at = λ s. tt }

  Spec-git : (c : String) (a : List String) → Spec IsResolutionFailure Anything (git X c a)
  unfolding git run_git
  Spec-git c a = Spec-bind _ _ (Spec-command _ _ _ "") (λ o _. Spec-run_outcome o)

  Spec-features : Spec IsResolutionFailure Anything (require_git_features X)
  unfolding require_git_features run_git
  Spec-features =
      Spec-bind _ _ (Spec-bind _ _ (Spec-command _ _ _ "") (λ o _. Spec-run_outcome o))
        (λ c _. Spec-raise_when _ _ tt)

  Spec-resolve_path :
      (checkout : String) (r : StateRef) (t p : String)
      → is_tree_id t ≡ true
      → r.path ≡ some p
      → Spec IsResolutionFailure (Resolves r) (resolve_path X checkout r t p)
  unfolding resolve_path
  Spec-resolve_path checkout r t p ht hp = Spec-bind _ _ (Spec-git _ _) λ found _.
      Spec-guard _ _ _ tt λ h. Spec-bind _ _ (Spec-git _ _) λ kind _. Spec-guard _ _ _ tt λ k.
        Spec-pure _ (record {
          same = refl;
          tree = ht;
          whole = λ e. absurd (ground arith);
          narrowed = λ q e. (ground arith, ground arith);
        })

  Spec-select :
      (checkout : String) (r : StateRef) (t : String) (p : Option String)
      → is_tree_id t ≡ true
      → r.path ≡ p
      → Spec IsResolutionFailure (Resolves r) (select X checkout r t p)
  unfolding select
  Spec-select checkout r t none ht hp = Spec-pure _ (record {
    same = refl;
    tree = ht;
    whole = λ e. (refl, refl);
    narrowed = λ q e. absurd (ground arith);
  })
  Spec-select checkout r t (some p) ht hp = Spec-resolve_path checkout r t p ht hp

  -- Whatever Git answers, `resolve_state` raises nothing but StateResolutionError and OSError, and what it
  -- returns keeps the reference, has a tree ID of 40 to 64 hexadecimal digits, selects the commit
  -- itself if the reference has no path, and else an object ID whose type is one of Git's four.
  pub resolve_state-Resolves :
      (checkout : String) (r : StateRef)
      → Spec IsResolutionFailure (Resolves r) (resolve_state X checkout r)
  unfolding resolve_state
  resolve_state-Resolves checkout r = Spec-bind _ _ (Spec-gets _) λ there _.
      Spec-guard _ _ _ tt λ _. Spec-bind _ _ Spec-features λ _ _.
        Spec-bind _ _ (Spec-git _ _) λ repository _. Spec-guard _ _ _ tt λ _.
          Spec-bind _ _ (Spec-git _ _) λ kind _. Spec-guard _ _ _ tt λ _.
            Spec-bind _ _ (Spec-git _ _)
              λ tree _. Spec-guard _ _ _ tt λ h. Spec-select checkout r _ r.path (ground arith) refl
