-- ===== src/WorkCycle/Configuration/Laws.antt =====
-- What a loaded configuration satisfies.
use peoplebot_releases.Base.{
  ℕ, String, ◌≡◌, ap, ◌∙◌, ◌≤◌, Bool, true, Option, List, length, arith, eq_iff,
}
use peoplebot_releases.Base.Result.{ok, >>=-eq-ok}
use peoplebot_releases.Base.Exec.Spec.{
  Spec, Spec-pure, Spec-bind, Spec-guard, Spec-any, Spec-lift_self,
}
use peoplebot_releases.Json.{Value, str, obj}
use peoplebot_releases.Admission.Identity.{Bytes}
use peoplebot_releases.Host.{External}
use peoplebot_releases.WorkCycle.Progress.{all_differ}
use peoplebot_releases.WorkCycle.Policy.{TaskPolicy, TaskRoute, task_policy, same_purpose}
use peoplebot_releases.WorkCycle.Bindings.{
  CycleBindings, BindingFields, cycle_bindings, reader_progress_ref, has_text, text_of,
}
use peoplebot_releases.WorkCycle.Configuration.{
  load_cycle_bindings, policy_parts, policy_of, policy_from,
}

-- The destination and the reader's reference belong to the Instance and its repository.
pub record AreBound (sha256 : Bytes → String) (b : CycleBindings) : Type 0 where
  pub same_repository : b.destination.repository ≡ b.local_repository
  pub same_ref : b.destination.ref_name ≡ b.outbound_ref
  pub own_progress : reader_progress_ref sha256 b.environment_id b.instance_id ≡ ok b.progress_ref
  pub some_source : 1 ≤ length b.sources
  pub few_sources : length b.sources ≤ 8

has_text→≡ : (s : String) (v : Value) → has_text s v ≡ true → s ≡ text_of v
has_text→≡ s (str t) h = ground (arith, eq_iff t s)
has_text→≡ s _ h = absurd (cc h)

Spec-cycle_bindings :
    (X : External) (f : BindingFields) → Spec (λ _. Unit) (AreBound X.sha256) (cycle_bindings X f)
unfolding cycle_bindings
Spec-cycle_bindings X f = Spec-bind _ _ (Spec-any _) λ e _. Spec-bind _ _ (Spec-any _) λ i _.
    Spec-bind _ _ (Spec-any _) λ _ _. Spec-bind _ _ (Spec-any _) λ _ _.
      Spec-bind _ _ (Spec-any _) λ _ _. Spec-bind _ _ (Spec-any _) λ _ _.
        Spec-bind _ _ (Spec-any _) λ r _. Spec-guard _ _ _ tt λ owned. Spec-guard _ _ _ tt λ refs.
          Spec-guard _ _ _ tt λ few. Spec-bind _ _ (Spec-lift_self _) λ p named.
            Spec-guard _ _ _ tt λ given. Spec-pure _ (record {
              same_repository = ground (arith, owned, eq_iff f.destination.repository r);
              same_ref = has_text→≡ _ f.outbound_ref (ground (arith, refs));
              own_progress = named ∙ ap ok (has_text→≡ p f.progress_ref (ground (arith, given)));
              some_source = ground (arith, few);
              few_sources = ground (arith, few);
            })

-- Whatever the file holds, bindings that are loaded have their destination in their own repository
-- and reference, the progress reference of their own environment and Instance, and one to eight
-- sources.
pub load_cycle_bindings-AreBound :
    (X : External) (has_credentials : String → Option Bool) (path : String)
    → Spec (λ _. Unit) (AreBound X.sha256) (load_cycle_bindings X has_credentials path)
unfolding load_cycle_bindings
load_cycle_bindings-AreBound X has_credentials path =
    Spec-bind _ _ (Spec-any _)
      λ value _. Spec-bind _ _ (Spec-any _) λ fields _. Spec-cycle_bindings X fields

-- The bounds of a policy, and that its routes have different purposes.
pub record IsFinite (p : TaskPolicy) : Type 0 where
  pub some_task : 1 ≤ p.maximum_completed_tasks
  pub few_tasks : p.maximum_completed_tasks ≤ 256
  pub some_route : 1 ≤ length p.routes
  pub few_routes : length p.routes ≤ 16
  pub purposes_differ : all_differ same_purpose p.routes ≡ true

task_policy-IsFinite :
    (rs : List TaskRoute) (n : ℕ) (b : Bool) {p : TaskPolicy}
    → task_policy rs n b ≡ ok p
    → IsFinite p
unfolding task_policy
task_policy-IsFinite rs n b h = ground (arith, h)

policy_of-IsFinite :
    (q : List TaskRoute × ℕ × Bool) {p : TaskPolicy} → policy_of q ≡ ok p → IsFinite p
unfolding policy_of
policy_of-IsFinite (rs, n, b) h = task_policy-IsFinite rs n b h

-- Whatever JSON value it is read from, a task policy allows 1 to 256 completed tasks and has one to
-- sixteen routes, of different purposes.
pub policy_from-IsFinite : (v : Value) {p : TaskPolicy} → policy_from v ≡ ok p → IsFinite p
unfolding policy_from
policy_from-IsFinite (obj fs) h =
    let (q, _, built) = >>=-eq-ok (policy_parts fs) policy_of h in policy_of-IsFinite q built
policy_from-IsFinite _ h = absurd (cc h)
