-- ===== src/WorkCycle/Configuration.antt =====
-- `load_cycle_bindings` and `load_task_policy` of peoplebot/work_cycle.py.
pub mod Laws
use peoplebot_releases.Base.{
  ℕ, String, ◌<>◌, Bool, true, false, not, ◌||◌, Option, none, some, List, [], ◌∷◌, ◌++◌, ◌==◌,
  if◌then◌else◌,
}
use peoplebot_releases.Base.Result.{Result, ok, err, value_error, raise_if, ◌>>=◌, ◌>>◌}
use peoplebot_releases.Base.Exec
use peoplebot_releases.Base.Exec.{Exec, lift}
use peoplebot_releases.Json
use peoplebot_releases.Json.{
  Value, Items, Fields, bool, int, negative, str, arr, obj, nil, cons, has_keys,
}
use peoplebot_releases.Host.{External, Host}
use peoplebot_releases.Messaging.Remote.{
  OutboundDestination, PeerSource, outbound_destination, peer_source,
}
use peoplebot_releases.WorkCycle.Policy.{TaskRoute, task_route, TaskPolicy, task_policy}
use peoplebot_releases.WorkCycle.Bindings.{
  CycleBindings, BindingFields, cycle_bindings, has_text, read_configuration,
}

-- `_configured_path`: Path(value) of a text.
configured_path : Value → String → Result String
configured_path (str value) label = do
  raise_if (value == "") (value_error (label <> " must be a non-empty path string"))
  ok value
configured_path _ label = err (value_error (label <> " must be a non-empty path string"))

abbrev endpoint_keys : List String
endpoint_keys = "expected_url" ∷ "ref_name" ∷ "remote" ∷ "repository" ∷ []

strings : Items → Result (List String)
strings nil = ok []
strings (cons (str s) xs) = do ss ← strings xs; ok (s ∷ ss)
strings (cons _ xs) = err (value_error "cycle source allowed_senders must be an array of strings")

allowed_list : Value → Result (List String)
unfolding strings
allowed_list (arr xs) = strings xs
allowed_list _ = err (value_error "cycle source allowed_senders must be an array of strings")

array_from : String → Value → Result Items
array_from detail (arr xs) = ok xs
array_from detail _ = err (value_error detail)

-- A path is Path(text), which is kept as the text.
module _ (has_credentials : String → Option Bool) where
  source_from : Value → Result PeerSource
  unfolding allowed_list
  source_from (obj fs) = do
    raise_if (not (has_keys fs ("allowed_senders" ∷ endpoint_keys)))
        (value_error "cycle source fields are invalid")
    allowed ← allowed_list (Json.get fs "allowed_senders")
    peer_source has_credentials (Json.get fs "repository") (Json.get fs "remote")
        (Json.get fs "expected_url") (Json.get fs "ref_name") allowed
  source_from _ = err (value_error "cycle source fields are invalid")

  sources_from : Items → Result (List PeerSource)
  sources_from nil = ok []
  sources_from (cons v vs) = do s ← source_from v; ss ← sources_from vs; ok (s ∷ ss)

  destination_fields : Value → Result Fields
  destination_fields (obj fs) = do
    raise_if (not (has_keys fs endpoint_keys)) (value_error "cycle destination fields are invalid")
    ok fs
  destination_fields _ = err (value_error "cycle destination fields are invalid")

  abbrev binding_keys : List String
  binding_keys =
      "destination" ∷ "environment_id" ∷ "format" ∷ "instance_id" ∷ "local_checkout"
      ∷ "local_repository" ∷ "outbound_ref" ∷ "progress_ref" ∷ "runtime_root" ∷ "sources"
      ∷ "status_path" ∷ "stop_path" ∷ []

  -- The arguments that `load_cycle_bindings` passes to the constructor.
  unfoldable pub binding_fields : Value → Result BindingFields
  unfolding configured_path array_from source_from sources_from destination_fields
  binding_fields (obj fs) = do
    raise_if (not (has_keys fs binding_keys)) (value_error "cycle bindings fields are invalid")
    raise_if (not (has_text "peoplebot.cycle-bindings.v0" (Json.get fs "format")))
        (value_error "cycle bindings format is invalid")
    ds ← destination_fields (Json.get fs "destination")
    xs ← array_from "cycle sources must be an array" (Json.get fs "sources")
    sources ← sources_from xs
    runtime_root ← configured_path (Json.get fs "runtime_root") "runtime_root"
    local_checkout ← configured_path (Json.get fs "local_checkout") "local_checkout"
    destination ←
        outbound_destination has_credentials (Json.get ds "repository") (Json.get ds "remote")
          (Json.get ds "expected_url") (Json.get ds "ref_name")
    status_path ← configured_path (Json.get fs "status_path") "status_path"
    stop_path ← configured_path (Json.get fs "stop_path") "stop_path"
    ok (record {
      environment_id = Json.get fs "environment_id";
      instance_id = Json.get fs "instance_id";
      runtime_root = runtime_root;
      local_checkout = local_checkout;
      local_repository = Json.get fs "local_repository";
      outbound_ref = Json.get fs "outbound_ref";
      destination = destination;
      sources = sources;
      progress_ref = Json.get fs "progress_ref";
      status_path = status_path;
      stop_path = stop_path;
    })
  binding_fields _ = err (value_error "cycle bindings fields are invalid")

route_from : Value → Result TaskRoute
route_from (obj fs) = do
  raise_if (not (has_keys fs ("handler" ∷ "purpose" ∷ [])))
      (value_error "task policy route fields are invalid")
  task_route (Json.get fs "purpose") (Json.get fs "handler")
route_from _ = err (value_error "task policy route fields are invalid")

routes_from : Items → Result (List TaskRoute)
routes_from nil = ok []
routes_from (cons v vs) = do r ← route_from v; rs ← routes_from vs; ok (r ∷ rs)

-- An integer that is no boolean; a negative one as 0, which the policy refuses alike.
maximum_from : Value → Result ℕ
maximum_from (int n) = ok n
maximum_from (negative n) = ok 0
maximum_from _ = err (value_error "maximum_completed_tasks must be an integer")

boolean_from : Value → Result Bool
boolean_from (bool b) = ok b
boolean_from _ = err (value_error "allow_stop_messages must be a boolean")

abbrev policy_keys : List String
policy_keys = "allow_stop_messages" ∷ "format" ∷ "maximum_completed_tasks" ∷ "routes" ∷ []

-- `load_task_policy` up to the constructor call
policy_parts : Fields → Result (List TaskRoute × ℕ × Bool)
unfolding array_from routes_from maximum_from boolean_from
policy_parts fs = do
  raise_if (not (has_keys fs policy_keys)) (value_error "task policy fields are invalid")
  raise_if (not (has_text "peoplebot.task-policy.v0" (Json.get fs "format")))
      (value_error "task policy format is invalid")
  xs ← array_from "task policy routes must be an array" (Json.get fs "routes")
  routes ← routes_from xs
  maximum ← maximum_from (Json.get fs "maximum_completed_tasks")
  allow_stop ← boolean_from (Json.get fs "allow_stop_messages")
  ok (routes, maximum, allow_stop)

policy_of : List TaskRoute × ℕ × Bool → Result TaskPolicy
policy_of (routes, maximum, allow_stop) = task_policy routes maximum allow_stop

-- `load_task_policy` of the value that the file holds
unfoldable pub policy_from : Value → Result TaskPolicy
unfolding route_from policy_parts policy_of
policy_from (obj fs) = do parts ← policy_parts fs; policy_of parts
policy_from _ = err (value_error "task policy fields are invalid")

module _ (X : External) where
  unfoldable pub load_task_policy : String → Exec (Host X) TaskPolicy
  load_task_policy path =
      Exec.◌>>=◌ (read_configuration X path "task policy") (λ value. lift (policy_from value))

  unfoldable pub load_cycle_bindings : (String → Option Bool) → String → Exec (Host X) CycleBindings
  load_cycle_bindings has_credentials path =
      Exec.◌>>=◌ (read_configuration X path "cycle bindings") λ value.
        Exec.◌>>=◌ (lift (binding_fields has_credentials value)) λ fields. cycle_bindings X fields
