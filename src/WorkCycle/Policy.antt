-- ===== src/WorkCycle/Policy.antt =====
-- TaskRoute, TaskPolicy and TaskHandlerResult of peoplebot/work_cycle.py.
use peoplebot_releases.Base.{
  ℕ, String, len, Bool, true, false, not, ◌||◌, Option, none, some, List, [], ◌∷◌, length, ltb, eqb,
  contains_code, ◌==◌, if◌then◌else◌,
}
use peoplebot_releases.Base.Result.{Result, ok, value_error, raise_if, ◌>>=◌, ◌>>◌}
use peoplebot_releases.Json.{Value}
use peoplebot_releases.State.{StateRef}
use peoplebot_releases.Execution.{require_text}
use peoplebot_releases.Messaging.Message.{identifier}
use peoplebot_releases.WorkCycle.Progress.{TaskDisposition, claimed, all_differ}

pub record TaskRoute : Type 0 where
  pub purpose : String
  pub handler : String

-- TaskRoute(purpose, handler)
unfoldable pub task_route : Value → Value → Result TaskRoute
task_route purpose handler = do
  p ← identifier purpose "route purpose"
  h ← identifier handler "route handler"
  ok (record { purpose = p; handler = h })

unfoldable pub same_purpose : TaskRoute → TaskRoute → Bool
same_purpose a b = a.purpose == b.purpose

pub record TaskPolicy : Type 0 where
  pub routes : List TaskRoute
  pub maximum_completed_tasks : ℕ
  pub allow_stop_messages : Bool

-- TaskPolicy(routes, maximum_completed_tasks, allow_stop_messages); a negative maximum, which is
-- out of range too, is given as 0.
unfoldable pub task_policy : List TaskRoute → ℕ → Bool → Result TaskPolicy
task_policy routes maximum allow_stop = do
  raise_if (eqb (length routes) 0 || ltb 16 (length routes))
      (value_error "task policy requires one to sixteen routes")
  raise_if (not (all_differ same_purpose routes))
      (value_error "task policy purposes must be unique")
  raise_if (ltb maximum 1 || ltb 256 maximum)
      (value_error "maximum_completed_tasks must be an integer from 1 to 256")
  ok (record {
    routes = routes;
    maximum_completed_tasks = maximum;
    allow_stop_messages = allow_stop;
  })

-- The first route of the purpose.
unfoldable pub route_handler : List TaskRoute → String → Option String
route_handler [] purpose = none
route_handler (r ∷ rs) purpose =
    let rest = route_handler rs purpose in if r.purpose == purpose then some r.handler else rest

-- TaskPolicy.handler_for
unfoldable pub handler_for : TaskPolicy → String → Option String
unfolding route_handler
handler_for policy purpose = route_handler policy.routes purpose

pub record TaskHandlerResult : Type 0 where
  pub disposition : TaskDisposition
  pub reply_content : String
  pub states : List StateRef
  pub memory_items : List (String × String)
  pub provider_invoked : Bool

abbrev pub is_claimed : TaskDisposition → Bool
is_claimed claimed = true
is_claimed _ = false

check_items : List (String × String) → Result (Unit {0})
check_items [] = ok tt
check_items ((path, content) ∷ items) = do
  require_text path "memory item path"
  raise_if (content == "" || contains_code 0 content)
      (value_error "memory item content must be non-empty UTF-8 text without NUL")
  raise_if (ltb 65536 (len content)) (value_error "memory item content exceeds 65536 bytes")
  check_items items

-- TaskHandlerResult(...), of arguments of the declared types
unfoldable pub task_handler_result : TaskHandlerResult → Result TaskHandlerResult
unfolding check_items
task_handler_result r = do
  raise_if (is_claimed r.disposition) (value_error "handler disposition is invalid")
  require_text r.reply_content "reply_content"
  raise_if (ltb 4096 (len r.reply_content)) (value_error "reply_content exceeds 4096 bytes")
  raise_if (ltb 8 (length r.states)) (value_error "handler states are invalid")
  raise_if (ltb 16 (length r.memory_items)) (value_error "handler memory items exceed 16")
  check_items r.memory_items
  ok r

-- A result of a disposition and a content alone.
abbrev pub plain_result : TaskDisposition → String → TaskHandlerResult
plain_result disposition content = record {
  disposition = disposition;
  reply_content = content;
  states = [];
  memory_items = [];
  provider_invoked = false;
}
