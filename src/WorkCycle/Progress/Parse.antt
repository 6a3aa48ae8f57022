-- ===== src/WorkCycle/Progress/Parse.antt =====
-- `_progress` of peoplebot/work_cycle.py: reader progress from a JSON value.
pub mod Laws
use peoplebot_releases.Base.{
  String, Bool, false, not, ◌||◌, Option, none, some, List, [], ◌∷◌, ◌==◌, if◌then◌else◌,
}
use peoplebot_releases.Base.Result.{Result, ok, err, value_error, raise_if, ◌>>=◌, ◌>>◌}
use peoplebot_releases.Json
use peoplebot_releases.Json.{
  Value, Items, Fields, null, str, arr, obj, nil, cons, keys, member, has_keys,
}
use peoplebot_releases.State.{StateRef, state_ref}
use peoplebot_releases.WorkCycle.Progress.{
  TaskDisposition, claimed, completed, failed, unresolved, stopped, SourceCursor, source_cursor,
  TaskProgress, task_progress, ReaderReconciliation, reader_reconciliation, ReaderProgress,
  reader_progress,
}

some_state : Result StateRef → Result (Option StateRef)
some_state r = do s ← r; ok (some s)

-- `_state`
unfoldable pub state_of : Value → Result (Option StateRef)
unfolding some_state
state_of null = ok none
state_of (obj fs) =
    if has_keys fs ("repository" ∷ "commit" ∷ "path" ∷ [])
    then some_state
        (state_ref (Json.get fs "repository") (Json.get fs "commit") (Json.get fs "path"))
    else err (value_error "progress State fields are invalid")
state_of _ = err (value_error "progress State fields are invalid")

-- A State that must not be None.
required : String → Option StateRef → Result StateRef
required detail none = err (value_error detail)
required detail (some s) = ok s

-- TaskDisposition(value)
unfoldable pub disposition_from : Value → Result TaskDisposition
disposition_from (str s) =
    if s == "claimed"
    then ok claimed
    else if s == "completed"
    then ok completed
    else if s == "failed"
    then ok failed
    else if s == "unresolved"
    then ok unresolved
    else if s == "stopped"
    then ok stopped
    else err (value_error "task progress disposition is invalid")
disposition_from _ = err (value_error "task progress disposition is invalid")

abbrev task_keys : List String
task_keys =
    "disposition" ∷ "memory_state" ∷ "message_id" ∷ "message_state" ∷ "reply_state" ∷ "task_id" ∷ []

-- `_task_progress`
unfoldable pub task_from : Value → Result TaskProgress
unfolding required
task_from (obj fs) = do
  raise_if (not (has_keys fs task_keys)) (value_error "task progress fields are invalid")
  disposition ← disposition_from (Json.get fs "disposition")
  state ← state_of (Json.get fs "message_state")
  message_state ← required "task progress message State is required" state
  reply_state ← state_of (Json.get fs "reply_state")
  memory_state ← state_of (Json.get fs "memory_state")
  task_progress message_state (Json.get fs "message_id") (Json.get fs "task_id") disposition
      reply_state memory_state
task_from _ = err (value_error "task progress fields are invalid")

cursor_from : Value → Result SourceCursor
cursor_from (obj fs) = do
  raise_if (not (has_keys fs ("commit" ∷ "ref_name" ∷ "repository" ∷ [])))
      (value_error "reader cursor fields are invalid")
  source_cursor (Json.get fs "repository") (Json.get fs "ref_name") (Json.get fs "commit")
cursor_from _ = err (value_error "reader cursor fields are invalid")

cursors_from : Items → Result (List SourceCursor)
cursors_from nil = ok []
cursors_from (cons v vs) = do c ← cursor_from v; cs ← cursors_from vs; ok (c ∷ cs)

tasks_from : Items → Result (List TaskProgress)
tasks_from nil = ok []
tasks_from (cons v vs) = do t ← task_from v; ts ← tasks_from vs; ok (t ∷ ts)

-- tuple(_state(state) for state in evidence)
evidence_from : Items → Result (List (Option StateRef))
evidence_from nil = ok []
evidence_from (cons v vs) = do s ← state_of v; ss ← evidence_from vs; ok (s ∷ ss)

all_present : List (Option StateRef) → Result (List StateRef)
unfolding required
all_present [] = ok []
all_present (o ∷ os) = do
  s ← required "reader reconciliation evidence State is required" o
  ss ← all_present os
  ok (s ∷ ss)

array_of : String → Value → Result Items
array_of detail (arr xs) = ok xs
array_of detail _ = err (value_error detail)

abbrev reconciliation_keys : List String
reconciliation_keys =
    "evidence_states" ∷ "prior_progress_state" ∷ "prior_task" ∷ "reconciled_at"
    ∷ "reconciliation_id" ∷ "terminal_code" ∷ []

reconciliation_from : Value → Result ReaderReconciliation
unfolding array_of required evidence_from all_present
reconciliation_from (obj fs) = do
  raise_if (not (has_keys fs reconciliation_keys))
      (value_error "reader reconciliation fields are invalid")
  state ← state_of (Json.get fs "prior_progress_state")
  prior_progress ← required "reader reconciliation States are invalid" state
  evidence ← array_of "reader reconciliation States are invalid" (Json.get fs "evidence_states")
  parsed ← evidence_from evidence
  states ← all_present parsed
  task ← task_from (Json.get fs "prior_task")
  reader_reconciliation (Json.get fs "reconciliation_id") prior_progress task
      (Json.get fs "terminal_code") states (Json.get fs "reconciled_at")
reconciliation_from _ = err (value_error "reader reconciliation fields are invalid")

reconciliations_from : Items → Result (List ReaderReconciliation)
reconciliations_from nil = ok []
reconciliations_from (cons v vs) = do
  r ← reconciliation_from v
  rs ← reconciliations_from vs
  ok (r ∷ rs)

abbrev legacy_keys : List String
legacy_keys = "cursors" ∷ "environment_id" ∷ "format" ∷ "instance_id" ∷ "tasks" ∷ []

is_format : Value → Bool
is_format (str s) = s == "peoplebot.reader-progress.v0"
is_format _ = false

-- value.get("reconciliations", [])
reconciliations_of : Fields → Value
reconciliations_of fs =
    if member "reconciliations" (keys fs) then Json.get fs "reconciliations" else arr nil

abbrev Parts : Type 0
Parts = List SourceCursor × List TaskProgress × List ReaderReconciliation

-- `_progress` up to the constructor call.
progress_parts : Fields → Result Parts
unfolding cursors_from tasks_from reconciliations_from array_of is_format reconciliations_of
progress_parts fs = do
  raise_if (not (has_keys fs legacy_keys || has_keys fs ("reconciliations" ∷ legacy_keys)))
      (value_error "reader progress fields are invalid")
  raise_if (not (is_format (Json.get fs "format")))
      (value_error "reader progress format is invalid")
  cursors ← array_of "reader progress collections are invalid" (Json.get fs "cursors")
  tasks ← array_of "reader progress collections are invalid" (Json.get fs "tasks")
  parsed_cursors ← cursors_from cursors
  parsed_tasks ← tasks_from tasks
  reconciliations ← array_of "reader reconciliations must be an array" (reconciliations_of fs)
  parsed_reconciliations ← reconciliations_from reconciliations
  ok (parsed_cursors, parsed_tasks, parsed_reconciliations)

built_of : Fields → Parts → Result ReaderProgress
built_of fs (cursors, tasks, reconciliations) =
    reader_progress (Json.get fs "environment_id") (Json.get fs "instance_id") cursors tasks
      reconciliations

-- `_progress`
unfoldable pub progress_from : Value → Result ReaderProgress
unfolding cursor_from reconciliation_from progress_parts built_of
progress_from (obj fs) = do parts ← progress_parts fs; built_of fs parts
progress_from _ = err (value_error "reader progress fields are invalid")
