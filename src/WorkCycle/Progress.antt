-- ===== src/WorkCycle/Progress.antt =====
-- SourceCursor, TaskProgress, ReaderReconciliation and ReaderProgress of peoplebot/work_cycle.py,
-- with their constructors. `_identifier` of that file is the one of peoplebot/messaging.py.
pub mod Parse
use peoplebot_releases.Base.{
  String, Bool, true, false, not, ◌&&◌, ◌||◌, Option, none, some, List, [], ◌∷◌, length, any, ltb,
  eqb, is_object_id, ◌==◌,
}
use peoplebot_releases.Base.Result.{Result, ok, err, value_error, type_error, raise_if, ◌>>=◌, ◌>>◌}
use peoplebot_releases.Json.{Value, null, str, obj, arr, field, end, items, stable_json_bytes}
use peoplebot_releases.State.{StateRef, require_identity, state_dict}
use peoplebot_releases.Execution.Timestamp.{utc_timestamp}
use peoplebot_releases.Messaging.Message.{identifier, states_unique}

pub data TaskDisposition : Type 0 where
  claimed completed failed unresolved stopped : TaskDisposition

-- The value of the enum's member.
abbrev pub disposition_text : TaskDisposition → String
disposition_text claimed = "claimed"
disposition_text completed = "completed"
disposition_text failed = "failed"
disposition_text unresolved = "unresolved"
disposition_text stopped = "stopped"

abbrev pub is_unresolved : TaskDisposition → Bool
is_unresolved unresolved = true
is_unresolved _ = false

pub record SourceCursor : Type 0 where
  pub repository : String
  pub ref_name : String
  pub commit : String

-- _OBJECT_ID.fullmatch of what need not be a text: TypeError
cursor_commit : Value → Result String
cursor_commit (str s) = do
  raise_if (not (is_object_id s)) (value_error "cursor commit must be a full object ID")
  ok s
cursor_commit _ = err (type_error "expected string or bytes-like object")

-- SourceCursor(repository, ref_name, commit)
unfoldable pub source_cursor : Value → Value → Value → Result SourceCursor
unfolding cursor_commit
source_cursor repository ref_name commit = do
  r ← require_identity repository "cursor repository"
  n ← require_identity ref_name "cursor ref"
  c ← cursor_commit commit
  ok (record { repository = r; ref_name = n; commit = c })

pub record TaskProgress : Type 0 where
  pub message_state : StateRef
  pub message_id : String
  pub task_id : String
  pub disposition : TaskDisposition
  pub reply_state : Option StateRef
  pub memory_state : Option StateRef

-- state.path == name
unfoldable pub selects : String → StateRef → Bool
selects name s = elim s.path [ none ↦ false | some p ↦ p == name ]

-- TaskProgress(message_state, message_id, task_id, disposition, reply_state, memory_state)
unfoldable pub task_progress :
    StateRef
    → Value
    → Value
    → TaskDisposition
    → Option StateRef
    → Option StateRef
    → Result TaskProgress
task_progress message_state message_id task_id disposition reply_state memory_state = do
  m ← identifier message_id "message_id"
  t ← identifier task_id "task_id"
  raise_if (not (selects "message.json" message_state))
      (value_error "message_state must select message.json")
  ok (record {
    message_state = message_state;
    message_id = m;
    task_id = t;
    disposition = disposition;
    reply_state = reply_state;
    memory_state = memory_state;
  })

pub record ReaderReconciliation : Type 0 where
  pub reconciliation_id : String
  pub prior_progress_state : StateRef
  pub prior_task : TaskProgress
  pub terminal_code : String
  pub evidence_states : List StateRef
  pub reconciled_at : String

text_of : Value → String
text_of (str s) = s
text_of _ = ""

-- ReaderReconciliation(...); a time that is accepted is a text.
unfoldable pub reader_reconciliation :
    Value → StateRef → TaskProgress → Value → List StateRef → Value → Result ReaderReconciliation
unfolding text_of
reader_reconciliation reconciliation_id prior_state prior_task terminal_code evidence
      reconciled_at =
    do
      i ← identifier reconciliation_id "reconciliation_id"
      raise_if (not (selects "reader-progress.json" prior_state))
          (value_error "prior_progress_state must select reader-progress.json")
      raise_if (not (is_unresolved prior_task.disposition))
          (value_error "only a known unresolved task can be reconciled")
      c ← identifier terminal_code "terminal_code"
      raise_if (eqb (length evidence) 0 || ltb 8 (length evidence))
          (value_error "reconciliation requires one to eight evidence States")
      raise_if (not (states_unique evidence))
          (value_error "reconciliation evidence States must be unique")
      utc_timestamp reconciled_at "reconciled_at"
      ok (record {
        reconciliation_id = i;
        prior_progress_state = prior_state;
        prior_task = prior_task;
        terminal_code = c;
        evidence_states = evidence;
        reconciled_at = text_of reconciled_at;
      })

pub record ReaderProgress : Type 0 where
  pub environment_id : String
  pub instance_id : String
  pub cursors : List SourceCursor
  pub tasks : List TaskProgress
  pub reconciliations : List ReaderReconciliation

-- len({key(item) for item in items}) == len(items), for keys that `same` compares.
unfoldable pub all_differ {ℓ} : {A : Type ℓ} → (A → A → Bool) → List A → Bool
all_differ same [] = true
all_differ same (x ∷ xs) = not (any (same x) xs) && all_differ same xs

unfoldable pub same_source : SourceCursor → SourceCursor → Bool
same_source a b = a.repository == b.repository && a.ref_name == b.ref_name

unfoldable pub same_message : TaskProgress → TaskProgress → Bool
same_message a b = a.message_id == b.message_id

unfoldable pub same_reconciliation : ReaderReconciliation → ReaderReconciliation → Bool
same_reconciliation a b = a.reconciliation_id == b.reconciliation_id

-- The tests of ReaderProgress(...) on its tuples.
unfoldable pub check_progress : ReaderProgress → Result ReaderProgress
check_progress p = do
  raise_if (ltb 8 (length p.cursors)) (value_error "reader progress exceeds eight sources")
  raise_if (ltb 256 (length p.tasks)) (value_error "reader progress exceeds 256 tasks")
  raise_if (not (all_differ same_source p.cursors)) (value_error "reader cursors must be unique")
  raise_if (not (all_differ same_message p.tasks))
      (value_error "reader task messages must be unique")
  raise_if (ltb 256 (length p.reconciliations))
      (value_error "reader progress exceeds 256 reconciliations")
  raise_if (not (all_differ same_reconciliation p.reconciliations))
      (value_error "reader reconciliations must be unique")
  ok p

-- ReaderProgress(environment_id, instance_id, cursors, tasks, reconciliations)
unfoldable pub reader_progress :
    Value
    → Value
    → List SourceCursor
    → List TaskProgress
    → List ReaderReconciliation
    → Result ReaderProgress
unfolding check_progress
reader_progress environment_id instance_id cursors tasks reconciliations = do
  e ← identifier environment_id "environment_id"
  i ← identifier instance_id "instance_id"
  check_progress (record {
    environment_id = e;
    instance_id = i;
    cursors = cursors;
    tasks = tasks;
    reconciliations = reconciliations;
  })

abbrev pub optional_state : Option StateRef → Value
optional_state none = null
optional_state (some s) = obj (state_dict s)

-- SourceCursor.to_dict
unfoldable pub cursor_dict : SourceCursor → Value
cursor_dict c = obj (
    field "commit" (str c.commit)
      (field "ref_name" (str c.ref_name) (field "repository" (str c.repository) end)))

-- TaskProgress.to_dict
unfoldable pub task_dict : TaskProgress → Value
task_dict t = obj (
    field "disposition" (str (disposition_text t.disposition)) (
      field "memory_state" (optional_state t.memory_state) (
        field "message_id" (str t.message_id) (
          field "message_state" (obj (state_dict t.message_state)) (
            field "reply_state" (optional_state t.reply_state)
              (field "task_id" (str t.task_id) end))))))

-- ReaderReconciliation.to_dict
unfoldable pub reconciliation_dict : ReaderReconciliation → Value
reconciliation_dict r = obj (
    field "evidence_states" (arr (items (λ s. obj (state_dict s)) r.evidence_states)) (
      field "prior_progress_state" (obj (state_dict r.prior_progress_state)) (
        field "prior_task" (task_dict r.prior_task) (
          field "reconciled_at" (str r.reconciled_at) (
            field "reconciliation_id" (str r.reconciliation_id)
              (field "terminal_code" (str r.terminal_code) end))))))

-- ReaderProgress.to_dict
unfoldable pub progress_dict : ReaderProgress → Value
progress_dict p = obj (
    field "cursors" (arr (items cursor_dict p.cursors)) (
      field "environment_id" (str p.environment_id) (
        field "format" (str "peoplebot.reader-progress.v0") (
          field "instance_id" (str p.instance_id) (
            field "reconciliations" (arr (items reconciliation_dict p.reconciliations))
              (field "tasks" (arr (items task_dict p.tasks)) end))))))

-- ReaderProgress.to_json_bytes
unfoldable pub progress_bytes : ReaderProgress → String
progress_bytes p = stable_json_bytes (progress_dict p)
