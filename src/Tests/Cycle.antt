-- ===== src/Tests/Cycle.antt =====
-- The theorems of the tick and of the reconciliation at concrete inputs.
use peoplebot_releases.Base.{
  ◌≡◌, ◌≢◌, ◌⊎◌, refl, true, false, none, some, arith, eq_iff, [], ◌∷◌, is_alphanumeric,
  is_identifier_code, is_control, has_outer_space,
}
use peoplebot_releases.Base.Result.{Result, ok, err, os_error}
use peoplebot_releases.Base.Exec.{pure, catch, ◌>>=◌}
use peoplebot_releases.Base.Exec.Spec.{Spec}
use peoplebot_releases.Json.{stable_json_bytes, decimal}
use peoplebot_releases.State.{require_identity}
use peoplebot_releases.Execution.{require_text}
use peoplebot_releases.Execution.Timestamp.{utc_timestamp, earlier}
use peoplebot_releases.Admission
use peoplebot_releases.Admission.Identity.{utf8, utf8_code}
use peoplebot_releases.Admission.{holder, resource_path}
use peoplebot_releases.Admission.Runs.{CanLock}
use peoplebot_releases.Host.{External, Host, read_file}
use peoplebot_releases.Messaging.Message.{
  Message, message, reply, states_unique, message_bytes, identifier, validate_correlated_reply,
}
use peoplebot_releases.Messaging.Store.{PublishedMessage}
use peoplebot_releases.Messaging.Remote.{git_runner}
use peoplebot_releases.WorkCycle.Progress.{completed, unresolved, ReaderReconciliation}
use peoplebot_releases.WorkCycle.Policy.{TaskPolicy, TaskHandlerResult, plain_result}
use peoplebot_releases.WorkCycle.Bindings.{CycleBindings}
use peoplebot_releases.WorkCycle.Configuration.{load_cycle_bindings}
use peoplebot_releases.WorkCycle.Configuration.Laws.{AreBound, load_cycle_bindings-AreBound}
use peoplebot_releases.WorkCycle.Status.{
  CycleStatus, plain_status, cycle_status, diagnosed, persist_cycle_status, persist_terminal_status,
  status_dict,
}
use peoplebot_releases.WorkCycle.Status.Laws.{persist_terminal_status-eq-ok}
use peoplebot_releases.WorkCycle.Reconcile.{reconcile_reader_task}
use peoplebot_releases.Base.Exec.Runs.{Effect}
use peoplebot_releases.WorkCycle.Reconcile.Reconciled.{
  IsReconciled, reconcile_reader_task-IsReconciled,
}
use peoplebot_releases.WorkCycle.Tick.{Cycle, Handlers, git_ports, logged}
use peoplebot_releases.WorkCycle.Tick.Selection.{select_earliest, key_before}
use peoplebot_releases.WorkCycle.Tick.Selection.Laws.{IsEarliest, select_earliest-IsEarliest}
use peoplebot_releases.WorkCycle.Tick.Reply.{reply_to_request, reply_input}
use peoplebot_releases.WorkCycle.Tick.Reply.Laws.{reply_to_request-validate}
use peoplebot_releases.WorkCycle.Tick.Traces.{IsTrace}
use peoplebot_releases.WorkCycle.Tick.Triple.{Triple}
use peoplebot_releases.WorkCycle.Tick.Run.{acquire_instance, run_work_cycle_tick}
use peoplebot_releases.WorkCycle.Tick.Run.Laws.{run_work_cycle_tick-IsTrace}
use peoplebot_releases.WorkCycle.Tick.Run.Locks.{unavailable, acquire_instance-missing}
use peoplebot_releases.Tests.Samples.{
  commit_a, commit_b, state_a, task_message, scripted, world_of, destination, peer,
}

-- The cycle of bob, who reads the messages of alice.
abbrev pub bob_bindings : CycleBindings
bob_bindings = record {
  environment_id = "bob";
  instance_id = "worker";
  runtime_root = "/run";
  local_checkout = "/work/repo";
  local_repository = "repo";
  outbound_ref = "refs/heads/peoplebot/messages/v0/alice";
  destination = destination;
  sources = peer ∷ [];
  progress_ref = "refs/peoplebot/message-readers/v0/bob";
  status_path = "/run/status.json";
  stop_path = "/run/stop";
}

abbrev pub review_policy : TaskPolicy
review_policy = record {
  routes = record { purpose = "review"; handler = "reviewer" } ∷ [];
  maximum_completed_tasks = 4;
  allow_stop_messages = true;
}

abbrev reviewed : TaskHandlerResult
reviewed = plain_result completed "Reviewed."

abbrev pub reviewers : Handlers scripted
reviewers name = some (λ m. pure reviewed)

run_work_cycle_tick-IsTrace_example :
    Triple
      (λ es. es ≡ [])
      (λ _ es. IsTrace bob_bindings review_policy es)
      (λ _ es. IsTrace bob_bindings review_policy es)
      (run_work_cycle_tick scripted
        (git_runner scripted)
        bob_bindings
        review_policy
        (logged scripted reviewers)
        "x-1"
        "2026-01-02T03:04:05Z"
        "2026-01-02T03:04:06Z"
        none)
run_work_cycle_tick-IsTrace_example =
    run_work_cycle_tick-IsTrace scripted (git_runner scripted) bob_bindings review_policy reviewers
      "x-1" "2026-01-02T03:04:05Z" "2026-01-02T03:04:06Z" none

abbrev request : PublishedMessage
request = record {
  message = task_message;
  state = record { repository = "repo"; commit = commit_a; path = some "message.json" };
  ref_name = "refs/heads/peoplebot/messages/v0/alice";
}

abbrev earlier_request : PublishedMessage
earlier_request = record request {
  message = record task_message { message_id = "m-0"; created_at = "2026-01-01T03:04:05Z" };
}

earlier_selected : select_earliest (request ∷ earlier_request ∷ []) ≡ ok (some earlier_request)
unfolding select_earliest key_before utc_timestamp require_identity earlier
earlier_selected = refl

select_earliest-IsEarliest_example : IsEarliest (request ∷ earlier_request ∷ []) earlier_request
select_earliest-IsEarliest_example =
    select_earliest-IsEarliest (request ∷ earlier_request ∷ []) {p = earlier_request}
      earlier_selected

abbrev reconciliation : ReaderReconciliation
reconciliation = record {
  reconciliation_id = "r-1";
  prior_progress_state = record {
    repository = "repo";
    commit = commit_b;
    path = some "reader-progress.json";
  };
  prior_task = record {
    message_state = request.state;
    message_id = "m-1";
    task_id = "t-1";
    disposition = unresolved;
    reply_state = none;
    memory_state = none;
  };
  terminal_code = "task.failed";
  evidence_states = state_a ∷ [];
  reconciled_at = "2026-01-03T03:04:05Z";
}

reconcile_reader_task-IsReconciled_example :
    Effect
      (λ _. Unit)
      (λ w w'. IsReconciled scripted bob_bindings reconciliation "x-2" (pure tt) w.repo w'.repo)
      (reconcile_reader_task scripted bob_bindings reconciliation "x-2" (pure tt))
reconcile_reader_task-IsReconciled_example =
    reconcile_reader_task-IsReconciled scripted bob_bindings reconciliation "x-2" (pure tt)

abbrev bob_reply : Message
bob_reply = record {
  message_id = "reply-36";
  kind = reply;
  sender = "bob";
  recipient = "alice";
  task_id = "t-1";
  correlation_id = "c-1";
  purpose = "review.result";
  content = "Reviewed.";
  created_at = "2026-01-02T03:04:06Z";
  reply_to = some "m-1";
  states = [];
}

reply_built :
    reply_to_request scripted.sha256 bob_bindings request reviewed "2026-01-02T03:04:06Z" none
    ≡ ok bob_reply
unfolding reply_to_request reply_input utf8 utf8_code decimal message identifier require_identity
    utc_timestamp is_alphanumeric is_identifier_code is_control has_outer_space states_unique
    message_bytes stable_json_bytes
reply_built = refl

reply_to_request-validate_example : validate_correlated_reply bob_reply task_message ≡ ok tt
reply_to_request-validate_example =
    reply_to_request-validate scripted.sha256 bob_bindings request reviewed "2026-01-02T03:04:06Z"
      none reply_built refl refl

load_cycle_bindings-AreBound_example :
    Spec
      (λ _. Unit)
      (AreBound scripted.sha256)
      (load_cycle_bindings scripted (λ url. some false) "/run/cycle.json")
load_cycle_bindings-AreBound_example =
    load_cycle_bindings-AreBound scripted (λ url. some false) "/run/cycle.json"

-- A Git whose checkouts are all missing.
abbrev no_checkout : External
no_checkout = record scripted { is_dir = λ checkout r. false }

abbrev fresh_cycle : Cycle no_checkout
fresh_cycle = record { host = world_of []; events = [] }

worker-CanLock : CanLock no_checkout.sha256 "/run" "bob" "worker" "x-1" fresh_cycle.host
unfolding Admission.require_identity
worker-CanLock = record {
  environment = refl;
  instance_id = refl;
  execution = refl;
  windows = refl;
  absolute = refl;
  opens = refl;
  locks = refl;
  closes = refl;
  unlocks = refl;
}

worker_free :
    holder (resource_path no_checkout.sha256 "/run" "bob" "worker") fresh_cycle.host.os.held ≡ none
unfolding holder
worker_free = refl

text_accepted : require_text "repo" "repository" ≡ ok "repo"
unfolding require_text require_identity
text_accepted = refl

abbrev leak : Result CycleStatus × Cycle no_checkout
leak =
    acquire_instance no_checkout (git_runner no_checkout) bob_bindings review_policy
      (git_ports no_checkout (λ name. none)) "x-1" "2026-01-02T03:04:05Z" "2026-01-02T03:04:06Z"
      none fresh_cycle

acquire_instance-missing_example :
    (leak.0 ≡ err unavailable)
    × (holder (resource_path no_checkout.sha256 "/run" "bob" "worker") leak.1.host.os.held ≡ some 3)
acquire_instance-missing_example =
    acquire_instance-missing no_checkout (git_runner no_checkout) bob_bindings review_policy
      (git_ports no_checkout (λ name. none)) "x-1" "2026-01-02T03:04:05Z" "2026-01-02T03:04:06Z"
      none fresh_cycle worker-CanLock worker_free refl text_accepted refl

abbrev empty_world : Host scripted
empty_world = world_of []

-- A disk that is full: the temporary file cannot be written.
abbrev full_disk : Host scripted
full_disk = record empty_world {
  os = record empty_world.os {
    platform = record empty_world.os.platform { write_fails = λ p. true };
  };
}

abbrev done_status : CycleStatus
done_status = plain_status "x-1" "cycle.completed" "completed"

persisted :
    (persist_terminal_status "/run/status.json" done_status full_disk).0
    ≡ ok (diagnosed done_status)
unfolding persist_terminal_status persist_cycle_status cycle_status identifier require_identity
    is_alphanumeric is_identifier_code is_control has_outer_space catch ◌>>=◌ read_file diagnosed
persisted = refl

apart : full_disk.os.platform.temporary "/run/status.json" ≢ "/run/status.json"
apart =
    ground (arith, eq_iff (full_disk.os.platform.temporary "/run/status.json") "/run/status.json")

persist_terminal_status-eq-ok_example :
    ((diagnosed done_status ≡ done_status)
      × (read_file "/run/status.json"
            (persist_terminal_status "/run/status.json" done_status full_disk).1.files
          ≡ some (stable_json_bytes (status_dict done_status))))
    ⊎ ((diagnosed done_status ≡ diagnosed done_status)
        × ((persist_cycle_status "/run/status.json" done_status full_disk).0 ≡ err os_error))
persist_terminal_status-eq-ok_example =
    persist_terminal_status-eq-ok "/run/status.json" done_status (diagnosed done_status) full_disk
      apart persisted
