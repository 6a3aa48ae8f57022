-- ===== src/Tests/Busy.antt =====
-- A tick that finds the lock of its owner held.
use peoplebot_releases.Base.{
  ◌≡◌, ◌≢◌, arith, eq_iff, refl, none, some, [], ◌∷◌, is_alphanumeric, is_identifier_code,
  is_control, has_outer_space,
}
use peoplebot_releases.Base.Result.{Result, ok}
use peoplebot_releases.Json.{str, decimal}
use peoplebot_releases.State.{require_identity}
use peoplebot_releases.Admission
use peoplebot_releases.Admission.{holder, resource_path}
use peoplebot_releases.Admission.Identity.{
  utf8_code, utf8, four_bytes, framed, frames, resource_input,
}
use peoplebot_releases.Admission.Runs.{CanLock}
use peoplebot_releases.Host.{Host, read_file}
use peoplebot_releases.Messaging.Message.{identifier}
use peoplebot_releases.Messaging.Remote.{git_runner}
use peoplebot_releases.WorkCycle.Status.{CycleStatus, plain_status}
use peoplebot_releases.WorkCycle.Status.Laws.{content_of}
use peoplebot_releases.WorkCycle.Tick.{Cycle, git_ports}
use peoplebot_releases.WorkCycle.Tick.Run.Locks.{tick, run_work_cycle_tick-busy}
use peoplebot_releases.Tests.Samples.{scripted, world_of}
use peoplebot_releases.Tests.Cycle.{bob_bindings, review_policy, reviewers}

abbrev free_host : Host scripted
free_host = world_of []

abbrev busy_cycle : Cycle scripted
busy_cycle = record {
  host = record free_host {
    os = record free_host.os {
      held = (resource_path scripted.sha256 "/run" "bob" "work-cycle-owner:worker", 9) ∷ [];
    };
  };
  events = [];
}

owner-CanLock : CanLock scripted.sha256 "/run" "bob" "work-cycle-owner:worker" "x-1" busy_cycle.host
unfolding Admission.require_identity is_control has_outer_space
owner-CanLock = record {
  environment = refl;
  instance_id = refl;
  execution = refl;
  windows = refl;
  absolute = refl;
  opens = refl;
  locks = refl;
  closes = refl;
  unlocks = refl;
}

owner_taken :
    holder
      (resource_path scripted.sha256 "/run" "bob" "work-cycle-owner:worker")
      busy_cycle.host.os.held
    ≡ some 9
unfolding holder resource_path resource_input frames framed four_bytes utf8 utf8_code decimal
owner_taken = refl

tick_accepted : identifier (str "x-1") "execution_id" ≡ ok "x-1"
unfolding identifier require_identity is_control has_outer_space is_alphanumeric is_identifier_code
tick_accepted = refl

status_apart : busy_cycle.host.os.platform.temporary "/run/status.json" ≢ "/run/status.json"
status_apart =
    ground
      (arith, eq_iff (busy_cycle.host.os.platform.temporary "/run/status.json") "/run/status.json")

abbrev refused_tick : Result CycleStatus × Cycle scripted
refused_tick =
    tick scripted (git_runner scripted) bob_bindings review_policy (git_ports scripted reviewers)
      "x-1" "2026-01-02T03:04:05Z" "2026-01-02T03:04:06Z" none busy_cycle

abbrev busy_status : CycleStatus
busy_status = plain_status "x-1" "cycle.busy" "busy"

run_work_cycle_tick-busy_example :
    (refused_tick.1.host.repo ≡ [])
    × (refused_tick.1.host.os.held ≡ busy_cycle.host.os.held)
    × (refused_tick.1.events ≡ [])
    × ((s : CycleStatus)
        → refused_tick.0 ≡ ok s
        → (s ≡ busy_status)
          × (read_file "/run/status.json" refused_tick.1.host.files
              ≡ some (content_of busy_status)))
run_work_cycle_tick-busy_example =
    run_work_cycle_tick-busy scripted (git_runner scripted) bob_bindings review_policy
      (git_ports scripted reviewers) "x-1" "2026-01-02T03:04:05Z" "2026-01-02T03:04:06Z" none
      busy_cycle 9 tick_accepted owner-CanLock owner_taken status_apart
