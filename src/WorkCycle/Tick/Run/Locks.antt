-- ===== src/WorkCycle/Tick/Run/Locks.antt =====
-- The locks of a tick: while another owner holds them, and when the checkout is missing.
use peoplebot_releases.Base.{
  ℕ, String, ◌<>◌, ◌≡◌, ◌≢◌, refl, ap, true, false, Option, none, some, arith, starts_with, eq_refl,
}
use peoplebot_releases.Base.Result.{Error, Result, ok, err, provenance_error}
use peoplebot_releases.Base.Exec.{pure, lift, continue, ◌>>=◌}
use peoplebot_releases.Json.{str}
use peoplebot_releases.Admission.{holder, resource_path}
use peoplebot_releases.Admission.Runs.{
  CanLock, entered, contended_world, granted_attempt, busy_attempt,
}
use peoplebot_releases.Host.{External, Host, checkout_exists, read_file}
use peoplebot_releases.Execution.{require_text}
use peoplebot_releases.Provenance.Plumbing.{attempt_store}
use peoplebot_releases.Messaging.Message.{identifier}
use peoplebot_releases.Messaging.Remote.{GitRunner}
use peoplebot_releases.WorkCycle.Store.{progress_store}
use peoplebot_releases.WorkCycle.Policy.{TaskPolicy}
use peoplebot_releases.WorkCycle.Bindings.{CycleBindings}
use peoplebot_releases.WorkCycle.Status.{
  CycleStatus, plain_status, cycle_status, persist_cycle_status,
}
use peoplebot_releases.WorkCycle.Status.Laws.{
  content_of, cycle_status-eq-ok, persist_cycle_status-kept, persist_cycle_status-IsReplaced,
}
use peoplebot_releases.WorkCycle.Tick.{Cycle, Ports, MemoryCheckpoint, on_host}
use peoplebot_releases.WorkCycle.Tick.Claim.{report}
use peoplebot_releases.WorkCycle.Tick.Run.{
  admitted_tick, acquire_instance, under_tick_owner, run_work_cycle_tick,
}

abbrev pub unavailable : Error
unavailable = provenance_error "repository.unavailable" "checkout directory does not exist"

progress_store-missing :
    (X : External) (checkout repository ref_name : String) (w : Host X)
    → starts_with ref_name "refs/peoplebot/message-readers/v0/" ≡ true
    → require_text repository "repository" ≡ ok repository
    → X.is_dir checkout w.repo ≡ false
    → progress_store X checkout repository ref_name w ≡ (err unavailable, w)
unfolding progress_store attempt_store ◌>>=◌ checkout_exists
progress_store-missing X checkout repository ref_name w h k m = ground (arith, h, k, m)

module _ (X : External) (runner : GitRunner X) (bindings : CycleBindings) (policy : TaskPolicy)
    (ports : Ports X) (execution_id started_at finished_at : String)
    (checkpoint : Option (MemoryCheckpoint X)) where
  -- The lock of the logical owner of the ticks.
  abbrev pub owner : String
  owner = "work-cycle-owner:" <> bindings.instance_id

  abbrev pub busy : CycleStatus
  busy = plain_status execution_id "cycle.busy" "busy"

  abbrev pub tick : Cycle X → Result CycleStatus × Cycle X
  tick c =
      run_work_cycle_tick X runner bindings policy ports execution_id started_at finished_at
        checkpoint c

  -- Nothing but files is changed, and a status that is returned is `s`, whole in its file.
  abbrev IsReported : CycleStatus → Cycle X → Result CycleStatus × Cycle X → Type 0
  IsReported s c (r, c') =
      (c'.host.repo ≡ c.host.repo)
      × (c'.host.os ≡ c.host.os)
      × (c'.events ≡ c.events)
      × ((t : CycleStatus)
          → r ≡ ok t
          → (t ≡ s) × (read_file bindings.status_path c'.host.files ≡ some (content_of s)))

  persisted-IsReported :
      (s : CycleStatus) (c : Cycle X) (p : Result (Unit {0}) × Host X)
      → p.1.repo ≡ c.host.repo
      → p.1.os ≡ c.host.os
      → (p.0 ≡ ok tt → read_file bindings.status_path p.1.files ≡ some (content_of s))
      → IsReported s c (continue p.0 (λ _. pure s) (record c { host = p.1 }))
  unfolding pure
  persisted-IsReported s c (ok u, w) repo os file = (repo, os, refl, λ t h. (cc h, file refl))
  persisted-IsReported s c (err e, w) repo os file = (repo, os, refl, λ t h. absurd (cc h))

  checked-IsReported :
      (s : CycleStatus) (c : Cycle X) (r : Result CycleStatus)
      → ((t : CycleStatus) → r ≡ ok t → t ≡ s)
      → c.host.os.platform.temporary bindings.status_path ≢ bindings.status_path
      → IsReported s c (
          continue r (λ t. on_host (persist_cycle_status bindings.status_path t) >>= λ _. pure t) c)
  unfolding ◌>>=◌ on_host
  checked-IsReported s c (err e) same apart = (refl, refl, refl, λ t h. absurd (cc h))
  checked-IsReported s c (ok u) same apart =
      let (repo, os) = persist_cycle_status-kept bindings.status_path s c.host in
      rw (same u refl) (
        persisted-IsReported s c (persist_cycle_status bindings.status_path s c.host) repo os
          (persist_cycle_status-IsReplaced bindings.status_path s c.host apart).1)

  report-IsReported :
      (s : CycleStatus) (c : Cycle X)
      → c.host.os.platform.temporary bindings.status_path ≢ bindings.status_path
      → IsReported s c (report X bindings s c)
  unfolding report ◌>>=◌ lift
  report-IsReported s c apart =
      checked-IsReported s c (cycle_status s) (λ t h. cycle_status-eq-ok s h) apart

  -- While another tick holds the lock of the owner, a tick changes no repository and no lock, calls no
  -- handler and saves no progress; the status that it returns says that it is busy, and is whole in the
  -- status file, where the temporary file is another one and calls of the platform for locks succeed.
  pub run_work_cycle_tick-busy :
      (c : Cycle X) (d : ℕ)
      → identifier (str execution_id) "execution_id" ≡ ok execution_id
      → CanLock X.sha256 bindings.runtime_root bindings.environment_id owner execution_id c.host
      → holder
          (resource_path X.sha256 bindings.runtime_root bindings.environment_id owner)
          c.host.os.held
        ≡ some d
      → c.host.os.platform.temporary bindings.status_path ≢ bindings.status_path
      → ((tick c).1.host.repo ≡ c.host.repo)
        × ((tick c).1.host.os.held ≡ c.host.os.held)
        × ((tick c).1.events ≡ c.events)
        × ((s : CycleStatus)
            → (tick c).0 ≡ ok s
            → (s ≡ busy)
              × (read_file bindings.status_path (tick c).1.host.files ≡ some (content_of busy)))
  unfolding run_work_cycle_tick under_tick_owner ◌>>=◌ on_host lift
  run_work_cycle_tick-busy c d valid can held apart =
      rw
        (
          valid,
          busy_attempt X.sha256 bindings.runtime_root bindings.environment_id owner execution_id
              c.host d can held,
        )
        (let (repo, os, events, file) =
            report-IsReported busy
              (record c {
                host =
                    contended_world X.sha256 bindings.runtime_root bindings.environment_id owner
                      execution_id c.host;
              })
              apart in
          (repo, ap (λ o. o.held) os, events, file))

  abbrev instance_resource : String
  instance_resource =
      resource_path X.sha256 bindings.runtime_root bindings.environment_id bindings.instance_id

  -- Where the Instance is free and its checkout is missing, a tick that acquires the Instance raises,
  -- and leaves the lock of the Instance held: no later attempt is granted while the process lives.
  pub acquire_instance-missing :
      (c : Cycle X)
      → CanLock X.sha256 bindings.runtime_root bindings.environment_id bindings.instance_id
          execution_id c.host
      → holder instance_resource c.host.os.held ≡ none
      → starts_with bindings.progress_ref "refs/peoplebot/message-readers/v0/" ≡ true
      → require_text bindings.local_repository "repository" ≡ ok bindings.local_repository
      → X.is_dir bindings.local_checkout c.host.repo ≡ false
      → let (r, c') =
          acquire_instance X runner bindings policy ports execution_id started_at finished_at
            checkpoint c in
        (r ≡ err unavailable) × (holder instance_resource c'.host.os.held ≡ some c.host.os.next)
  unfolding acquire_instance admitted_tick ◌>>=◌ on_host holder
  acquire_instance-missing c can free valid text missing =
      let inside =
        entered X.sha256 bindings.runtime_root bindings.environment_id bindings.instance_id
          execution_id c.host in
      let raises =
        progress_store-missing X bindings.local_checkout bindings.local_repository
          bindings.progress_ref inside valid text missing in
      rw
        (
          granted_attempt X.sha256 bindings.runtime_root bindings.environment_id
              bindings.instance_id execution_id c.host can free,
          raises,
        )
        (refl, ground (arith, eq_refl instance_resource))
