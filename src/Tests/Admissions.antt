-- ===== src/Tests/Admissions.antt =====
-- The theorems of Admission at concrete inputs.
use peoplebot_releases.Base.{
  ℕ, String, ◌≡◌, ◌↔◌, refl, arith, true, false, none, some, [], ◌∷◌, is_control, has_outer_space,
}
use peoplebot_releases.Base.Result.{ok, err, message_error, value_error}
use peoplebot_releases.Base.Exec.{Exec, raise, ◌>>=◌}
use peoplebot_releases.Host.{World, Host}
use peoplebot_releases.Admission.{
  ExecutionAdmission, holder, owns_admission, require_identity, resource_path,
  try_acquire_execution, run_with_admission,
}
use peoplebot_releases.Admission.Identity.{
  Bytes, utf8_code, utf8, four_bytes, framed, frames, resource_input,
}
use peoplebot_releases.Admission.Identity.Injective.{resource_input-injective}
use peoplebot_releases.Admission.Locks.{put}
use peoplebot_releases.Admission.Exclusion.{System, Reach, acquire, here, further, no_two_owners}
use peoplebot_releases.Admission.Runs.{
  CanLock, entered, contended_world, attempt_granted_iff, run_contended, run_granted,
}
use peoplebot_releases.Messaging.Owned.{append_owned_message}
use peoplebot_releases.Messaging.Owned.Laws.{append_owned_message-busy}
use peoplebot_releases.Json.{decimal}
use peoplebot_releases.Tests.Samples.{Script, scripted, world_of, store, task_message}

abbrev digest : Bytes → String
digest bytes = scripted.sha256 bytes

abbrev free_world : World Script
free_world = world_of []

can_lock : CanLock digest "/run" "env" "bob" "x-1" free_world
unfolding require_identity is_control has_outer_space
can_lock = record {
  environment = refl;
  instance_id = refl;
  execution = refl;
  windows = refl;
  absolute = refl;
  opens = refl;
  locks = refl;
  closes = refl;
  unlocks = refl;
}

free : holder (resource_path digest "/run" "env" "bob") free_world.os.held ≡ none
unfolding holder
free = refl

attempt_granted_iff_example :
    ((try_acquire_execution digest "/run" "env" "bob" "x-1" free_world).0
      ≡ ok (record {
        code = "admission.acquired";
        admission = some (record {
          environment_id = "env";
          instance_id = "bob";
          execution_id = "x-1";
          descriptor = some 3;
        });
      }))
    ↔ (holder (resource_path digest "/run" "env" "bob") free_world.os.held ≡ none)
attempt_granted_iff_example =
    attempt_granted_iff digest "/run" "env" "bob" "x-1" free_world can_lock

-- A task that raises: its lock is given back all the same.
abbrev failing : Exec (World Script) ℕ
failing = raise (value_error "boom")

failing_run :
    failing (entered digest "/run" "env" "bob" "x-1" free_world)
    ≡ (err (value_error "boom"), entered digest "/run" "env" "bob" "x-1" free_world)
unfolding raise
failing_run = refl

abbrev failed_world : World Script
failed_world = (run_with_admission digest "/run" "env" "bob" "x-1" failing free_world).1

run_granted_example :
    ((run_with_admission digest "/run" "env" "bob" "x-1" failing free_world).0
      ≡ err (value_error "boom"))
    × (holder (resource_path digest "/run" "env" "bob") failed_world.os.held ≡ none)
    × (failed_world.repo ≡ [])
run_granted_example =
    run_granted digest "/run" "env" "bob" "x-1" failing free_world (err (value_error "boom"))
      (entered digest "/run" "env" "bob" "x-1" free_world) can_lock free failing_run refl

abbrev busy_world : World Script
busy_world = record free_world {
  os = record free_world.os { held = (resource_path digest "/run" "env" "bob", 9) ∷ [] };
}

busy-CanLock : CanLock digest "/run" "env" "bob" "x-1" busy_world
unfolding require_identity is_control has_outer_space
busy-CanLock = record {
  environment = refl;
  instance_id = refl;
  execution = refl;
  windows = refl;
  absolute = refl;
  opens = refl;
  locks = refl;
  closes = refl;
  unlocks = refl;
}

taken : holder (resource_path digest "/run" "env" "bob") busy_world.os.held ≡ some 9
unfolding holder resource_path resource_input frames framed four_bytes utf8 utf8_code decimal
taken = refl

run_contended_example : run_with_admission digest "/run" "env" "bob" "x-1" failing busy_world ≡ (
  ok (record {
    task_started = false;
    rejection_code = some "instance.already_running";
    value = none;
  }),
  contended_world digest "/run" "env" "bob" "x-1" busy_world,
)
run_contended_example =
    run_contended digest "/run" "env" "bob" "x-1" failing busy_world 9 busy-CanLock taken

-- Two processes that try one after the other.
abbrev idle : ExecutionAdmission
idle = record {
  environment_id = "env";
  instance_id = "bob";
  execution_id = "x-0";
  descriptor = none;
}

abbrev quiet : System Script
quiet = record { world = free_world; live = λ p. idle }

abbrev first_in : System Script
first_in = record {
  world = entered digest "/run" "env" "bob" "x-1" free_world;
  live =
      put (λ p. idle) 0
        (record {
          environment_id = "env";
          instance_id = "bob";
          execution_id = "x-1";
          descriptor = some 3;
        });
}

first_attempt : try_acquire_execution digest "/run" "env" "bob" "x-1" quiet.world ≡ (
  ok (record {
    code = "admission.acquired";
    admission = some (record {
      environment_id = "env";
      instance_id = "bob";
      execution_id = "x-1";
      descriptor = some 3;
    });
  }),
  first_in.world,
)
unfolding try_acquire_execution require_identity ◌>>=◌ holder
first_attempt = refl

abbrev second_out : System Script
second_out = record {
  world = record first_in.world { os = record first_in.world.os { next = 5 } };
  live = put first_in.live 1 idle;
}

second_attempt :
    try_acquire_execution digest "/run" "env" "bob" "x-2" first_in.world
    ≡ (ok (record { code = "instance.already_running"; admission = none }), second_out.world)
unfolding try_acquire_execution require_identity ◌>>=◌ holder resource_path decimal resource_input
second_attempt = refl

two_attempts : Reach digest "/run" quiet second_out
unfolding owns_admission
two_attempts =
    further (further here (acquire 0 "env" "bob" "x-1" refl first_attempt))
      (acquire 1 "env" "bob" "x-2" refl second_attempt)

one_owns : owns_admission (second_out.live 0) ≡ true
unfolding owns_admission
one_owns = refl

no_two_owners_example : owns_admission (second_out.live 1) ≡ false
no_two_owners_example =
    no_two_owners digest "/run" {s = quiet} {t = second_out} (λ p. refl) two_attempts 0 1
      (λ h. absurd (omega (arith, h))) refl refl one_owns

identity_env : require_identity "env" "environment_id" ≡ ok tt
unfolding require_identity is_control has_outer_space
identity_env = refl

identity_bob : require_identity "bob" "instance_id" ≡ ok tt
unfolding require_identity is_control has_outer_space
identity_bob = refl

resource_input-injective_example : (◌≡◌ {A = String} "env" "env") × (◌≡◌ {A = String} "bob" "bob")
resource_input-injective_example =
    resource_input-injective "instance" "env" "bob" "env" "bob" identity_env identity_bob
      identity_env identity_bob refl

abbrev publishing_world : Host scripted
publishing_world = record free_world {
  os = record free_world.os {
    held = (resource_path digest "/run" "env" "message-publisher:env", 9) ∷ [];
  };
}

can_publish : CanLock digest "/run" "env" "message-publisher:env" "x-1" publishing_world
unfolding require_identity is_control has_outer_space
can_publish = record {
  environment = refl;
  instance_id = refl;
  execution = refl;
  windows = refl;
  absolute = refl;
  opens = refl;
  locks = refl;
  closes = refl;
  unlocks = refl;
}

publisher_taken :
    holder (resource_path digest "/run" "env" "message-publisher:env") publishing_world.os.held
    ≡ some 9
unfolding holder resource_path resource_input frames framed four_bytes utf8 utf8_code decimal
publisher_taken = refl

append_owned_message-busy_example :
    append_owned_message scripted "/run" "env" "x-1" store task_message publishing_world ≡ (
      err (message_error "message.publisher_busy" "environment publisher is already active"),
      contended_world digest "/run" "env" "message-publisher:env" "x-1" publishing_world,
    )
append_owned_message-busy_example =
    append_owned_message-busy scripted "/run" "env" "x-1" publishing_world 9 store task_message
      can_publish publisher_taken
