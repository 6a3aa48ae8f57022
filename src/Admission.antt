-- ===== src/Admission.antt =====
-- peoplebot/admission.py: one Execution at a time for an Instance of an environment, by a lock of
-- the operating system. The digest is a parameter; `Identity` has what it is taken of, `Exclusion`
-- the theorems.
pub mod Identity
pub mod Locks
pub mod Exclusion
pub mod Runs
pub mod Frame
use peoplebot_releases.Base.{
  ℕ, suc, String, ◌<>◌, Bool, true, false, not, ◌||◌, Option, none, some, List, [], ◌∷◌, ltb, eqb,
  ◌==◌, length, any, codes, has_outer_space, is_control, is_some, keep, if◌then◌else◌,
}
use peoplebot_releases.Base.Result.{Error, Result, ok, err, value_error, admission_error, raise_if}
use peoplebot_releases.Base.Result
use peoplebot_releases.Base.Exec.{Exec, pure, raise, lift, gets, finally, raise_when, ◌>>=◌, ◌>>◌}
use peoplebot_releases.Host.{World, Os}
use Identity.{Bytes, resource_input}

-- `_require_identity` of a text
unfoldable pub require_identity : String → String → Result (Unit {0})
unfolding has_outer_space is_control
require_identity value label =
    Result.◌>>◌
      (raise_if (value == "" || has_outer_space value)
        (value_error (label <> " must be non-empty and have no surrounding whitespace")))
      (Result.◌>>◌
        (raise_if (ltb 256 (length (codes value)))
          (value_error (label <> " must contain at most 256 characters")))
        (raise_if (any is_control (codes value))
          (value_error (label <> " must not contain control characters"))))

-- ExecutionAdmission: the descriptor is None once the handle owns nothing.
pub record ExecutionAdmission : Type 0 where
  pub environment_id : String
  pub instance_id : String
  pub execution_id : String
  pub descriptor : Option ℕ

-- ExecutionAdmission.owns_admission
unfoldable pub owns_admission : ExecutionAdmission → Bool
owns_admission h = is_some h.descriptor

pub record AdmissionRelease : Type 0 where
  pub code : String
  pub released : Bool

pub record AdmissionAttempt : Type 0 where
  pub code : String
  pub admission : Option ExecutionAdmission

-- AdmissionAttempt.acquired
abbrev pub acquired : AdmissionAttempt → Bool
acquired a = is_some a.admission

pub record AdmissionRunResult (T : Type 0) : Type 0 where
  pub task_started : Bool
  pub rejection_code : Option String
  pub value : Option T

abbrev pub Held : Type 0
Held = List (String × ℕ)

-- The descriptor that owns a resource.
unfoldable pub holder : String → Held → Option ℕ
holder r [] = none
holder r ((q, d) ∷ held) = if q == r then some d else holder r held

-- LK_UNLCK: the locks that the descriptor owns are gone.
unfoldable pub unlock : ℕ → Held → Held
unlock d = keep (λ (_, e). not (eqb e d))

-- What `locking(descriptor, LK_NBLCK, 1)` does: it locks, or raises OSError for contention or not.
pub data LockOutcome : Type 0 where
  locked contended refused : LockOutcome

abbrev not_closed : Error
not_closed =
    admission_error "admission.lock_unavailable"
      "the failed contender's descriptor could not be closed cleanly"

module _ {R : Type 0} where
  hold : String → ℕ → World R → World R
  hold r d w = record w { os = record w.os { held = (r, d) ∷ w.os.held } }

  -- A lock that another descriptor owns is contention.
  abbrev contend : Option ℕ → String → ℕ → World R → LockOutcome × World R
  contend none r d w = (locked, hold r d w)
  contend (some _) r d w = (contended, w)

  try_lock : String → ℕ → Exec (World R) LockOutcome
  unfolding hold
  try_lock r d w =
      let (outcome, w') = contend (holder r w.os.held) r d w in
      if w.os.platform.lock_fails r then (ok refused, w) else (ok outcome, w')

  -- os.close
  close : ℕ → Error → Exec (World R) (Unit {0})
  close d e = do fails ← gets (λ w. w.os.platform.close_fails d); raise_when fails e

  -- `_open_resource`: a new descriptor
  next_descriptor : Exec (World R) ℕ
  next_descriptor w = (ok w.os.next, record w { os = record w.os { next = suc w.os.next } })

  open_resource : String → Exec (World R) ℕ
  unfolding next_descriptor
  open_resource path = do
    fails ← gets (λ w. w.os.platform.open_fails path)
    raise_when fails (
        admission_error "admission.runtime_unavailable"
          "the configured runtime lock resource could not be prepared")
    next_descriptor

  -- `_locking_primitive`
  locking_primitive : Exec (World R) (Unit {0})
  locking_primitive = do
    windows ← gets (λ w. w.os.platform.windows)
    raise_when (not windows) (
        admission_error "admission.unsupported"
          "instance admission v0 requires Windows msvcrt byte-range locking")

  -- The end of `try_acquire_execution`: a contender closes its descriptor.
  after_lock : String → String → String → ℕ → LockOutcome → Exec (World R) AdmissionAttempt
  after_lock environment_id instance_id execution_id d locked = pure (record {
    code = "admission.acquired";
    admission = some (record {
      environment_id = environment_id;
      instance_id = instance_id;
      execution_id = execution_id;
      descriptor = some d;
    });
  })
  after_lock environment_id instance_id execution_id d contended = do
    close d not_closed
    pure (record { code = "instance.already_running"; admission = none })
  after_lock environment_id instance_id execution_id d refused = do
    close d not_closed
    raise (
        admission_error "admission.lock_unavailable"
          "the operating-system lock attempt failed for an unexpected reason")

  -- os.lseek and LK_UNLCK, then os.close. A failed unlock leaves the handle as it was; a failed
  -- close leaves it with no descriptor.
  release_descriptor :
      ExecutionAdmission → ℕ → World R → (Result AdmissionRelease × ExecutionAdmission) × World R
  release_descriptor h d w =
      let unlocked = record w { os = record w.os { held = unlock d w.os.held } } in
      let gone = record h { descriptor = none } in
      if w.os.platform.unlock_fails d
      then (
        (
          err (
              admission_error "admission.release_failed"
                "the owning descriptor could not establish operating-system unlock"),
          h,
        ),
        w,
      )
      else if w.os.platform.close_fails d
      then (
        (
          err (
              admission_error "admission.release_failed"
                "the unlocked descriptor could not be closed cleanly"),
          gone,
        ),
        unlocked,
      )
      else ((ok (record { code = "admission.released"; released = true }), gone), unlocked)

  -- ExecutionAdmission.release: the result, the handle as it is left, and the world.
  unfoldable pub release :
      ExecutionAdmission → World R → (Result AdmissionRelease × ExecutionAdmission) × World R
  unfolding release_descriptor
  release h w = elim h.descriptor [
    | none ↦ ((ok (record { code = "admission.not_owner"; released = false }), h), w)
    | some d ↦ release_descriptor h d w
  ]

  -- `release` of a handle that nobody keeps.
  unfoldable pub release_local : ExecutionAdmission → Exec (World R) (Unit {0})
  release_local h w = let ((r, _), w') = release h w in (Result.◌>>◌ r (ok tt), w')

module _ (sha256 : Bytes → String) where
  -- `_resource_path`
  unfoldable pub resource_path : String → String → String → String
  resource_path runtime_root environment_id instance_id =
      runtime_root
      <> "/instance-admission-v0/environment-"
      <> sha256 (resource_input "environment" (environment_id ∷ []))
      <> "/instance-"
      <> sha256 (resource_input "instance" (environment_id ∷ instance_id ∷ []))
      <> ".lock"

module _ (sha256 : Bytes → String) {R : Type 0} where
  unfoldable pub try_acquire_execution :
      String → String → String → String → Exec (World R) AdmissionAttempt
  unfolding locking_primitive open_resource try_lock after_lock close
  try_acquire_execution runtime_root environment_id instance_id execution_id = do
    lift (require_identity environment_id "environment_id")
    lift (require_identity instance_id "instance_id")
    lift (require_identity execution_id "execution_id")
    locking_primitive
    absolute ← gets (λ w. w.os.platform.is_absolute runtime_root)
    raise_when (not absolute) (
        admission_error "admission.runtime_unavailable"
          "the configured runtime root must be an absolute path")
    let resource = resource_path sha256 runtime_root environment_id instance_id
    descriptor ← open_resource resource
    outcome ← try_lock resource descriptor
    after_lock environment_id instance_id execution_id descriptor outcome

  -- What `run_with_admission` does with an attempt: the task runs under the admission alone.
  run_admitted :
      {T : Type 0} → AdmissionAttempt → Exec (World R) T → Exec (World R) (AdmissionRunResult T)
  run_admitted a task = elim a.admission [
    | none ↦ pure (record { task_started = false; rejection_code = some a.code; value = none })
    | some admission ↦ do
      value ← finally task (release_local admission)
      pure (record { task_started = true; rejection_code = none; value = some value })
  ]

  unfoldable pub run_with_admission :
      {T : Type 0}
      → String
      → String
      → String
      → String
      → Exec (World R) T
      → Exec (World R) (AdmissionRunResult T)
  unfolding try_acquire_execution run_admitted release_local
  run_with_admission runtime_root environment_id instance_id execution_id task = do
    attempt ← try_acquire_execution runtime_root environment_id instance_id execution_id
    run_admitted attempt task
