-- ===== src/Admission/Runs.antt =====
-- When an attempt is granted, and what `run_with_admission` does around its task.
use peoplebot_releases.Base.{
  ℕ, suc, String, ◌≡◌, ◌↔◌, inl, inr, Option-cases, refl, true, false, none, some, [], ◌∷◌, arith,
}
use peoplebot_releases.Base.Result.{Result, ok, err}
use peoplebot_releases.Base.Exec.{Exec, ◌>>=◌}
use peoplebot_releases.Host.{World}
use peoplebot_releases.Admission.{
  ExecutionAdmission, AdmissionRunResult, Held, holder, unlock, release, release_local,
  resource_path, try_acquire_execution, run_with_admission, require_identity,
}
use peoplebot_releases.Admission.Identity.{Bytes}

holder-unlock-none :
    (r : String) (d : ℕ) (held : Held) → holder r held ≡ none → holder r (unlock d held) ≡ none
unfolding holder unlock
holder-unlock-none r d [] h = refl
holder-unlock-none r d ((q, e) ∷ held) h = ground (arith, holder-unlock-none r d held)

module _ (sha256 : Bytes → String) {R : Type 0} (root e i x : String) where
  -- The identities are valid and no call of the platform fails.
  pub record CanLock (w : World R) : Type 0 where
    pub environment : require_identity e "environment_id" ≡ ok tt
    pub instance_id : require_identity i "instance_id" ≡ ok tt
    pub execution : require_identity x "execution_id" ≡ ok tt
    pub windows : w.os.platform.windows ≡ true
    pub absolute : w.os.platform.is_absolute root ≡ true
    pub opens : w.os.platform.open_fails (resource_path sha256 root e i) ≡ false
    pub locks : w.os.platform.lock_fails (resource_path sha256 root e i) ≡ false
    pub closes : w.os.platform.close_fails w.os.next ≡ false
    pub unlocks : w.os.platform.unlock_fails w.os.next ≡ false

  abbrev pub handle : World R → ExecutionAdmission
  handle w = record {
    environment_id = e;
    instance_id = i;
    execution_id = x;
    descriptor = some w.os.next;
  }

  -- The world after a granted attempt.
  abbrev pub entered : World R → World R
  entered w = record w {
    os = record w.os {
      held = (resource_path sha256 root e i, w.os.next) ∷ w.os.held;
      next = suc w.os.next;
    };
  }

  -- The world after an attempt that met contention: one descriptor was opened and closed.
  abbrev pub contended_world : World R → World R
  contended_world w = record w { os = record w.os { next = suc w.os.next } }

  pub granted_attempt :
      (w : World R)
      → CanLock w
      → holder (resource_path sha256 root e i) w.os.held ≡ none
      → try_acquire_execution sha256 root e i x w
        ≡ (ok (record { code = "admission.acquired"; admission = some (handle w) }), entered w)
  unfolding try_acquire_execution ◌>>=◌
  granted_attempt w c h = ground (arith, c, h)

  pub busy_attempt :
      (w : World R) (d : ℕ)
      → CanLock w
      → holder (resource_path sha256 root e i) w.os.held ≡ some d
      → try_acquire_execution sha256 root e i x w
        ≡ (ok (record { code = "instance.already_running"; admission = none }), contended_world w)
  unfolding try_acquire_execution ◌>>=◌
  busy_attempt w d c h = ground (arith, c, h)

  -- Where calls of the platform succeed, an attempt is granted exactly if nobody holds the lock.
  pub attempt_granted_iff :
      (w : World R)
      → CanLock w
      → ((try_acquire_execution sha256 root e i x w).0
          ≡ ok (record { code = "admission.acquired"; admission = some (handle w) }))
        ↔ (holder (resource_path sha256 root e i) w.os.held ≡ none)
  attempt_granted_iff w c = (forward, λ h. rw (granted_attempt w c h))
    where
      forward :
          (try_acquire_execution sha256 root e i x w).0
            ≡ ok (record { code = "admission.acquired"; admission = some (handle w) })
          → holder (resource_path sha256 root e i) w.os.held ≡ none
      forward h = elim (Option-cases (holder (resource_path sha256 root e i) w.os.held)) [
        | inl free ↦ free
        | inr (d, held) ↦ absurd (ground (arith, h, busy_attempt w d c held))
      ]

  abbrev released_world : World R → World R → World R
  released_world w w' = record w' { os = record w'.os { held = unlock w.os.next w'.os.held } }

  release_entered :
      (w w' : World R)
      → CanLock w
      → w'.os ≡ (entered w).os
      → release_local (handle w) w' ≡ (ok tt, released_world w w')
  unfolding release_local release
  release_entered w w' c same = ground (arith, c, same)

  free_again :
      (w w' : World R)
      → holder (resource_path sha256 root e i) w.os.held ≡ none
      → w'.os ≡ (entered w).os
      → holder (resource_path sha256 root e i) (released_world w w').os.held ≡ none
  unfolding unlock
  free_again w w' h same =
      rw same
        (ground (arith, holder-unlock-none (resource_path sha256 root e i) w.os.next w.os.held h))

  module _ {T : Type 0} (task : Exec (World R) T) where
    abbrev run_task : World R → Result (AdmissionRunResult T) × World R
    run_task = run_with_admission sha256 root e i x task

    -- A task whose lock somebody holds is not run: files and repositories are left alone,
    -- and so are the locks.
    pub run_contended :
        (w : World R) (d : ℕ)
        → CanLock w
        → holder (resource_path sha256 root e i) w.os.held ≡ some d
        → run_task w ≡ (
          ok (record {
            task_started = false;
            rejection_code = some "instance.already_running";
            value = none;
          }),
          contended_world w,
        )
    unfolding run_with_admission ◌>>=◌
    run_contended w d c h = rw (busy_attempt w d c h)

    -- What the caller gets of a task that ran.
    abbrev pub outcome_of : Result T → Result (AdmissionRunResult T)
    outcome_of (ok v) = ok (record { task_started = true; rejection_code = none; value = some v })
    outcome_of (err f) = err f

    -- Where calls of the platform succeed, a task whose lock is free runs in the world where it is held,
    -- its value or exception is the caller's, and afterwards nobody holds the lock and the repository
    -- is as the task left it, if the task leaves the record of the system, its locks and descriptors,
    -- as it is.
    pub run_granted :
        (w : World R) (r : Result T) (w' : World R)
        → CanLock w
        → holder (resource_path sha256 root e i) w.os.held ≡ none
        → task (entered w) ≡ (r, w')
        → w'.os ≡ (entered w).os
        → ((run_task w).0 ≡ outcome_of r)
          × (holder (resource_path sha256 root e i) (run_task w).1.os.held ≡ none)
          × ((run_task w).1.repo ≡ w'.repo)
    unfolding run_with_admission ◌>>=◌
    run_granted w (ok v) w' c h run same =
        rw (granted_attempt w c h, run, release_entered w w' c same)
          (refl, free_again w w' h same, refl)
    run_granted w (err f) w' c h run same =
        rw (granted_attempt w c h, run, release_entered w w' c same)
          (refl, free_again w w' h same, refl)
