-- ===== src/Admission/Exclusion.antt =====
-- Mutual exclusion: whatever processes acquire and release, two handles that own the lock of one
-- environment and Instance never exist together.
use peoplebot_releases.Base.{
  ℕ, suc, ◌≤◌, String, ◌≡◌, refl, ◌≢◌, ◌⊎◌, inl, inr, true, false, none, some, ◌∷◌, arith,
  Option-cases,
}
use peoplebot_releases.Base.Result.{Result, ok, err}
use peoplebot_releases.Base.Exec.{◌>>=◌}
use peoplebot_releases.Host.{World}
use peoplebot_releases.Admission.{
  ExecutionAdmission, AdmissionAttempt, AdmissionRelease, holder, unlock, release, resource_path,
  try_acquire_execution, owns_admission,
}
use peoplebot_releases.Admission.Identity.{Bytes}
use peoplebot_releases.Admission.Locks.{
  put, IsExclusive, IsExclusive-grant, IsExclusive-same, IsExclusive-free, IsExclusive-keep,
  IsExclusive-one_owner,
}

abbrev NotGranted : Result AdmissionAttempt → Type 0
NotGranted (ok a) = a.admission ≡ none
NotGranted (err e) = Unit

module _ (sha256 : Bytes → String) (root : String) where
  abbrev lock_of : String → String → String
  lock_of e i = resource_path sha256 root e i

  abbrev granted : String → String → String → ℕ → AdmissionAttempt
  granted e i x d = record {
    code = "admission.acquired";
    admission =
        some
          (record { environment_id = e; instance_id = i; execution_id = x; descriptor = some d });
  }

  -- An attempt either takes a lock that nobody held, with a fresh descriptor, or leaves all locks.
  abbrev Attempted :
      {R : Type 0} → String → String → String → World R → Result AdmissionAttempt × World R → Type 0
  Attempted e i x w (r, w') =
      ((r ≡ ok (granted e i x w.os.next))
        × (holder (lock_of e i) w.os.held ≡ none)
        × (w'.os.held ≡ (lock_of e i, w.os.next) ∷ w.os.held)
        × (w'.os.next ≡ suc w.os.next))
      ⊎ (NotGranted r × (w'.os.held ≡ w.os.held) × (w.os.next ≤ w'.os.next))

  try_acquire-Attempted :
      {R : Type 0} (e i x : String) (w : World R)
      → Attempted e i x w (try_acquire_execution sha256 root e i x w)
  unfolding try_acquire_execution ◌>>=◌
  try_acquire-Attempted e i x w = ground arith

-- The world, and the handle that each process keeps, by the number of the process.
pub record System (R : Type 0) : Type 0 where
  pub world : World R
  pub live : ℕ → ExecutionAdmission

-- The handle that a process keeps after an attempt: the new one, if there is one.
abbrev kept : Result AdmissionAttempt → ExecutionAdmission → ExecutionAdmission
kept (ok a) h = elim a.admission [ none ↦ h | some g ↦ g ]
kept (err e) h = h

not_kept : (r : Result AdmissionAttempt) (h : ExecutionAdmission) → NotGranted r → kept r h ≡ h
not_kept (ok a) h n = ground arith
not_kept (err e) h n = refl

module _ (sha256 : Bytes → String) (root : String) {R : Type 0} where
  -- Any process may try to acquire while it owns nothing, or release what it keeps; and a step may
  -- change all but the locks.
  pub data Step : System R → System R → Type 0 where
    acquire :
        {s : System R} (p : ℕ) (e i x : String)
        → owns_admission (s.live p) ≡ false
        → {r : Result AdmissionAttempt} {w : World R}
        → try_acquire_execution sha256 root e i x s.world ≡ (r, w)
        → Step s (record { world = w; live = put s.live p (kept r (s.live p)) })
    give_back :
        {s : System R} (p : ℕ)
        → {r : Result AdmissionRelease} {h : ExecutionAdmission} {w : World R}
        → release (s.live p) s.world ≡ ((r, h), w)
        → Step s (record { world = w; live = put s.live p h })
    work : {s : System R} {w : World R} → w.os ≡ s.world.os → Step s (record s { world = w })

  pub data Reach (s : System R) : System R → Type 0 where
    here : Reach s s
    further : {t u : System R} → Reach s t → Step t u → Reach s u

  abbrev IsExclusiveSystem : System R → Type 0
  IsExclusiveSystem s = IsExclusive (resource_path sha256 root) s.world.os s.live

  acquire-IsExclusive :
      (s : System R) (p : ℕ) (e i x : String) (r : Result AdmissionAttempt) (w : World R)
      → Attempted sha256 root e i x s.world (r, w)
      → IsExclusiveSystem s
      → IsExclusiveSystem (record { world = w; live = put s.live p (kept r (s.live p)) })
  acquire-IsExclusive s p e i x r w (inl (hr, free, held, next)) v =
      rw hr (IsExclusive-grant _ _ _ v w.os p _ refl free held next)
  acquire-IsExclusive s p e i x r w (inr (n, held, next)) v =
      rw (not_kept r (s.live p) n)
        (IsExclusive-keep _ _ _ (IsExclusive-same _ _ _ v w.os held next) p)

  -- A release ends with the handle as it was and the locks as they were, or, of a handle with a
  -- descriptor, with neither.
  abbrev Released : ExecutionAdmission → World R → ExecutionAdmission → World R → Type 0
  Released h w h' w' =
      ((h' ≡ h) × (w'.os ≡ w.os))
      ⊎ ((d : ℕ) × (h.descriptor ≡ some d)
          × (h' ≡ record h { descriptor = none })
          × (w'.os.held ≡ unlock d w.os.held)
          × (w'.os.next ≡ w.os.next))

  release-Released :
      (h : ExecutionAdmission) (w : World R) (r : Result AdmissionRelease) (h' : ExecutionAdmission)
      (w' : World R)
      → release h w ≡ ((r, h'), w')
      → Released h w h' w'
  unfolding release
  release-Released h w r h' w' run = ground arith

  release-IsExclusive :
      (s : System R) (p : ℕ) (h : ExecutionAdmission) (w : World R)
      → Released (s.live p) s.world h w
      → IsExclusiveSystem s
      → IsExclusiveSystem (record { world = w; live = put s.live p h })
  release-IsExclusive s p h w (inl (same, os)) v = rw (same, os) (IsExclusive-keep _ _ _ v p)
  release-IsExclusive s p h w (inr (d, hd, gone, held, n)) v =
      rw gone (IsExclusive-free _ _ _ v w.os p d hd held n)

  Step-IsExclusive : {s t : System R} → Step s t → IsExclusiveSystem s → IsExclusiveSystem t
  Step-IsExclusive {s} (acquire p e i x free {r} {w} run) v =
      acquire-IsExclusive s p e i x r w
        (rw run at (try_acquire-Attempted sha256 root e i x s.world)) v
  Step-IsExclusive {s} (give_back p {r} {h} {w} run) v =
      release-IsExclusive s p h w (release-Released (s.live p) s.world r h w run) v
  Step-IsExclusive (work same) v = rw same v

  Reach-IsExclusive : {s t : System R} → Reach s t → IsExclusiveSystem s → IsExclusiveSystem t
  Reach-IsExclusive here v = v
  Reach-IsExclusive (further r st) v = Step-IsExclusive st (Reach-IsExclusive r v)

  -- From any world in which no process keeps a descriptor, no steps lead to two processes that own
  -- the admission of one environment and Instance, whatever locks, faults and tasks there are.
  pub no_two_owners :
      {s t : System R}
      → ((p : ℕ) → (s.live p).descriptor ≡ none)
      → Reach s t
      → (p q : ℕ) → p ≢ q
      → (t.live p).environment_id ≡ (t.live q).environment_id
      → (t.live p).instance_id ≡ (t.live q).instance_id
      → owns_admission (t.live p) ≡ true
      → owns_admission (t.live q) ≡ false
  unfolding owns_admission
  no_two_owners {s} {t} start r p q n e i op =
      let v : IsExclusiveSystem t = Reach-IsExclusive r (record {
        owned = λ k d h. absurd (cc (start k, h));
        apart = λ k l d m h. absurd (cc (start k, h));
      }) in
      elim (Option-cases (t.live p).descriptor) [
        | inl free ↦ absurd (ground arith)
        | inr (d, hp) ↦ rw (IsExclusive-one_owner _ _ _ v p q d n e i hp)
      ]
