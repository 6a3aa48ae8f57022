-- ===== src/Admission/Locks.antt =====
-- The invariant of the locks of peoplebot/admission.py and of the handles that own them.
use peoplebot_releases.Base.{
  ℕ, suc, ◌≤◌, ◌<◌, String, ◌≡◌, ◌≢◌, inl, inr, none, some, [], ◌∷◌, arith, eqb, eq_iff, eq_refl,
  if◌then◌else◌, Option-cases,
}
use peoplebot_releases.Host.{Os}
use peoplebot_releases.Admission.{ExecutionAdmission, Held, holder, unlock}

pub holder-unlock :
    (r : String) (d e : ℕ) (held : Held)
    → holder r held ≡ some e
    → e ≢ d
    → holder r (unlock d held) ≡ some e
unfolding holder unlock
holder-unlock r d e [] h n = cc
holder-unlock r d e ((q, f) ∷ held) h n = ground (arith, holder-unlock r d e held)

-- The handle of one process is another one.
abbrev pub put : {A : Type 0} → (ℕ → A) → ℕ → A → ℕ → A
put f p a q = if eqb p q then a else f q

-- Each descriptor that a handle keeps owns the lock of the handle's identity, and no two handles
-- keep one descriptor.
pub record IsExclusive (lock_of : String → String → String) (os : Os)
    (live : ℕ → ExecutionAdmission) : Type 0 where
  pub owned :
      (p d : ℕ)
      → (live p).descriptor ≡ some d
      → (holder (lock_of (live p).environment_id (live p).instance_id) os.held ≡ some d)
        × (d < os.next)
  pub apart : (p q d : ℕ) → p ≢ q → (live p).descriptor ≡ some d → (live q).descriptor ≢ some d

module _ (lock_of : String → String → String) (os : Os) (live : ℕ → ExecutionAdmission)
    (v : IsExclusive lock_of os live) where
  pub IsExclusive-grant :
      (os' : Os) (p : ℕ) (g : ExecutionAdmission)
      → g.descriptor ≡ some os.next
      → holder (lock_of g.environment_id g.instance_id) os.held ≡ none
      → os'.held ≡ (lock_of g.environment_id g.instance_id, os.next) ∷ os.held
      → os'.next ≡ suc os.next
      → IsExclusive lock_of os' (put live p g)
  unfolding holder
  IsExclusive-grant os' p g hd free held next = record {
    owned = λ q d hq. rw held (
        ground (
          arith,
          v.owned q d,
          eq_iff (lock_of g.environment_id g.instance_id)
              (lock_of (live q).environment_id (live q).instance_id),
          eq_refl (lock_of g.environment_id g.instance_id),
        ));
    apart = λ q r d n hq hr. ground (arith, v.owned q d, v.owned r d, v.apart q r d);
  }

  pub IsExclusive-same :
      (os' : Os) → os'.held ≡ os.held → os.next ≤ os'.next → IsExclusive lock_of os' live
  IsExclusive-same os' held next = record {
    owned = λ q d hq. rw held (ground (arith, v.owned q d));
    apart = v.apart;
  }

  -- The handle of `p` is left as it was, or with no descriptor and its lock released.
  pub IsExclusive-free :
      (os' : Os) (p d : ℕ)
      → (live p).descriptor ≡ some d
      → os'.held ≡ unlock d os.held
      → os'.next ≡ os.next
      → IsExclusive lock_of os' (put live p (record (live p) { descriptor = none }))
  IsExclusive-free os' p d hd held next = record {
    owned = λ q e hq. rw held (
        ground (
          arith,
          v.owned q e,
          v.apart p q d,
          holder-unlock (lock_of (live q).environment_id (live q).instance_id) d e os.held,
        ));
    apart = λ q r e n hq hr. ground (arith, v.apart q r e);
  }

  pub IsExclusive-keep : (p : ℕ) → IsExclusive lock_of os (put live p (live p))
  IsExclusive-keep p = record {
    owned = λ q d hq. ground (arith, v.owned q d);
    apart = λ q r d n hq hr. ground (arith, v.apart q r d, v.owned q d, v.owned r d);
  }

  pub IsExclusive-one_owner :
      (p q d : ℕ)
      → p ≢ q
      → (live p).environment_id ≡ (live q).environment_id
      → (live p).instance_id ≡ (live q).instance_id
      → (live p).descriptor ≡ some d
      → (live q).descriptor ≡ none
  IsExclusive-one_owner p q d n e i hp = elim (Option-cases (live q).descriptor) [
    | inl free ↦ free
    | inr (f, hq) ↦
        absurd (ground (arith, v.owned p d, v.owned q f, v.apart p q d, n, e, i, hp, hq))
  ]
