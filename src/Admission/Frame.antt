-- ===== src/Admission/Frame.antt =====
-- The calls of peoplebot/admission.py change locks alone: the repository is as it was.
use peoplebot_releases.Base.{
  String, ◌≡◌, refl, ◌∙◌, Bool, ℕ, arith, false, true, Option-cases, inl, inr,
}
use peoplebot_releases.Base.Result.{Error, Result, ok, err}
use peoplebot_releases.Base.Exec.{Exec, pure, raise, lift, gets, raise_when, ◌>>=◌, continue}
use peoplebot_releases.Host.{World}
use peoplebot_releases.Admission.Identity.{Bytes}
use peoplebot_releases.Admission.{
  ExecutionAdmission, LockOutcome, holder, hold, next_descriptor, locked, contended, refused,
  try_lock, close, open_resource, locking_primitive, after_lock, try_acquire_execution,
  release_descriptor, release, release_local,
}

module _ {R A : Type 0} where
  pub record Keeps (m : Exec (World R) A) : Type 0 where
    pub at : (w : World R) → (m w).1.repo ≡ w.repo

  Keeps-pure : (a : A) → Keeps (pure a)
  unfolding pure
  Keeps-pure a = record { at = λ w. refl }

  Keeps-raise : (e : Error) → Keeps (raise e)
  unfolding raise
  Keeps-raise e = record { at = λ w. refl }

  Keeps-lift : (r : Result A) → Keeps (lift r)
  unfolding lift
  Keeps-lift r = record { at = λ w. refl }

  Keeps-gets : (f : World R → A) → Keeps (gets f)
  unfolding gets
  Keeps-gets f = record { at = λ w. refl }

  -- Where an action that keeps the repository returned.
  pub Keeps-run :
      (m : Exec (World R) A) (w : World R) {a : Result A} {w' : World R}
      → Keeps m
      → m w ≡ (a, w')
      → w'.repo ≡ w.repo
  Keeps-run m w {a} {w'} keeps h = cc (keeps.at w, h)

module _ {R A B : Type 0} where
  Keeps-bind :
      (m : Exec (World R) A) (f : A → Exec (World R) B)
      → Keeps m
      → ((a : A) → Keeps (f a))
      → Keeps (m >>= f)
  unfolding ◌>>=◌
  Keeps-bind m f hm hf = record { at = λ w. of w (m w) (hm.at w) }
    where
      of :
          (w : World R) (p : Result A × World R)
          → p.1.repo ≡ w.repo
          → (continue p.0 f p.1).1.repo ≡ w.repo
      of w (ok a, v) h = (hf a).at v ∙ h
      of w (err e, v) h = h

Keeps-raise_when : {R : Type 0} (b : Bool) (e : Error) → Keeps {R = R} (raise_when b e)
unfolding raise_when
Keeps-raise_when true e = record { at = λ w. refl }
Keeps-raise_when false e = record { at = λ w. refl }

module _ {R : Type 0} where
  Keeps-next_descriptor : Keeps {R = R} next_descriptor
  unfolding next_descriptor
  Keeps-next_descriptor = record { at = λ w. refl }

  Keeps-open_resource : (path : String) → Keeps {R = R} (open_resource path)
  unfolding open_resource
  Keeps-open_resource path =
      Keeps-bind _ _ (Keeps-gets _)
        λ fails. Keeps-bind _ _ (Keeps-raise_when fails _) λ _. Keeps-next_descriptor

  Keeps-try_lock : (r : String) (d : ℕ) → Keeps {R = R} (try_lock r d)
  unfolding try_lock hold
  Keeps-try_lock r d = record { at = λ w. of w }
    where
      of : (w : World R) → (try_lock r d w).1.repo ≡ w.repo
      of w = elim (Option-cases (holder r w.os.held)) [
        | inl free ↦ ground (arith, free)
        | inr (e, taken) ↦ ground (arith, taken)
      ]

  Keeps-close : (d : ℕ) (e : Error) → Keeps {R = R} (close d e)
  unfolding close
  Keeps-close d e = Keeps-bind _ _ (Keeps-gets _) λ fails. Keeps-raise_when fails e

  Keeps-after_lock :
      (e i x : String) (d : ℕ) (o : LockOutcome) → Keeps {R = R} (after_lock e i x d o)
  unfolding after_lock
  Keeps-after_lock e i x d locked = Keeps-pure _
  Keeps-after_lock e i x d contended = Keeps-bind _ _ (Keeps-close d _) λ _. Keeps-pure _
  Keeps-after_lock e i x d refused = Keeps-bind _ _ (Keeps-close d _) λ _. Keeps-raise _

  Keeps-locking_primitive : Keeps {R = R} locking_primitive
  unfolding locking_primitive
  Keeps-locking_primitive = Keeps-bind _ _ (Keeps-gets _) λ windows. Keeps-raise_when _ _

  pub Keeps-try_acquire_execution :
      (sha256 : Bytes → String) (root e i x : String)
      → Keeps {R = R} (try_acquire_execution sha256 root e i x)
  unfolding try_acquire_execution
  Keeps-try_acquire_execution sha256 root e i x = Keeps-bind _ _ (Keeps-lift _) λ _.
      Keeps-bind _ _ (Keeps-lift _) λ _. Keeps-bind _ _ (Keeps-lift _) λ _.
        Keeps-bind _ _ Keeps-locking_primitive λ _. Keeps-bind _ _ (Keeps-gets _) λ absolute.
          Keeps-bind _ _ (Keeps-raise_when _ _) λ _.
            Keeps-bind _ _ (Keeps-open_resource _)
              λ d. Keeps-bind _ _ (Keeps-try_lock _ d) λ o. Keeps-after_lock e i x d o

  pub Keeps-release_local : (h : ExecutionAdmission) → Keeps {R = R} (release_local h)
  unfolding release_local release release_descriptor
  Keeps-release_local h = record { at = λ w. of w }
    where
      of : (w : World R) → (release_local h w).1.repo ≡ w.repo
      of w = elim (Option-cases h.descriptor) [
        | inl none_left ↦ ground (arith, none_left)
        | inr (d, kept) ↦ ground (arith, kept)
      ]
