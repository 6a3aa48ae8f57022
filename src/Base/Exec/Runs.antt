-- ===== src/Base/Exec/Runs.antt =====
-- What the parts of an action did, where the action returned: one lemma for each way to build it.
use mathlib.Core.Path.{◌≡◌, refl, ◌∙◌, subst}
use mathlib.Core.Bool.{Bool, true, false}
use mathlib.Core.Logic.{◌⊎◌, inl, inr}
use mathlib.Core.Option.{Option, none, some}
use peoplebot_releases.Base.Result.{Error, Result, ok, err}
use peoplebot_releases.Base.Exec.Spec.{Spec, Post}
use peoplebot_releases.Base.Exec.{
  Exec, pure, lift, catch, recover, rethrow, finally, raise_when, ◌>>=◌, ◌>>◌, continue,
  after_finally, translate,
}

module _ {S A : Type 0} where
  pub pure-run : (a : A) (s : S) {b : A} {s' : S} → pure a s ≡ (ok b, s') → (a ≡ b) × (s ≡ s')
  unfolding pure
  pure-run a s h = (cc h, cc h)

  pub guard-run :
      (b : Bool) (e : Error) (m : Exec S A) (s : S) {a : A} {s' : S}
      → (raise_when b e >> m) s ≡ (ok a, s')
      → (b ≡ false) × (m s ≡ (ok a, s'))
  unfolding ◌>>=◌
  guard-run true e m s h = absurd (cc h)
  guard-run false e m s h = (refl, h)

  pub rethrow-run :
      (f : Error → Error) (m : Exec S A) (s : S) {a : A} {s' : S}
      → rethrow f m s ≡ (ok a, s')
      → m s ≡ (ok a, s')
  unfolding rethrow
  rethrow-run f m s {a} {s'} h = of (m s) refl h
    where
      of :
          (p : Result A × S)
          → m s ≡ p
          → ◌≡◌ {A = Result A × S} (translate f p.0, p.1) (ok a, s')
          → m s ≡ (ok a, s')
      of (ok b, t) same h = same ∙ h
      of (err e, t) same h = absurd (cc h)

  pub finally-run :
      (m : Exec S A) (last : Exec S (Unit {0})) (s : S) {a : A} {s' : S}
      → finally m last s ≡ (ok a, s')
      → (t : S) × (m s ≡ (ok a, t)) × (last t ≡ (ok tt, s'))
  unfolding finally
  finally-run m last s {a} {s'} h = of (m s) refl h
    where
      ended :
          (r : Result A) (t : S) (p : Result (Unit {0}) × S)
          → last t ≡ p
          → after_finally r p ≡ (ok a, s')
          → (r ≡ ok a) × (last t ≡ (ok tt, s'))
      ended r t (ok tt, u) same h = (cc h, cc (same, h))
      ended r t (err e, u) same h = absurd (cc h)

      of :
          (p : Result A × S)
          → m s ≡ p
          → after_finally p.0 (last p.1) ≡ (ok a, s')
          → (t : S) × (m s ≡ (ok a, t)) × (last t ≡ (ok tt, s'))
      of (r, t) same h =
          let (returned, released) = ended r t (last t) refl h in (t, cc (same, returned), released)

  pub catch-run :
      (m : Exec S A) (h : Error → Option (Exec S A)) (s : S) {a : A} {s' : S}
      → catch m h s ≡ (ok a, s')
      → (m s ≡ (ok a, s'))
        ⊎ ((e : Error) × (t : S) × (n : Exec S A) × (m s ≡ (err e, t))
            × (h e ≡ some n)
            × (n t ≡ (ok a, s')))
  unfolding catch
  catch-run m h s {a} {s'} returned = of (m s) refl returned
    where
      handled :
          (e : Error) (t : S) (o : Option (Exec S A))
          → m s ≡ (err e, t)
          → h e ≡ o
          → (elim o as (λ _. Result A × S) [ none ↦ (err e, t) | some n ↦ n t ]) ≡ (ok a, s')
          → (e : Error) × (t : S) × (n : Exec S A) × (m s ≡ (err e, t))
            × (h e ≡ some n)
            × (n t ≡ (ok a, s'))
      handled e t none raised same k = absurd (cc k)
      handled e t (some n) raised same k = (e, t, n, raised, same, k)

      of :
          (p : Result A × S)
          → m s ≡ p
          → recover p.0 h p.1 ≡ (ok a, s')
          → (m s ≡ (ok a, s'))
            ⊎ ((e : Error) × (t : S) × (n : Exec S A) × (m s ≡ (err e, t))
                × (h e ≡ some n)
                × (n t ≡ (ok a, s')))
      of (ok b, t) same k = inl (same ∙ k)
      of (err e, t) same k = inr (handled e t (h e) same refl k)

module _ {S A B : Type 0} where
  pub bind-run :
      (m : Exec S A) (f : A → Exec S B) (s : S) {b : B} {s' : S}
      → (m >>= f) s ≡ (ok b, s')
      → (a : A) × (t : S) × (m s ≡ (ok a, t)) × (f a t ≡ (ok b, s'))
  unfolding ◌>>=◌
  bind-run m f s {b} {s'} h = of (m s) refl h
    where
      of :
          (p : Result A × S)
          → m s ≡ p
          → continue p.0 f p.1 ≡ (ok b, s')
          → (a : A) × (t : S) × (m s ≡ (ok a, t)) × (f a t ≡ (ok b, s'))
      of (ok a, t) same h = (a, t, same, h)
      of (err e, t) same h = absurd (cc h)

  pub lift-run :
      (r : Result A) (f : A → Exec S B) (s : S) {b : B} {s' : S}
      → (lift r >>= f) s ≡ (ok b, s')
      → (a : A) × (r ≡ ok a) × (f a s ≡ (ok b, s'))
  unfolding ◌>>=◌ lift
  lift-run (ok a) f s h = (a, refl, h)
  lift-run (err e) f s h = absurd (cc h)

-- What an action that returns did between its first and its last state, and what else it raises.
pub record Effect {S A : Type 0} (P : Error → Type 0) (Q : S → S → A → Type 0) (m : Exec S A)
    : Type 0 where
  pub at : (s : S) → let (r, s') = m s in Post P (Q s s') r

pub Effect-of :
    {S A : Type 0} {P : Error → Type 0} {R : A → Type 0} {Q : S → S → A → Type 0} (m : Exec S A)
    → Spec P R m
    → ((s : S) (a : A) (s' : S) → m s ≡ (ok a, s') → Q s s' a)
    → Effect P Q m
Effect-of {S} {A} {P} {R} {Q} m spec run = record { at = λ s. of s (m s) refl (spec.at s) }
  where
    of : (s : S) (p : Result A × S) → m s ≡ p → Post P R p.0 → Post P (Q s p.1) p.0
    of s (ok a, t) same h = run s a t same
    of s (err e, t) same h = h

pub Effect-run :
    {S A : Type 0} {P : Error → Type 0} {Q : S → S → A → Type 0} (m : Exec S A) (s : S) {a : A}
    {s' : S}
    → Effect P Q m
    → m s ≡ (ok a, s')
    → Q s s' a
Effect-run {S} {A} {P} {Q} m s {a} {s'} effect h =
    subst {A = Result A × S} (λ p. Post P (Q s p.1) p.0) {x = m s} {y = (ok a, s')} h (effect.at s)
