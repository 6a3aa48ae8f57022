-- ===== src/Base/Exec/Spec.antt =====
-- What an action returns and which exceptions it raises, whatever the state: one rule for each way
-- to build an action.
use mathlib.Core.Path.{◌≡◌, refl}
use mathlib.Core.Bool.{Bool, true, false}
use peoplebot_releases.Base.Result
use peoplebot_releases.Base.Result.{Error, Result, ok, err, raise_if}
use mathlib.Core.Option.{none, some}
use peoplebot_releases.Base.Tests.{if◌then◌else◌}
use peoplebot_releases.Base.Exec.{
  Exec, pure, raise, lift, gets, catch, recover, rethrow, finally, raise_when, ◌>>=◌, ◌>>◌,
  continue, after_finally, translate,
}

abbrev pub Post : {A : Type 0} → (Error → Type 0) → (A → Type 0) → Result A → Type 0
Post P Q (ok a) = Q a
Post P Q (err e) = P e

pub record Spec {S A : Type 0} (P : Error → Type 0) (Q : A → Type 0) (m : Exec S A) : Type 0 where
  pub at : (s : S) → Post P Q (m s).0

-- Nothing is said of the value.
abbrev pub Anything : {A : Type 0} → A → Type 0
Anything _ = Unit

module _ {S A : Type 0} (P : Error → Type 0) (Q : A → Type 0) where
  Post-finally :
      (r : Result A) (p : Result (Unit {0}) × S)
      → Post P Q r
      → Post P Anything p.0
      → Post P Q (after_finally r p).0
  Post-finally r (ok u, s) h k = h
  Post-finally r (err e, s) h k = k

module _ {S A : Type 0} {P : Error → Type 0} {Q : A → Type 0} where
  pub Spec-pure : (a : A) → Q a → Spec {S = S} P Q (pure a)
  unfolding pure
  Spec-pure a h = record { at = λ s. h }

  pub Spec-raise : (e : Error) → P e → Spec {S = S} P Q (raise e)
  unfolding raise
  Spec-raise e h = record { at = λ s. h }

  pub Spec-lift : (r : Result A) → Post P Q r → Spec {S = S} P Q (lift r)
  unfolding lift
  Spec-lift r h = record { at = λ s. h }

  pub Spec-if :
      (b : Bool) (m n : Exec S A)
      → (b ≡ true → Spec P Q m)
      → (b ≡ false → Spec P Q n)
      → Spec P Q (if b then m else n)
  Spec-if true m n hm hn = hm refl
  Spec-if false m n hm hn = hn refl

  -- A guard, and what follows under the failed test.
  pub Spec-guard :
      (b : Bool) (e : Error) (m : Exec S A)
      → P e
      → (b ≡ false → Spec P Q m)
      → Spec P Q (raise_when b e >> m)
  unfolding ◌>>=◌
  Spec-guard true e m he hm = record { at = λ s. he }
  Spec-guard false e m he hm = record { at = λ s. (hm refl).at s }

  pub Spec-finally :
      (m : Exec S A) (last : Exec S (Unit {0}))
      → Spec P Q m
      → Spec P Anything last
      → Spec P Q (finally m last)
  unfolding finally
  Spec-finally m last hm hl = record {
    at = λ s. let (r, s') = m s in Post-finally P Q r (last s') (hm.at s) (hl.at s');
  }

module _ {S A B : Type 0} (P : Error → Type 0) (Q : A → Type 0) (R : B → Type 0) where
  Post-continue :
      (r : Result A) (f : A → Exec S B) (s : S)
      → Post P Q r
      → ((a : A) → Q a → Spec P R (f a))
      → Post P R (continue r f s).0
  Post-continue (ok a) f s h k = (k a h).at s
  Post-continue (err e) f s h k = h

module _ {S A B : Type 0} {P : Error → Type 0} {Q : A → Type 0} {R : B → Type 0} where
  pub Spec-bind :
      (m : Exec S A) (f : A → Exec S B)
      → Spec P Q m
      → ((a : A) → Q a → Spec P R (f a))
      → Spec P R (m >>= f)
  unfolding ◌>>=◌
  Spec-bind m f hm hf = record {
    at = λ s. let (r, s') = m s in Post-continue P Q R r f s' (hm.at s) hf;
  }

module _ {S A : Type 0} {P P' : Error → Type 0} {Q : A → Type 0} where
  pub Spec-rethrow :
      (f : Error → Error) (m : Exec S A)
      → Spec P Q m
      → ((e : Error) → P e → P' (f e))
      → Spec P' Q (rethrow f m)
  unfolding rethrow
  Spec-rethrow f m hm hf = record { at = λ s. let (r, s') = m s in post r (hm.at s) }
    where
      post : (r : Result A) → Post P Q r → Post P' Q (translate f r)
      post (ok a) h = h
      post (err e) h = hf e h

module _ {S A : Type 0} {P : Error → Type 0} where
  pub Spec-gets : (f : S → A) → Spec P Anything (gets f)
  unfolding gets
  Spec-gets f = record { at = λ s. tt }

pub Spec-raise_when :
    {S : Type 0} {P : Error → Type 0} (b : Bool) (e : Error)
    → P e
    → Spec {S = S} P Anything (raise_when b e)
unfolding raise_when
Spec-raise_when true e h = record { at = λ s. h }
Spec-raise_when false e h = record { at = λ s. tt }

module _ {A B : Type 0} (P : Error → Type 0) where
  -- The rule of bind for code that changes no state.
  pub Post-bind :
      (r : Result A) (f : A → Result B)
      → Post P Anything r
      → ((a : A) → Post P Anything (f a))
      → Post P Anything (Result.◌>>=◌ r f)
  Post-bind (ok a) f h k = k a
  Post-bind (err e) f h k = h

pub Post-raise_if :
    (P : Error → Type 0) (b : Bool) (e : Error) → P e → Post P Anything (raise_if b e)
Post-raise_if P true e h = h
Post-raise_if P false e h = tt

module _ {S A : Type 0} {P : Error → Type 0} {Q Q' : A → Type 0} where
  pub Spec-weaken : (m : Exec S A) → Spec P Q m → ((a : A) → Q a → Q' a) → Spec P Q' m
  Spec-weaken m hm hq = record { at = λ s. let (r, s') = m s in weaker r (hm.at s) }
    where
      weaker : (r : Result A) → Post P Q r → Post P Q' r
      weaker (ok a) h = hq a h
      weaker (err e) h = h

module _ {S A : Type 0} {P : Error → Type 0} {Q : A → Type 0} where
  -- A handler that takes every exception.
  pub Spec-catch_all :
      (m : Exec S A) (h : Error → Exec S A)
      → Spec P Q m
      → ((e : Error) → P e → Spec P Q (h e))
      → Spec P Q (catch m (λ e. some (h e)))
  unfolding catch
  Spec-catch_all m h hm hh = record { at = λ s. let (r, s') = m s in post r s' (hm.at s) }
    where
      post : (r : Result A) (s' : S) → Post P Q r → Post P Q (recover r (λ e. some (h e)) s').0
      post (ok x) s' k = k
      post (err e) s' k = (hh e k).at s'

-- Any action, where no exception is excluded.
module _ {S A : Type 0} where
  pub Spec-any : (m : Exec S A) → Spec (λ _. Unit) Anything m
  Spec-any m = record { at = λ s. let (r, s') = m s in post r }
    where
      post : (r : Result A) → Post (λ _. Unit) Anything r
      post (ok x) = tt
      post (err e) = tt

module _ {S A : Type 0} {P P' : Error → Type 0} {Q : A → Type 0} where
  pub Spec-weaken_errors : (m : Exec S A) → Spec P Q m → ((e : Error) → P e → P' e) → Spec P' Q m
  Spec-weaken_errors m hm hp = record { at = λ s. let (r, s') = m s in weaker r (hm.at s) }
    where
      weaker : (r : Result A) → Post P Q r → Post P' Q r
      weaker (ok a) h = h
      weaker (err e) h = hp e h

-- A result that is lifted comes back as it is.
pub Spec-lift_self :
    {S A : Type 0} (r : Result A) → Spec {S = S} (λ _. Unit) (λ a. r ≡ ok a) (lift r)
Spec-lift_self (ok a) = Spec-lift (ok a) refl
Spec-lift_self (err e) = Spec-lift (err e) tt

module _ {S A : Type 0} {P P' : Error → Type 0} {Q : A → Type 0} where
  -- A handler of the exceptions that pass a test.
  pub Spec-catch_if :
      (m : Exec S A) (test : Error → Bool) (g : Error → Exec S A)
      → Spec P Q m
      → ((e : Error) → P e → Spec P' Q (g e))
      → ((e : Error) → P e → P' e)
      → Spec P' Q (catch m (λ e. if test e then some (g e) else none))
  unfolding catch
  Spec-catch_if m test g hm hg k = record { at = λ s. let (r, s') = m s in post r s' (hm.at s) }
    where
      handled :
          (e : Error) (b : Bool) (s' : S)
          → P e
          → Post P' Q
              (elim (if b then some (g e) else none) as (λ _. Result A × S) [
                | none ↦ (err e, s')
                | some n ↦ n s'
              ]).0
      handled e true s' p = (hg e p).at s'
      handled e false s' p = k e p

      post :
          (r : Result A) (s' : S)
          → Post P Q r
          → Post P' Q (recover r (λ e. if test e then some (g e) else none) s').0
      post (ok a) s' h = h
      post (err e) s' p = handled e (test e) s' p
