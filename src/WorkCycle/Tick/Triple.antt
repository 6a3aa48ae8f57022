-- ===== src/WorkCycle/Tick/Triple.antt =====
-- What an action of a tick makes of the trace of events: one rule for each way to build an action.
use peoplebot_releases.Base.{
  ◌≡◌, refl, Bool, true, false, Option, none, some, List, ◌∷◌, if◌then◌else◌,
}
use mathlib.Core.Path.{subst}
use peoplebot_releases.Base.Result.{Error, Result, ok, err}
use peoplebot_releases.Base.Exec.{
  Exec, pure, lift, catch, recover, finally, raise_when, ◌>>=◌, ◌>>◌, continue, after_finally,
}
use peoplebot_releases.Base.Exec.Spec.{Spec, Post, Spec-any}
use peoplebot_releases.Host.{External, Host}
use peoplebot_releases.WorkCycle.Tick.{Event, Cycle, on_host, record_event}

-- `Q` holds of a value and the trace with it, `E` of an exception and the trace.
abbrev pub Holds :
    {A : Type 0}
    → (Error → List Event → Type 0)
    → (A → List Event → Type 0)
    → Result A
    → List Event
    → Type 0
Holds E Q (ok a) es = Q a es
Holds E Q (err e) es = E e es

module _ {X : External} {A : Type 0} where
  -- From a trace where `P` holds.
  pub record Triple (P : List Event → Type 0) (E : Error → List Event → Type 0)
      (Q : A → List Event → Type 0) (m : Exec (Cycle X) A) : Type 0 where
    pub at : (c : Cycle X) → P c.events → let (r, c') = m c in Holds E Q r c'.events

  module _ {P : List Event → Type 0} {E : Error → List Event → Type 0}
      {Q : A → List Event → Type 0} where
    pub Triple-pure : (a : A) → ((es : List Event) → P es → Q a es) → Triple P E Q (pure a)
    unfolding pure
    Triple-pure a h = record { at = λ c p. h c.events p }

    pub Triple-lift :
        (r : Result A)
        → ((a : A) (es : List Event) → r ≡ ok a → P es → Q a es)
        → ((e : Error) (es : List Event) → r ≡ err e → P es → E e es)
        → Triple P E Q (lift r)
    unfolding lift
    Triple-lift (ok a) h k = record { at = λ c p. h a c.events refl p }
    Triple-lift (err e) h k = record { at = λ c p. k e c.events refl p }

    -- What changes the host leaves the trace.
    pub Triple-on_host :
        (R : Error → Type 0) (S : A → Type 0) (m : Exec (Host X) A)
        → Spec R S m
        → ((a : A) (es : List Event) → S a → P es → Q a es)
        → ((e : Error) (es : List Event) → R e → P es → E e es)
        → Triple P E Q (on_host m)
    unfolding on_host
    Triple-on_host R S m hm h k = record {
      at = λ c p. let (r, w) = m c.host in post r c.events (hm.at c.host) p;
    }
      where
        post : (r : Result A) (es : List Event) → Post R S r → P es → Holds E Q r es
        post (ok a) es s p = h a es s p
        post (err e) es s p = k e es s p

    pub Triple-if :
        (b : Bool) (m n : Exec (Cycle X) A)
        → (b ≡ true → Triple P E Q m)
        → (b ≡ false → Triple P E Q n)
        → Triple P E Q (if b then m else n)
    Triple-if true m n hm hn = hm refl
    Triple-if false m n hm hn = hn refl

    pub Triple-guard :
        (b : Bool) (e : Error) (m : Exec (Cycle X) A)
        → ((es : List Event) → P es → E e es)
        → (b ≡ false → Triple P E Q m)
        → Triple P E Q (raise_when b e >> m)
    unfolding ◌>>=◌
    Triple-guard true e m he hm = record { at = λ c p. he c.events p }
    Triple-guard false e m he hm = record { at = λ c p. (hm refl).at c p }

    pub Triple-finally-on_host :
        (m : Exec (Cycle X) A) (last : Exec (Host X) (Unit {0}))
        → Triple P E Q m
        → ((a : A) (e : Error) (es : List Event) → Q a es → E e es)
        → ((d : Error) (e : Error) (es : List Event) → E d es → E e es)
        → Triple P E Q (finally m (on_host last))
    unfolding finally on_host
    Triple-finally-on_host m last hm h k = record {
      at = λ c p. let (r, c') = m c in let (u, w) = last c'.host in post r u c' w (hm.at c p);
    }
      where
        post :
            (r : Result A) (u : Result (Unit {0})) (c : Cycle X) (w : Host X)
            → Holds E Q r c.events
            → let (v, d) = after_finally r (u, record c { host = w }) in Holds E Q v d.events
        post r (ok x) c w p = p
        post (ok a) (err e) c w p = h a e c.events p
        post (err d) (err e) c w p = k d e c.events p

module _ {X : External} {A : Type 0} {P : List Event → Type 0} {E F : Error → List Event → Type 0}
    {Q : A → List Event → Type 0} where
  -- A handler that takes some exceptions; those that it does not take are raised on.
  pub Triple-catch :
      (m : Exec (Cycle X) A) (h : Error → Option (Exec (Cycle X) A))
      → Triple P F Q m
      → ((e : Error) (n : Exec (Cycle X) A) → h e ≡ some n → Triple (F e) E Q n)
      → ((e : Error) (es : List Event) → h e ≡ none → F e es → E e es)
      → Triple P E Q (catch m h)
  unfolding catch
  Triple-catch m h hm taken passed = record {
    at = λ c p. let (r, c') = m c in post r c' (hm.at c p);
  }
    where
      handled :
          (e : Error) (o : Option (Exec (Cycle X) A)) (c : Cycle X)
          → h e ≡ o
          → F e c.events
          → let (r, d) = elim o as (λ _. Result A × Cycle X) [ none ↦ (err e, c) | some n ↦ n c ] in
            Holds E Q r d.events
      handled e none c same f = passed e c.events same f
      handled e (some n) c same f = (taken e n same).at c f

      post :
          (r : Result A) (c : Cycle X)
          → Holds F Q r c.events
          → let (v, d) = recover r h c in Holds E Q v d.events
      post (ok a) c q = q
      post (err e) c f = handled e (h e) c refl f

  -- A handler of the exceptions that pass a test.
  pub Triple-catch_if :
      (m : Exec (Cycle X) A) (test : Error → Bool) (g : Error → Exec (Cycle X) A)
      → Triple P F Q m
      → ((e : Error) → Triple (F e) E Q (g e))
      → ((e : Error) (es : List Event) → F e es → E e es)
      → Triple P E Q (catch m (λ e. if test e then some (g e) else none))
  Triple-catch_if m test g hm hg k =
      Triple-catch m _ hm (λ e n same. taken e n (test e) same) λ e es _ f. k e es f
    where
      taken :
          (e : Error) (n : Exec (Cycle X) A) (b : Bool)
          → (if b then some (g e) else none) ≡ some n
          → Triple (F e) E Q n
      taken e n true same = subst (Triple (F e) E Q) {x = g e} (cc same) (hg e)
      taken e n false same = absurd (cc same)

module _ {X : External} {A B : Type 0} {P : List Event → Type 0} {E : Error → List Event → Type 0}
    {Q : A → List Event → Type 0} {R : B → List Event → Type 0} where
  pub Triple-bind :
      (m : Exec (Cycle X) A) (f : A → Exec (Cycle X) B)
      → Triple P E Q m
      → ((a : A) → Triple (Q a) E R (f a))
      → Triple P E R (m >>= f)
  unfolding ◌>>=◌
  Triple-bind m f hm hf = record { at = λ c p. let (r, c') = m c in post r c' (hm.at c p) }
    where
      post :
          (r : Result A) (c : Cycle X)
          → Holds E Q r c.events
          → let (v, d) = continue r f c in Holds E R v d.events
      post (ok a) c q = (hf a).at c q
      post (err e) c q = q

module _ {X : External} {A B : Type 0} {P : List Event → Type 0} {E : Error → List Event → Type 0}
    {R : B → List Event → Type 0} where
  -- What follows a result that is lifted, under the equation that gives it.
  pub Triple-lift_bind :
      (r : Result A) (f : A → Exec (Cycle X) B)
      → ((e : Error) (es : List Event) → P es → E e es)
      → ((a : A) → r ≡ ok a → Triple P E R (f a))
      → Triple P E R (lift r >>= f)
  unfolding ◌>>=◌ lift
  Triple-lift_bind (ok a) f k h = record { at = λ c p. (h a refl).at c p }
  Triple-lift_bind (err e) f k h = record { at = λ c p. k e c.events p }

  -- What follows an action on the host, under what is known of its value.
  pub Triple-on_host_bind :
      {S : Error → Type 0} {Q : A → Type 0} (m : Exec (Host X) A) (f : A → Exec (Cycle X) B)
      → Spec S Q m
      → ((e : Error) (es : List Event) → P es → E e es)
      → ((a : A) → Q a → Triple P E R (f a))
      → Triple P E R (on_host m >>= f)
  unfolding ◌>>=◌ on_host
  Triple-on_host_bind {S} {Q} m f hm k h = record {
    at = λ c p. let (r, w) = m c.host in post r (record c { host = w }) (hm.at c.host) p;
  }
    where
      post :
          (r : Result A) (c : Cycle X)
          → Post S Q r
          → P c.events
          → let (v, d) = continue r f c in Holds E R v d.events
      post (ok a) c q p = (h a q).at c p
      post (err e) c q p = k e c.events p

module _ {X : External} {P : List Event → Type 0} {E : Error → List Event → Type 0} where
  pub Triple-record_event :
      {Q : Unit {0} → List Event → Type 0} (e : Event)
      → ((es : List Event) → P es → Q tt (e ∷ es))
      → Triple {X = X} P E Q (record_event e)
  unfolding record_event
  Triple-record_event e h = record { at = λ c p. h c.events p }

module _ {X : External} {A : Type 0} {P P' : List Event → Type 0}
    {E E' : Error → List Event → Type 0} {Q Q' : A → List Event → Type 0} where
  pub Triple-weaken :
      (m : Exec (Cycle X) A)
      → Triple P E Q m
      → ((es : List Event) → P' es → P es)
      → ((a : A) (es : List Event) → Q a es → Q' a es)
      → ((e : Error) (es : List Event) → E e es → E' e es)
      → Triple P' E' Q' m
  Triple-weaken m hm hp hq he = record {
    at = λ c p. let (r, c') = m c in post r c'.events (hm.at c (hp c.events p));
  }
    where
      post : (r : Result A) (es : List Event) → Holds E Q r es → Holds E' Q' r es
      post (ok a) es h = hq a es h
      post (err e) es h = he e es h

module _ {X : External} {A : Type 0} {P : List Event → Type 0} where
  -- An action on the host leaves what holds of the trace.
  pub Triple-same : (m : Exec (Host X) A) → Triple {X = X} P (λ _. P) (λ _. P) (on_host m)
  Triple-same m =
      Triple-on_host (λ _. Unit) (λ _. Unit) m (Spec-any m) (λ _ _ _ p. p) (λ _ _ _ p. p)

  pub Triple-lift_same : (r : Result A) → Triple {X = X} P (λ _. P) (λ _. P) (lift r)
  Triple-lift_same r = Triple-lift r (λ _ _ _ p. p) (λ _ _ _ p. p)

module _ {X : External} {A : Type 0} where
  -- What does not depend on the trace is a hypothesis.
  pub Triple-given :
      {P : List Event → Type 0} {E : Error → List Event → Type 0} {Q : A → List Event → Type 0}
      (F : Type 0) (m : Exec (Cycle X) A)
      → (F → Triple P E Q m)
      → Triple (λ es. F × P es) E Q m
  Triple-given F m h = record { at = λ c (f, p). (h f).at c p }
