-- ===== src/Base/Exec.antt =====
-- Code that may raise and changes a state. The state that was reached comes back beside the
-- exception too: what was written before a raise stays written.
pub mod Spec
pub mod Runs
use mathlib.Core.Bool.{Bool, true, false}
use mathlib.Core.Option.{Option, none, some}
use peoplebot_releases.Base.Result.{Error, Result, ok, err}

abbrev pub Exec : Type 0 → Type 0 → Type 0
Exec S A = S → Result A × S

abbrev pub translate : {A : Type 0} → (Error → Error) → Result A → Result A
translate f (ok a) = ok a
translate f (err e) = err (f e)

module _ {S A : Type 0} where
  unfoldable pub pure : A → Exec S A
  pure a s = (ok a, s)

  unfoldable pub raise : Error → Exec S A
  raise e s = (err e, s)

  unfoldable pub lift : Result A → Exec S A
  lift r s = (r, s)

  unfoldable pub gets : (S → A) → Exec S A
  gets f s = (ok (f s), s)

  abbrev pub recover : Result A → (Error → Option (Exec S A)) → Exec S A
  recover (ok a) h s = (ok a, s)
  recover (err e) h s = elim (h e) [ none ↦ (err e, s) | some m ↦ m s ]

  -- try: m; except: the handler says which exceptions it takes.
  unfoldable pub catch : Exec S A → (Error → Option (Exec S A)) → Exec S A
  catch m h s = let (r, s') = m s in recover r h s'

  -- try: m; except: raise another exception from it.
  unfoldable pub rethrow : (Error → Error) → Exec S A → Exec S A
  rethrow f m s = let (r, s') = m s in (translate f r, s')

  abbrev pub after_finally : Result A → Result (Unit {0}) × S → Result A × S
  after_finally r (ok _, s) = (r, s)
  after_finally r (err e, s) = (err e, s)

  -- try: m; finally: an exception of the last part replaces what `m` gave.
  unfoldable pub finally : Exec S A → Exec S (Unit {0}) → Exec S A
  finally m last s = let (r, s') = m s in after_finally r (last s')

-- if test: raise e
unfoldable pub raise_when : {S : Type 0} → Bool → Error → Exec S (Unit {0})
raise_when true e s = (err e, s)
raise_when false e s = (ok tt, s)

module _ {S A B : Type 0} where
  abbrev pub continue : Result A → (A → Exec S B) → Exec S B
  continue (ok a) f s = f a s
  continue (err e) f s = (err e, s)

  infixl 5 ◌>>=◌ ◌>>◌
  -- Opening this opens the actions above too.
  unfoldable pub ◌>>=◌ : Exec S A → (A → Exec S B) → Exec S B
  unfolding pure raise lift gets catch rethrow finally raise_when
  ◌>>=◌ action next s = let (r, s') = action s in continue r next s'

  abbrev pub ◌>>◌ : Exec S A → Exec S B → Exec S B
  first >> second = first >>= λ _. second
