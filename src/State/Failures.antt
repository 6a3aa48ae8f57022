-- ===== src/State/Failures.antt =====
-- A StateRef that is refused, is refused by a ValueError.
use peoplebot_releases.Base.{String, ◌≡◌, Bool, true, false, Option, arith}
use peoplebot_releases.Base.Result.{Error, ok, err, value_error, ◌>>=◌}
use peoplebot_releases.Json.{Value, null, str}
use peoplebot_releases.State.{state_ref, require_identity, require_commit, optional_path}
use peoplebot_releases.State.GitPath.{validate_git_path}

abbrev pub is_value_error : Error → Bool
is_value_error (value_error _) = true
is_value_error _ = false

pub require_identity-raises :
    (v : Value) (l : String) {e : Error} → require_identity v l ≡ err e → is_value_error e ≡ true
unfolding require_identity
require_identity-raises (str s) l h = ground (arith, h)
require_identity-raises _ l h = ground (arith, h)

require_commit-raises : (v : Value) {e : Error} → require_commit v ≡ err e → is_value_error e ≡ true
unfolding require_commit
require_commit-raises (str s) h = ground (arith, h)
require_commit-raises _ h = ground (arith, h)

validate_git_path-raises :
    (v : Value) {e : Error} → validate_git_path v ≡ err e → is_value_error e ≡ true
unfolding validate_git_path
validate_git_path-raises (str s) h = ground (arith, h)
validate_git_path-raises _ h = ground (arith, h)

some_path-raises :
    (v : Value) {e : Error}
    → (validate_git_path v >>= λ path. ok (Option.some path)) ≡ err e
    → is_value_error e ≡ true
some_path-raises v h = grind (arith, validate_git_path-raises)

optional_path-raises : (v : Value) {e : Error} → optional_path v ≡ err e → is_value_error e ≡ true
unfolding optional_path
optional_path-raises null h = ground (arith, h)
optional_path-raises v h = some_path-raises v h

-- Whatever its arguments, StateRef(...) raises ValueError alone.
pub state_ref-raises :
    (a b c : Value) {e : Error} → state_ref a b c ≡ err e → is_value_error e ≡ true
unfolding state_ref
state_ref-raises a b c h =
    grind (arith, require_identity-raises, require_commit-raises, optional_path-raises)
