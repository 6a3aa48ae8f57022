-- ===== src/State/Laws.antt =====
-- What a constructed `StateRef` satisfies, and that its dict has the fields to build it again.
use peoplebot_releases.Base.{
  String, ◌≡◌, true, Option, none, some, arith, is_object_id, ◌↔◌, eq_iff,
}
use peoplebot_releases.Base.Result.{ok, ◌>>=◌}
use peoplebot_releases.Json.{Value, str, null, opt_str}
use peoplebot_releases.State.{
  StateRef, state_ref, require_identity, require_commit, optional_path, same_path, same_state,
}
use peoplebot_releases.State.GitPath.{validate_git_path}

same_path_iff : (p q : Option String) → (same_path p q ≡ true) ↔ (p ≡ q)
unfolding same_path
same_path_iff none none = ground arith
same_path_iff none (some q) = ground arith
same_path_iff (some p) none = ground arith
same_path_iff (some p) (some q) = ground (arith, eq_iff p q)

pub require_identity-eq-ok :
    (v : Value) (l : String) {s : String} → require_identity v l ≡ ok s → v ≡ str s
unfolding require_identity
require_identity-eq-ok (str s) l h = ground arith
require_identity-eq-ok _ l h = cc

require_commit-eq-ok :
    (v : Value) {s : String} → require_commit v ≡ ok s → (v ≡ str s) × (is_object_id s ≡ true)
unfolding require_commit
require_commit-eq-ok (str s) h = ground arith
require_commit-eq-ok _ h = absurd (cc)

validate_git_path-eq-ok : (v : Value) {s : String} → validate_git_path v ≡ ok s → v ≡ str s
unfolding validate_git_path
validate_git_path-eq-ok (str s) h = ground arith
validate_git_path-eq-ok _ h = cc

some_path-eq-ok :
    (v : Value) {p : Option String}
    → (validate_git_path v >>= λ path. ok (some path)) ≡ ok p
    → v ≡ opt_str p
some_path-eq-ok v h = grind (arith, validate_git_path-eq-ok)

optional_path-eq-ok : (v : Value) {p : Option String} → optional_path v ≡ ok p → v ≡ opt_str p
unfolding optional_path
optional_path-eq-ok null h = cc
optional_path-eq-ok v h = some_path-eq-ok v h

pub opt_str-eq-str : (o : Option String) {s : String} → str s ≡ opt_str o → o ≡ some s
opt_str-eq-str none h = cc
opt_str-eq-str (some t) h = cc

-- A constructed StateRef holds the very values that it was built from, and a full commit ID.
pub state_ref-eq-ok :
    (a b c : Value) {s : StateRef}
    → state_ref a b c ≡ ok s
    → (a ≡ str s.repository)
      × (b ≡ str s.commit)
      × (c ≡ opt_str s.path)
      × (is_object_id s.commit ≡ true)
unfolding state_ref
state_ref-eq-ok a b c h =
    grind (arith, require_identity-eq-ok, require_commit-eq-ok, optional_path-eq-ok)

-- A StateRef that was constructed: what its fields are built from again gives it back.
pub state_ref-rebuild :
    (a b c : Value) {s : StateRef}
    → state_ref a b c ≡ ok s
    → state_ref (str s.repository) (str s.commit) (opt_str s.path) ≡ ok s
state_ref-rebuild a b c {s} h = let (r, k, p, _) = state_ref-eq-ok a b c h in cc (r, k, p, h)

-- StateRef.__eq__ decides equality.
pub same_state_iff : (s t : StateRef) → (same_state s t ≡ true) ↔ (s ≡ t)
unfolding same_state
same_state_iff s t =
    ground (
      arith,
      eq_iff s.repository t.repository,
      eq_iff s.commit t.commit,
      same_path_iff s.path t.path,
    )
