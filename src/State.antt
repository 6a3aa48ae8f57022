-- ===== src/State.antt =====
-- peoplebot/state.py: exact Git State references. `GitPath` has the check of paths, `Environment`
-- the environment that Git runs in, `Resolve` the resolution against a local repository.
-- A constructor takes what Python would be given, a JSON value, so its type tests are modelled.
pub mod GitPath
pub mod Environment
pub mod Laws
pub mod Failures
pub mod Resolve
use peoplebot_releases.Base.{
  String, ◌<>◌, Bool, not, ◌&&◌, ◌||◌, Option, none, some, ◌==◌, has_outer_space, is_control,
  is_object_id, any, codes,
}
use peoplebot_releases.Base.Result.{Result, ok, err, value_error, raise_if, ◌>>=◌, ◌>>◌}
use peoplebot_releases.Json
use peoplebot_releases.Json.{Value, Fields, str, null, end, field, opt_str}
use GitPath.{validate_git_path}

-- `_require_identity`, and `_require_text` of execution.py, whose body is the same: the text, if
-- the value is one.
unfoldable pub require_identity : Value → String → Result String
unfolding has_outer_space is_control
require_identity (str value) label = do
  raise_if (value == "" || has_outer_space value)
      (value_error (label <> " must be non-empty and have no surrounding whitespace"))
  raise_if (any is_control (codes value))
      (value_error (label <> " must not contain control characters"))
  ok value
require_identity _ label =
    err (value_error (label <> " must be non-empty and have no surrounding whitespace"))

pub record StateRef : Type 0 where
  pub repository : String
  pub commit : String
  pub path : Option String

-- The test of `_FULL_COMMIT`, which `_OBJECT_ID` of other modules spells alike.
require_commit : Value → Result String
require_commit (str s) =
    raise_if (not (is_object_id s))
      (value_error "commit must be a lowercase full 40-hex Git commit ID")
    >> ok s
require_commit _ = err (value_error "commit must be a lowercase full 40-hex Git commit ID")

optional_path : Value → Result (Option String)
optional_path null = ok none
optional_path value = do path ← validate_git_path value; ok (some path)

-- StateRef(repository, commit, path)
unfoldable pub state_ref : Value → Value → Value → Result StateRef
unfolding require_commit optional_path
state_ref repository commit path = do
  r ← require_identity repository "repository"
  c ← require_commit commit
  p ← optional_path path
  ok (record { repository = r; commit = c; path = p })

-- StateRef.to_dict
unfoldable pub state_dict : StateRef → Fields
state_dict s =
    field "commit" (str s.commit)
      (field "path" (opt_str s.path) (field "repository" (str s.repository) end))

-- StateRef.__eq__
unfoldable pub same_path : Option String → Option String → Bool
same_path none none = Bool.true
same_path none (some q) = Bool.false
same_path (some p) none = Bool.false
same_path (some p) (some q) = p == q

unfoldable pub same_state : StateRef → StateRef → Bool
unfolding same_path
same_state s t = s.repository == t.repository && s.commit == t.commit && same_path s.path t.path
