-- ===== src/WorkCycle/Bindings.antt =====
-- CycleBindings of peoplebot/work_cycle.py, and the configuration files of a cycle.
use peoplebot_releases.Base.{
  String, ◌<>◌, len, Bool, false, not, ◌||◌, Option, none, some, List, ◌∷◌, ◌++◌, length, ltb, eqb,
  codes, ◌==◌, if◌then◌else◌,
}
use peoplebot_releases.Base.Result
use peoplebot_releases.Base.Result.{Result, ok, err, value_error, raise_if}
use peoplebot_releases.Base.Exec.{Exec, pure, raise, lift, gets, raise_when, ◌>>=◌, ◌>>◌}
use peoplebot_releases.Json.{Value, str}
use peoplebot_releases.State.{require_identity}
use peoplebot_releases.Admission.Identity.{Bytes, utf8}
use peoplebot_releases.Host.{
  External, Host, read_file, Loaded, loaded, not_json, refused, too_deep, recursion_error,
}
use peoplebot_releases.Messaging.Message.{identifier}
use peoplebot_releases.Messaging.Remote.{OutboundDestination, PeerSource}

-- What `reader_progress_ref` hashes.
unfoldable pub progress_input : String → String → Bytes
progress_input environment_id instance_id =
    utf8 (codes "peoplebot.reader-progress.v0\0")
    ++ utf8 (codes environment_id)
    ++ 0 ∷ utf8 (codes instance_id)

-- `reader_progress_ref`
unfoldable pub reader_progress_ref : (Bytes → String) → String → String → Result String
reader_progress_ref sha256 environment_id instance_id =
    Result.◌>>◌ (identifier (str environment_id) "environment_id") (
      Result.◌>>◌ (identifier (str instance_id) "instance_id") (
        ok (
          "refs/peoplebot/message-readers/v0/"
          <> sha256 (progress_input environment_id instance_id))))

-- A path is its text.
pub record CycleBindings : Type 0 where
  pub environment_id : String
  pub instance_id : String
  pub runtime_root : String
  pub local_checkout : String
  pub local_repository : String
  pub outbound_ref : String
  pub destination : OutboundDestination
  pub sources : List PeerSource
  pub progress_ref : String
  pub status_path : String
  pub stop_path : String

-- The arguments of CycleBindings(...), with JSON values where Python may be given any value.
pub record BindingFields : Type 0 where
  pub environment_id : Value
  pub instance_id : Value
  pub runtime_root : String
  pub local_checkout : String
  pub local_repository : Value
  pub outbound_ref : Value
  pub destination : OutboundDestination
  pub sources : List PeerSource
  pub progress_ref : Value
  pub status_path : String
  pub stop_path : String

-- value == text
abbrev pub has_text : String → Value → Bool
has_text s (str t) = t == s
has_text s _ = false

-- The text that a value is; another value has not passed `has_text`.
abbrev pub text_of : Value → String
text_of (str t) = t
text_of _ = ""

module _ (X : External) where
  require_absolute : String → String → Exec (Host X) (Unit {0})
  require_absolute path label = do
    absolute ← gets (λ w. w.os.platform.is_absolute path)
    raise_when (not absolute) (value_error (label <> " must be absolute"))

  -- CycleBindings(...)
  unfoldable pub cycle_bindings : BindingFields → Exec (Host X) CycleBindings
  unfolding require_absolute
  cycle_bindings f = do
    environment_id ← lift (identifier f.environment_id "environment_id")
    instance_id ← lift (identifier f.instance_id "instance_id")
    require_absolute f.runtime_root "runtime_root"
    require_absolute f.local_checkout "local_checkout"
    require_absolute f.status_path "status_path"
    require_absolute f.stop_path "stop_path"
    local_repository ← lift (require_identity f.local_repository "local_repository")
    raise_when (not (f.destination.repository == local_repository))
        (value_error "outbound destination must use the local repository identity")
    raise_when (not (has_text f.destination.ref_name f.outbound_ref))
        (value_error "destination ref must equal the local outbound ref")
    raise_when (eqb (length f.sources) 0 || ltb 8 (length f.sources))
        (value_error "cycle requires one to eight peer sources")
    progress_ref ← lift (reader_progress_ref X.sha256 environment_id instance_id)
    raise_when (not (has_text progress_ref f.progress_ref))
        (value_error "progress_ref does not match environment and Instance")
    pure (record {
      environment_id = environment_id;
      instance_id = instance_id;
      runtime_root = f.runtime_root;
      local_checkout = f.local_checkout;
      local_repository = local_repository;
      outbound_ref = text_of f.outbound_ref;
      destination = f.destination;
      sources = f.sources;
      progress_ref = text_of f.progress_ref;
      status_path = f.status_path;
      stop_path = f.stop_path;
    })

  available : String → Option String → Exec (Host X) String
  available label none = raise (value_error (label <> " is unavailable"))
  available label (some content) = pure content

  parsed : String → Loaded → Exec (Host X) Value
  parsed label (loaded value) = pure value
  parsed label not_json = raise (value_error (label <> " is not valid UTF-8 JSON"))
  parsed label refused = raise (value_error "Exceeds the limit for integer string conversion")
  parsed label too_deep = raise recursion_error

  -- Path.read_bytes: none is an OSError.
  abbrev pub read_bytes : String → Host X → Option String
  read_bytes path w = if w.os.platform.read_fails path then none else read_file path w.files

  -- `_read_configuration`
  unfoldable pub read_configuration : String → String → Exec (Host X) Value
  unfolding available parsed
  read_configuration path label = do
    absolute ← gets (λ w. w.os.platform.is_absolute path)
    raise_when (not absolute) (value_error (label <> " path must be absolute"))
    answer ← gets (read_bytes path)
    content ← available label answer
    raise_when (eqb (len content) 0 || ltb 65536 (len content))
        (value_error (label <> " must contain 1-65536 bytes"))
    parsed label (X.loads content)
