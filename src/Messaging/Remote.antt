-- ===== src/Messaging/Remote.antt =====
-- Remote message branches of peoplebot/messaging.py: the endpoints, their inspection, publication
-- with its reconciliation, and reading a peer. The default runner is an invocation of Git; the
-- operations take any runner. urllib.parse.urlsplit is a parameter.
pub mod Publication
pub mod Peer
use peoplebot_releases.Base.{
  ℕ, String, ◌<>◌, Bool, true, false, not, ◌&&◌, ◌||◌, Option, none, some, List, [], ◌∷◌, ◌++◌, eqb,
  keep, any, is_some, codes, ◌==◌, split_lines, is_object_id, if◌then◌else◌,
}
use Prim.Native.Char.{Char, code}
use peoplebot_releases.Base.Result.{
  Error, Result, ok, err, value_error, message_error, os_error, raise_if,
}
use peoplebot_releases.Base.Result
use peoplebot_releases.Base.Exec.{Exec, pure, raise, lift, catch, rethrow, raise_when, ◌>>=◌, ◌>>◌}
use peoplebot_releases.Json.{Value, str}
use peoplebot_releases.State.{StateRef, require_identity}
use peoplebot_releases.State.Resolve.{Completed, ResolvedState, resolve_state}
use peoplebot_releases.Host.{
  External, Host, Outcome, completed, not_found, timed_out, os_failed, run_command,
}
use peoplebot_releases.Messaging.Message.{Message, identifier}
use peoplebot_releases.Messaging.Store.{
  PublishedMessage, message_ref, message_store, messages, from_resolution,
}

-- OutboundDestination, and what PeerSource shares with it.
pub record OutboundDestination : Type 0 where
  pub repository : String
  pub remote : String
  pub expected_url : String
  pub ref_name : String

pub record PeerSource : Type 0 where
  pub endpoint : OutboundDestination
  pub allowed_senders : List String

without_credentials : Option Bool → Result (Unit {0})
without_credentials none = err (value_error "expected_url could not be parsed")
without_credentials (some found) =
    raise_if found (value_error "expected_url must not contain credentials")

-- `has_credentials`: whether urlsplit finds a user name or a password in the URL, none if it raises
-- a ValueError.
module _ (has_credentials : String → Option Bool) where
  -- OutboundDestination(repository, remote, expected_url, ref_name)
  unfoldable pub outbound_destination : Value → Value → Value → Value → Result OutboundDestination
  unfolding without_credentials
  outbound_destination repository remote expected_url ref_name =
      Result.◌>>=◌ (require_identity repository "repository") λ r.
        Result.◌>>=◌ (identifier remote "remote") λ m.
          Result.◌>>=◌ (require_identity expected_url "expected_url") λ u.
            Result.◌>>=◌ (message_ref ref_name) λ n.
              Result.◌>>◌ (without_credentials (has_credentials u))
                (ok (record { repository = r; remote = m; expected_url = u; ref_name = n }))

  senders : List String → Result (Unit {0})
  senders [] = ok tt
  senders (s ∷ ss) = Result.◌>>◌ (identifier (str s) "allowed sender") (senders ss)

  allowed_by : List String → Result (Unit {0})
  allowed_by [] = err (value_error "peer source requires allowed senders")
  allowed_by (s ∷ ss) = senders (s ∷ ss)

  -- PeerSource(repository, remote, expected_url, ref_name, allowed_senders)
  unfoldable pub peer_source : Value → Value → Value → Value → List String → Result PeerSource
  unfolding senders allowed_by outbound_destination
  peer_source repository remote expected_url ref_name allowed =
      Result.◌>>=◌ (outbound_destination repository remote expected_url ref_name) λ endpoint.
        Result.◌>>◌ (allowed_by allowed)
          (ok (record { endpoint = endpoint; allowed_senders = allowed }))

-- line.split("\t")
split_tab : String → List String
split_tab String.[] = String.[] ∷ []
split_tab (String.◌∷◌ c s) =
    let rest = split_tab s in if eqb (code c) 9 then String.[] ∷ rest else onto c rest
  where
    onto : Char → List String → List String
    onto c [] = String.◌∷◌ c String.[] ∷ []
    onto c (f ∷ fs) = String.◌∷◌ c f ∷ fs

-- The one line of `git ls-remote --refs`, if any.
unfoldable pub remote_tip : String → List String → Result (Option String)
unfolding split_tab
remote_tip ref_name [] = ok none
remote_tip ref_name (line ∷ l ∷ ls) =
    err (message_error "message.remote_inspection_ambiguous" "remote ref is ambiguous")
remote_tip ref_name (line ∷ []) = of_fields (split_tab line)
  where
    invalid : Result (Option String)
    invalid = err (message_error "message.remote_inspection_invalid" "remote ref result is invalid")

    of_fields : List String → Result (Option String)
    of_fields (object ∷ name ∷ []) =
        if not (name == ref_name) || not (is_object_id object) then invalid else ok (some object)
    of_fields _ = invalid

unfoldable pub same_lines : List String → String → Bool
same_lines (l ∷ []) expected = l == expected
same_lines _ expected = false

-- `observed == expected` of two commits or None
unfoldable pub same_tip : Option String → Option String → Bool
same_tip none none = true
same_tip (some a) (some b) = a == b
same_tip _ _ = false

pub data PublicationDisposition : Type 0 where
  remote_verified failed uncertain : PublicationDisposition

pub record MessagePublication : Type 0 where
  pub code : String
  pub disposition : PublicationDisposition
  pub local_state : StateRef
  pub expected_remote : Option String
  pub observed_remote : Option String

-- What `publish_message` returns after the push, from the exit status and the inspection, none if
-- that raised a MessageError.
unfoldable pub conclude : StateRef → Option String → ℕ → Option (Option String) → MessagePublication
unfolding same_tip
conclude local expected pushed none = record {
  code = "message.publication_uncertain";
  disposition = uncertain;
  local_state = local;
  expected_remote = expected;
  observed_remote = none;
}
conclude local expected pushed (some observed) =
    if same_tip observed (some local.commit)
    then record {
      code = "message.remote_verified";
      disposition = remote_verified;
      local_state = local;
      expected_remote = expected;
      observed_remote = observed;
    }
    else if not (eqb pushed 0) && same_tip observed expected
    then record {
      code = "message.publication_failed";
      disposition = failed;
      local_state = local;
      expected_remote = expected;
      observed_remote = observed;
    }
    else record {
      code = "message.publication_uncertain";
      disposition = uncertain;
      local_state = local;
      expected_remote = expected;
      observed_remote = observed;
    }

-- What `reconcile_message_publication` makes of the tip that it observes.
unfoldable pub reconciled : MessagePublication → Option String → MessagePublication
unfolding same_tip
reconciled p observed =
    if same_tip observed (some p.local_state.commit)
    then record p {
      code = "message.remote_verified";
      disposition = remote_verified;
      observed_remote = observed;
    }
    else if same_tip observed p.expected_remote
    then record p {
      code = "message.prior_state_observed";
      disposition = failed;
      observed_remote = observed;
    }
    else record p {
      code = "message.intervening_state";
      disposition = uncertain;
      observed_remote = observed;
    }

-- except MessageError
is_message_error : Error → Bool
is_message_error (message_error _ _) = true
is_message_error _ = false

abbrev push_options : Bool → List String
push_options true = "--push" ∷ []
push_options false = []

module _ (X : External) where
  -- A runner of Git in a checkout: none is TimeoutExpired.
  abbrev pub GitRunner : Type 0
  GitRunner = String → List String → Exec (Host X) (Option Completed)

  ran : Outcome → Exec (Host X) (Option Completed)
  ran (completed c out) = pure (some (record { returncode = c; stdout = out }))
  ran not_found = raise os_error
  ran timed_out = pure none
  ran os_failed = raise os_error

  -- `_git_runner`
  unfoldable pub git_runner : GitRunner
  unfolding ran
  git_runner checkout arguments = do
    out ←
        run_command X checkout [] ("-c" ∷ "core.hooksPath=/dev/null" ∷ "-C" ∷ checkout ∷ arguments)
          ""
    ran out

  in_time : Error → Option Completed → Exec (Host X) Completed
  in_time e none = raise e
  in_time e (some c) = pure c

  module _ (runner : GitRunner) where
    -- `_verify_remote`
    unfoldable pub verify_remote : String → OutboundDestination → Bool → Exec (Host X) (Unit {0})
    unfolding in_time same_lines
    verify_remote checkout endpoint push = do
      asked ← runner checkout (
          "config" ∷ "--show-origin" ∷ "--get-regexp" ∷ "^url\\..*\\.(insteadOf|pushInsteadOf)$"
          ∷ [])
      rewrite ←
          in_time
            (message_error "message.remote_inspection_failed"
              "Git URL routing inspection timed out")
            asked
      raise_when
          (not (eqb rewrite.returncode 0 || eqb rewrite.returncode 1) || eqb rewrite.returncode 0)
          (message_error "message.transport_override_unsupported"
            "Git URL rewrites are configured or could not be inspected")
      answer ←
          runner checkout
            ("remote" ∷ "get-url" ∷ push_options push ++ "--all" ∷ endpoint.remote ∷ [])
      result ←
          in_time
            (message_error "message.remote_inspection_failed" "Git remote URL inspection timed out")
            answer
      raise_when
          (not (eqb result.returncode 0)
            || not (same_lines (split_lines result.stdout) endpoint.expected_url))
          (message_error
            (if push then "message.destination_mismatch" else "message.source_mismatch")
            "configured Git remote does not match its exact expected URL")

    -- `_inspect_remote`
    unfoldable pub inspect_remote : String → OutboundDestination → Exec (Host X) (Option String)
    unfolding in_time remote_tip
    inspect_remote checkout endpoint = do
      answer ←
          runner checkout ("ls-remote" ∷ "--refs" ∷ endpoint.expected_url ∷ endpoint.ref_name ∷ [])
      result ←
          in_time
            (message_error "message.remote_inspection_failed" "remote ref inspection timed out")
            answer
      raise_when (not (eqb result.returncode 0))
          (message_error "message.remote_inspection_failed" "remote ref is unavailable")
      lift (
          remote_tip endpoint.ref_name
            (keep (λ line. not (line == "")) (split_lines result.stdout)))

    -- `inspect_remote_tip`
    unfoldable pub inspect_remote_tip :
        String → OutboundDestination → Bool → Exec (Host X) (Option String)
    inspect_remote_tip checkout endpoint push = do
      verify_remote checkout endpoint push
      inspect_remote checkout endpoint
