-- ===== src/Messaging/Remote/Publication.antt =====
-- `publish_message` and `reconcile_message_publication` of peoplebot/messaging.py.
pub mod Laws
pub mod Observed
use peoplebot_releases.Base.{
  String, ◌<>◌, Bool, true, not, Option, none, some, List, [], ◌∷◌, if◌then◌else◌,
}
use peoplebot_releases.Base.Result.{Error}
use peoplebot_releases.Base.Exec.{Exec, pure, catch, ◌>>=◌, ◌>>◌}
use peoplebot_releases.State.Resolve.{Completed}
use peoplebot_releases.Host.{External, Host}
use peoplebot_releases.Messaging.Store.{PublishedMessage}
use peoplebot_releases.Messaging.Remote.{
  OutboundDestination, MessagePublication, GitRunner, failed, uncertain, same_tip, conclude,
  reconciled, is_message_error, verify_remote, inspect_remote,
}

module _ (X : External) (runner : GitRunner X) where
  -- The inspection after the push: none is a MessageError.
  observe : String → OutboundDestination → Exec (Host X) (Option (Option String))
  unfolding is_message_error
  observe checkout destination =
      catch (do observed ← inspect_remote X runner checkout destination; pure (some observed))
        (λ e. if is_message_error e then some (pure none) else none)

  -- From the push on: none is a push that did not end in time.
  after_push :
      String
      → PublishedMessage
      → OutboundDestination
      → Option String
      → Option Completed
      → Exec (Host X) MessagePublication
  unfolding observe
  after_push checkout local destination expected none = pure (record {
    code = "message.publication_uncertain";
    disposition = uncertain;
    local_state = local.state;
    expected_remote = expected;
    observed_remote = none;
  })
  after_push checkout local destination expected (some pushed) = do
    observed ← observe checkout destination
    pure (conclude local.state expected pushed.returncode observed)

  push_message :
      String
      → PublishedMessage
      → OutboundDestination
      → Option String
      → Exec (Host X) MessagePublication
  push_message checkout local destination expected = do
    pushed ← runner checkout (
        "push"
        ∷ "--porcelain"
        ∷ "--no-tags"
        ∷ "--no-recurse-submodules"
        ∷ destination.remote
        ∷ (local.state.commit <> ":" <> destination.ref_name)
        ∷ [])
    after_push checkout local destination expected pushed

  unfoldable pub publish_message :
      String
      → PublishedMessage
      → OutboundDestination
      → Option String
      → Exec (Host X) MessagePublication
  unfolding after_push push_message same_tip
  publish_message checkout local destination expected = do
    verify_remote X runner checkout destination true
    before ← inspect_remote X runner checkout destination
    if not (same_tip before expected)
        then pure (record {
          code = "message.remote_conflict";
          disposition = failed;
          local_state = local.state;
          expected_remote = expected;
          observed_remote = before;
        })
        else push_message checkout local destination expected

  unfoldable pub reconcile_message_publication :
      String → MessagePublication → OutboundDestination → Exec (Host X) MessagePublication
  reconcile_message_publication checkout publication destination = do
    verify_remote X runner checkout destination true
    observed ← inspect_remote X runner checkout destination
    pure (reconciled publication observed)
