-- ===== src/Tests/Publications.antt =====
-- The theorems of the message store and of publication at a scripted Git.
use peoplebot_releases.Base.{◌≤◌, none, some, [], length}
use peoplebot_releases.Base.Exec.Spec.{Spec}
use peoplebot_releases.Messaging.Store.{messages, append}
use peoplebot_releases.Messaging.Store.History.{IsStoreFailure, IsHistory, messages-IsHistory}
use peoplebot_releases.Base.Exec.Runs.{Effect}
use peoplebot_releases.Messaging.Store.Appended.{IsAppended, append-IsAppended}
use peoplebot_releases.Messaging.Remote.{MessagePublication, uncertain, git_runner}
use peoplebot_releases.Messaging.Remote.Publication.{publish_message, reconcile_message_publication}
use peoplebot_releases.Messaging.Remote.Publication.Observed.{
  IsPublishedTo, publish_message-IsPublishedTo, IsReconciledTo,
  reconcile_message_publication-IsReconciledTo,
}
use peoplebot_releases.Messaging.Remote.Peer.{
  read_peer_messages, IsPeerHistory, read_peer_messages-IsPeerHistory,
}
use peoplebot_releases.Messaging.Owned.{append_and_publish_owned_message}
use peoplebot_releases.Messaging.Owned.Published.{
  IsOwnedPublication, append_and_publish_owned_message-IsOwnedPublication,
}
use peoplebot_releases.Messaging.Store.{PublishedMessage}
use peoplebot_releases.Tests.Samples.{
  commit_a, state_b, task_message, scripted, store, destination, peer,
}

abbrev published : PublishedMessage
published = record { message = task_message; state = state_b; ref_name = store.ref_name }

abbrev left_open : MessagePublication
left_open = record {
  code = "message.publication_uncertain";
  disposition = uncertain;
  local_state = state_b;
  expected_remote = none;
  observed_remote = none;
}

messages-IsHistory_example :
    Spec IsStoreFailure
      (λ ps. IsHistory store [] ps × (length ps ≤ 256))
      (messages scripted store (some commit_a))
messages-IsHistory_example = messages-IsHistory scripted store (some commit_a)

append-IsAppended_example :
    Effect IsStoreFailure
      (IsAppended scripted store task_message)
      (append scripted store task_message)
append-IsAppended_example = append-IsAppended scripted store task_message

publish_message-IsPublishedTo_example :
    Effect
      (λ _. Unit)
      (IsPublishedTo scripted
        (git_runner scripted)
        "/work/repo"
        destination
        published
        (some commit_a))
      (publish_message scripted
        (git_runner scripted)
        "/work/repo"
        published
        destination
        (some commit_a))
publish_message-IsPublishedTo_example =
    publish_message-IsPublishedTo scripted (git_runner scripted) "/work/repo" destination published
      (some commit_a)

reconcile_message_publication-IsReconciledTo_example :
    Effect
      (λ _. Unit)
      (IsReconciledTo scripted (git_runner scripted) "/work/repo" destination left_open)
      (reconcile_message_publication scripted
        (git_runner scripted)
        "/work/repo"
        left_open
        destination)
reconcile_message_publication-IsReconciledTo_example =
    reconcile_message_publication-IsReconciledTo scripted (git_runner scripted) "/work/repo"
      destination left_open

read_peer_messages-IsPeerHistory_example :
    Spec
      (λ _. Unit)
      (IsPeerHistory scripted (git_runner scripted) peer)
      (read_peer_messages scripted (git_runner scripted) "/work/repo" peer)
read_peer_messages-IsPeerHistory_example =
    read_peer_messages-IsPeerHistory scripted (git_runner scripted) "/work/repo" peer

append_and_publish_owned_message-IsOwnedPublication_example :
    Effect
      (λ _. Unit)
      (IsOwnedPublication scripted
        (git_runner scripted)
        store
        task_message
        destination
        "/run"
        "env"
        "x-1")
      (append_and_publish_owned_message scripted
        (git_runner scripted)
        "/run"
        "env"
        "x-1"
        store
        task_message
        destination)
append_and_publish_owned_message-IsOwnedPublication_example =
    append_and_publish_owned_message-IsOwnedPublication scripted (git_runner scripted) store
      task_message destination "/run" "env" "x-1"
