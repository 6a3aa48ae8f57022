-- ===== src/Messaging/Owned.antt =====
-- `append_owned_message` and `append_and_publish_owned_message` of peoplebot/messaging.py: the local
-- publications of an environment run under its one lock.
pub mod Laws
pub mod Published
use peoplebot_releases.Base.{String, ◌<>◌, Bool, true, not, ◌||◌, Option, none, some, ◌==◌}
use peoplebot_releases.Base.Result.{value_error, message_error}
use peoplebot_releases.Base.Exec.{Exec, pure, raise, finally, raise_when, ◌>>=◌, ◌>>◌}
use peoplebot_releases.Host.{External, Host}
use peoplebot_releases.Admission.{
  AdmissionAttempt, ExecutionAdmission, try_acquire_execution, release_local,
}
use peoplebot_releases.Messaging.Message.{Message}
use peoplebot_releases.Messaging.Store.{PublishedMessage, MessageStore, append, current}
use peoplebot_releases.Messaging.Remote.{
  OutboundDestination, MessagePublication, GitRunner, same_tip, inspect_remote_tip,
}
use peoplebot_releases.Messaging.Remote.Publication.{publish_message}

pub record OwnedMessagePublication : Type 0 where
  pub local : PublishedMessage
  pub publication : MessagePublication

module _ (X : External) where
  -- `with` the admission of the environment's publisher: release in any case.
  under_admission : {T : Type 0} → Exec (Host X) T → Option ExecutionAdmission → Exec (Host X) T
  under_admission task none =
      raise (message_error "message.publisher_busy" "environment publisher is already active")
  under_admission task (some admission) = finally task (release_local admission)

  as_publisher : {T : Type 0} → String → String → String → Exec (Host X) T → Exec (Host X) T
  unfolding under_admission
  as_publisher runtime_root environment_id execution_id task = do
    attempt ←
        try_acquire_execution X.sha256 runtime_root environment_id
          ("message-publisher:" <> environment_id) execution_id
    under_admission task attempt.admission

  unfoldable pub append_owned_message :
      String → String → String → MessageStore → Message → Exec (Host X) PublishedMessage
  unfolding as_publisher
  append_owned_message runtime_root environment_id execution_id store m =
      as_publisher runtime_root environment_id execution_id (append X store m)

  module _ (runner : GitRunner X) where
    -- The body of the try block.
    append_and_publish :
        MessageStore → Message → OutboundDestination → Exec (Host X) OwnedMessagePublication
    append_and_publish store m destination = do
      remote_before ← inspect_remote_tip X runner store.plumbing.checkout destination true
      local_before ← current X store
      raise_when (not (same_tip local_before remote_before)) (
          message_error "message.local_remote_mismatch"
            "local outbound history does not match the verified write endpoint")
      local ← append X store m
      publication ← publish_message X runner store.plumbing.checkout local destination remote_before
      pure (record { local = local; publication = publication })

    unfoldable pub append_and_publish_owned_message :
        String
        → String
        → String
        → MessageStore
        → Message
        → OutboundDestination
        → Exec (Host X) OwnedMessagePublication
    unfolding append_and_publish as_publisher
    append_and_publish_owned_message runtime_root environment_id execution_id store m destination =
        do
          raise_when
              (not (store.repository == destination.repository)
                || not (store.ref_name == destination.ref_name))
              (value_error
                "message store and owner destination must identify the same repository/ref")
          as_publisher runtime_root environment_id execution_id
              (append_and_publish store m destination)
