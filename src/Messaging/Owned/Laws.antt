-- ===== src/Messaging/Owned/Laws.antt =====
-- A held lock keeps the owned publications from Git.
use peoplebot_releases.Base.{ℕ, String, ◌≡◌, some, ◌<>◌}
use peoplebot_releases.Base.Result.{err, message_error}
use peoplebot_releases.Base.Exec.{◌>>=◌}
use peoplebot_releases.Host.{External, Host}
use peoplebot_releases.Admission.{holder, resource_path}
use peoplebot_releases.Admission.Runs.{CanLock, contended_world, busy_attempt}
use peoplebot_releases.Messaging.Message.{Message}
use peoplebot_releases.Messaging.Store.{MessageStore}
use peoplebot_releases.Messaging.Owned.{under_admission, as_publisher, append_owned_message}

-- The lock of an environment's publisher.
abbrev publisher : String → String
publisher environment_id = "message-publisher:" <> environment_id

module _ (X : External) (root e x : String) (w : Host X) (d : ℕ) where
  -- While another publisher holds the environment's lock, no message is written, and files,
  -- repositories and locks are left alone.
  pub append_owned_message-busy :
      (store : MessageStore) (m : Message)
      → CanLock X.sha256 root e (publisher e) x w
      → holder (resource_path X.sha256 root e (publisher e)) w.os.held ≡ some d
      → append_owned_message X root e x store m w ≡ (
        err (message_error "message.publisher_busy" "environment publisher is already active"),
        contended_world X.sha256 root e (publisher e) x w,
      )
  unfolding append_owned_message as_publisher under_admission ◌>>=◌
  append_owned_message-busy store m c h = rw (busy_attempt X.sha256 root e (publisher e) x w d c h)
