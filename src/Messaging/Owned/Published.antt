-- ===== src/Messaging/Owned/Published.antt =====
-- What `append_and_publish_owned_message` did, where it returned.
use mathlib.Core.Path.{subst}
use peoplebot_releases.Base.{
  String, ◌<>◌, ◌≡◌, refl, true, ◌||◌, not, ◌==◌, Option, none, some, arith, eq_iff,
}
use peoplebot_releases.Base.Result.{ok}
use peoplebot_releases.Base.Exec.{Exec, raise}
use peoplebot_releases.Base.Exec.Spec.{Spec-any}
use peoplebot_releases.Base.Exec.Runs.{
  Effect, Effect-of, Effect-run, pure-run, bind-run, guard-run, finally-run,
}
use peoplebot_releases.Host.{External, Host}
use peoplebot_releases.Admission.{
  ExecutionAdmission, AdmissionAttempt, try_acquire_execution, release_local,
}
use peoplebot_releases.Messaging.Message.{Message}
use peoplebot_releases.Messaging.Store.{MessageStore, append, current}
use peoplebot_releases.Messaging.Store.Appended.{IsAppended, append-IsAppended}
use peoplebot_releases.Messaging.Remote.{
  OutboundDestination, GitRunner, inspect_remote_tip, same_tip,
}
use peoplebot_releases.Messaging.Remote.Publication.{publish_message}
use peoplebot_releases.Messaging.Remote.Publication.Laws.{same_tip→≡}
use peoplebot_releases.Messaging.Remote.Publication.Observed.{
  IsPublishedTo, publish_message-IsPublishedTo,
}
use peoplebot_releases.Messaging.Owned.{
  OwnedMessagePublication, under_admission, as_publisher, append_and_publish,
  append_and_publish_owned_message,
}

module _ (X : External) (runner : GitRunner X) (store : MessageStore) (m : Message)
    (destination : OutboundDestination) where
  -- The tip of the remote is the local one, the message is appended, and then published on that tip.
  pub record IsAppendedAndPublished (w w' : Host X) (p : OwnedMessagePublication) : Type 0 where
    pub remote_tip : Option String
    pub after_remote : Host X
    pub after_local : Host X
    pub after_append : Host X
    pub read_remote :
        inspect_remote_tip X runner store.plumbing.checkout destination true w
        ≡ (ok remote_tip, after_remote)
    pub same_local : current X store after_remote ≡ (ok remote_tip, after_local)
    pub appended : IsAppended X store m after_local after_append p.local
    pub published :
        IsPublishedTo X runner store.plumbing.checkout destination p.local remote_tip after_append
          w' p.publication

  append_and_publish-run :
      (w : Host X) {p : OwnedMessagePublication} {w' : Host X}
      → append_and_publish X runner store m destination w ≡ (ok p, w')
      → IsAppendedAndPublished w w' p
  unfolding append_and_publish
  append_and_publish-run w {p} {w'} h =
      let (remote, w1, read_remote, h) = bind-run _ _ w h in
      let (local_tip, w2, read_local, h) = bind-run _ _ w1 h in
      let (tips, h) = guard-run (not (same_tip local_tip remote)) _ _ w2 h in
      let (local, w3, appended, h) = bind-run _ _ w2 h in
      let (publication, w4, published, h) = bind-run _ _ w3 h in
      let new : OwnedMessagePublication = record { local = local; publication = publication } in
      let (same, same_world) = pure-run new w4 h in
      let tip : local_tip ≡ remote = same_tip→≡ local_tip remote (ground (arith, tips)) in
      subst (λ v. IsAppendedAndPublished w v p) same_world
        (subst (IsAppendedAndPublished w w4) same (record {
          remote_tip = remote;
          after_remote = w1;
          after_local = w2;
          after_append = w3;
          read_remote = read_remote;
          same_local = cc (read_local, tip);
          appended = Effect-run (append X store m) w2 (append-IsAppended X store m) appended;
          published =
              Effect-run (publish_message X runner store.plumbing.checkout local destination remote)
                w3
                (publish_message-IsPublishedTo X runner store.plumbing.checkout destination local
                  remote)
                published;
        }))

  module _ (runtime_root environment_id execution_id : String) where
    -- All of it is done under the admission of the environment's publisher, which is then released.
    pub record IsOwnedPublication (w w' : Host X) (p : OwnedMessagePublication) : Type 0 where
      pub attempt : AdmissionAttempt
      pub admission : ExecutionAdmission
      pub after_acquire : Host X
      pub after_publish : Host X
      pub same_repository : store.repository ≡ destination.repository
      pub same_ref : store.ref_name ≡ destination.ref_name
      pub acquired :
          try_acquire_execution X.sha256 runtime_root environment_id
            ("message-publisher:" <> environment_id)
            execution_id
            w
          ≡ (ok attempt, after_acquire)
      pub granted : attempt.admission ≡ some admission
      pub done : IsAppendedAndPublished after_acquire after_publish p
      pub released : release_local admission after_publish ≡ (ok tt, w')

    under_admission-run :
        {T : Type 0} (task : Exec (Host X) T) (a : Option ExecutionAdmission) (w : Host X) {t : T}
        {w' : Host X}
        → under_admission X task a w ≡ (ok t, w')
        → (admission : ExecutionAdmission) × (v : Host X) × (a ≡ some admission)
          × (task w ≡ (ok t, v))
          × (release_local admission v ≡ (ok tt, w'))
    unfolding under_admission raise
    under_admission-run task none w h = absurd (cc h)
    under_admission-run task (some admission) w h =
        let (v, ran, released) = finally-run task (release_local admission) w h in
        (admission, v, refl, ran, released)

    owned-run :
        (w : Host X) (p : OwnedMessagePublication) (w' : Host X)
        → append_and_publish_owned_message X runner runtime_root environment_id execution_id store m
            destination w
          ≡ (ok p, w')
        → IsOwnedPublication w w' p
    unfolding append_and_publish_owned_message as_publisher
    owned-run w p w' h =
        let (same, h) =
          guard-run
            (not (store.repository == destination.repository)
              || not (store.ref_name == destination.ref_name))
            _ _ w h in
        let (attempt, w1, acquired, h) = bind-run _ _ w h in
        let (admission, v, granted, ran, released) =
          under_admission-run (append_and_publish X runner store m destination) attempt.admission w1
            h in
        record {
          attempt = attempt;
          admission = admission;
          after_acquire = w1;
          after_publish = v;
          same_repository = ground (arith, same, eq_iff store.repository destination.repository);
          same_ref = ground (arith, same, eq_iff store.ref_name destination.ref_name);
          acquired = acquired;
          granted = granted;
          done = append_and_publish-run w1 ran;
          released = released;
        }

    -- Where `append_and_publish_owned_message` returns, the store and the destination have the same
    -- repository and reference, and the lock of the environment's publisher was acquired, and released
    -- at the end. In between the tips of the remote and of the store were the same, the given message
    -- was appended, and the message of the store was published on that tip, as `append` and
    -- `publish_message` say.
    pub append_and_publish_owned_message-IsOwnedPublication :
        Effect
          (λ _. Unit)
          IsOwnedPublication
          (append_and_publish_owned_message X runner runtime_root environment_id execution_id store
            m destination)
    append_and_publish_owned_message-IsOwnedPublication =
        Effect-of
          (append_and_publish_owned_message X runner runtime_root environment_id execution_id store
            m destination)
          (Spec-any _) owned-run
