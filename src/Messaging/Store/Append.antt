-- ===== src/Messaging/Store/Append.antt =====
-- What OutboundMessageStore.append returns and raises, whatever Git answers.
use peoplebot_releases.Base.{
  String, ◌≡◌, refl, Option, none, some, List, [], ◌∷◌, ◌==◌, eq_iff, if-cases,
}
use peoplebot_releases.Base.Result.{Error, provenance_error, value_error, os_error}
use peoplebot_releases.Base.Exec.Spec.{
  Spec, Post, Anything, Spec-pure, Spec-lift, Spec-bind, Spec-rethrow,
}
use peoplebot_releases.Host.{External}
use peoplebot_releases.Provenance.Refs.Laws.{Allows, Spec-update_ref}
use peoplebot_releases.Provenance.Plumbing.Laws.{
  Spec-write_blob, Spec-write_single, Spec-write_commit,
}
use peoplebot_releases.Messaging.Message.{Message, message_bytes}
use peoplebot_releases.Messaging.Store.{
  PublishedMessage, MessageStore, message_state, find_published, from_provenance, append_errors,
  write_message, publish_new, publish_unless, append,
}
use peoplebot_releases.Messaging.Store.History.{
  IsStoreFailure, IsHistory, messages-IsHistory, Spec-current, check_state-Post,
}

-- The message, with its identity and its bytes, bound to a commit of the store.
pub record IsPublished (store : MessageStore) (m : Message) (p : PublishedMessage) : Type 0 where
  pub same_id : p.message.message_id ≡ m.message_id
  pub same_bytes : message_bytes p.message ≡ message_bytes m
  pub bound : p.state ≡ message_state store p.state.commit
  pub same_ref : p.ref_name ≡ store.ref_name

module _ (store : MessageStore) (m : Message) where
  abbrev Found : Option PublishedMessage → Type 0
  Found none = Unit
  Found (some p) = IsPublished store m p

  find_published-Post :
      (seen : List String) (ps : List PublishedMessage)
      → IsHistory store seen ps
      → Post IsStoreFailure Found (find_published m ps)
  unfolding find_published
  find_published-Post seen [] h = tt
  find_published-Post seen (p ∷ ps) (new, bound, ref_kept, rest) =
      if-cases (Post IsStoreFailure Found) (p.message.message_id == m.message_id) _ _
        (λ same.
          if-cases (Post IsStoreFailure Found) (message_bytes p.message == message_bytes m) _ _
            (λ bytes. record {
              same_id = (eq_iff _ _).0 same;
              same_bytes = (eq_iff _ _).0 bytes;
              bound = bound;
              same_ref = ref_kept;
            })
            λ _. tt)
        λ _. find_published-Post _ ps rest

-- What a commit can raise, before and after the handler of `append`.
abbrev WriteFailure : Error → Type 0
WriteFailure (provenance_error _ _) = Unit
WriteFailure (value_error _) = Unit
WriteFailure os_error = Unit
WriteFailure _ = ⊥

write_failure : (e : Error) → WriteFailure e → IsStoreFailure (from_provenance e)
write_failure (provenance_error c d) h = tt
write_failure (value_error s) h = tt
write_failure os_error h = tt
write_failure _ h = absurd h

append-Allows : Allows WriteFailure append_errors
append-Allows = record {
  conflict = tt;
  symbolic = tt;
  inspection = tt;
  persistence = tt;
  provenance = λ _ _. tt;
  value = λ _. tt;
  os = tt;
}

module _ (X : External) (store : MessageStore) (m : Message) where
  Spec-write_message :
      (tip : Option String) → Spec WriteFailure Anything (write_message X store m tip)
  unfolding write_message
  Spec-write_message tip =
      Spec-bind _ _ (Spec-write_blob X (λ _ _. tt) tt store.plumbing _) λ blob _.
        Spec-bind _ _ (Spec-write_single X (λ _ _. tt) tt store.plumbing _ _ _) λ tree _.
          Spec-bind _ _ (Spec-write_commit X (λ _ _. tt) tt (λ _. tt) store.plumbing _ _ _ _)
            λ commit _.
              Spec-bind _ _ (Spec-update_ref X store.plumbing _ append-Allows _ _ _)
                λ _ _. Spec-pure _ tt

  Spec-publish_unless :
      (tip : Option String) (found : Option PublishedMessage)
      → Found store m found
      → Spec IsStoreFailure (IsPublished store m) (publish_unless X store m tip found)
  unfolding publish_unless publish_new
  Spec-publish_unless tip (some p) h = Spec-pure _ h
  Spec-publish_unless tip none h =
      Spec-bind _ _ (Spec-rethrow from_provenance _ (Spec-write_message tip) write_failure)
        λ commit _. Spec-bind _ _ (Spec-lift _ (check_state-Post store commit)) λ _ _.
          Spec-pure _ (record { same_id = refl; same_bytes = refl; bound = refl; same_ref = refl })

  -- Whatever Git answers, `append` raises MessageError, ProvenanceError, ValueError, OSError or
  -- RecursionError, or returns a published message with the identity and the bytes of the given one, bound to a commit in the
  -- store's repository and to its reference: a message of the history that has the identity and
  -- other bytes is never returned for it.
  pub append-IsPublished : Spec IsStoreFailure (IsPublished store m) (append X store m)
  unfolding append
  append-IsPublished = Spec-bind _ _ (Spec-current X store) λ tip _.
      Spec-bind _ _ (messages-IsHistory X store tip) λ existing h.
        Spec-bind _ _ (Spec-lift _ (find_published-Post store m [] existing h.0))
          λ found k. Spec-publish_unless tip found k
