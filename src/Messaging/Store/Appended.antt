-- ===== src/Messaging/Store/Appended.antt =====
-- What OutboundMessageStore.append did in Git, where it returned.
use mathlib.Core.Path.{subst}
use mathlib.Core.List.{Memᴰ}
use peoplebot_releases.Base.{
  String, ◌<>◌, ◌≡◌, refl, ◌⊎◌, inl, inr, Bool, true, false, Option, none, some, List, [], ◌∷◌,
  ◌==◌, eq_iff, All, arith, is_object_id, if◌then◌else◌,
}
use peoplebot_releases.Base.Result
use peoplebot_releases.Base.Result.{Result, ok, err, >>=-eq-ok}
use peoplebot_releases.Base.Exec.Runs.{Effect, Effect-of, pure-run, bind-run, lift-run, rethrow-run}
use peoplebot_releases.Json.{str}
use peoplebot_releases.State.{state_ref}
use peoplebot_releases.State.Laws.{state_ref-eq-ok}
use peoplebot_releases.Host.{External, Host}
use peoplebot_releases.Provenance.Plumbing.{write_blob, write_single, write_commit}
use peoplebot_releases.Provenance.Refs.{update_ref}
use peoplebot_releases.Messaging.Message.{Message, message_bytes}
use peoplebot_releases.Messaging.Store.History.{IsStoreFailure}
use peoplebot_releases.Messaging.Store.Append.{append-IsPublished}
use peoplebot_releases.Messaging.Store.{
  PublishedMessage, MessageStore, message_state, check_state, find_published, append_errors,
  optional_list, or_zero, current, messages, write_message, publish_new, publish_unless, append,
  from_provenance,
}

pub check_state-eq-ok :
    (store : MessageStore) (commit : String)
    → check_state store commit ≡ ok tt
    → is_object_id commit ≡ true
unfolding check_state
check_state-eq-ok store commit h =
    let (s, made, _) =
      >>=-eq-ok (state_ref (str store.repository) (str commit) (str "message.json")) _ h in
    let (_, same, _, full) = state_ref-eq-ok _ _ _ {s = s} made in ground (arith, same, full)

module _ (m : Message) where
  -- The published message has the identity and the bytes of `m`.
  abbrev pub IsSame : PublishedMessage → Type 0
  IsSame p = (p.message.message_id ≡ m.message_id) × (message_bytes p.message ≡ message_bytes m)

  pub found-Mem :
      (ps : List PublishedMessage) {p : PublishedMessage}
      → find_published m ps ≡ ok (some p)
      → Memᴰ p ps × IsSame p
  unfolding find_published
  found-Mem [] h = absurd (cc h)
  found-Mem (q ∷ ps) {p} h =
      of (q.message.message_id == m.message_id) refl (message_bytes q.message == message_bytes m)
        refl (λ k. found-Mem ps k) h
    where
      of :
          (b : Bool)
          → (q.message.message_id == m.message_id) ≡ b
          → (c : Bool) → (message_bytes q.message == message_bytes m) ≡ c
          → (find_published m ps ≡ ok (some p) → Memᴰ p ps × IsSame p)
          → (if b
              then (if c
                  then ok (some q)
                  else err (
                      Result.message_error "message.id_conflict"
                        "message ID has conflicting content"))
              else find_published m ps)
            ≡ ok (some p)
          → Memᴰ p (q ∷ ps) × IsSame p
      of true same true bytes rest k = (
        Memᴰ.head (cc k),
        subst IsSame {x = q} {y = p} (cc k) ((eq_iff _ _).0 same, (eq_iff _ _).0 bytes),
      )
      of true same false bytes rest k = absurd (cc k)
      of false differs c bytes rest k = let (there, is) = rest k in (Memᴰ.tail there, is)

  pub absent-All :
      (ps : List PublishedMessage)
      → find_published m ps ≡ ok none
      → All (λ q. (q.message.message_id == m.message_id) ≡ false) ps
  unfolding find_published
  absent-All [] h = tt
  absent-All (q ∷ ps) h = (ground (arith, h), absent-All ps (ground (arith, h)))

module _ (X : External) (store : MessageStore) (m : Message) where
  -- The bytes of the message were written as the one file of a commit on the tip, and the reference of
  -- the store was moved from the tip to that commit.
  pub record IsAttached (tip : Option String) (commit : String) (w w' : Host X) : Type 0 where
    pub blob : String
    pub tree : String
    pub after_blob : Host X
    pub after_tree : Host X
    pub after_commit : Host X
    pub wrote_blob : write_blob X store.plumbing (message_bytes m) w ≡ (ok blob, after_blob)
    pub wrote_tree :
        write_single X store.plumbing "message.json" blob "write the message tree" after_blob
        ≡ (ok tree, after_tree)
    pub wrote_commit :
        write_commit X store.plumbing tree
          (optional_list tip)
          m.created_at
          ("PeopleBot message " <> m.message_id)
          after_tree
        ≡ (ok commit, after_commit)
    pub moved_ref :
        update_ref X store.plumbing append_errors store.ref_name commit (or_zero tip) after_commit
        ≡ (ok tt, w')

  -- The message with a new commit of the store.
  abbrev pub IsNew : Option String → Host X → Host X → PublishedMessage → Type 0
  IsNew tip w w' p =
      (p.message ≡ m)
      × (p.state ≡ message_state store p.state.commit)
      × (p.ref_name ≡ store.ref_name)
      × (is_object_id p.state.commit ≡ true)
      × IsAttached tip p.state.commit w w'

  -- The message of the history, which was read from the tip, or one that was added behind it.
  pub record IsAppended (w w' : Host X) (p : PublishedMessage) : Type 0 where
    pub tip : Option String
    pub history : List PublishedMessage
    pub after_tip : Host X
    pub after_history : Host X
    pub read_tip : current X store w ≡ (ok tip, after_tip)
    pub read_history : messages X store tip after_tip ≡ (ok history, after_history)
    pub kept_or_added :
        (Memᴰ p history × IsSame m p × (after_history ≡ w'))
        ⊎ (All (λ q. (q.message.message_id == m.message_id) ≡ false) history
            × IsNew tip after_history w' p)

  write_message-IsAttached :
      (tip : Option String) (w : Host X) {commit : String} {w' : Host X}
      → write_message X store m tip w ≡ (ok commit, w')
      → IsAttached tip commit w w'
  unfolding write_message
  write_message-IsAttached tip w h =
      let (blob, w1, wrote_blob, h) = bind-run _ _ w h in
      let (tree, w2, wrote_tree, h) = bind-run _ _ w1 h in
      let (commit, w3, wrote_commit, h) = bind-run _ _ w2 h in
      let (_, w4, moved, h) = bind-run _ _ w3 h in
      let (same, same_world) = pure-run commit w4 h in
      record {
        blob = blob;
        tree = tree;
        after_blob = w1;
        after_tree = w2;
        after_commit = w3;
        wrote_blob = wrote_blob;
        wrote_tree = wrote_tree;
        wrote_commit = cc (wrote_commit, same);
        moved_ref = cc (moved, same, same_world);
      }

  publish_new-IsNew :
      (tip : Option String) (w : Host X) {p : PublishedMessage} {w' : Host X}
      → publish_new X store m tip w ≡ (ok p, w')
      → IsNew tip w w' p
  unfolding publish_new
  publish_new-IsNew tip w {p} {w'} h =
      let (commit, w1, wrote, h) = bind-run _ _ w h in
      let (u, checked, h) = lift-run (check_state store commit) _ w1 h in
      let new : PublishedMessage = record {
        message = m;
        state = message_state store commit;
        ref_name = store.ref_name;
      } in
      let (same, same_world) = pure-run new w1 h in
      let attached =
        write_message-IsAttached tip w
          (rethrow-run from_provenance (write_message X store m tip) w wrote) in
      subst (λ v. IsNew tip w v p) same_world
        (subst (IsNew tip w w1) same
          (refl, refl, refl, check_state-eq-ok store commit checked, attached))

  publish_unless-run :
      (tip : Option String) (ps : List PublishedMessage) (o : Option PublishedMessage) (w : Host X)
      {p : PublishedMessage} {w' : Host X}
      → find_published m ps ≡ ok o
      → publish_unless X store m tip o w ≡ (ok p, w')
      → (Memᴰ p ps × IsSame m p × (w ≡ w'))
        ⊎ (All (λ q. (q.message.message_id == m.message_id) ≡ false) ps × IsNew tip w w' p)
  unfolding publish_unless
  publish_unless-run tip ps none w found h = inr (absent-All m ps found, publish_new-IsNew tip w h)
  publish_unless-run tip ps (some q) w {p} found h =
      let (same, same_world) = pure-run q w h in
      let (there, is) = found-Mem m ps found in
      inl (subst (λ r. Memᴰ r ps) {y = p} same there, subst (IsSame m) {y = p} same is, same_world)

  append-run :
      (w : Host X) {p : PublishedMessage} {w' : Host X}
      → append X store m w ≡ (ok p, w')
      → IsAppended w w' p
  unfolding append
  append-run w h =
      let (tip, w1, read_tip, h) = bind-run _ _ w h in
      let (history, w2, read_history, h) = bind-run _ _ w1 h in
      let (found, looked_up, h) = lift-run (find_published m history) _ w2 h in
      record {
        tip = tip;
        history = history;
        after_tip = w1;
        after_history = w2;
        read_tip = read_tip;
        read_history = read_history;
        kept_or_added = publish_unless-run tip history found w2 looked_up h;
      }

  -- `append` raises MessageError, ProvenanceError, ValueError, OSError or RecursionError, or returns.
  -- Then it has read the tip of the store and the history from it. Either the history has a message
  -- with the identity and the bytes of the given one, which is returned, and nothing was done since;
  -- or no message of the history has the identity, and the given one is returned with the commit of
  -- the store that was written of its bytes, on the tip, and that the reference was moved to from the
  -- tip as the last thing that was done.
  pub append-IsAppended : Effect IsStoreFailure IsAppended (append X store m)
  append-IsAppended =
      Effect-of (append X store m) (append-IsPublished X store m) λ w p w' h. append-run w h
