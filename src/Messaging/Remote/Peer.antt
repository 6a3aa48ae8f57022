-- ===== src/Messaging/Remote/Peer.antt =====
-- `read_peer_messages` and `resolve_message_states` of peoplebot/messaging.py.
use peoplebot_releases.Base.{
  String, ◌≡◌, refl, Bool, true, false, not, Option, none, some, List, [], ◌∷◌, any, all, eqb,
  arith, length, ◌≤◌, ◌==◌,
}
use peoplebot_releases.Base.Result.{message_error}
use peoplebot_releases.Base.Exec.{Exec, pure, raise, rethrow, raise_when, ◌>>=◌, ◌>>◌}
use peoplebot_releases.Base.Exec.Spec.{
  Spec, Spec-pure, Spec-bind, Spec-guard, Spec-any, Spec-weaken_errors,
}
use peoplebot_releases.State.{StateRef}
use peoplebot_releases.State.Resolve.{ResolvedState, resolve_state}
use peoplebot_releases.Host.{External, Host}
use peoplebot_releases.Messaging.Message.{Message}
use peoplebot_releases.Messaging.Store.{
  PublishedMessage, MessageStore, message_store, messages, from_resolution,
}
use peoplebot_releases.Messaging.Store.History.{IsHistory, messages-IsHistory}
use peoplebot_releases.Messaging.Remote.{
  PeerSource, GitRunner, in_time, verify_remote, inspect_remote,
}

-- item.message.sender in source.allowed_senders
abbrev pub is_allowed : List String → PublishedMessage → Bool
is_allowed senders p = any (λ s. s == p.message.sender) senders

-- The store is of the repository and the reference of the source.
pub record IsStoreOf (source : PeerSource) (store : MessageStore) : Type 0 where
  pub same_repository : store.repository ≡ source.endpoint.repository
  pub same_ref : store.ref_name ≡ source.endpoint.ref_name

Spec-message_store :
    (X : External) (checkout : String) (source : PeerSource)
    → Spec
        (λ _. Unit)
        (IsStoreOf source)
        (message_store X checkout source.endpoint.repository source.endpoint.ref_name)
unfolding message_store
Spec-message_store X checkout source = Spec-bind _ _ (Spec-any _) λ _ _.
    Spec-bind _ _ (Spec-any _) λ _ _.
      Spec-bind _ _ (Spec-any _)
        λ _ _. Spec-pure _ (record { same_repository = refl; same_ref = refl })

module _ (X : External) (runner : GitRunner X) where
  read_tip :
      String → PeerSource → Option String → Exec (Host X) (Option String × List PublishedMessage)
  unfolding in_time
  read_tip checkout source none = pure (none, [])
  read_tip checkout source (some tip) = do
    answer ←
        runner checkout
          ("fetch" ∷ "--no-tags" ∷ "--no-write-fetch-head" ∷ source.endpoint.remote ∷ tip ∷ [])
    fetched ← in_time X (message_error "message.read_uncertain" "peer fetch timed out") answer
    raise_when (not (eqb fetched.returncode 0))
        (message_error "message.read_failed" "peer message State could not be fetched")
    store ← message_store X checkout source.endpoint.repository source.endpoint.ref_name
    history ← messages X store (some tip)
    raise_when (not (all (is_allowed source.allowed_senders) history))
        (message_error "message.sender_unauthorized" "peer history has an unapproved sender")
    pure (some tip, history)

  unfoldable pub read_peer_messages :
      String → PeerSource → Exec (Host X) (Option String × List PublishedMessage)
  unfolding read_tip
  read_peer_messages checkout source = do
    verify_remote X runner checkout source.endpoint false
    tip ← inspect_remote X runner checkout source.endpoint
    read_tip checkout source tip

  -- Every sender is an allowed one, no two messages share an identity, and each is bound to a
  -- commit of the source's repository.
  abbrev pub IsPeerHistory : PeerSource → Option String × List PublishedMessage → Type 0
  IsPeerHistory source (none, ps) = ps ≡ []
  IsPeerHistory source (some tip, ps) =
      (all (is_allowed source.allowed_senders) ps ≡ true)
      × ((store : MessageStore) × IsStoreOf source store × IsHistory store [] ps)
      × (length ps ≤ 256)

  Spec-read_tip :
      (checkout : String) (source : PeerSource) (tip : Option String)
      → Spec (λ _. Unit) (IsPeerHistory source) (read_tip checkout source tip)
  unfolding read_tip
  Spec-read_tip checkout source none = Spec-pure _ refl
  Spec-read_tip checkout source (some tip) = Spec-bind _ _ (Spec-any _) λ _ _.
      Spec-bind _ _ (Spec-any _) λ _ _. Spec-guard _ _ _ tt λ _.
        Spec-bind _ _ (Spec-message_store X checkout source) λ store bound.
          Spec-bind _ _ (Spec-weaken_errors _ (messages-IsHistory X store (some tip)) λ _ _. tt)
            λ history h.
              Spec-guard _ _ _ tt
                λ allowed. Spec-pure _ (grind (arith, allowed), (store, bound, h.0), h.1)

  -- Whatever Git answers, `read_peer_messages` that returns has read no message where the remote has
  -- no tip, and otherwise at most 256 messages, all of allowed senders, no two with one identity,
  -- each with a State that selects message.json at some commit of the source's repository.
  pub read_peer_messages-IsPeerHistory :
      (checkout : String) (source : PeerSource)
      → Spec (λ _. Unit) (IsPeerHistory source) (read_peer_messages checkout source)
  unfolding read_peer_messages
  read_peer_messages-IsPeerHistory checkout source =
      Spec-bind _ _ (Spec-any _)
        λ _ _. Spec-bind _ _ (Spec-any _) λ tip _. Spec-read_tip checkout source tip

module _ (X : External) (checkouts : String → Option String) where
  resolve_in : Option String → StateRef → Exec (Host X) ResolvedState
  resolve_in none state = raise (
      message_error "message.state_repository_unavailable"
        "no caller-supplied checkout exists for a referenced State")
  resolve_in (some checkout) state = rethrow from_resolution (resolve_state X checkout state)

  resolve_all : List StateRef → Exec (Host X) (List ResolvedState)
  unfolding resolve_in
  resolve_all [] = pure []
  resolve_all (s ∷ ss) = do
    r ← resolve_in (checkouts s.repository) s
    rs ← resolve_all ss
    pure (r ∷ rs)

  -- `resolve_message_states`, of a mapping of the repositories to their checkouts.
  unfoldable pub resolve_message_states : Message → Exec (Host X) (List ResolvedState)
  unfolding resolve_all
  resolve_message_states m = resolve_all m.states
