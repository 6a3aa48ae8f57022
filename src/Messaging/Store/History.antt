-- ===== src/Messaging/Store/History.antt =====
-- What OutboundMessageStore.messages returns and raises, whatever Git answers.
use mathlib.Core.List.{reverse-cons}
use peoplebot_releases.Base.{
  suc, String, ◌≡◌, refl, ap, ◌∙◌, ◌≤◌, true, false, Option, none, some, List, [], ◌∷◌, arith, any,
  reverse, length, length-append, ◌==◌, split_lines, eqb,
}
use peoplebot_releases.Base.Result
use peoplebot_releases.Base.Result.{
  Error, Result, ok, err, message_error, provenance_error, resolution_error, value_error, os_error,
  raised,
}
use peoplebot_releases.Base.Exec.{pure, translate}
use peoplebot_releases.Base.Exec.Spec.{
  Spec, Post, Anything, Spec-pure, Spec-lift, Spec-bind, Spec-guard, Spec-if, Spec-rethrow,
  Spec-weaken,
}
use peoplebot_releases.State.{StateRef}
use peoplebot_releases.State.Failures.{is_value_error, state_ref-raises}
use peoplebot_releases.State.Resolve.{Completed}
use peoplebot_releases.State.Resolve.Laws.{IsResolutionFailure, resolve_state-Resolves}
use peoplebot_releases.Host.{External, Loaded, loaded, not_json, refused, too_deep}
use peoplebot_releases.Provenance.Plumbing.{git_plain}
use peoplebot_releases.Provenance.Plumbing.Laws.{Spec-git}
use peoplebot_releases.Messaging.Message.{Message, message_from_dict}
use peoplebot_releases.Messaging.Message.Failures.{message_from_dict-raises}
use peoplebot_releases.Messaging.Store.{
  PublishedMessage, MessageStore, from_resolution, malformed, message_state, check_state,
  parse_message, valid_tip, current, read_message, read_history, messages_at, history_of, messages,
}

-- MessageError, ProvenanceError from Git itself, ValueError for a tip that is no commit ID, OSError of
-- a process, and RecursionError of json.loads.
abbrev pub IsStoreFailure : Error → Type 0
IsStoreFailure (message_error _ _) = Unit
IsStoreFailure (provenance_error _ _) = Unit
IsStoreFailure (value_error _) = Unit
IsStoreFailure os_error = Unit
IsStoreFailure (raised name) = name ≡ "builtins.RecursionError"
IsStoreFailure _ = ⊥

-- Messages whose identities are new after those seen and all differ, each with a State that selects
-- message.json at some commit of the store's repository, and with the store's reference.
abbrev pub IsHistory : MessageStore → List String → List PublishedMessage → Type 0
IsHistory store seen [] = Unit
IsHistory store seen (p ∷ ps) =
    (any (λ s. s == p.message.message_id) seen ≡ false)
    × (p.state ≡ message_state store p.state.commit)
    × (p.ref_name ≡ store.ref_name)
    × IsHistory store (p.message.message_id ∷ seen) ps

length-reverse : {A : Type 0} (xs : List A) → length (reverse xs) ≡ length xs
length-reverse [] = refl
length-reverse (x ∷ xs) =
    ap length (reverse-cons x xs)
    ∙ omega (arith, length-append (reverse xs) (x ∷ []), length-reverse xs)

malformed-post : (e : Error) → is_value_error e ≡ true → IsStoreFailure (malformed e)
malformed-post (value_error s) h = tt
malformed-post _ h = absurd (cc h)

translated-Post :
    (r : Result Message)
    → ((e : Error) → r ≡ err e → is_value_error e ≡ true)
    → Post IsStoreFailure Anything (translate malformed r)
translated-Post (ok m) h = tt
translated-Post (err e) h = malformed-post e (h e refl)

parse_message-Post : (v : Loaded) → Post IsStoreFailure Anything (parse_message v)
unfolding parse_message
parse_message-Post (loaded v) =
    translated-Post (message_from_dict v) (λ e h. message_from_dict-raises v h)
parse_message-Post not_json = tt
parse_message-Post refused = tt
parse_message-Post too_deep = refl

resolution_translated : (e : Error) → IsResolutionFailure e → IsStoreFailure (from_resolution e)
resolution_translated (resolution_error c d) h = tt
resolution_translated os_error h = tt
resolution_translated _ h = absurd h

checked-Post :
    (r : Result StateRef)
    → ((e : Error) → r ≡ err e → is_value_error e ≡ true)
    → Post IsStoreFailure Anything (Result.◌>>◌ r (ok tt))
checked-Post (ok s) h = tt
checked-Post (err e) h = allowed e (h e refl)
  where
    allowed : (e : Error) → is_value_error e ≡ true → IsStoreFailure e
    allowed (value_error s) k = tt
    allowed _ k = absurd (cc k)

pub check_state-Post :
    (store : MessageStore) (commit : String)
    → Post IsStoreFailure Anything (check_state store commit)
unfolding check_state
check_state-Post store commit = checked-Post _ (λ e h. state_ref-raises _ _ _ h)

module _ (X : External) (store : MessageStore) where
  Spec-plain : (a : List String) → Spec IsStoreFailure Anything (git_plain X store.plumbing a)
  Spec-plain a = Spec-git X (λ c d. tt) tt store.plumbing [] a ""

  Spec-read_message : (commit : String) → Spec IsStoreFailure Anything (read_message X store commit)
  unfolding read_message
  Spec-read_message commit = Spec-bind _ _ (Spec-plain _) λ parents _. Spec-guard _ _ _ tt λ _.
      Spec-bind _ _ (Spec-lift _ (check_state-Post store commit)) λ _ _.
        Spec-bind _ _
          (Spec-rethrow from_resolution _ (resolve_state-Resolves X _ _) resolution_translated)
          λ resolved _. Spec-bind _ _ (Spec-plain _) λ tree _. Spec-guard _ _ _ tt λ _.
            Spec-bind _ _ (Spec-plain _)
              λ content _. Spec-guard _ _ _ tt λ _. Spec-lift _ (parse_message-Post _)

  abbrev Reads : List String → List String → List PublishedMessage → Type 0
  Reads seen commits ps = IsHistory store seen ps × (length ps ≡ length commits)

  Spec-read_history :
      (seen commits : List String)
      → Spec IsStoreFailure (Reads seen commits) (read_history X store seen commits)
  unfolding read_history
  Spec-read_history seen [] = Spec-pure _ (tt, refl)
  Spec-read_history seen (commit ∷ commits) = Spec-bind _ _ (Spec-read_message commit) λ m _.
      Spec-guard _ _ _ tt λ new.
        Spec-bind _ _ (Spec-read_history (m.message_id ∷ seen) commits)
          λ rest h. Spec-pure _ ((new, refl, refl, h.0), ap suc h.1)

  abbrev Lists : List PublishedMessage → Type 0
  Lists ps = IsHistory store [] ps × (length ps ≤ 256)

  Spec-messages_at : (tip : String) → Spec IsStoreFailure Lists (messages_at X store tip)
  unfolding messages_at
  Spec-messages_at tip = Spec-guard _ _ _ tt λ _. Spec-bind _ _ (Spec-plain _) λ history _.
      Spec-guard _ _ _ tt λ _. Spec-guard _ _ _ tt λ few.
        Spec-weaken _ (Spec-read_history [] _)
          λ ps h. (h.0, ground (arith, few, h.1, length-reverse (split_lines history.stdout)))

  Spec-history_of : (tip : Option String) → Spec IsStoreFailure Lists (history_of X store tip)
  unfolding history_of
  Spec-history_of none = Spec-pure _ (tt, omega arith)
  Spec-history_of (some tip) = Spec-messages_at tip

  Spec-valid_tip : (c : Completed) → Spec IsStoreFailure Anything (valid_tip X c)
  unfolding valid_tip
  Spec-valid_tip c = Spec-guard _ _ _ tt λ _. Spec-pure _ tt

  pub Spec-current : Spec IsStoreFailure Anything (current X store)
  unfolding current
  Spec-current = Spec-bind _ _ (Spec-plain _) λ symbolic _. Spec-guard _ _ _ tt λ _.
      Spec-guard _ _ _ tt λ _. Spec-bind _ _ (Spec-plain _) λ result _.
        Spec-if (eqb result.returncode 1) (pure none) (valid_tip X result) (λ _. Spec-pure _ tt)
          (λ _. Spec-valid_tip result)

  -- Whatever Git answers, `messages` raises MessageError, ProvenanceError,
  -- ValueError, OSError or RecursionError, or returns
  -- at most 256 messages of which no two share an identity, each with a State that selects
  -- message.json at some commit of the store's repository, and with the store's reference.
  pub messages-IsHistory :
      (tip : Option String)
      → Spec IsStoreFailure (λ ps. IsHistory store [] ps × (length ps ≤ 256)) (messages X store tip)
  unfolding messages
  messages-IsHistory none = Spec-bind _ _ Spec-current λ tip _. Spec-history_of tip
  messages-IsHistory (some tip) = Spec-messages_at tip
