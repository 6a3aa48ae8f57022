-- ===== src/Messaging/Remote/Publication/Observed.antt =====
-- What the publications asked of the remote, where they returned.
use mathlib.Core.Path.{subst}
use peoplebot_releases.Base.{
  ℕ, String, ◌<>◌, ◌≡◌, ◌≢◌, refl, sym, ap, ◌∙◌, ◌⊎◌, inl, inr, Bool, true, false, not, Option,
  none, some, [], ◌∷◌, arith, if◌then◌else◌,
}
use peoplebot_releases.Base.Result.{Result, ok, err}
use peoplebot_releases.Base.Exec.{Exec, pure}
use peoplebot_releases.Base.Exec.Spec.{Post}
use peoplebot_releases.Base.Exec.Runs.{Effect, pure-run, bind-run, catch-run}
use peoplebot_releases.State.Resolve.{Completed}
use peoplebot_releases.Host.{External, Host}
use peoplebot_releases.Messaging.Store.{PublishedMessage}
use peoplebot_releases.Messaging.Remote.{
  OutboundDestination, MessagePublication, GitRunner, failed, uncertain, same_tip, conclude,
  reconciled, verify_remote, inspect_remote, is_message_error,
}
use peoplebot_releases.Messaging.Remote.Publication.{
  observe, after_push, push_message, publish_message, reconcile_message_publication,
}
use peoplebot_releases.Messaging.Remote.Publication.Laws.{
  IsTruthful, same_tip→≡, same_tip→≢, publish_message-IsTruthful,
  reconcile_message_publication-IsTruthful,
}

module _ (X : External) (runner : GitRunner X) (checkout : String)
    (destination : OutboundDestination) where
  -- The last thing that was done was an inspection of the remote, and it observed what the record
  -- says.
  abbrev pub IsInspected : Host X → MessagePublication → Type 0
  IsInspected w' p =
      (before : Host X) × (inspect_remote X runner checkout destination before
        ≡ (ok p.observed_remote, w'))

  -- Nothing was observed after the push.
  abbrev pub IsUnobserved : MessagePublication → Type 0
  IsUnobserved p = (p.disposition ≡ uncertain) × (p.observed_remote ≡ none)

  module _ (local : PublishedMessage) (expected : Option String) where
    -- The local commit was pushed to the reference of the destination, and nothing else by name.
    abbrev pub IsPushed : Host X → Type 0
    IsPushed w =
        (result : Option Completed) × (w' : Host X) × (runner checkout
            ("push"
              ∷ "--porcelain"
              ∷ "--no-tags"
              ∷ "--no-recurse-submodules"
              ∷ destination.remote
              ∷ (local.state.commit <> ":" <> destination.ref_name)
              ∷ [])
            w
          ≡ (ok result, w'))

    -- The remote is verified and inspected before the push, and pushed to only if it is as expected;
    -- the record is truthful of what an inspection that came last observed, or it is uncertain.
    pub record IsPublishedTo (w w' : Host X) (p : MessagePublication) : Type 0 where
      pub after_verification : Host X
      pub before_push : Host X
      pub found : Option String
      pub verified :
          verify_remote X runner checkout destination true w ≡ (ok tt, after_verification)
      pub inspected :
          inspect_remote X runner checkout destination after_verification ≡ (ok found, before_push)
      pub pushed_or_not :
          ((found ≢ expected)
            × (p.disposition ≡ failed)
            × (p.observed_remote ≡ found)
            × (before_push ≡ w'))
          ⊎ ((found ≡ expected) × IsPushed before_push × (IsInspected w' p ⊎ IsUnobserved p))
      pub truthful : IsTruthful local.state expected p

    abbrev IsSeen : Host X → Option (Option String) → Type 0
    IsSeen w' none = Unit
    IsSeen w' (some seen) =
        (before : Host X) × (inspect_remote X runner checkout destination before ≡ (ok seen, w'))

    abbrev OutcomeOf : Host X → MessagePublication → Type 0
    OutcomeOf w' p = IsInspected w' p ⊎ IsUnobserved p

    abandoned :
        (b : Bool) (t : Host X) (n : Exec (Host X) (Option (Option String)))
        {o : Option (Option String)} {w' : Host X}
        → (if b then some (pure none) else none) ≡ some n
        → n t ≡ (ok o, w')
        → o ≡ none
    unfolding pure
    abandoned true t n {o} {w'} same h =
        sym
          (pure-run none t
            (subst (λ k. k t ≡ (ok o, w')) {x = n} {y = pure none} (sym (cc same)) h)).0
    abandoned false t n same h = absurd (cc same)

    observe-run :
        (w : Host X) {o : Option (Option String)} {w' : Host X}
        → observe X runner checkout destination w ≡ (ok o, w')
        → IsSeen w' o
    unfolding observe
    observe-run w {o} {w'} h = elim (catch-run _ _ w h) [
      | inl ran ↦
          let (seen, t, asked, done) = bind-run _ _ w ran in
          let (same, same_world) = pure-run (some seen) t done in
          subst (IsSeen w') {y = o} same
            (subst (λ v. IsSeen v (some seen)) {y = w'} same_world (w, asked))
      | inr (e, t, n, raised, handled, done) ↦
          subst (IsSeen w') {x = none} {y = o}
            (sym (abandoned (is_message_error e) t n handled done)) tt
    ]

    concluded :
        (n : ℕ) (w' : Host X) (o : Option (Option String))
        → IsSeen w' o
        → OutcomeOf w' (conclude local.state expected n o)
    unfolding conclude
    concluded n w' none h = inr (refl, refl)
    concluded n w' (some seen) (before, asked) =
        inl (before, rw (observed_remote-conclude n seen) asked)
      where
        observed_remote-conclude :
            (n : ℕ) (seen : Option String)
            → (conclude local.state expected n (some seen)).observed_remote ≡ seen
        observed_remote-conclude n seen = ground arith

    after_push-run :
        (pushed : Option Completed) (w : Host X) {p : MessagePublication} {w' : Host X}
        → after_push X runner checkout local destination expected pushed w ≡ (ok p, w')
        → OutcomeOf w' p
    unfolding after_push
    after_push-run none w {p} {w'} h =
        let (same, _) = pure-run _ w h in subst (OutcomeOf w') {y = p} same (inr (refl, refl))
    after_push-run (some pushed) w {p} {w'} h =
        let (o, t, seen, done) = bind-run _ _ w h in
        let (same, same_world) =
          pure-run (conclude local.state expected pushed.returncode o) t done in
        subst (OutcomeOf w') {y = p} same (
          concluded pushed.returncode w' o
            (subst (λ v. IsSeen v o) same_world (observe-run w seen)))

    push_message-run :
        (w : Host X) {p : MessagePublication} {w' : Host X}
        → push_message X runner checkout local destination expected w ≡ (ok p, w')
        → IsPushed w × OutcomeOf w' p
    unfolding push_message
    push_message-run w h =
        let (pushed, t, ran, done) = bind-run _ _ w h in
        ((pushed, t, ran), after_push-run pushed t done)

    abbrev conflict_of : Option String → MessagePublication
    conflict_of before = record {
      code = "message.remote_conflict";
      disposition = failed;
      local_state = local.state;
      expected_remote = expected;
      observed_remote = before;
    }

    abbrev PushedOrNot : Option String → Host X → Host X → MessagePublication → Type 0
    PushedOrNot found before_push w' p =
        ((found ≢ expected)
          × (p.disposition ≡ failed)
          × (p.observed_remote ≡ found)
          × (before_push ≡ w'))
        ⊎ ((found ≡ expected) × IsPushed before_push × (IsInspected w' p ⊎ IsUnobserved p))

    moved_or_pushed :
        (before : Option String) (b : Bool) (w : Host X) {p : MessagePublication} {w' : Host X}
        → same_tip before expected ≡ b
        → (if not b
              then pure (conflict_of before)
              else push_message X runner checkout local destination expected)
            w
          ≡ (ok p, w')
        → PushedOrNot before w w' p
    moved_or_pushed before true w same h =
        (let (pushed, seen) = push_message-run w h in inr (same_tip→≡ _ _ same, pushed, seen))
    moved_or_pushed before false w {p} {w'} differs h =
        let (same, same_world) = pure-run (conflict_of before) w h in
        inl (
          same_tip→≢ _ _ differs,
          ap (λ q. q.disposition) {y = conflict_of before} (sym same),
          ap (λ q. q.observed_remote) {y = conflict_of before} (sym same),
          same_world,
        )

    publish_message-run :
        (w : Host X) (p : MessagePublication) (w' : Host X)
        → publish_message X runner checkout local destination expected w ≡ (ok p, w')
        → IsTruthful local.state expected p
        → IsPublishedTo w w' p
    unfolding publish_message
    publish_message-run w p w' h truthful =
        let (_, w1, verified, h) = bind-run _ _ w h in
        let (found, w2, inspected, h) = bind-run _ _ w1 h in
        record {
          after_verification = w1;
          before_push = w2;
          found = found;
          verified = verified;
          inspected = inspected;
          pushed_or_not = moved_or_pushed found (same_tip found expected) w2 refl h;
          truthful = truthful;
        }

    -- Where `publish_message` returns, it has verified the remote and inspected it. If the tip was not
    -- the expected one, it returns FAILED with that tip, and has done nothing since. Else it has pushed
    -- the local commit, and either the last thing that it did is an inspection, which observed what it
    -- returns, or it returns UNCERTAIN without a tip. It says REMOTE_VERIFIED only of an observed tip
    -- that is the local commit, FAILED only of one that is the expected tip, or before a push another
    -- one, and UNCERTAIN only where the local commit is not the tip that it returns.
    pub publish_message-IsPublishedTo :
        Effect
          (λ _. Unit)
          IsPublishedTo
          (publish_message X runner checkout local destination expected)
    publish_message-IsPublishedTo = record {
      at = λ w.
          publishes w (publish_message X runner checkout local destination expected w) refl
            ((publish_message-IsTruthful X runner checkout local destination expected).at w);
    }
      where
        publishes :
            (w : Host X) (r : Result MessagePublication × Host X)
            → publish_message X runner checkout local destination expected w ≡ r
            → Post (λ _. Unit) (IsTruthful local.state expected) r.0
            → Post (λ _. Unit) (IsPublishedTo w r.1) r.0
        publishes w (ok p, w') same h = publish_message-run w p w' same h
        publishes w (err e, w') same h = tt

  -- The remote is verified, and then inspected: the record is truthful of the tip that is observed.
  pub record IsReconciledTo (publication : MessagePublication) (w w' : Host X)
      (p : MessagePublication) : Type 0 where
    pub after_verification : Host X
    pub verified : verify_remote X runner checkout destination true w ≡ (ok tt, after_verification)
    pub inspected :
        inspect_remote X runner checkout destination after_verification ≡ (ok p.observed_remote, w')
    pub truthful : IsTruthful publication.local_state publication.expected_remote p

  observed_remote-reconciled :
      (p : MessagePublication) (seen : Option String) → (reconciled p seen).observed_remote ≡ seen
  unfolding reconciled
  observed_remote-reconciled p seen = ground arith

  module _ (publication : MessagePublication) where
    reconcile-run :
        (w : Host X) (p : MessagePublication) (w' : Host X)
        → reconcile_message_publication X runner checkout publication destination w ≡ (ok p, w')
        → IsTruthful publication.local_state publication.expected_remote p
        → IsReconciledTo publication w w' p
    unfolding reconcile_message_publication
    reconcile-run w p w' h truthful =
        let (_, w1, verified, h) = bind-run _ _ w h in
        let (seen, w2, inspected, h) = bind-run _ _ w1 h in
        let (same, same_world) = pure-run (reconciled publication seen) w2 h in
        let tip : p.observed_remote ≡ seen =
          ap (λ q. q.observed_remote) {y = reconciled publication seen} (sym same)
          ∙ observed_remote-reconciled publication seen in
        record {
          after_verification = w1;
          verified = verified;
          inspected = cc (inspected, tip, same_world);
          truthful = truthful;
        }

    -- Where `reconcile_message_publication` returns, it has verified the remote and then done nothing
    -- but inspect it. It returns the tip that was observed, keeps the State and the expected tip, and
    -- its disposition has the evidence of that tip which `publish_message` needs for it.
    pub reconcile_message_publication-IsReconciledTo :
        Effect
          (λ _. Unit)
          (IsReconciledTo publication)
          (reconcile_message_publication X runner checkout publication destination)
    reconcile_message_publication-IsReconciledTo = record {
      at = λ w.
          reconciles w (reconcile_message_publication X runner checkout publication destination w)
            refl
            ((reconcile_message_publication-IsTruthful X runner checkout publication destination).at
              w);
    }
      where
        reconciles :
            (w : Host X) (r : Result MessagePublication × Host X)
            → reconcile_message_publication X runner checkout publication destination w ≡ r
            → Post (λ _. Unit) (IsTruthful publication.local_state publication.expected_remote) r.0
            → Post (λ _. Unit) (IsReconciledTo publication w r.1) r.0
        reconciles w (ok p, w') same h = reconcile-run w p w' same h
        reconciles w (err e, w') same h = tt
