-- ===== src/Messaging/Remote/Publication/Laws.antt =====
-- What the records of a publication may claim.
use peoplebot_releases.Base.{
  ℕ, String, ◌≡◌, ◌≢◌, ◌⊎◌, inl, inr, refl, ap, true, false, not, ◌&&◌, Option, none, some, arith,
  eqb, eq_iff, eq_refl, if-cases,
}
use peoplebot_releases.Base.Exec.Spec.{Spec, Spec-pure, Spec-bind, Spec-if, Spec-any}
use peoplebot_releases.State.{StateRef}
use peoplebot_releases.State.Resolve.{Completed}
use peoplebot_releases.Host.{External}
use peoplebot_releases.Messaging.Store.{PublishedMessage}
use peoplebot_releases.Messaging.Remote.{
  OutboundDestination, MessagePublication, PublicationDisposition, GitRunner, remote_verified,
  failed, uncertain, same_tip, conclude, reconciled,
}
use peoplebot_releases.Messaging.Remote.Publication.{
  after_push, push_message, publish_message, reconcile_message_publication,
}

pub same_tip→≡ : (a b : Option String) → same_tip a b ≡ true → a ≡ b
unfolding same_tip
same_tip→≡ none none h = refl
same_tip→≡ none (some b) h = absurd (cc h)
same_tip→≡ (some a) none h = absurd (cc h)
same_tip→≡ (some a) (some b) h = ap some ((eq_iff a b).0 h)

pub same_tip_refl : (a : Option String) → same_tip a a ≡ true
unfolding same_tip
same_tip_refl none = refl
same_tip_refl (some a) = eq_refl a

pub same_tip→≢ : (a b : Option String) → same_tip a b ≡ false → a ≢ b
same_tip→≢ a b h p = grind (arith, same_tip_refl a)

-- The evidence that each disposition needs.
abbrev pub Evidence : PublicationDisposition → MessagePublication → Type 0
Evidence remote_verified p = p.observed_remote ≡ some p.local_state.commit
Evidence failed p =
    ((p.code ≡ "message.remote_conflict") × (p.observed_remote ≢ p.expected_remote))
    ⊎ (p.observed_remote ≡ p.expected_remote)
Evidence uncertain p = p.observed_remote ≢ some p.local_state.commit

-- The record is about the State and the expected tip that were given, and has the evidence for its
-- disposition.
pub record IsTruthful (local : StateRef) (expected : Option String) (p : MessagePublication)
    : Type 0 where
  pub local_kept : p.local_state ≡ local
  pub expected_kept : p.expected_remote ≡ expected
  pub evidence : Evidence p.disposition p

conclude-IsTruthful :
    (local : StateRef) (expected : Option String) (pushed : ℕ) (observed : Option (Option String))
    → IsTruthful local expected (conclude local expected pushed observed)
unfolding conclude
conclude-IsTruthful local expected pushed none = record {
  local_kept = refl;
  expected_kept = refl;
  evidence = λ h. grind (arith, h);
}
conclude-IsTruthful local expected pushed (some observed) =
    if-cases (IsTruthful local expected) (same_tip observed (some local.commit)) _ _
      (λ same. record { local_kept = refl; expected_kept = refl; evidence = same_tip→≡ _ _ same })
      λ differs.
        if-cases (IsTruthful local expected) (not (eqb pushed 0) && same_tip observed expected) _ _
          (λ refused. record {
            local_kept = refl;
            expected_kept = refl;
            evidence = inr (same_tip→≡ _ _ (grind (arith, refused)));
          })
          λ _. record { local_kept = refl; expected_kept = refl; evidence = same_tip→≢ _ _ differs }

reconciled-IsTruthful :
    (p : MessagePublication) (observed : Option String)
    → IsTruthful p.local_state p.expected_remote (reconciled p observed)
unfolding reconciled
reconciled-IsTruthful p observed =
    if-cases (IsTruthful p.local_state p.expected_remote)
      (same_tip observed (some p.local_state.commit)) _ _
      (λ same. record { local_kept = refl; expected_kept = refl; evidence = same_tip→≡ _ _ same })
      λ differs.
        if-cases (IsTruthful p.local_state p.expected_remote) (same_tip observed p.expected_remote)
          _ _
          (λ prior. record {
            local_kept = refl;
            expected_kept = refl;
            evidence = inr (same_tip→≡ _ _ prior);
          })
          λ _. record { local_kept = refl; expected_kept = refl; evidence = same_tip→≢ _ _ differs }

module _ (X : External) (runner : GitRunner X) where
  Spec-after_push :
      (checkout : String) (local : PublishedMessage) (destination : OutboundDestination)
      (expected : Option String) (pushed : Option Completed)
      → Spec
          (λ _. Unit)
          (IsTruthful local.state expected)
          (after_push X runner checkout local destination expected pushed)
  unfolding after_push
  Spec-after_push checkout local destination expected none =
      Spec-pure _
        (record { local_kept = refl; expected_kept = refl; evidence = λ h. grind (arith, h) })
  Spec-after_push checkout local destination expected (some pushed) =
      Spec-bind _ _ (Spec-any _) λ observed _.
        Spec-pure _ (conclude-IsTruthful local.state expected pushed.returncode observed)

  Spec-push_message :
      (checkout : String) (local : PublishedMessage) (destination : OutboundDestination)
      (expected : Option String)
      → Spec
          (λ _. Unit)
          (IsTruthful local.state expected)
          (push_message X runner checkout local destination expected)
  unfolding push_message
  Spec-push_message checkout local destination expected =
      Spec-bind _ _ (Spec-any _)
        λ pushed _. Spec-after_push checkout local destination expected pushed

  pub publish_message-IsTruthful :
      (checkout : String) (local : PublishedMessage) (destination : OutboundDestination)
      (expected : Option String)
      → Spec
          (λ _. Unit)
          (IsTruthful local.state expected)
          (publish_message X runner checkout local destination expected)
  unfolding publish_message
  publish_message-IsTruthful checkout local destination expected = Spec-bind _ _ (Spec-any _) λ _ _.
      Spec-bind _ _ (Spec-any _) λ before _.
        Spec-if (not (same_tip before expected)) _ _
          (λ moved. Spec-pure _ (record {
            local_kept = refl;
            expected_kept = refl;
            evidence = inl (refl, same_tip→≢ _ _ (grind (arith, moved)));
          }))
          λ _. Spec-push_message checkout local destination expected

  pub reconcile_message_publication-IsTruthful :
      (checkout : String) (publication : MessagePublication) (destination : OutboundDestination)
      → Spec
          (λ _. Unit)
          (IsTruthful publication.local_state publication.expected_remote)
          (reconcile_message_publication X runner checkout publication destination)
  unfolding reconcile_message_publication
  reconcile_message_publication-IsTruthful checkout publication destination =
      Spec-bind _ _ (Spec-any _) λ _ _.
        Spec-bind _ _ (Spec-any _)
          λ observed _. Spec-pure _ (reconciled-IsTruthful publication observed)
