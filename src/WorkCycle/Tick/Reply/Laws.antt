-- ===== src/WorkCycle/Tick/Reply/Laws.antt =====
-- The reply of a tick answers its request, and when it cannot be built.
use peoplebot_releases.Base.{
  String, codes, length, ◌<>◌, ◌≡◌, sym, ap, ◌<◌, ◌+◌, refl, true, Option, arith,
}
use text.Mathlib.TextLemmas.{nil-append, cons-append}
use peoplebot_releases.Base.Result.{Error, Result, ok, err, value_error}
use peoplebot_releases.State.{StateRef}
use peoplebot_releases.State.Laws.{opt_str-eq-str}
use peoplebot_releases.Admission.Identity.{Bytes}
use peoplebot_releases.Messaging.Message.{Message, message, task, validate_correlated_reply}
use peoplebot_releases.Messaging.Message.Failures.{message-raises}
use peoplebot_releases.State.Failures.{is_value_error}
use peoplebot_releases.Messaging.Message.Laws.{
  message-eq-ok, message-purpose, identifier-length, validate_correlated_reply_iff,
}
use peoplebot_releases.Messaging.Store.{PublishedMessage}
use peoplebot_releases.WorkCycle.Policy.{TaskHandlerResult}
use peoplebot_releases.WorkCycle.Bindings.{CycleBindings}
use peoplebot_releases.WorkCycle.Tick.Reply.{reply_fields, reply_to_request}

length-codes : (s t : String) → length (codes (s <> t)) ≡ length (codes s) + length (codes t)
length-codes String.[] t = rw (nil-append t) (omega arith)
length-codes (String.◌∷◌ c s) t = rw (cons-append c s t) (omega (arith, length-codes s t))

value_detail : (e : Error) → is_value_error e ≡ true → (detail : String) × (e ≡ value_error detail)
value_detail (value_error s) h = (s, refl)
value_detail _ h = absurd (cc h)

module _ (sha256 : Bytes → String) (bindings : CycleBindings) (published : PublishedMessage)
    (result : TaskHandlerResult) (created_at : String) (memory_state : Option StateRef) where
  -- A reply that the tick builds to a task for its environment passes `validate_correlated_reply`.
  pub reply_to_request-validate :
      {answer : Message}
      → reply_to_request sha256 bindings published result created_at memory_state ≡ ok answer
      → published.message.kind ≡ task
      → published.message.recipient ≡ bindings.environment_id
      → validate_correlated_reply answer published.message ≡ ok tt
  unfolding reply_to_request
  reply_to_request-validate {answer} h is_task addressed =
      let same =
        message-eq-ok
          (reply_fields sha256 bindings.environment_id published.message result created_at
            memory_state)
          h in
      (validate_correlated_reply_iff answer published.message).1 (
        ap (λ f. f.kind) (sym same),
        is_task,
        opt_str-eq-str answer.reply_to (ap (λ f. f.reply_to) same),
        cc,
        cc,
        cc,
        cc,
      )

  -- A task whose purpose has more than 121 characters has no reply: the tick raises ValueError after
  -- its handler, whatever the result.
  pub reply_to_request-raises :
      121 < length (codes published.message.purpose)
      → (detail : String) × (reply_to_request sha256 bindings published result created_at
            memory_state
          ≡ err (value_error detail))
  unfolding reply_to_request
  reply_to_request-raises long =
      of
        (message (
          reply_fields sha256 bindings.environment_id published.message result created_at
            memory_state))
        refl
    where
      of :
          (r : Result Message)
          → message (
              reply_fields sha256 bindings.environment_id published.message result created_at
                memory_state)
            ≡ r
          → (detail : String) × (r ≡ err (value_error detail))
      of (ok answer) h =
          let (s, accepted) = message-purpose _ h in
          absurd (
            omega (
              arith,
              long,
              identifier-length (published.message.purpose <> ".result") "purpose" accepted,
              length-codes published.message.purpose ".result",
            ))
      of (err e) h =
          let (detail, same) = value_detail e (message-raises _ h) in (detail, ap err same)
