-- ===== src/Execution/Outcome.antt =====
-- How an accepted ExecutionRecord concludes.
use peoplebot_releases.Base.{
  String, ◌⊎◌, inl, inr, ◌≡◌, refl, ◌↔◌, true, false, Option, none, some, List, [], ◌∷◌, length,
  arith, ◌≤◌,
}
use peoplebot_releases.Base.Result.{ok, raise_if, >>=-eq-ok, raise_if-eq-ok}
use peoplebot_releases.Json.{str}
use peoplebot_releases.State.{StateRef}
use peoplebot_releases.State.Laws.{same_state_iff, require_identity-eq-ok}
use peoplebot_releases.Execution.{
  ExecutionStatus, completed, no_change, blocked, failed, TerminalOutcome, ExecutionRecord,
  partial_state_artifacts, partial_state, check_outcome, execution_record, require_text, retains,
  is_success,
}
use peoplebot_releases.Execution.Timestamp.{Datetime, utc_timestamp, earlier}

-- What a status promises of the resulting State, the terminal outcome and the artifacts.
abbrev pub ConcludesAs : ExecutionStatus → ExecutionRecord → Type 0
ConcludesAs completed r =
    ((s : StateRef) × (r.resulting_state ≡ some s)) × (r.terminal_outcome ≡ none)
ConcludesAs no_change r = (r.resulting_state ≡ some r.starting_state) × (r.terminal_outcome ≡ none)
ConcludesAs _ r =
    ((t : TerminalOutcome) × (r.terminal_outcome ≡ some t))
    × (r.resulting_state ≡ none)
    × (length (partial_state_artifacts r) ≤ 1)

retains_iff : (start : StateRef) (o : Option StateRef) → (retains start o ≡ true) ↔ (o ≡ some start)
retains_iff start none = ground arith
retains_iff start (some s) = ground (arith, same_state_iff s start)

check-ConcludesAs :
    (s : ExecutionStatus) (r : ExecutionRecord)
    → r.status ≡ s
    → check_outcome r ≡ ok tt
    → ConcludesAs s r
unfolding check_outcome
check-ConcludesAs completed r e h = ground arith
check-ConcludesAs no_change r e h = ground (arith, retains_iff r.starting_state r.resulting_state)
check-ConcludesAs blocked r e h = ground arith
check-ConcludesAs failed r e h = ground arith

ConcludesAs-check :
    (s : ExecutionStatus) (r : ExecutionRecord)
    → r.status ≡ s
    → ConcludesAs s r
    → check_outcome r ≡ ok tt
unfolding check_outcome
ConcludesAs-check completed r e h = ground arith
ConcludesAs-check no_change r e h =
    ground (arith, retains_iff r.starting_state r.resulting_state, h.0, h.1)
ConcludesAs-check blocked r e h = ground arith
ConcludesAs-check failed r e h = ground arith

-- The identities of a record, and its times: the later of them is not before the other.
pub record IsBounded (r : ExecutionRecord) : Type 0 where
  pub execution_id : require_text r.execution_id "execution_id" ≡ ok r.execution_id
  pub environment_id : require_text r.environment_id "environment_id" ≡ ok r.environment_id
  pub instance_id : require_text r.instance_id "instance_id" ≡ ok r.instance_id
  pub objective : require_text r.objective "objective" ≡ ok r.objective
  pub started : Datetime
  pub started_at : utc_timestamp (str r.started_at) "started_at" ≡ ok started
  pub finished : Datetime
  pub finished_at : utc_timestamp (str r.finished_at) "finished_at" ≡ ok finished
  pub ordered : earlier finished started ≡ false

require_text_self : (v l : String) {s : String} → require_text v l ≡ ok s → require_text v l ≡ ok v
unfolding require_text
require_text_self v l h = ground (arith, h, require_identity-eq-ok (str v) l h)

IsBounded-of-record :
    (r : ExecutionRecord) {t : ExecutionRecord}
    → execution_record r ≡ ok t
    → IsBounded r × ConcludesAs r.status r
unfolding execution_record
IsBounded-of-record r h =
    let (a, ha, h1) = >>=-eq-ok (require_text r.execution_id "execution_id") _ h in
    let (b, hb, h2) = >>=-eq-ok (require_text r.environment_id "environment_id") _ h1 in
    let (c, hc, h3) = >>=-eq-ok (require_text r.instance_id "instance_id") _ h2 in
    let (d, hd, h4) = >>=-eq-ok (require_text r.objective "objective") _ h3 in
    let (s, hs, h5) = >>=-eq-ok (utc_timestamp (str r.started_at) "started_at") _ h4 in
    let (f, hf, h6) = >>=-eq-ok (utc_timestamp (str r.finished_at) "finished_at") _ h5 in
    let (_, ho, h7) = >>=-eq-ok (raise_if (earlier f s) _) _ h6 in
    let (_, hk, _) = >>=-eq-ok (check_outcome r) _ h7 in
    (
      record {
        execution_id = require_text_self _ _ ha;
        environment_id = require_text_self _ _ hb;
        instance_id = require_text_self _ _ hc;
        objective = require_text_self _ _ hd;
        started = s;
        started_at = hs;
        finished = f;
        finished_at = hf;
        ordered = raise_if-eq-ok _ _ ho;
      },
      check-ConcludesAs r.status r refl hk,
    )

record-of-bounded :
    (r : ExecutionRecord) → IsBounded r → ConcludesAs r.status r → execution_record r ≡ ok r
unfolding execution_record
record-of-bounded r b c = rw (
  b.execution_id,
  b.environment_id,
  b.instance_id,
  b.objective,
  b.started_at,
  b.finished_at,
  b.ordered,
  ConcludesAs-check r.status r refl c,
)

-- An ExecutionRecord is accepted exactly when its identities are bounded texts, its times are
-- calendar-valid and in order, and it concludes as its status says: completed with a resulting
-- State and no terminal outcome, no_change with its very starting State, blocked or failed with a
-- terminal outcome, no resulting State and at most one recoverable partial State.
pub execution_record_iff :
    (r : ExecutionRecord) → (execution_record r ≡ ok r) ↔ (IsBounded r × ConcludesAs r.status r)
execution_record_iff r = (IsBounded-of-record r, λ h. record-of-bounded r h.0 h.1)

at_most_one :
    (s : ExecutionStatus) (r : ExecutionRecord)
    → ConcludesAs s r
    → is_success s ≡ false
    → length (partial_state_artifacts r) ≤ 1
at_most_one completed r c h = cc
at_most_one no_change r c h = cc
at_most_one blocked r c h = c.2
at_most_one failed r c h = c.2

none_or_one : {A : Type 0} (l : List A) → length l ≤ 1 → (l ≡ []) ⊎ ((a : A) × (l ≡ a ∷ []))
none_or_one [] h = inl refl
none_or_one (a ∷ []) h = inr (a, refl)
none_or_one (a ∷ b ∷ l) h = absurd (omega arith)

-- The partial State of an accepted record is the only one: a blocked or failed record has no
-- partial artifact and then reports none, or it has exactly one and reports that.
pub partial_state_unique :
    (r : ExecutionRecord)
    → execution_record r ≡ ok r
    → is_success r.status ≡ false
    → ((partial_state_artifacts r ≡ []) × (partial_state r ≡ none))
      ⊎ ((s : StateRef) × (partial_state_artifacts r ≡ s ∷ []) × (partial_state r ≡ some s))
unfolding partial_state
partial_state_unique r h stopped = ground (
  arith,
  none_or_one (partial_state_artifacts r)
      (at_most_one r.status r (IsBounded-of-record r h).1 stopped),
)
