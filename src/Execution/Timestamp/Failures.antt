-- ===== src/Execution/Timestamp/Failures.antt =====
-- A timestamp that is refused, is refused by a ValueError.
use peoplebot_releases.Base.{String, ◌≡◌, true, Option, none, some, arith}
use peoplebot_releases.Base.Result.{Error, err}
use peoplebot_releases.Json.{Value}
use peoplebot_releases.State.Failures.{is_value_error, require_identity-raises}
use peoplebot_releases.Execution.Timestamp.{Datetime, utc_timestamp, calendar_valid}

calendar_valid-raises :
    (d : Option Datetime) (l : String) {e : Error}
    → calendar_valid d l ≡ err e
    → is_value_error e ≡ true
unfolding calendar_valid
calendar_valid-raises none l h = ground (arith, h)
calendar_valid-raises (some d) l h = ground (arith, h)

pub utc_timestamp-raises :
    (v : Value) (l : String) {e : Error} → utc_timestamp v l ≡ err e → is_value_error e ≡ true
unfolding utc_timestamp
utc_timestamp-raises v l h = grind (arith, require_identity-raises, calendar_valid-raises)
