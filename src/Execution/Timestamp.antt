-- ===== src/Execution/Timestamp.antt =====
-- `_utc_timestamp` of peoplebot/execution.py, with what it uses of `datetime`: the calendar of the
-- years 1 to 9999, and the order, which compares the fields of two UTC times in turn.
-- The pattern's `\d` takes other decimal digits too, which `datetime.fromisoformat` then refuses:
-- the digits here are the ASCII ones.
pub mod Failures
use peoplebot_releases.Base.{
  ℕ, ◌+◌, ◌-◌, ◌*◌, ◌%◌, ◌^◌, String, ◌<>◌, Bool, true, false, ◌&&◌, ◌||◌, not, Option, none, some,
  List, [], ◌∷◌, ltb, leb, eqb, between, codes, all, if◌then◌else◌,
}
use peoplebot_releases.Base.Result.{Result, ok, err, value_error, ◌>>=◌, ◌>>◌}
use peoplebot_releases.Json.{Value}
use peoplebot_releases.State.{require_identity}

pub record Datetime : Type 0 where
  pub year : ℕ
  pub month : ℕ
  pub day : ℕ
  pub hour : ℕ
  pub minute : ℕ
  pub second : ℕ
  pub microsecond : ℕ

abbrev is_digit : ℕ → Bool
is_digit = between b'0' b'9'

-- The number that decimal digits write, after the digits that stand before.
number : ℕ → List ℕ → ℕ
number n [] = n
number n (c ∷ cs) = number (n * 10 + (c - b'0')) cs

abbrev is_empty : List ℕ → Bool
is_empty [] = true
is_empty (c ∷ cs) = false

-- One to six digits and "Z", after `n` digits of the fraction that write `v`: in microseconds.
fraction_digits : ℕ → ℕ → List ℕ → Option ℕ
fraction_digits n v [] = none
fraction_digits n v (c ∷ cs) =
    let more = fraction_digits (n + 1) (v * 10 + (c - b'0')) cs in
    if is_digit c
    then (if ltb n 6 then more else none)
    else if eqb c b'Z' && leb 1 n && is_empty cs
    then some (v * 10 ^ (6 - n))
    else none

-- (?:\.\d{1,6})?Z
fraction : List ℕ → Option ℕ
unfolding fraction_digits
fraction [] = none
fraction (c ∷ cs) =
    if eqb c b'Z' && is_empty cs
    then some 0
    else if eqb c b'.'
    then fraction_digits 0 0 cs
    else none

with_fraction : Datetime → Option ℕ → Option Datetime
with_fraction d none = none
with_fraction d (some us) = some (record d { microsecond = us })

-- `_RFC3339_UTC`, YYYY-MM-DDTHH:MM:SS and the fraction, and the fields that it holds.
rfc3339_utc : List ℕ → Option Datetime
unfolding number fraction with_fraction
rfc3339_utc
      (y1 ∷ y2 ∷ y3 ∷ y4 ∷ s1 ∷ m1 ∷ m2 ∷ s2 ∷ d1 ∷ d2 ∷ s3 ∷ h1 ∷ h2 ∷ s4 ∷ n1 ∷ n2 ∷ s5 ∷ c1 ∷ c2
        ∷ rest) =
    if all is_digit (y1 ∷ y2 ∷ y3 ∷ y4 ∷ m1 ∷ m2 ∷ d1 ∷ d2 ∷ h1 ∷ h2 ∷ n1 ∷ n2 ∷ c1 ∷ c2 ∷ [])
      && eqb s1 b'-'
      && eqb s2 b'-'
      && eqb s3 b'T'
      && eqb s4 b':'
      && eqb s5 b':'
    then with_fraction
        (record {
          year = number 0 (y1 ∷ y2 ∷ y3 ∷ y4 ∷ []);
          month = number 0 (m1 ∷ m2 ∷ []);
          day = number 0 (d1 ∷ d2 ∷ []);
          hour = number 0 (h1 ∷ h2 ∷ []);
          minute = number 0 (n1 ∷ n2 ∷ []);
          second = number 0 (c1 ∷ c2 ∷ []);
          microsecond = 0;
        })
        (fraction rest)
    else none
rfc3339_utc _ = none

is_leap : ℕ → Bool
is_leap y = eqb (y % 4) 0 && (not (eqb (y % 100) 0) || eqb (y % 400) 0)

-- The days of a month of the Gregorian calendar.
days_in_month : ℕ → ℕ → ℕ
unfolding is_leap
days_in_month y m =
    if eqb m 2
    then (if is_leap y then 29 else 28)
    else if eqb m 4 || eqb m 6 || eqb m 9 || eqb m 11
    then 30
    else 31

-- What `datetime` accepts.
unfoldable pub is_calendar_valid : Datetime → Bool
unfolding days_in_month
is_calendar_valid d =
    between 1 9999 d.year
    && between 1 12 d.month
    && between 1 (days_in_month d.year d.month) d.day
    && ltb d.hour 24
    && ltb d.minute 60
    && ltb d.second 60

calendar_valid : Option Datetime → String → Result Datetime
unfolding is_calendar_valid
calendar_valid none label = err (
    value_error (
      label <> " must match the v0 RFC 3339 UTC subset YYYY-MM-DDTHH:MM:SS[.ffffff]Z"
      <> " with 1-6 fractional digits"))
calendar_valid (some d) label =
    if is_calendar_valid d
    then ok d
    else err (value_error (label <> " must be a calendar-valid RFC 3339 UTC timestamp"))

unfoldable pub utc_timestamp : Value → String → Result Datetime
unfolding calendar_valid rfc3339_utc
utc_timestamp value label = do
  text ← require_identity value label
  calendar_valid (rfc3339_utc (codes text)) label

abbrev pub time_fields : Datetime → List ℕ
time_fields d = d.year ∷ d.month ∷ d.day ∷ d.hour ∷ d.minute ∷ d.second ∷ d.microsecond ∷ []

-- The order of tuples, and of texts by their code points.
unfoldable pub lex_lt : List ℕ → List ℕ → Bool
lex_lt [] [] = false
lex_lt [] (y ∷ ys) = true
lex_lt (x ∷ xs) [] = false
lex_lt (x ∷ xs) (y ∷ ys) = ltb x y || (eqb x y && lex_lt xs ys)

-- a < b
unfoldable pub earlier : Datetime → Datetime → Bool
unfolding lex_lt
earlier a b = lex_lt (time_fields a) (time_fields b)
