-- ===== src/Execution/Usage.antt =====
-- The usage observations of peoplebot/execution.py.
use peoplebot_releases.Base.{
  ℕ, String, Bool, true, false, not, ◌&&◌, ◌||◌, List, [], ◌∷◌, eqb, between, codes, all,
  if◌then◌else◌,
}
use peoplebot_releases.Base.Result.{Result, ok, err, value_error, raise_if, ◌>>◌}
use peoplebot_releases.Json.{Value, null, int, negative, str}
use peoplebot_releases.State.{require_identity}

pub data UsageSource : Type 0 where
  provider_reported locally_calculated unknown : UsageSource

pub data UsageConfidence : Type 0 where
  exact estimated unknown : UsageConfidence

-- The fields of a UsageObservation; `value` is what Python was given, so its type is tested.
pub record UsageObservation : Type 0 where
  pub metric : String
  pub value : Value
  pub unit : String
  pub source : UsageSource
  pub confidence : UsageConfidence

abbrev is_digit : ℕ → Bool
is_digit = between b'0' b'9'

-- (\.[0-9]+)? at the end
fraction_part : List ℕ → Bool
fraction_part [] = true
fraction_part (c ∷ []) = false
fraction_part (c ∷ d ∷ ds) = eqb c b'.' && all is_digit (d ∷ ds)

-- [0-9]* and the fraction
digits_part : List ℕ → Bool
unfolding fraction_part
digits_part [] = true
digits_part (c ∷ cs) =
    let rest = digits_part cs in if is_digit c then rest else fraction_part (c ∷ cs)

-- `_DECIMAL`, (0|[1-9][0-9]*)(\.[0-9]+)?
unfoldable pub is_decimal : List ℕ → Bool
unfolding digits_part fraction_part
is_decimal [] = false
is_decimal (c ∷ cs) = if eqb c b'0' then fraction_part cs else between b'1' b'9' c && digits_part cs

abbrev is_unknown_source : UsageSource → Bool
is_unknown_source provider_reported = false
is_unknown_source locally_calculated = false
is_unknown_source UsageSource.unknown = true

abbrev is_unknown_confidence : UsageConfidence → Bool
is_unknown_confidence exact = false
is_unknown_confidence estimated = false
is_unknown_confidence UsageConfidence.unknown = true

abbrev is_null : Value → Bool
is_null null = true
is_null _ = false

-- The tests of the value's type, sign and form.
check_value : Value → Result (Unit {0})
unfolding is_decimal
check_value null = ok tt
check_value (int n) = ok tt
check_value (negative n) = err (value_error "usage integer must be non-negative")
check_value (str s) =
    raise_if (not (is_decimal (codes s)))
      (value_error "usage string must be a non-negative plain decimal")
check_value _ =
    err (value_error "usage value must be a non-negative integer, decimal string, or null")

-- UsageObservation.__post_init__
unfoldable pub usage_observation : UsageObservation → Result UsageObservation
unfolding check_value
usage_observation u = do
  require_identity (str u.metric) "usage metric"
  require_identity (str u.unit) "usage unit"
  check_value u.value
  raise_if
      ((is_unknown_source u.source || is_unknown_confidence u.confidence)
        && not
            (is_unknown_source u.source && is_unknown_confidence u.confidence && is_null u.value))
      (value_error "unknown usage requires null value, unknown source, and unknown confidence")
  raise_if
      (not (is_unknown_source u.source || is_unknown_confidence u.confidence) && is_null u.value)
      (value_error "observed usage requires a value")
  ok u
