-- ===== src/Configuration/Duration.antt =====
-- internal/config/duration.go: the ms grammar of a time span. Spans are nanoseconds.
pub mod Grammar
use Prim.Native.Char.{code}
use Prim.Native.String.{◌++◌}
use awesome_lambda_auth.Common.{
  ℕ, ◌*◌, String, Bool, true, false, ◌||◌, not, Option, none, some, List, [], ◌∷◌, str_eq, ◌==◌,
  if◌then◌else◌, ℤ, pos, lookup,
}
use awesome_lambda_auth.Configuration.Blocks.{
  Duration, DurationError, empty_value, no_number, bad_number, unknown_unit,
}
use awesome_lambda_auth.Configuration.Text.{Std, trim_space, is_digit}

abbrev millisecond : ℕ
millisecond = 1_000_000

abbrev second : ℕ
second = 1000 * millisecond

abbrev minute : ℕ
minute = 60 * second

abbrev hour : ℕ
hour = 60 * minute

abbrev day : ℕ
day = 24 * hour

abbrev pub ms_units : List (String × ℕ)
ms_units =
    ("", millisecond)
    ∷ ("ms", millisecond)
    ∷ ("msec", millisecond)
    ∷ ("msecs", millisecond)
    ∷ ("millisecond", millisecond)
    ∷ ("milliseconds", millisecond)
    ∷ ("s", second)
    ∷ ("sec", second)
    ∷ ("secs", second)
    ∷ ("second", second)
    ∷ ("seconds", second)
    ∷ ("m", minute)
    ∷ ("min", minute)
    ∷ ("mins", minute)
    ∷ ("minute", minute)
    ∷ ("minutes", minute)
    ∷ ("h", hour)
    ∷ ("hr", hour)
    ∷ ("hrs", hour)
    ∷ ("hour", hour)
    ∷ ("hours", hour)
    ∷ ("d", day)
    ∷ ("day", day)
    ∷ ("days", day)
    ∷ ("w", 7 * day)
    ∷ ("week", 7 * day)
    ∷ ("weeks", 7 * day)
    ∷ ("y", 365 * day)
    ∷ ("year", 365 * day)
    ∷ ("years", 365 * day)
    ∷ []

-- The digits that a text starts with, and what comes behind them.
unfoldable pub digits : String → String
unfolding is_digit
digits String.[] = ""
digits (String.◌∷◌ letter rest) =
    if is_digit (code letter) then String.◌∷◌ letter (digits rest) else ""

unfoldable pub after_digits : String → String
unfolding is_digit
after_digits String.[] = ""
after_digits (String.◌∷◌ letter rest) =
    if is_digit (code letter) then after_digits rest else String.◌∷◌ letter rest

-- An optional sign, and what comes behind it.
unfoldable pub split_sign : String → String × String
split_sign String.[] = ("", "")
split_sign (String.◌∷◌ letter rest) =
    if code letter == b'+' || code letter == b'-'
    then (String.◌∷◌ letter "", rest)
    else ("", String.◌∷◌ letter rest)

-- An optional fraction, its point with it, and what comes behind it.
unfoldable pub split_fraction : String → String × String
unfolding digits after_digits
split_fraction String.[] = ("", "")
split_fraction (String.◌∷◌ letter rest) =
    if code letter == b'.'
    then (String.◌∷◌ letter (digits rest), after_digits rest)
    else ("", String.◌∷◌ letter rest)

pub data Span : Type 0 where
  malformed : DurationError → Span
  spans : ℤ → Span

abbrev pub span_of : Option ℕ → (ℕ → ℤ) → Span
span_of none product = malformed unknown_unit
span_of (some unit) product = spans (product unit)

module _ (x : Std) where
  -- `parseMS` behind the number: the unit, and the product.
  unfoldable pub with_unit : String → String → Span
  with_unit number rest =
      if x.is_float number
      then span_of (lookup (x.to_lower (trim_space rest)) ms_units) (x.float_times number)
      else malformed bad_number

  unfoldable pub parse_number : String → String → Span
  unfolding digits after_digits split_fraction with_unit
  parse_number sign rest =
      let (fraction, behind) = split_fraction (after_digits rest) in
      if str_eq (digits rest ++ fraction) ""
      then malformed no_number
      else with_unit (sign ++ (digits rest ++ fraction)) behind

  unfoldable pub parse_ms : String → Span
  unfolding split_sign parse_number
  parse_ms s =
      if str_eq (trim_space s) ""
      then malformed empty_value
      else (let (sign, rest) = split_sign (trim_space s) in parse_number sign rest)

  abbrev with_span : String → Span → Duration
  with_span s (malformed e) = record { raw = s; d = pos 0; err = some e }
  with_span s (spans n) = record { raw = s; d = n; err = none }

  -- `ParseDuration`, and `mustDuration` for the defaults.
  unfoldable pub parse_duration : String → Duration
  unfolding parse_ms
  parse_duration s = with_span s (parse_ms s)
