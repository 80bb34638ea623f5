-- ===== src/Duration.antt =====
-- Go durations of src/conduit/connector/config.py: `format_go_duration`, `parse_go_duration`.
-- A `timedelta` is its number of microseconds; `timedelta` below is the constructor's range check.
-- Text is a list of code points. `Fraction` keeps a numerator and a denominator, unreduced: `round`
-- does not depend on that. `re.finditer` is the function `component` at each position: the source
-- raises as soon as a match does not begin where the last one ended.
pub mod Numbers
pub mod Reading
pub mod Fuel
pub mod Pieces
pub mod RoundTrip
pub mod Tests
use conduit_connector_sdk_py.Prelude.{
  ℕ, zero, suc, ◌+◌, ◌-◌, ◌*◌, ◌/◌, ◌%◌, Bool, true, false, not, ◌&&◌, ◌||◌, Option, none, some,
  List, [], ◌∷◌, ◌++◌, if◌then◌else◌, ltb, leb, ◌==◌, ℤ, pos, negsuc, signed, abs, ltb_ℤ, leb_ℤ,
  length, replicate, Result, ok, err,
}
use conduit_connector_sdk_py.Prelude.Decimal.{
  Str, codes, strip, is_digit, value_from, show_ℕ, pow10,
}

abbrev pub Timedelta : Type 0
Timedelta = ℤ

pub data DurationError : Type 0 where
  value_error overflow_error : DurationError

-- datetime.timedelta(microseconds=n): at most 999999999 days either way
abbrev pub max_microseconds : ℕ
max_microseconds = 86_400_000_000 * 1_000_000_000 - 1

abbrev pub max_negative_microseconds : ℕ
max_negative_microseconds = 86_400_000_000 * 999_999_999

unfoldable pub timedelta : ℤ → Result DurationError Timedelta
timedelta (pos n) = if leb n max_microseconds then ok (pos n) else err overflow_error
timedelta (negsuc n) = if ltb n max_negative_microseconds then ok (negsuc n) else err overflow_error

-- s.rjust(width, "0")
unfoldable pub rjust : Str → ℕ → Str
rjust s width = replicate (width - length s) b'0' ++ s

-- s.rstrip("0")
unfoldable pub rstrip_zeros : Str → Str
rstrip_zeros [] = []
rstrip_zeros (c ∷ s) = elim (rstrip_zeros s) [
  | [] ↦ (if c == b'0' then [] else c ∷ [])
  | d ∷ r ↦ c ∷ d ∷ r
]

-- `_format_scaled`
unfoldable pub format_scaled : ℕ → ℕ → Str
format_scaled total unit =
    let whole = total / unit in
    let rem = total % unit in
    let digits = length (show_ℕ unit) - 1 in
    if rem == 0
    then show_ℕ whole
    else show_ℕ whole ++ b'.' ∷ rstrip_zeros (rjust (show_ℕ rem) digits)

-- from a minute on: `[Xh][Ym]Zs`
unfoldable pub format_clock : ℕ → Str
format_clock total_us =
    let total_seconds = total_us / 1_000_000 in
    let sub_second_us = total_us % 1_000_000 in
    let hours = total_seconds / 3600 in
    let remainder = total_seconds % 3600 in
    let minutes = remainder / 60 in
    let seconds = remainder % 60 in
    (if not (hours == 0) then show_ℕ hours ++ codes "h" else [])
    ++ ((if not (hours == 0) || not (minutes == 0) then show_ℕ minutes ++ codes "m" else [])
        ++ (format_scaled (seconds * 1_000_000 + sub_second_us) 1_000_000 ++ codes "s"))

unfoldable pub format_magnitude : ℕ → Str
format_magnitude total_us =
    if ltb total_us 1_000
    then show_ℕ total_us ++ codes "µs"
    else if ltb total_us 1_000_000
    then format_scaled total_us 1_000 ++ codes "ms"
    else if ltb total_us 60_000_000
    then format_scaled total_us 1_000_000 ++ codes "s"
    else format_clock total_us

-- `format_go_duration`
unfoldable pub format_go_duration : Timedelta → Str
format_go_duration (pos n) = if n == 0 then codes "0s" else format_magnitude n
format_go_duration (negsuc n) = b'-' ∷ format_magnitude (suc n)

pub record Fraction : Type 0 where
  pub num : ℕ
  pub den : ℕ

abbrev pub fraction : ℕ → ℕ → Fraction
fraction n d = record { num = n; den = d }

unfoldable pub add : Fraction → Fraction → Fraction
add x y = fraction (x.num * y.den + y.num * x.den) (x.den * y.den)

unfoldable pub times : Fraction → Fraction → Fraction
times x y = fraction (x.num * y.num) (x.den * y.den)

-- round(x): to the nearest whole number, a tie to the even one
unfoldable pub round : Fraction → ℕ
round x =
    let q = x.num / x.den in
    let r = x.num % x.den in
    if ltb (2 * r) x.den
    then q
    else if ltb x.den (2 * r)
    then q + 1
    else if q % 2 == 0
    then q
    else q + 1

-- the longest run of digits, and the rest
unfoldable pub span_digits : Str → Str × Str
span_digits [] = ([], [])
span_digits (c ∷ s) =
    let (run, rest) = span_digits s in if is_digit c then (c ∷ run, rest) else ([], c ∷ s)

-- `[0-9]*\.?[0-9]+`, and the number that it matches. The run of digits is the longest: no unit
-- begins with a digit or a dot, so a shorter match never leads to a match of the whole pattern.
unfoldable pub fractional : Str → Str → Str → Option (Fraction × Str)
fractional run rest after_dot =
    let (more, rest') = span_digits after_dot in
    elim more [
      | [] ↦ elim run [ [] ↦ none | c ∷ r ↦ some (fraction (value_from 0 (c ∷ r)) 1, rest) ]
      | d ∷ ds ↦ some (fraction (value_from 0 (run ++ d ∷ ds)) (pow10 (length (d ∷ ds))), rest')
    ]

unfoldable pub number_after : Str → Str → Option (Fraction × Str)
number_after run [] = fractional run [] []
number_after run (c ∷ s) = if c == b'.' then fractional run (c ∷ s) s else fractional run (c ∷ s) []

unfoldable pub number : Str → Option (Fraction × Str)
number s = let (run, rest) = span_digits s in number_after run rest

unfoldable pub strip_prefix : Str → Str → Option Str
strip_prefix [] s = some s
strip_prefix (p ∷ ps) [] = none
strip_prefix (p ∷ ps) (c ∷ s) = if p == c then strip_prefix ps s else none

-- `_GO_DURATION_UNIT_TO_MICROSECONDS`, in the order of the alternatives of the pattern
abbrev pub units : List (Str × Fraction)
units =
    (codes "ns", fraction 1 1000)
    ∷ (codes "µs", fraction 1 1)
    ∷ (codes "us", fraction 1 1)
    ∷ (codes "ms", fraction 1000 1)
    ∷ (codes "s", fraction 1_000_000 1)
    ∷ (codes "m", fraction 60_000_000 1)
    ∷ (codes "h", fraction 3_600_000_000 1)
    ∷ []

unfoldable pub find_unit : List (Str × Fraction) → Str → Option (Fraction × Str)
find_unit [] s = none
find_unit ((name, scale) ∷ more) s = elim (strip_prefix name s) [
  | some rest ↦ some (scale, rest)
  | none ↦ find_unit more s
]

-- one match at the start of the text: its value in microseconds, and the rest
unfoldable pub component : Str → Option (Fraction × Str)
component s = elim (number s) [
  | none ↦ none
  | some (n, rest) ↦ elim (find_unit units rest) [
    | none ↦ none
    | some (scale, rest') ↦ some (times n scale, rest')
  ]
]

-- the loop over the matches; `none` where the text at some position does not match
unfoldable pub components : ℕ → Str → Fraction → Option Fraction
components fuel [] total = some total
components zero (c ∷ s) total = none
components (suc fuel) (c ∷ s) total = elim (component (c ∷ s)) [
  | none ↦ none
  | some (x, rest) ↦ components fuel rest (add total x)
]

-- after the sign
unfoldable pub parse_magnitude : Bool → Str → Result DurationError Timedelta
parse_magnitude negative [] = err value_error
parse_magnitude negative (c ∷ s) =
    if c == b'0' && leb (length s) 0
    then ok (pos 0)
    else elim (components (length (c ∷ s)) (c ∷ s) (fraction 0 1)) [
      | none ↦ err value_error
      | some total ↦ timedelta (signed negative (round total))
    ]

unfoldable pub parse_signed : Str → Result DurationError Timedelta
parse_signed [] = err value_error
parse_signed (c ∷ s) =
    if c == b'-'
    then parse_magnitude true s
    else if c == b'+'
    then parse_magnitude false s
    else parse_magnitude false (c ∷ s)

-- `parse_go_duration`
unfoldable pub parse_go_duration : Str → Result DurationError Timedelta
parse_go_duration value = parse_signed (strip value)
