-- ===== src/Duration/RoundTrip.antt =====
-- `parse_go_duration` on the texts that `format_go_duration` writes.
use conduit_connector_sdk_py.Prelude.{
  ℕ, suc, ◌+◌, ◌*◌, ◌/◌, ◌%◌, ◌≤◌, ◌<◌, ◌≡◌, refl, ap, ◌∙◌, Bool, true, false, some, [], ◌∷◌, ◌++◌,
  arith, ltb, ◌==◌, length, Bool-cases, inl, inr, pos, negsuc, signed, ok,
}
use conduit_connector_sdk_py.Prelude.Decimal.{Str, codes, show_ℕ, pow10, is_space, strip-NoSpace}
use conduit_connector_sdk_py.Duration.{
  Timedelta, fraction, find_unit, strip_prefix, format_scaled, format_clock, format_magnitude,
  format_go_duration, units, round, parse_go_duration, parse_signed, parse_magnitude, timedelta,
  max_microseconds, max_negative_microseconds,
}
use conduit_connector_sdk_py.Duration.Reading.{round-Denotes}
use conduit_connector_sdk_py.Duration.Pieces.{
  DigitHead, Writes, Writes-cast, micro_Writes, clock_unit, scaled_Writes,
}

milli_Writes : (n : ℕ) → Writes (format_scaled n 1_000 ++ codes "ms") n
unfolding pow10 show_ℕ find_unit strip_prefix is_space
milli_Writes n =
    scaled_Writes n 1_000 2 refl refl b'm' (b's' ∷ []) (refl, refl) (refl, (refl, tt)) refl

second_Writes : (n : ℕ) → Writes (format_scaled n 1_000_000 ++ codes "s") n
unfolding pow10 show_ℕ find_unit strip_prefix is_space
second_Writes n = scaled_Writes n 1_000_000 5 refl refl b's' [] (refl, refl) (refl, tt) refl

-- `m` is read as the unit of minutes where a digit follows, not as the beginning of `ms`
minute_unit :
    (rest : Str)
    → DigitHead rest
    → find_unit units (b'm' ∷ rest) ≡ some (fraction (1 * 60_000_000) 1, rest)
unfolding find_unit strip_prefix
minute_unit [] h = absurd h
minute_unit (c ∷ rest) h = ground arith

hour_unit :
    (rest : Str) → find_unit units (b'h' ∷ rest) ≡ some (fraction (1 * 3_600_000_000) 1, rest)
unfolding find_unit strip_prefix
hour_unit rest = refl

minutes_Writes :
    (m : ℕ) (rest : Str) (n : ℕ)
    → Writes rest n
    → Writes ((show_ℕ m ++ codes "m") ++ rest) (m * 60_000_000 + n)
unfolding is_space
minutes_Writes m rest n w =
    clock_unit m b'm' 60_000_000 rest n (refl, refl) refl (minute_unit rest w.head) w

hours_Writes :
    (h : ℕ) (rest : Str) (n : ℕ)
    → Writes rest n
    → Writes ((show_ℕ h ++ codes "h") ++ rest) (h * 3_600_000_000 + n)
unfolding is_space
hours_Writes h rest n w =
    clock_unit h b'h' 3_600_000_000 rest n (refl, refl) refl (hour_unit rest) w

clock_Writes : (n : ℕ) → Writes (format_clock n) n
unfolding format_clock
clock_Writes n = elim (Bool-cases (hours == 0)) [
  | inl no_hours ↦ elim (Bool-cases (minutes == 0)) [
    | inl no_minutes ↦ Writes-cast _ _ (rw (no_hours, no_minutes)) sus n (ground arith) seconds
    | inr some_minutes ↦
        Writes-cast _ _ (rw (no_hours, some_minutes)) (minutes * 60_000_000 + sus) n (ground arith)
          (minutes_Writes minutes _ sus seconds)
  ]
  | inr some_hours ↦
      Writes-cast _ _ (rw some_hours) (hours * 3_600_000_000 + (minutes * 60_000_000 + sus)) n
        (omega arith) (hours_Writes hours _ _ (minutes_Writes minutes _ sus seconds))
]
  where
    hours : ℕ
    hours = n / 1_000_000 / 3600

    minutes : ℕ
    minutes = n / 1_000_000 % 3600 / 60

    sus : ℕ
    sus = n / 1_000_000 % 3600 % 60 * 1_000_000 + n % 1_000_000

    seconds : Writes (format_scaled sus 1_000_000 ++ codes "s") sus
    seconds = second_Writes sus

magnitude_Writes : (n : ℕ) → Writes (format_magnitude n) n
unfolding format_magnitude
magnitude_Writes n = elim (Bool-cases (ltb n 1_000)) [
  | inl micro ↦ rw micro (micro_Writes n)
  | inr not_micro ↦ elim (Bool-cases (ltb n 1_000_000)) [
    | inl milli ↦ rw (not_micro, milli) (milli_Writes n)
    | inr not_milli ↦ elim (Bool-cases (ltb n 60_000_000)) [
      | inl second ↦ rw (not_micro, not_milli, second) (second_Writes n)
      | inr clock ↦ rw (not_micro, not_milli, clock) (clock_Writes n)
    ]
  ]
]

parse_magnitude-Writes :
    (negative : Bool) (w : Str) (n : ℕ)
    → Writes w n
    → parse_magnitude negative w ≡ timedelta (signed negative n)
unfolding parse_magnitude
parse_magnitude-Writes negative [] n w = absurd (w.head)
parse_magnitude-Writes negative (c ∷ []) n w = absurd (omega (arith, w.long))
parse_magnitude-Writes negative (c ∷ d ∷ s) n w =
    let (x, eq, dx) =
      w.parses.run (length (c ∷ d ∷ s)) 0 (fraction 0 1) (omega arith)
        (record { value = omega arith; nonzero = omega arith }) in
    let rounded : round x ≡ n = round-Denotes x (0 + n) dx ∙ omega arith in
    ground (arith, eq, rounded)

-- a duration that a `timedelta` can hold
abbrev pub IsTimedelta : Timedelta → Type 0
IsTimedelta (pos n) = n ≤ max_microseconds
IsTimedelta (negsuc n) = n < max_negative_microseconds

parse_signed-digits : (w : Str) (n : ℕ) → Writes w n → parse_signed w ≡ timedelta (pos n)
unfolding parse_signed
parse_signed-digits [] n w = absurd (w.head)
parse_signed-digits (c ∷ s) n w = ground (arith, w.head, parse_magnitude-Writes false (c ∷ s) n w)

parse_signed-minus :
    (w : Str) (n : ℕ) → Writes w (suc n) → parse_signed (b'-' ∷ w) ≡ timedelta (negsuc n)
unfolding parse_signed
parse_signed-minus w n x = parse_magnitude-Writes true w (suc n) x ∙ ap timedelta (ground arith)

zero_Writes : Writes (codes "0s") 0
unfolding format_scaled show_ℕ
zero_Writes = second_Writes 0

positive_Writes : (n : ℕ) → Writes (format_go_duration (pos n)) n
unfolding format_go_duration
positive_Writes n = elim (Bool-cases (n == 0)) [
  | inl z ↦ Writes-cast (codes "0s") _ (rw z) 0 n (ground arith) zero_Writes
  | inr more ↦ rw more (magnitude_Writes n)
]

minus_NoSpace : is_space b'-' ≡ false
unfolding is_space
minus_NoSpace = refl

-- Parsing the text that `format_go_duration` writes for a duration gives the duration back, for
-- every duration that a `timedelta` can hold, of either sign.
pub parse_go_duration-format_go_duration :
    (v : Timedelta) → IsTimedelta v → parse_go_duration (format_go_duration v) ≡ ok v
unfolding parse_go_duration timedelta
parse_go_duration-format_go_duration (pos n) h =
    let w = positive_Writes n in
    rw (strip-NoSpace _ w.nospace) (parse_signed-digits _ n w ∙ ground arith)
parse_go_duration-format_go_duration (negsuc n) h =
    let w = magnitude_Writes (suc n) in
    unfold format_go_duration in
    rw (strip-NoSpace (b'-' ∷ format_magnitude (suc n)) (minus_NoSpace, w.nospace))
      (parse_signed-minus _ n w ∙ ground arith)
