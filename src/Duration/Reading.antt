-- ===== src/Duration/Reading.antt =====
-- What one match of the pattern reads from the texts that `format_go_duration` writes.
use native.Mathlib.Nat.{div-eq_of_eq-mul_left, mul-mod_left, mod-lt, div-add-mod}
use conduit_connector_sdk_py.Prelude.{
  ℕ, suc, ◌+◌, ◌-◌, ◌*◌, ◌/◌, ◌%◌, ◌<◌, ◌≡◌, refl, ap, ◌∙◌, sym, ◌≢◌, true, false, some, [], ◌∷◌,
  ◌++◌, append_assoc, append-nil, arith, ◌==◌, Bool-cases, inl, inr, length,
}
use conduit_connector_sdk_py.Prelude.Decimal.{
  Str, is_digit, IsDigits, value_from, value_from-append, value_from-show_ℕ, show_ℕ,
  show_ℕ-IsDigits, show_ℕ-ne-nil, pow10, NoSpace, IsDigits-NoSpace, is_space,
}
use conduit_connector_sdk_py.Duration.{
  Fraction, fraction, add, round, span_digits, fractional, number_after, number, format_scaled,
}
use conduit_connector_sdk_py.Duration.Numbers.{
  pow10-pos, value_from-split, frac, frac_lem, frac-IsDigits, frac_scale, frac-ne-nil,
}

-- the fraction is the whole number `n`
pub record Denotes (x : Fraction) (n : ℕ) : Type 0 where
  pub value : x.num ≡ n * x.den
  pub nonzero : 0 < x.den

pub round-Denotes : (x : Fraction) (n : ℕ) → Denotes x n → round x ≡ n
unfolding round
round-Denotes x n d = ground (arith, quotient, remainder)
  where
    quotient : x.num / x.den ≡ n
    quotient = div-eq_of_eq-mul_left d.nonzero d.value

    remainder : x.num % x.den ≡ 0
    remainder = ap (λ m. m % x.den) d.value ∙ mul-mod_left n x.den

mul_pos : (a b : ℕ) → 0 < a → 0 < b → 0 < a * b
mul_pos a b p q = grind arith

pub add-Denotes : (x y : Fraction) (m n : ℕ) → Denotes x m → Denotes y n → Denotes (add x y) (m + n)
unfolding add
add-Denotes x y m n d e = record {
  value = omega (arith, ap (λ t. t * y.den) d.value, ap (λ t. t * x.den) e.value);
  nonzero = mul_pos x.den y.den d.nonzero e.nonzero;
}

-- a text that is empty or does not begin with a digit
abbrev pub Stops : Str → Type 0
Stops [] = Unit
Stops (c ∷ s) = is_digit c ≡ false

pub span_digits-append :
    (ds rest : Str) → IsDigits ds → Stops rest → span_digits (ds ++ rest) ≡ (ds, rest)
unfolding span_digits
span_digits-append [] [] h st = refl
span_digits-append [] (c ∷ s) h st = ground arith
span_digits-append (d ∷ ds) rest h st = ground (arith, span_digits-append ds rest h.1 st)

-- the character after a number: neither a digit nor a dot
abbrev pub IsUnitStart : ℕ → Type 0
IsUnitStart c = (is_digit c ≡ false) × ((c == b'.') ≡ false)

pub number_whole :
    (ds : Str) (c : ℕ) (rest : Str)
    → IsDigits ds
    → ds ≢ []
    → IsUnitStart c
    → number (ds ++ c ∷ rest) ≡ some (fraction (value_from 0 ds) 1, c ∷ rest)
unfolding number number_after fractional span_digits
number_whole [] c rest h ne u = absurd (ne refl)
number_whole (d ∷ ds) c rest h ne u = ground (arith, span_digits-append (d ∷ ds) (c ∷ rest) h u.0)

pub number_decimal :
    (ds es : Str) (c : ℕ) (rest : Str)
    → IsDigits ds
    → IsDigits es
    → es ≢ []
    → IsUnitStart c
    → number (ds ++ b'.' ∷ (es ++ c ∷ rest))
      ≡ some (fraction (value_from 0 (ds ++ es)) (pow10 (length es)), c ∷ rest)
unfolding number number_after fractional
number_decimal ds [] c rest h k ne u = absurd (ne refl)
number_decimal ds (e ∷ es) c rest h k ne u = ground (
  arith,
  span_digits-append ds (b'.' ∷ ((e ∷ es) ++ c ∷ rest)) h dot_stops,
  span_digits-append (e ∷ es) (c ∷ rest) k u.0,
)
  where
    dot_stops : is_digit b'.' ≡ false
    dot_stops = refl

-- A number read as `x` from a text that stands for `total` in units of `unit`.
pub record Reads (w : Str) (total unit c : ℕ) (rest : Str) : Type 0 where
  pub read : Fraction
  pub reads : number (w ++ c ∷ rest) ≡ some (read, c ∷ rest)
  pub scaled : read.num * unit ≡ total * read.den
  pub nonzero : 0 < read.den

pub show_ℕ-Reads : (n c : ℕ) (rest : Str) → IsUnitStart c → Reads (show_ℕ n) n 1 c rest
show_ℕ-Reads n c rest u = record {
  read = fraction (value_from 0 (show_ℕ n)) 1;
  reads = number_whole (show_ℕ n) c rest (show_ℕ-IsDigits n) (show_ℕ-ne-nil n) u;
  scaled = omega (arith, value_from-show_ℕ n);
  nonzero = omega arith;
}

module _ (total unit k : ℕ) (unit_eq : unit ≡ pow10 (suc k))
    (digits_eq : length (show_ℕ unit) - 1 ≡ suc k) where
  whole_text : (total % unit == 0) ≡ true → format_scaled total unit ≡ show_ℕ (total / unit)
  unfolding format_scaled
  whole_text h = rw h

  module _ (more : (total % unit == 0) ≡ false) where
    below : total % unit < pow10 (suc k)
    below = ground (arith, unit_eq, pow10-pos (suc k), mod-lt total (pow10-pos (suc k)))

    above : 0 < total % unit
    above = ground arith

    digits : Str
    digits = frac (total % unit) k below above

    decimal_text : format_scaled total unit ≡ show_ℕ (total / unit) ++ b'.' ∷ digits
    unfolding format_scaled digits
    decimal_text = rw (more, digits_eq, frac_lem)

    decimal_value :
        value_from 0 (show_ℕ (total / unit) ++ digits) * unit ≡ total * pow10 (length digits)
    unfolding digits
    decimal_value =
        let (z, value, scale) = frac_scale (total % unit) k below above in
        let p : ℕ = pow10 (length digits) in
        let v : ℕ = value_from 0 digits in
        let w : ℕ = total / unit in
        omega (
          arith,
          ap (λ t. t * unit) spelled,
          ap (λ t. v * t) (unit_eq ∙ sym scale),
          ap (λ t. t * p) value,
          ap (λ t. t * p) (div-add-mod total unit),
        )
      where
        spelled :
            value_from 0 (show_ℕ (total / unit) ++ digits)
            ≡ (total / unit) * pow10 (length digits) + value_from 0 digits
        spelled =
            value_from-append 0 (show_ℕ (total / unit)) digits
            ∙ ap (λ a. value_from a digits) (value_from-show_ℕ (total / unit))
            ∙ value_from-split (total / unit) digits

    decimal_reads :
        (c : ℕ) (rest : Str)
        → IsUnitStart c
        → number (show_ℕ (total / unit) ++ b'.' ∷ (digits ++ c ∷ rest))
          ≡ some (
            fraction (value_from 0 (show_ℕ (total / unit) ++ digits)) (pow10 (length digits)),
            c ∷ rest,
          )
    decimal_reads c rest u =
        number_decimal (show_ℕ (total / unit)) digits c rest (show_ℕ-IsDigits _)
          (unfold digits in frac-IsDigits (total % unit) k below above)
          (unfold digits in frac-ne-nil (total % unit) k below above) u

  pub format_scaled-Reads :
      (c : ℕ) (rest : Str) → IsUnitStart c → Reads (format_scaled total unit) total unit c rest
  unfolding show_ℕ-Reads
  format_scaled-Reads c rest u = elim (Bool-cases (total % unit == 0)) [
    | inl exact ↦ record {
      read = fraction (value_from 0 (show_ℕ (total / unit))) 1;
      reads = rw (whole_text exact) ((show_ℕ-Reads (total / unit) c rest u).reads);
      scaled = ground (arith, value_from-show_ℕ (total / unit), div-add-mod total unit);
      nonzero = omega arith;
    }
    | inr more ↦ record {
      read =
          fraction (value_from 0 (show_ℕ (total / unit) ++ digits more))
            (pow10 (length (digits more)));
      reads = rw (decimal_text more, append_assoc) (decimal_reads more c rest u);
      scaled = decimal_value more;
      nonzero = pow10-pos (length (digits more));
    }
  ]

  -- the text begins with the digits of the whole part, and no character of the rest is a space
  pub format_scaled_shape :
      (s : Str) × (format_scaled total unit ≡ show_ℕ (total / unit) ++ s) × NoSpace s
  unfolding is_space
  format_scaled_shape = elim (Bool-cases (total % unit == 0)) [
    | inl exact ↦ ([], whole_text exact ∙ sym (append-nil _), tt)
    | inr more ↦ (b'.' ∷ digits more, decimal_text more, (refl, digits-NoSpace more))
  ]
    where
      digits-NoSpace : (more : (total % unit == 0) ≡ false) → NoSpace (digits more)
      digits-NoSpace more =
          IsDigits-NoSpace _
            (unfold digits in frac-IsDigits (total % unit) k (below more) (above more))
