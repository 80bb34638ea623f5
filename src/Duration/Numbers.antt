-- ===== src/Duration/Numbers.antt =====
-- The decimal text of a scaled number, `whole.frac`, and the number that it spells.
use native.Mathlib.Decide.{ℕ_discrete as dec_eq}
use conduit_connector_sdk_py.Prelude.{
  ℕ, zero, suc, ◌+◌, ◌-◌, ◌*◌, ◌≤◌, ◌<◌, ◌≡◌, refl, ap, ◌∙◌, sym, ◌≢◌, [], ◌∷◌, ◌++◌, arith, length,
  length-append, replicate, All-append,
}
use conduit_connector_sdk_py.Prelude.Decimal.{
  Str, IsDigits, value_from, value_from-append, value_from-show_ℕ, show_ℕ, show_ℕ-IsDigits, pow10,
  length-show_ℕ,
}
use conduit_connector_sdk_py.Duration.{rjust, rstrip_zeros}

pub pow10-pos : (n : ℕ) → 0 < pow10 n
unfolding pow10
pow10-pos zero = omega arith
pow10-pos (suc n) = omega (arith, pow10-pos n)

-- a text of digits spells its number after any accumulator
pub value_from-split :
    (acc : ℕ) (s : Str) → value_from acc s ≡ acc * pow10 (length s) + value_from 0 s
unfolding value_from pow10
value_from-split acc [] = omega arith
value_from-split acc (c ∷ s) =
    omega
      (arith, value_from-split (acc * 10 + (c - b'0')) s, value_from-split (0 * 10 + (c - b'0')) s)

abbrev pub zeros : ℕ → Str
zeros n = replicate n b'0'

value_from-zeros : (n acc : ℕ) → value_from acc (zeros n) ≡ acc * pow10 n
unfolding value_from pow10
value_from-zeros zero acc = omega arith
value_from-zeros (suc n) acc = omega (arith, value_from-zeros n (acc * 10 + 0))

rstrip_run_cons :
    (c : ℕ) (s r : Str)
    → rstrip_zeros s ≡ r
    → (n : ℕ) × (s ≡ rstrip_zeros s ++ zeros n)
    → (n : ℕ) × (c ∷ s ≡ rstrip_zeros (c ∷ s) ++ zeros n)
unfolding rstrip_zeros
rstrip_run_cons c s [] e (n, h) = elim (dec_eq c b'0') [
  | yes z ↦ (suc n, ground (arith, h))
  | no z ↦ (n, ground (arith, h))
]
rstrip_run_cons c s (d ∷ r) e (n, h) = (n, ground (arith, h))

value_from_zero : (n : ℕ) → value_from 0 (zeros n) ≡ 0
value_from_zero n = omega (arith, value_from-zeros n 0)

pub pow10-add : (a z n : ℕ) → n ≡ a + z → pow10 n ≡ pow10 a * pow10 z
unfolding pow10
pow10-add zero z n e = ground arith
pow10-add (suc a) z zero e = absurd (omega arith)
pow10-add (suc a) z (suc n) e = ground (arith, pow10-add a z n)

-- what `rstrip("0")` takes away is a run of zeros
pub rstrip_zeros_run : (s : Str) → (n : ℕ) × (s ≡ rstrip_zeros s ++ zeros n)
unfolding rstrip_zeros
rstrip_zeros_run [] = (0, refl)
rstrip_zeros_run (c ∷ s) = rstrip_run_cons c s (rstrip_zeros s) refl (rstrip_zeros_run s)

rstrip_zeros-IsDigits : (s : Str) → IsDigits s → IsDigits (rstrip_zeros s)
unfolding rstrip_zeros
rstrip_zeros-IsDigits [] h = tt
rstrip_zeros-IsDigits (c ∷ s) h = ground (arith, rstrip_zeros-IsDigits s h.1)

length-replicate : (n c : ℕ) → length (replicate n c) ≡ n
length-replicate zero c = refl
length-replicate (suc n) c = ap suc (length-replicate n c)

zeros-IsDigits : (n : ℕ) → IsDigits (zeros n)
zeros-IsDigits zero = tt
zeros-IsDigits (suc n) = ground (arith, zeros-IsDigits n)

-- The fraction digits of `total` in units of `pow10 (suc k)`.
module _ (rem k : ℕ) (below : rem < pow10 (suc k)) (above : 0 < rem) where
  padded : Str
  padded = rjust (show_ℕ rem) (suc k)

  pub frac : Str
  frac = rstrip_zeros padded

  pub frac_lem : frac ≡ rstrip_zeros (rjust (show_ℕ rem) (suc k))
  unfolding frac padded
  frac_lem = refl

  padded-IsDigits : IsDigits padded
  unfolding padded rjust
  padded-IsDigits =
      All-append (λ c. (b'0' ≤ c) × (c ≤ b'9')) (zeros (suc k - length (show_ℕ rem))) (show_ℕ rem)
        (zeros-IsDigits (suc k - length (show_ℕ rem))) (show_ℕ-IsDigits rem)

  length-padded : length padded ≡ suc k
  unfolding padded rjust
  length-padded = omega (
    arith,
    length-append (zeros (suc k - length (show_ℕ rem))) (show_ℕ rem),
    length-replicate (suc k - length (show_ℕ rem)) b'0',
    length-show_ℕ rem k below,
  )

  value_from-padded : value_from 0 padded ≡ rem
  unfolding padded rjust
  value_from-padded =
      value_from-append 0 (zeros (suc k - length (show_ℕ rem))) (show_ℕ rem)
      ∙ ap (λ n. value_from n (show_ℕ rem)) (value_from_zero (suc k - length (show_ℕ rem)))
      ∙ value_from-show_ℕ rem

  pub frac-IsDigits : IsDigits frac
  unfolding frac
  frac-IsDigits = rstrip_zeros-IsDigits padded padded-IsDigits

  -- with the zeros that were taken away, the fraction digits spell `rem`
  pub frac_scale :
      (z : ℕ) × (value_from 0 frac * pow10 z ≡ rem)
      × (pow10 (length frac) * pow10 z ≡ pow10 (suc k))
  unfolding frac
  frac_scale = let (z, e) = rstrip_zeros_run padded in (z, scaled_value z e, scaled_length z e)
    where
      scaled_value : (z : ℕ) → padded ≡ frac ++ zeros z → value_from 0 frac * pow10 z ≡ rem
      scaled_value z e =
          sym (value_from-zeros z (value_from 0 frac))
          ∙ sym (value_from-append 0 frac (zeros z))
          ∙ ap (value_from 0) (sym e)
          ∙ value_from-padded

      scaled_length :
          (z : ℕ) → padded ≡ frac ++ zeros z → pow10 (length frac) * pow10 z ≡ pow10 (suc k)
      scaled_length z e = sym (
          pow10-add (length frac) z (suc k) (
            omega (
              arith,
              length-padded,
              ap length e,
              length-append frac (zeros z),
              length-replicate z b'0',
            )))

  pub frac-ne-nil : frac ≢ []
  frac-ne-nil h = ground (arith, frac_scale.1, ap (value_from 0) h, value_nil)
    where
      value_nil : value_from 0 [] ≡ 0
      value_nil = unfold value_from in refl
