-- ===== src/Duration/Fuel.antt =====
-- The text that a match consumes, and the fuel of the loop over the matches.
use conduit_connector_sdk_py.Prelude.{
  ◌+◌, ℕ, zero, suc, ◌≤◌, ◌<◌, ◌≡◌, refl, some, List, [], ◌∷◌, arith, length, Option-cases, inl,
  inr, All,
}
use conduit_connector_sdk_py.Prelude.Decimal.{Str}
use conduit_connector_sdk_py.Duration.{
  Fraction, add, span_digits, fractional, number_after, number, strip_prefix, find_unit, units,
  component, components,
}

length-span_digits : (s : Str) → length (span_digits s).1 ≤ length s
unfolding span_digits
length-span_digits [] = omega arith
length-span_digits (c ∷ s) = ground (arith, length-span_digits s)

length-fractional :
    (run rest s : Str) (x : Fraction) (rest' : Str)
    → fractional run rest s ≡ some (x, rest')
    → length s ≤ length rest
    → length rest' ≤ length rest
unfolding fractional
length-fractional run rest s x rest' h le = ground (arith, length-span_digits s)

length-number_after :
    (run s : Str) (x : Fraction) (rest : Str)
    → number_after run s ≡ some (x, rest)
    → length rest ≤ length s
unfolding number_after
length-number_after run [] x rest h = ground (arith, length-fractional run [] [] x rest)
length-number_after run (c ∷ s) x rest h =
    ground (arith, length-fractional run (c ∷ s) s x rest, length-fractional run (c ∷ s) [] x rest)

length-number :
    (s : Str) (x : Fraction) (rest : Str) → number s ≡ some (x, rest) → length rest ≤ length s
unfolding number
length-number s x rest h =
    omega (
      arith,
      length-span_digits s,
      length-number_after (span_digits s).0 (span_digits s).1 x rest h,
    )

length-strip_prefix :
    (p s rest : Str) → strip_prefix p s ≡ some rest → length rest + length p ≡ length s
unfolding strip_prefix
length-strip_prefix [] s rest h = ground arith
length-strip_prefix (c ∷ p) [] rest h = cc
length-strip_prefix (c ∷ p) (d ∷ s) rest h = ground (arith, length-strip_prefix p s rest)

length-find_unit :
    (us : List (Str × Fraction)) (s : Str) (x : Fraction) (rest : Str)
    → All (λ u. 0 < length u.0) us
    → find_unit us s ≡ some (x, rest)
    → length rest < length s
unfolding find_unit
length-find_unit [] s x rest named h = cc
length-find_unit (u ∷ us) s x rest named h = elim (Option-cases (strip_prefix u.0 s)) [
  | inl other ↦ length-find_unit us s x rest named.1 (ground (arith, other))
  | inr (r, found) ↦ ground (arith, length-strip_prefix u.0 s r found)
]

length-component :
    (s : Str) (x : Fraction) (rest : Str) → component s ≡ some (x, rest) → length rest < length s
unfolding component
length-component s x rest h = elim (Option-cases (number s)) [
  | inl fails ↦ ground (arith, fails)
  | inr ((n, left), read) ↦ elim (Option-cases (find_unit units left)) [
    | inl fails ↦ ground (arith, read, fails)
    | inr ((scale, right), found) ↦ ground (
      arith,
      read,
      found,
      length-number s n left,
      length-find_unit units left scale right (omega arith),
    )
  ]
]

-- The loop's result does not depend on its fuel, from the length of the text on: every match takes
-- at least one character, so the loop ends by the end of the text or by a place that does not match.
pub components_fuel :
    (fuel fuel' : ℕ) (s : Str) (t : Fraction)
    → length s ≤ fuel
    → length s ≤ fuel'
    → components fuel s t ≡ components fuel' s t
unfolding components
components_fuel fuel fuel' [] t h h' = refl
components_fuel zero fuel' (c ∷ s) t h h' = absurd (omega arith)
components_fuel (suc fuel) zero (c ∷ s) t h h' = absurd (omega arith)
components_fuel (suc fuel) (suc fuel') (c ∷ s) t h h' = elim (Option-cases (component (c ∷ s))) [
  | inl fails ↦ ground (arith, fails)
  | inr ((x, rest), step) ↦
      ground (
        arith,
        step,
        length-component (c ∷ s) x rest step,
        components_fuel fuel fuel' rest (add t x),
      )
]
