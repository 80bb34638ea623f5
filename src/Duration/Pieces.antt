-- ===== src/Duration/Pieces.antt =====
-- The pieces of a duration's text, a number and its unit, and the microseconds that the loop over
-- the matches adds for each.
use conduit_connector_sdk_py.Prelude.{
  ℕ, zero, suc, ◌+◌, ◌-◌, ◌*◌, ◌/◌, ◌≤◌, ◌<◌, ◌≡◌, refl, ap, ◌≢◌, true, false, some, [], ◌∷◌, ◌++◌,
  append_assoc, append-nil, arith, length, length-append, All-append,
}
use conduit_connector_sdk_py.Prelude.Decimal.{
  Str, codes, is_digit, IsDigits, show_ℕ, show_ℕ-IsDigits, show_ℕ-ne-nil, pow10, NoSpace,
  IsDigits-NoSpace, is_space,
}
use conduit_connector_sdk_py.Duration.{
  Fraction, fraction, add, times, find_unit, strip_prefix, units, component, components,
  format_scaled,
}
use conduit_connector_sdk_py.Duration.Reading.{
  Denotes, format_scaled_shape, add-Denotes, IsUnitStart, Reads, show_ℕ-Reads, format_scaled-Reads,
}

-- The loop over the matches adds `n` microseconds to its total.
pub record Parses (s : Str) (n : ℕ) : Type 0 where
  pub run :
      (fuel m : ℕ) (t : Fraction)
      → length s ≤ fuel
      → Denotes t m
      → (x : Fraction) × (components fuel s t ≡ some x) × Denotes x (m + n)

Denotes-cast : (x : Fraction) (m n : ℕ) → m ≡ n → Denotes x m → Denotes x n
Denotes-cast x m n e d = rw (← e) d

pub Parses-nil : Parses [] 0
unfolding components
Parses-nil = record { run = λ fuel m t h d. (t, refl, Denotes-cast t m (m + 0) (omega arith) d) }

module _ (rest : Str) (x : Fraction) (k n : ℕ) (d : Denotes x k) (p : Parses rest n) where
  run_cons :
      (s : Str)
      → length rest < length s
      → component s ≡ some (x, rest)
      → (fuel m : ℕ) (t : Fraction) → length s ≤ fuel
      → Denotes t m
      → (y : Fraction) × (components fuel s t ≡ some y) × Denotes y (m + (k + n))
  unfolding components
  run_cons [] short step fuel m t h e = absurd (omega arith)
  run_cons (c ∷ s) short step zero m t h e = absurd (omega arith)
  run_cons (c ∷ s) short step (suc fuel) m t h e =
      let (y, eq, dy) = p.run fuel (m + k) (add t x) (omega arith) (add-Denotes t x m k e d) in
      (y, ground (arith, step, eq), Denotes-cast y (m + k + n) (m + (k + n)) (omega arith) dy)

  Parses-cons : (s : Str) → length rest < length s → component s ≡ some (x, rest) → Parses s (k + n)
  Parses-cons s short step = record { run = run_cons s short step }

module _ {w : Str} {total unit c : ℕ} {tail : Str} (r : Reads w total unit c tail) (f : ℕ)
    (rest : Str) (scale : find_unit units (c ∷ tail) ≡ some (fraction (unit * f) 1, rest)) where
  component_value : Fraction
  component_value = times r.read (fraction (unit * f) 1)

  component_step : component (w ++ c ∷ tail) ≡ some (component_value, rest)
  unfolding component component_value
  component_step = ground (arith, r.reads, scale)

  component_Denotes : Denotes component_value (total * f)
  unfolding times component_value
  component_Denotes = record {
    value = omega (arith, ap (λ t. t * f) r.scaled);
    nonzero = omega (arith, r.nonzero);
  }

  Parses-component :
      (n : ℕ) → length rest ≤ length tail → Parses rest n → Parses (w ++ c ∷ tail) (total * f + n)
  Parses-component n short p =
      Parses-cons rest component_value (total * f) n component_Denotes p (w ++ c ∷ tail)
        (omega (arith, length-append w (c ∷ tail))) component_step

abbrev pub DigitHead : Str → Type 0
DigitHead [] = ⊥
DigitHead (c ∷ s) = is_digit c ≡ true

-- A text that reads as `n` microseconds, in the form that the parser meets it.
pub record Writes (w : Str) (n : ℕ) : Type 0 where
  pub parses : Parses w n
  pub head : DigitHead w
  pub long : 2 ≤ length w
  pub nospace : NoSpace w

digits-DigitHead : (s rest : Str) → IsDigits s → s ≢ [] → DigitHead (s ++ rest)
digits-DigitHead [] rest h ne = absurd (ne refl)
digits-DigitHead (c ∷ s) rest h ne = ground arith

show_ℕ-long : (n : ℕ) → 1 ≤ length (show_ℕ n)
show_ℕ-long n = go (show_ℕ n) (show_ℕ-ne-nil n)
  where
    go : (s : Str) → s ≢ [] → 1 ≤ length s
    go [] ne = absurd (ne refl)
    go (c ∷ s) ne = omega arith

show_ℕ-NoSpace : (n : ℕ) → NoSpace (show_ℕ n)
show_ℕ-NoSpace n = IsDigits-NoSpace (show_ℕ n) (show_ℕ-IsDigits n)

abbrev IsNoSpace : ℕ → Type 0
IsNoSpace c = is_space c ≡ false

-- a number, whole or with a fraction, then its unit and the rest of the text
module _ (n : ℕ) (s : Str) (shape : NoSpace s) (c : ℕ) (tail : Str) (m : ℕ)
    (p : Parses ((show_ℕ n ++ s) ++ c ∷ tail) m) (ns : NoSpace (c ∷ tail)) where
  numbered-Writes : Writes ((show_ℕ n ++ s) ++ c ∷ tail) m
  numbered-Writes = record {
    parses = p;
    head =
        rw append_assoc
          (digits-DigitHead (show_ℕ n) (s ++ c ∷ tail) (show_ℕ-IsDigits n) (show_ℕ-ne-nil n));
    long = omega (
      arith,
      length-append (show_ℕ n ++ s) (c ∷ tail),
      length-append (show_ℕ n) s,
      show_ℕ-long n,
    );
    nospace =
        All-append IsNoSpace (show_ℕ n ++ s) (c ∷ tail)
          (All-append IsNoSpace (show_ℕ n) s (show_ℕ-NoSpace n) shape) ns;
  }

Parses-cast : (w w' : Str) (m m' : ℕ) → w ≡ w' → m ≡ m' → Parses w m → Parses w' m'
Parses-cast w w' m m' e f p = rw (← e, ← f) p

pub Writes-cast : (w w' : Str) → w ≡ w' → (m m' : ℕ) → m ≡ m' → Writes w m → Writes w' m'
Writes-cast w w' e m m' f x = rw (← e, ← f) x

-- the pieces of a duration's text, with what follows each
pub micro_Writes : (n : ℕ) → Writes (show_ℕ n ++ codes "µs") n
micro_Writes n =
    let u : IsUnitStart 181 = (refl, refl) in
    let p =
      Parses-component (show_ℕ-Reads n 181 (b's' ∷ []) u) 1 []
        (unfold find_unit strip_prefix in refl) 0 (omega arith) Parses-nil in
    Writes-cast ((show_ℕ n ++ []) ++ codes "µs") (show_ℕ n ++ codes "µs") (rw append-nil) n n refl (
      numbered-Writes n [] tt 181 (b's' ∷ []) n
        (Parses-cast _ _ (n * 1 + 0) n (rw append-nil) (omega arith) p)
        (unfold is_space in (refl, (refl, tt))))

pub clock_unit :
    (h c scale : ℕ) (rest : Str) (n : ℕ)
    → IsUnitStart c
    → is_space c ≡ false
    → find_unit units (c ∷ rest) ≡ some (fraction (1 * scale) 1, rest)
    → Writes rest n
    → Writes ((show_ℕ h ++ c ∷ []) ++ rest) (h * scale + n)
clock_unit h c scale rest n u ns scaled w =
    let p = Parses-component (show_ℕ-Reads h c rest u) scale rest scaled n (omega arith) w.parses in
    Writes-cast ((show_ℕ h ++ []) ++ c ∷ rest) ((show_ℕ h ++ c ∷ []) ++ rest)
      (rw (append-nil, append_assoc)) (h * scale + n) (h * scale + n) refl
      (numbered-Writes h [] tt c rest (h * scale + n)
        (Parses-cast _ _ (h * scale + n) (h * scale + n) (rw append-nil) refl p) (ns, w.nospace))

module _ (total unit k : ℕ) (unit_eq : unit ≡ pow10 (suc k))
    (digits_eq : length (show_ℕ unit) - 1 ≡ suc k) where
  pub scaled_Writes :
      (c : ℕ) (tail : Str)
      → IsUnitStart c
      → NoSpace (c ∷ tail)
      → find_unit units (c ∷ tail) ≡ some (fraction (unit * 1) 1, [])
      → Writes (format_scaled total unit ++ c ∷ tail) total
  scaled_Writes c tail u ns scaled =
      let p =
        Parses-component (format_scaled-Reads total unit k unit_eq digits_eq c tail u) 1 [] scaled 0
          (omega arith) Parses-nil in
      let (s, shape, ok_shape) = format_scaled_shape total unit k unit_eq digits_eq in
      Writes-cast ((show_ℕ (total / unit) ++ s) ++ c ∷ tail) (format_scaled total unit ++ c ∷ tail)
        (rw shape) total total refl
        (numbered-Writes (total / unit) s ok_shape c tail total
          (Parses-cast _ _ (total * 1 + 0) total (rw shape) (omega arith) p) ns)
