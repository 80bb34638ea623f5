-- ===== src/Constraints/Exact.antt =====
-- The exclusive bounds on the wire and the constraints that they stand for.
use conduit_connector_sdk_py.Prelude.{
  ◌≡◌, refl, ap, sym, ◌∙◌, Bool, true, false, ◌&&◌, List, [], ◌∷◌, ◌++◌, ℤ, pos, negsuc, ◌+ℤ◌, ◌-ℤ◌,
  ltb_ℤ, leb_ℤ, all, All, Result, ok, err, Option, none, some, arith, ◌>>=◌,
}
use conduit_connector_sdk_py.Prelude.Decimal.{Str, int, int-show}
use conduit_connector_sdk_py.Duration.{timedelta, DurationError, parse_go_duration}
use conduit_connector_sdk_py.Duration.RoundTrip.{IsTimedelta, parse_go_duration-format_go_duration}
use conduit_connector_sdk_py.Constraints.{
  Kind, int_field, duration_field, Constraint, gt, lt, ge, le, pattern, unsupported, Validation,
  greater_than, less_than, regex, format_bound, moved, approximate_ge_as_gt, approximate_le_as_lt,
  validation, constraint_validations,
}

abbrev of_result : Result DurationError ℤ → Option ℤ
of_result (ok v) = some v
of_result (err e) = none

-- The number that the host reads in a bound of a field of this kind.
abbrev pub read_bound : Kind → Str → Option ℤ
read_bound int_field s = int s
read_bound duration_field s = of_result (parse_go_duration s)

abbrev pub test : (ℤ → Bool) → Option ℤ → Bool
test p none = false
test p (some b) = p b

module _ (matches : Str → ℤ → Bool) where
  -- whether the host takes the value `x`
  abbrev pub admits : Kind → ℤ → Validation → Bool
  admits k x (greater_than s) = test (λ b. ltb_ℤ b x) (read_bound k s)
  admits k x (less_than s) = test (λ b. ltb_ℤ x b) (read_bound k s)
  admits k x (regex p) = matches p x

  -- whether pydantic does, of the constraints that the wire can say
  abbrev pub meets : ℤ → Constraint → Bool
  meets x (gt v) = ltb_ℤ v x
  meets x (lt v) = ltb_ℤ x v
  meets x (ge v) = leb_ℤ v x
  meets x (le v) = leb_ℤ x v
  meets x (pattern p) = matches p x
  meets x unsupported = true

-- A bound that is a value of the field's type.
abbrev pub IsBound : Kind → ℤ → Type 0
IsBound int_field v = Unit {0}
IsBound duration_field v = IsTimedelta v

abbrev pub HasBound : Kind → Constraint → Type 0
HasBound k (gt v) = IsBound k v
HasBound k (lt v) = IsBound k v
HasBound k (ge v) = Unit {0}
HasBound k (le v) = Unit {0}
HasBound k (pattern p) = Unit {0}
HasBound k unsupported = Unit {0}

read_bound-format_bound :
    (k : Kind) (v : ℤ) → IsBound k v → read_bound k (format_bound k v) ≡ some v
unfolding format_bound
read_bound-format_bound int_field v h = int-show v
read_bound-format_bound duration_field v h = ap of_result (parse_go_duration-format_go_duration v h)

moved-ok : (k : Kind) (v u : ℤ) → moved k v ≡ ok u → (u ≡ v) × IsBound k v
unfolding moved timedelta
moved-ok int_field v u e = (cc, tt)
moved-ok duration_field (pos n) u e = ground arith
moved-ok duration_field (negsuc n) u e = ground arith

same_value : {E A : Type 0} (r : Result E A) {x y : A} → r ≡ ok x → r ≡ ok y → x ≡ y
same_value r d e = cc

err_ne_ok : {E A : Type 0} {e : E} {x : A} → err e ≡ ok x → ⊥
err_ne_ok h = cc

ge_shape :
    (k : Kind) (v u : ℤ)
    → moved k (v -ℤ pos 1) ≡ ok u
    → validation k (ge v) ≡ ok (greater_than (format_bound k u) ∷ [])
unfolding validation approximate_ge_as_gt
ge_shape k v u m = rw m refl

le_shape :
    (k : Kind) (v u : ℤ)
    → moved k (v +ℤ pos 1) ≡ ok u
    → validation k (le v) ≡ ok (less_than (format_bound k u) ∷ [])
unfolding validation approximate_le_as_lt
le_shape k v u m = rw m refl

and_true : (b : Bool) → (b && true) ≡ b
and_true true = refl
and_true false = refl

below_lem : (v x : ℤ) → ltb_ℤ (v -ℤ pos 1) x ≡ leb_ℤ v x
unfolding ◌-ℤ◌ ◌+ℤ◌
below_lem v x = ground arith

above_lem : (v x : ℤ) → ltb_ℤ x (v +ℤ pos 1) ≡ leb_ℤ x v
unfolding ◌+ℤ◌
above_lem v x = ground arith

all-append :
    (p : Validation → Bool) (vs ws : List Validation) → all p (vs ++ ws) ≡ (all p vs && all p ws)
all-append p [] ws = refl
all-append p (v ∷ vs) ws = ground (arith, all-append p vs ws)

abbrev joined :
    Result DurationError (List Validation)
    → Result DurationError (List Validation)
    → Result DurationError (List Validation)
joined r q = r >>= λ us. q >>= λ ws. ok (us ++ ws)

-- both parts of a list of validations, where it is made
joined-ok :
    (r q : Result DurationError (List Validation)) (vs : List Validation)
    → joined r q ≡ ok vs
    → (us : List Validation) × (ws : List Validation) × (r ≡ ok us) × (q ≡ ok ws) × (us ++ ws ≡ vs)
joined-ok (err d) q vs e = absurd (err_ne_ok e)
joined-ok (ok us) (err d) vs e = absurd (err_ne_ok e)
joined-ok (ok us) (ok ws) vs e = (us, ws, refl, refl, same_value (joined (ok us) (ok ws)) refl e)

module _ (matches : Str → ℤ → Bool) where
  -- every validation of a list admits the value
  abbrev admits_all : Kind → ℤ → List Validation → Bool
  admits_all k x vs = all (λ v. admits matches k x v) vs

  greater_than-exact :
      (k : Kind) (b x : ℤ)
      → IsBound k b
      → admits_all k x (greater_than (format_bound k b) ∷ []) ≡ ltb_ℤ b x
  greater_than-exact k b x h =
      and_true _ ∙ ap (test (λ c. ltb_ℤ c x)) (read_bound-format_bound k b h)

  less_than-exact :
      (k : Kind) (b x : ℤ)
      → IsBound k b
      → admits_all k x (less_than (format_bound k b) ∷ []) ≡ ltb_ℤ x b
  less_than-exact k b x h = and_true _ ∙ ap (test (λ c. ltb_ℤ x c)) (read_bound-format_bound k b h)

  ge-exact :
      (k : Kind) (v : ℤ) (vs : List Validation) (x : ℤ) (r : Result DurationError ℤ)
      → moved k (v -ℤ pos 1) ≡ r
      → validation k (ge v) ≡ ok vs
      → admits_all k x vs ≡ leb_ℤ v x
  unfolding validation approximate_ge_as_gt
  ge-exact k v vs x (err d) m e = absurd (err_ne_ok (rw m at e))
  ge-exact k v vs x (ok u) m e =
      let (same, bound) = moved-ok k (v -ℤ pos 1) u m in
      ap (admits_all k x) (same_value (validation k (ge v)) e (ge_shape k v u m))
      ∙ ap (λ b. admits_all k x (greater_than (format_bound k b) ∷ [])) same
      ∙ greater_than-exact k (v -ℤ pos 1) x bound
      ∙ below_lem v x

  le-exact :
      (k : Kind) (v : ℤ) (vs : List Validation) (x : ℤ) (r : Result DurationError ℤ)
      → moved k (v +ℤ pos 1) ≡ r
      → validation k (le v) ≡ ok vs
      → admits_all k x vs ≡ leb_ℤ x v
  unfolding validation approximate_le_as_lt
  le-exact k v vs x (err d) m e = absurd (err_ne_ok (rw m at e))
  le-exact k v vs x (ok u) m e =
      let (same, bound) = moved-ok k (v +ℤ pos 1) u m in
      ap (admits_all k x) (same_value (validation k (le v)) e (le_shape k v u m))
      ∙ ap (λ b. admits_all k x (less_than (format_bound k b) ∷ [])) same
      ∙ less_than-exact k (v +ℤ pos 1) x bound
      ∙ above_lem v x

  validation-exact :
      (k : Kind) (c : Constraint) (vs : List Validation) (x : ℤ)
      → HasBound k c
      → validation k c ≡ ok vs
      → admits_all k x vs ≡ meets matches x c
  unfolding validation
  validation-exact k (gt v) vs x h e =
      ap (admits_all k x) (same_value (validation k (gt v)) e refl) ∙ greater_than-exact k v x h
  validation-exact k (lt v) vs x h e =
      ap (admits_all k x) (same_value (validation k (lt v)) e refl) ∙ less_than-exact k v x h
  validation-exact k (ge v) vs x h e = ge-exact k v vs x (moved k (v -ℤ pos 1)) refl e
  validation-exact k (le v) vs x h e = le-exact k v vs x (moved k (v +ℤ pos 1)) refl e
  validation-exact k (pattern p) vs x h e =
      ap (admits_all k x) (same_value (validation k (pattern p)) e refl) ∙ and_true (matches p x)
  validation-exact k unsupported vs x h e =
      ap (admits_all k x) (same_value (validation k unsupported) e refl)

  -- For a field of whole numbers or durations, the validations that are sent admit exactly the
  -- values that meet its bounds and its pattern, an inclusive bound too, where they are made at all:
  -- the host reads a bound as the number, or the duration, that its text stands for.
  pub constraint_validations-exact :
      (k : Kind) (cs : List Constraint) (vs : List Validation) (x : ℤ)
      → All (HasBound k) cs
      → constraint_validations k cs ≡ ok vs
      → all (λ v. admits matches k x v) vs ≡ all (λ c. meets matches x c) cs
  unfolding constraint_validations
  constraint_validations-exact k [] vs x h e =
      ap (admits_all k x) (same_value (constraint_validations k []) e refl)
  constraint_validations-exact k (c ∷ cs) vs x (h, hs) e =
      let (us, ws, first, rest, whole) =
        joined-ok (validation k c) (constraint_validations k cs) vs e in
      ap (admits_all k x) (sym whole)
      ∙ all-append (λ v. admits matches k x v) us ws
      ∙ rw (validation-exact k c us x h first, constraint_validations-exact k cs ws x hs rest) refl
