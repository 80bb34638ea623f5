-- ===== src/Schema/Runs.antt =====
-- Which parts of `_validate_value` stay within the interpreter's limit on nested calls.
use conduit_connector_sdk_py.Prelude.{
  ◌≡◌, refl, not, ◌&&◌, leb_ℤ, any, length, ◌==◌, ℤ, is_some, ◌≢◌, inl, inr, ℕ, String, Bool, true,
  false, str_eq, Option, none, some, List, [], ◌∷◌, arith, Dict, lookup, Result, ok, err, ◌>>◌,
  raise_if, In,
}
use conduit_connector_sdk_py.Avro.{
  Primitive, avro_primitives, int_min, int_max, long, long_min, long_max, Key, text, other_key,
  Value, int, str, bytes, Schema, Field,
}
use conduit_connector_sdk_py.Schema.{
  Failure, type_error, value_error, overflow_error, recursion_error, validate_primitive,
  resolve_named, or_continue, each, try_branches, known_key, validate_entry, validate_enum,
  validate_fixed, in_range, validate_name,
}

-- The interpreter's limit is not reached.
abbrev pub Runs : Result Failure (Unit {0}) → Type 0
Runs r = r ≢ err recursion_error

pub Runs-seq : (r s : Result Failure (Unit {0})) → Runs r → Runs s → Runs (r >> s)
Runs-seq (ok _) s p q = q
Runs-seq (err e) s p q = p

pub Runs-raise_if : (b : Bool) (e : Failure) → e ≢ recursion_error → Runs (raise_if b e)
Runs-raise_if false e h = ground arith
Runs-raise_if true e h = ground (arith, h)

pub Runs-or_continue : (r s : Result Failure (Unit {0})) → Runs r → Runs s → Runs (or_continue r s)
unfolding or_continue
Runs-or_continue (ok _) s p q = p
Runs-or_continue (err type_error) s p q = q
Runs-or_continue (err value_error) s p q = q
Runs-or_continue (err overflow_error) s p q = q
Runs-or_continue (err _) s p q = p

pub Runs-each :
    {A : Type 0} (body : A → Result Failure (Unit {0})) (xs : List A)
    → ((a : A) → In a xs → Runs (body a))
    → Runs (each body xs)
unfolding each
Runs-each body [] h = ground arith
Runs-each body (x ∷ xs) h =
    Runs-seq (body x) (each body xs) (h x (inl refl)) (Runs-each body xs (λ a i. h a (inr i)))

pub Runs-try_branches :
    (check : Schema → Result Failure (Unit {0})) (bs : List Schema)
    → ((b : Schema) → In b bs → Runs (check b))
    → Runs (try_branches check bs)
unfolding try_branches
Runs-try_branches check [] h = ground arith
Runs-try_branches check (x ∷ xs) h =
    Runs-or_continue (check x) (try_branches check xs) (h x (inl refl))
      (Runs-try_branches check xs (λ a i. h a (inr i)))

pub Runs-in_range : (low high n : ℤ) → Runs (in_range low high n)
Runs-in_range low high n =
    Runs-raise_if (not (leb_ℤ low n && leb_ℤ n high)) overflow_error (ground arith)

pub Runs-validate_primitive : (p : Primitive) (v : Value) → Runs (validate_primitive p v)
unfolding validate_primitive
Runs-validate_primitive Primitive.int (int n) = Runs-in_range int_min int_max n
Runs-validate_primitive long (int n) = Runs-in_range long_min long_max n
Runs-validate_primitive _ _ = ground arith

pub Runs-validate_enum : (symbols : List String) (v : Value) → Runs (validate_enum symbols v)
unfolding validate_enum
Runs-validate_enum symbols (str s) =
    Runs-raise_if (not (any (λ symbol. str_eq symbol s) symbols)) value_error (ground arith)
Runs-validate_enum symbols _ = ground arith

pub Runs-validate_fixed : (size : ℕ) (v : Value) → Runs (validate_fixed size v)
unfolding validate_fixed
Runs-validate_fixed size (bytes bs) =
    Runs-raise_if (not (length bs == size)) value_error (ground arith)
Runs-validate_fixed size _ = ground arith

pub Runs-known_key : (fs : List Field) (k : Key) → Runs (known_key fs k)
unfolding known_key
Runs-known_key fs (text k) =
    Runs-raise_if (not (any (λ f. str_eq f.name k) fs)) type_error (ground arith)
Runs-known_key fs other_key = ground arith

pub Runs-slot :
    (check : Schema → Value → Result Failure (Unit {0})) (t : Schema) (d o : Option Value)
    → ((v : Value) → o ≡ some v → Runs (check t v))
    → Runs (elim o [ some v ↦ check t v | none ↦ raise_if (not (is_some d)) value_error ])
Runs-slot check t d (some v) h = h v refl
Runs-slot check t d none h = Runs-raise_if (not (is_some d)) value_error (ground arith)

pub Runs-entry :
    (check : Value → Result Failure (Unit {0})) (e : Key × Value)
    → Runs (check e.1)
    → Runs (validate_entry check e)
unfolding validate_entry
Runs-entry check (text k, v) h = h
Runs-entry check (other_key, v) h = ground arith

pub Runs-name :
    (check : Schema → Result Failure (Unit {0})) (named : Dict Schema) (n : String) (v : Value)
    → ((s : Schema) → resolve_named n named ≡ some s → Runs (check s))
    → Runs (validate_name check named n v)
unfolding validate_name
Runs-name check named n v h = go (lookup n avro_primitives) (resolve_named n named) h
  where
    go :
        (p : Option Primitive) (r : Option Schema)
        → ((s : Schema) → r ≡ some s → Runs (check s))
        → Runs (elim p [
          | some p ↦ validate_primitive p v
          | none ↦ elim r [ some s ↦ check s | none ↦ err type_error ]
        ])
    go (some p) r h = Runs-validate_primitive p v
    go none (some s) h = h s refl
    go none none h = ground arith
