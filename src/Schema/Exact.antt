-- ===== src/Schema/Exact.antt =====
-- `_validate_value` against the rules of Schema/Conforms, shape by shape.
use conduit_connector_sdk_py.Prelude.{
  some-inj, zero, suc, ◌≡◌, refl, sym, ap, ◌∙◌, ◌≢◌, inl, inr, ℕ, String, Bool, true, false,
  Bool-cases, not, ◌&&◌, Option, none, some, List, [], ◌∷◌, ◌==◌, ==_iff, arith, any, length, ℤ,
  Dict, lookup, is_some, Result, err, raise_if, str_eq, eq_iff, leb_ℤ, ◌≤ℤ◌, In,
}
use conduit_connector_sdk_py.Avro.{
  Primitive, boolean, long, double, string, avro_primitives, int_min, int_max, long_min, long_max,
  Key, text, other_key, Value, null, bool, int, float, str, bytes, list, dict, Schema, union,
  record_of, array, map_of, enum, fixed, by_name, unsupported, Field, Fields, items, entries,
  branches, fields, value_at,
}
use conduit_connector_sdk_py.Schema.{
  Failure, type_error, value_error, overflow_error, in_range, validate_primitive, resolve_named,
  known_key, validate_field, validate_record, validate_entry, validate_enum, validate_fixed,
  validate_array, validate_map, validate_name, validate_value,
}
use conduit_connector_sdk_py.Schema.Conforms.{
  Fits, Known, Conforms, a_branch, a_record, an_array, a_map, a_symbol, a_fixed, a_primitive,
  a_reference, Read, read,
}
use conduit_connector_sdk_py.Schema.Refers.{resolve_named_iff}
use conduit_connector_sdk_py.Schema.Decides.{
  Decided, returns, raises, gives_up, Caught, Decided-iff, Decided-seq, Decided-raise_if,
  Decided-each, Decided-try_branches,
}

-- the test that a loop over the list finds nothing
any-In :
    {A : Type 0} (p : A → Bool) (xs : List A)
    → not (any p xs) ≡ false
    → (a : A) × In a xs × (p a ≡ true)
any-In p [] h = ground arith
any-In p (x ∷ xs) h = elim (Bool-cases (p x)) [
  | inl found ↦ (x, inl refl, found)
  | inr missed ↦ let (a, i, e) = any-In p xs (ground (arith, missed, h)) in (a, inr i, e)
]

In-any :
    {A : Type 0} (p : A → Bool) (xs : List A) (a : A)
    → In a xs
    → p a ≡ true
    → not (any p xs) ≡ false
In-any p [] a i h = absurd i
In-any p (x ∷ xs) a (inl e) h = ground (arith, ap p e, h)
In-any p (x ∷ xs) a (inr j) h = ground (arith, In-any p xs a j h)

Decided-in_range : (low high n : ℤ) → Decided ((low ≤ℤ n) × (n ≤ℤ high)) (in_range low high n)
unfolding Caught
Decided-in_range low high n =
    Decided-raise_if (not (leb_ℤ low n && leb_ℤ n high)) overflow_error tt (λ h. ground (arith, h))
      (λ (a, b). ground (arith, a, b))

pub Decided-primitive : (p : Primitive) (v : Value) → Decided (Fits p v) (validate_primitive p v)
unfolding Fits validate_primitive Caught
Decided-primitive Primitive.int (int n) = Decided-in_range int_min int_max n
Decided-primitive long (int n) = Decided-in_range long_min long_max n
Decided-primitive Primitive.float (float x) = returns tt
Decided-primitive double (float x) = returns tt
Decided-primitive boolean (bool b) = returns tt
Decided-primitive string (str s) = returns tt
Decided-primitive Primitive.bytes (bytes bs) = returns tt
Decided-primitive Primitive.null null = returns tt
Decided-primitive _ _ = raises type_error tt (λ f. f)

module _ (named : Dict Schema) where
  Decided-enum :
      (symbols : List String) (v : Value)
      → Decided (Conforms named (enum symbols) v) (validate_enum symbols v)
  unfolding validate_enum Caught Read
  Decided-enum symbols (str s) =
      Decided-raise_if (not (any (λ symbol. str_eq symbol s) symbols)) value_error tt
        (λ h.
          let (a, i, e) = any-In (λ symbol. str_eq symbol s) symbols h in
          a_symbol (rw ((eq_iff a s).0 e) at i))
        (λ c. In-any (λ symbol. str_eq symbol s) symbols s (read c) ((eq_iff s s).1 refl))
  Decided-enum symbols v = raises type_error tt (λ c. read c)

  Decided-fixed :
      (size : ℕ) (v : Value) → Decided (Conforms named (fixed size) v) (validate_fixed size v)
  unfolding validate_fixed Caught Read
  Decided-fixed size (bytes bs) =
      Decided-raise_if (not (length bs == size)) value_error tt
        (λ h. a_fixed (ground (arith, ==_iff (length bs) size, h)))
        (λ c. ground (arith, ==_iff (length bs) size, read c))
  Decided-fixed size v = raises type_error tt (λ c. read c)

  pub Decided-known_key : (fs : List Field) (k : Key) → Decided (Known fs k) (known_key fs k)
  unfolding known_key Caught
  Decided-known_key fs (text k) =
      Decided-raise_if (not (any (λ f. str_eq f.name k) fs)) type_error tt
        (λ h.
          let (f, i, e) = any-In (λ f. str_eq f.name k) fs h in
          (f, i, ap text ((eq_iff f.name k).0 e)))
        (λ (f, i, e).
          In-any (λ f. str_eq f.name k) fs f i ((eq_iff f.name k).1 (ground (arith, e))))
  Decided-known_key fs other_key = raises type_error tt (λ (f, i, e). ground (arith, e))

  module _ (check : Schema → Value → Result Failure (Unit {0}))
      (h : (s : Schema) (v : Value) → Decided (Conforms named s v) (check s v)) where
    Decided-array :
        (s : Schema) (v : Value)
        → Decided (Conforms named (array s) v) (validate_array (λ w. check s w) v)
    unfolding validate_array Caught Read
    Decided-array s (list xs) = Decided-iff an_array read (Decided-each (items xs) (h s))
    Decided-array s v = raises type_error tt (λ c. read c)

    Decided-entry :
        (s : Schema) (e : Key × Value)
        → Decided
            (((name : String) × (e.0 ≡ text name)) × Conforms named s e.1)
            (validate_entry (λ w. check s w) e)
    unfolding validate_entry Caught
    Decided-entry s (text k, v) = Decided-iff (λ c. ((k, refl), c)) (λ c. c.1) (h s v)
    Decided-entry s (other_key, v) = raises type_error tt (λ c. ground (arith, c.0.1))

    Decided-map :
        (s : Schema) (v : Value)
        → Decided (Conforms named (map_of s) v) (validate_map (λ w. check s w) v)
    unfolding validate_map Caught Read
    Decided-map s (dict es) =
        Decided-iff (λ f. a_map (λ e i. (f e i).0) (λ e i. (f e i).1))
          (λ c e i. let (k, g) = read c in (k e i, g e i))
          (Decided-each (entries es) (Decided-entry s))
    Decided-map s v = raises type_error tt (λ c. read c)

    -- what is there for a field, and what the schema has for it
    Decided-slot :
        (t : Schema) (d o : Option Value)
        → Decided
            (((v : Value) → o ≡ some v → Conforms named t v) × (o ≡ none → d ≢ none))
            (elim o [ some v ↦ check t v | none ↦ raise_if (not (is_some d)) value_error ])
    unfolding Caught
    Decided-slot t d (some v) =
        Decided-iff (λ c. (λ w e. rw (some-inj e) at c, λ e. ground (arith, e)))
          (λ (f, g). f v refl) (h t v)
    Decided-slot t none none = raises value_error tt (λ (f, g). g refl refl)
    Decided-slot t (some d) none = returns (λ v e. ground (arith, e), λ e f. ground (arith, f))

    Decided-record :
        (fs : Fields) (v : Value)
        → Decided (Conforms named (record_of fs) v) (validate_record check fs v)
    unfolding validate_record validate_field Caught Read
    Decided-record fs (dict es) =
        Decided-iff (λ (k, g). a_record k (λ f i. (g f i).0) (λ f i. (g f i).1))
          (λ c. let (k, g, d) = read c in (k, λ f i. (g f i, d f i)))
          (Decided-seq (Decided-each (entries es) (λ e. Decided-known_key (fields fs) e.0)) (
            Decided-each (fields fs)
              (λ f. Decided-slot f.type f.default (value_at f.name (entries es)))))
    Decided-record fs v = raises type_error tt (λ c. read c)

    Decided-name :
        (n : String) (v : Value)
        → Decided (Conforms named (by_name n) v) (validate_name (λ s. check s v) named n v)
    unfolding validate_name Caught Read
    Decided-name n v = go (lookup n avro_primitives) refl (resolve_named n named) refl
      where
        go :
            (p : Option Primitive) (at_p : lookup n avro_primitives ≡ p) (r : Option Schema)
            (at_r : resolve_named n named ≡ r)
            → Decided (Conforms named (by_name n) v) (elim p [
              | some p ↦ validate_primitive p v
              | none ↦ elim r [ some s ↦ check s v | none ↦ err type_error ]
            ])
        go (some p) at_p r at_r =
            Decided-iff (a_primitive p at_p)
              (λ c. elim (read c) [
                | inl (q, e, f) ↦ rw (some-inj (sym e ∙ at_p)) at f
                | inr (s, e, _, _) ↦ absurd (ground (arith, e, at_p))
              ])
              (Decided-primitive p v)
        go none at_p (some s) at_r =
            Decided-iff (a_reference s at_p ((resolve_named_iff n named s).0 at_r))
              (λ c. elim (read c) [
                | inl (q, e, _) ↦ absurd (ground (arith, e, at_p))
                | inr (t, _, e, f) ↦
                    rw (some-inj (sym ((resolve_named_iff n named t).1 e) ∙ at_r)) at f
              ])
              (h s v)
        go none at_p none at_r = raises type_error tt (λ c. elim (read c) [
          | inl (q, e, _) ↦ absurd (ground (arith, e, at_p))
          | inr (t, _, e, f) ↦ absurd (ground (arith, (resolve_named_iff n named t).1 e, at_r))
        ])

-- The check decides the rules, as long as the fuel lasts.
pub validate_value-decides :
    (named : Dict Schema) (fuel : ℕ) (s : Schema) (v : Value)
    → Decided (Conforms named s v) (validate_value named fuel s v)
unfolding validate_value Caught Read
validate_value-decides named zero s v = gives_up
validate_value-decides named (suc fuel) (union bs) v =
    Decided-iff (λ (b, i, c). a_branch b i c) read
      (Decided-try_branches (branches bs) (λ b. validate_value-decides named fuel b v))
validate_value-decides named (suc fuel) (record_of fs) v =
    Decided-record named (validate_value named fuel) (validate_value-decides named fuel) fs v
validate_value-decides named (suc fuel) (array s) v =
    Decided-array named (validate_value named fuel) (validate_value-decides named fuel) s v
validate_value-decides named (suc fuel) (map_of s) v =
    Decided-map named (validate_value named fuel) (validate_value-decides named fuel) s v
validate_value-decides named (suc fuel) (enum symbols) v = Decided-enum named symbols v
validate_value-decides named (suc fuel) (fixed size) v = Decided-fixed named size v
validate_value-decides named (suc fuel) (by_name n) v =
    Decided-name named (validate_value named fuel) (validate_value-decides named fuel) n v
validate_value-decides named (suc fuel) unsupported v = raises type_error tt (λ c. read c)
