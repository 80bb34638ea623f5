-- ===== src/Schema/Encode.antt =====
-- What `AvroSchema.encode` writes and refuses, against the rules of Schema/Conforms.
use conduit_connector_sdk_py.Prelude.{
  suc, ◌≡◌, refl, sym, ap, ◌∙◌, ◌↔◌, ◌⊎◌, inl, inr, ℕ, ◌+◌, ◌*◌, ◌≤◌, String, true, some, List, [],
  ◌∷◌, arith, Dict, Result, ok, err, In,
}
use conduit_connector_sdk_py.Avro.{
  Key, text, other_key, Entries, Fields, Value, dict, Schema, record_of, Field, entries, fields,
}
use conduit_connector_sdk_py.Schema.{
  Failure, type_error, recursion_error, validate_value, validate_record, each, known_key,
}
use conduit_connector_sdk_py.Schema.Codec.{
  Fastavro, Interpreter, fastavro, AvroSchema, is_record, is_dict, checked, encode,
}
use conduit_connector_sdk_py.Schema.Conforms.{Known, Conforms, read, Read}
use conduit_connector_sdk_py.Schema.Decides.{Decided, returns, raises, gives_up}
use conduit_connector_sdk_py.Schema.Exact.{validate_value-decides, Decided-known_key}
use conduit_connector_sdk_py.Schema.Fuel.{Plain, Definition, depth, rank-max, validate_value-Runs}

-- what is asked of a parsed schema: Avro's own rules, which the parser enforces
abbrev pub Parsed : AvroSchema → Type 0
Parsed schema = Plain schema.parsed × ((e : String × Schema) → In e schema.named → Definition e.1)

-- the depth of calls that a value needs
abbrev pub enough_for : Value → ℕ
enough_for v = 3 * depth v + 3

Result-cases : (r : Result Failure (Unit {0})) → (r ≡ ok tt) ⊎ ((e : Failure) × (r ≡ err e))
Result-cases (ok _) = inl refl
Result-cases (err e) = inr (e, refl)

Decided-ok_iff :
    {P : Type 0} (r : Result Failure (Unit {0}))
    → Decided P r
    → ((r ≡ err recursion_error) → ⊥)
    → (r ≡ ok tt) ↔ P
Decided-ok_iff (ok _) (returns p) h = (λ e. p, λ q. refl)
Decided-ok_iff (err _) (raises e c n) h = (λ q. ground (arith, q), λ p. absurd (n p))
Decided-ok_iff _ gives_up h = absurd (h refl)

known_key-cases :
    (fs : List Field) (k : Key) → (known_key fs k ≡ ok tt) ⊎ (known_key fs k ≡ err type_error)
unfolding known_key
known_key-cases fs (text k) = ground arith
known_key-cases fs other_key = inr refl

known_key-unknown : (fs : List Field) (k : Key) → (Known fs k → ⊥) → known_key fs k ≡ err type_error
known_key-unknown fs k n = elim (known_key-cases fs k) [
  | inl h ↦
      absurd
        (n ((Decided-ok_iff (known_key fs k) (Decided-known_key [] fs k) (ground (arith, h))).0 h))
  | inr h ↦ h
]

each-refused :
    (fs : List Field) (es : List (Key × Value)) (e : Key × Value)
    → In e es
    → (Known fs e.0 → ⊥)
    → each (λ e. known_key fs e.0) es ≡ err type_error
unfolding each
each-refused fs [] e i n = absurd i
each-refused fs (x ∷ es) e (inl p) n = rw (known_key-unknown fs x.0 (rw (sym p) at n)) refl
each-refused fs (x ∷ es) e (inr i) n = elim (known_key-cases fs x.0) [
  | inl h ↦ rw h (each-refused fs es e i n)
  | inr h ↦ rw h refl
]

-- For a parsed schema (no union stands directly in a union, and every named type is a definition)
-- and fuel for the value's depth, the validation passes exactly the values that the rules admit. By
-- them a reference stands for the schema registered under its name or else for the first that is
-- registered under this name in a namespace, which need not be the one that the writer meant.
pub validate_value-exact :
    (schema : AvroSchema) (fuel : ℕ) (v : Value)
    → Parsed schema
    → enough_for v ≤ fuel
    → (validate_value schema.named fuel schema.parsed v ≡ ok tt)
      ↔ Conforms schema.named schema.parsed v
validate_value-exact schema fuel v (plain, defined) f =
    Decided-ok_iff (validate_value schema.named fuel schema.parsed v)
      (validate_value-decides schema.named fuel schema.parsed v)
      (validate_value-Runs schema.named defined fuel schema.parsed v plain
        (omega (arith, rank-max schema.parsed, f)))

Conforms-is_dict :
    (named : Dict Schema) (s : Schema) (v : Value)
    → is_record s ≡ true
    → Conforms named s v
    → is_dict v ≡ true
unfolding Read
Conforms-is_dict named (record_of fs) (dict es) r c = refl
Conforms-is_dict named (record_of fs) v r c = absurd (read c)
Conforms-is_dict named s v r c = ground (arith, r)

encode-checked :
    (i : Interpreter) (codec : Fastavro) (fuel : ℕ) (schema : AvroSchema) (v : Value)
    → i.cached ≡ some codec
    → checked fuel schema v ≡ ok tt
    → (encode i fuel schema v).0 ≡ codec.schemaless_writer schema.parsed v
unfolding encode fastavro
encode-checked i codec fuel schema v h e = rw (encode, e, fastavro, h) refl

encode-refused :
    (i : Interpreter) (fuel : ℕ) (schema : AvroSchema) (v : Value) (x : Failure)
    → checked fuel schema v ≡ err x
    → encode i fuel schema v ≡ (err x, i)
unfolding encode
encode-refused i fuel schema v x e = rw (encode, e) refl

module _ (schema : AvroSchema) (fuel : ℕ) (v : Value) (wf : Parsed schema)
    (f : enough_for v ≤ fuel) where
  checked-exact :
      (checked fuel schema v ≡ ok tt)
      ↔ ((is_record schema.parsed ≡ true) × Conforms schema.named schema.parsed v)
  unfolding checked
  checked-exact = (
    λ h. (ground (arith, h), (validate_value-exact schema fuel v wf f).0 (ground (arith, h))),
    λ (r, c). ground (
      arith,
      r,
      Conforms-is_dict schema.named schema.parsed v r c,
      (validate_value-exact schema fuel v wf f).1 c,
    ),
  )

  -- For a parsed schema (no union stands directly in a union, and every named type is a definition)
  -- and fuel for the value's depth, with the codec loaded: `encode` returns some bytes exactly if
  -- the schema is a record's, its rules admit the value (a reference standing for the schema of its
  -- name or else for the first of this name in a namespace), and these are what the codec writes.
  pub encode-exact :
      (codec : Fastavro) (i : Interpreter) (bs : List ℕ)
      → i.cached ≡ some codec
      → ((encode i fuel schema v).0 ≡ ok bs) ↔ (
          (is_record schema.parsed ≡ true)
          × Conforms schema.named schema.parsed v
          × (codec.schemaless_writer schema.parsed v ≡ ok bs))
  encode-exact codec i bs h = elim (Result-cases (checked fuel schema v)) [
    | inl e ↦
        let (r, c) = checked-exact.0 e in
        let same = encode-checked i codec fuel schema v h e in
        (λ w. (r, c, sym same ∙ w), λ (_, _, w). same ∙ w)
    | inr (x, e) ↦ (
      λ w. ground (arith, ap (λ p. p.0) (encode-refused i fuel schema v x e), w),
      λ (r, c, w). ground (arith, e, checked-exact.1 (r, c)),
    )
  ]

-- A dictionary with a key that the record has no field for is refused, whatever else it holds, and
-- the codec is not called.
pub encode-unknown_key :
    (i : Interpreter) (fuel : ℕ) (schema : AvroSchema) (fs : Fields) (es : Entries)
    (e : Key × Value)
    → schema.parsed ≡ record_of fs
    → In e (entries es)
    → (Known (fields fs) e.0 → ⊥)
    → encode i (suc fuel) schema (dict es) ≡ (err type_error, i)
unfolding encode checked validate_value validate_record
encode-unknown_key i fuel schema fs es e h j n =
    encode-refused i (suc fuel) schema (dict es) type_error
      (rw (h, each-refused (fields fs) (entries es) e j n) refl)
