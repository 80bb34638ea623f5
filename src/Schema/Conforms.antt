-- ===== src/Schema/Conforms.antt =====
-- Which values an Avro schema describes, by rules: the specification of `_validate_value` in
-- src/conduit/connector/schema.py.
use conduit_connector_sdk_py.Prelude.{
  In, ◌≡◌, ◌≢◌, ◌⊎◌, inl, inr, ℕ, String, none, some, List, [], ◌∷◌, ◌++◌, ◌≤ℤ◌, length, Dict,
  lookup,
}
use conduit_connector_sdk_py.Avro.{
  Primitive, boolean, long, double, string, avro_primitives, int_min, int_max, long_min, long_max,
  Key, text, Value, null, bool, int, float, str, bytes, list, dict, Schema, union, record_of, array,
  map_of, enum, fixed, by_name, Field, items, entries, branches, fields, value_at,
}
use conduit_connector_sdk_py.Prelude.Decimal.{Str, codes}

-- The value has the primitive type, and fits it.
unfoldable pub Fits : Primitive → Value → Type 0
Fits Primitive.int (int n) = (int_min ≤ℤ n) × (n ≤ℤ int_max)
Fits long (int n) = (long_min ≤ℤ n) × (n ≤ℤ long_max)
Fits Primitive.float (float x) = Unit
Fits double (float x) = Unit
Fits boolean (bool b) = Unit
Fits string (str s) = Unit
Fits Primitive.bytes (bytes bs) = Unit
Fits Primitive.null null = Unit
Fits _ _ = ⊥

-- The full name is one of some namespace whose last part is the name.
abbrev pub IsQualified : String → String → Type 0
IsQualified name full_name =
    (namespace : Str) × (codes full_name ≡ namespace ++ (codes "." ++ codes name))

-- The schema is that of the first registered name with the property.
unfoldable pub First : (String → Type 0) → Dict Schema → Schema → Type 0
First P [] s = ⊥
First P ((k, t) ∷ named) s = (P k × (t ≡ s)) ⊎ ((P k → ⊥) × First P named s)

-- No registered name has the property.
unfoldable pub Absent : (String → Type 0) → Dict Schema → Type 0
Absent P [] = Unit
Absent P ((k, t) ∷ named) = (P k → ⊥) × Absent P named

-- What a reference stands for: the schema registered under the name itself or, if there is none, the
-- first one that is registered under the name in a namespace.
abbrev pub Refers : String → Dict Schema → Schema → Type 0
Refers name named s =
    First (λ k. k ≡ name) named s
    ⊎ (Absent (λ k. k ≡ name) named × First (IsQualified name) named s)

-- A key is the name of a field.
abbrev pub Known : List Field → Key → Type 0
Known fs k = (f : Field) × In f fs × (text f.name ≡ k)

pub data Conforms (named : Dict Schema) : Schema → Value → Type 0 where
  a_branch :
      {bs : _} {v : Value} (b : Schema)
      → In b (branches bs)
      → Conforms named b v
      → Conforms named (union bs) v
  -- every key is a field, every field that is there conforms, and one that is not has a default
  a_record :
      {fs : _} {es : _}
      → ((e : Key × Value) → In e (entries es) → Known (fields fs) e.0)
      → ((f : Field)
          → In f (fields fs)
          → (v : Value) → value_at f.name (entries es) ≡ some v
          → Conforms named f.type v)
      → ((f : Field) → In f (fields fs) → value_at f.name (entries es) ≡ none → f.default ≢ none)
      → Conforms named (record_of fs) (dict es)
  an_array :
      {s : Schema} {xs : _}
      → ((v : Value) → In v (items xs) → Conforms named s v)
      → Conforms named (array s) (list xs)
  a_map :
      {s : Schema} {es : _}
      → ((e : Key × Value) → In e (entries es) → (name : String) × (e.0 ≡ text name))
      → ((e : Key × Value) → In e (entries es) → Conforms named s e.1)
      → Conforms named (map_of s) (dict es)
  a_symbol :
      {symbols : List String} {s : String} → In s symbols → Conforms named (enum symbols) (str s)
  a_fixed : {n : ℕ} {bs : List ℕ} → length bs ≡ n → Conforms named (fixed n) (bytes bs)
  a_primitive :
      {n : String} {v : Value} (p : Primitive)
      → lookup n avro_primitives ≡ some p
      → Fits p v
      → Conforms named (by_name n) v
  a_reference :
      {n : String} {v : Value} (s : Schema)
      → lookup n avro_primitives ≡ none
      → Refers n named s
      → Conforms named s v
      → Conforms named (by_name n) v

-- What the rules say of each shape of schema, read backwards.
unfoldable pub Read : Dict Schema → Schema → Value → Type 0
unfolding Fits
Read named (union bs) v = (b : Schema) × In b (branches bs) × Conforms named b v
Read named (record_of fs) (dict es) =
    ((e : Key × Value) → In e (entries es) → Known (fields fs) e.0)
    × ((f : Field)
        → In f (fields fs)
        → (v : Value) → value_at f.name (entries es) ≡ some v
        → Conforms named f.type v)
    × ((f : Field) → In f (fields fs) → value_at f.name (entries es) ≡ none → f.default ≢ none)
Read named (array s) (list xs) = (v : Value) → In v (items xs) → Conforms named s v
Read named (map_of s) (dict es) =
    ((e : Key × Value) → In e (entries es) → (name : String) × (e.0 ≡ text name))
    × ((e : Key × Value) → In e (entries es) → Conforms named s e.1)
Read named (enum symbols) (str s) = In s symbols
Read named (fixed n) (bytes bs) = length bs ≡ n
Read named (by_name n) v =
    ((p : Primitive) × (lookup n avro_primitives ≡ some p) × Fits p v)
    ⊎ ((s : Schema) × (lookup n avro_primitives ≡ none) × Refers n named s × Conforms named s v)
Read named _ _ = ⊥

pub read : {named : Dict Schema} {s : Schema} {v : Value} → Conforms named s v → Read named s v
unfolding Read
read (a_branch b i c) = (b, i, c)
read (a_record k c d) = (k, c, d)
read (an_array c) = c
read (a_map k c) = (k, c)
read (a_symbol i) = i
read (a_fixed e) = e
read (a_primitive p e f) = inl (p, e, f)
read (a_reference s e r c) = inr (s, e, r, c)
