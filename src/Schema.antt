-- ===== src/Schema.antt =====
-- Avro schemas and the check of a value before it is encoded, src/conduit/connector/schema.py:
-- `_resolve_named`, `_validate_value`, `_validate_record`, `_validate_primitive` and `_fastavro`.
-- The third-party codec is a parameter of Schema/Codec. Messages and the paths that stand in them
-- are left out.
pub mod Codec
pub mod Conforms
pub mod Decides
pub mod Encode
pub mod Exact
pub mod Fuel
pub mod Refers
pub mod Runs
mod Tests
use conduit_connector_sdk_py.Prelude.{
  zero, suc, ℕ, String, Bool, true, false, not, ◌&&◌, ◌||◌, Option, none, some, List, [], ◌∷◌, ◌==◌,
  if◌then◌else◌, ℤ, pos, negsuc, leb_ℤ, length, any, Dict, lookup, is_some, Result, ok, err, ◌>>=◌,
  ◌>>◌, raise_if, str_eq, map, ◌++◌,
}
use conduit_connector_sdk_py.Avro.{
  Primitive, boolean, long, double, string, avro_primitives, int_min, int_max, long_min, long_max,
  null, bool, int, float, str, bytes, list, dict, other, text, other_key, no_items, item, union,
  record_of, array, map_of, enum, fixed, by_name, unsupported, Key, Value, Items, Entries,
  no_entries, entry, Schema, Branches, no_branches, branch, Fields, no_fields, field, Field, items,
  entries, branches, fields, value_at,
}
use conduit_connector_sdk_py.Prelude.Decimal.{ends_with, Str, codes, same_text}

-- the exceptions; `recursion_error` is the interpreter's, when calls are nested too deep
pub data Failure : Type 0 where
  type_error value_error overflow_error recursion_error : Failure
  eof_error index_error module_not_found : Failure

abbrev pub in_range : ℤ → ℤ → ℤ → Result Failure (Unit {0})
in_range low high n = raise_if (not (leb_ℤ low n && leb_ℤ n high)) overflow_error

-- `_validate_primitive`
unfoldable pub validate_primitive : Primitive → Value → Result Failure (Unit {0})
validate_primitive Primitive.int (int n) = in_range int_min int_max n
validate_primitive long (int n) = in_range long_min long_max n
validate_primitive Primitive.float (float x) = ok tt
validate_primitive double (float x) = ok tt
validate_primitive boolean (bool b) = ok tt
validate_primitive string (str s) = ok tt
validate_primitive Primitive.bytes (bytes bs) = ok tt
validate_primitive Primitive.null null = ok tt
validate_primitive _ _ = err type_error

-- the loop of `_resolve_named`
unfoldable pub resolve_suffix : String → Dict Schema → Option Schema
resolve_suffix name [] = none
resolve_suffix name ((full_name, resolved) ∷ named) =
    if ends_with (codes "." ++ codes name) (codes full_name)
    then some resolved
    else resolve_suffix name named

-- `_resolve_named`
unfoldable pub resolve_named : String → Dict Schema → Option Schema
resolve_named name named = elim (lookup name named) [
  | some schema ↦ some schema
  | none ↦ resolve_suffix name named
]

-- `except (TypeError, ValueError, OverflowError): continue`
unfoldable pub or_continue :
    Result Failure (Unit {0}) → Result Failure (Unit {0}) → Result Failure (Unit {0})
or_continue (err type_error) rest = rest
or_continue (err value_error) rest = rest
or_continue (err overflow_error) rest = rest
or_continue outcome rest = outcome

-- a loop whose body may raise
unfoldable pub each {ℓ} :
    {A : Type ℓ} → (A → Result Failure (Unit {0})) → List A → Result Failure (Unit {0})
each body [] = ok tt
each body (a ∷ rest) = body a >> each body rest

-- the loop over the branches of a union
unfoldable pub try_branches :
    (Schema → Result Failure (Unit {0})) → List Schema → Result Failure (Unit {0})
try_branches check [] = err type_error
try_branches check (b ∷ bs) = or_continue (check b) (try_branches check bs)

-- `key not in known`
unfoldable pub known_key : List Field → Key → Result Failure (Unit {0})
known_key fs (text k) = raise_if (not (any (λ f. str_eq f.name k) fs)) type_error
known_key fs other_key = err type_error

-- one turn of the loop over the fields
unfoldable pub validate_field :
    (Schema → Value → Result Failure (Unit {0}))
    → List (Key × Value)
    → Field
    → Result Failure (Unit {0})
validate_field check es f = elim (value_at f.name es) [
  | some v ↦ check f.type v
  | none ↦ raise_if (not (is_some f.default)) value_error
]

-- `_validate_record`; `check` is `_validate_value`
unfoldable pub validate_record :
    (Schema → Value → Result Failure (Unit {0})) → Fields → Value → Result Failure (Unit {0})
validate_record check fs (dict es) =
    each (λ e. known_key (fields fs) e.0) (entries es)
    >> each (validate_field check (entries es)) (fields fs)
validate_record check fs _ = err type_error

-- one turn of the loop over a map's items
unfoldable pub validate_entry :
    (Value → Result Failure (Unit {0})) → Key × Value → Result Failure (Unit {0})
validate_entry check (text k, v) = check v
validate_entry check (other_key, v) = err type_error

unfoldable pub validate_enum : List String → Value → Result Failure (Unit {0})
validate_enum symbols (str s) = raise_if (not (any (λ symbol. str_eq symbol s) symbols)) value_error
validate_enum symbols _ = err type_error

unfoldable pub validate_fixed : ℕ → Value → Result Failure (Unit {0})
validate_fixed size (bytes bs) = raise_if (not (length bs == size)) value_error
validate_fixed size _ = err type_error

unfoldable pub validate_array :
    (Value → Result Failure (Unit {0})) → Value → Result Failure (Unit {0})
validate_array check (list xs) = each check (items xs)
validate_array check _ = err type_error

unfoldable pub validate_map :
    (Value → Result Failure (Unit {0})) → Value → Result Failure (Unit {0})
validate_map check (dict es) = each (validate_entry check) (entries es)
validate_map check _ = err type_error

-- the text of a schema: a primitive, or a reference that is resolved
unfoldable pub validate_name :
    (Schema → Result Failure (Unit {0})) → Dict Schema → String → Value → Result Failure (Unit {0})
validate_name check named s v = elim (lookup s avro_primitives) [
  | some p ↦ validate_primitive p v
  | none ↦ elim (resolve_named s named) [ some schema ↦ check schema | none ↦ err type_error ]
]

-- `_validate_value`. The fuel is the number of nested calls that the interpreter's recursion limit
-- still allows: the source sets none of its own.
unfoldable pub validate_value : Dict Schema → ℕ → Schema → Value → Result Failure (Unit {0})
validate_value named zero s v = err recursion_error
validate_value named (suc fuel) (union bs) v =
    try_branches (λ b. validate_value named fuel b v) (branches bs)
validate_value named (suc fuel) (record_of fs) v =
    validate_record (λ s w. validate_value named fuel s w) fs v
validate_value named (suc fuel) (array s) v = validate_array (λ w. validate_value named fuel s w) v
validate_value named (suc fuel) (map_of s) v = validate_map (λ w. validate_value named fuel s w) v
validate_value named (suc fuel) (enum symbols) v = validate_enum symbols v
validate_value named (suc fuel) (fixed size) v = validate_fixed size v
validate_value named (suc fuel) (by_name n) v =
    validate_name (λ s. validate_value named fuel s v) named n v
validate_value named (suc fuel) unsupported v = err type_error
