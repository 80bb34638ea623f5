-- ===== src/Avro.antt =====
-- Python values and Avro schemas, as src/conduit/connector/schema.py looks at them.
use conduit_connector_sdk_py.Prelude.{
  ℤ, pos, negsuc, Dict, ℕ, String, Bool, Option, none, some, List, [], ◌∷◌, if◌then◌else◌, str_eq,
}

-- a key of a dictionary
pub data Key : Type 0 where
  text : String → Key
  other_key : Key

-- Python values, by their exact type. `float` holds the 64 bits, `list` stands for a tuple too,
-- and `other` is a value of any other type.
mutual
  pub data Value : Type 0 where
    null : Value
    bool : Bool → Value
    int : ℤ → Value
    float : ℕ → Value
    str : String → Value
    bytes : List ℕ → Value
    list : Items → Value
    dict : Entries → Value
    other : Value

  pub data Items : Type 0 where
    no_items : Items
    item : Value → Items → Items

  pub data Entries : Type 0 where
    no_entries : Entries
    entry : Key → Value → Entries → Entries

-- A schema as `fastavro.parse_schema` leaves it. `by_name` is a bare text or a dictionary whose
-- type is a text: a primitive, with or without a logical type, or a reference. A field has its
-- default where the schema gives one.
mutual
  pub data Schema : Type 0 where
    union : Branches → Schema
    record_of : Fields → Schema
    array map_of : Schema → Schema
    enum : List String → Schema
    fixed : ℕ → Schema
    by_name : String → Schema
    unsupported : Schema

  pub data Branches : Type 0 where
    no_branches : Branches
    branch : Schema → Branches → Branches

  pub data Fields : Type 0 where
    no_fields : Fields
    field : String → Schema → Option Value → Fields → Fields

-- one entry of `schema["fields"]`
pub record Field : Type 0 where
  pub name : String
  pub type : Schema
  pub default : Option Value

unfoldable pub items : Items → List Value
items no_items = []
items (item v xs) = v ∷ items xs

unfoldable pub entries : Entries → List (Key × Value)
entries no_entries = []
entries (entry k v es) = (k, v) ∷ entries es

unfoldable pub branches : Branches → List Schema
branches no_branches = []
branches (branch s bs) = s ∷ branches bs

unfoldable pub fields : Fields → List Field
fields no_fields = []
fields (field n s d fs) = record { name = n; type = s; default = d } ∷ fields fs

-- `value[name]`, and whether `name in value`
unfoldable pub value_at : String → List (Key × Value) → Option Value
value_at n [] = none
value_at n ((text k, v) ∷ es) = if str_eq k n then some v else value_at n es
value_at n ((other_key, v) ∷ es) = value_at n es

-- `_AVRO_PRIMITIVES`
pub data Primitive : Type 0 where
  null boolean int long float double bytes string : Primitive

abbrev pub avro_primitives : Dict Primitive
avro_primitives =
    ("null", Primitive.null)
    ∷ ("boolean", boolean)
    ∷ ("int", Primitive.int)
    ∷ ("long", long)
    ∷ ("float", Primitive.float)
    ∷ ("double", double)
    ∷ ("bytes", Primitive.bytes)
    ∷ ("string", string)
    ∷ []

-- `_INT_MIN`, `_INT_MAX`, `_LONG_MIN`, `_LONG_MAX`
abbrev pub int_min : ℤ
int_min = negsuc 2147483647

abbrev pub int_max : ℤ
int_max = pos 2147483647

abbrev pub long_min : ℤ
long_min = negsuc 9223372036854775807

abbrev pub long_max : ℤ
long_max = pos 9223372036854775807
