-- ===== src/Schema/Codec.antt =====
-- `AvroSchema` and `_fastavro` of src/conduit/connector/schema.py. The third-party codec is a
-- parameter, a record of the functions that the code calls; what it raises is its own choice.
-- The class method `parse` is the constructor.
use conduit_connector_sdk_py.Prelude.{
  ℕ, String, Bool, true, false, not, Option, none, some, List, Dict, Result, ok, err, ◌>>=◌, ◌>>◌,
  raise_if,
}
use conduit_connector_sdk_py.Avro.{Value, dict, Schema, record_of}
use conduit_connector_sdk_py.Schema.{
  Failure, type_error, value_error, module_not_found, validate_value,
}

-- fastavro: `parse_schema(json.loads(text))` with its `__named_schemas`, or `none` where either
-- raises; `schemaless_writer` and `schemaless_reader`
pub record Fastavro : Type 0 where
  pub parse_schema : String → Option (Schema × Dict Schema)
  pub schemaless_writer : Schema → Value → Result Failure (List ℕ)
  pub schemaless_reader : Schema → List ℕ → Result Failure Value

-- `_fastavro_module`, and the module that the interpreter can import, if any
pub record Interpreter : Type 0 where
  pub cached : Option Fastavro
  pub importable : Option Fastavro

-- `_fastavro`
unfoldable pub fastavro : Interpreter → Result Failure Fastavro × Interpreter
fastavro i = elim i.cached [
  | some codec ↦ (ok codec, i)
  | none ↦ elim i.importable [
    | some codec ↦ (ok codec, record { cached = some codec; importable = i.importable })
    | none ↦ (err module_not_found, i)
  ]
]

pub record AvroSchema : Type 0 where
  pub text : String
  pub parsed : Schema
  pub named : Dict Schema

-- `__init__`, once the module is there
unfoldable pub parsed_by : Fastavro → String → Result Failure AvroSchema
parsed_by codec text = elim (codec.parse_schema text) [
  | some (parsed, named) ↦ ok (record { text = text; parsed = parsed; named = named })
  | none ↦ err value_error
]

-- `AvroSchema.__init__`
unfoldable pub create : Interpreter → String → Result Failure AvroSchema × Interpreter
create i text = let (outcome, j) = fastavro i in (outcome >>= λ codec. parsed_by codec text, j)

-- `parsed.get("type") == "record"`
abbrev pub is_record : Schema → Bool
is_record (record_of fs) = true
is_record _ = false

-- `isinstance(value, dict)`
abbrev pub is_dict : Value → Bool
is_dict (dict es) = true
is_dict _ = false

-- what `AvroSchema.encode` does before it writes
unfoldable pub checked : ℕ → AvroSchema → Value → Result Failure (Unit {0})
checked fuel schema v =
    raise_if (not (is_record schema.parsed)) type_error
    >> raise_if (not (is_dict v)) type_error
    >> validate_value schema.named fuel schema.parsed v

-- `AvroSchema.encode`
unfoldable pub encode : Interpreter → ℕ → AvroSchema → Value → Result Failure (List ℕ) × Interpreter
encode i fuel schema v = elim (checked fuel schema v) [
  | err e ↦ (err e, i)
  | ok _ ↦
      let (outcome, j) = fastavro i in
      (outcome >>= λ codec. codec.schemaless_writer schema.parsed v, j)
]

-- `AvroSchema.decode`
unfoldable pub decode : Interpreter → AvroSchema → List ℕ → Result Failure Value × Interpreter
decode i schema bs =
    let (outcome, j) = fastavro i in
    (
      outcome >>= λ codec. codec.schemaless_reader schema.parsed bs >>= λ v.
          raise_if (not (is_dict v)) type_error >> ok v,
      j,
    )
