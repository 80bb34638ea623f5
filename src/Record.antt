-- ===== src/Record.antt =====
-- src/conduit/connector/record.py: OpenCDC records, and the typed accessors of their metadata.
-- Bytes are lists of numbers. A mapping of structured data is the parameter `M`: it is a JSON-like
-- tree that the SDK only hands to protobuf.
pub mod Wire
pub mod Schemas
mod Tests
use conduit_connector_sdk_py.Prelude.{
  String, ℕ, ℤ, Option, none, some, List, Dict, lookup, insert, if◌then◌else◌, ◌==◌,
}
use conduit_connector_sdk_py.Prelude.Decimal.{Str, show, int}

abbrev pub Bytes : Type 0
Bytes = List ℕ

pub data Operation : Type 0 where
  create update delete snapshot : Operation

-- the enum's `.value`
unfoldable pub value : Operation → ℕ
value create = 1
value update = 2
value delete = 3
value snapshot = 4

-- `Operation(n)`, a `ValueError` on any other number
unfoldable pub operation : ℕ → Option Operation
operation n =
    if n == 1
    then some create
    else if n == 2
    then some update
    else if n == 3
    then some delete
    else if n == 4
    then some snapshot
    else none

-- `Data`: bytes or a mapping
pub data Data (M : Type 0) : Type 0 where
  raw : Bytes → Data M
  structured : M → Data M

pub record Change (M : Type 0) : Type 0 where
  pub before : Option (Data M)
  pub after : Option (Data M)

pub record Record (M : Type 0) : Type 0 where
  pub position : Bytes
  pub operation : Operation
  pub metadata : Dict Str
  pub key : Data M
  pub payload : Change M

-- what an accessor gives: the value, `None`, or the `ValueError` of `int`
pub data Access (A : Type 0) : Type 0 where
  found : A → Access A
  unset : Access A
  bad_int : Access A

abbrev pub found_int : {A : Type 0} → (ℤ → A) → Option ℤ → Access A
found_int f none = bad_int
found_int f (some n) = found (f n)

-- `set_created_at` and `set_read_at`, under their keys
unfoldable pub set_int : String → ℤ → Dict Str → Dict Str
set_int key nanos metadata = insert key (show nanos) metadata

-- `get_created_at` and `get_read_at`
unfoldable pub get_int : String → Dict Str → Access ℤ
get_int key metadata = elim (lookup key metadata) [
  | none ↦ unset
  | some s ↦ found_int (λ n. n) (int s)
]

abbrev pub created_at : String
created_at = "opencdc.createdAt"

abbrev pub read_at : String
read_at = "opencdc.readAt"

abbrev pub collection : String
collection = "opencdc.collection"

abbrev pub set_created_at : ℤ → Dict Str → Dict Str
set_created_at = set_int created_at

abbrev pub get_created_at : Dict Str → Access ℤ
get_created_at = get_int created_at

abbrev pub set_read_at : ℤ → Dict Str → Dict Str
set_read_at = set_int read_at

abbrev pub get_read_at : Dict Str → Access ℤ
get_read_at = get_int read_at

abbrev pub set_collection : Str → Dict Str → Dict Str
set_collection name metadata = insert collection name metadata

abbrev pub get_collection : Dict Str → Option Str
get_collection metadata = lookup collection metadata

-- The keys of one schema reference.
pub record SchemaKeys : Type 0 where
  pub subject : String
  pub version : String

abbrev pub key_schema : SchemaKeys
key_schema = record {
  subject = "opencdc.key.schema.subject";
  version = "opencdc.key.schema.version";
}

abbrev pub payload_schema : SchemaKeys
payload_schema = record {
  subject = "opencdc.payload.schema.subject";
  version = "opencdc.payload.schema.version";
}

-- `set_key_schema` and `set_payload_schema`
unfoldable pub set_schema : SchemaKeys → Str → ℤ → Dict Str → Dict Str
set_schema keys subject version metadata =
    insert keys.version (show version) (insert keys.subject subject metadata)

-- `get_key_schema` and `get_payload_schema`
unfoldable pub get_schema : SchemaKeys → Dict Str → Access (Str × ℤ)
get_schema keys metadata = elim (lookup keys.subject metadata) [
  | none ↦ unset
  | some subject ↦ elim (lookup keys.version metadata) [
    | none ↦ unset
    | some version ↦ found_int (λ n. (subject, n)) (int version)
  ]
]

abbrev pub set_key_schema : Str → ℤ → Dict Str → Dict Str
set_key_schema = set_schema key_schema

abbrev pub get_key_schema : Dict Str → Access (Str × ℤ)
get_key_schema = get_schema key_schema

abbrev pub set_payload_schema : Str → ℤ → Dict Str → Dict Str
set_payload_schema = set_schema payload_schema

abbrev pub get_payload_schema : Dict Str → Access (Str × ℤ)
get_payload_schema = get_schema payload_schema
