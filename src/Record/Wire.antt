-- ===== src/Record/Wire.antt =====
-- src/conduit/_grpc/adapters.py: records to and from the wire messages of `opencdc`.
-- Protobuf is not under src/. What `Struct.update` makes of a mapping, a failure included, is the
-- parameter `of_mapping`, and `MessageToDict` the parameter `to_dict`. A message's `oneof` is a sum
-- with its unset case.
pub mod RoundTrip
use conduit_connector_sdk_py.Prelude.{
  ℕ, Bool, Option, none, some, List, [], ◌∷◌, Dict, Result, ok, err, ◌>>=◌,
}
use conduit_connector_sdk_py.Prelude.Decimal.{Str}
use conduit_connector_sdk_py.Record.{
  Bytes, Operation, value, operation, Data, raw, structured, Change, Record,
}

-- `opencdc_pb2.Data`
pub data WireData (S : Type 0) : Type 0 where
  raw_data : Bytes → WireData S
  structured_data : S → WireData S
  not_set : WireData S

pub record WireChange (S : Type 0) : Type 0 where
  pub before : WireData S
  pub after : WireData S

pub record WireRecord (S : Type 0) : Type 0 where
  pub position : Bytes
  pub operation : ℕ
  pub metadata : Dict Str
  pub key : WireData S
  pub payload : WireChange S

-- The `ValueError`s: of `Struct.update`, and of `Operation(...)` with its number.
pub data CodecError : Type 0 where
  not_a_struct : CodecError
  bad_operation : ℕ → CodecError

-- `[f(x) for x in xs]` where `f` may raise
unfoldable pub traverse :
    {A B : Type 0} → (A → Result CodecError B) → List A → Result CodecError (List B)
traverse f [] = ok []
traverse f (x ∷ xs) = f x >>= λ y. traverse f xs >>= λ ys. ok (y ∷ ys)

module _ {M S : Type 0} (of_mapping : M → Option S) where
  abbrev pub encoded : Option S → Result CodecError (WireData S)
  encoded none = err not_a_struct
  encoded (some s) = ok (structured_data s)

  -- `_data_to_proto`
  unfoldable pub data_to_proto : Data M → Result CodecError (WireData S)
  data_to_proto (raw b) = ok (raw_data b)
  data_to_proto (structured m) = encoded (of_mapping m)

  -- `_data_to_proto_optional`
  unfoldable pub data_to_proto_optional : Option (Data M) → Result CodecError (WireData S)
  data_to_proto_optional none = ok not_set
  data_to_proto_optional (some d) = data_to_proto d

  -- `_change_to_proto`
  unfoldable pub change_to_proto : Change M → Result CodecError (WireChange S)
  change_to_proto c = data_to_proto_optional c.before >>= λ before.
      data_to_proto_optional c.after >>= λ after. ok (record { before = before; after = after })

  -- `record_to_proto`
  unfoldable pub record_to_proto : Record M → Result CodecError (WireRecord S)
  record_to_proto r = data_to_proto r.key >>= λ key. change_to_proto r.payload >>= λ payload.
      ok (record {
        position = r.position;
        operation = value r.operation;
        metadata = r.metadata;
        key = key;
        payload = payload;
      })

  -- `records_to_proto`
  abbrev pub records_to_proto : List (Record M) → Result CodecError (List (WireRecord S))
  records_to_proto rs = traverse record_to_proto rs

module _ {M S : Type 0} (to_dict : S → M) where
  -- `_data_from_proto`
  unfoldable pub data_from_proto : WireData S → Data M
  data_from_proto (raw_data b) = raw b
  data_from_proto (structured_data s) = structured (to_dict s)
  data_from_proto not_set = raw []

  -- `_data_from_proto_optional`
  unfoldable pub data_from_proto_optional : WireData S → Option (Data M)
  data_from_proto_optional not_set = none
  data_from_proto_optional (raw_data b) = some (data_from_proto (raw_data b))
  data_from_proto_optional (structured_data s) = some (data_from_proto (structured_data s))

  -- `_change_from_proto`
  abbrev pub change_from_proto : WireChange S → Change M
  change_from_proto c = record {
    before = data_from_proto_optional c.before;
    after = data_from_proto_optional c.after;
  }

  -- what `Operation(...)` gives goes into the record
  unfoldable pub with_operation : Option Operation → WireRecord S → Result CodecError (Record M)
  with_operation none r = err (bad_operation r.operation)
  with_operation (some op) r = ok (record {
    position = r.position;
    operation = op;
    metadata = r.metadata;
    key = data_from_proto r.key;
    payload = change_from_proto r.payload;
  })

  -- `record_from_proto`
  unfoldable pub record_from_proto : WireRecord S → Result CodecError (Record M)
  record_from_proto r = with_operation (operation r.operation) r

  -- `records_from_proto`
  abbrev pub records_from_proto : List (WireRecord S) → Result CodecError (List (Record M))
  records_from_proto rs = traverse record_from_proto rs
