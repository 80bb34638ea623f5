-- ===== src/Record/Tests.antt =====
-- The record theorems at concrete records.
use conduit_connector_sdk_py.Prelude.{◌≡◌, refl, ℕ, Option, none, some, List, [], ◌∷◌, ok}
use conduit_connector_sdk_py.Record.{Record, raw, structured, update}
use conduit_connector_sdk_py.Record.Wire.{
  WireRecord, not_set, raw_data, records_from_proto, records_to_proto,
}
use conduit_connector_sdk_py.Record.Wire.RoundTrip.{records_from_proto-records_to_proto}

-- a mapping of one number, and a protobuf that keeps it as it is
abbrev as_struct : ℕ → Option ℕ
as_struct n = some n

abbrev same : ℕ → ℕ
same n = n

abbrev one_record : Record ℕ
one_record = record {
  position = 7 ∷ [];
  operation = update;
  metadata = [];
  key = raw [];
  payload = record { before = none; after = some (structured 4) };
}

abbrev one_message : WireRecord ℕ
one_message = record {
  position = 7 ∷ [];
  operation = 2;
  metadata = [];
  key = not_set;
  payload = record { before = not_set; after = raw_data [] };
}

records_from_proto-records_to_proto_example :
    (ws : List (WireRecord ℕ)) × (records_to_proto as_struct (one_record ∷ []) ≡ ok ws)
    × (records_from_proto same ws ≡ ok (one_record ∷ []))
records_from_proto-records_to_proto_example =
    records_from_proto-records_to_proto as_struct same (one_record ∷ [])
      ((tt, tt, (4, refl, refl)), tt)
