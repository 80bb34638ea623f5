-- ===== src/Record/Wire/RoundTrip.antt =====
-- Records on the wire and back.
use conduit_connector_sdk_py.Prelude.{
  ◌≡◌, refl, ap, ℕ, ◌≤◌, Option, none, some, List, [], ◌∷◌, ok, arith, All, ◌↔◌, Option-cases, inl,
  inr,
}
use conduit_connector_sdk_py.Record.{
  Operation, create, update, delete, snapshot, value, operation, Data, raw, structured, Record,
}
use conduit_connector_sdk_py.Record.Wire.{
  WireData, raw_data, structured_data, not_set, WireRecord, traverse, data_to_proto,
  data_to_proto_optional, change_to_proto, record_to_proto, records_to_proto, data_from_proto,
  change_from_proto, data_from_proto_optional, record_from_proto, records_from_proto,
  with_operation,
}

operation-value : (op : Operation) → operation (value op) ≡ some op
unfolding operation value
operation-value create = refl
operation-value update = refl
operation-value delete = refl
operation-value snapshot = refl

module _ {M S : Type 0} (of_mapping : M → Option S) (to_dict : S → M) where
  -- A mapping that protobuf gives back as it was, unlike one with an integer beyond 2 ^ 53.
  abbrev pub IsKept : M → Type 0
  IsKept m = (s : S) × (of_mapping m ≡ some s) × (to_dict s ≡ m)

  abbrev pub IsExact : Data M → Type 0
  IsExact (raw b) = Unit {0}
  IsExact (structured m) = IsKept m

  abbrev pub IsExact? : Option (Data M) → Type 0
  IsExact? none = Unit {0}
  IsExact? (some d) = IsExact d

  abbrev pub AllExact : Record M → Type 0
  AllExact r = IsExact r.key × IsExact? r.payload.before × IsExact? r.payload.after

  data_lem :
      (d : Data M)
      → IsExact d
      → (w : WireData S) × (data_to_proto of_mapping d ≡ ok w)
        × (data_from_proto to_dict w ≡ d)
        × (data_from_proto_optional to_dict w ≡ some d)
  unfolding data_to_proto data_from_proto data_from_proto_optional
  data_lem (raw b) h = (raw_data b, refl, refl, refl)
  data_lem (structured m) (s, e, back) = (structured_data s, rw e refl, rw back refl, rw back refl)

  optional_lem :
      (d : Option (Data M))
      → IsExact? d
      → (w : WireData S) × (data_to_proto_optional of_mapping d ≡ ok w)
        × (data_from_proto_optional to_dict w ≡ d)
  unfolding data_to_proto_optional data_from_proto_optional
  optional_lem none h = (not_set, refl, refl)
  optional_lem (some d) h = let (w, there, _, back) = data_lem d h in (w, there, back)

  record_lem :
      (r : Record M)
      → AllExact r
      → (w : WireRecord S) × (record_to_proto of_mapping r ≡ ok w)
        × (record_from_proto to_dict w ≡ ok r)
  unfolding record_to_proto record_from_proto change_to_proto with_operation
  record_lem r (key, before, after) =
      let (k, k_there, k_back, _) = data_lem r.key key in
      let (b, b_there, b_back) = optional_lem r.payload.before before in
      let (a, a_there, a_back) = optional_lem r.payload.after after in
      (
        record {
          position = r.position;
          operation = value r.operation;
          metadata = r.metadata;
          key = k;
          payload = record { before = b; after = a };
        },
        rw (k_there, b_there, a_there) refl,
        rw (operation-value r.operation) (rw (k_back, b_back, a_back) refl),
      )

  -- A batch of records whose mappings protobuf keeps is encoded, and the messages are decoded to the
  -- same records in the same order; raw bytes, empty ones too, and absent payloads need no condition.
  pub records_from_proto-records_to_proto :
      (rs : List (Record M))
      → All AllExact rs
      → (ws : List (WireRecord S)) × (records_to_proto of_mapping rs ≡ ok ws)
        × (records_from_proto to_dict ws ≡ ok rs)
  unfolding traverse
  records_from_proto-records_to_proto [] h = ([], refl, refl)
  records_from_proto-records_to_proto (r ∷ rs) (h, hs) =
      let (w, there, back) = record_lem r h in
      let (ws, theres, backs) = records_from_proto-records_to_proto rs hs in
      (w ∷ ws, rw (there, theres) refl, rw (back, backs) refl)

operation-None : (n : ℕ) → operation n ≡ none → ¬ ((1 ≤ n) × (n ≤ 4))
unfolding operation
operation-None n e = ground arith

-- A message is decoded exactly when its operation is one of the four that the enum has.
pub record_from_proto_iff :
    {M S : Type 0} (to_dict : S → M) (w : WireRecord S)
    → ((r : Record M) × (record_from_proto to_dict w ≡ ok r))
      ↔ ((1 ≤ w.operation) × (w.operation ≤ 4))
unfolding record_from_proto with_operation operation
record_from_proto_iff to_dict w = (
  λ d. ground arith,
  λ b. elim (Option-cases (operation w.operation)) [
    | inl e ↦ absurd (operation-None w.operation e b)
    | inr (op, e) ↦ (
      record {
        position = w.position;
        operation = op;
        metadata = w.metadata;
        key = data_from_proto to_dict w.key;
        payload = change_from_proto to_dict w.payload;
      },
      ap (λ o. with_operation to_dict o w) e,
    )
  ],
)
