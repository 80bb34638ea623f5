-- ===== src/Testing.antt =====
-- The testing kit, src/conduit/connector/testing: the records of fixtures.py, and from acceptance.py
-- the helper `_read_one` and the check that a source resumes after its position. The source under
-- test is a parameter: what its calls make of the world it stands in.
pub mod Resume
use conduit_connector_sdk_py.Prelude.{
  zero, suc, ℕ, String, Bool, true, false, not, ◌&&◌, Option, none, some, List, [], ◌∷◌, ◌++◌, any,
  ◌==◌, Dict, Result, ok, err, ◌>>=◌, if◌then◌else◌,
}
use conduit_connector_sdk_py.Prelude.Decimal.{Str, same_text}
use conduit_connector_sdk_py.Record.{
  Bytes, Operation, snapshot, create, update, delete, Data, raw, structured, Change, Record,
  set_collection,
}

-- an argument that is given, as `Data`
abbrev lift : {M : Type 0} → Option M → Option (Data M)
lift (some m) = some (structured m)
lift none = none

-- the records of the kit; `id_of` makes the mapping `{"id": key}`
module _ {M : Type 0} (id_of : Str → M) where
  keyed : Bytes → Operation → Str → Option M → Option M → Record M
  keyed position operation key before after = record {
    position = position;
    operation = operation;
    metadata = [];
    key = structured (id_of key);
    payload = record { before = lift before; after = lift after };
  }

  unfoldable pub snapshot_record : Bytes → Str → M → Record M
  unfolding keyed
  snapshot_record position key value = keyed position snapshot key none (some value)

  unfoldable pub create_record : Bytes → Str → M → Record M
  unfolding keyed
  create_record position key value = keyed position create key none (some value)

  unfoldable pub update_record : Bytes → Str → M → M → Record M
  unfolding keyed
  update_record position key before after = keyed position update key (some before) (some after)

  unfoldable pub delete_record : Bytes → Str → M → Record M
  unfolding keyed
  delete_record position key before = keyed position delete key (some before) none

  unfoldable pub tombstone_record : Bytes → Str → Record M
  unfolding keyed
  tombstone_record position key = keyed position delete key none none

unfoldable pub raw_record : {M : Type 0} → Bytes → Bytes → Bytes → Operation → Record M
raw_record position key value operation = record {
  position = position;
  operation = operation;
  metadata = [];
  key = raw key;
  payload = record { before = none; after = some (raw value) };
}

-- a copy of the record with a copy of its metadata
unfoldable pub with_collection : {M : Type 0} → Record M → Str → Record M
with_collection r collection = record r { metadata = set_collection collection r.metadata }

-- what `read` does: a record, `BackoffRetry`, or another exception
pub data Attempt (M : Type 0) : Type 0 where
  gave : Record M → Attempt M
  backoff raised : Attempt M

-- a source under test, by what its calls make of the world
pub record TestedSource (W M : Type 0) : Type 0 where
  pub open_at : Option Bytes → W → W
  pub read : W → Attempt M × W
  pub teardown : W → W

-- how the check ends
pub data Verdict : Type 0 where
  passed replayed never_read source_raised : Verdict

module _ {W M : Type 0} (source : TestedSource W M) where
  -- `_read_one`, with the attempts that are left
  unfoldable pub read_one : ℕ → W → Result Verdict (Record M) × W
  read_one zero w = (err never_read, w)
  read_one (suc n) w =
      let (attempt, after) = source.read w in
      elim attempt [
        | gave r ↦ (ok r, after)
        | backoff ↦ read_one n after
        | raised ↦ (err source_raised, after)
      ]

  -- the attempts of `_read_one`
  abbrev attempts : ℕ
  attempts = 1000

  abbrev reading : Result Verdict (Record M) × W → (Record M → W → Verdict) → Verdict
  reading (err v, w) next = v
  reading (ok r, w) next = next r w

  -- `record.position not in seen_positions`
  abbrev unseen : Bytes → List Bytes → Verdict
  unseen position seen = if any (λ p. same_text p position) seen then replayed else passed

  -- `_assert_resume_does_not_replay`
  unfoldable pub resume_check : W → Verdict
  resume_check w = reading (read_one attempts (source.open_at none w)) (λ first w.
      reading (read_one attempts w) (λ last w.
        reading (read_one attempts (source.open_at (some last.position) (source.teardown w)))
          (λ r w. unseen r.position (first.position ∷ last.position ∷ []))))
