-- ===== src/Source.antt =====
-- src/conduit/connector/source.py: `_SourceServicer`, its state and handlers.
-- The connector's `read` is a parameter of type `Read` on the state of the world `W`. The retry
-- delays and the read loop are in `Backoff` and `ReadLoop`.
pub mod Backoff
pub mod ReadLoop
pub mod Paces
pub mod Reads
pub mod Sent
mod Tests
use conduit_connector_sdk_py.Prelude.{
  String, Bool, true, false, ◌||◌, ◌&&◌, not, Option, none, some, List, [], ◌∷◌, ◌++◌, map, concat,
  if◌then◌else◌, Result, ok, err,
}
use conduit_connector_sdk_py.Record.{Bytes, Record}
use conduit_connector_sdk_py.Record.Wire.{WireRecord, records_to_proto}
use conduit_connector_sdk_py.Batch.{BatchConfig, default_config, enabled}
use conduit_connector_sdk_py.Batch.Collect.{Wake, start_of, collect_batches}

-- how `read` ends: a record, `BackoffRetry`, or another exception
pub data ReadOutcome (M : Type 0) : Type 0 where
  read_record : Record M → ReadOutcome M
  backoff_retry : ReadOutcome M
  read_error : ReadOutcome M

abbrev pub Read : Type 0 → Type 0 → Type 0
Read M W = W → ReadOutcome M × W

pub record Servicer : Type 0 where
  pub stop_event : Bool
  pub stopped_event : Bool
  pub run_started : Bool
  pub last_position : Bytes
  pub batch_config : BatchConfig

-- `__init__`
abbrev pub new : Servicer
new = record {
  stop_event = false;
  stopped_event = false;
  run_started = false;
  last_position = [];
  batch_config = default_config;
}

-- `finally` in `Run`: an exception of the connector's `ack`, raised by `await ack_task`, passes over
-- the last line
abbrev pub finish : Bool → Servicer → Servicer
finish ack_raises s = if ack_raises then s else record s { stopped_event = true }

-- `batch[-1].position`; an empty batch, an `IndexError`, is `none`
unfoldable pub last_of : {M : Type 0} → List (Record M) → Option Bytes
last_of [] = none
last_of (r ∷ rs) = elim (last_of rs) [ none ↦ some r.position | some p ↦ some p ]

-- `ack_raises` is whether the task of `_consume_acks` has ended with an exception of `ack`
module _ {M S : Type 0} (of_mapping : M → Option S) (ack_raises : Bool) where
  -- `yield Response(records=[...])` and on with the loop, unless a record cannot be encoded
  unfoldable pub emit :
      {E : Type 0}
      → (Servicer → List (List (WireRecord S)) × Servicer)
      → Servicer
      → Result E (List (WireRecord S))
      → List (List (WireRecord S)) × Servicer
  emit loop s (err e) = ([], finish ack_raises s)
  emit loop s (ok ws) = let (more, s') = loop s in (ws ∷ more, s')

  unfoldable pub send_batch :
      (Servicer → List (List (WireRecord S)) × Servicer)
      → List (Record M)
      → Servicer
      → Option Bytes
      → List (List (WireRecord S)) × Servicer
  send_batch loop batch s none = ([], finish ack_raises s)
  send_batch loop batch s (some p) =
      emit loop (record s { last_position = p }) (records_to_proto of_mapping batch)

  -- the loop of `Run` over the batches, or over the records one by one
  unfoldable pub send_batches :
      List (List (Record M)) → Servicer → List (List (WireRecord S)) × Servicer
  send_batches [] s = ([], finish ack_raises s)
  send_batches (batch ∷ batches) s =
      send_batch (λ s'. send_batches batches s') batch s (last_of batch)

  -- `Run`, given the records that the read loop yields while it runs, and whether it raises then
  unfoldable pub run :
      List Wake → Bool → List (Record M) → Servicer → List (List (WireRecord S)) × Servicer
  run wakes fails records s =
      let s' = record s { run_started = true } in
      if enabled s.batch_config
      then send_batches (collect_batches s.batch_config wakes (start_of fails records)).0 s'
      else send_batches (map (λ r. r ∷ []) records) s'

-- `_consume_acks`: the positions that `ack` is called with, one call after the other
abbrev pub consume_acks : List (List Bytes) → List Bytes
consume_acks [] = []
consume_acks (positions ∷ requests) = positions ++ consume_acks requests

-- `drain`: the servicer with the stop event set, and whether it waits for `Run` to finish first
unfoldable pub drain : Servicer → Servicer × Bool
drain s = (record s { stop_event = true }, s.run_started && not s.stopped_event)

-- `Stop`, once its `drain` is over
abbrev pub stop : Servicer → Bytes
stop s = s.last_position

-- `Open`: an empty position on the wire is no position
unfoldable pub open_position : Bytes → Option Bytes
open_position [] = none
open_position (b ∷ bs) = some (b ∷ bs)
