-- ===== src/Destination.antt =====
-- src/conduit/connector/destination.py: the servicer `_DestinationServicer`, its state and handlers.
-- The connector's `write` is a parameter of type `Write`: it takes the state of the world `W` and
-- gives how it ended and the world after it. Requests carry decoded records (see Record/Wire).
pub mod Acks
pub mod Streams
pub mod Drain
mod Tests
use conduit_connector_sdk_py.Prelude.{
  String, ℕ, suc, ◌+◌, Bool, true, false, ◌||◌, Option, none, some, List, [], ◌∷◌, ◌++◌, map,
  if◌then◌else◌, ℤ, pos, mem, get, str_eq, not, any, ◌&&◌,
}
use conduit_connector_sdk_py.BatchWrite.{Message, text, not_reached, unaccounted, BatchWriteError}
use conduit_connector_sdk_py.Record.{Bytes, Record}
use conduit_connector_sdk_py.Batch.{BatchConfig, default_config, enabled}
use conduit_connector_sdk_py.Batch.Collect.{Wake, start, collect_batches}

-- An exception that is not a `BatchWriteError` is kept as its text, and one that is no `Exception`
-- (a cancellation, say) as `base_exception`.
pub data Outcome : Type 0 where
  returned : Outcome
  batch_write_error : BatchWriteError → Outcome
  exception : Message → Outcome
  base_exception : Outcome

pub record Ack : Type 0 where
  pub position : Bytes
  pub error : Message

-- `error=""`, which is how the wire says that the record is written
abbrev pub no_error : Message
no_error = text ""

-- whether Conduit takes the ack for a success: the texts that the SDK makes are not empty
unfoldable pub is_positive : Ack → Bool
is_positive a = elim a.error [
  | text s ↦ str_eq s ""
  | not_reached w i ↦ false
  | unaccounted i ↦ false
]

abbrev pub Write : Type 0 → Type 0 → Type 0
Write M W = W → List (Record M) → Outcome × W

-- `exc.failures.get(i, RuntimeError(...))`
abbrev pub reason_of : ℤ → Option Message → Message
reason_of i none = unaccounted i
reason_of i (some reason) = reason

module _ {M : Type 0} where
  -- one ack of the loop of `_acks_from_batch_write_error`
  unfoldable pub ack_at : BatchWriteError → ℤ → Record M → Ack
  ack_at exc i r =
      if mem i exc.success
      then record { position = r.position; error = no_error }
      else record { position = r.position; error = reason_of i (get i exc.failures) }

  -- the loop, from index `i`
  unfoldable pub acks_from : BatchWriteError → ℕ → List (Record M) → List Ack
  acks_from exc i [] = []
  acks_from exc i (r ∷ rs) = ack_at exc (pos i) r ∷ acks_from exc (suc i) rs

  -- `_acks_from_batch_write_error`
  abbrev pub acks_from_batch_write_error : List (Record M) → BatchWriteError → List Ack
  acks_from_batch_write_error records exc = acks_from exc 0 records

  -- `[Ack(position=r.position, error=...) for r in records]`
  abbrev pub ack_all : Message → List (Record M) → List Ack
  ack_all error records = map (λ r. record { position = r.position; error = error }) records

  -- what `_write_batch` makes of the outcome; `none` is an exception that it lets pass
  unfoldable pub acks_of : List (Record M) → Outcome → Option (List Ack)
  acks_of records returned = some (ack_all no_error records)
  acks_of records (batch_write_error exc) = some (acks_from_batch_write_error records exc)
  acks_of records (exception error) = some (ack_all error records)
  acks_of records base_exception = none

  -- `_write_batch`
  unfoldable pub write_batch :
      {W : Type 0} → Write M W → W → List (Record M) → Option (List Ack) × W
  write_batch write w records = let (outcome, w') = write w records in (acks_of records outcome, w')

-- The servicer, with the world that its connector works on.
pub record Servicer (W : Type 0) : Type 0 where
  pub world : W
  pub stop_event : Bool
  pub stopped_event : Bool
  pub run_started : Bool
  pub batch_config : BatchConfig

-- `__init__`
abbrev pub new : {W : Type 0} → W → Servicer W
new w = record {
  world = w;
  stop_event = false;
  stopped_event = false;
  run_started = false;
  batch_config = default_config;
}

-- What the servicer sees each time that it waits on the request stream: whether `drain` has set the
-- stop event by then, and the records of the request, if one has come. The end of a list of these
-- is the end of the stream.
pub record Arrival (M : Type 0) : Type 0 where
  pub stop : Bool
  pub request : Option (List (Record M))

-- the records that `_flatten_incoming` takes from one wake-up
abbrev pub requested : {M : Type 0} → Option (List (Record M)) → List (Record M)
requested none = []
requested (some records) = records

-- `_flatten_incoming`, given the stop event: the records that it yields. A request that is there
-- together with the stop event is still taken.
unfoldable pub flatten_incoming : {M : Type 0} → Bool → List (Arrival M) → List (Record M)
flatten_incoming stop [] = []
flatten_incoming stop (a ∷ later) =
    let rest = flatten_incoming a.stop later in if stop then [] else requested a.request ++ rest

module _ {M W : Type 0} (write : Write M W) where
  -- the `finally` of `Run`
  abbrev pub finish : Servicer W → Servicer W
  finish s = record s { stopped_event = true }

  -- `yield Response(acks=acks)` and on with the loop, unless `_write_batch` has raised
  unfoldable pub respond :
      (Servicer W → List (List Ack) × Servicer W)
      → Servicer W
      → Option (List Ack) × W
      → List (List Ack) × Servicer W
  respond loop s (none, w) = ([], finish (record s { world = w }))
  respond loop s (some acks, w) =
      let (more, s') = loop (record s { world = w }) in (acks ∷ more, s')

  -- the body of the loop with batching off, and on with it
  unfoldable pub on_request :
      (Servicer W → List (List Ack) × Servicer W)
      → Option (List (Record M))
      → Servicer W
      → List (List Ack) × Servicer W
  on_request loop none s = loop s
  on_request loop (some records) s =
      if s.stop_event then ([], finish s) else respond loop s (write_batch write s.world records)

  -- the loop of `Run` with batching off: the acks of each response, and the servicer at the end
  unfoldable pub run_passthrough : List (Arrival M) → Servicer W → List (List Ack) × Servicer W
  run_passthrough [] s = ([], finish s)
  run_passthrough (a ∷ later) s =
      on_request (λ s'. run_passthrough later s') a.request
        (record s { stop_event = s.stop_event || a.stop })

  -- the loop of `Run` over the batches
  unfoldable pub write_batches : List (List (Record M)) → Servicer W → List (List Ack) × Servicer W
  write_batches [] s = ([], finish s)
  write_batches (batch ∷ batches) s =
      respond (λ s'. write_batches batches s') s (write_batch write s.world batch)

  -- `Run` with batching on, under a schedule of `collect_batches`
  unfoldable pub run_batched :
      List Wake → List (Arrival M) → Servicer W → List (List Ack) × Servicer W
  run_batched wakes arrivals s =
      let records = flatten_incoming s.stop_event arrivals in
      let batches = (collect_batches s.batch_config wakes (start records)).0 in
      write_batches batches (record s { stop_event = s.stop_event || any (λ a. a.stop) arrivals })

  -- `Run`
  unfoldable pub run : List Wake → List (Arrival M) → Servicer W → List (List Ack) × Servicer W
  run wakes arrivals s =
      let s' = record s { run_started = true } in
      if enabled s.batch_config then run_batched wakes arrivals s' else run_passthrough arrivals s'

-- `drain`: the servicer with the stop event set, and whether it waits for `Run` to finish first
unfoldable pub drain : {W : Type 0} → Servicer W → Servicer W × Bool
drain s = (record s { stop_event = true }, s.run_started && not s.stopped_event)
