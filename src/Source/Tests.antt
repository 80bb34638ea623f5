-- ===== src/Source/Tests.antt =====
-- The source over worlds with and without records.
use conduit_connector_sdk_py.Prelude.{
  ◌%◌, ◌==◌, if◌then◌else◌, ◌≡◌, ◌≢◌, refl, ℕ, suc, ◌≤◌, Bool, true, false, Option, none, some,
  List, [], ◌∷◌, All, length, pos,
}
use conduit_connector_sdk_py.Record.{Record, create, raw, structured}
use conduit_connector_sdk_py.Batch.Collect.{
  at_end, Wake, collect_batches, round, wait_next, pull, fire, act, consume, take_item,
}
use conduit_connector_sdk_py.Source.{
  read_record, backoff_retry, read_error, send_batches, Read, Servicer, new, run,
}
use conduit_connector_sdk_py.Source.ReadLoop.{overflowed, records_of, read_loop, loop_from, on_read}
use conduit_connector_sdk_py.Source.Reads.{IsSerial, read_loop-IsSerial}
use conduit_connector_sdk_py.Source.Paces.{IsPaced, read_loop-IsPaced, read_loop-overflows}

abbrev at : ℕ → Record ℕ
at n = record {
  position = n ∷ [];
  operation = create;
  metadata = [];
  key = raw [];
  payload = record { before = none; after = some (structured n) };
}

abbrev nothing_new : Read ℕ ℕ
nothing_new w = (backoff_retry, suc w)

abbrev counter : Read ℕ ℕ
counter w = (read_record (at w), suc w)

read_loop-IsPaced_example : IsPaced 0 (read_loop nothing_new (false ∷ false ∷ true ∷ []) 0).steps
read_loop-IsPaced_example = read_loop-IsPaced nothing_new (false ∷ false ∷ true ∷ []) 0

read_loop-overflows_example :
    ((schedule : List Bool) (w : ℕ)
      → length schedule ≤ 1024
      → (read_loop nothing_new schedule w).end ≢ overflowed)
    × ((schedule : List Bool) (w : ℕ)
        → All (λ s. s ≡ false) schedule
        → 1025 ≤ length schedule
        → (read_loop nothing_new schedule w).end ≡ overflowed)
read_loop-overflows_example = read_loop-overflows nothing_new (λ w. refl)

abbrev as_struct : ℕ → Option ℕ
as_struct n = some n

abbrev by_two : Servicer
by_two = record new { batch_config = record { size = pos 2; delay = pos 0 } }

abbrev ready : Wake
ready = record { next_ready = true; timer_fired = false }

-- a source that has a record in every second turn
abbrev every_second : Read ℕ ℕ
every_second w = ((if w % 2 == 0 then read_record (at w) else backoff_retry), suc w)

read_loop-IsSerial_example :
    (n : ℕ) × (n ≤ 4)
    × IsSerial every_second n 0 (read_loop every_second (false ∷ false ∷ false ∷ true ∷ []) 0)
read_loop-IsSerial_example = read_loop-IsSerial every_second (false ∷ false ∷ false ∷ true ∷ []) 0

-- a source that fails at its third call
abbrev failing : Read ℕ ℕ
failing w = ((if w == 2 then read_error else read_record (at w)), suc w)

-- two records are in the buffer of a batch of five when `read` raises, and are not sent
failing-sends :
    (run as_struct false
      (ready ∷ ready ∷ ready ∷ ready ∷ [])
      true
      (records_of (read_loop failing (false ∷ false ∷ false ∷ []) 0).steps)
      (record new { batch_config = record { size = pos 5; delay = pos 0 } })).0
    ≡ []
unfolding loop_from on_read run collect_batches round wait_next pull fire act consume at_end
    take_item send_batches
failing-sends = refl
