-- ===== src/Destination/Tests.antt =====
-- The destination over a world that counts the records that it has written.
use conduit_connector_sdk_py.Batch.Sizes.{InBounds}
use conduit_connector_sdk_py.Destination.Streams.{run_batched-completes}
use conduit_connector_sdk_py.Prelude.{
  All, ◌++◌, arith, ◌≡◌, refl, ℕ, suc, ◌+◌, true, false, none, some, List, [], ◌∷◌, map, concat, ℤ,
  pos, mem, get, keys, ok, get_elem?, length, range, tabulate,
}
use conduit_connector_sdk_py.BatchWrite.{text, not_reached, BatchWriteError, init, init_written}
use conduit_connector_sdk_py.Record.{Record, create, raw}
use conduit_connector_sdk_py.Batch.Collect.{
  at_end, Wake, collect_batches, round, wait_next, pull, fire, act, consume, take_item,
}
use conduit_connector_sdk_py.Destination.{
  returned, batch_write_error, exception, Ack, is_positive, acks_of, acks_from, ack_all, Write,
  Servicer, new, Arrival, run, run_passthrough, run_batched, write_batches, drain, flatten_incoming,
  no_error,
}
use conduit_connector_sdk_py.Destination.Acks.{says, blank_failure, acks_of-says, acks_of-IsWritten}
use conduit_connector_sdk_py.Destination.Streams.{
  ack_positions, record_positions, run_passthrough-accepted, run_batched-acks_all,
}
use conduit_connector_sdk_py.Destination.Drain.{drain-starts_no_write}

abbrev at : ℕ → Record ℕ
at n = record {
  position = n ∷ [];
  operation = create;
  metadata = [];
  key = raw [];
  payload = record { before = none; after = some (raw (n ∷ [])) };
}

abbrev three : List (Record ℕ)
three = at 1 ∷ at 2 ∷ at 3 ∷ []

abbrev two_of_three : BatchWriteError
two_of_three = record {
  batch_size = pos 3;
  success = pos 0 ∷ pos 1 ∷ [];
  failures = (pos 2, not_reached (pos 2) (pos 2)) ∷ [];
}

-- counts the records, and refuses an empty batch
abbrev count_records : Write ℕ ℕ
count_records n [] = (exception (text "nothing to write"), n)
count_records n (r ∷ rs) = (returned, n + suc (length rs))

acks_of-says_example :
    (a : Ack) × (get_elem? (acks_from two_of_three 0 three) 2 ≡ some a)
    × (a.position ≡ 3 ∷ [])
    × (is_positive a ≡ says (batch_write_error two_of_three) (pos 2))
unfolding acks_of
acks_of-says_example = acks_of-says (batch_write_error two_of_three) three 2 (at 3) refl refl

two_of_three-built : init (pos 3) (some (pos 2)) none none ≡ ok two_of_three
unfolding init init_written range tabulate
two_of_three-built = refl

two_of_three-not_blank : (i : ℤ) → blank_failure (get i two_of_three.failures) ≡ false
unfolding get
two_of_three-not_blank i = ground arith

acks_of-IsWritten_example :
    (a : Ack) × (get_elem? (acks_from two_of_three 0 three) 2 ≡ some a)
    × (is_positive a ≡ mem (pos 2) two_of_three.success)
    × (mem (pos 2) (keys two_of_three.failures) ≡ true → is_positive a ≡ false)
acks_of-IsWritten_example =
    acks_of-IsWritten (pos 3) (some (pos 2)) none none two_of_three-built two_of_three-not_blank
      three 2 (at 3) refl

abbrev arrivals : List (Arrival ℕ)
arrivals =
    record { stop = false; request = some (at 1 ∷ at 2 ∷ []) }
    ∷ record { stop = false; request = none }
    ∷ record { stop = true; request = some (at 3 ∷ []) }
    ∷ []

run_passthrough-accepted_example :
    ((run_passthrough count_records arrivals (new 0)).0
      ≡ (write_batches count_records ((at 1 ∷ at 2 ∷ []) ∷ []) (new 0)).0)
    × ((run_passthrough count_records arrivals (new 0)).1.world
        ≡ (write_batches count_records ((at 1 ∷ at 2 ∷ []) ∷ []) (new 0)).1.world)
run_passthrough-accepted_example = run_passthrough-accepted count_records arrivals (new 0)

abbrev by_two : Servicer ℕ
by_two = record (new 0) { batch_config = record { size = pos 2; delay = pos 0 } }

abbrev ready : Wake
ready = record { next_ready = true; timer_fired = false }

abbrev wakes : List Wake
wakes = ready ∷ ready ∷ ready ∷ ready ∷ []

count_records-answers :
    (w : ℕ) (rs : List (Record ℕ))
    → (acks : List Ack) × (acks_of rs (count_records w rs).0 ≡ some acks)
unfolding acks_of
count_records-answers w [] = ([], refl)
count_records-answers w (r ∷ rs) = (ack_all no_error (r ∷ rs), refl)

run_batched-acks_all_example :
    concat (map ack_positions (run_batched count_records wakes arrivals by_two).0)
    ≡ record_positions (flatten_incoming false arrivals)
unfolding collect_batches round wait_next pull fire act consume at_end take_item flatten_incoming
run_batched-acks_all_example =
    run_batched-acks_all count_records wakes arrivals by_two count_records-answers refl

drain-starts_no_write_example :
    ((run count_records wakes arrivals (drain by_two).0).0 ≡ [])
    × ((run count_records wakes arrivals (drain by_two).0).1.world ≡ 0)
drain-starts_no_write_example = drain-starts_no_write count_records wakes arrivals by_two

run_batched-completes_example :
    (concat (map ack_positions (run_batched count_records (wakes ++ wakes) arrivals by_two).0)
      ≡ record_positions (flatten_incoming false arrivals))
    × All
        (InBounds by_two.batch_config)
        (map ack_positions (run_batched count_records (wakes ++ wakes) arrivals by_two).0)
unfolding flatten_incoming
run_batched-completes_example =
    run_batched-completes count_records (wakes ++ wakes) arrivals by_two count_records-answers
      (refl, (refl, (refl, (refl, (refl, (refl, (refl, (refl, tt)))))))) (omega arith)
