-- ===== src/Batch/Tests.antt =====
-- Batches of two, collected from three items.
use conduit_connector_sdk_py.Prelude.{
  ◌≡◌, ◌≢◌, refl, ℕ, String, true, false, none, List, [], ◌∷◌, pos, ◌≤ℤ◌, ◌<ℤ◌, All, length, Dict,
  lookup, erase, ok, arith,
}
use conduit_connector_sdk_py.Prelude.Decimal.{Str, codes, int, strip, value_from}
use conduit_connector_sdk_py.Batch.{
  BatchConfig, batch_size_key, batch_delay_key, extract_batch_config, extract_size, extract_delay,
  settle,
}
use conduit_connector_sdk_py.Batch.Collect.{
  at_end, Wake, start, collect_batches, round, wait_next, pull, fire, act, consume, take_item,
}
use conduit_connector_sdk_py.Batch.Sizes.{InBounds, collect_batches-InBounds}
use conduit_connector_sdk_py.Batch.Exact.{IsFull, collect_batches-IsFull}
use conduit_connector_sdk_py.Batch.Progress.{collect_batches_returns}
use conduit_connector_sdk_py.Batch.Extract.{extract_batch_config-ok}

abbrev by_two : BatchConfig
by_two = record { size = pos 2; delay = pos 1000 }

abbrev ready : Wake
ready = record { next_ready = true; timer_fired = false }

abbrev late : Wake
late = record { next_ready = true; timer_fired = true }

abbrev wakes : List Wake
wakes = ready ∷ late ∷ ready ∷ ready ∷ ready ∷ ready ∷ ready ∷ []

abbrev items : List ℕ
items = 5 ∷ 6 ∷ 7 ∷ []

collect_batches-InBounds_example :
    All (InBounds by_two) (collect_batches by_two wakes (start items)).0
    × (pos 0 <ℤ pos 2 → pos (length (collect_batches by_two wakes (start items)).1.buffer) <ℤ pos 2)
collect_batches-InBounds_example = collect_batches-InBounds by_two wakes false items

collect_batches_run : (collect_batches by_two wakes (start items)).0 ≡ (5 ∷ []) ∷ (6 ∷ 7 ∷ []) ∷ []
unfolding collect_batches round wait_next pull fire act consume at_end take_item
collect_batches_run = refl

collect_batches_returns_example : (collect_batches by_two wakes (start items)).1.returned ≡ true
collect_batches_returns_example =
    collect_batches_returns by_two wakes false items
      (refl, (refl, (refl, (refl, (refl, (refl, (refl, tt))))))) (omega arith)

abbrev settings : Dict Str
settings = (batch_size_key, codes "7") ∷ ("url", codes "x") ∷ []

extract-settings :
    extract_batch_config settings
    ≡ ok (record { size = pos 7; delay = pos 0 }, ("url", codes "x") ∷ [])
unfolding extract_batch_config extract_size extract_delay settle lookup erase int strip value_from
extract-settings = refl

extract_batch_config-ok_example :
    (pos 0 ≤ℤ pos 7)
    × (pos 0 ≤ℤ pos 0)
    × (lookup batch_size_key (("url", codes "x") ∷ []) ≡ none)
    × (lookup batch_delay_key (("url", codes "x") ∷ []) ≡ none)
    × ((k : String)
        → k ≢ batch_size_key
        → k ≢ batch_delay_key
        → lookup k (("url", codes "x") ∷ []) ≡ lookup k settings)
extract_batch_config-ok_example =
    extract_batch_config-ok settings (record { size = pos 7; delay = pos 0 })
      (("url", codes "x") ∷ []) extract-settings

abbrev no_timer : BatchConfig
no_timer = record { size = pos 2; delay = pos 0 }

collect_batches-IsFull_example :
    All (IsFull no_timer) (collect_batches no_timer (ready ∷ late ∷ ready ∷ []) (start items)).0
unfolding collect_batches round wait_next pull fire act consume at_end take_item
collect_batches-IsFull_example =
    collect_batches-IsFull no_timer (ready ∷ late ∷ ready ∷ []) items (omega arith) refl refl
