-- ===== src/Batch.antt =====
-- src/conduit/connector/_batch.py: `BatchConfig` and `extract_batch_config` here, the accumulator
-- `collect_batches` in `Collect`.
pub mod Collect
pub mod Extract
pub mod Order
pub mod Exact
pub mod Sizes
pub mod Ends
pub mod Progress
mod Tests
use conduit_connector_sdk_py.Prelude.{
  String, Bool, true, false, ◌&&◌, ◌||◌, Option, none, some, List, [], ◌∷◌, ◌++◌, if◌then◌else◌, ℤ,
  pos, ltb_ℤ, Dict, lookup, erase, Result, ok, err,
}
use conduit_connector_sdk_py.Prelude.Decimal.{Str, int}
use conduit_connector_sdk_py.Duration.{
  Timedelta, value_error, overflow_error, DurationError, parse_go_duration,
}

abbrev pub batch_size_key : String
batch_size_key = "sdk.batch.size"

abbrev pub batch_delay_key : String
batch_delay_key = "sdk.batch.delay"

pub record BatchConfig : Type 0 where
  pub size : ℤ
  pub delay : Timedelta

-- `BatchConfig()`
abbrev pub default_config : BatchConfig
default_config = record { size = pos 0; delay = pos 0 }

abbrev pub enabled : BatchConfig → Bool
enabled c = ltb_ℤ (pos 1) c.size || ltb_ℤ (pos 0) c.delay

-- The `ConfigFieldError` of each key, with the text that the message quotes.
pub data BatchFieldError : Type 0 where
  invalid_batch_size invalid_batch_delay : Str → BatchFieldError

-- What `extract_batch_config` raises: `ConfigValidationError` with its errors, or the
-- `OverflowError` of a delay that no `timedelta` holds, which its `except ValueError` lets pass.
pub data ExtractError : Type 0 where
  config_validation_error : List BatchFieldError → ExtractError
  overflow : ExtractError

-- the branch on `sdk.batch.size`: the value, or the entry for the list of errors
unfoldable pub extract_size : Option Str → Result BatchFieldError ℤ
extract_size none = ok (pos 0)
extract_size (some []) = ok (pos 0)
extract_size (some (c ∷ s)) = elim (int (c ∷ s)) [
  | none ↦ err (invalid_batch_size (c ∷ s))
  | some n ↦ if ltb_ℤ n (pos 0) then err (invalid_batch_size (c ∷ s)) else ok n
]

pub data DelayError : Type 0 where
  invalid_delay : BatchFieldError → DelayError
  delay_overflow : DelayError

unfoldable pub extract_delay : Option Str → Result DelayError Timedelta
extract_delay none = ok (pos 0)
extract_delay (some []) = ok (pos 0)
extract_delay (some (c ∷ s)) = elim (parse_go_duration (c ∷ s)) [
  | ok d ↦ if ltb_ℤ d (pos 0) then err (invalid_delay (invalid_batch_delay (c ∷ s))) else ok d
  | err e ↦ elim e [
    | value_error ↦ err (invalid_delay (invalid_batch_delay (c ∷ s)))
    | overflow_error ↦ err delay_overflow
  ]
]

-- both branches, and `if errors: raise`
unfoldable pub settle :
    Result BatchFieldError ℤ → Result DelayError Timedelta → Result ExtractError BatchConfig
settle size (err delay_overflow) = err overflow
settle (ok size) (ok delay) = ok (record { size = size; delay = delay })
settle (ok size) (err (invalid_delay e)) = err (config_validation_error (e ∷ []))
settle (err d) (ok delay) = err (config_validation_error (d ∷ []))
settle (err d) (err (invalid_delay e)) = err (config_validation_error (d ∷ e ∷ []))

-- what is left of the map goes with the configuration
abbrev pub with_rest :
    Dict Str → Result ExtractError BatchConfig → Result ExtractError (BatchConfig × Dict Str)
with_rest rest (ok c) = ok (c, rest)
with_rest rest (err e) = err e

-- `extract_batch_config`
unfoldable pub extract_batch_config : Dict Str → Result ExtractError (BatchConfig × Dict Str)
extract_batch_config config =
    let size_raw = lookup batch_size_key config in
    let delay_raw = lookup batch_delay_key (erase batch_size_key config) in
    let remaining = erase batch_delay_key (erase batch_size_key config) in
    with_rest remaining (settle (extract_size size_raw) (extract_delay delay_raw))
