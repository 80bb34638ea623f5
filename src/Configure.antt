-- ===== src/Configure.antt =====
-- `Configure` of `_SourceServicer` and `_DestinationServicer` (src/conduit/connector/source.py and
-- destination.py), which are the same code. The connector's pydantic model is the parameter
-- `validate`, and its `configure`, which may do anything to the connector and may raise, is `hook`.
-- Another exception of the model than a `ValidationError` is left out.
pub mod Atomic
mod Tests
use conduit_connector_sdk_py.Prelude.{Bool, if◌then◌else◌, List, Dict, Result, ok, err}
use conduit_connector_sdk_py.Prelude.Decimal.{Str}
use conduit_connector_sdk_py.Batch.{
  BatchConfig, BatchFieldError, ExtractError, config_validation_error, overflow,
  extract_batch_config,
}

-- How the RPC fails: with `INVALID_ARGUMENT` and the details of the SDK's keys or of the
-- connector's, with an exception of `extract_batch_config` that the handler does not catch, or with
-- one of the connector's `configure`.
pub data ConfigureError (V : Type 0) : Type 0 where
  invalid_batch : List BatchFieldError → ConfigureError V
  invalid_config : V → ConfigureError V
  unhandled hook_raised : ConfigureError V

-- the field of the servicer that the handler sets, and the connector
pub record Settings (W : Type 0) : Type 0 where
  pub batch_config : BatchConfig
  pub connector : W

-- the connector's `configure`: whether it raises, and the connector after it
abbrev pub Hook : Type 0 → Type 0 → Type 0
Hook C W = C → W → Bool × W

module _ {C V W : Type 0} (validate : Dict Str → Result V C) (hook : Hook C W) where
  -- after `invoke`
  unfoldable pub on_configured :
      BatchConfig → Bool × W → Result (ConfigureError V) (Unit {0}) × Settings W
  on_configured c (raised, w) =
      (if raised then err hook_raised else ok tt, record { batch_config = c; connector = w })

  -- after `model_validate`
  unfoldable pub on_validated :
      BatchConfig → Result V C → Settings W → Result (ConfigureError V) (Unit {0}) × Settings W
  on_validated c (err v) s = (err (invalid_config v), s)
  on_validated c (ok config) s = on_configured c (hook config s.connector)

  -- after `extract_batch_config`
  unfoldable pub on_extracted :
      Result ExtractError (BatchConfig × Dict Str)
      → Settings W
      → Result (ConfigureError V) (Unit {0}) × Settings W
  on_extracted (err (config_validation_error errors)) s = (err (invalid_batch errors), s)
  on_extracted (err overflow) s = (err unhandled, s)
  on_extracted (ok (c, remaining)) s = on_validated c (validate remaining) s

  -- `Configure`
  unfoldable pub configure :
      Dict Str → Settings W → Result (ConfigureError V) (Unit {0}) × Settings W
  configure raw s = on_extracted (extract_batch_config raw) s
