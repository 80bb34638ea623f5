-- ===== src/Source/Backoff.antt =====
-- `_Backoff` of src/conduit/connector/source.py with the constants of the module.
-- A delay is counted in tenths of a second, the unit of `BACKOFF_MIN_SECONDS`: the product of 0.1
-- and a power of two is exact in floating point. `2.0 ** attempt` raises `OverflowError` from the
-- exponent 1024 on, where no double holds the power.
use conduit_connector_sdk_py.Prelude.{ℕ, suc, ◌*◌, ◌^◌, Option, none, some, ltb, if◌then◌else◌}

abbrev pub factor : ℕ
factor = 2

abbrev pub min_delay : ℕ
min_delay = 1

abbrev pub max_delay : ℕ
max_delay = 50

-- the first exponent at which the power of `factor` overflows
abbrev pub float_limit : ℕ
float_limit = 1024

pub record Backoff : Type 0 where
  pub attempt : ℕ

-- `_Backoff()`, and what `reset` leaves
abbrev pub fresh : Backoff
fresh = record { attempt = 0 }

-- `min(delay, self._max)`
abbrev pub capped : ℕ → ℕ
capped delay = if ltb max_delay delay then max_delay else delay

-- `duration`: the delay and the advanced counter, or the `OverflowError`
unfoldable pub duration : Backoff → Option (ℕ × Backoff)
duration b =
    if ltb b.attempt float_limit
    then some (capped (min_delay * factor ^ b.attempt), record { attempt = suc b.attempt })
    else none
