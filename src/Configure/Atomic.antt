-- ===== src/Configure/Atomic.antt =====
-- `Configure` as a whole: the fields that it sets on success and after an error.
use conduit_connector_sdk_py.Prelude.{
  ◌≡◌, ◌≢◌, refl, Bool, true, false, String, none, Dict, lookup, Result, ok, err, pos, ◌≤ℤ◌,
}
use conduit_connector_sdk_py.Prelude.Decimal.{Str}
use conduit_connector_sdk_py.Batch.{
  BatchConfig, batch_size_key, batch_delay_key, ExtractError, config_validation_error, overflow,
  extract_batch_config,
}
use conduit_connector_sdk_py.Batch.Extract.{extract_batch_config-ok}
use conduit_connector_sdk_py.Configure.{
  ConfigureError, invalid_batch, invalid_config, unhandled, hook_raised, Settings, Hook,
  on_configured, on_validated, on_extracted, configure,
}

-- What a connector's model is given: the map without the SDK's keys.
abbrev pub IsOwn : Dict Str → Dict Str → Type 0
IsOwn raw own =
    (lookup batch_size_key own ≡ none)
    × (lookup batch_delay_key own ≡ none)
    × ((k : String) → k ≢ batch_size_key → k ≢ batch_delay_key → lookup k own ≡ lookup k raw)

module _ {C V W : Type 0} (validate : Dict Str → Result V C) (hook : Hook C W) where
  -- The map was taken: the servicer has the batch configuration that stands in it, with a size and a
  -- delay that are not negative, and the connector is as its `configure` has left it, which was
  -- called once with what the model made of the rest and ended as the flag says.
  abbrev pub IsTaken : Dict Str → Settings W → Bool → Settings W → Type 0
  IsTaken raw s raised s' =
      (own : Dict Str) × (config : C) × IsOwn raw own
      × (extract_batch_config raw ≡ ok (s'.batch_config, own))
      × (pos 0 ≤ℤ s'.batch_config.size)
      × (pos 0 ≤ℤ s'.batch_config.delay)
      × (validate own ≡ ok config)
      × (hook config s.connector ≡ (raised, s'.connector))

  -- What an outcome says of the fields: the map was taken, or nothing has changed.
  abbrev pub IsAtomic :
      Dict Str → Settings W → Result (ConfigureError V) (Unit {0}) × Settings W → Type 0
  IsAtomic raw s (ok x, s') = IsTaken raw s false s'
  IsAtomic raw s (err hook_raised, s') = IsTaken raw s true s'
  IsAtomic raw s (err (invalid_batch errors), s') =
      (s' ≡ s) × (extract_batch_config raw ≡ err (config_validation_error errors))
  IsAtomic raw s (err unhandled, s') = (s' ≡ s) × (extract_batch_config raw ≡ err overflow)
  IsAtomic raw s (err (invalid_config v), s') =
      (s' ≡ s)
      × ((c : BatchConfig) × (own : Dict Str) × IsOwn raw own
          × (extract_batch_config raw ≡ ok (c, own))
          × (validate own ≡ err v))

  configured-IsAtomic :
      (raw own : Dict Str) (c : BatchConfig) (s : Settings W) (config : C) (o : Bool × W)
      → extract_batch_config raw ≡ ok (c, own)
      → validate own ≡ ok config
      → hook config s.connector ≡ o
      → IsAtomic raw s (on_configured validate hook c o)
  unfolding on_configured
  configured-IsAtomic raw own c s config (false, w) e h k =
      let (size, delay, no_size, no_delay, others) = extract_batch_config-ok raw c own e in
      (own, config, (no_size, no_delay, others), e, size, delay, h, k)
  configured-IsAtomic raw own c s config (true, w) e h k =
      let (size, delay, no_size, no_delay, others) = extract_batch_config-ok raw c own e in
      (own, config, (no_size, no_delay, others), e, size, delay, h, k)

  validated-IsAtomic :
      (raw own : Dict Str) (c : BatchConfig) (s : Settings W) (r : Result V C)
      → extract_batch_config raw ≡ ok (c, own)
      → validate own ≡ r
      → IsAtomic raw s (on_validated validate hook c r s)
  unfolding on_validated
  validated-IsAtomic raw own c s (err v) e h =
      let (size, delay, no_size, no_delay, others) = extract_batch_config-ok raw c own e in
      (refl, (c, own, (no_size, no_delay, others), e, h))
  validated-IsAtomic raw own c s (ok config) e h =
      configured-IsAtomic raw own c s config (hook config s.connector) e h refl

  extracted-IsAtomic :
      (raw : Dict Str) (s : Settings W) (r : Result ExtractError (BatchConfig × Dict Str))
      → extract_batch_config raw ≡ r
      → IsAtomic raw s (on_extracted validate hook r s)
  unfolding on_extracted
  extracted-IsAtomic raw s (err (config_validation_error errors)) e = (refl, e)
  extracted-IsAtomic raw s (err overflow) e = (refl, e)
  extracted-IsAtomic raw s (ok (c, own)) e = validated-IsAtomic raw own c s (validate own) e refl

  -- If `Configure` fails before the connector's `configure` is called, then because
  -- `extract_batch_config` refuses the map or the connector's model refuses the rest, with just that
  -- error, and neither the batch configuration nor the connector has changed. Otherwise the servicer has the batch configuration
  -- that `extract_batch_config` makes of the map, with a size and a delay that are not negative, and
  -- the connector's `configure` was called with what its model made of the map without the SDK's two
  -- keys and with every other key as it was sent: if it raised, so does the RPC, with the batch
  -- configuration stored all the same, and if not, the RPC succeeds.
  pub configure-IsAtomic :
      (raw : Dict Str) (s : Settings W) → IsAtomic raw s (configure validate hook raw s)
  unfolding configure
  configure-IsAtomic raw s = extracted-IsAtomic raw s (extract_batch_config raw) refl
