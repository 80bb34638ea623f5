-- ===== src/Configure/Tests.antt =====
-- `Configure` of a connector that takes any map with at least one key.
use conduit_connector_sdk_py.Prelude.{ℕ, [], ◌∷◌, Dict, Result, ok, err, false, pos, length}
use conduit_connector_sdk_py.Prelude.Decimal.{Str, codes}
use conduit_connector_sdk_py.Batch.{batch_size_key}
use conduit_connector_sdk_py.Configure.{Settings, Hook, configure}
use conduit_connector_sdk_py.Configure.Atomic.{IsAtomic, configure-IsAtomic}

abbrev some_key : Dict Str → Result ℕ ℕ
some_key [] = err 7
some_key (x ∷ d) = ok (length d)

-- the connector keeps the configuration
abbrev kept : Hook ℕ ℕ
kept config w = (false, config)

abbrev unset : Settings ℕ
unset = record { batch_config = record { size = pos 0; delay = pos 0 }; connector = 0 }

abbrev sent : Dict Str
sent = (batch_size_key, codes "7") ∷ ("url", codes "x") ∷ []

configure-IsAtomic_example : IsAtomic some_key kept sent unset (configure some_key kept sent unset)
configure-IsAtomic_example = configure-IsAtomic some_key kept sent unset
