-- ===== src/Serve/Tests.antt =====
-- Shutdowns of a plugin that has just started.
use conduit_connector_sdk_py.Prelude.{true, false, List, [], ◌∷◌}
use conduit_connector_sdk_py.Serve.{
  started, Event, sigterm, sigterm_shutdown, shutdown_rpc, teardown_rpc, drive, deadline, run,
}
use conduit_connector_sdk_py.Serve.Shutdown.{IsOrderly, run-started-IsOrderly}

abbrev both_ways : List Event
both_ways =
    sigterm
    ∷ teardown_rpc false
    ∷ shutdown_rpc true
    ∷ sigterm_shutdown false false
    ∷ drive
    ∷ deadline
    ∷ []

run-started-IsOrderly_example : IsOrderly 1 (run both_ways started)
run-started-IsOrderly_example = run-started-IsOrderly both_ways
