-- ===== src/Serve.antt =====
-- The shutdown of src/conduit/connector/serve.py and the `Teardown` RPC of the servicers: `_ShutdownCoordinator`, and the coroutines of
-- `_build_plugin_server` and `_serve_async` that end the process. What the connector's hooks do is
-- told by the events: whether they raise. `exit_fn` is `os._exit`, after which nothing happens.
pub mod Shutdown
pub mod Tasks
pub mod Wiring
mod Tests
use conduit_connector_sdk_py.Prelude.{
  ℕ, suc, Bool, true, false, Option, none, some, List, [], ◌∷◌, if◌then◌else◌, not,
}

-- the watchdog's `threading.Timer`: not made, running, cancelled, or over
pub data Timer : Type 0 where
  unset armed cancelled over : Timer

-- The variables of the coroutines and of the coordinator; `teardowns` counts the calls of the
-- connector's `teardown` that have returned, through `run_teardown_once` or from the `Teardown` RPC.
pub record Plugin : Type 0 where
  pub teardown_done : Bool
  pub teardowns : ℕ
  pub shutdown_requested : Bool
  pub confirmed : Bool
  pub timer : Timer
  pub exited : Option ℕ

abbrev pub started : Plugin
started = record {
  teardown_done = false;
  teardowns = 0;
  shutdown_requested = false;
  confirmed = false;
  timer = unset;
  exited = none;
}

pub data Event : Type 0 where
  -- SIGTERM arrives
  sigterm : Event
  -- `_sigterm_shutdown` runs: whether `drain` and `teardown` raise
  sigterm_shutdown : Bool → Bool → Event
  -- the `GRPCController.Shutdown` RPC: whether `teardown` raises
  shutdown_rpc : Bool → Event
  -- the servicer's `Teardown` RPC: whether `teardown` raises
  teardown_rpc : Bool → Event
  -- `drive_shutdown` gets its turn, and `_serve_async` after it
  drive : Event
  -- the watchdog's deadline passes
  deadline : Event

-- `start_watchdog`
unfoldable pub start_watchdog : Timer → Timer
start_watchdog unset = armed
start_watchdog armed = armed
start_watchdog cancelled = cancelled
start_watchdog over = over

-- `self._timer.cancel()`, where there is one that has not run
unfoldable pub cancel : Timer → Timer
cancel unset = unset
cancel armed = cancelled
cancel cancelled = cancelled
cancel over = over

-- `run_teardown_once`: the plugin, and whether it raises
unfoldable pub run_teardown_once : Bool → Plugin → Plugin × Bool
run_teardown_once raises p =
    if p.teardown_done
    then (p, false)
    else if raises
    then (p, true)
    else (record p { teardown_done = true; teardowns = suc p.teardowns }, false)

-- `on_shutdown_rpc`
unfoldable pub on_shutdown_rpc : Bool → Plugin → Plugin
on_shutdown_rpc raises p =
    let (p', raised) = run_teardown_once raises p in
    if raised then p' else record p' { shutdown_requested = true }

-- `Teardown` of the servicer, which takes no notice of `teardown_done`
unfoldable pub on_teardown_rpc : Bool → Plugin → Plugin
on_teardown_rpc raises p = if raises then p else record p { teardowns = suc p.teardowns }

-- `_sigterm_shutdown`, which goes on after an exception of `drain`, and whose `finally` runs after
-- one of `teardown`
unfoldable pub on_sigterm_shutdown : Bool → Bool → Plugin → Plugin
on_sigterm_shutdown drain_raises teardown_raises p =
    record (run_teardown_once teardown_raises p).0 { shutdown_requested = true }

-- `confirm_clean_exit`
unfoldable pub confirm_clean_exit : Plugin → Plugin
confirm_clean_exit p = record p { confirmed = true; timer = cancel p.timer }

-- `drive_shutdown`, then `exit_fn(0)`
unfoldable pub on_drive : Plugin → Plugin
on_drive p = if p.shutdown_requested then record (confirm_clean_exit p) { exited = some 0 } else p

-- `_force_exit`, called by a timer that is running
unfoldable pub force_exit : Timer → Plugin → Plugin
force_exit armed p =
    if p.confirmed then record p { timer = over } else record p { timer = over; exited = some 1 }
force_exit unset p = p
force_exit cancelled p = p
force_exit over p = p

unfoldable pub handle : Event → Plugin → Plugin
handle sigterm p = record p { timer = start_watchdog p.timer }
handle (sigterm_shutdown d t) p = on_sigterm_shutdown d t p
handle (shutdown_rpc t) p = on_shutdown_rpc t p
handle (teardown_rpc t) p = on_teardown_rpc t p
handle drive p = on_drive p
handle deadline p = force_exit p.timer p

-- an event, unless the process has ended
unfoldable pub step : Option ℕ → Event → Plugin → Plugin
step none e p = handle e p
step (some code) e p = p

unfoldable pub run : List Event → Plugin → Plugin
run [] p = p
run (e ∷ es) p = run es (step p.exited e p)
