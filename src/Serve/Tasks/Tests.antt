-- ===== src/Serve/Tasks/Tests.antt =====
-- Shutdowns of a plugin that streams, coroutine by coroutine.
use conduit_connector_sdk_py.Prelude.{
  if◌then◌else◌, ◌≡◌, refl, ◌≤◌, true, false, List, [], ◌∷◌, arith,
}
use conduit_connector_sdk_py.Serve
use conduit_connector_sdk_py.Serve.{start_watchdog, handle}
use conduit_connector_sdk_py.Serve.Tasks.{
  of_sigterm, of_shutdown, of_teardown, Place, tearing, begun, run_called, hook_called,
  hook_returned, run_ends, run_abandons, Turn, signals, shutdown_called, teardown_called, resumes,
  streams, turns, turn, take_turn, resume_at, resume, put, acquire, on_stream, returned, complete,
}
use conduit_connector_sdk_py.Serve.Tasks.Locks.{holders}
use conduit_connector_sdk_py.Serve.Tasks.Exclusive.{turns_exclusive}
use conduit_connector_sdk_py.Serve.Tasks.Graceful.{turns_drained}

-- SIGTERM in the middle of a write, which ends while the coroutine is in `drain`
abbrev in_a_write : List Turn
in_a_write =
    streams run_called
    ∷ streams hook_called
    ∷ signals
    ∷ resumes 0 false
    ∷ streams hook_returned
    ∷ streams run_ends
    ∷ resumes 0 false
    ∷ []

turns_drained_example :
    ((turns in_a_write begun).streams.hooks ≡ 0) × ((turns in_a_write begun).streams.orphans ≤ 0)
unfolding turns turn take_turn resume_at resume put acquire on_stream handle start_watchdog
turns_drained_example = turns_drained in_a_write 0 tearing refl refl (omega arith)

-- the Shutdown RPC comes to a plugin that SIGTERM tears down, and waits for the lock
abbrev shutdown_too : List Turn
shutdown_too =
    signals
    ∷ resumes 0 false
    ∷ shutdown_called
    ∷ resumes 1 false
    ∷ resumes 0 true
    ∷ resumes 1 false
    ∷ []

turns_exclusive_example :
    holders (turns shutdown_too begun).tasks
    ≤ (if (turns shutdown_too begun).plugin.teardown_done then 0 else 1)
turns_exclusive_example = turns_exclusive shutdown_too

-- after a teardown that has raised, the other coroutine runs it again
shutdown_too-places :
    (turns shutdown_too begun).tasks
    ≡ record { kind = of_sigterm; place = Place.finished }
      ∷ record { kind = of_shutdown; place = tearing }
      ∷ []
unfolding turns turn take_turn resume_at resume put acquire on_stream handle start_watchdog returned
    complete
shutdown_too-places = refl

-- a second `Run`: the event that the first has set lets the drain pass while a write is under way
abbrev second_run : List Turn
second_run =
    streams run_called
    ∷ streams run_ends
    ∷ streams run_called
    ∷ streams hook_called
    ∷ signals
    ∷ resumes 0 false
    ∷ []

second_run-overlap :
    ((turns second_run begun).tasks ≡ record { kind = of_sigterm; place = tearing } ∷ [])
    × ((turns second_run begun).streams.hooks ≡ 1)
unfolding turns turn take_turn resume_at resume put acquire on_stream handle start_watchdog
second_run-overlap = (refl, refl)

-- the servicer's `Teardown` takes no lock, so the hook runs twice at once beside that of SIGTERM
abbrev torn_down_twice : List Turn
torn_down_twice = teardown_called ∷ resumes 0 false ∷ signals ∷ resumes 1 false ∷ []

torn_down_twice-overlap :
    (turns torn_down_twice begun).tasks
    ≡ record { kind = of_teardown; place = tearing }
      ∷ record { kind = of_sigterm; place = tearing }
      ∷ []
unfolding turns turn take_turn resume_at resume put acquire on_stream handle start_watchdog
torn_down_twice-overlap = refl

-- the Shutdown RPC drains nothing: its teardown runs beside a write
abbrev undrained : List Turn
undrained = streams run_called ∷ streams hook_called ∷ shutdown_called ∷ resumes 0 false ∷ []

undrained-overlap :
    ((turns undrained begun).tasks ≡ record { kind = of_shutdown; place = tearing } ∷ [])
    × ((turns undrained begun).streams.hooks ≡ 1)
unfolding turns turn take_turn resume_at resume put acquire on_stream
undrained-overlap = (refl, refl)

-- a batch that cannot be encoded ends the `Run` of a source while it reads on: the drain does not wait
abbrev unencodable : List Turn
unencodable =
    streams run_called ∷ streams hook_called ∷ streams run_abandons ∷ signals ∷ resumes 0 false ∷ []

unencodable-overlap :
    ((turns unencodable begun).tasks ≡ record { kind = of_sigterm; place = tearing } ∷ [])
    × ((turns unencodable begun).streams.orphans ≡ 1)
unfolding turns turn take_turn resume_at resume put acquire on_stream handle start_watchdog
unencodable-overlap = (refl, refl)
