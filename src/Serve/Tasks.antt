-- ===== src/Serve/Tasks.antt =====
-- The coroutines that shut a plugin down, from one suspension to the next: `_sigterm_shutdown`,
-- `on_shutdown_rpc` and the `Teardown` RPC, the lock of `run_teardown_once`, and the `drain` of the
-- servicer beside its `Run`s (src/conduit/connector/serve.py, source.py and destination.py). Which
-- coroutine goes on is the schedule's; a waiter may take a lock that is free in any order. A `Run`
-- that the framework cancels is left out.
mod Locks
mod Steps
pub mod Exclusive
mod Quiet
mod Resumed
mod Coroutines
pub mod Orphans
pub mod Graceful
mod Tests
use conduit_connector_sdk_py.Prelude.{
  ℕ, zero, suc, ◌-◌, Bool, true, false, not, ◌&&◌, Option, none, some, List, [], ◌∷◌, ◌++◌,
  if◌then◌else◌, ltb, get_elem?,
}
use conduit_connector_sdk_py.Serve.{Plugin, sigterm, drive, deadline, handle, on_teardown_rpc}
use conduit_connector_sdk_py.Serve

-- what a coroutine runs: `_sigterm_shutdown`, `on_shutdown_rpc`, or the servicer's `Teardown`
pub data Kind : Type 0 where
  of_sigterm of_shutdown of_teardown : Kind

-- where it is suspended: not begun, in `drain`, at the lock, in the connector's `teardown`, or over
pub data Place : Type 0 where
  scheduled draining waiting tearing finished : Place

pub record Task : Type 0 where
  pub kind : Kind
  pub place : Place

-- The servicer's events, the `Run`s that began before the stop event was set and have not ended
-- (`streaming`), those that began after it (`late`), all `Run`s that were called, the calls of
-- `read` or `write` that are under way in a `Run` that has not ended (`hooks`), and the calls of
-- `read` that have outlived their `Run` (`orphans`).
pub record Streams : Type 0 where
  pub stop_event : Bool
  pub stopped_event : Bool
  pub run_started : Bool
  pub streaming : ℕ
  pub late : ℕ
  pub run_calls : ℕ
  pub hooks : ℕ
  pub orphans : ℕ

pub record System : Type 0 where
  pub plugin : Plugin
  pub locked : Bool
  pub tasks : List Task
  pub streams : Streams

abbrev pub begun : System
begun = record {
  plugin = Serve.started;
  locked = false;
  tasks = [];
  streams = record {
    stop_event = false;
    stopped_event = false;
    run_started = false;
    streaming = 0;
    late = 0;
    run_calls = 0;
    hooks = 0;
    orphans = 0;
  };
}

-- `Run` is called, one of its hooks is called or returns, or it ends. A source's `Run` that batches
-- ends with the next `read` under way if a batch that the delay has released cannot be encoded
-- (`run_abandons`), and that `read` returns later.
pub data StreamEvent : Type 0 where
  run_called hook_called hook_returned run_ends late_run_ends : StreamEvent
  run_abandons orphan_returned : StreamEvent
  -- the `finally` of a source's `Run` raises the exception of `ack`, before it sets the event
  run_ends_unset : StreamEvent

-- A `Run` calls its hook serially, and one that begins after the stop event calls it never.
unfoldable pub on_stream : StreamEvent → Streams → Streams
on_stream run_called s =
    let called = record s { run_started = true; run_calls = suc s.run_calls } in
    if s.stop_event
    then record called { late = suc s.late }
    else record called { streaming = suc s.streaming }
on_stream hook_called s = if ltb s.hooks s.streaming then record s { hooks = suc s.hooks } else s
on_stream hook_returned s = record s { hooks = s.hooks - 1 }
on_stream run_ends s =
    if ltb s.hooks s.streaming
    then record s { streaming = s.streaming - 1; stopped_event = true }
    else s
on_stream late_run_ends s =
    if ltb 0 s.late then record s { late = s.late - 1; stopped_event = true } else s
on_stream run_ends_unset s =
    if ltb s.hooks s.streaming then record s { streaming = s.streaming - 1 } else s
on_stream run_abandons s =
    if ltb 0 s.hooks
    then record s {
      streaming = s.streaming - 1;
      hooks = s.hooks - 1;
      orphans = suc s.orphans;
      stopped_event = true;
    }
    else s
on_stream orphan_returned s = record s { orphans = s.orphans - 1 }

-- the body of `run_teardown_once` once `teardown` has returned, or raised
unfoldable pub returned : Bool → Plugin → Plugin
returned raises p =
    if raises then p else record p { teardown_done = true; teardowns = suc p.teardowns }

-- what follows `run_teardown_once`, which has raised or not: the `finally` of `_sigterm_shutdown`,
-- the rest of `on_shutdown_rpc`; `Teardown` only responds
unfoldable pub complete : Kind → Bool → Plugin → Plugin
complete of_sigterm raised p = record p { shutdown_requested = true }
complete of_shutdown raised p = if raised then p else record p { shutdown_requested = true }
complete of_teardown raised p = p

-- `async with teardown_lock`, `if not teardown_done`
unfoldable pub acquire : Kind → System → System × Place
acquire kind s =
    if s.locked
    then (s, waiting)
    else if s.plugin.teardown_done
    then (record s { plugin = complete kind false s.plugin }, finished)
    else (record s { locked = true }, tearing)

-- `await self._stopped_event.wait()` goes on, or was not needed
abbrev pub drained : Streams → Bool
drained s = if s.run_started then s.stopped_event else true

abbrev pub after_drain : Kind → System → System × Place
after_drain kind s = if drained s.streams then acquire kind s else (s, draining)

-- one turn of a coroutine; the flag is whether `teardown` raises where it is the one that goes on
unfoldable pub resume : Kind → Place → Bool → System → System × Place
resume of_teardown scheduled raises s = (s, tearing)
resume of_teardown tearing raises s =
    (record s { plugin = on_teardown_rpc raises s.plugin }, finished)
resume of_teardown place raises s = (s, finished)
resume kind scheduled raises s =
    after_drain kind (record s { streams = record s.streams { stop_event = true } })
resume kind draining raises s = after_drain kind s
resume kind waiting raises s = acquire kind s
resume kind tearing raises s = (
  record s { plugin = complete kind raises (returned raises s.plugin); locked = false },
  finished,
)
resume kind finished raises s = (s, finished)

-- put a task in the place of another
unfoldable pub put : ℕ → Task → List Task → List Task
put i t [] = []
put zero t (u ∷ ts) = t ∷ ts
put (suc i) t (u ∷ ts) = u ∷ put i t ts

abbrev pub replace : ℕ → Kind → System × Place → System
replace i kind (s, place) = record s {
  tasks = put i (record { kind = kind; place = place }) s.tasks;
}

pub data Turn : Type 0 where
  -- SIGTERM, the two RPCs, a coroutine by its number, and the connector's streams
  signals shutdown_called teardown_called : Turn
  resumes : ℕ → Bool → Turn
  streams : StreamEvent → Turn
  -- the waiting task of the server, and the watchdog's deadline
  drives times_out : Turn

abbrev pub spawn : Kind → Place → System → System
spawn kind place s = record s { tasks = s.tasks ++ record { kind = kind; place = place } ∷ [] }

-- a turn of the task, if there is one of that number
unfoldable pub resume_at : ℕ → Bool → Option Task → System → System
resume_at i raises none s = s
resume_at i raises (some t) s = replace i t.kind (resume t.kind t.place raises s)

unfoldable pub take_turn : Turn → System → System
take_turn signals s = spawn of_sigterm scheduled (record s { plugin = handle sigterm s.plugin })
take_turn shutdown_called s = spawn of_shutdown waiting s
take_turn teardown_called s = spawn of_teardown scheduled s
take_turn (resumes i raises) s = resume_at i raises (get_elem? s.tasks i) s
take_turn (streams e) s = record s { streams = on_stream e s.streams }
take_turn drives s = record s { plugin = handle drive s.plugin }
take_turn times_out s = record s { plugin = handle deadline s.plugin }

-- a turn, unless the process has ended
unfoldable pub turn : Option ℕ → Turn → System → System
turn none t s = take_turn t s
turn (some code) t s = s

unfoldable pub turns : List Turn → System → System
turns [] s = s
turns (t ∷ ts) s = turns ts (turn s.plugin.exited t s)
