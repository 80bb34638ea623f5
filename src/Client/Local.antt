-- ===== src/Client/Local.antt =====
-- The supervised engine of src/conduit/client/_local.py: `_wait_ready`, `_terminate`,
-- `_atexit_kill`, the constructor and `close`. Whether the process obeys SIGTERM and dies of a kill
-- within the grace period is the process's; the looks at it and at its API are an explicit
-- sequence, and so are the events of its life. Ports, the log's text and the printing are left out.
use conduit_connector_sdk_py.Prelude.{
  Bool, true, false, Option, none, some, List, [], ◌∷◌, if◌then◌else◌, ℕ, suc, ltb, ℤ, Result, ok,
  err,
}
use conduit_connector_sdk_py.Client.Engine.{Client, client, close}

-- the `ConduitError`s of `_wait_ready`, and a process that outlives its kill
pub data LocalError : Type 0 where
  engine_crashed : ℤ → LocalError
  engine_unreachable : LocalError
  timeout_expired : LocalError

-- one turn of the loop: the clock, `poll()`, and whether `get_info` returns
pub record Look : Type 0 where
  pub now : ℕ
  pub exit_code : Option ℤ
  pub answers : Bool

-- `_wait_ready`; `none` while it still polls
unfoldable pub wait_ready : ℕ → List Look → Option (Result LocalError (Unit {0}))
wait_ready deadline [] = none
wait_ready deadline (l ∷ ls) =
    let rest = wait_ready deadline ls in
    if ltb l.now deadline
    then elim l.exit_code [
      | some code ↦ some (err (engine_crashed code))
      | none ↦ if l.answers then some (ok tt) else rest
    ]
    else some (err engine_unreachable)

-- how the process takes its signals
pub record Manners : Type 0 where
  pub obeys : Bool
  pub dies : Bool

-- `_stopped`, the process, the signals that it was sent, and the log file
pub record Supervisor : Type 0 where
  pub stopped : Bool
  pub running : Bool
  pub terminates : ℕ
  pub kills : ℕ
  pub log_open : Bool

-- after `Popen`
abbrev pub spawned : Supervisor
spawned = record { stopped = false; running = true; terminates = 0; kills = 0; log_open = true }

-- `terminate()`, `wait`, and `kill()` with a second `wait`, of a process that runs
unfoldable pub end_process : Manners → Supervisor → Result LocalError (Unit {0}) × Supervisor
end_process m s =
    if m.obeys
    then (ok tt, record s { terminates = suc s.terminates; running = false })
    else if m.dies
    then (ok tt, record s { terminates = suc s.terminates; kills = suc s.kills; running = false })
    else (err timeout_expired, record s { terminates = suc s.terminates; kills = suc s.kills })

-- the log is closed unless the second `wait` has raised
unfoldable pub close_log :
    Result LocalError (Unit {0}) × Supervisor → Result LocalError (Unit {0}) × Supervisor
close_log (ok _, s) = (ok tt, record s { log_open = false })
close_log (err e, s) = (err e, s)

-- `_terminate`
unfoldable pub terminate : Manners → Supervisor → Result LocalError (Unit {0}) × Supervisor
terminate m s =
    if s.stopped
    then (ok tt, s)
    else if s.running
    then close_log (end_process m (record s { stopped = true }))
    else close_log (ok tt, record s { stopped = true })

-- `LocalConduit`: the client that it is bound to, and the supervisor
pub record LocalConduit : Type 0 where
  pub bound_client : Client
  pub supervisor : Supervisor

-- `close`: the client's `close` calls `_terminate` the first time
unfoldable pub close_local : Manners → LocalConduit → Result LocalError (Unit {0}) × LocalConduit
close_local m c =
    if c.bound_client.closed
    then (ok tt, c)
    else let (outcome, s) = terminate m c.supervisor in
      (outcome, record { bound_client = close c.bound_client; supervisor = s })

-- the constructor, from the spawned process on: what `_wait_ready` gives, and `_terminate` where it
-- raises, whose own exception would take its place
unfoldable pub started :
    Manners
    → Result LocalError (Unit {0})
    → Supervisor
    → Result LocalError LocalConduit × Supervisor
started m (ok _) s = (ok (record { bound_client = client true; supervisor = s }), s)
started m (err e) s =
    let (outcome, after) = terminate m s in (elim outcome [ ok _ ↦ err e | err f ↦ err f ], after)

-- what happens to a client of `local`: the process ends by itself, `close` or `__exit__` is called,
-- or the host's process ends and `_atexit_kill` runs, which suppresses exceptions
pub data Event : Type 0 where
  exits closes at_exit : Event

unfoldable pub on_event : Manners → LocalConduit → Event → LocalConduit
on_event m c exits = record c { supervisor = record c.supervisor { running = false } }
on_event m c closes = (close_local m c).1
on_event m c at_exit = record c { supervisor = (terminate m c.supervisor).1 }

unfoldable pub on_events : Manners → LocalConduit → List Event → LocalConduit
on_events m c [] = c
on_events m c (e ∷ es) = on_events m (on_event m c e) es
