-- ===== src/Serve/Shutdown.antt =====
-- How a plugin process ends.
use conduit_connector_sdk_py.Prelude.{
  ℕ, suc, ◌+◌, ◌≤◌, ◌≡◌, ◌⊎◌, refl, Bool, true, false, Option, none, some, List, [], ◌∷◌, arith,
  if◌then◌else◌, Bool-cases, inl, inr,
}
use conduit_connector_sdk_py.Serve.{
  Timer, unset, armed, cancelled, over, Plugin, started, Event, sigterm, sigterm_shutdown,
  shutdown_rpc, teardown_rpc, drive, deadline, start_watchdog, run_teardown_once, on_shutdown_rpc,
  on_teardown_rpc, on_sigterm_shutdown, confirm_clean_exit, on_drive, force_exit, handle, step, run,
}

-- A process that has ended has done so with code 0, after a requested and confirmed shutdown, or with
-- code 1, when the watchdog went off before that; one that runs has confirmed nothing.
abbrev pub Ending : Option ℕ → Plugin → Type 0
Ending none p = p.confirmed ≡ false
Ending (some code) p =
    ((code ≡ 0) × (p.confirmed ≡ true) × (p.shutdown_requested ≡ true))
    ⊎ ((code ≡ 1) × (p.confirmed ≡ false) × (p.timer ≡ over))

-- the calls of the `Teardown` RPC
abbrev pub rpcs_of : Event → ℕ
rpcs_of (teardown_rpc raises) = 1
rpcs_of e = 0

abbrev pub teardown_rpcs : List Event → ℕ
teardown_rpcs [] = 0
teardown_rpcs (e ∷ es) = rpcs_of e + teardown_rpcs es

-- A teardown through `run_teardown_once` has returned as often as `teardown_done` says, so once at
-- most, and one more at most has for each Teardown RPC.
abbrev pub IsOrderly : ℕ → Plugin → Type 0
IsOrderly rpcs p =
    ((if p.teardown_done then 1 else 0) ≤ p.teardowns)
    × (p.teardowns ≤ (if p.teardown_done then 1 else 0) + rpcs)
    × Ending p.exited p

-- what a running process keeps
abbrev Live : ℕ → Plugin → Type 0
Live n p =
    (p.exited ≡ none)
    × (p.confirmed ≡ false)
    × ((if p.teardown_done then 1 else 0) ≤ p.teardowns)
    × (p.teardowns ≤ (if p.teardown_done then 1 else 0) + n)

Live-IsOrderly : (n : ℕ) (p : Plugin) → Live n p → IsOrderly n p
Live-IsOrderly n p (x, c, l, o) = (l, o, rw x c)

run_teardown_once-Live :
    (n : ℕ) (raises : Bool) (p : Plugin) → Live n p → Live n (run_teardown_once raises p).0
unfolding run_teardown_once
run_teardown_once-Live n raises p h = ground arith

on_shutdown_rpc-Live :
    (n : ℕ) (raises : Bool) (p : Plugin) → Live n p → Live n (on_shutdown_rpc raises p)
unfolding on_shutdown_rpc
on_shutdown_rpc-Live n raises p h = ground (arith, run_teardown_once-Live n raises p h)

on_teardown_rpc-Live :
    (n : ℕ) (raises : Bool) (p : Plugin) → Live n p → Live (suc n) (on_teardown_rpc raises p)
unfolding on_teardown_rpc
on_teardown_rpc-Live n raises p h = ground arith

force_exit-IsOrderly : (n : ℕ) (t : Timer) (p : Plugin) → Live n p → IsOrderly n (force_exit t p)
unfolding force_exit
force_exit-IsOrderly n armed p (x, c, l, o) = rw c (l, o, inr (refl, refl, refl))
force_exit-IsOrderly n unset p h = Live-IsOrderly n p h
force_exit-IsOrderly n cancelled p h = Live-IsOrderly n p h
force_exit-IsOrderly n over p h = Live-IsOrderly n p h

IsOrderly-mono : (m n : ℕ) (p : Plugin) → m ≤ n → IsOrderly m p → IsOrderly n p
IsOrderly-mono m n p h (l, o, e) = (l, omega (arith, o, h), e)

Live-later : (k n : ℕ) (p : Plugin) → Live n p → IsOrderly (k + n) p
Live-later k n p h = IsOrderly-mono n (k + n) p (omega arith) (Live-IsOrderly n p h)

handle-IsOrderly :
    (n : ℕ) (e : Event) (p : Plugin) → Live n p → IsOrderly (rpcs_of e + n) (handle e p)
unfolding handle on_sigterm_shutdown on_drive confirm_clean_exit
handle-IsOrderly n sigterm p h = Live-later 0 n _ h
handle-IsOrderly n (sigterm_shutdown d t) p h = Live-later 0 n _ (run_teardown_once-Live n t p h)
handle-IsOrderly n (shutdown_rpc t) p h = Live-later 0 n _ (on_shutdown_rpc-Live n t p h)
handle-IsOrderly n (teardown_rpc t) p h =
    IsOrderly-mono (suc n) (1 + n) _ (omega arith)
      (Live-IsOrderly (suc n) _ (on_teardown_rpc-Live n t p h))
handle-IsOrderly n drive p (x, c, l, o) = elim (Bool-cases p.shutdown_requested) [
  | inl asked ↦ simp asked (l, omega (arith, o), inl (refl, refl, refl))
  | inr idle ↦ simp idle (Live-later 0 n p (x, c, l, o))
]
handle-IsOrderly n deadline p h =
    IsOrderly-mono n (0 + n) _ (omega arith) (force_exit-IsOrderly n p.timer p h)

step-IsOrderly :
    (n : ℕ) (o : Option ℕ) (e : Event) (p : Plugin)
    → p.exited ≡ o
    → IsOrderly n p
    → IsOrderly (rpcs_of e + n) (step o e p)
unfolding step
step-IsOrderly n none e p x (l, o, h) = handle-IsOrderly n e p (x, rw x at h, l, o)
step-IsOrderly n (some code) e p x (l, o, h) = (l, omega (arith, o), h)

run-IsOrderly :
    (n : ℕ) (es : List Event) (p : Plugin)
    → IsOrderly n p
    → IsOrderly (teardown_rpcs es + n) (run es p)
unfolding run
run-IsOrderly n [] p h = IsOrderly-mono n (0 + n) p (omega arith) h
run-IsOrderly n (e ∷ es) p h =
    IsOrderly-mono (teardown_rpcs es + (rpcs_of e + n)) (rpcs_of e + teardown_rpcs es + n) _
      (omega arith)
      (run-IsOrderly (rpcs_of e + n) es (step p.exited e p) (step-IsOrderly n p.exited e p refl h))

-- In every order of signals, calls, timers and hooks that raise: the connector's teardown has
-- returned at most once through `run_teardown_once`, and beyond that at most once for each call of
-- the Teardown RPC, which takes no notice of it; it has returned at least once if `teardown_done` is
-- set; and the process ends, if it does, with code 0 after a requested and confirmed shutdown or with
-- code 1 when the watchdog has gone off with nothing confirmed.
pub run-started-IsOrderly : (es : List Event) → IsOrderly (teardown_rpcs es) (run es started)
run-started-IsOrderly es =
    IsOrderly-mono (teardown_rpcs es + 0) (teardown_rpcs es) (run es started) (omega arith)
      (run-IsOrderly 0 es started (omega arith, omega arith, refl))

-- SIGTERM ends a running process cleanly even if the drain, the teardown or both raise: once the
-- scheduled shutdown and the waiting task have had their turns, the exit code is 0.
pub sigterm_ends :
    (drain_raises teardown_raises : Bool) (p : Plugin)
    → p.exited ≡ none
    → (run (sigterm ∷ sigterm_shutdown drain_raises teardown_raises ∷ drive ∷ []) p).exited ≡ some 0
unfolding run step handle on_sigterm_shutdown on_drive confirm_clean_exit run_teardown_once
sigterm_ends d t p x = ground arith

-- When SIGTERM has come to a running process, twice even, and neither the shutdown nor the waiting
-- task gets a turn before the watchdog's deadline, the process ends with code 1.
pub deadline_ends :
    (p : Plugin)
    → p.exited ≡ none
    → p.confirmed ≡ false
    → p.timer ≡ unset
    → (run (sigterm ∷ sigterm ∷ deadline ∷ []) p).exited ≡ some 1
unfolding run step handle force_exit start_watchdog
deadline_ends p x c t = ground arith
