-- ===== src/Serve/Tasks/Graceful.antt =====
-- The drain before the teardown of SIGTERM.
use conduit_connector_sdk_py.Prelude.{
  ◌≡◌, refl, ℕ, ◌≤◌, Bool, true, false, some, List, [], ◌∷◌, get_elem?, arith,
}
use conduit_connector_sdk_py.Serve.Tasks.{
  of_sigterm, Place, scheduled, draining, waiting, tearing, finished, Streams, System, begun, Turn,
  turn, turns,
}
use conduit_connector_sdk_py.Serve.Tasks.Quiet.{IsAccounted, IsQuiet, Seen}
use conduit_connector_sdk_py.Serve.Tasks.Resumed.{IsGraceful}
use conduit_connector_sdk_py.Serve.Tasks.Coroutines.{All-get, turn-IsGraceful}
use conduit_connector_sdk_py.Serve.Tasks.Orphans.{abandoned, turns-orphans}

turns-IsGraceful : (ts : List Turn) (s : System) → IsGraceful s → IsGraceful (turns ts s)
unfolding turns
turns-IsGraceful [] s h = h
turns-IsGraceful (t ∷ ts) s h =
    turns-IsGraceful ts (turn s.plugin.exited t s) (turn-IsGraceful s.plugin.exited t s h)

abbrev pub is_past_drain : Place → Bool
is_past_drain scheduled = false
is_past_drain draining = false
is_past_drain place = true

Seen-past :
    (place : Place) (z : Streams) → is_past_drain place ≡ true → Seen of_sigterm place z → IsQuiet z
unfolding Seen
Seen-past scheduled z e h = absurd (ground (arith, e))
Seen-past draining z e h = absurd (ground (arith, e))
Seen-past waiting z e h = h
Seen-past tearing z e h = h
Seen-past finished z e h = h

-- In every order of signals, calls, turns of the coroutines, timers and hooks: once a coroutine of
-- SIGTERM has got past its `drain`, waiting for the lock, in the teardown or after it, and if `Run`
-- was called once at most, no `read` or `write` of a `Run` that goes on is under way, and of those
-- that have ended at most one `read` for each that ended with its next one under way.
pub turns_drained :
    (ts : List Turn) (i : ℕ) (place : Place)
    → get_elem? (turns ts begun).tasks i ≡ some (record { kind = of_sigterm; place = place })
    → is_past_drain place ≡ true
    → (turns ts begun).streams.run_calls ≤ 1
    → ((turns ts begun).streams.hooks ≡ 0) × ((turns ts begun).streams.orphans ≤ abandoned ts)
turns_drained ts i place e p once =
    let (a, h) = turns-IsGraceful ts begun (begun-IsAccounted, tt) in
    (
      quiet (turns ts begun).streams a
          (Seen-past place _ p (All-get _ i (record { kind = of_sigterm; place = place }) _ e h))
          once,
      omega (arith, turns-orphans ts begun (begun-IsAccounted, tt)),
    )
  where
    begun-IsAccounted : IsAccounted begun.streams
    begun-IsAccounted = record {
      serial = omega arith;
      called = omega arith;
      ended = λ h. absurd (ground (arith, h));
      uncalled = λ h. refl;
    }

    quiet : (z : Streams) → IsAccounted z → IsQuiet z → z.run_calls ≤ 1 → z.hooks ≡ 0
    quiet z a q h = omega (arith, a.serial, q.1 h)
