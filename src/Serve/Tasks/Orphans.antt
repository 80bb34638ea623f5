-- ===== src/Serve/Tasks/Orphans.antt =====
-- The reads that outlive their `Run` in src/conduit/connector/source.py.
use conduit_connector_sdk_py.Prelude.{
  ◌≡◌, refl, ap, ℕ, ◌+◌, ◌≤◌, Bool, inl, inr, Option, none, some, List, [], ◌∷◌, get_elem?, arith,
}
use conduit_connector_sdk_py.Serve.Tasks.{
  Kind, Place, Task, Streams, System, StreamEvent, run_called, hook_called, hook_returned, run_ends,
  late_run_ends, run_ends_unset, run_abandons, orphan_returned, on_stream, Turn, signals,
  shutdown_called, teardown_called, resumes, streams, drives, times_out, resume, replace, resume_at,
  take_turn, turn, turns,
}
use conduit_connector_sdk_py.Serve.Tasks.Resumed.{IsGraceful, resume-Turned, Turned}
use conduit_connector_sdk_py.Serve.Tasks.Coroutines.{All-get, turn-IsGraceful}

-- the `Run`s that have ended with a `read` under way
abbrev pub abandons_of : Turn → ℕ
abandons_of (streams run_abandons) = 1
abandons_of t = 0

abbrev pub abandoned : List Turn → ℕ
abandoned [] = 0
abandoned (t ∷ ts) = abandons_of t + abandoned ts

Turned-orphans :
    (i : ℕ) (kind : Kind) (s : System) (x : System × Place)
    → Turned kind s x
    → (replace i kind x).streams.orphans ≡ s.streams.orphans
Turned-orphans i kind s (s', place) (inl v) = ap (λ (z : Streams). z.orphans) v.same
Turned-orphans i kind s (s', place) (inr v) = ap (λ (z : Streams). z.orphans) v.same

resume_at-orphans :
    (i : ℕ) (raises : Bool) (o : Option Task) (s : System)
    → get_elem? s.tasks i ≡ o
    → IsGraceful s
    → (resume_at i raises o s).streams.orphans ≡ s.streams.orphans
unfolding resume_at
resume_at-orphans i raises none s e h = refl
resume_at-orphans i raises (some t) s e (a, h) =
    Turned-orphans i t.kind s (resume t.kind t.place raises s)
      (resume-Turned t.kind t.place raises s a (All-get s.streams i t s.tasks e h))

on_stream-orphans :
    (e : StreamEvent) (z : Streams) → (on_stream e z).orphans ≤ z.orphans + abandons_of (streams e)
unfolding on_stream
on_stream-orphans run_called z = ground arith
on_stream-orphans hook_called z = ground arith
on_stream-orphans hook_returned z = ground arith
on_stream-orphans run_ends z = ground arith
on_stream-orphans late_run_ends z = ground arith
on_stream-orphans run_ends_unset z = ground arith
on_stream-orphans run_abandons z = ground arith
on_stream-orphans orphan_returned z = ground arith

turn-orphans :
    (o : Option ℕ) (t : Turn) (s : System)
    → IsGraceful s
    → (turn o t s).streams.orphans ≤ s.streams.orphans + abandons_of t
unfolding turn take_turn
turn-orphans (some code) t s h = omega arith
turn-orphans none signals s h = omega arith
turn-orphans none shutdown_called s h = omega arith
turn-orphans none teardown_called s h = omega arith
turn-orphans none (resumes i raises) s h =
    omega (arith, resume_at-orphans i raises (get_elem? s.tasks i) s refl h)
turn-orphans none (streams e) s h = on_stream-orphans e s.streams
turn-orphans none drives s h = omega arith
turn-orphans none times_out s h = omega arith

pub turns-orphans :
    (ts : List Turn) (s : System)
    → IsGraceful s
    → (turns ts s).streams.orphans ≤ s.streams.orphans + abandoned ts
unfolding turns
turns-orphans [] s h = omega arith
turns-orphans (t ∷ ts) s h =
    let s' = turn s.plugin.exited t s in
    omega (
      arith,
      turn-orphans s.plugin.exited t s h,
      turns-orphans ts s' (turn-IsGraceful s.plugin.exited t s h),
    )
