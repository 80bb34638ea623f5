-- ===== src/Serve/Tasks/Quiet.antt =====
-- The `Run`s and their hooks beside the drains of src/conduit/connector/serve.py.
use conduit_connector_sdk_py.Prelude.{◌≡◌, refl, ◌+◌, ◌≤◌, true, false, arith}
use conduit_connector_sdk_py.Serve.Tasks.{
  Kind, of_sigterm, of_shutdown, of_teardown, Place, scheduled, draining, waiting, tearing,
  finished, Streams, StreamEvent, run_called, hook_called, hook_returned, run_ends, late_run_ends,
  run_ends_unset, run_abandons, orphan_returned, on_stream, drained,
}

-- Every hook that is counted belongs to a `Run` that streams, and the events say what has been called and has ended.
pub record IsAccounted (z : Streams) : Type 0 where
  pub serial : z.hooks ≤ z.streaming
  pub called : z.streaming + z.late ≤ z.run_calls
  pub ended : z.stopped_event ≡ true → z.streaming + z.late + 1 ≤ z.run_calls
  pub uncalled : z.run_started ≡ false → z.run_calls ≡ 0

pub on_stream-IsAccounted :
    (e : StreamEvent) (z : Streams) → IsAccounted z → IsAccounted (on_stream e z)
unfolding on_stream
on_stream-IsAccounted run_called z h = ground arith
on_stream-IsAccounted hook_called z h = ground arith
on_stream-IsAccounted hook_returned z h = ground arith
on_stream-IsAccounted run_ends z h = ground arith
on_stream-IsAccounted late_run_ends z h = ground arith
on_stream-IsAccounted run_ends_unset z h = ground arith
on_stream-IsAccounted run_abandons z h = ground arith
on_stream-IsAccounted orphan_returned z h = ground arith

-- No `Run` streams any more, if one was called at most.
abbrev pub IsQuiet : Streams → Type 0
IsQuiet z = (z.stop_event ≡ true) × (z.run_calls ≤ 1 → z.streaming ≡ 0)

-- what a coroutine of SIGTERM has seen to at each place
unfoldable pub Seen : Kind → Place → Streams → Type 0
Seen of_sigterm scheduled z = Unit
Seen of_sigterm draining z = z.stop_event ≡ true
Seen of_sigterm place z = IsQuiet z
Seen of_shutdown place z = Unit
Seen of_teardown place z = Unit

on_stream-stop : (e : StreamEvent) (z : Streams) → (on_stream e z).stop_event ≡ z.stop_event
unfolding on_stream
on_stream-stop run_called z = ground arith
on_stream-stop hook_called z = ground arith
on_stream-stop hook_returned z = ground arith
on_stream-stop run_ends z = ground arith
on_stream-stop late_run_ends z = ground arith
on_stream-stop run_ends_unset z = ground arith
on_stream-stop run_abandons z = ground arith
on_stream-stop orphan_returned z = ground arith

on_stream-IsQuiet : (e : StreamEvent) (z : Streams) → IsQuiet z → IsQuiet (on_stream e z)
unfolding on_stream
on_stream-IsQuiet run_called z h = ground arith
on_stream-IsQuiet hook_called z h = ground arith
on_stream-IsQuiet hook_returned z h = ground arith
on_stream-IsQuiet run_ends z h = ground arith
on_stream-IsQuiet late_run_ends z h = ground arith
on_stream-IsQuiet run_ends_unset z h = ground arith
on_stream-IsQuiet run_abandons z h = ground arith
on_stream-IsQuiet orphan_returned z h = ground arith

pub Seen-stream :
    (e : StreamEvent) (kind : Kind) (place : Place) (z : Streams)
    → Seen kind place z
    → Seen kind place (on_stream e z)
unfolding Seen
Seen-stream e of_sigterm scheduled z h = tt
Seen-stream e of_sigterm draining z h = rw (on_stream-stop e z) h
Seen-stream e of_sigterm waiting z h = on_stream-IsQuiet e z h
Seen-stream e of_sigterm tearing z h = on_stream-IsQuiet e z h
Seen-stream e of_sigterm finished z h = on_stream-IsQuiet e z h
Seen-stream e of_shutdown place z h = tt
Seen-stream e of_teardown place z h = tt

-- the stop event is set
abbrev pub stopped : Streams → Streams
stopped z = record z { stop_event = true }

pub Seen-stopped :
    (kind : Kind) (place : Place) (z : Streams) → Seen kind place z → Seen kind place (stopped z)
unfolding Seen
Seen-stopped of_sigterm scheduled z h = tt
Seen-stopped of_sigterm draining z h = refl
Seen-stopped of_sigterm waiting z h = (refl, h.1)
Seen-stopped of_sigterm tearing z h = (refl, h.1)
Seen-stopped of_sigterm finished z h = (refl, h.1)
Seen-stopped of_shutdown place z h = tt
Seen-stopped of_teardown place z h = tt

pub drained-IsQuiet :
    (z : Streams) → IsAccounted z → z.stop_event ≡ true → drained z ≡ true → IsQuiet z
drained-IsQuiet z a s d = (s, λ h. ground arith)
