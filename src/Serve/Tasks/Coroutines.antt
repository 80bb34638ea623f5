-- ===== src/Serve/Tasks/Coroutines.antt =====
-- What a turn of a coroutine does to the streams beside it, src/conduit/connector/serve.py.
use mathlib.Core.Path.{subst}
use conduit_connector_sdk_py.Prelude.{
  ◌≡◌, refl, ℕ, zero, suc, Bool, inl, inr, Option, none, some, List, [], ◌∷◌, get_elem?, All,
  All-append, some-inj, arith,
}
use conduit_connector_sdk_py.Serve.{sigterm, handle}
use conduit_connector_sdk_py.Serve.Tasks.{
  Kind, of_sigterm, of_shutdown, of_teardown, Place, scheduled, waiting, Task, Streams, System,
  on_stream, Turn, signals, shutdown_called, teardown_called, resumes, streams, drives, times_out,
  resume, put, replace, spawn, resume_at, take_turn, turn,
}
use conduit_connector_sdk_py.Serve.Tasks.Quiet.{
  on_stream-IsAccounted, Seen, Seen-stream, stopped, Seen-stopped,
}
use conduit_connector_sdk_py.Serve.Tasks.Resumed.{
  SeenBy, IsGraceful, stopped-IsAccounted, replaced, Turned, resume-Turned,
}

All-map :
    (y z : Streams) (ts : List Task)
    → ((t : Task) → SeenBy y t → SeenBy z t)
    → All (SeenBy y) ts
    → All (SeenBy z) ts
All-map y z [] f h = tt
All-map y z (t ∷ ts) f (h, hs) = (f t h, All-map y z ts f hs)

All-put :
    (z : Streams) (i : ℕ) (t : Task) (ts : List Task)
    → SeenBy z t
    → All (SeenBy z) ts
    → All (SeenBy z) (put i t ts)
unfolding put
All-put z i t [] h hs = tt
All-put z zero t (u ∷ ts) h hs = (h, hs.1)
All-put z (suc i) t (u ∷ ts) h hs = (hs.0, All-put z i t ts h hs.1)

pub All-get :
    (z : Streams) (i : ℕ) (t : Task) (ts : List Task)
    → get_elem? ts i ≡ some t
    → All (SeenBy z) ts
    → SeenBy z t
All-get z i t [] e h = absurd (ground (arith, e))
All-get z zero t (u ∷ ts) e h = subst (SeenBy z) (some-inj e) h.0
All-get z (suc i) t (u ∷ ts) e h = All-get z i t ts e h.1

-- a coroutine with its next place, and the others as they were
replace-IsGraceful :
    (i : ℕ) (t : Task) (s : System) (x : System × Place)
    → IsGraceful s
    → Turned t.kind s x
    → IsGraceful (replace i t.kind x)
replace-IsGraceful i t s (s', place) (a, h) (inl v) = replaced i t.kind place s' (rw v.same a) (
    rw (v.same, v.kept)
      (All-put s.streams i (record { kind = t.kind; place = place }) s.tasks v.seen h))
replace-IsGraceful i t s (s', place) (a, h) (inr v) =
    let z : Streams = stopped s.streams in
    replaced i t.kind place s' (rw v.same (stopped-IsAccounted s.streams a)) (
      rw (v.same, v.kept)
        (All-put z i (record { kind = t.kind; place = place }) s.tasks v.seen
          (All-map s.streams z s.tasks (λ u. Seen-stopped u.kind u.place s.streams) h)))

resume_at-IsGraceful :
    (i : ℕ) (raises : Bool) (o : Option Task) (s : System)
    → get_elem? s.tasks i ≡ o
    → IsGraceful s
    → IsGraceful (resume_at i raises o s)
unfolding resume_at
resume_at-IsGraceful i raises none s e h = h
resume_at-IsGraceful i raises (some t) s e (a, h) =
    replace-IsGraceful i t s (resume t.kind t.place raises s) (a, h)
      (resume-Turned t.kind t.place raises s a (All-get s.streams i t s.tasks e h))

spawn-IsGraceful :
    (kind : Kind) (place : Place) (s : System)
    → Seen kind place s.streams
    → IsGraceful s
    → IsGraceful (spawn kind place s)
spawn-IsGraceful kind place s h (a, hs) = (
  a,
  All-append (SeenBy s.streams) s.tasks (record { kind = kind; place = place } ∷ []) hs (h, tt),
)

take_turn-IsGraceful : (t : Turn) (s : System) → IsGraceful s → IsGraceful (take_turn t s)
unfolding take_turn Seen
take_turn-IsGraceful signals s h =
    spawn-IsGraceful of_sigterm scheduled (record s { plugin = handle sigterm s.plugin }) tt h
take_turn-IsGraceful shutdown_called s h = spawn-IsGraceful of_shutdown waiting s tt h
take_turn-IsGraceful teardown_called s h = spawn-IsGraceful of_teardown scheduled s tt h
take_turn-IsGraceful (resumes i raises) s h =
    resume_at-IsGraceful i raises (get_elem? s.tasks i) s refl h
take_turn-IsGraceful (streams e) s (a, h) = (
  on_stream-IsAccounted e s.streams a,
  All-map s.streams (on_stream e s.streams) s.tasks (λ t. Seen-stream e t.kind t.place s.streams) h,
)
take_turn-IsGraceful drives s h = h
take_turn-IsGraceful times_out s h = h

pub turn-IsGraceful :
    (o : Option ℕ) (t : Turn) (s : System) → IsGraceful s → IsGraceful (turn o t s)
unfolding turn
turn-IsGraceful none t s h = take_turn-IsGraceful t s h
turn-IsGraceful (some code) t s h = h
