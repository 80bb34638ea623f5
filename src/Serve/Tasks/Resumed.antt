-- ===== src/Serve/Tasks/Resumed.antt =====
-- What one coroutine's turn does to the streams beside it, src/conduit/connector/serve.py.
use conduit_connector_sdk_py.Prelude.{
  ◌≡◌, refl, ℕ, Bool, true, Bool-cases, inl, inr, List, All, ◌⊎◌,
}
use conduit_connector_sdk_py.Serve.Tasks.{
  Kind, of_sigterm, of_shutdown, of_teardown, Place, scheduled, draining, waiting, tearing,
  finished, Task, Streams, System, acquire, drained, after_drain, resume, put, replace,
}
use conduit_connector_sdk_py.Serve.Tasks.Quiet.{
  IsAccounted, IsQuiet, Seen, stopped, drained-IsQuiet,
}

-- a turn of a coroutine leaves the streams as they are, but for the stop event
pub record IsTurn (kind : Kind) (ts : List Task) (z : Streams) (x : System × Place) : Type 0 where
  pub kept : x.0.tasks ≡ ts
  pub same : x.0.streams ≡ z
  pub seen : Seen kind x.1 z

-- past the drain nothing more is asked of a coroutine
IsPast : Kind → Streams → Type 0
IsPast kind z = Seen kind waiting z × Seen kind tearing z × Seen kind finished z

acquire-IsTurn :
    (kind : Kind) (s : System)
    → IsPast kind s.streams
    → IsTurn kind s.tasks s.streams (acquire kind s)
unfolding acquire IsPast
acquire-IsTurn kind s (w, t, f) = elim (Bool-cases s.locked) [
  | inl l ↦ simp l (record { kept = refl; same = refl; seen = w })
  | inr l ↦ elim (Bool-cases s.plugin.teardown_done) [
    | inl d ↦ simp (l, d) (record { kept = refl; same = refl; seen = f })
    | inr d ↦ simp (l, d) (record { kept = refl; same = refl; seen = t })
  ]
]

after_drain-IsTurn :
    (kind : Kind) (s : System)
    → Seen kind draining s.streams
    → (drained s.streams ≡ true → IsPast kind s.streams)
    → IsTurn kind s.tasks s.streams (after_drain kind s)
after_drain-IsTurn kind s h p = elim (Bool-cases (drained s.streams)) [
  | inl d ↦ rw d (acquire-IsTurn kind s (p d))
  | inr d ↦ rw d (record { kept = refl; same = refl; seen = h })
]

-- past the drain: for SIGTERM the streams are quiet
quiet-IsPast : (kind : Kind) (z : Streams) → (IsQuiet z) → IsPast kind z
unfolding IsPast Seen
quiet-IsPast of_sigterm z q = (q, q, q)
quiet-IsPast of_shutdown z q = (tt, tt, tt)
quiet-IsPast of_teardown z q = (tt, tt, tt)

waiting-IsPast : (kind : Kind) (z : Streams) → Seen kind waiting z → IsPast kind z
unfolding IsPast Seen
waiting-IsPast of_sigterm z q = (q, q, q)
waiting-IsPast of_shutdown z q = (tt, tt, tt)
waiting-IsPast of_teardown z q = (tt, tt, tt)

is_stopped : (kind : Kind) (z : Streams) → z.stop_event ≡ true → Seen kind draining z
unfolding Seen
is_stopped of_sigterm z h = h
is_stopped of_shutdown z h = tt
is_stopped of_teardown z h = tt

abbrev pub SeenBy : Streams → Task → Type 0
SeenBy z t = Seen t.kind t.place z

abbrev pub IsGraceful : System → Type 0
IsGraceful s = IsAccounted s.streams × All (SeenBy s.streams) s.tasks

pub stopped-IsAccounted : (z : Streams) → IsAccounted z → IsAccounted (stopped z)
stopped-IsAccounted z h = record {
  serial = h.serial;
  called = h.called;
  ended = h.ended;
  uncalled = h.uncalled;
}

pub replaced :
    (i : ℕ) (kind : Kind) (place : Place) (s : System)
    → IsAccounted s.streams
    → All (SeenBy s.streams) (put i (record { kind = kind; place = place }) s.tasks)
    → IsGraceful (replace i kind (s, place))
replaced i kind place s a h = (a, h)

-- a turn with the streams as they were, or with the stop event set
abbrev pub Turned : Kind → System → System × Place → Type 0
Turned kind s x = IsTurn kind s.tasks s.streams x ⊎ IsTurn kind s.tasks (stopped s.streams) x

start-Turned :
    (kind : Kind) (s : System)
    → IsAccounted s.streams
    → Turned kind s (after_drain kind (record s { streams = stopped s.streams }))
start-Turned kind s a =
    let s' : System = record s { streams = stopped s.streams } in
    inr (
      after_drain-IsTurn kind s' (is_stopped kind s'.streams refl) (λ d.
        quiet-IsPast kind s'.streams
          (drained-IsQuiet s'.streams (stopped-IsAccounted s.streams a) refl d)))

pub resume-Turned :
    (kind : Kind) (place : Place) (raises : Bool) (s : System)
    → IsAccounted s.streams
    → Seen kind place s.streams
    → Turned kind s (resume kind place raises s)
unfolding resume Seen
resume-Turned of_teardown scheduled raises s a h =
    inl (record { kept = refl; same = refl; seen = tt })
resume-Turned of_teardown draining raises s a h =
    inl (record { kept = refl; same = refl; seen = tt })
resume-Turned of_teardown waiting raises s a h =
    inl (record { kept = refl; same = refl; seen = tt })
resume-Turned of_teardown tearing raises s a h =
    inl (record { kept = refl; same = refl; seen = tt })
resume-Turned of_teardown finished raises s a h =
    inl (record { kept = refl; same = refl; seen = tt })
resume-Turned of_sigterm scheduled raises s a h = start-Turned of_sigterm s a
resume-Turned of_sigterm draining raises s a h = inl (
    after_drain-IsTurn of_sigterm s h
      (λ d. quiet-IsPast of_sigterm s.streams (drained-IsQuiet s.streams a h d)))
resume-Turned of_sigterm waiting raises s a h =
    inl (acquire-IsTurn of_sigterm s (waiting-IsPast of_sigterm s.streams h))
resume-Turned of_sigterm tearing raises s a h = inl (record { kept = refl; same = refl; seen = h })
resume-Turned of_sigterm finished raises s a h = inl (record { kept = refl; same = refl; seen = h })
resume-Turned of_shutdown scheduled raises s a h = start-Turned of_shutdown s a
resume-Turned of_shutdown draining raises s a h =
    inl (after_drain-IsTurn of_shutdown s tt (λ d. waiting-IsPast of_shutdown s.streams tt))
resume-Turned of_shutdown waiting raises s a h =
    inl (acquire-IsTurn of_shutdown s (waiting-IsPast of_shutdown s.streams tt))
resume-Turned of_shutdown tearing raises s a h =
    inl (record { kept = refl; same = refl; seen = tt })
resume-Turned of_shutdown finished raises s a h =
    inl (record { kept = refl; same = refl; seen = tt })
