-- ===== src/Serve/Tasks/Steps.antt =====
-- One turn of a coroutine: what it does with the lock of `run_teardown_once` and with the plugin,
-- src/conduit/connector/serve.py.
use conduit_connector_sdk_py.Prelude.{
  ◌≡◌, refl, sym, ap, ◌∙◌, ◌+◌, Bool, true, false, Bool-cases, inl, inr, none, if◌then◌else◌, arith,
}
use conduit_connector_sdk_py.Serve.{
  Plugin, sigterm_shutdown, shutdown_rpc, teardown_rpc, on_teardown_rpc, handle,
  on_sigterm_shutdown, on_shutdown_rpc, run_teardown_once,
}
use conduit_connector_sdk_py.Serve.Tasks.{
  Kind, of_sigterm, of_shutdown, of_teardown, Place, scheduled, draining, waiting, tearing,
  finished, Streams, System, drained, returned, complete, acquire, after_drain, resume,
}
use conduit_connector_sdk_py.Serve.Tasks.Locks.{
  holds, as_count, Follows, Follows-event, Follows-none,
}

-- What one turn of a coroutine does with the lock, the flag and the plugin.
pub record IsStep (kind : Kind) (place : Place) (s s' : System) (place' : Place) : Type 0 where
  pub same_tasks : s'.tasks ≡ s.tasks
  pub counted : as_count s'.locked + holds kind place ≡ as_count s.locked + holds kind place'
  pub undone : s'.locked ≡ true → s'.plugin.teardown_done ≡ false
  pub follows : Follows 1 s.plugin s'.plugin

abbrev pub IsTurn : Kind → Place → System → System × Place → Type 0
IsTurn kind place s (s', place') = IsStep kind place s s' place'

abbrev pub Unfinished : System → Type 0
Unfinished s = (s.locked ≡ true → s.plugin.teardown_done ≡ false) × (s.plugin.exited ≡ none)

-- the teardown has been run already: nothing is run, and the coroutine goes on to its end
complete-Follows :
    (kind : Kind) (p : Plugin)
    → p.teardown_done ≡ true
    → p.exited ≡ none
    → Follows 1 p (complete kind false p)
unfolding complete handle on_sigterm_shutdown on_shutdown_rpc run_teardown_once
complete-Follows of_sigterm p d x =
    Follows-event (sigterm_shutdown false false) p _ x (ground (arith, d))
complete-Follows of_shutdown p d x = Follows-event (shutdown_rpc false) p _ x (ground (arith, d))
complete-Follows of_teardown p d x = Follows-none p

-- the teardown is over: the flag was not set while the coroutine had the lock
returned-Follows :
    (kind : Kind) (raises : Bool) (p : Plugin)
    → holds kind tearing ≡ 1
    → p.teardown_done ≡ false
    → p.exited ≡ none
    → Follows 1 p (complete kind raises (returned raises p))
unfolding complete returned handle on_sigterm_shutdown on_shutdown_rpc run_teardown_once
returned-Follows of_sigterm raises p h d x =
    Follows-event (sigterm_shutdown false raises) p _ x (ground (arith, d))
returned-Follows of_shutdown raises p h d x =
    Follows-event (shutdown_rpc raises) p _ x (ground (arith, d))
returned-Follows of_teardown raises p h d x = absurd (ground (arith, h))

complete-done :
    (kind : Kind) (raised : Bool) (p : Plugin)
    → (complete kind raised p).teardown_done ≡ p.teardown_done
unfolding complete
complete-done of_sigterm raised p = refl
complete-done of_shutdown raised p = ground arith
complete-done of_teardown raised p = refl

-- a coroutine that does not have the lock
abbrev Waits : Kind → Place → Type 0
Waits kind place = holds kind place ≡ 0

acquire-IsTurn :
    (kind : Kind) (place : Place) (s : System)
    → Waits kind place
    → holds kind tearing ≡ 1
    → (holds kind waiting ≡ 0) × (holds kind finished ≡ 0)
    → Unfinished s
    → IsTurn kind place s (acquire kind s)
unfolding acquire
acquire-IsTurn kind place s w k (a, b) (u, x) = elim (Bool-cases s.locked) [
  | inl l ↦ simp l (record {
    same_tasks = refl;
    counted = omega (arith, w, a, ap as_count l);
    undone = u;
    follows = Follows-none s.plugin;
  })
  | inr l ↦ elim (Bool-cases s.plugin.teardown_done) [
    | inl d ↦
        simp (l, d)
          (record {
            same_tasks = refl;
            counted = omega (arith, w, b, ap as_count l);
            undone = λ h. absurd (ground (arith, l, h));
            follows = complete-Follows kind s.plugin d x;
          })
    | inr d ↦
        simp (l, d)
          (record {
            same_tasks = refl;
            counted = omega (arith, w, k, ap as_count l);
            undone = λ h. d;
            follows = Follows-none s.plugin;
          })
  ]
]

if-IsTurn :
    (kind : Kind) (place : Place) (s : System) (b : Bool) (x y : System × Place)
    → IsTurn kind place s x
    → IsTurn kind place s y
    → IsTurn kind place s (if b then x else y)
if-IsTurn kind place s true x y h k = h
if-IsTurn kind place s false x y h k = k

-- the streams do not matter
streams-IsTurn :
    (kind : Kind) (place : Place) (s : System) (z : Streams) (x : System × Place)
    → IsTurn kind place (record s { streams = z }) x
    → IsTurn kind place s x
streams-IsTurn kind place s z (s', place') h = record {
  same_tasks = h.same_tasks;
  counted = h.counted;
  undone = h.undone;
  follows = h.follows;
}

idle-IsTurn :
    (kind : Kind) (place place' : Place) (s : System)
    → holds kind place ≡ holds kind place'
    → Unfinished s
    → IsTurn kind place s (s, place')
idle-IsTurn kind place place' s h (u, x) = record {
  same_tasks = refl;
  counted = omega (arith, h);
  undone = u;
  follows = Follows-none s.plugin;
}

after_drain-IsTurn :
    (kind : Kind) (place : Place) (s : System)
    → Waits kind place
    → holds kind tearing ≡ 1
    → (holds kind waiting ≡ 0) × (holds kind finished ≡ 0) × (holds kind draining ≡ 0)
    → Unfinished s
    → IsTurn kind place s (after_drain kind s)
after_drain-IsTurn kind place s w k (a, b, c) u =
    if-IsTurn kind place s (drained s.streams) _ _ (acquire-IsTurn kind place s w k (a, b) u)
      (idle-IsTurn kind place draining s (w ∙ sym c) u)

-- the last turn of a coroutine that has the lock
tearing-IsTurn :
    (kind : Kind) (raises : Bool) (s : System)
    → holds kind tearing ≡ 1
    → holds kind finished ≡ 0
    → s.locked ≡ true
    → Unfinished s
    → IsTurn kind tearing s (
      record s { plugin = complete kind raises (returned raises s.plugin); locked = false },
      finished,
    )
tearing-IsTurn kind raises s k b l (u, x) = record {
  same_tasks = refl;
  counted = omega (arith, k, b, ap as_count l);
  undone = λ h. absurd (ground (arith, h));
  follows = returned-Follows kind raises s.plugin k (u l) x;
}

-- the last turn of the `Teardown` RPC
rpc-IsTurn :
    (raises : Bool) (s : System)
    → Unfinished s
    → IsTurn of_teardown tearing s (record s { plugin = on_teardown_rpc raises s.plugin }, finished)
unfolding handle on_teardown_rpc
rpc-IsTurn raises s (u, x) = record {
  same_tasks = refl;
  counted = refl;
  undone = λ h. ground (arith, u h);
  follows = Follows-event (teardown_rpc raises) s.plugin _ x refl;
}

pub resume-IsTurn :
    (kind : Kind) (place : Place) (raises : Bool) (s : System)
    → (holds kind place ≡ 1 → s.locked ≡ true)
    → Unfinished s
    → IsTurn kind place s (resume kind place raises s)
unfolding resume
resume-IsTurn of_teardown scheduled raises s l u =
    idle-IsTurn of_teardown scheduled tearing s refl u
resume-IsTurn of_teardown draining raises s l u = idle-IsTurn of_teardown draining finished s refl u
resume-IsTurn of_teardown waiting raises s l u = idle-IsTurn of_teardown waiting finished s refl u
resume-IsTurn of_teardown tearing raises s l u = rpc-IsTurn raises s u
resume-IsTurn of_teardown finished raises s l u = idle-IsTurn of_teardown finished finished s refl u
resume-IsTurn of_sigterm scheduled raises s l u =
    let s' : System = record s { streams = record s.streams { stop_event = true } } in
    streams-IsTurn of_sigterm scheduled s s'.streams _
      (after_drain-IsTurn of_sigterm scheduled s' refl refl (refl, refl, refl) u)
resume-IsTurn of_sigterm draining raises s l u =
    after_drain-IsTurn of_sigterm draining s refl refl (refl, refl, refl) u
resume-IsTurn of_sigterm waiting raises s l u =
    acquire-IsTurn of_sigterm waiting s refl refl (refl, refl) u
resume-IsTurn of_sigterm tearing raises s l u =
    tearing-IsTurn of_sigterm raises s refl refl (l refl) u
resume-IsTurn of_sigterm finished raises s l u = idle-IsTurn of_sigterm finished finished s refl u
resume-IsTurn of_shutdown scheduled raises s l u =
    let s' : System = record s { streams = record s.streams { stop_event = true } } in
    streams-IsTurn of_shutdown scheduled s s'.streams _
      (after_drain-IsTurn of_shutdown scheduled s' refl refl (refl, refl, refl) u)
resume-IsTurn of_shutdown draining raises s l u =
    after_drain-IsTurn of_shutdown draining s refl refl (refl, refl, refl) u
resume-IsTurn of_shutdown waiting raises s l u =
    acquire-IsTurn of_shutdown waiting s refl refl (refl, refl) u
resume-IsTurn of_shutdown tearing raises s l u =
    tearing-IsTurn of_shutdown raises s refl refl (l refl) u
resume-IsTurn of_shutdown finished raises s l u = idle-IsTurn of_shutdown finished finished s refl u
