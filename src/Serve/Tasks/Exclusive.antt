-- ===== src/Serve/Tasks/Exclusive.antt =====
-- The lock of `run_teardown_once`, and the shutdown as the events of the module `Serve`.
use conduit_connector_sdk_py.Prelude.{
  length, length-append, if◌then◌else◌, ◌≡◌, refl, sym, ap, ◌∙◌, ℕ, zero, suc, ◌≤◌, Bool, true,
  false, ◌⊎◌, inl, inr, Option, none, some, List, [], ◌∷◌, ◌++◌, get_elem?, arith,
}
use conduit_connector_sdk_py.Serve.{
  Timer, unset, armed, cancelled, over, Plugin, Event, sigterm, drive, deadline, handle, step,
  on_drive, confirm_clean_exit, force_exit,
}
use conduit_connector_sdk_py.Serve
use conduit_connector_sdk_py.Serve.Tasks.{
  Kind, of_sigterm, of_shutdown, of_teardown, Place, scheduled, waiting, Task, System, begun, Turn,
  signals, shutdown_called, teardown_called, resumes, streams, drives, times_out, resume, put,
  replace, spawn, resume_at, take_turn, turn, turns,
}
use conduit_connector_sdk_py.Serve.Tasks.Locks.{
  holds, holders, holders-append, holders-put, as_count, Follows, Follows-event, Follows-none,
}
use conduit_connector_sdk_py.Serve.Tasks.Steps.{IsTurn, resume-IsTurn}

-- The lock is held by one coroutine or none, and while it is held no teardown has returned.
abbrev pub IsGuarded : System → Type 0
IsGuarded s =
    (holders s.tasks ≡ as_count s.locked) × (s.locked ≡ true → s.plugin.teardown_done ≡ false)

holds-le-holders :
    (i : ℕ) (t : Task) (ts : List Task)
    → get_elem? ts i ≡ some t
    → holds t.kind t.place ≤ holders ts
unfolding holders
holds-le-holders i t [] e = ground (arith, e)
holds-le-holders zero t (v ∷ ts) e = ground (arith, e)
holds-le-holders (suc i) t (v ∷ ts) e = omega (arith, holds-le-holders i t ts e)

-- A turn keeps the lock's bookkeeping, and for the plugin it is some events.
abbrev Keeps : ℕ → System → System → Type 0
Keeps n s s' = IsGuarded s' × Follows n s.plugin s'.plugin

locked_of : (n : ℕ) (b : Bool) → n ≡ 1 → n ≤ as_count b → b ≡ true
locked_of n true e h = refl
locked_of n false e h = absurd (omega (arith, e, h))

replace-Keeps :
    (i : ℕ) (t : Task) (s : System) (x : System × Place)
    → get_elem? s.tasks i ≡ some t
    → IsGuarded s
    → IsTurn t.kind t.place s x
    → Keeps 1 s (replace i t.kind x)
replace-Keeps i t s (s', place') e (c, u) h = ((counts, h.undone), h.follows)
  where
    counts :
        holders (put i (record { kind = t.kind; place = place' }) s'.tasks) ≡ as_count s'.locked
    counts = rw h.same_tasks (
        omega (
          arith,
          holders-put i (record { kind = t.kind; place = place' }) t s.tasks e,
          c,
          h.counted,
        ))

force_exit-done : (t : Timer) (p : Plugin) → (force_exit t p).teardown_done ≡ p.teardown_done
unfolding force_exit
force_exit-done armed p = ground arith
force_exit-done unset p = refl
force_exit-done cancelled p = refl
force_exit-done over p = refl

handle-done :
    (e : Event) (p : Plugin)
    → (e ≡ sigterm) ⊎ ((e ≡ drive) ⊎ (e ≡ deadline))
    → (handle e p).teardown_done ≡ p.teardown_done
unfolding handle on_drive confirm_clean_exit
handle-done e p (inl h) = rw h refl
handle-done e p (inr (inl h)) = rw h (ground arith)
handle-done e p (inr (inr h)) = rw h (force_exit-done p.timer p)

-- an event of the plugin that leaves the flag alone, and a coroutine more
event-Keeps :
    (e : Event) (s : System)
    → (e ≡ sigterm) ⊎ ((e ≡ drive) ⊎ (e ≡ deadline))
    → s.plugin.exited ≡ none
    → IsGuarded s
    → Keeps 1 s (record s { plugin = handle e s.plugin })
event-Keeps e s k x (c, u) =
    ((c, λ l. handle-done e s.plugin k ∙ u l), Follows-event e s.plugin _ x refl)

spawn-IsGuarded :
    (kind : Kind) (place : Place) (s : System)
    → holds kind place ≡ 0
    → IsGuarded s
    → IsGuarded (spawn kind place s)
spawn-IsGuarded kind place s h (c, u) =
    (omega (arith, holders-append s.tasks (record { kind = kind; place = place }), c, h), u)

resume_at-Keeps :
    (i : ℕ) (raises : Bool) (o : Option Task) (s : System)
    → get_elem? s.tasks i ≡ o
    → s.plugin.exited ≡ none
    → IsGuarded s
    → Keeps 1 s (resume_at i raises o s)
unfolding resume_at
resume_at-Keeps i raises none s e x g = (g, Follows-none s.plugin)
resume_at-Keeps i raises (some t) s e x (c, u) =
    replace-Keeps i t s (resume t.kind t.place raises s) e (c, u)
      (resume-IsTurn t.kind t.place raises s
        (λ h.
          locked_of (holds t.kind t.place) s.locked h
            (omega (arith, holds-le-holders i t s.tasks e, c)))
        (u, x))

take_turn-Keeps :
    (t : Turn) (s : System) → s.plugin.exited ≡ none → IsGuarded s → Keeps 1 s (take_turn t s)
unfolding take_turn
take_turn-Keeps signals s x g =
    let (h, f) = event-Keeps sigterm s (inl refl) x g in
    (spawn-IsGuarded of_sigterm scheduled (record s { plugin = handle sigterm s.plugin }) refl h, f)
take_turn-Keeps shutdown_called s x g =
    (spawn-IsGuarded of_shutdown waiting s refl g, Follows-none s.plugin)
take_turn-Keeps teardown_called s x g =
    (spawn-IsGuarded of_teardown scheduled s refl g, Follows-none s.plugin)
take_turn-Keeps (resumes i raises) s x g = resume_at-Keeps i raises (get_elem? s.tasks i) s refl x g
take_turn-Keeps (streams e) s x g = (g, Follows-none s.plugin)
take_turn-Keeps drives s x g = event-Keeps drive s (inr (inl refl)) x g
take_turn-Keeps times_out s x g = event-Keeps deadline s (inr (inr refl)) x g

turn-Keeps :
    (o : Option ℕ) (t : Turn) (s : System)
    → s.plugin.exited ≡ o
    → IsGuarded s
    → Keeps 1 s (turn o t s)
unfolding turn
turn-Keeps none t s x g = take_turn-Keeps t s x g
turn-Keeps (some code) t s x g = (g, Follows-none s.plugin)

run-append :
    (es fs : List Event) (p : Plugin) → Serve.run (es ++ fs) p ≡ Serve.run fs (Serve.run es p)
unfolding Serve.run
run-append [] fs p = refl
run-append (e ∷ es) fs p = run-append es fs (step p.exited e p)

turns-Keeps : (ts : List Turn) (s : System) → IsGuarded s → Keeps (length ts) s (turns ts s)
unfolding turns Serve.run
turns-Keeps [] s g = (g, ([], omega arith, refl))
turns-Keeps (t ∷ ts) s g =
    let (h, (es, one, e)) = turn-Keeps s.plugin.exited t s refl g in
    let (k, (fs, few, f)) = turns-Keeps ts (turn s.plugin.exited t s) h in
    (
      k,
      (
        es ++ fs,
        omega (arith, length-append es fs, one, few),
        f ∙ ap (Serve.run fs) e ∙ sym (run-append es fs s.plugin),
      ),
    )

-- In every order of signals, calls, turns of the coroutines, timers and hooks: of the coroutines of
-- SIGTERM and of the Shutdown RPC at most one is in the connector's `teardown`, and none is once a
-- teardown through the lock has returned.
pub turns_exclusive :
    (ts : List Turn)
    → holders (turns ts begun).tasks ≤ (if (turns ts begun).plugin.teardown_done then 0 else 1)
unfolding holders
turns_exclusive ts =
    let ((c, u), f) = turns-Keeps ts begun (refl, λ h. absurd (ground (arith, h))) in
    at_most (turns ts begun).locked (turns ts begun).plugin.teardown_done c u
  where
    at_most :
        {n : ℕ} (l d : Bool) → n ≡ as_count l → (l ≡ true → d ≡ false) → n ≤ (if d then 0 else 1)
    at_most true true c u = absurd (ground (arith, u refl))
    at_most true false c u = omega (arith, c)
    at_most false true c u = omega (arith, c)
    at_most false false c u = omega (arith, c)
