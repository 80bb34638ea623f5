-- ===== src/Client/Supervised.antt =====
-- What becomes of the process that src/conduit/client/_local.py supervises.
use conduit_connector_sdk_py.Prelude.{
  ◌≡◌, refl, sym, ◌⊎◌, inl, inr, true, false, List, [], ◌∷◌, ◌≤◌, err, arith, In,
}
use conduit_connector_sdk_py.Client.Engine.{client, close}
use conduit_connector_sdk_py.Client.Local.{
  LocalError, Manners, spawned, end_process, close_log, terminate, LocalConduit, close_local,
  started, Event, exits, closes, at_exit, on_event, on_events,
}

-- Each signal is sent once at most, a kill only after SIGTERM; a stopped supervisor has ended the
-- process and closed the log; and a closed client has stopped its supervisor.
pub record IsSupervised (c : LocalConduit) : Type 0 where
  pub once : c.supervisor.kills ≤ c.supervisor.terminates
  pub first : c.supervisor.terminates ≤ 1
  pub fresh : c.supervisor.stopped ≡ false → c.supervisor.terminates ≡ 0
  pub ended : c.supervisor.stopped ≡ true → c.supervisor.running ≡ false
  pub logged : c.supervisor.stopped ≡ true → c.supervisor.log_open ≡ false
  pub owned : c.bound_client.closed ≡ true → c.supervisor.stopped ≡ true

opened-IsSupervised : IsSupervised (record { bound_client = client true; supervisor = spawned })
opened-IsSupervised = record {
  once = omega arith;
  first = omega arith;
  fresh = λ h. refl;
  ended = λ h. ground (arith, h);
  logged = λ h. ground (arith, h);
  owned = λ h. ground (arith, h);
}

on_event-IsSupervised :
    (m : Manners) (c : LocalConduit) (e : Event)
    → (m.obeys ≡ true) ⊎ (m.dies ≡ true)
    → IsSupervised c
    → IsSupervised (on_event m c e)
unfolding on_event close_local terminate end_process close_log close
on_event-IsSupervised m c exits k h = record {
  once = h.once;
  first = h.first;
  fresh = h.fresh;
  ended = λ q. refl;
  logged = h.logged;
  owned = h.owned;
}
on_event-IsSupervised m c closes k h = record {
  once = ground (arith, h.once, h.first, h.fresh, k);
  first = ground (arith, h.once, h.first, h.fresh, k);
  fresh = ground (arith, h.once, h.first, h.fresh, k);
  ended = ground (arith, h.once, h.first, h.fresh, k, h.ended);
  logged = ground (arith, h.logged, k);
  owned = ground (arith, h.owned, k);
}
on_event-IsSupervised m c at_exit k h = record {
  once = ground (arith, h.once, h.first, h.fresh, k);
  first = ground (arith, h.once, h.first, h.fresh, k);
  fresh = ground (arith, h.once, h.first, h.fresh, k);
  ended = ground (arith, h.once, h.first, h.fresh, k, h.ended);
  logged = ground (arith, h.logged, k);
  owned = ground (arith, h.owned, k);
}

-- a supervisor that has stopped stays so
on_event_stopped :
    (m : Manners) (c : LocalConduit) (e : Event)
    → c.supervisor.stopped ≡ true
    → (on_event m c e).supervisor.stopped ≡ true
unfolding on_event close_local terminate
on_event_stopped m c exits h = h
on_event_stopped m c closes h = ground (arith, h)
on_event_stopped m c at_exit h = ground (arith, h)

-- both ways to end the client stop its supervisor
on_event_stops :
    (m : Manners) (c : LocalConduit) (e : Event)
    → IsSupervised c
    → (closes ≡ e) ⊎ (at_exit ≡ e)
    → (on_event m c e).supervisor.stopped ≡ true
unfolding on_event close_local terminate end_process close_log
on_event_stops m c exits h w = ground (arith, w)
on_event_stops m c closes h w = ground (arith, h.owned)
on_event_stops m c at_exit h w = ground (arith, h.owned)

on_events_stopped :
    (m : Manners) (es : List Event) (c : LocalConduit)
    → c.supervisor.stopped ≡ true
    → (on_events m c es).supervisor.stopped ≡ true
unfolding on_events
on_events_stopped m [] c h = h
on_events_stopped m (e ∷ es) c h =
    on_events_stopped m es (on_event m c e) (on_event_stopped m c e h)

module _ (m : Manners) (k : (m.obeys ≡ true) ⊎ (m.dies ≡ true)) where
  on_events-IsSupervised :
      (es : List Event) (c : LocalConduit) → IsSupervised c → IsSupervised (on_events m c es)
  unfolding on_events
  on_events-IsSupervised [] c h = h
  on_events-IsSupervised (e ∷ es) c h =
      on_events-IsSupervised es (on_event m c e) (on_event-IsSupervised m c e k h)

  on_events_stop :
      (es : List Event) (c : LocalConduit)
      → IsSupervised c
      → In closes es ⊎ In at_exit es
      → (on_events m c es).supervisor.stopped ≡ true
  unfolding on_events
  on_events_stop [] c h (inl i) = absurd i
  on_events_stop [] c h (inr i) = absurd i
  on_events_stop (e ∷ es) c h (inl (inl p)) =
      on_events_stopped m es (on_event m c e) (on_event_stops m c e h (inl (sym p)))
  on_events_stop (e ∷ es) c h (inr (inl p)) =
      on_events_stopped m es (on_event m c e) (on_event_stops m c e h (inr (sym p)))
  on_events_stop (e ∷ es) c h (inl (inr i)) =
      on_events_stop es (on_event m c e) (on_event-IsSupervised m c e k h) (inl i)
  on_events_stop (e ∷ es) c h (inr (inr i)) =
      on_events_stop es (on_event m c e) (on_event-IsSupervised m c e k h) (inr i)

  -- A process that obeys SIGTERM or dies of a kill in time does not run any more once the client
  -- has been closed, or the host's exit hook has run, whatever else happens and in whichever order;
  -- the log is closed, and each signal was sent at most once, the kill only after SIGTERM.
  pub on_events-ended :
      (es : List Event)
      → In closes es ⊎ In at_exit es
      → let s =
          (on_events m
            (record { bound_client = client true; supervisor = spawned })
            es).supervisor in
        (s.running ≡ false) × (s.log_open ≡ false) × (s.kills ≤ s.terminates) × (s.terminates ≤ 1)
  on_events-ended es i =
      let opened : LocalConduit = record { bound_client = client true; supervisor = spawned } in
      let h = on_events-IsSupervised es opened opened-IsSupervised in
      let stopped = on_events_stop es opened opened-IsSupervised i in
      (h.ended stopped, h.logged stopped, h.once, h.first)

  -- a constructor that fails leaves no process behind
  started-err : (e : LocalError) → (started m (err e) spawned).1.running ≡ false
  unfolding started terminate end_process close_log
  started-err e = ground (arith, k)
