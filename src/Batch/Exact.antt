-- ===== src/Batch/Exact.antt =====
-- The sizes of the batches where no delay is set.
use conduit_connector_sdk_py.Prelude.{
  ◌≡◌, refl, sym, ◌∙◌, Bool, true, false, Option, none, some, List, [], ◌∷◌, arith, All, All-append,
  length, length-append, Bool-cases, inl, inr, pos, ◌<ℤ◌, eqb_ℤ,
}
use conduit_connector_sdk_py.Batch.{BatchConfig}
use conduit_connector_sdk_py.Batch.Collect.{
  Task, pending, done, Wake, Collector, start, at_end, pull, wait_next, take_item, consume, fire,
  act, round, collect_batches,
}

-- a batch of exactly the size limit
abbrev pub IsFull : {A : Type 0} → BatchConfig → List A → Type 0
IsFull c batch = eqb_ℤ (pos (length batch)) c.size ≡ true

fire-none : (b : Bool) (d : Option (Task (Unit {0}))) → d ≡ none → fire b d ≡ none
unfolding fire
fire-none b d e = ground arith

module _ {A : Type 0} (c : BatchConfig) (limit : pos 0 <ℤ c.size) (no_delay : c.delay ≡ pos 0) where
  -- what holds while the generator runs: no timer, and a buffer below the limit
  abbrev Filling : Collector A → Type 0
  Filling s = (s.delay_task ≡ none) × (pos (length s.buffer) <ℤ c.size)

  abbrev Exact : List (List A) × Collector A → Type 0
  Exact r = (r.1.returned ≡ false → All (IsFull c) r.0) × (r.1.returned ≡ false → Filling r.1)

  take_item-Exact : (x : A) (s : Collector A) → Filling s → Exact (take_item c x s)
  unfolding take_item
  take_item-Exact x s h = ground (arith, length-append s.buffer (x ∷ []))

  at_end-Exact : (fails : Bool) (s : Collector A) → Exact (at_end fails s)
  unfolding at_end
  at_end-Exact false s = (λ r. cc, λ r. cc)
  at_end-Exact true s = (λ r. cc, λ r. cc)

  consume-Exact :
      (t : Option (Task (Option A))) (s : Collector A) → Filling s → Exact (consume c t s)
  unfolding consume
  consume-Exact (some (done (some x))) s h = take_item-Exact x (record s { next_task = none }) h
  consume-Exact (some (done none)) s h = at_end-Exact s.fails s
  consume-Exact (some pending) s h = (λ r. tt, λ r. h)
  consume-Exact none s h = (λ r. tt, λ r. h)

  act-Exact :
      (d : Option (Task (Unit {0}))) (s : Collector A) → d ≡ none → Filling s → Exact (act c d s)
  unfolding act
  act-Exact (some t) s e h = cc
  act-Exact none s e h = consume-Exact s.next_task (record s { delay_task = none }) (refl, h.1)

  wait_next-Filling :
      (ready : Bool) (s : Collector A) → Filling s → Filling (wait_next ready s.next_task s)
  unfolding wait_next pull
  wait_next-Filling ready s h = ground arith

  round-Exact : (w : Wake) (s : Collector A) → Filling s → Exact (round c w s)
  unfolding round
  round-Exact w s h = elim (Bool-cases s.returned) [
    | inl over ↦ simp over (λ r. tt, λ r. h)
    | inr runs ↦ simp runs (
        act-Exact (fire w.timer_fired s.delay_task) (wait_next w.next_ready s.next_task s)
          (fire-none w.timer_fired s.delay_task h.0) (wait_next-Filling w.next_ready s h))
  ]

  returned_stays :
      (ws : List Wake) (s : Collector A)
      → s.returned ≡ true
      → (collect_batches c ws s).1.returned ≡ true
  unfolding collect_batches round
  returned_stays [] s e = e
  returned_stays (w ∷ ws) s e = returned_stays ws (round c w s).1 (simp e refl)

  collect_batches-Exact :
      (ws : List Wake) (s : Collector A)
      → Filling s
      → (collect_batches c ws s).1.returned ≡ false
      → All (IsFull c) (collect_batches c ws s).0
  unfolding collect_batches
  collect_batches-Exact [] s h r = tt
  collect_batches-Exact (w ∷ ws) s h r = elim (Bool-cases (round c w s).1.returned) [
    | inl over ↦ absurd (true_ne_false (sym (returned_stays ws (round c w s).1 over) ∙ r))
    | inr runs ↦
        let (full, fits) = round-Exact w s h in
        All-append (IsFull c) (round c w s).0 (collect_batches c ws (round c w s).1).0 (full runs)
          (collect_batches-Exact ws (round c w s).1 (fits runs) r)
  ]
    where
      true_ne_false : true ≡ false → ⊥
      true_ne_false e = cc

-- With a size limit and no delay, every batch that has been yielded before the iterator's end is seen
-- has exactly as many items as the limit says, whatever the schedule.
pub collect_batches-IsFull :
    {A : Type 0} (c : BatchConfig) (ws : List Wake) (items : List A)
    → pos 0 <ℤ c.size
    → c.delay ≡ pos 0
    → (collect_batches c ws (start items)).1.returned ≡ false
    → All (IsFull c) (collect_batches c ws (start items)).0
collect_batches-IsFull c ws items limit no_delay r =
    collect_batches-Exact c limit no_delay ws (start items) (refl, limit) r
