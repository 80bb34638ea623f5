-- ===== src/Batch/Sizes.antt =====
-- The sizes of the batches that `collect_batches` yields.
use conduit_connector_sdk_py.Prelude.{
  ◌≤◌, ◌≡◌, Bool, true, false, Option, none, some, List, [], ◌∷◌, arith, All, All-append, length,
  length-append, Bool-cases, inl, inr, pos, ◌≤ℤ◌, ◌<ℤ◌,
}
use conduit_connector_sdk_py.Batch.{BatchConfig}
use conduit_connector_sdk_py.Batch.Collect.{
  Task, pending, done, Wake, Collector, start_of, at_end, flush, pull, wait_next, take_item,
  consume, fire, act, round, collect_batches,
}

-- What a batch may be: it has an item, and no more than the size limit, if there is one.
abbrev pub InBounds {ℓ} : {A : Type ℓ} → BatchConfig → List A → Type 0
InBounds c batch = (1 ≤ length batch) × (pos 0 <ℤ c.size → pos (length batch) ≤ℤ c.size)

module _ {A : Type 0} (c : BatchConfig) where
  abbrev Fits : Collector A → Type 0
  Fits s = pos 0 <ℤ c.size → pos (length s.buffer) <ℤ c.size

  abbrev Bounded : List (List A) × Collector A → Type 0
  Bounded r = All (InBounds c) r.0 × Fits r.1

  flush-InBounds :
      (xs : List A) → (pos 0 <ℤ c.size → pos (length xs) <ℤ c.size) → All (InBounds c) (flush xs)
  flush-InBounds [] h = tt
  flush-InBounds (x ∷ xs) h = ((omega arith, λ p. omega (arith, h p)), tt)

  take_item-Bounded : (x : A) (s : Collector A) → Fits s → Bounded (take_item c x s)
  unfolding take_item
  take_item-Bounded x s h = ground (arith, length-append s.buffer (x ∷ []))

  at_end-Bounded : (fails : Bool) (s : Collector A) → Fits s → Bounded (at_end fails s)
  unfolding at_end
  at_end-Bounded false s h = (flush-InBounds s.buffer h, λ p. p)
  at_end-Bounded true s h = (tt, h)

  consume-Bounded :
      (t : Option (Task (Option A))) (s : Collector A) → Fits s → Bounded (consume c t s)
  unfolding consume
  consume-Bounded (some (done (some x))) s h = take_item-Bounded x (record s { next_task = none }) h
  consume-Bounded (some (done none)) s h = at_end-Bounded s.fails s h
  consume-Bounded (some pending) s h = (tt, h)
  consume-Bounded none s h = (tt, h)

  act-Bounded : (d : Option (Task (Unit {0}))) (s : Collector A) → Fits s → Bounded (act c d s)
  unfolding act
  act-Bounded (some (done t)) s h = (flush-InBounds s.buffer h, λ p. p)
  act-Bounded (some pending) s h =
      consume-Bounded s.next_task (record s { delay_task = some pending }) h
  act-Bounded none s h = consume-Bounded s.next_task (record s { delay_task = none }) h

  buffer-wait_next :
      (ready : Bool) (s : Collector A) → (wait_next ready s.next_task s).buffer ≡ s.buffer
  unfolding wait_next pull
  buffer-wait_next ready s = ground arith

  round-Bounded : (w : Wake) (s : Collector A) → Fits s → Bounded (round c w s)
  unfolding round
  round-Bounded w s h = elim (Bool-cases s.returned) [
    | inl over ↦ simp over (tt, h)
    | inr runs ↦ simp runs (
        act-Bounded (fire w.timer_fired s.delay_task) (wait_next w.next_ready s.next_task s)
          (rw (buffer-wait_next w.next_ready s) h))
  ]

  collect_batches-Bounded :
      (ws : List Wake) (s : Collector A) → Fits s → Bounded (collect_batches c ws s)
  unfolding collect_batches
  collect_batches-Bounded [] s h = (tt, h)
  collect_batches-Bounded (w ∷ ws) s h =
      let (good, fits) = round-Bounded w s h in
      let (more, last) = collect_batches-Bounded ws (round c w s).1 fits in
      (
        All-append (InBounds c) (round c w s).0 (collect_batches c ws (round c w s).1).0 good more,
        last,
      )

-- Under every schedule, each batch has an item and, where a size limit is set, no more items than
-- that; the items that are buffered stay below the limit.
pub collect_batches-InBounds :
    {A : Type 0} (c : BatchConfig) (ws : List Wake) (fails : Bool) (items : List A)
    → let (out, s) = collect_batches c ws (start_of fails items) in
      All (InBounds c) out × (pos 0 <ℤ c.size → pos (length s.buffer) <ℤ c.size)
collect_batches-InBounds c ws fails items =
    collect_batches-Bounded c ws (start_of fails items) (λ p. p)
