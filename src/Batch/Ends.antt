-- ===== src/Batch/Ends.antt =====
-- The state in which `collect_batches` has returned.
use conduit_connector_sdk_py.Prelude.{
  ◌≡◌, refl, sym, ap, ◌∙◌, ◌++◌, Bool, true, false, Option, none, some, List, [], ◌∷◌, append-nil,
  arith, concat, Bool-cases, inl, inr,
}
use conduit_connector_sdk_py.Batch.{BatchConfig}
use conduit_connector_sdk_py.Batch.Collect.{
  Task, pending, done, Wake, Collector, start, at_end, pull, wait_next, take_item, consume, fire,
  act, round, collect_batches,
}
use conduit_connector_sdk_py.Batch.Order.{held, collect_batches-keeps_items}

-- The sentinel has been read only where the iterator is empty.
abbrev AtStop : {A : Type 0} → Option (Task (Option A)) → List A → Type 0
AtStop (some (done none)) items = items ≡ []
AtStop _ items = Unit {0}

-- A generator that has returned holds no item, where the iterator does not raise.
abbrev IsDrained : {A : Type 0} → Collector A → Type 0
IsDrained s =
    (s.fails ≡ false)
    × AtStop s.next_task s.items
    × (s.returned ≡ true → (s.buffer ≡ []) × (s.next_task ≡ none) × (s.items ≡ []))

module _ {A : Type 0} (c : BatchConfig) where
  pull-AtStop :
      (xs : List A) (s : Collector A)
      → s.items ≡ xs
      → AtStop (pull xs s).next_task (pull xs s).items
  unfolding pull
  pull-AtStop [] s e = e
  pull-AtStop (x ∷ xs) s e = tt

  wait_next-AtStop :
      (ready : Bool) (t : Option (Task (Option A))) (s : Collector A)
      → s.next_task ≡ t
      → AtStop s.next_task s.items
      → AtStop (wait_next ready t s).next_task (wait_next ready t s).items
  unfolding wait_next
  wait_next-AtStop ready (some (done r)) s e h = h
  wait_next-AtStop true (some pending) s e h = pull-AtStop s.items s refl
  wait_next-AtStop false (some pending) s e h = tt
  wait_next-AtStop true none s e h = pull-AtStop s.items s refl
  wait_next-AtStop false none s e h = tt

  running-IsDrained :
      (s : Collector A)
      → s.fails ≡ false
      → s.returned ≡ false
      → AtStop s.next_task s.items
      → IsDrained s
  running-IsDrained s f r h = (f, h, λ p. cc)

  take_item-IsDrained :
      (x : A) (s : Collector A)
      → s.next_task ≡ none
      → s.returned ≡ false
      → ((take_item c x s).1.next_task ≡ none)
        × ((take_item c x s).1.returned ≡ false)
        × ((take_item c x s).1.fails ≡ s.fails)
  unfolding take_item
  take_item-IsDrained x s e r = ground arith

  at_end-IsDrained :
      (fails : Bool) (s : Collector A)
      → s.fails ≡ false
      → s.fails ≡ fails
      → s.items ≡ []
      → IsDrained (at_end fails s).1
  unfolding at_end
  at_end-IsDrained false s f e h = (f, tt, λ p. (refl, refl, h))
  at_end-IsDrained true s f e h = absurd (ground (arith, f, e))

  consume-IsDrained :
      (t : Option (Task (Option A))) (s : Collector A)
      → s.next_task ≡ t
      → s.fails ≡ false
      → AtStop t s.items
      → s.returned ≡ false
      → IsDrained (consume c t s).1
  unfolding consume
  consume-IsDrained (some (done (some x))) s e f h r =
      let (empty, runs, same) = take_item-IsDrained x (record s { next_task = none }) refl r in
      running-IsDrained (take_item c x (record s { next_task = none })).1 (same ∙ f) runs
        (rw empty tt)
  consume-IsDrained (some (done none)) s e f h r = at_end-IsDrained s.fails s f refl h
  consume-IsDrained (some pending) s e f h r = running-IsDrained s f r (rw e tt)
  consume-IsDrained none s e f h r = running-IsDrained s f r (rw e tt)

  act-IsDrained :
      (d : Option (Task (Unit {0}))) (s : Collector A)
      → s.fails ≡ false
      → AtStop s.next_task s.items
      → s.returned ≡ false
      → IsDrained (act c d s).1
  unfolding act
  act-IsDrained (some (done t)) s f h r =
      running-IsDrained (record s { buffer = []; delay_task = none }) f r h
  act-IsDrained (some pending) s f h r =
      consume-IsDrained s.next_task (record s { delay_task = some pending }) refl f h r
  act-IsDrained none s f h r =
      consume-IsDrained s.next_task (record s { delay_task = none }) refl f h r

  wait_next-fails :
      (ready : Bool) (s : Collector A) → (wait_next ready s.next_task s).fails ≡ s.fails
  unfolding wait_next pull
  wait_next-fails ready s = ground arith

  wait_next-returned :
      (ready : Bool) (s : Collector A) → (wait_next ready s.next_task s).returned ≡ s.returned
  unfolding wait_next pull
  wait_next-returned ready s = ground arith

  round-IsDrained : (w : Wake) (s : Collector A) → IsDrained s → IsDrained (round c w s).1
  unfolding round
  round-IsDrained w s h = elim (Bool-cases s.returned) [
    | inl over ↦ simp over (h.0, h.1, λ p. h.2 over)
    | inr runs ↦ simp runs (
        act-IsDrained (fire w.timer_fired s.delay_task) (wait_next w.next_ready s.next_task s)
          (wait_next-fails w.next_ready s ∙ h.0)
          (wait_next-AtStop w.next_ready s.next_task s refl h.1)
          (wait_next-returned w.next_ready s ∙ runs))
  ]

  collect_batches-IsDrained :
      (ws : List Wake) (s : Collector A) → IsDrained s → IsDrained (collect_batches c ws s).1
  unfolding collect_batches
  collect_batches-IsDrained [] s h = h
  collect_batches-IsDrained (w ∷ ws) s h =
      collect_batches-IsDrained ws (round c w s).1 (round-IsDrained w s h)

-- Then no item is without a batch.
pub collect_batches-rest :
    {A : Type 0} (c : BatchConfig) (ws : List Wake) (items : List A)
    → let s = (collect_batches c ws (start items)).1 in
      s.returned ≡ true → s.buffer ++ (held s.next_task ++ s.items) ≡ []
collect_batches-rest c ws items over =
    let (no_buffer, no_task, no_items) =
      (collect_batches-IsDrained c ws (start items) (refl, tt, λ p. cc)).2 over in
    rw (no_buffer, no_task, no_items) refl

-- Where the iterator does not raise: once the generator has returned, the batches that it has
-- yielded are the items, all of them and in order: nothing stays in the buffer.
pub collect_batches-yields_all :
    {A : Type 0} (c : BatchConfig) (ws : List Wake) (items : List A)
    → (collect_batches c ws (start items)).1.returned ≡ true
    → concat (collect_batches c ws (start items)).0 ≡ items
collect_batches-yields_all c ws items over =
    let (out, s) = collect_batches c ws (start items) in
    sym (append-nil (concat out))
    ∙ ap (λ rest. concat out ++ rest) (sym (collect_batches-rest c ws items over))
    ∙ collect_batches-keeps_items c ws false items
