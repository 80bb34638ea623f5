-- ===== src/Batch/Progress.antt =====
-- How many rounds `collect_batches` needs where the next item is ready whenever the loop waits.
use conduit_connector_sdk_py.Prelude.{
  ℕ, suc, ◌+◌, ◌*◌, ◌≤◌, ◌<◌, ◌≡◌, refl, sym, ◌∙◌, ap, Bool, true, false, Option, none, some, List,
  [], ◌∷◌, arith, All, length, if◌then◌else◌, Bool-cases, inl, inr, is_some,
}
use conduit_connector_sdk_py.Batch.{BatchConfig}
use conduit_connector_sdk_py.Batch.Collect.{
  Task, pending, done, Wake, Collector, start_of, at_end, pull, wait_next, take_item, consume, fire,
  act, round, collect_batches,
}
use conduit_connector_sdk_py.Batch.Order.{held}

abbrev pub IsReady : Wake → Type 0
IsReady w = w.next_ready ≡ true

abbrev count : Bool → ℕ
count b = if b then 1 else 0

-- How many rounds there are at most: two for an item, one for a timer, one for the sentinel.
abbrev rounds : {A : Type 0} → Collector A → ℕ
rounds s =
    if s.returned
    then 0
    else suc (2 * (length (held s.next_task) + length s.items) + count (is_some s.delay_task))

abbrev is_done : {R : Type 0} → Option (Task R) → Bool
is_done (some (done r)) = true
is_done _ = false

fire-is_some : (b : Bool) (d : Option (Task (Unit {0}))) → is_some (fire b d) ≡ is_some d
unfolding fire
fire-is_some b d = ground arith

module _ {A : Type 0} (c : BatchConfig) where
  take_item-rounds :
      (x : A) (s : Collector A)
      → s.next_task ≡ none
      → rounds (take_item c x s).1 ≤ suc (2 * length s.items + 1)
  unfolding take_item
  take_item-rounds x s e = ground arith

  at_end-returned : (fails : Bool) (s : Collector A) → (at_end fails s).1.returned ≡ true
  unfolding at_end
  at_end-returned false s = refl
  at_end-returned true s = refl

  consume-rounds :
      (t : Option (Task (Option A))) (s : Collector A)
      → s.next_task ≡ t
      → is_done t ≡ true
      → s.returned ≡ false
      → rounds (consume c t s).1 < rounds s
  unfolding consume
  consume-rounds (some (done (some x))) s e d r =
      ground (arith, take_item-rounds x (record s { next_task = none }) refl)
  consume-rounds (some (done none)) s e d r = ground (arith, at_end-returned s.fails s)
  consume-rounds (some pending) s e d r = cc
  consume-rounds none s e d r = cc

  act-rounds :
      (d : Option (Task (Unit {0}))) (s : Collector A)
      → is_some d ≡ is_some s.delay_task
      → is_done s.next_task ≡ true
      → s.returned ≡ false
      → rounds (act c d s).1 < rounds s
  unfolding act
  act-rounds (some (done t)) s e d r = ground arith
  act-rounds (some pending) s e d r =
      ground (arith, consume-rounds s.next_task (record s { delay_task = some pending }) refl d r)
  act-rounds none s e d r =
      ground (arith, consume-rounds s.next_task (record s { delay_task = none }) refl d r)

  pull-rounds :
      (xs : List A) (s : Collector A)
      → s.items ≡ xs
      → held s.next_task ≡ []
      → (is_done (pull xs s).next_task ≡ true)
        × ((pull xs s).returned ≡ s.returned)
        × (rounds (pull xs s) ≡ rounds s)
  unfolding pull
  pull-rounds [] s e h = (refl, refl, ground (arith, ap length e, ap length h))
  pull-rounds (x ∷ xs) s e h = (refl, refl, ground (arith, ap length e, ap length h))

  wait_next-rounds :
      (t : Option (Task (Option A))) (s : Collector A)
      → s.next_task ≡ t
      → (is_done (wait_next true t s).next_task ≡ true)
        × ((wait_next true t s).returned ≡ s.returned)
        × (rounds (wait_next true t s) ≡ rounds s)
  unfolding wait_next
  wait_next-rounds (some (done r)) s e = (rw e refl, refl, refl)
  wait_next-rounds (some pending) s e = pull-rounds s.items s refl (rw e refl)
  wait_next-rounds none s e = pull-rounds s.items s refl (rw e refl)

  wait_next-delay_task :
      (ready : Bool) (s : Collector A) → (wait_next ready s.next_task s).delay_task ≡ s.delay_task
  unfolding wait_next pull
  wait_next-delay_task ready s = ground arith

  round-rounds :
      (w : Wake) (s : Collector A)
      → IsReady w
      → s.returned ≡ false
      → rounds (round c w s).1 < rounds s
  unfolding round
  round-rounds w s ready runs =
      let (has_item, still_runs, same) = wait_next-rounds s.next_task s refl in
      simp (runs, ready)
        (ground (
          arith,
          act-rounds (fire w.timer_fired s.delay_task) (wait_next true s.next_task s)
              (fire-is_some w.timer_fired s.delay_task
                ∙ ap is_some (sym (wait_next-delay_task true s)))
              has_item (still_runs ∙ runs),
          same,
        ))

  collect_batches-rounds :
      (ws : List Wake) (s : Collector A)
      → All IsReady ws
      → rounds s ≤ length ws
      → (collect_batches c ws s).1.returned ≡ true
  unfolding collect_batches round
  collect_batches-rounds [] s r h = ground arith
  collect_batches-rounds (w ∷ ws) s r h = elim (Bool-cases s.returned) [
    | inl over ↦ collect_batches-rounds ws (round c w s).1 r.1 (simp over (ground arith))
    | inr runs ↦
        collect_batches-rounds ws (round c w s).1 r.1 (ground (arith, round-rounds w s r.0 runs))
  ]

-- Where the next item is ready whenever the loop waits, the generator returns within two rounds for
-- each item and one more, however the timer fires.
pub collect_batches_returns :
    {A : Type 0} (c : BatchConfig) (ws : List Wake) (fails : Bool) (items : List A)
    → All IsReady ws
    → 2 * length items + 1 ≤ length ws
    → (collect_batches c ws (start_of fails items)).1.returned ≡ true
collect_batches_returns c ws fails items ready enough =
    collect_batches-rounds c ws (start_of fails items) ready (omega (arith, enough))
