-- ===== src/Batch/Order.antt =====
-- The items in `collect_batches`: those yielded, those buffered, those held and those to come.
use conduit_connector_sdk_py.Prelude.{
  ◌≡◌, refl, ◌∙◌, Bool, true, false, Option, none, some, List, [], ◌∷◌, ◌++◌, append-nil,
  append_assoc, arith, concat, concat-append, Bool-cases, inl, inr,
}
use conduit_connector_sdk_py.Batch.{BatchConfig}
use conduit_connector_sdk_py.Batch.Collect.{
  Task, pending, done, Wake, Collector, start_of, at_end, flush, pull, wait_next, take_item,
  consume, fire, act, round, collect_batches,
}

module _ {A : Type 0} where
  -- an item that `anext` has given and the loop has not looked at yet
  abbrev pub held : Option (Task (Option A)) → List A
  held (some (done (some x))) = x ∷ []
  held _ = []

  -- the items that no batch has yet, in order
  abbrev pub waiting : Collector A → List A
  waiting s = s.buffer ++ (held s.next_task ++ s.items)

  concat-flush : (xs : List A) → concat (flush xs) ≡ xs
  concat-flush [] = refl
  concat-flush (x ∷ xs) = append-nil (x ∷ xs)

  waiting-wait_next :
      (ready : Bool) (s : Collector A) → waiting (wait_next ready s.next_task s) ≡ waiting s
  unfolding wait_next pull
  waiting-wait_next ready s = ground arith

  waiting-take_item :
      (c : BatchConfig) (x : A) (s : Collector A)
      → s.next_task ≡ none
      → concat (take_item c x s).0 ++ waiting (take_item c x s).1 ≡ s.buffer ++ (x ∷ s.items)
  unfolding take_item
  waiting-take_item c x s e =
      ground (arith, append_assoc s.buffer (x ∷ []) s.items, append-nil (s.buffer ++ x ∷ []))

  waiting-at_end :
      (fails : Bool) (s : Collector A)
      → s.next_task ≡ some (done none)
      → concat (at_end fails s).0 ++ waiting (at_end fails s).1 ≡ waiting s
  unfolding at_end
  waiting-at_end false s e = ground (arith, e, concat-flush s.buffer)
  waiting-at_end true s e = ground (arith, e)

  waiting-consume :
      (c : BatchConfig) (t : Option (Task (Option A))) (s : Collector A)
      → s.next_task ≡ t
      → concat (consume c t s).0 ++ waiting (consume c t s).1 ≡ waiting s
  unfolding consume
  waiting-consume c (some (done (some x))) s e =
      waiting-take_item c x (record s { next_task = none }) refl ∙ ground arith
  waiting-consume c (some (done none)) s e = waiting-at_end s.fails s e
  waiting-consume c (some pending) s e = refl
  waiting-consume c none s e = refl

  waiting-act :
      (c : BatchConfig) (d : Option (Task (Unit {0}))) (s : Collector A)
      → concat (act c d s).0 ++ waiting (act c d s).1 ≡ waiting s
  unfolding act
  waiting-act c (some (done t)) s = ground (arith, concat-flush s.buffer)
  waiting-act c (some pending) s =
      waiting-consume c s.next_task (record s { delay_task = some pending }) refl
  waiting-act c none s = waiting-consume c s.next_task (record s { delay_task = none }) refl

  waiting-round :
      (c : BatchConfig) (w : Wake) (s : Collector A)
      → concat (round c w s).0 ++ waiting (round c w s).1 ≡ waiting s
  unfolding round
  waiting-round c w s = elim (Bool-cases s.returned) [
    | inl over ↦ simp over
    | inr runs ↦ simp runs (
        waiting-act c (fire w.timer_fired s.delay_task) (wait_next w.next_ready s.next_task s)
        ∙ waiting-wait_next w.next_ready s)
  ]

  waiting-collect_batches :
      (c : BatchConfig) (ws : List Wake) (s : Collector A)
      → let (out, s') = collect_batches c ws s in concat out ++ waiting s' ≡ waiting s
  unfolding collect_batches
  waiting-collect_batches c [] s = refl
  waiting-collect_batches c (w ∷ ws) s =
      let (out, s') = round c w s in
      let (more, s'') = collect_batches c ws s' in
      rw (concat-append, append_assoc, waiting-collect_batches c ws s') (waiting-round c w s)

pub collect_batches-keeps_items :
    {A : Type 0} (c : BatchConfig) (ws : List Wake) (fails : Bool) (items : List A)
    → let (out, s) = collect_batches c ws (start_of fails items) in
      concat out ++ (s.buffer ++ (held s.next_task ++ s.items)) ≡ items
collect_batches-keeps_items c ws fails items = waiting-collect_batches c ws (start_of fails items)
