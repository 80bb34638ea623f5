-- ===== src/Batch/Collect.antt =====
-- `collect_batches` of src/conduit/connector/_batch.py, one round of its loop at a time.
-- The iterator is the list of the items that it will give, and whether it raises after them; a
-- `Wake` says which of the tasks that are waited for have completed when `asyncio.wait` looks. The
-- clock is not modelled: an armed timer may fire at any round. What the generator yields in a round
-- is a list of no or one batch.
use conduit_connector_sdk_py.Prelude.{
  Bool, true, false, ◌&&◌, Option, none, some, List, [], ◌∷◌, ◌++◌, if◌then◌else◌, pos, ltb_ℤ,
  leb_ℤ, length, not, is_some,
}
use conduit_connector_sdk_py.Batch.{BatchConfig}

pub data Task (R : Type 0) : Type 0 where
  pending : Task R
  done : R → Task R

pub record Wake : Type 0 where
  pub next_ready : Bool
  pub timer_fired : Bool

-- The variables of the generator, what is left of `items`, and whether it raises at its end. A result
-- `none` of `next_task` is the sentinel `_STOP`, or that exception; `returned` says that the generator
-- has returned, or raised it.
pub record Collector (A : Type 0) : Type 0 where
  pub buffer : List A
  pub delay_task : Option (Task (Unit {0}))
  pub next_task : Option (Task (Option A))
  pub items : List A
  pub fails : Bool
  pub returned : Bool

-- the timer's task completes while waiting
unfoldable pub fire : Bool → Option (Task (Unit {0})) → Option (Task (Unit {0}))
fire true (some pending) = some (done tt)
fire _ d = d

module _ {A : Type 0} where
  abbrev pub start_of : Bool → List A → Collector A
  start_of fails items = record {
    buffer = [];
    delay_task = none;
    next_task = none;
    items = items;
    fails = fails;
    returned = false;
  }

  -- an iterator that does not raise
  abbrev pub start : List A → Collector A
  start items = start_of false items

  -- what `yield buffer` adds, under `if buffer`
  abbrev pub flush : List A → List (List A)
  flush [] = []
  flush (x ∷ xs) = (x ∷ xs) ∷ []

  -- `anext(items, _STOP)` completes
  unfoldable pub pull : List A → Collector A → Collector A
  pull [] s = record s { next_task = some (done none) }
  pull (x ∷ xs) s = record s { next_task = some (done (some x)); items = xs }

  -- `if next_task is None: next_task = ensure_future(anext(...))`, and what completes while waiting
  unfoldable pub wait_next : Bool → Option (Task (Option A)) → Collector A → Collector A
  wait_next ready (some (done r)) s = s
  wait_next true _ s = pull s.items s
  wait_next false _ s = record s { next_task = some pending }

  -- the branch on an item that is not `_STOP`
  unfoldable pub take_item : BatchConfig → A → Collector A → List (List A) × Collector A
  take_item c x s =
      let buffer = s.buffer ++ x ∷ [] in
      if ltb_ℤ (pos 0) c.size && leb_ℤ c.size (pos (length buffer))
      then (buffer ∷ [], record s { buffer = []; delay_task = none })
      else if ltb_ℤ (pos 0) c.delay && not (is_some s.delay_task)
      then ([], record s { buffer = buffer; delay_task = some pending })
      else ([], record s { buffer = buffer })

  -- `_STOP`, which flushes the buffer, or the iterator's exception, which passes it by
  unfoldable pub at_end : Bool → Collector A → List (List A) × Collector A
  at_end false s = (flush s.buffer, record s { buffer = []; next_task = none; returned = true })
  at_end true s = ([], record s { next_task = none; returned = true })

  -- `if next_task.done(): ...`
  unfoldable pub consume :
      BatchConfig → Option (Task (Option A)) → Collector A → List (List A) × Collector A
  consume c (some (done (some x))) s = take_item c x (record s { next_task = none })
  consume c (some (done none)) s = at_end s.fails s
  consume c _ s = ([], s)

  -- after `asyncio.wait`: a timer that has fired goes first
  unfoldable pub act :
      BatchConfig → Option (Task (Unit {0})) → Collector A → List (List A) × Collector A
  act c (some (done _)) s = (flush s.buffer, record s { buffer = []; delay_task = none })
  act c d s = consume c s.next_task (record s { delay_task = d })

  -- one round of `while True`
  unfoldable pub round : BatchConfig → Wake → Collector A → List (List A) × Collector A
  round c w s =
      if s.returned
      then ([], s)
      else act c (fire w.timer_fired s.delay_task) (wait_next w.next_ready s.next_task s)

  -- the generator under a schedule: the batches that it has yielded, and where it is
  unfoldable pub collect_batches :
      BatchConfig → List Wake → Collector A → List (List A) × Collector A
  collect_batches c [] s = ([], s)
  collect_batches c (w ∷ ws) s =
      let (out, s') = round c w s in let (more, s'') = collect_batches c ws s' in (out ++ more, s'')
