-- ===== src/BatchWrite/Accounting.antt =====
-- The accountings of `BatchWriteError`: what its constructor and `partial` accept and refuse.
use conduit_connector_sdk_py.Prelude.{
  ◌≡◌, ◌↔◌, false, ◌&&◌, ◌||◌, Option, none, some, List, [], ◌++◌, arith, if◌then◌else◌, ℤ, pos,
  mem, range, within, mem-range, IntDict, keys, get, keys-tabulate, get-tabulate, mem-intersect,
  mem-minus, mem-append, ◌≤ℤ◌, tabulate, eq-nil_of_mem, intersect, minus, ok, err,
}
use conduit_connector_sdk_py.BatchWrite.{
  Message, not_reached, written_out_of_range, BatchWriteError, init, init_written, init_explicit,
  partial,
}

-- Each index of `range(batch_size)` is in one of the two accountings, and no other index is.
pub record IsExhaustive (e : BatchWriteError) : Type 0 where
  pub covered :
      (i : ℤ) → (mem i e.success || mem i (keys e.failures)) ≡ within (pos 0) e.batch_size i
  pub disjoint : (i : ℤ) → (mem i e.success && mem i (keys e.failures)) ≡ false

module _ (n : ℤ) (s : List ℤ) (f : IntDict Message) where
  abbrev given : BatchWriteError
  given = record { batch_size = n; success = s; failures = f }

  accepted-IsExhaustive : (e : BatchWriteError) → init_explicit n s f ≡ ok e → IsExhaustive e
  unfolding init_explicit mem
  accepted-IsExhaustive e h = record {
    covered = λ i. ground (
      arith,
      mem-minus i all covered,
      mem-minus i covered all,
      mem-append i s (keys f),
      mem-range i (pos 0) n,
    );
    disjoint = λ i. ground (arith, mem-intersect i s (keys f));
  }
    where
      all : List ℤ
      all = range (pos 0) n

      covered : List ℤ
      covered = s ++ keys f

  IsExhaustive-accepted : IsExhaustive given → init_explicit n s f ≡ ok given
  unfolding init_explicit
  IsExhaustive-accepted x = rw (none_overlap, none_missing, none_outside)
    where
      none_overlap : intersect s (keys f) ≡ []
      none_overlap = eq-nil_of_mem _ (λ i. rw mem-intersect (x.disjoint i))

      none_missing : minus (range (pos 0) n) (s ++ keys f) ≡ []
      none_missing =
          eq-nil_of_mem _ (λ i. rw (mem-minus, mem-append, mem-range) (ground (arith, x.covered i)))

      none_outside : minus (s ++ keys f) (range (pos 0) n) ≡ []
      none_outside =
          eq-nil_of_mem _ (λ i. rw (mem-minus, mem-append, mem-range) (ground (arith, x.covered i)))

-- Either form of the arguments, if the constructor accepts it, is an exhaustive accounting.
pub init-IsExhaustive :
    (n : ℤ) (written : Option ℤ) (s : Option (List ℤ)) (f : Option (IntDict Message))
    {e : BatchWriteError}
    → init n written s f ≡ ok e
    → IsExhaustive e
unfolding init init_written
init-IsExhaustive n (some w) none none h = record {
  covered = λ i.
      ground
        (arith, mem-range i (pos 0) w, mem-range i w n, keys-tabulate (not_reached w) (range w n));
  disjoint = λ i.
      ground
        (arith, mem-range i (pos 0) w, mem-range i w n, keys-tabulate (not_reached w) (range w n));
}
init-IsExhaustive n (some w) none (some f) h = cc
init-IsExhaustive n (some w) (some s) f h = cc
init-IsExhaustive n none (some s) (some f) {e = e} h = accepted-IsExhaustive n s f e h
init-IsExhaustive n none (some s) none h = cc
init-IsExhaustive n none none f h = cc

-- An explicit accounting is accepted, unchanged, exactly when it is exhaustive and disjoint.
pub init_accepts_iff :
    (n : ℤ) (s : List ℤ) (f : IntDict Message)
    → (init n none (some s) (some f) ≡ ok (record { batch_size = n; success = s; failures = f }))
      ↔ IsExhaustive (record { batch_size = n; success = s; failures = f })
unfolding init
init_accepts_iff n s f = (accepted-IsExhaustive n s f _, IsExhaustive-accepted n s f)

prefix-IsExhaustive :
    (n w : ℤ) (cause : Message)
    → pos 0 ≤ℤ w
    → w ≤ℤ n
    → IsExhaustive (record {
      batch_size = n;
      success = range (pos 0) w;
      failures = tabulate (λ i. cause) (range w n);
    })
prefix-IsExhaustive n w cause lo hi = record {
  covered = λ i. simp (keys-tabulate, mem-range) (ground arith);
  disjoint = λ i. simp (keys-tabulate, mem-range) (ground arith);
}

-- `partial` with a written prefix that fits the batch succeeds: the indices below `written` are the
-- successes, and every later index of the batch, and no other, has failed with `cause`.
pub partial_prefix :
    (n w : ℤ) (cause : Message)
    → pos 0 ≤ℤ w
    → w ≤ℤ n
    → (e : BatchWriteError) × (partial n w cause ≡ ok e)
      × ((i : ℤ) → mem i e.success ≡ within (pos 0) w i)
      × ((i : ℤ) → get i e.failures ≡ (if within w n i then some cause else none))
unfolding partial init
partial_prefix n w cause lo hi = (
  record {
    batch_size = n;
    success = range (pos 0) w;
    failures = tabulate (λ i. cause) (range w n);
  },
  ground (arith, IsExhaustive-accepted n _ _ (prefix-IsExhaustive n w cause lo hi)),
  λ i. mem-range i (pos 0) w,
  λ i. rw (get-tabulate, mem-range),
)

-- Both ways to give a written prefix refuse one that does not fit the batch.
pub written_out_of_range_refused :
    (n w : ℤ) (cause : Message)
    → ¬ ((pos 0 ≤ℤ w) × (w ≤ℤ n))
    → (partial n w cause ≡ err (written_out_of_range w n))
      × (init n (some w) none none ≡ err (written_out_of_range w n))
unfolding partial init init_written
written_out_of_range_refused n w cause out = ground arith
