-- ===== src/Source/Reads.antt =====
-- `Run` of the source over its read loop, from the calls of `read` to the responses.
use conduit_connector_sdk_py.Prelude.{
  ◌≡◌, refl, ◌⊎◌, ap, sym, ◌∙◌, ℕ, zero, suc, ◌≤◌, Bool, true, false, Option, none, some, List, [],
  ◌∷◌, ◌++◌, concat, arith, length, ok,
}
use conduit_connector_sdk_py.Record.{Record}
use conduit_connector_sdk_py.Record.Wire.{records_to_proto}
use conduit_connector_sdk_py.Batch.Collect.{Wake, start_of, collect_batches}
use conduit_connector_sdk_py.Source.{
  ReadOutcome, read_record, backoff_retry, read_error, Read, Servicer, run, last_of, stop,
}
use conduit_connector_sdk_py.Source.Backoff.{Backoff, fresh, duration}
use conduit_connector_sdk_py.Source.ReadLoop.{
  Loop, End, stopped, records_of, back_off, on_read, loop_from, read_loop,
}
use conduit_connector_sdk_py.Source.Sent.{position_or}

abbrev record_in : {M : Type 0} → ReadOutcome M → List (Record M) → List (Record M)
record_in (read_record r) rs = r ∷ rs
record_in backoff_retry rs = rs
record_in read_error rs = rs

module _ {M W : Type 0} (read : Read M W) where
  -- The records among what `read` gives when it is called `n` times, one call after the other, and
  -- the world after that.
  abbrev pub reads : ℕ → W → List (Record M)
  reads zero w = []
  reads (suc n) w = record_in (read w).0 (reads n (read w).1)

  abbrev pub world_after : ℕ → W → W
  world_after zero w = w
  world_after (suc n) w = world_after n (read w).1

  -- the loop has called `read` `n` times, and nothing it gave is missing or repeated
  abbrev pub IsSerial : ℕ → W → Loop M W → Type 0
  IsSerial n w l = (records_of l.steps ≡ reads n w) × (l.world ≡ world_after n w)

  abbrev Serial : ℕ → W → Loop M W → Type 0
  Serial k w l = (n : ℕ) × (n ≤ k) × IsSerial n w l

  back_off-Serial :
      (loop : Backoff → W → Loop M W) (k : ℕ) (o : Option (ℕ × Backoff)) (w : W)
      → ((b : Backoff) → Serial k w (loop b w))
      → Serial k w (back_off read loop o w)
  unfolding back_off
  back_off-Serial loop k none w h = (0, omega arith, (refl, refl))
  back_off-Serial loop k (some (delay, b)) w h = h b

  on_read-Serial :
      (loop : Backoff → W → Loop M W) (k : ℕ) (b : Backoff) (w : W) (o : ReadOutcome M) (w' : W)
      → (read w).0 ≡ o
      → (read w).1 ≡ w'
      → ((b' : Backoff) → Serial k w' (loop b' w'))
      → Serial (suc k) w (on_read read loop b (o, w'))
  unfolding on_read
  on_read-Serial loop k b w (read_record r) w' e e' h =
      let (n, low, (records, world)) = h fresh in
      (
        suc n,
        omega (arith, low),
        (rw (e, e') (ap (λ rs. r ∷ rs) records), world ∙ ap (world_after n) (sym e')),
      )
  on_read-Serial loop k b w backoff_retry w' e e' h =
      let (n, low, (records, world)) = back_off-Serial loop k (duration b) w' h in
      (suc n, omega (arith, low), (rw (e, e') records, world ∙ ap (world_after n) (sym e')))
  on_read-Serial loop k b w read_error w' e e' h = (1, omega arith, (rw e refl, rw e' refl))

  loop_from-Serial :
      (schedule : List Bool) (b : Backoff) (w : W)
      → Serial (length schedule) w (loop_from read schedule b w)
  unfolding loop_from
  loop_from-Serial [] b w = (0, omega arith, (refl, refl))
  loop_from-Serial (true ∷ later) b w = (0, omega arith, (refl, refl))
  loop_from-Serial (false ∷ later) b w =
      on_read-Serial (λ b' w'. loop_from read later b' w') (length later) b w (read w).0 (read w).1
        refl refl (λ b'. loop_from-Serial later b' (read w).1)

  -- The read loop calls `read` serially, at most once in a turn: for some number of calls, it has
  -- yielded exactly the records that these gave, in order, and the world is as they left it.
  pub read_loop-IsSerial :
      (schedule : List Bool) (w : W)
      → (n : ℕ) × (n ≤ length schedule) × IsSerial n w (read_loop read schedule w)
  read_loop-IsSerial schedule w = loop_from-Serial schedule fresh w

-- whether the loop does not come to its end by the stop event: it has raised, or still reads
abbrev pub is_cut : End → Bool
is_cut stopped = false
is_cut e = true

-- What the connector has read, and how much of it is on the wire: all, unless the loop did not come
-- to its end, or the batcher has not.
abbrev pub Delivers :
    {M S W : Type 0}
    → Read M W
    → (M → Option S)
    → Bool
    → List Bool
    → List Wake
    → W
    → Servicer
    → Type 0
Delivers {M} read of_mapping ack_raises schedule wakes w s =
    let l = read_loop read schedule w in
    let (out, s') = run of_mapping ack_raises wakes (is_cut l.end) (records_of l.steps) s in
    (n : ℕ) × (sent : List (Record M)) × (rest : List (Record M)) × (n ≤ length schedule)
    × (reads read n w ≡ sent ++ rest)
    × (records_to_proto of_mapping sent ≡ ok (concat out))
    × (stop s' ≡ position_or s.last_position (last_of sent))
    × ((rest ≡ [])
        ⊎ ((is_cut l.end ≡ true)
            ⊎ ((collect_batches s.batch_config wakes
                  (start_of (is_cut l.end) (records_of l.steps))).1.returned
                ≡ false)))
