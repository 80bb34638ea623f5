-- ===== src/Source/Paces.antt =====
-- How the read loop waits between retries, and how it ends.
use native.Mathlib.Omega.{pow_step}
use conduit_connector_sdk_py.Prelude.{
  ℕ, zero, suc, ◌+◌, ◌*◌, ◌^◌, ◌≤◌, ◌<◌, ◌≡◌, ◌≢◌, refl, Bool, true, false, List, [], ◌∷◌,
  if◌then◌else◌, arith, All, length, ltb, ltb→lt, lt→ltb, Bool-cases, inl, inr,
}
use conduit_connector_sdk_py.Record.{Record}
use conduit_connector_sdk_py.Source.{ReadOutcome, read_record, backoff_retry, read_error, Read}
use conduit_connector_sdk_py.Source.Backoff.{Backoff, fresh, duration, capped, factor}
use conduit_connector_sdk_py.Source.ReadLoop.{
  Step, yielded, waited, stopped, overflowed, Loop, back_off, on_read, loop_from, read_loop,
}

-- The delay before the retry that follows `n` others: 0.1 seconds at first, then twice as long each
-- time, and never more than 5 seconds.
abbrev pub delay_after : ℕ → ℕ
delay_after zero = 1
delay_after (suc n) = let d = delay_after n in if ltb 50 (2 * d) then 50 else 2 * d

-- The waits of a list of steps, the first after `n` retries in a row; a record ends the row.
abbrev pub IsPaced : {M : Type 0} → ℕ → List (Step M) → Type 0
IsPaced n [] = Unit {0}
IsPaced n (yielded r ∷ steps) = IsPaced 0 steps
IsPaced n (waited d ∷ steps) = (d ≡ delay_after n) × IsPaced (suc n) steps

capped-pow : (n : ℕ) → capped (1 * factor ^ n) ≡ delay_after n
capped-pow zero = refl
capped-pow (suc n) = ground (arith, pow_step 2 n, capped-pow n)

module _ {M W : Type 0} (read : Read M W) where
  back_off-IsPaced :
      (loop : Backoff → W → Loop M W) (b : Backoff) (w : W)
      → ((b' : Backoff) (w' : W) → IsPaced b'.attempt (loop b' w').steps)
      → IsPaced b.attempt (back_off read loop (duration b) w).steps
  unfolding back_off duration
  back_off-IsPaced loop b w h = elim (Bool-cases (ltb b.attempt 1024)) [
    | inl below ↦ simp below (capped-pow b.attempt, h _ w)
    | inr beyond ↦ simp beyond tt
  ]

  on_read-IsPaced :
      (loop : Backoff → W → Loop M W) (b : Backoff) (o : ReadOutcome M × W)
      → ((b' : Backoff) (w' : W) → IsPaced b'.attempt (loop b' w').steps)
      → IsPaced b.attempt (on_read read loop b o).steps
  unfolding on_read
  on_read-IsPaced loop b (read_record r, w) h = h fresh w
  on_read-IsPaced loop b (backoff_retry, w) h = back_off-IsPaced loop b w h
  on_read-IsPaced loop b (read_error, w) h = tt

  loop_from-IsPaced :
      (schedule : List Bool) (b : Backoff) (w : W)
      → IsPaced b.attempt (loop_from read schedule b w).steps
  unfolding loop_from
  loop_from-IsPaced [] b w = tt
  loop_from-IsPaced (true ∷ later) b w = tt
  loop_from-IsPaced (false ∷ later) b w =
      on_read-IsPaced (λ b' w'. loop_from read later b' w') b (read w)
        (λ b' w'. loop_from-IsPaced later b' w')

  -- Whatever the source gives, the waits between retries are 0.1 seconds first, then doubled for each
  -- further retry in a row up to 5 seconds, and start again after each record.
  pub read_loop-IsPaced :
      (schedule : List Bool) (w : W) → IsPaced 0 (read_loop read schedule w).steps
  read_loop-IsPaced schedule w = loop_from-IsPaced schedule fresh w

  -- A source with no record to give, which lets the world go on.
  abbrev pub IsIdle : Type 0
  IsIdle = (w : W) → (read w).0 ≡ backoff_retry

  on_read-overflows :
      (loop : Backoff → W → Loop M W) (b : Backoff) (o : ReadOutcome M × W)
      → o.0 ≡ backoff_retry
      → (b.attempt < 1024 → (loop (record { attempt = suc b.attempt }) o.1).end ≡ overflowed)
      → (on_read read loop b o).end ≡ overflowed
  unfolding on_read back_off duration
  on_read-overflows loop b (read_record r, w) e h = cc
  on_read-overflows loop b (read_error, w) e h = cc
  on_read-overflows loop b (backoff_retry, w) e h = elim (Bool-cases (ltb b.attempt 1024)) [
    | inl below ↦ simp below (h (ltb→lt b.attempt 1024 below))
    | inr beyond ↦ simp beyond refl
  ]

  loop_from-overflows :
      IsIdle
      → (schedule : List Bool) (b : Backoff) (w : W) → All (λ stop. stop ≡ false) schedule
      → b.attempt ≤ 1024
      → 1025 ≤ b.attempt + length schedule
      → (loop_from read schedule b w).end ≡ overflowed
  unfolding loop_from
  loop_from-overflows idle [] b w h low enough = ground arith
  loop_from-overflows idle (stop ∷ later) b w (h, hs) low enough = simp h (
      on_read-overflows (λ b' w'. loop_from read later b' w') b (read w) (idle w)
        (λ below.
          loop_from-overflows idle later _ (read w).1 hs (omega (arith, below))
            (omega (arith, enough))))

  on_read-survives :
      (loop : Backoff → W → Loop M W) (b : Backoff) (o : ReadOutcome M × W)
      → b.attempt < 1024
      → ((b' : Backoff) (w : W) → b'.attempt ≤ suc b.attempt → (loop b' w).end ≢ overflowed)
      → (on_read read loop b o).end ≢ overflowed
  unfolding on_read back_off duration
  on_read-survives loop b (read_record r, w) low h = h fresh w (omega arith)
  on_read-survives loop b (read_error, w) low h = λ e. cc
  on_read-survives loop b (backoff_retry, w) low h =
      simp (lt→ltb b.attempt 1024 low) (h (record { attempt = suc b.attempt }) w (omega arith))

  loop_from-survives :
      (schedule : List Bool) (b : Backoff) (w : W)
      → b.attempt + length schedule ≤ 1024
      → (loop_from read schedule b w).end ≢ overflowed
  unfolding loop_from
  loop_from-survives [] b w low = λ e. cc
  loop_from-survives (true ∷ later) b w low = λ e. cc
  loop_from-survives (false ∷ later) b w low =
      on_read-survives (λ b' w'. loop_from read later b' w') b (read w) (omega (arith, low))
        (λ b' w' near. loop_from-survives later b' w' (omega (arith, low, near)))

  -- For a source that always asks for a retry: no schedule of up to 1024 turns ends the read loop
  -- with `OverflowError`, and each longer one without a stop does, so that the retry counter
  -- overflows after exactly 1024 waits.
  pub read_loop-overflows :
      IsIdle
      → ((schedule : List Bool) (w : W)
          → length schedule ≤ 1024
          → (read_loop read schedule w).end ≢ overflowed)
        × ((schedule : List Bool) (w : W)
            → All (λ stop. stop ≡ false) schedule
            → 1025 ≤ length schedule
            → (read_loop read schedule w).end ≡ overflowed)
  read_loop-overflows idle = (
    λ schedule w low. loop_from-survives schedule fresh w (omega (arith, low)),
    λ schedule w go enough.
        loop_from-overflows idle schedule fresh w go (omega arith) (omega (arith, enough)),
  )

  -- Once the stop event is set the loop reads no more: the record of a read that has come back is
  -- yielded, nothing follows it, and the world is as that read left it.
  read_loop_stops :
      (later : List Bool) (w : W)
      → (read_loop read (true ∷ later) w ≡ record { steps = []; end = stopped; world = w })
        × ((r : Record M)
            → (read w).0 ≡ read_record r
            → read_loop read (false ∷ true ∷ later) w
              ≡ record { steps = yielded r ∷ []; end = stopped; world = (read w).1 })
  unfolding loop_from on_read
  read_loop_stops later w = (refl, λ r e. rw e refl)
