-- ===== src/Destination/Drain.antt =====
-- The shutdown of the destination: `drain`, and the `finally` of `Run`.
use conduit_connector_sdk_py.Prelude.{
  ◌≡◌, refl, true, false, Option, none, some, List, [], ◌∷◌, ◌++◌, concat, arith, Bool-cases, inl,
  inr, ◌||◌, All,
}
use conduit_connector_sdk_py.Record.{Record}
use conduit_connector_sdk_py.Batch.{BatchConfig, enabled}
use conduit_connector_sdk_py.Batch.Collect.{Wake, start, collect_batches}
use conduit_connector_sdk_py.Batch.Order.{collect_batches-keeps_items}
use conduit_connector_sdk_py.Batch.Sizes.{InBounds, collect_batches-InBounds}
use conduit_connector_sdk_py.Destination.{
  Ack, Write, write_batch, Servicer, Arrival, respond, on_request, run_passthrough,
  flatten_incoming, write_batches, run_batched, run, drain,
}

nil_of_concat :
    {A : Type 0} (c : BatchConfig) (out : List (List A)) (rest : List A)
    → All (InBounds c) out
    → concat out ++ rest ≡ []
    → out ≡ []
nil_of_concat c [] rest h e = refl
nil_of_concat c ([] ∷ out) rest h e = ground arith
nil_of_concat c ((x ∷ xs) ∷ out) rest h e = cc

collect_batches-nil :
    {A : Type 0} (c : BatchConfig) (wakes : List Wake)
    → (collect_batches c wakes (start {A = A} [])).0 ≡ []
collect_batches-nil c wakes =
    nil_of_concat c _ _ (collect_batches-InBounds c wakes false []).0
      (collect_batches-keeps_items c wakes false [])

module _ {M W : Type 0} (write : Write M W) where
  -- no response, and the world as it was
  abbrev Silent : Servicer W → List (List Ack) × Servicer W → Type 0
  Silent s r = (r.0 ≡ []) × (r.1.world ≡ s.world)

  on_request-Silent :
      (loop : Servicer W → List (List Ack) × Servicer W) (request : Option (List (Record M)))
      (s : Servicer W)
      → s.stop_event ≡ true
      → Silent s (loop s)
      → Silent s (on_request write loop request s)
  unfolding on_request
  on_request-Silent loop none s e h = h
  on_request-Silent loop (some rs) s e h = simp e (refl, refl)

  run_passthrough-Silent :
      (arrivals : List (Arrival M)) (s : Servicer W)
      → s.stop_event ≡ true
      → Silent s (run_passthrough write arrivals s)
  unfolding run_passthrough
  run_passthrough-Silent [] s e = (refl, refl)
  run_passthrough-Silent (a ∷ later) s e =
      on_request-Silent (λ s'. run_passthrough write later s') a.request
        (record s { stop_event = s.stop_event || a.stop }) (rw e refl)
        (run_passthrough-Silent later (record s { stop_event = s.stop_event || a.stop })
          (rw e refl))

  flatten_incoming-stopped : (arrivals : List (Arrival M)) → flatten_incoming true arrivals ≡ []
  unfolding flatten_incoming
  flatten_incoming-stopped [] = refl
  flatten_incoming-stopped (a ∷ later) = refl

  run_batched-Silent :
      (wakes : List Wake) (arrivals : List (Arrival M)) (s : Servicer W)
      → s.stop_event ≡ true
      → Silent s (run_batched write wakes arrivals s)
  unfolding run_batched write_batches
  run_batched-Silent wakes arrivals s e =
      simp (e, flatten_incoming-stopped, collect_batches-nil s.batch_config wakes) (refl, refl)

  -- A `Run` that is called once `drain` has set the stop event starts no write, in either mode and
  -- whatever has come on the stream: it sends no response and leaves the world as it is. A `Run`
  -- that was called before, and what it has taken by then, is not the subject here.
  pub drain-starts_no_write :
      (wakes : List Wake) (arrivals : List (Arrival M)) (s : Servicer W)
      → let stopped = (drain s).0 in
        ((run write wakes arrivals stopped).0 ≡ [])
        × ((run write wakes arrivals stopped).1.world ≡ s.world)
  unfolding run drain
  drain-starts_no_write wakes arrivals s = elim (Bool-cases (enabled s.batch_config)) [
    | inl on ↦ simp on (run_batched-Silent wakes arrivals _ refl)
    | inr off ↦ simp off (run_passthrough-Silent arrivals _ refl)
  ]

  -- the `finally` has run
  abbrev Over : List (List Ack) × Servicer W → Type 0
  Over r = (r.1.stopped_event ≡ true)

  respond-Over :
      (loop : Servicer W → List (List Ack) × Servicer W) (s : Servicer W)
      (o : Option (List Ack) × W)
      → ((t : Servicer W) → Over (loop t))
      → Over (respond write loop s o)
  unfolding respond
  respond-Over loop s (none, w) h = refl
  respond-Over loop s (some acks, w) h = h _

  on_request-Over :
      (loop : Servicer W → List (List Ack) × Servicer W) (request : Option (List (Record M)))
      (s : Servicer W)
      → ((t : Servicer W) → Over (loop t))
      → Over (on_request write loop request s)
  unfolding on_request
  on_request-Over loop none s h = h s
  on_request-Over loop (some rs) s h = elim (Bool-cases s.stop_event) [
    | inl e ↦ simp e refl
    | inr e ↦ simp e (respond-Over loop s (write_batch write s.world rs) h)
  ]

  run_passthrough-Over :
      (arrivals : List (Arrival M)) (s : Servicer W) → Over (run_passthrough write arrivals s)
  unfolding run_passthrough
  run_passthrough-Over [] s = refl
  run_passthrough-Over (a ∷ later) s =
      on_request-Over (λ s'. run_passthrough write later s') a.request _
        (λ t. run_passthrough-Over later t)

  write_batches-Over :
      (batches : List (List (Record M))) (s : Servicer W) → Over (write_batches write batches s)
  unfolding write_batches
  write_batches-Over [] s = refl
  write_batches-Over (b ∷ bs) s =
      respond-Over (λ s'. write_batches write bs s') s (write_batch write s.world b)
        (λ t. write_batches-Over bs t)

  -- However `Run` ends, at the end of the stream, at the stop event or with an exception that `write`
  -- lets pass, it sets the event that `drain` waits for: a `drain` after it does not wait.
  pub drain-run :
      (wakes : List Wake) (arrivals : List (Arrival M)) (s : Servicer W)
      → ((run write wakes arrivals s).1.stopped_event ≡ true)
        × ((drain (run write wakes arrivals s).1).1 ≡ false)
  unfolding run drain run_batched
  drain-run wakes arrivals s = elim (Bool-cases (enabled s.batch_config)) [
    | inl on ↦ simp on (let over = write_batches-Over _ _ in (over, ground (arith, over)))
    | inr off ↦
        simp off (let over = run_passthrough-Over arrivals _ in (over, ground (arith, over)))
  ]
