-- ===== src/Destination/Streams.antt =====
-- A whole `Run` of the destination: which records are written and acked, and when it stops.
use mathlib.Core.List.{map-append}
use conduit_connector_sdk_py.Prelude.{
  false, All, length, length-map, ◌+◌, ◌*◌, ◌≤◌, ◌≡◌, refl, ap, sym, ◌∙◌, Bool, true, Option, none,
  some, List, [], ◌∷◌, ◌++◌, map, concat, if◌then◌else◌, Bool-cases, inl, inr, ◌||◌,
}
use conduit_connector_sdk_py.Record.{Bytes, Record}
use conduit_connector_sdk_py.Batch.{BatchConfig}
use conduit_connector_sdk_py.Batch.Collect.{Wake, start, collect_batches}
use conduit_connector_sdk_py.Batch.Sizes.{InBounds, collect_batches-InBounds}
use conduit_connector_sdk_py.Batch.Progress.{IsReady, collect_batches_returns}
use conduit_connector_sdk_py.Batch.Ends.{collect_batches-yields_all}
use conduit_connector_sdk_py.Destination.{
  Ack, acks_of, Write, write_batch, Servicer, Arrival, respond, on_request, run_passthrough,
  flatten_incoming, write_batches, run_batched,
}
use conduit_connector_sdk_py.Destination.Acks.{positions-acks_of}

map-concat :
    {A B : Type 0} (f : A → B) (xss : List (List A)) → map f (concat xss) ≡ concat (map (map f) xss)
map-concat f [] = refl
map-concat f (xs ∷ xss) =
    map-append f xs (concat xss) ∙ ap (λ ys. map f xs ++ ys) (map-concat f xss)

abbrev pub ack_positions : List Ack → List Bytes
ack_positions acks = map (λ a. a.position) acks

abbrev pub record_positions : {M : Type 0} → List (Record M) → List Bytes
record_positions rs = map (λ r. r.position) rs

positions-InBounds :
    {M : Type 0} (c : BatchConfig) (batches : List (List (Record M)))
    → All (InBounds c) batches
    → All (InBounds c) (map record_positions batches)
positions-InBounds c [] h = tt
positions-InBounds c (b ∷ bs) (h, hs) =
    (rw (length-map b (λ r. r.position)) h, positions-InBounds c bs hs)

abbrev pub accept :
    {M : Type 0} → Option (List (Record M)) → Bool → List (List (Record M)) → List (List (Record M))
accept none stop rest = rest
accept (some records) stop rest = if stop then [] else records ∷ rest

-- The requests that have come before the stop event was set.
abbrev pub accepted : {M : Type 0} → Bool → List (Arrival M) → List (List (Record M))
accepted stop [] = []
accepted stop (a ∷ later) = accept a.request (stop || a.stop) (accepted (stop || a.stop) later)

module _ {M W : Type 0} (write : Write M W) where
  -- A `write` that ends with an `Exception` at worst, so that each batch is answered.
  abbrev pub Answers : Type 0
  Answers =
      (w : W) (rs : List (Record M)) → (acks : List Ack) × (acks_of rs (write w rs).0 ≡ some acks)

  write_batches-positions :
      Answers
      → (batches : List (List (Record M))) (s : Servicer W)
      → map ack_positions (write_batches write batches s).0 ≡ map record_positions batches
  unfolding write_batches write_batch respond
  write_batches-positions h [] s = refl
  write_batches-positions h (b ∷ bs) s =
      let (acks, e) = h s.world b in
      rw e (
        rw
          (
            positions-acks_of (write s.world b).0 b e,
            write_batches-positions h bs (record s { world = (write s.world b).1 }),
          )
          refl)

  -- the same responses, and the same world at the end
  abbrev Agree : List (List Ack) × Servicer W → List (List Ack) × Servicer W → Type 0
  Agree r r' = (r.0 ≡ r'.0) × (r.1.world ≡ r'.1.world)

  respond-Agree :
      (loop loop' : Servicer W → List (List Ack) × Servicer W) (s t : Servicer W)
      (o : Option (List Ack) × W)
      → Agree (loop (record s { world = o.1 })) (loop' (record t { world = o.1 }))
      → Agree (respond write loop s o) (respond write loop' t o)
  unfolding respond
  respond-Agree loop loop' s t (none, w) h = (refl, refl)
  respond-Agree loop loop' s t (some acks, w) (h, same) = (ap (λ more. acks ∷ more) h, same)

  on_request-Agree :
      (loop : Servicer W → List (List Ack) × Servicer W) (request : Option (List (Record M)))
      (rest : List (List (Record M))) (s t : Servicer W)
      → s.world ≡ t.world
      → ((s' t' : Servicer W)
          → s'.stop_event ≡ s.stop_event
          → s'.world ≡ t'.world
          → Agree (loop s') (write_batches write rest t'))
      → Agree
          (on_request write loop request s)
          (write_batches write (accept request s.stop_event rest) t)
  unfolding on_request write_batches
  on_request-Agree loop none rest s t e h = h s t refl e
  on_request-Agree loop (some records) rest s t e h = elim (Bool-cases s.stop_event) [
    | inl stopped ↦ simp stopped (refl, e)
    | inr going ↦
        simp (going, e)
          (respond-Agree loop (λ t'. write_batches write rest t') s t
            (write_batch write t.world records) (h _ _ refl refl))
  ]

  run_passthrough-Agree :
      (arrivals : List (Arrival M)) (s t : Servicer W)
      → s.world ≡ t.world
      → Agree
          (run_passthrough write arrivals s)
          (write_batches write (accepted s.stop_event arrivals) t)
  unfolding run_passthrough write_batches
  run_passthrough-Agree [] s t e = (refl, e)
  run_passthrough-Agree (a ∷ later) s t e =
      on_request-Agree (λ s'. run_passthrough write later s') a.request
        (accepted (s.stop_event || a.stop) later) (record s { stop_event = s.stop_event || a.stop })
        t e (λ s' t' same world. rw (← same) (run_passthrough-Agree later s' t' world))

  -- With batching off, `Run` is the writes of the requests that have come before the stop event, one
  -- after the other: the same responses and the same world, whatever comes later.
  pub run_passthrough-accepted :
      (arrivals : List (Arrival M)) (s : Servicer W)
      → let batches = accepted s.stop_event arrivals in
        ((run_passthrough write arrivals s).0 ≡ (write_batches write batches s).0)
        × ((run_passthrough write arrivals s).1.world ≡ (write_batches write batches s).1.world)
  run_passthrough-accepted arrivals s = run_passthrough-Agree arrivals s s refl

  -- With batching on, if each batch is answered, then once the batcher has returned the acks of all
  -- responses together are those of the records that were taken from the stream: one for each, in
  -- their order, across the requests' borders.
  pub run_batched-acks_all :
      (wakes : List Wake) (arrivals : List (Arrival M)) (s : Servicer W)
      → Answers
      → let records = flatten_incoming s.stop_event arrivals in
        (collect_batches s.batch_config wakes (start records)).1.returned ≡ true
        → concat (map ack_positions (run_batched write wakes arrivals s).0)
          ≡ record_positions records
  unfolding run_batched
  run_batched-acks_all wakes arrivals s h over =
      let records = flatten_incoming s.stop_event arrivals in
      let batches = (collect_batches s.batch_config wakes (start records)).0 in
      ap concat (write_batches-positions h batches _)
      ∙ sym (map-concat (λ r. r.position) batches)
      ∙ ap record_positions (collect_batches-yields_all s.batch_config wakes records over)

  -- With batching on, if each batch is answered and the batcher has two rounds with the next item
  -- ready for each record that the stream gives, and one more, then `Run` answers with one ack for
  -- each of these records, in their order, in responses that are not empty and not above the size
  -- limit.
  pub run_batched-completes :
      (wakes : List Wake) (arrivals : List (Arrival M)) (s : Servicer W)
      → Answers
      → All IsReady wakes
      → 2 * length (flatten_incoming s.stop_event arrivals) + 1 ≤ length wakes
      → let (responses, s') = run_batched write wakes arrivals s in
        (concat (map ack_positions responses)
          ≡ record_positions (flatten_incoming s.stop_event arrivals))
        × All (InBounds s.batch_config) (map ack_positions responses)
  unfolding run_batched
  run_batched-completes wakes arrivals s h ready enough =
      let records = flatten_incoming s.stop_event arrivals in
      let (out, _) = collect_batches s.batch_config wakes (start records) in
      (
        run_batched-acks_all wakes arrivals s h
            (collect_batches_returns s.batch_config wakes false records ready enough),
        rw (write_batches-positions h out _) (
            positions-InBounds s.batch_config out
              (collect_batches-InBounds s.batch_config wakes false records).0),
      )
