-- ===== src/Source/Sent.antt =====
-- What `Run` of the source sends, and the position that `Stop` reports.
use mathlib.Core.Path.{subst}
use conduit_connector_sdk_py.Prelude.{
  ◌≡◌, refl, ap, sym, ◌∙◌, ◌≤◌, Bool, true, false, append-nil, Option, none, some, List, [], ◌∷◌,
  ◌++◌, map, concat, arith, Bool-cases, inl, inr, All, Result, ok, length, Option-cases,
}
use conduit_connector_sdk_py.Record.{Bytes, Record}
use conduit_connector_sdk_py.Record.Wire.{
  WireRecord, CodecError, traverse, record_to_proto, records_to_proto,
}
use conduit_connector_sdk_py.Batch.{BatchConfig, enabled}
use conduit_connector_sdk_py.Batch.Collect.{Wake, start_of, collect_batches}
use conduit_connector_sdk_py.Batch.Ends.{collect_batches-rest}
use conduit_connector_sdk_py.Batch.Order.{held, collect_batches-keeps_items}
use conduit_connector_sdk_py.Batch.Sizes.{InBounds, collect_batches-InBounds}
use conduit_connector_sdk_py.Source.{Servicer, finish, last_of, emit, send_batch, send_batches, run}

-- the first of the two that is there
abbrev pub position_or : Bytes → Option Bytes → Bytes
position_or p none = p
position_or p (some q) = q

module _ {A B : Type 0} (f : A → Result CodecError B) where
  abbrev pub Succeeds : A → Type 0
  Succeeds x = (y : B) × (f x ≡ ok y)

  -- the results
  abbrev made : (xs : List A) → All Succeeds xs → List B
  made [] h = []
  made (x ∷ xs) (h, hs) = h.0 ∷ made xs hs

  traverse-made : (xs : List A) (h : All Succeeds xs) → traverse f xs ≡ ok (made xs h)
  unfolding traverse
  traverse-made [] h = refl
  traverse-made (x ∷ xs) ((y, e), h) = rw (e, traverse-made xs h) refl

  traverse-append :
      (xs ys : List A) (h : All Succeeds xs) (vs : List B)
      → traverse f ys ≡ ok vs
      → traverse f (xs ++ ys) ≡ ok (made xs h ++ vs)
  unfolding traverse
  traverse-append [] ys h vs e = e
  traverse-append (x ∷ xs) ys ((y, d), h) vs e = rw (d, traverse-append xs ys h vs e) refl

All-split : {A : Type 0} (P : A → Type 0) (xs ys : List A) → All P (xs ++ ys) → All P xs × All P ys
All-split P [] ys h = (tt, h)
All-split P (x ∷ xs) ys (p, h) = let (l, r) = All-split P xs ys h in ((p, l), r)

last_of-cons :
    {M : Type 0} (p : Bytes) (x : Record M) (xs : List (Record M))
    → position_or p (last_of (x ∷ xs)) ≡ position_or x.position (last_of xs)
unfolding last_of
last_of-cons p x xs = elim (Option-cases (last_of xs)) [
  | inl e ↦ rw e refl
  | inr (q, e) ↦ rw e refl
]

last_of-append :
    {M : Type 0} (p : Bytes) (xs ys : List (Record M))
    → position_or p (last_of (xs ++ ys)) ≡ position_or (position_or p (last_of xs)) (last_of ys)
unfolding last_of
last_of-append p [] ys = refl
last_of-append p (x ∷ xs) ys =
    last_of-cons p x (xs ++ ys)
    ∙ last_of-append x.position xs ys
    ∙ ap (λ q. position_or q (last_of ys)) (sym (last_of-cons p x xs))

last_of-Some :
    {M : Type 0} (x : Record M) (xs : List (Record M)) → (p : Bytes) × (last_of (x ∷ xs) ≡ some p)
unfolding last_of
last_of-Some x xs = elim (Option-cases (last_of xs)) [
  | inl e ↦ (x.position, rw e refl)
  | inr (q, e) ↦ (q, rw e refl)
]

last_of-nil : (M : Type 0) (p : Bytes) → p ≡ position_or p (last_of {M = M} [])
unfolding last_of
last_of-nil M p = refl

traverse-nil : {A B : Type 0} (f : A → Result CodecError B) → traverse f [] ≡ ok []
unfolding traverse
traverse-nil f = refl

concat-singletons : {A : Type 0} (xs : List A) → concat (map (λ x. x ∷ []) xs) ≡ xs
concat-singletons [] = refl
concat-singletons (x ∷ xs) = ap (λ ys. x ∷ ys) (concat-singletons xs)

singletons-NonEmpty : {A : Type 0} (xs : List A) → All (λ b. 1 ≤ length b) (map (λ x. x ∷ []) xs)
singletons-NonEmpty [] = tt
singletons-NonEmpty (x ∷ xs) = (omega arith, singletons-NonEmpty xs)

InBounds-NonEmpty :
    {A : Type 0} (c : BatchConfig) (bs : List (List A))
    → All (InBounds c) bs
    → All (λ b. 1 ≤ length b) bs
InBounds-NonEmpty c [] h = tt
InBounds-NonEmpty c (b ∷ bs) (h, hs) = (h.0, InBounds-NonEmpty c bs hs)

finish-last : (raises : Bool) (s : Servicer) → (finish raises s).last_position ≡ s.last_position
finish-last true s = refl
finish-last false s = refl

module _ {M S : Type 0} (of_mapping : M → Option S) where
  abbrev pub IsEncodable : Record M → Type 0
  IsEncodable r = Succeeds (record_to_proto of_mapping) r

module _ {M S : Type 0} (of_mapping : M → Option S) (ack_raises : Bool) where
  -- the responses carry the records, and the last one's position is kept
  abbrev pub Sends : List (Record M) → Servicer → List (List (WireRecord S)) × Servicer → Type 0
  Sends rs s out =
      (records_to_proto of_mapping rs ≡ ok (concat out.0))
      × (out.1.last_position ≡ position_or s.last_position (last_of rs))

  send_batches-Sends :
      (batches : List (List (Record M))) (s : Servicer)
      → All (λ b. 1 ≤ length b) batches
      → All (IsEncodable of_mapping) (concat batches)
      → Sends (concat batches) s (send_batches of_mapping ack_raises batches s)
  unfolding send_batches send_batch emit
  send_batches-Sends [] s h k = (
    traverse-nil (record_to_proto of_mapping),
    finish-last ack_raises s ∙ last_of-nil M s.last_position,
  )
  send_batches-Sends ([] ∷ batches) s (h, hs) k = ground arith
  send_batches-Sends ((x ∷ xs) ∷ batches) s (h, hs) k =
      let (now, later) = All-split (IsEncodable of_mapping) (x ∷ xs) (concat batches) k in
      let (p, last) = last_of-Some x xs in
      let all = made (record_to_proto of_mapping) (x ∷ xs) now in
      let (encoded, position) =
        send_batches-Sends batches (record s { last_position = p }) hs later in
      rw last (
        rw (traverse-made (record_to_proto of_mapping) (x ∷ xs) now) (
          traverse-append (record_to_proto of_mapping) (x ∷ xs) (concat batches) now _ encoded,
          position
              ∙ ap (λ q. position_or (position_or s.last_position q) (last_of (concat batches)))
                  (sym last)
              ∙ sym (last_of-append s.last_position (x ∷ xs) (concat batches)),
        ))

  -- How far `Run` has come: the responses carry the first of the records, encoded and in their order,
  -- `Stop` reports the position of the last of these, or the one from before if there was none, and
  -- none is left where the loop did not raise and the batcher, where it is on, has returned.
  abbrev pub Carries :
      List Wake → Bool → List (Record M) → Servicer → List (Record M) → List (Record M) → Type 0
  Carries wakes fails records s sent rest =
      (records ≡ sent ++ rest)
      × Sends sent s (run of_mapping ack_raises wakes fails records s)
      × (fails ≡ false
          → (enabled s.batch_config ≡ true
              → (collect_batches s.batch_config wakes (start_of fails records)).1.returned ≡ true)
          → rest ≡ [])

  batched-Carries :
      (wakes : List Wake) (fails : Bool) (records : List (Record M)) (s : Servicer)
      → enabled s.batch_config ≡ true
      → All (IsEncodable of_mapping) records
      → (sent : List (Record M)) × (rest : List (Record M)) × Carries wakes fails records s sent
          rest
  unfolding run
  batched-Carries wakes fails records s on k =
      let (batches, c) = collect_batches s.batch_config wakes (start_of fails records) in
      let whole = collect_batches-keeps_items s.batch_config wakes fails records in
      (
        concat batches,
        c.buffer ++ (held c.next_task ++ c.items),
        (
          sym whole,
          simp on (
              send_batches-Sends batches (record s { run_started = true })
                (InBounds-NonEmpty s.batch_config batches
                  (collect_batches-InBounds s.batch_config wakes fails records).0)
                (All-split (IsEncodable of_mapping) (concat batches)
                  (c.buffer ++ (held c.next_task ++ c.items))
                  (subst (All (IsEncodable of_mapping)) (sym whole) k)).0),
          λ f over. nothing fails f (over on),
        ),
      )
    where
      nothing :
          (fails : Bool)
          → fails ≡ false
          → let c = (collect_batches s.batch_config wakes (start_of fails records)).1 in
            c.returned ≡ true → c.buffer ++ (held c.next_task ++ c.items) ≡ []
      nothing false f over = collect_batches-rest s.batch_config wakes records over
      nothing true f over = absurd (ground (arith, f))

  -- In either mode.
  pub run-Carries :
      (wakes : List Wake) (fails : Bool) (records : List (Record M)) (s : Servicer)
      → All (IsEncodable of_mapping) records
      → (sent : List (Record M)) × (rest : List (Record M)) × Carries wakes fails records s sent
          rest
  unfolding run
  run-Carries wakes fails records s k = elim (Bool-cases (enabled s.batch_config)) [
    | inl on ↦ batched-Carries wakes fails records s on k
    | inr off ↦ (
      records,
      [],
      (
        sym (append-nil records),
        simp off (
            subst
              (λ rs. Sends rs s (
                send_batches of_mapping ack_raises (map (λ r. r ∷ []) records)
                  (record s { run_started = true })))
              (concat-singletons records)
              (send_batches-Sends (map (λ r. r ∷ []) records) (record s { run_started = true })
                (singletons-NonEmpty records) (rw (concat-singletons records) k))),
        λ f over. refl,
      ),
    )
  ]
