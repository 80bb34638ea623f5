-- ===== src/Destination/Acks.antt =====
-- The acks of one batch (`_write_batch`): which records they are about, and which are positive.
use conduit_connector_sdk_py.Prelude.{
  ◌≡◌, refl, ap, sym, ◌∙◌, ℕ, zero, suc, ◌+◌, Bool, true, false, Option, none, some, List, [], ◌∷◌,
  map, ℤ, pos, mem, get, str_eq, arith, get_elem?, keys, inl, inr, ◌||◌, Bool-cases, IntDict, ok,
}
use conduit_connector_sdk_py.BatchWrite.{
  Message, text, not_reached, unaccounted, BatchWriteError, init,
}
use conduit_connector_sdk_py.BatchWrite.Accounting.{init-IsExhaustive}
use conduit_connector_sdk_py.Record.{Bytes, Record}
use conduit_connector_sdk_py.Destination.{
  Outcome, returned, batch_write_error, exception, base_exception, Ack, no_error, is_positive,
  reason_of, ack_at, acks_from, ack_all, acks_of,
}

-- A message with an empty text, which reads as a positive ack.
abbrev pub is_blank : Message → Bool
is_blank (text s) = str_eq s ""
is_blank (not_reached w i) = false
is_blank (unaccounted i) = false

is_positive_lem :
    (p : Bytes) (e : Message) → is_positive (record { position = p; error = e }) ≡ is_blank e
unfolding is_positive
is_positive_lem p (text s) = refl
is_positive_lem p (not_reached w i) = refl
is_positive_lem p (unaccounted i) = refl

-- What the accounting says of an index: written, or failed with a text that is not blank, or not.
abbrev pub blank_failure : Option Message → Bool
blank_failure none = false
blank_failure (some m) = is_blank m

abbrev pub says_written : BatchWriteError → ℤ → Bool
says_written exc i = mem i exc.success || blank_failure (get i exc.failures)

abbrev pub says : Outcome → ℤ → Bool
says returned i = true
says (batch_write_error exc) i = says_written exc i
says (exception error) i = is_blank error
says base_exception i = false

some_inj : {A : Type 0} {a b : A} → some a ≡ some b → a ≡ b
some_inj e = cc

is_blank-reason_of : (i : ℤ) (o : Option Message) → is_blank (reason_of i o) ≡ blank_failure o
is_blank-reason_of i none = refl
is_blank-reason_of i (some m) = refl

module _ {M : Type 0} where
  positions-ack_all :
      (e : Message) (rs : List (Record M))
      → map (λ a. a.position) (ack_all e rs) ≡ map (λ r. r.position) rs
  positions-ack_all e [] = refl
  positions-ack_all e (r ∷ rs) = ap (λ ps. r.position ∷ ps) (positions-ack_all e rs)

  position-ack_at :
      (exc : BatchWriteError) (i : ℤ) (r : Record M) → (ack_at exc i r).position ≡ r.position
  unfolding ack_at
  position-ack_at exc i r = ground arith

  positions-acks_from :
      (exc : BatchWriteError) (i : ℕ) (rs : List (Record M))
      → map (λ a. a.position) (acks_from exc i rs) ≡ map (λ r. r.position) rs
  unfolding acks_from
  positions-acks_from exc i [] = refl
  positions-acks_from exc i (r ∷ rs) =
      rw (position-ack_at exc (pos i) r, positions-acks_from exc (suc i) rs) refl

  -- Whatever `write` did, if the batch is answered at all, there is one ack for each record, in the
  -- records' order.
  pub positions-acks_of :
      (outcome : Outcome) (rs : List (Record M)) {acks : List Ack}
      → acks_of rs outcome ≡ some acks
      → map (λ a. a.position) acks ≡ map (λ r. r.position) rs
  unfolding acks_of
  positions-acks_of returned rs e =
      ap (map (λ a. a.position)) (sym (some_inj e)) ∙ positions-ack_all no_error rs
  positions-acks_of (batch_write_error exc) rs e =
      ap (map (λ a. a.position)) (sym (some_inj e)) ∙ positions-acks_from exc 0 rs
  positions-acks_of (exception m) rs e =
      ap (map (λ a. a.position)) (sym (some_inj e)) ∙ positions-ack_all m rs
  positions-acks_of base_exception rs e = cc

  is_positive-ack_at :
      (exc : BatchWriteError) (i : ℤ) (r : Record M)
      → is_positive (ack_at exc i r) ≡ says_written exc i
  unfolding ack_at
  is_positive-ack_at exc i r = elim (Bool-cases (mem i exc.success)) [
    | inl t ↦ simp t (is_positive_lem r.position no_error)
    | inr f ↦ simp f (
        is_positive_lem r.position (reason_of i (get i exc.failures))
        ∙ is_blank-reason_of i (get i exc.failures))
  ]

  get_elem-acks_from :
      (exc : BatchWriteError) (i k : ℕ) (rs : List (Record M)) (r : Record M)
      → get_elem? rs k ≡ some r
      → get_elem? (acks_from exc i rs) k ≡ some (ack_at exc (pos (i + k)) r)
  unfolding acks_from
  get_elem-acks_from exc i k [] r e = cc
  get_elem-acks_from exc i zero (x ∷ rs) r e =
      rw (some_inj e) (ap (λ n. some (ack_at exc (pos n) r)) (omega arith))
  get_elem-acks_from exc i (suc k) (x ∷ rs) r e =
      get_elem-acks_from exc (suc i) k rs r e ∙ ap (λ n. some (ack_at exc (pos n) r)) (omega arith)

  acks_from_start :
      (exc : BatchWriteError) (k : ℕ) (rs : List (Record M)) (r : Record M)
      → get_elem? rs k ≡ some r
      → get_elem? (acks_from exc 0 rs) k ≡ some (ack_at exc (pos k) r)
  acks_from_start exc k rs r e =
      get_elem-acks_from exc 0 k rs r e ∙ ap (λ n. some (ack_at exc (pos n) r)) (omega arith)

  get_elem-ack_all :
      (m : Message) (k : ℕ) (rs : List (Record M)) (r : Record M)
      → get_elem? rs k ≡ some r
      → get_elem? (ack_all m rs) k ≡ some (record { position = r.position; error = m })
  get_elem-ack_all m k [] r e = cc
  get_elem-ack_all m zero (x ∷ rs) r e =
      ap (λ y. some (record { position = y.position; error = m })) (some_inj e)
  get_elem-ack_all m (suc k) (x ∷ rs) r e = get_elem-ack_all m k rs r e

  -- The ack of each record of an answered batch has that record's position, and is positive exactly
  -- where the outcome says so: after a return, always; after another exception than a
  -- `BatchWriteError`, where its text is empty; and after a `BatchWriteError`, for the indices that
  -- it counts as written and for the failures whose text is empty.
  pub acks_of-says :
      (outcome : Outcome) (rs : List (Record M)) {acks : List Ack} (k : ℕ) (r : Record M)
      → acks_of rs outcome ≡ some acks
      → get_elem? rs k ≡ some r
      → (a : Ack) × (get_elem? acks k ≡ some a)
        × (a.position ≡ r.position)
        × (is_positive a ≡ says outcome (pos k))
  unfolding acks_of
  acks_of-says returned rs k r e at_k = (
    _,
    ap (λ as'. get_elem? as' k) (sym (some_inj e)) ∙ get_elem-ack_all no_error k rs r at_k,
    refl,
    is_positive_lem r.position no_error,
  )
  acks_of-says (batch_write_error exc) rs k r e at_k = (
    _,
    ap (λ as'. get_elem? as' k) (sym (some_inj e)) ∙ acks_from_start exc k rs r at_k,
    position-ack_at exc (pos k) r,
    is_positive-ack_at exc (pos k) r,
  )
  acks_of-says (exception m) rs k r e at_k = (
    _,
    ap (λ as'. get_elem? as' k) (sym (some_inj e)) ∙ get_elem-ack_all m k rs r at_k,
    refl,
    is_positive_lem r.position m,
  )
  acks_of-says base_exception rs k r e at_k = cc

  -- Where a `BatchWriteError` has passed its constructor and no failure's text is empty, a record of
  -- its batch is acked as a success if and only if the accounting counts its index as written, and
  -- no index that has failed is.
  pub acks_of-IsWritten :
      (n : ℤ) (written : Option ℤ) (success : Option (List ℤ)) (failures : Option (IntDict Message))
      {exc : BatchWriteError}
      → init n written success failures ≡ ok exc
      → ((i : ℤ) → blank_failure (get i exc.failures) ≡ false)
      → (rs : List (Record M)) (k : ℕ) (r : Record M) → get_elem? rs k ≡ some r
      → (a : Ack) × (get_elem? (acks_from exc 0 rs) k ≡ some a)
        × (is_positive a ≡ mem (pos k) exc.success)
        × (mem (pos k) (keys exc.failures) ≡ true → is_positive a ≡ false)
  acks_of-IsWritten n written success failures {exc = exc} built no_blank rs k r at_k =
      let marked = is_positive-ack_at exc (pos k) r in
      let exhaustive = init-IsExhaustive n written success failures built in
      (
        ack_at exc (pos k) r,
        acks_from_start exc k rs r at_k,
        ground (arith, marked, no_blank (pos k)),
        ground (arith, marked, no_blank (pos k), exhaustive.disjoint (pos k)),
      )
