-- ===== src/BatchWrite/Tests.antt =====
-- The accounting of batches of three records.
use conduit_connector_sdk_py.Prelude.{
  ◌≡◌, ◌↔◌, refl, none, some, [], ◌∷◌, ℤ, pos, mem, range, within, get, tabulate, ok, if◌then◌else◌,
  arith,
}
use conduit_connector_sdk_py.BatchWrite.{text, not_reached, BatchWriteError, init, partial}
use conduit_connector_sdk_py.BatchWrite.Accounting.{IsExhaustive, init_accepts_iff, partial_prefix}

-- two of three written
abbrev two_of_three : BatchWriteError
two_of_three = record {
  batch_size = pos 3;
  success = pos 0 ∷ pos 1 ∷ [];
  failures = (pos 2, not_reached (pos 2) (pos 2)) ∷ [];
}

init-two_of_three : init (pos 3) (some (pos 2)) none none ≡ ok two_of_three
unfolding init conduit_connector_sdk_py.BatchWrite.init_written range tabulate
init-two_of_three = refl

init_accepts_iff_example :
    (init (pos 3) none (some (pos 1 ∷ [])) (some ((pos 0, text "disk full") ∷ []))
      ≡ ok (record {
        batch_size = pos 3;
        success = pos 1 ∷ [];
        failures = (pos 0, text "disk full") ∷ [];
      }))
    ↔ IsExhaustive (record {
      batch_size = pos 3;
      success = pos 1 ∷ [];
      failures = (pos 0, text "disk full") ∷ [];
    })
init_accepts_iff_example = init_accepts_iff (pos 3) (pos 1 ∷ []) ((pos 0, text "disk full") ∷ [])

partial_prefix_example :
    (e : BatchWriteError) × (partial (pos 3) (pos 1) (text "disk full") ≡ ok e)
    × ((i : ℤ) → mem i e.success ≡ within (pos 0) (pos 1) i)
    × ((i : ℤ)
        → get i e.failures ≡ (if within (pos 1) (pos 3) i then some (text "disk full") else none))
partial_prefix_example =
    partial_prefix (pos 3) (pos 1) (text "disk full") (ground arith) (ground arith)
