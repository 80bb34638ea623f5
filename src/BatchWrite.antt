-- ===== src/BatchWrite.antt =====
-- `BatchWriteError` of src/conduit/connector/errors.py: the accounting of a partial batch write.
-- A failure's exception is kept as its text, `str(exception)`, which is all that the SDK reads of
-- it. The messages of the `ValueError`s that the constructor raises are kept as their parts.
pub mod Accounting
mod Tests
use conduit_connector_sdk_py.Prelude.{
  String, Bool, true, false, not, ◌&&◌, ◌||◌, Option, none, some, List, [], ◌∷◌, ◌++◌,
  if◌then◌else◌, ℤ, pos, leb_ℤ, mem, range, IntDict, keys, tabulate, intersect, minus, is_some,
  Result, ok, err,
}

-- The text of an exception. `not_reached` and `unaccounted` are the two `RuntimeError`s that the
-- SDK makes itself, with the numbers that their texts name.
pub data Message : Type 0 where
  text : String → Message
  not_reached : ℤ → ℤ → Message
  unaccounted : ℤ → Message

-- the `ValueError`s of the constructor and of `partial`
pub data AccountingError : Type 0 where
  both_forms : AccountingError
  written_out_of_range : ℤ → ℤ → AccountingError
  no_accounting : AccountingError
  overlap missing : List ℤ → AccountingError
  out_of_range : List ℤ → ℤ → AccountingError

pub record BatchWriteError : Type 0 where
  pub batch_size : ℤ
  pub success : List ℤ
  pub failures : IntDict Message

abbrev pub is_nil {ℓ} : {A : Type ℓ} → List A → Bool
is_nil [] = true
is_nil (x ∷ xs) = false

-- `written=`
unfoldable pub init_written : ℤ → ℤ → Result AccountingError BatchWriteError
init_written batch_size written =
    if not (leb_ℤ (pos 0) written && leb_ℤ written batch_size)
    then err (written_out_of_range written batch_size)
    else ok (record {
      batch_size = batch_size;
      success = range (pos 0) written;
      failures = tabulate (λ i. not_reached written i) (range written batch_size);
    })

-- `success=` and `failures=`
unfoldable pub init_explicit : ℤ → List ℤ → IntDict Message → Result AccountingError BatchWriteError
init_explicit batch_size success failures =
    let overlapping = intersect success (keys failures) in
    let all_indices = range (pos 0) batch_size in
    let covered = success ++ keys failures in
    let unaccounted_for = minus all_indices covered in
    let outside = minus covered all_indices in
    if not (is_nil overlapping)
    then err (overlap overlapping)
    else if not (is_nil unaccounted_for)
    then err (missing unaccounted_for)
    else if not (is_nil outside)
    then err (out_of_range outside batch_size)
    else ok (record { batch_size = batch_size; success = success; failures = failures })

-- `__init__`; an argument that is left out is `none`
unfoldable pub init :
    ℤ
    → Option ℤ
    → Option (List ℤ)
    → Option (IntDict Message)
    → Result AccountingError BatchWriteError
init batch_size (some written) none none = init_written batch_size written
init batch_size (some written) _ _ = err both_forms
init batch_size none (some success) (some failures) = init_explicit batch_size success failures
init batch_size none _ _ = err no_accounting

-- `partial`
unfoldable pub partial : ℤ → ℤ → Message → Result AccountingError BatchWriteError
partial batch_size written cause =
    if not (leb_ℤ (pos 0) written && leb_ℤ written batch_size)
    then err (written_out_of_range written batch_size)
    else init batch_size none (some (range (pos 0) written))
        (some (tabulate (λ i. cause) (range written batch_size)))
