-- ===== src/Constraints.antt =====
-- The bounds of a parameter, src/conduit/connector/config.py: `_constraint_validations` with
-- `_format_bound`, `_approximate_ge_as_gt` and `_approximate_le_as_lt`, for fields of whole numbers
-- and of durations, whose values are whole numbers of microseconds. The float fields, whose bounds
-- are moved by an epsilon, are left out.
pub mod Exact
mod Tests
use conduit_connector_sdk_py.Prelude.{
  List, [], ◌∷◌, ◌++◌, ℤ, pos, ◌+ℤ◌, ◌-ℤ◌, Result, ok, err, ◌>>=◌,
}
use conduit_connector_sdk_py.Prelude.Decimal.{Str, show}
use conduit_connector_sdk_py.Duration.{timedelta, DurationError, format_go_duration}

-- `is_int` or `is_duration`
pub data Kind : Type 0 where
  int_field duration_field : Kind

-- pydantic's constraints: `annotated_types`, one with a pattern, and one with neither
pub data Constraint : Type 0 where
  gt lt ge le : ℤ → Constraint
  pattern : Str → Constraint
  unsupported : Constraint

-- the wire's `Validation`
pub data Validation : Type 0 where
  greater_than less_than regex : Str → Validation

-- `_format_bound`
unfoldable pub format_bound : Kind → ℤ → Str
format_bound int_field v = show v
format_bound duration_field v = format_go_duration v

-- a bound moved by one unit; the sum of two `timedelta`s may overflow
unfoldable pub moved : Kind → ℤ → Result DurationError ℤ
moved int_field v = ok v
moved duration_field v = timedelta v

-- `_approximate_ge_as_gt`
unfoldable pub approximate_ge_as_gt : Kind → ℤ → Result DurationError Str
approximate_ge_as_gt k v = moved k (v -ℤ pos 1) >>= λ u. ok (format_bound k u)

-- `_approximate_le_as_lt`
unfoldable pub approximate_le_as_lt : Kind → ℤ → Result DurationError Str
approximate_le_as_lt k v = moved k (v +ℤ pos 1) >>= λ u. ok (format_bound k u)

-- one turn of the loop: no validation or one
unfoldable pub validation : Kind → Constraint → Result DurationError (List Validation)
validation k (gt v) = ok (greater_than (format_bound k v) ∷ [])
validation k (lt v) = ok (less_than (format_bound k v) ∷ [])
validation k (ge v) = approximate_ge_as_gt k v >>= λ s. ok (greater_than s ∷ [])
validation k (le v) = approximate_le_as_lt k v >>= λ s. ok (less_than s ∷ [])
validation k (pattern p) = ok (regex p ∷ [])
validation k unsupported = ok []

-- `_constraint_validations`
unfoldable pub constraint_validations :
    Kind → List Constraint → Result DurationError (List Validation)
constraint_validations k [] = ok []
constraint_validations k (c ∷ cs) =
    validation k c >>= λ vs. constraint_validations k cs >>= λ ws. ok (vs ++ ws)
