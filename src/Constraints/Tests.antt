-- ===== src/Constraints/Tests.antt =====
-- The bounds of a whole number from 0 to 9.
use conduit_connector_sdk_py.Prelude.{◌≡◌, refl, Bool, true, List, [], ◌∷◌, ℤ, pos, all, ok}
use conduit_connector_sdk_py.Prelude.Decimal.{Str, codes, show, show_ℕ}
use conduit_connector_sdk_py.Constraints.{
  int_field, Constraint, ge, lt, Validation, greater_than, less_than, constraint_validations,
  validation, approximate_ge_as_gt, moved, format_bound,
}
use conduit_connector_sdk_py.Constraints.Exact.{admits, meets, constraint_validations-exact}

abbrev no_pattern : Str → ℤ → Bool
no_pattern p x = true

abbrev bounds : List Constraint
bounds = ge (pos 0) ∷ lt (pos 10) ∷ []

abbrev sent : List Validation
sent = greater_than (codes "-1") ∷ less_than (codes "10") ∷ []

constraint_validations-bounds : constraint_validations int_field bounds ≡ ok sent
unfolding constraint_validations validation approximate_ge_as_gt moved format_bound show show_ℕ
    conduit_connector_sdk_py.Prelude.◌-ℤ◌
constraint_validations-bounds = refl

constraint_validations-exact_example :
    all (λ v. admits no_pattern int_field (pos 9) v) sent
    ≡ all (λ c. meets no_pattern (pos 9) c) bounds
constraint_validations-exact_example =
    constraint_validations-exact no_pattern int_field bounds sent (pos 9) (tt, (tt, tt))
      constraint_validations-bounds
