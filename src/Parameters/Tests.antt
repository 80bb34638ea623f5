-- ===== src/Parameters/Tests.antt =====
-- A class with a duration of five seconds, a required bounded number and a literal Boolean.
use conduit_connector_sdk_py.Prelude.{
  ◌≡◌, refl, ap, true, false, none, some, [], ◌∷◌, pos, Dict, lookup, insert, merge, ok, arith,
}
use conduit_connector_sdk_py.Prelude.Decimal.{codes, show, show_ℕ}
use conduit_connector_sdk_py.Duration.{
  format_go_duration, format_magnitude, format_clock, format_scaled,
}
use conduit_connector_sdk_py.Constraints.{
  ge, greater_than, constraint_validations, validation, approximate_ge_as_gt, moved, format_bound,
}
use conduit_connector_sdk_py.Parameters.{
  lit_bool, literal, int_type, timedelta_type, optional, bool_default, duration_default, FieldInfo,
  Parameter, inclusion, required, bound, type_bool, type_int, type_duration, to_parameters,
  field_to_parameter, typed_parameter, of_duration, bounds_of, default_text, format_default,
  literal_text, literal_type, resolve_type, resolved, unwrap_optional, other_validations,
  parse_durations, text_value, duration_value,
}
use conduit_connector_sdk_py.Batch.{batch_size_key, batch_delay_key}
use conduit_connector_sdk_py.Parameters.Specify.{
  sdk_batch_parameters, advertised_params, a_source, Specification, SpecifyResponse, specify,
}
use conduit_connector_sdk_py.Parameters.Merged.{IsDict, Specified, specify-Specified}
use conduit_connector_sdk_py.Parameters.Defaults.{to_parameters-parse_durations}

abbrev interval : FieldInfo
interval = record {
  annotation = optional timedelta_type;
  default = some (duration_default (pos 5000000) (codes "0:00:05"));
  description = [];
  exclusion = false;
  constraints = [];
  other_constraints = [];
}

abbrev limit : FieldInfo
limit = record {
  annotation = int_type;
  default = none;
  description = codes "a limit";
  exclusion = false;
  constraints = ge (pos 1) ∷ [];
  other_constraints = [];
}

abbrev always : FieldInfo
always = record {
  annotation = literal (lit_bool true ∷ []);
  default = some (bool_default true);
  description = [];
  exclusion = false;
  constraints = [];
  other_constraints = [];
}

abbrev fields_of : Dict FieldInfo
fields_of = ("interval", interval) ∷ ("limit", limit) ∷ ("always", always) ∷ []

-- the only value that the last parameter includes is not the text of its default
abbrev parameters : Dict Parameter
parameters =
    (
      "interval",
      record { default = codes "5s"; description = []; type = type_duration; validations = [] },
    )
    ∷ (
      "limit",
      record {
        default = [];
        description = codes "a limit";
        type = type_int;
        validations = required ∷ bound (greater_than (codes "0")) ∷ [];
      },
    )
    ∷ (
      "always",
      record {
        default = codes "true";
        description = [];
        type = type_bool;
        validations = inclusion (codes "True") ∷ [];
      },
    )
    ∷ []

to_parameters-fields_of : to_parameters fields_of ≡ ok parameters
unfolding to_parameters field_to_parameter typed_parameter of_duration bounds_of default_text
    format_default literal_text literal_type resolve_type resolved unwrap_optional other_validations
    constraint_validations validation approximate_ge_as_gt moved format_bound show show_ℕ
    conduit_connector_sdk_py.Prelude.◌-ℤ◌ format_go_duration format_magnitude format_clock
    format_scaled
to_parameters-fields_of = refl

to_parameters-parse_durations_example :
    (p : Parameter) × (lookup "interval" parameters ≡ some p)
    × (parse_durations fields_of (("interval", text_value p.default) ∷ [])
        ≡ ok (("interval", duration_value (pos 5000000)) ∷ []))
unfolding lookup unwrap_optional
to_parameters-parse_durations_example =
    to_parameters-parse_durations fields_of parameters "interval" interval (pos 5000000)
      to_parameters-fields_of refl (refl, (codes "0:00:05", refl)) (omega arith)

-- a source whose class has a parameter of the SDK's name
abbrev own_size : Dict FieldInfo
own_size = (batch_size_key, limit) ∷ []

abbrev about : Specification
about = record {
  name = codes "own";
  version = codes "v1";
  author = [];
  summary = [];
  description = [];
}

abbrev told : SpecifyResponse
told = record {
  specification = about;
  source_params =
      (
        batch_size_key,
        record {
          default = [];
          description = codes "a limit";
          type = type_int;
          validations = required ∷ bound (greater_than (codes "0")) ∷ [];
        },
      )
      ∷ (
        batch_delay_key,
        record {
          default = codes "0s";
          description = codes "Maximum delay before an incomplete batch is written/read.";
          type = type_duration;
          validations = [];
        },
      )
      ∷ [];
  destination_params = [];
}

specify-told : specify about (a_source own_size) ≡ ok told
unfolding specify advertised_params sdk_batch_parameters merge insert to_parameters
    field_to_parameter typed_parameter of_duration bounds_of default_text format_default
    literal_text literal_type resolve_type resolved unwrap_optional other_validations
    constraint_validations validation approximate_ge_as_gt moved format_bound show show_ℕ
    conduit_connector_sdk_py.Prelude.◌-ℤ◌
specify-told = refl

specify-Specified_example : (told.specification ≡ about) × Specified (a_source own_size) told
unfolding IsDict lookup
specify-Specified_example = specify-Specified about (a_source own_size) told (refl, tt) specify-told
