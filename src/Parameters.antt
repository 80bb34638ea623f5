-- ===== src/Parameters.antt =====
-- The parameters of a configuration class, src/conduit/connector/config.py: `to_parameters`,
-- `_field_to_parameter`, `_resolve_type`, `_unwrap_optional`, `_format_default` and the parsing of
-- durations before validation. What pydantic says of a field is a record; the text that `str` gives
-- of a value of another type, and the moved bounds of a float, come with it.
pub mod Defaults
pub mod Specify
pub mod Merged
mod Tests
use conduit_connector_sdk_py.Prelude.{
  String, Bool, true, false, ◌&&◌, Option, none, some, List, [], ◌∷◌, ◌++◌, map, all, if◌then◌else◌,
  ℤ, Dict, lookup, insert, merge, Result, ok, err, ◌>>=◌, ◌>>◌, raise_if,
}
use conduit_connector_sdk_py.Prelude.Decimal.{Str, codes, show}
use conduit_connector_sdk_py.Duration.{
  Timedelta, DurationError, format_go_duration, parse_go_duration,
}
use conduit_connector_sdk_py.Constraints.{
  int_field, duration_field, Constraint, Validation, greater_than, less_than, regex,
  constraint_validations,
}
use conduit_connector_sdk_py.Batch.{batch_size_key, batch_delay_key}

-- a value of a `Literal`
pub data Literal : Type 0 where
  lit_bool : Bool → Literal
  lit_int : ℤ → Literal
  lit_str : Str → Literal

-- an annotation: `optional` is `X | None` with one X
pub data Annotation : Type 0 where
  optional : Annotation → Annotation
  literal : List Literal → Annotation
  bool_type int_type float_type str_type timedelta_type other_type : Annotation

-- `Parameter.Type`
pub data ParameterType : Type 0 where
  type_bool type_int type_float type_string type_duration : ParameterType

-- the default of a field that is not required; the text is what `str` gives
pub data Default : Type 0 where
  none_default : Default
  bool_default : Bool → Default
  duration_default : Timedelta → Str → Default
  other_default : Str → Default

-- a constraint of a field that is neither a whole number nor a duration, with the text that is sent
pub data OtherConstraint : Type 0 where
  gt_text ge_text lt_text le_text pattern_text : Str → OtherConstraint
  no_constraint : OtherConstraint

-- pydantic's `FieldInfo`; `default` is none where the field is required
pub record FieldInfo : Type 0 where
  pub annotation : Annotation
  pub default : Option Default
  pub description : Str
  pub exclusion : Bool
  pub constraints : List Constraint
  pub other_constraints : List OtherConstraint

-- the wire's validations of a parameter
pub data ParameterValidation : Type 0 where
  required : ParameterValidation
  inclusion : Str → ParameterValidation
  bound : Validation → ParameterValidation

pub record Parameter : Type 0 where
  pub default : Str
  pub description : Str
  pub type : ParameterType
  pub validations : List ParameterValidation

pub data ParameterError : Type 0 where
  exclusion_requested attribute_error : ParameterError
  no_duration : DurationError → ParameterError

-- `_unwrap_optional`
unfoldable pub unwrap_optional : Annotation → Annotation
unwrap_optional (optional a) = a
unwrap_optional a = a

-- `isinstance(v, bool)`, and `isinstance(v, int)`, which a bool is too
abbrev pub is_bool : Literal → Bool
is_bool (lit_bool b) = true
is_bool v = false

abbrev pub is_int : Literal → Bool
is_int (lit_str s) = false
is_int v = true

unfoldable pub literal_type : List Literal → ParameterType
literal_type vs =
    if all is_bool vs then type_bool else if all is_int vs then type_int else type_string

-- `_resolve_type` of an annotation that is unwrapped
unfoldable pub resolved : Annotation → ParameterType × List Literal
resolved (literal vs) = (literal_type vs, vs)
resolved bool_type = (type_bool, [])
resolved int_type = (type_int, [])
resolved float_type = (type_float, [])
resolved str_type = (type_string, [])
resolved timedelta_type = (type_duration, [])
resolved a = (type_string, [])

-- `_resolve_type`
unfoldable pub resolve_type : Annotation → ParameterType × List Literal
resolve_type a = resolved (unwrap_optional a)

-- `str(value)` of a literal
unfoldable pub literal_text : Literal → Str
literal_text (lit_bool true) = codes "True"
literal_text (lit_bool false) = codes "False"
literal_text (lit_int n) = show n
literal_text (lit_str s) = s

unfoldable pub other_validations : List OtherConstraint → List Validation
other_validations [] = []
other_validations (gt_text s ∷ cs) = greater_than s ∷ other_validations cs
other_validations (ge_text s ∷ cs) = greater_than s ∷ other_validations cs
other_validations (lt_text s ∷ cs) = less_than s ∷ other_validations cs
other_validations (le_text s ∷ cs) = less_than s ∷ other_validations cs
other_validations (pattern_text s ∷ cs) = regex s ∷ other_validations cs
other_validations (no_constraint ∷ cs) = other_validations cs

-- `_constraint_validations` with `is_int` and `is_duration`
unfoldable pub bounds_of : ParameterType → FieldInfo → Result DurationError (List Validation)
bounds_of type_int info = constraint_validations int_field info.constraints
bounds_of type_duration info = constraint_validations duration_field info.constraints
bounds_of type info = ok (other_validations info.other_constraints)

-- `_format_default`
unfoldable pub format_default : Default → Str
format_default none_default = []
format_default (bool_default true) = codes "true"
format_default (bool_default false) = codes "false"
format_default (duration_default d s) = s
format_default (other_default s) = s

-- the text of the default; `format_go_duration` fails on what is no duration
unfoldable pub default_text : ParameterType → Option Default → Result ParameterError Str
default_text type none = ok []
default_text type_duration (some none_default) = ok []
default_text type_duration (some (duration_default d s)) = ok (format_go_duration d)
default_text type_duration (some d) = err attribute_error
default_text type (some d) = ok (format_default d)

abbrev pub required_of : Option Default → List ParameterValidation
required_of none = required ∷ []
required_of (some d) = []

abbrev pub parameter : ParameterType → List Literal → List Validation → Str → FieldInfo → Parameter
parameter type literals bounds text info = record {
  default = text;
  description = info.description;
  type = type;
  validations =
      required_of info.default
      ++ (map (λ v. inclusion (literal_text v)) literals ++ map bound bounds);
}

-- an exception of `format_go_duration`'s arithmetic
unfoldable pub of_duration : {A : Type 0} → Result DurationError A → Result ParameterError A
of_duration (ok a) = ok a
of_duration (err e) = err (no_duration e)

-- `_field_to_parameter` once the type is resolved
unfoldable pub typed_parameter :
    FieldInfo → ParameterType × List Literal → Result ParameterError Parameter
typed_parameter info (type, literals) = of_duration (bounds_of type info) >>= λ bounds.
    default_text type info.default >>= λ text. ok (parameter type literals bounds text info)

-- `_field_to_parameter`
unfoldable pub field_to_parameter : FieldInfo → Result ParameterError Parameter
field_to_parameter info =
    if info.exclusion
    then err exclusion_requested
    else typed_parameter info (resolve_type info.annotation)

-- `to_parameters`
unfoldable pub to_parameters : Dict FieldInfo → Result ParameterError (Dict Parameter)
to_parameters [] = ok []
to_parameters ((name, info) ∷ fields) =
    field_to_parameter info >>= λ p. to_parameters fields >>= λ ps. ok ((name, p) ∷ ps)

-- a value of the map that is validated: a text, a duration, or another
pub data ConfigValue : Type 0 where
  text_value : Str → ConfigValue
  duration_value : Timedelta → ConfigValue
  other_value : ConfigValue

abbrev pub is_timedelta : Annotation → Bool
is_timedelta timedelta_type = true
is_timedelta a = false

-- one turn of the loop of `_parse_go_durations_before_validation`
unfoldable pub convert :
    String → FieldInfo → Dict ConfigValue → Result DurationError (Dict ConfigValue)
convert name info data_map =
    if is_timedelta (unwrap_optional info.annotation)
    then elim (lookup name data_map) [
      | some (text_value s) ↦
          parse_go_duration s >>= λ d. ok (insert name (duration_value d) data_map)
      | _ ↦ ok data_map
    ]
    else ok data_map

-- `_parse_go_durations_before_validation` of a mapping
unfoldable pub parse_durations :
    Dict FieldInfo → Dict ConfigValue → Result DurationError (Dict ConfigValue)
parse_durations [] data_map = ok data_map
parse_durations ((name, info) ∷ fields) data_map =
    convert name info data_map >>= λ converted. parse_durations fields converted
