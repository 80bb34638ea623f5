-- ===== src/FieldErrors.antt =====
-- The errors of a configuration, src/conduit/connector/errors.py: `ConfigFieldError`,
-- `config_field_errors`, `format_validation_error` and `ConfigValidationError`. A pydantic error is
-- the list of what `errors()` reports.
use conduit_connector_sdk_py.Prelude.{
  ◌≡◌, refl, ap, List, [], ◌∷◌, ◌++◌, map, length, pos, Result, ok, err,
}
use conduit_connector_sdk_py.Prelude.Decimal.{Str, codes, show}
use conduit_connector_sdk_py.Handshake.{join}

-- one entry of `exc.errors()`: the parts of its location as texts, its type and its message
pub record PydanticError : Type 0 where
  pub loc : List Str
  pub type : Str
  pub msg : Str

pub record ConfigFieldError : Type 0 where
  pub field : Str
  pub code : Str
  pub message : Str

-- `".".join(...) or "<root>"`
abbrev pub or_root : Str → Str
or_root [] = codes "<root>"
or_root (c ∷ s) = c ∷ s

unfoldable pub field_error : PydanticError → ConfigFieldError
field_error e = record { field = or_root (join b'.' e.loc); code = e.type; message = e.msg }

-- `config_field_errors`
unfoldable pub config_field_errors : List PydanticError → List ConfigFieldError
config_field_errors errors = map field_error errors

-- the summary line and a line for each error
unfoldable pub format_errors : List ConfigFieldError → Str
format_errors errors = join b'\n' (
    (codes "invalid config (" ++ (show (pos (length errors)) ++ codes " error(s)):"))
    ∷ map (λ e. codes "  " ++ (e.field ++ (codes ": " ++ e.message))) errors)

-- `format_validation_error`
unfoldable pub format_validation_error : List PydanticError → Str
format_validation_error errors = format_errors (config_field_errors errors)

-- `ConfigValidationError`, with the text of the exception; no errors raise a `ValueError`
pub record ConfigValidationError : Type 0 where
  pub errors : List ConfigFieldError
  pub text : Str

pub data EmptyErrors : Type 0 where
  must_be_non_empty : EmptyErrors

unfoldable pub config_validation_error :
    List ConfigFieldError → Result EmptyErrors ConfigValidationError
config_validation_error [] = err must_be_non_empty
config_validation_error (e ∷ es) = ok (record { errors = e ∷ es; text = format_errors (e ∷ es) })

-- The exception's text and the detail on the wire are the same, however the error is reported.
config_validation_error-format_validation_error :
    (e : PydanticError) (es : List PydanticError)
    → config_validation_error (config_field_errors (e ∷ es))
      ≡ ok (record {
        errors = config_field_errors (e ∷ es);
        text = format_validation_error (e ∷ es);
      })
unfolding config_validation_error config_field_errors format_validation_error
config_validation_error-format_validation_error e es = refl

wire_detail :
    format_validation_error (
      record {
        loc = codes "nested" ∷ codes "url" ∷ [];
        type = codes "missing";
        msg = codes "Field required";
      }
      ∷ record { loc = []; type = codes "value_error"; msg = codes "no" }
      ∷ [])
    ≡ codes "invalid config (2 error(s)):\n  nested.url: Field required\n  <root>: no"
unfolding format_validation_error format_errors config_field_errors field_error join show
    conduit_connector_sdk_py.Prelude.Decimal.show_ℕ
wire_detail = refl
