-- ===== src/Serve/Wiring/Tests.antt =====
-- A source with one parameter, for a host that offers the versions 1 and 2.
use conduit_connector_sdk_py.Prelude.{
  ◌≡◌, refl, String, true, false, none, some, [], ◌∷◌, ◌++◌, pos, Dict, lookup, insert, merge, mem,
  ok,
}
use conduit_connector_sdk_py.Prelude.Decimal.{Str, codes, show, show_ℕ, same_text}
use conduit_connector_sdk_py.Handshake.{
  check_magic_cookie, magic_cookie_key, magic_cookie_value, protocol_versions_env, handshake_line,
  format, split, join,
}
use conduit_connector_sdk_py.Introspect.{a_class, resolve_config_class, among_bases}
use conduit_connector_sdk_py.Parameters.{
  FieldInfo, Parameter, bool_type, type_bool, required, to_parameters, field_to_parameter,
  typed_parameter, of_duration, bounds_of, default_text, resolve_type, resolved, unwrap_optional,
  other_validations,
}
use conduit_connector_sdk_py.Parameters.Specify.{
  Specification, sdk_batch_parameters, advertised_params,
}
use conduit_connector_sdk_py.Serve.Wiring.{
  ConnectorClass, Surroundings, source_plugin, answer, address, serve,
}
use conduit_connector_sdk_py.Serve.Wiring.Outcomes.{launch, Outcome}
use conduit_connector_sdk_py.Serve.Wiring.Started.{serve-Outcome}
use conduit_connector_sdk_py.Serve.Wiring.Announced.{announced, serve-announced}

abbrev flag : FieldInfo
flag = record {
  annotation = bool_type;
  default = none;
  description = codes "a flag";
  exclusion = false;
  constraints = [];
  other_constraints = [];
}

abbrev field_of : String → Dict FieldInfo
field_of config = ("flag", flag) ∷ []

abbrev poll_source : ConnectorClass
poll_source = record {
  mro = (record { origin = "Source"; arguments = a_class "Config" ∷ [] } ∷ []) ∷ [];
  instantiable = true;
}

abbrev host_env : Dict Str
host_env = (magic_cookie_key, magic_cookie_value) ∷ (protocol_versions_env, codes "1,2") ∷ []

abbrev about : Specification
about = record {
  name = codes "poll";
  version = codes "v1";
  author = [];
  summary = [];
  description = [];
}

abbrev ordinary : Surroundings
ordinary = record { on_main_thread = true; writes_line = true }

abbrev poll_params : Dict Parameter
poll_params =
    sdk_batch_parameters
    ++ (
      "flag",
      record {
        default = [];
        description = codes "a flag";
        type = type_bool;
        validations = required ∷ [];
      },
    )
      ∷ []

serve-Outcome_example :
    Outcome field_of 4242 about ordinary host_env
      (some poll_source)
      none
      (serve field_of 4242 about ordinary host_env (some poll_source) none)
serve-Outcome_example = serve-Outcome field_of 4242 about ordinary host_env (some poll_source) none

host_env-cookie : check_magic_cookie host_env ≡ ok tt
unfolding check_magic_cookie lookup same_text
host_env-cookie = refl

poll_params-told : advertised_params (field_of "Config") ≡ ok poll_params
unfolding advertised_params sdk_batch_parameters merge insert to_parameters field_to_parameter
    typed_parameter of_duration bounds_of default_text resolve_type resolved unwrap_optional
    other_validations
poll_params-told = refl

serve-announced_example :
    (serve field_of 4242 about ordinary host_env (some poll_source) none ≡ (
      ok (record { port = 4242; specified = answer about poll_params [] }),
      launch source_plugin (pos 2) 4242,
    ))
    × (split b'|' (format (handshake_line (pos 2) (address 4242))) ≡ announced 4242)
unfolding lookup mem resolve_config_class among_bases join show_ℕ show
serve-announced_example =
    serve-announced field_of 4242 about ordinary host_env poll_source (pos 1) (pos 2 ∷ [])
      poll_params "Config" (refl, refl) host_env-cookie refl refl refl refl poll_params-told
