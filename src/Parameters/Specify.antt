-- ===== src/Parameters/Specify.antt =====
-- `sdk_batch_parameters` of src/conduit/connector/_batch.py, and the merge of the parameters and
-- `Specify` of src/conduit/connector/serve.py.
use conduit_connector_sdk_py.Parameters.{
  FieldInfo, Parameter, ParameterError, bound, type_int, type_duration, to_parameters,
}
use conduit_connector_sdk_py.Prelude.{[], ◌∷◌, Dict, merge, Result, ok, ◌>>=◌}
use conduit_connector_sdk_py.Prelude.Decimal.{Str, codes}
use conduit_connector_sdk_py.Constraints.{greater_than}
use conduit_connector_sdk_py.Batch.{batch_size_key, batch_delay_key}

-- `sdk_batch_parameters`
unfoldable pub sdk_batch_parameters : Dict Parameter
sdk_batch_parameters =
    (
      batch_size_key,
      record {
        default = codes "0";
        description = codes "Maximum size of batch before it gets written/read.";
        type = type_int;
        validations = bound (greater_than (codes "-1")) ∷ [];
      },
    )
    ∷ (
      batch_delay_key,
      record {
        default = codes "0s";
        description = codes "Maximum delay before an incomplete batch is written/read.";
        type = type_duration;
        validations = [];
      },
    )
    ∷ []

-- `{**sdk_batch_parameters(), **to_parameters(config_cls)}`
unfoldable pub advertised_params : Dict FieldInfo → Result ParameterError (Dict Parameter)
advertised_params fields = to_parameters fields >>= λ own. ok (merge sdk_batch_parameters own)

-- `Specification`, and the response of `Specify`
pub record Specification : Type 0 where
  pub name : Str
  pub version : Str
  pub author : Str
  pub summary : Str
  pub description : Str

pub record SpecifyResponse : Type 0 where
  pub specification : Specification
  pub source_params : Dict Parameter
  pub destination_params : Dict Parameter

-- the class that is served, with its configuration's fields
pub data Served : Type 0 where
  a_source a_destination : Dict FieldInfo → Served

-- `_build_plugin_server` up to the specifier, and `Specify`
unfoldable pub specify : Specification → Served → Result ParameterError SpecifyResponse
specify spec (a_source fields) = advertised_params fields >>= λ ps.
    ok (record { specification = spec; source_params = ps; destination_params = [] })
specify spec (a_destination fields) = advertised_params fields >>= λ ps.
    ok (record { specification = spec; source_params = []; destination_params = ps })
