-- ===== src/Client/Pipeline.antt =====
-- `Pipeline`, the builder of src/conduit/client/pipeline.py, and the requests that it builds. A
-- setting is a Boolean or another object with the text that `str` gives of it; an unset number on
-- the wire is 0. Numbers are taken to fit the wire's integer types.
use conduit_connector_sdk_py.Prelude.{
  Bool, true, false, Option, none, some, List, [], ◌∷◌, ◌++◌, map, ℤ, pos, Dict, merge,
}
use conduit_connector_sdk_py.Prelude.Decimal.{Str, codes}
use conduit_connector_sdk_py.Client.Errors.{or_else}

pub data Object : Type 0 where
  flag : Bool → Object
  object : Str → Object

-- `"true" if v is True else "false" if v is False else str(v)`
unfoldable pub coerce : Object → Str
coerce (flag true) = codes "true"
coerce (flag false) = codes "false"
coerce (object s) = s

unfoldable pub coerce_all : Dict Object → Dict Str
coerce_all [] = []
coerce_all ((k, v) ∷ d) = (k, coerce v) ∷ coerce_all d

-- `_settings`
unfoldable pub settings_of : Option (Dict Object) → Dict Object → Dict Str
settings_of (some settings) kwargs = coerce_all (merge settings kwargs)
settings_of none kwargs = coerce_all (merge [] kwargs)

-- `api_pb2.Connector.Type`, the two values that are sent
pub data ConnectorType : Type 0 where
  type_source type_destination : ConnectorType

-- `_ConnectorSpec`
pub record ConnectorSpec : Type 0 where
  pub type : ConnectorType
  pub plugin : Str
  pub name : Str
  pub settings : Dict Str

-- `_ProcessorSpec`
pub record ProcessorSpec : Type 0 where
  pub plugin : Str
  pub condition : Str
  pub workers : Option ℤ
  pub settings : Dict Str

-- `_DLQSpec`
pub record DlqSpec : Type 0 where
  pub plugin : Str
  pub settings : Dict Str
  pub window_size : Option ℤ
  pub window_nack_threshold : Option ℤ

pub record Pipeline : Type 0 where
  pub id : Str
  pub name : Str
  pub description : Str
  pub connectors : List ConnectorSpec
  pub processors : List ProcessorSpec
  pub dlq_spec : Option DlqSpec

-- `Pipeline.__init__`
unfoldable pub pipeline : Str → Option Str → Str → Pipeline
pipeline id name description = record {
  id = id;
  name = elim name [ some n ↦ n | none ↦ id ];
  description = description;
  connectors = [];
  processors = [];
  dlq_spec = none;
}

abbrev pub connector_spec :
    ConnectorType → Str → Str → Option (Dict Object) → Dict Object → ConnectorSpec
connector_spec type plugin name settings kwargs = record {
  type = type;
  plugin = plugin;
  name = or_else name plugin;
  settings = settings_of settings kwargs;
}

-- `source`
unfoldable pub source : Pipeline → Str → Str → Option (Dict Object) → Dict Object → Pipeline
source p plugin name settings kwargs = record p {
  connectors = p.connectors ++ connector_spec type_source plugin name settings kwargs ∷ [];
}

-- `destination`
unfoldable pub destination : Pipeline → Str → Str → Option (Dict Object) → Dict Object → Pipeline
destination p plugin name settings kwargs = record p {
  connectors = p.connectors ++ connector_spec type_destination plugin name settings kwargs ∷ [];
}

-- `process`
unfoldable pub process :
    Pipeline → Str → Str → Option ℤ → Option (Dict Object) → Dict Object → Pipeline
process p plugin condition workers settings kwargs = record p {
  processors =
      p.processors
      ++ record {
        plugin = plugin;
        condition = condition;
        workers = workers;
        settings = settings_of settings kwargs;
      }
        ∷ [];
}

-- `x if x is not None else d`
abbrev pub given : ℤ → Option ℤ → ℤ
given d (some n) = n
given d none = d

-- `dlq`
unfoldable pub dlq :
    Pipeline → Str → Option ℤ → Option ℤ → Option (Dict Object) → Dict Object → Pipeline
dlq p plugin window_size window_nack_threshold settings kwargs = record p {
  dlq_spec = some (record {
    plugin = plugin;
    settings = settings_of settings kwargs;
    window_size = some (given (pos 1) window_size);
    window_nack_threshold = some (given (pos 0) window_nack_threshold);
  });
}

pub record CreatePipelineRequest : Type 0 where
  pub name : Str
  pub description : Str

pub record CreateConnectorRequest : Type 0 where
  pub type : ConnectorType
  pub plugin : Str
  pub pipeline_id : Str
  pub name : Str
  pub settings : Dict Str

-- `parent_id` is the id of the parent, of type `TYPE_PIPELINE` where it is set
pub record CreateProcessorRequest : Type 0 where
  pub plugin : Str
  pub condition : Str
  pub parent_id : Option Str
  pub workers : ℤ
  pub settings : Dict Str

pub record UpdateDlqRequest : Type 0 where
  pub id : Str
  pub plugin : Str
  pub settings : Dict Str
  pub window_size : ℤ
  pub window_nack_threshold : ℤ

pub record BuildPlan : Type 0 where
  pub create_pipeline : CreatePipelineRequest
  pub create_connectors : List CreateConnectorRequest
  pub create_processors : List CreateProcessorRequest
  pub dlq : Option UpdateDlqRequest

unfoldable pub connector_request : ConnectorSpec → CreateConnectorRequest
connector_request c = record {
  type = c.type;
  plugin = c.plugin;
  pipeline_id = [];
  name = c.name;
  settings = c.settings;
}

unfoldable pub processor_request : ProcessorSpec → CreateProcessorRequest
processor_request p = record {
  plugin = p.plugin;
  condition = p.condition;
  parent_id = none;
  workers = given (pos 0) p.workers;
  settings = p.settings;
}

unfoldable pub dlq_request : DlqSpec → UpdateDlqRequest
dlq_request d = record {
  id = [];
  plugin = d.plugin;
  settings = d.settings;
  window_size = given (pos 0) d.window_size;
  window_nack_threshold = given (pos 0) d.window_nack_threshold;
}

-- `build_requests`
unfoldable pub build_requests : Pipeline → BuildPlan
build_requests p = record {
  create_pipeline = record { name = p.name; description = p.description };
  create_connectors = map connector_request p.connectors;
  create_processors = map processor_request p.processors;
  dlq = elim p.dlq_spec [ some d ↦ some (dlq_request d) | none ↦ none ];
}
