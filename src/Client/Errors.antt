-- ===== src/Client/Errors.antt =====
-- The errors of the client, src/conduit/client/errors.py: `ConduitError`, its rendering, and the
-- translation of what a gRPC call raises. `rpc_status.from_call` and the unpacking of a detail are
-- grpc's: their outcome is part of the exception's value here.
use conduit_connector_sdk_py.Prelude.{
  String, Option, none, some, List, [], ◌∷◌, ◌++◌, if◌then◌else◌, Dict, lookup,
}
use conduit_connector_sdk_py.Prelude.Decimal.{Str, codes, same_text}
use conduit_connector_sdk_py.Handshake.{join}

-- `grpc.StatusCode`
pub data StatusCode : Type 0 where
  ok_code cancelled unknown invalid_argument deadline_exceeded not_found already_exists : StatusCode
  permission_denied resource_exhausted failed_precondition aborted out_of_range : StatusCode
  unimplemented internal unavailable data_loss unauthenticated : StatusCode

pub record ConduitError : Type 0 where
  pub message : Str
  pub code : Str
  pub grpc_status_code : StatusCode
  pub config_path : Str
  pub suggestion : Str
  pub docs_url : Str
  pub pipeline_id : Str

-- `ConduitError.__init__` with the message, the code and the status, and the other defaults
unfoldable pub conduit_error : Str → Str → StatusCode → ConduitError
conduit_error message code status = record {
  message = message;
  code = code;
  grpc_status_code = status;
  config_path = [];
  suggestion = [];
  docs_url = [];
  pipeline_id = [];
}

-- `if text: lines.append(label + text)`
unfoldable pub line : Str → Str → List Str
line label [] = []
line label (c ∷ text) = (label ++ c ∷ text) ∷ []

-- `__str__`
unfoldable pub render : ConduitError → Str
render e = join b'\n' (
    (codes "[" ++ e.code ++ codes "] " ++ e.message) ∷ line (codes "  config path: ") e.config_path
    ++ line (codes "  suggestion: ") e.suggestion
    ++ line (codes "  docs: ") e.docs_url
    ++ line (codes "  pipeline id (already created): ") e.pipeline_id)

-- `google.rpc.ErrorInfo`
pub record ErrorInfo : Type 0 where
  pub domain : Str
  pub reason : Str
  pub metadata : Dict Str

-- one detail of a `google.rpc.Status`
pub data Detail : Type 0 where
  error_info : ErrorInfo → Detail
  other_detail : Detail

-- what `rpc_status.from_call` gives: no status, its details, or a `ValueError`
pub data FromCall : Type 0 where
  no_status malformed : FromCall
  details_of : List Detail → FromCall

-- what `grpc.Call` adds to the exception
pub record Call : Type 0 where
  pub code : StatusCode
  pub details : Str
  pub status : FromCall

-- `grpc.RpcError`: its text, and whether it is a call
pub record RpcError : Type 0 where
  pub text : Str
  pub call : Option Call

-- `a or b` on texts
abbrev pub or_else : Str → Str → Str
or_else [] b = b
or_else (c ∷ a) b = c ∷ a

-- `md.get(key, "")`
abbrev pub get_text : String → Dict Str → Str
get_text key md = elim (lookup key md) [ some text ↦ text | none ↦ [] ]

-- `_code_from_status`
unfoldable pub code_from_status : StatusCode → Str
code_from_status unavailable = codes "transport.unavailable"
code_from_status deadline_exceeded = codes "transport.deadline_exceeded"
code_from_status cancelled = codes "transport.cancelled"
code_from_status not_found = codes "common.not_found"
code_from_status invalid_argument = codes "common.invalid_argument"
code_from_status already_exists = codes "common.already_exists"
code_from_status failed_precondition = codes "common.failed_precondition"
code_from_status _ = codes "internal.unknown"

-- `exc.code()`, `exc.details()` and the decoded details, with what stands for them otherwise
unfoldable pub status_of : RpcError → StatusCode
status_of exc = elim exc.call [ some call ↦ call.code | none ↦ unknown ]

unfoldable pub message_of : RpcError → Str
message_of exc = or_else (elim exc.call [ some call ↦ call.details | none ↦ exc.text ]) exc.text

unfoldable pub decoded : RpcError → List Detail
decoded exc = elim exc.call [
  | some call ↦ elim call.status [ details_of ds ↦ ds | _ ↦ [] ]
  | none ↦ []
]

-- the loop over the details: the first one that is Conduit's
unfoldable pub conduit_info : List Detail → Option ErrorInfo
conduit_info [] = none
conduit_info (error_info info ∷ ds) =
    if same_text info.domain (codes "conduit") then some info else conduit_info ds
conduit_info (other_detail ∷ ds) = conduit_info ds

-- `from_rpc_error`
unfoldable pub from_rpc_error : RpcError → ConduitError
from_rpc_error exc = elim (conduit_info (decoded exc)) [
  | some info ↦ record {
    message = message_of exc;
    code = or_else info.reason (codes "internal.unknown");
    grpc_status_code = status_of exc;
    config_path = get_text "configPath" info.metadata;
    suggestion = get_text "suggestion" info.metadata;
    docs_url = get_text "docsUrl" info.metadata;
    pipeline_id = [];
  }
  | none ↦ conduit_error (message_of exc) (code_from_status (status_of exc)) (status_of exc)
]
