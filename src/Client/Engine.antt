-- ===== src/Client/Engine.antt =====
-- `Client` of src/conduit/client/client.py: `_call`, `get_info`, `run` and `close`, and `connect`.
-- The engine is a parameter: what it answers to a request may depend on all that it was sent before,
-- which is the state here. Timeouts of calls are the engine's errors.
use conduit_connector_sdk_py.Prelude.{
  Bool, true, false, Option, none, some, List, [], ◌∷◌, ◌++◌, map, if◌then◌else◌, ℕ, suc, Result,
  ok, err,
}
use conduit_connector_sdk_py.Prelude.Decimal.{Str}
use conduit_connector_sdk_py.Client.Errors.{ConduitError, RpcError, from_rpc_error}
use conduit_connector_sdk_py.Client.Pipeline.{
  CreatePipelineRequest, CreateConnectorRequest, CreateProcessorRequest, UpdateDlqRequest,
  BuildPlan, Pipeline, build_requests,
}

-- the calls of the stubs
pub data Request : Type 0 where
  create_pipeline : CreatePipelineRequest → Request
  create_connector : CreateConnectorRequest → Request
  create_processor : CreateProcessorRequest → Request
  update_dlq : UpdateDlqRequest → Request
  start_pipeline : Str → Request
  get_pipeline : Str → Request
  stop_pipeline : Str → Bool → Request
  get_info : Request

-- `pipeline.state` of a response: the numbers of its two enums, and its error
pub record State : Type 0 where
  pub status : ℕ
  pub error : Str
  pub stopped_reason : ℕ

-- what is read of a response: the id and the state of a pipeline
pub record Response : Type 0 where
  pub pipeline_id : Str
  pub state : State

abbrev pub Engine : Type 0
Engine = List Request → Request → Result RpcError Response

-- `_call`, with the requests that were sent
unfoldable pub call : Engine → List Request → Request → Result ConduitError Response × List Request
call engine sent request = elim (engine sent request) [
  | ok response ↦ (ok response, sent ++ request ∷ [])
  | err e ↦ (err (from_rpc_error e), sent ++ request ∷ [])
]

-- what follows a call that returned; an exception ends the method
unfoldable pub and_then :
    {A B : Type 0}
    → Result ConduitError A × List Request
    → (A → List Request → Result ConduitError B × List Request)
    → Result ConduitError B × List Request
and_then (err e, sent) next = (err e, sent)
and_then (ok a, sent) next = next a sent

-- calls in a row, which end with the first that fails
unfoldable pub call_all :
    Engine → List Request → List Request → Result ConduitError (Unit {0}) × List Request
call_all engine sent [] = (ok tt, sent)
call_all engine sent (r ∷ rs) =
    and_then (call engine sent r) (λ response after. call_all engine after rs)

-- `connector_req.pipeline_id = pipeline_id`, and its call
unfoldable pub to_connector : Str → CreateConnectorRequest → Request
to_connector id request = create_connector (record request { pipeline_id = id })

-- `processor_req.parent` is the pipeline, and its call
unfoldable pub to_processor : Str → CreateProcessorRequest → Request
to_processor id request = create_processor (record request { parent_id = some id })

unfoldable pub to_dlq : Str → Option UpdateDlqRequest → List Request
to_dlq id (some request) = update_dlq (record request { id = id }) ∷ []
to_dlq id none = []

-- the body of `try` in `run`
unfoldable pub submit :
    Engine → List Request → BuildPlan → Bool → Str → Result ConduitError (Unit {0}) × List Request
submit engine sent plan start id =
    and_then (call_all engine sent (map (to_connector id) plan.create_connectors)) (λ _ sent.
      and_then (call_all engine sent (map (to_processor id) plan.create_processors)) (λ _ sent.
        and_then (call_all engine sent (to_dlq id plan.dlq))
          (λ _ sent. call_all engine sent (if start then start_pipeline id ∷ [] else []))))

-- `except ConduitError as e: e.pipeline_id = pipeline_id; raise`, and the handle's id otherwise
unfoldable pub for_pipeline :
    Str → Result ConduitError (Unit {0}) × List Request → Result ConduitError Str × List Request
for_pipeline id (err e, sent) = (err (record e { pipeline_id = id }), sent)
for_pipeline id (ok _, sent) = (ok id, sent)

-- `Client.run`: the id of the pipeline that the handle is bound to
unfoldable pub run :
    Engine → List Request → Pipeline → Bool → Result ConduitError Str × List Request
run engine sent p start =
    let plan = build_requests p in
    and_then (call engine sent (create_pipeline plan.create_pipeline)) (λ response sent.
      for_pipeline response.pipeline_id (submit engine sent plan start response.pipeline_id))

-- `get_info`
unfoldable pub get_info_of : Engine → List Request → Result ConduitError Response × List Request
get_info_of engine sent = call engine sent get_info

-- the client's own state: whether it is closed, whether it was given an `on_close`, and how often
-- the channel was closed and `on_close` was called
pub record Client : Type 0 where
  pub closed : Bool
  pub has_on_close : Bool
  pub channel_closes : ℕ
  pub on_closes : ℕ

-- `Client.__init__`
abbrev pub client : Bool → Client
client has_on_close = record {
  closed = false;
  has_on_close = has_on_close;
  channel_closes = 0;
  on_closes = 0;
}

-- `close`, also what `__exit__` does
unfoldable pub close : Client → Client
close c = if c.closed then c else record c {
  closed = true;
  channel_closes = suc c.channel_closes;
  on_closes = if c.has_on_close then suc c.on_closes else c.on_closes;
}

-- `connect`: the client, unless the check for the engine fails
unfoldable pub connect : Engine → List Request → Bool → Result ConduitError Client × List Request
connect engine sent check_version =
    if check_version
    then and_then (get_info_of engine sent) (λ _ sent. (ok (client false), sent))
    else (ok (client false), sent)
