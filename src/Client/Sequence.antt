-- ===== src/Client/Sequence.antt =====
-- The calls that `Client.run` makes, in src/conduit/client/client.py, for a pipeline of the builder.
use mathlib.Core.Path.{subst}
use conduit_connector_sdk_py.Prelude.{
  ◌≡◌, refl, inl, inr, sym, ap, ◌∙◌, Bool, Option, none, some, List, [], ◌∷◌, ◌++◌, map,
  append_assoc, if◌then◌else◌, pos, Result, ok, err,
}
use conduit_connector_sdk_py.Prelude.Decimal.{Str}
use conduit_connector_sdk_py.Client.Errors.{ConduitError, RpcError, from_rpc_error}
use conduit_connector_sdk_py.Client.Pipeline.{
  ConnectorSpec, ProcessorSpec, DlqSpec, Pipeline, build_requests, connector_request,
  processor_request, dlq_request, given,
}
use conduit_connector_sdk_py.Client.Engine.{
  Request, create_pipeline, create_connector, create_processor, update_dlq, start_pipeline,
  Response, Engine, call_all, and_then, to_connector, to_processor, to_dlq, submit, for_pipeline,
  run,
}
use conduit_connector_sdk_py.Client.Rows.{
  Answered, Ended, finished, failed, Answer-cases, call-ok, call-err, call_all-Ended,
  and_then-call_all,
}

-- the calls that a declared connector, processor and dead-letter queue stand for
abbrev pub connector_call : Str → ConnectorSpec → Request
connector_call id c = create_connector (record {
  type = c.type;
  plugin = c.plugin;
  pipeline_id = id;
  name = c.name;
  settings = c.settings;
})

abbrev pub processor_call : Str → ProcessorSpec → Request
processor_call id p = create_processor (record {
  plugin = p.plugin;
  condition = p.condition;
  parent_id = some id;
  workers = given (pos 0) p.workers;
  settings = p.settings;
})

abbrev pub dlq_calls : Str → Option DlqSpec → List Request
dlq_calls id (some d) =
    update_dlq (record {
      id = id;
      plugin = d.plugin;
      settings = d.settings;
      window_size = given (pos 0) d.window_size;
      window_nack_threshold = given (pos 0) d.window_nack_threshold;
    })
    ∷ []
dlq_calls id none = []

-- all the calls after the first one, in the order of declaration
abbrev pub calls_of : Str → Pipeline → Bool → List Request
calls_of id p start =
    map (connector_call id) p.connectors
    ++ (map (processor_call id) p.processors
        ++ (dlq_calls id p.dlq_spec ++ (if start then start_pipeline id ∷ [] else [])))

abbrev pub creation : Pipeline → Request
creation p = create_pipeline (record { name = p.name; description = p.description })

-- how `run` ends: the pipeline is not created; a later call fails, and the error has the id of the
-- pipeline; or every call is made
pub data Submitted (engine : Engine) (sent : List Request) (p : Pipeline) (start : Bool)
    : Result ConduitError Str × List Request → Type 0 where
  not_created :
      (x : RpcError)
      → engine sent (creation p) ≡ err x
      → Submitted engine sent p start (err (from_rpc_error x), sent ++ creation p ∷ [])
  created_partly :
      (response : Response) (done : List Request) (r : Request) (rest : List Request) (x : RpcError)
      → engine sent (creation p) ≡ ok response
      → calls_of response.pipeline_id p start ≡ done ++ r ∷ rest
      → Answered engine (sent ++ creation p ∷ []) done
      → engine (sent ++ creation p ∷ done) r ≡ err x
      → Submitted engine sent p start (
        err (record (from_rpc_error x) { pipeline_id = response.pipeline_id }),
        sent ++ creation p ∷ (done ++ r ∷ []),
      )
  submitted :
      (response : Response)
      → engine sent (creation p) ≡ ok response
      → Answered engine (sent ++ creation p ∷ []) (calls_of response.pipeline_id p start)
      → Submitted engine sent p start
          (ok response.pipeline_id, sent ++ creation p ∷ calls_of response.pipeline_id p start)

map-connectors :
    (id : Str) (cs : List ConnectorSpec)
    → map (to_connector id) (map connector_request cs) ≡ map (connector_call id) cs
unfolding to_connector connector_request
map-connectors id [] = refl
map-connectors id (c ∷ cs) = ap (λ rs. connector_call id c ∷ rs) (map-connectors id cs)

map-processors :
    (id : Str) (ps : List ProcessorSpec)
    → map (to_processor id) (map processor_request ps) ≡ map (processor_call id) ps
unfolding to_processor processor_request
map-processors id [] = refl
map-processors id (p ∷ ps) = ap (λ rs. processor_call id p ∷ rs) (map-processors id ps)

to_dlq-calls :
    (id : Str) (p : Pipeline) → to_dlq id (build_requests p).dlq ≡ dlq_calls id p.dlq_spec
unfolding to_dlq build_requests dlq_request
to_dlq-calls id p =
    elim p.dlq_spec
      as (λ o.
        to_dlq id (elim o [ some d ↦ some (dlq_request d) | none ↦ none ]) ≡ dlq_calls id o) [
          | some d ↦ refl
          | none ↦ refl
        ]

in_turn :
    (engine : Engine) (sent rs bs cs ds : List Request)
    → and_then (call_all engine sent rs) (λ _ s.
      and_then
        (call_all engine s bs)
        (λ _ s. and_then (call_all engine s cs) (λ _ s. call_all engine s ds)))
      ≡ call_all engine sent (rs ++ (bs ++ (cs ++ ds)))
in_turn engine sent rs bs cs ds = simp and_then-call_all

plan-calls :
    (id : Str) (p : Pipeline) (start : Bool)
    → map (to_connector id) (build_requests p).create_connectors
        ++ (map (to_processor id) (build_requests p).create_processors
            ++ (to_dlq id (build_requests p).dlq ++ (if start then start_pipeline id ∷ [] else [])))
      ≡ calls_of id p start
unfolding build_requests
plan-calls id p start =
    rw (map-connectors id p.connectors, map-processors id p.processors, to_dlq-calls id p) refl

submit-call_all :
    (engine : Engine) (sent : List Request) (p : Pipeline) (start : Bool) (id : Str)
    → submit engine sent (build_requests p) start id ≡ call_all engine sent (calls_of id p start)
unfolding submit
submit-call_all engine sent p start id =
    in_turn engine sent (map (to_connector id) (build_requests p).create_connectors)
      (map (to_processor id) (build_requests p).create_processors)
      (to_dlq id (build_requests p).dlq) (if start then start_pipeline id ∷ [] else [])
    ∙ ap (λ q. call_all engine sent q) (plan-calls id p start)

run-cases :
    {engine : Engine} {sent : List Request} {p : Pipeline} {start : Bool} (response : Response)
    (e : engine sent (creation p) ≡ ok response) (o : Result ConduitError (Unit {0}) × List Request)
    → Ended engine (sent ++ creation p ∷ []) (calls_of response.pipeline_id p start) o
    → Submitted engine sent p start (for_pipeline response.pipeline_id o)
unfolding for_pipeline
run-cases {engine} {sent} {p} {start} response e _ (finished a) =
    subst (λ h. Submitted engine sent p start (ok response.pipeline_id, h))
      (sym (append_assoc sent (creation p ∷ []) (calls_of response.pipeline_id p start)))
      (submitted response e a)
run-cases {engine} {sent} {p} {start} response e _ (failed done r rest x same a f) =
    subst
      (λ h.
        Submitted engine sent p start
          (err (record (from_rpc_error x) { pipeline_id = response.pipeline_id }), h))
      (sym (append_assoc sent (creation p ∷ []) (done ++ r ∷ [])))
      (created_partly response done r rest x e same a
        (ap (λ h. engine h r) (sym (append_assoc sent (creation p ∷ []) done)) ∙ f))

run-ok :
    (engine : Engine) (sent : List Request) (p : Pipeline) (start : Bool) (response : Response)
    → engine sent (creation p) ≡ ok response
    → run engine sent p start
      ≡ for_pipeline response.pipeline_id
          (call_all engine (sent ++ creation p ∷ []) (calls_of response.pipeline_id p start))
unfolding run and_then build_requests
run-ok engine sent p start response e =
    ap
      (λ o. and_then o (λ response sent.
        for_pipeline response.pipeline_id
          (submit engine sent (build_requests p) start response.pipeline_id)))
      (call-ok engine sent (creation p) response e)
    ∙ ap (for_pipeline response.pipeline_id)
        (submit-call_all engine (sent ++ creation p ∷ []) p start response.pipeline_id)

run-err :
    (engine : Engine) (sent : List Request) (p : Pipeline) (start : Bool) (x : RpcError)
    → engine sent (creation p) ≡ err x
    → run engine sent p start ≡ (err (from_rpc_error x), sent ++ creation p ∷ [])
unfolding run and_then build_requests
run-err engine sent p start x e =
    ap
      (λ o. and_then o (λ response sent.
        for_pipeline response.pipeline_id
          (submit engine sent (build_requests p) start response.pipeline_id)))
      (call-err engine sent (creation p) x e)

-- However the engine answers, `run` ends in one of three ways. The creation of the pipeline fails,
-- and no other call is made. Or a later call fails: the calls before it, in declared order
-- (connectors, processors, the DLQ, the start), were answered, none follows it, and the error has
-- the id of the created pipeline. Or all calls are made and answered, and the result is that id.
pub run-IsSubmitted :
    (engine : Engine) (sent : List Request) (p : Pipeline) (start : Bool)
    → Submitted engine sent p start (run engine sent p start)
run-IsSubmitted engine sent p start = elim (Answer-cases (engine sent (creation p))) [
  | inl (response, e) ↦ rw (run-ok engine sent p start response e) (
      run-cases response e
        (call_all engine (sent ++ creation p ∷ []) (calls_of response.pipeline_id p start))
        (call_all-Ended engine (sent ++ creation p ∷ []) (calls_of response.pipeline_id p start)))
  | inr (x, e) ↦ rw (run-err engine sent p start x e) (not_created x e)
]
