-- ===== src/Serve/Wiring.antt =====
-- From `serve` to a plugin that listens: `serve`, `_serve_async` and `_build_plugin_server` of
-- src/conduit/connector/serve.py, as a result with the trace of what they do to the process. The
-- class that is served is given by its bases; what pydantic says of a configuration class, the port
-- that the system binds, and whether SIGTERM can be given a handler and the line be written are
-- parameters. Failures of gRPC's own calls are left out. What comes after the handshake line is in
-- Tasks.
pub mod Outcomes
pub mod Started
pub mod Announced
mod Tests
use conduit_connector_sdk_py.Prelude.{
  ℕ, String, Bool, true, false, Option, none, some, List, [], ◌∷◌, ◌++◌, if◌then◌else◌, ℤ, Dict,
  Result, ok, err,
}
use conduit_connector_sdk_py.Prelude.Decimal.{Str, codes, show_ℕ}
use conduit_connector_sdk_py.Handshake.{
  HandshakeError, check_magic_cookie, negotiate_protocol_version, supported_app_protocol_versions,
  handshake_line, format,
}
use conduit_connector_sdk_py.Introspect.{OrigBase, IntrospectError, resolve_config_class}
use conduit_connector_sdk_py.Parameters.{FieldInfo, Parameter, ParameterError}
use conduit_connector_sdk_py.Parameters.Specify.{Specification, SpecifyResponse, advertised_params}

-- a class: the bases of each class of its resolution order, and whether it can be instantiated
pub record ConnectorClass : Type 0 where
  pub mro : List (List OrigBase)
  pub instantiable : Bool

pub data ServeError : Type 0 where
  -- the `ValueError` of both, or neither
  not_exactly_one : ServeError
  handshake : HandshakeError → ServeError
  unresolved : IntrospectError → ServeError
  -- the exception of the class's constructor
  not_constructed : ServeError
  bad_parameters : ParameterError → ServeError
  -- `signal.signal` off the main thread, and the write of the handshake line
  not_installed not_written : ServeError

pub data Service : Type 0 where
  source_plugin destination_plugin specifier health controller : Service

-- what is done to the process, in order
pub data Effect : Type 0 where
  added : Service → Effect
  -- the health of the service `plugin` is SERVING
  set_serving : Effect
  -- the server listens on the port
  listens : ℕ → Effect
  -- `drive_shutdown` is scheduled, and SIGTERM has its handler
  drive_created sigterm_installed : Effect
  printed : Str → Effect

-- a result with the effects until it
abbrev pub Traced : Type 0 → Type 0
Traced A = Result ServeError A × List Effect

infixl 5 ◌>>=◌ ◌>>◌
abbrev pub ◌>>=◌ : {A B : Type 0} → Traced A → (A → Traced B) → Traced B
(err e, es) >>= f = (err e, es)
(ok a, es) >>= f = let (r, fs) = f a in (r, es ++ fs)

abbrev pub ◌>>◌ : {B : Type 0} → Traced (Unit {0}) → Traced B → Traced B
m >> k = m >>= λ _. k

abbrev pub does : Effect → Traced (Unit {0})
does e = (ok tt, e ∷ [])

-- a step without an effect, whose exception is one of `serve`'s
abbrev pub lift : {E A : Type 0} → (E → ServeError) → Result E A → Traced A
lift f (ok a) = (ok a, [])
lift f (err e) = (err (f e), [])

-- what `_ServerHandle` is used for here: the port, and what `Specify` answers
pub record Handle : Type 0 where
  pub port : ℕ
  pub specified : SpecifyResponse

-- `_SpecifierServicer.Specify` with the parameters that it was made with
abbrev pub answer : Specification → Dict Parameter → Dict Parameter → SpecifyResponse
answer spec source_params destination_params = record {
  specification = spec;
  source_params = source_params;
  destination_params = destination_params;
}

-- `f"127.0.0.1:{handle.port}"`, and the line that `emit_handshake_line` writes
abbrev pub address : ℕ → Str
address n = codes "127.0.0.1:" ++ show_ℕ n

abbrev pub line : ℤ → ℕ → Str
line version n = format (handshake_line version (address n)) ++ codes "\n"

-- what the process can do once the server listens
pub record Surroundings : Type 0 where
  pub on_main_thread : Bool
  pub writes_line : Bool

-- an effect, or the exception of the call that was to have it; what a write that fails has put out of
-- the line by then is left out
abbrev pub may_do : Bool → ServeError → Effect → Traced (Unit {0})
may_do works error e = if works then does e else (err error, [])

-- the `ValueError` of `serve` itself
abbrev pub exactly_one :
    Option ConnectorClass → Option ConnectorClass → Result ServeError (Unit {0})
exactly_one none none = err not_exactly_one
exactly_one (some s) (some d) = err not_exactly_one
exactly_one source destination = ok tt

module _ (fields_of_class : String → Dict FieldInfo) (port : ℕ) (spec : Specification)
    (around : Surroundings) where
  -- the branch of one class: its configuration, its instance, its servicer and its parameters
  unfoldable pub register : Service → String → ConnectorClass → Traced (Dict Parameter)
  register service base c = do
    config_cls ← lift unresolved (resolve_config_class base c.mro)
    (if c.instantiable then (ok tt, []) else (err not_constructed, []))
    does (added service)
    lift bad_parameters (advertised_params (fields_of_class config_cls))

  -- the rest of `_build_plugin_server`, which starts the server
  unfoldable pub start_server : SpecifyResponse → Traced Handle
  start_server response = do
    does (added specifier)
    does (added health)
    does set_serving
    does (added controller)
    does (listens port)
    does drive_created
    (ok (record { port = port; specified = response }), [])

  -- `_build_plugin_server`
  unfoldable pub build_plugin_server : Option ConnectorClass → Option ConnectorClass → Traced Handle
  build_plugin_server none none = (err not_exactly_one, [])
  build_plugin_server (some s) (some d) = (err not_exactly_one, [])
  build_plugin_server (some s) none = do
    source_params ← register source_plugin "Source" s
    start_server (answer spec source_params [])
  build_plugin_server none (some d) = do
    destination_params ← register destination_plugin "Destination" d
    start_server (answer spec [] destination_params)

  -- `_serve_async` up to the wait for the shutdown
  unfoldable pub serve_async : Option ConnectorClass → Option ConnectorClass → ℤ → Traced Handle
  serve_async source destination version = do
    handle ← build_plugin_server source destination
    may_do around.on_main_thread not_installed sigterm_installed
    may_do around.writes_line not_written (printed (line version handle.port))
    (ok handle, [])

  -- `serve`
  unfoldable pub serve : Dict Str → Option ConnectorClass → Option ConnectorClass → Traced Handle
  serve env source destination = do
    lift (λ e. e) (exactly_one source destination)
    lift handshake (check_magic_cookie env)
    version ← lift handshake (negotiate_protocol_version env supported_app_protocol_versions)
    serve_async source destination version
