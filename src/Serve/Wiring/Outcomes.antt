-- ===== src/Serve/Wiring/Outcomes.antt =====
-- How `serve` of src/conduit/connector/serve.py can end, by rules.
use conduit_connector_sdk_py.Prelude.{
  ◌≡◌, ℕ, String, true, false, Option, none, some, List, [], ◌∷◌, ◌++◌, ℤ, All, Dict, ok, err,
}
use conduit_connector_sdk_py.Prelude.Decimal.{Str}
use conduit_connector_sdk_py.Handshake.{
  check_magic_cookie, negotiate_protocol_version, supported_app_protocol_versions,
}
use conduit_connector_sdk_py.Introspect.{resolve_config_class}
use conduit_connector_sdk_py.Parameters.{FieldInfo, Parameter}
use conduit_connector_sdk_py.Parameters.Specify.{Specification, SpecifyResponse, advertised_params}
use conduit_connector_sdk_py.Serve.Wiring.{
  ConnectorClass, ServeError, not_installed, not_written, Surroundings, Service, source_plugin,
  destination_plugin, specifier, health, controller, Effect, added, set_serving, listens,
  drive_created, sigterm_installed, printed, Traced, Handle, answer, line,
}

-- The process neither listens nor has written to its standard output.
abbrev pub IsSilent : Effect → Type 0
IsSilent (listens n) = ⊥
IsSilent (printed t) = ⊥
IsSilent e = Unit

-- what is done for a class that is served until the server listens, in order
abbrev pub built : Service → ℕ → List Effect
built service port =
    added service
    ∷ added specifier
    ∷ added health
    ∷ set_serving
    ∷ added controller
    ∷ listens port
    ∷ drive_created
    ∷ []

-- all that is done for it
abbrev pub launch : Service → ℤ → ℕ → List Effect
launch service version port =
    built service port ++ (sigterm_installed ∷ printed (line version port) ∷ [])

-- Why nothing can be announced though the server listens, and what has been done after that.
pub data Fault (around : Surroundings) : ServeError → List Effect → Type 0 where
  no_handler : around.on_main_thread ≡ false → Fault around not_installed []
  no_line :
      around.on_main_thread ≡ true
      → around.writes_line ≡ false
      → Fault around not_written (sigterm_installed ∷ [])

abbrev pub Works : Surroundings → Type 0
Works around = (around.on_main_thread ≡ true) × (around.writes_line ≡ true)

module _ (fields_of_class : String → Dict FieldInfo) (port : ℕ) (spec : Specification)
    (around : Surroundings) where
  -- What has been found of the environment and of the class, and the parameters that result.
  pub record IsFit (env : Dict Str) (base : String) (c : ConnectorClass) (version : ℤ)
      (ps : Dict Parameter) : Type 0 where
    pub config_cls : String
    pub cookie : check_magic_cookie env ≡ ok tt
    pub negotiated : negotiate_protocol_version env supported_app_protocol_versions ≡ ok version
    pub resolved : resolve_config_class base c.mro ≡ ok config_cls
    pub constructed : c.instantiable ≡ true
    pub told : advertised_params (fields_of_class config_cls) ≡ ok ps

  -- Exactly one class is served, all of whose checks have passed; `Specify` answers with its
  -- parameters on its side, and with none on the other.
  pub data IsServed (env : Dict Str)
      : Option ConnectorClass → Option ConnectorClass → ℤ → Service → SpecifyResponse → Type 0 where
    a_source :
        {c : ConnectorClass} {version : ℤ} (ps : Dict Parameter)
        → IsFit env "Source" c version ps
        → IsServed env (some c) none version source_plugin (answer spec ps [])
    a_destination :
        {c : ConnectorClass} {version : ℤ} (ps : Dict Parameter)
        → IsFit env "Destination" c version ps
        → IsServed env none (some c) version destination_plugin (answer spec [] ps)

  -- how `serve` gets to the wait for its end, or does not
  pub data Outcome (env : Dict Str)
      : Option ConnectorClass → Option ConnectorClass → Traced Handle → Type 0 where
    refused :
        {source destination : Option ConnectorClass} (e : ServeError) (es : List Effect)
        → All IsSilent es
        → Outcome env source destination (err e, es)
    started :
        {source destination : Option ConnectorClass} (response : SpecifyResponse)
        (service : Service) (version : ℤ)
        → IsServed env source destination version service response
        → Works around
        → Outcome env source destination
            (ok (record { port = port; specified = response }), launch service version port)
    -- the server listens, and nobody is told
    unannounced :
        {source destination : Option ConnectorClass} (response : SpecifyResponse)
        (service : Service) (version : ℤ) (e : ServeError) (es : List Effect)
        → IsServed env source destination version service response
        → Fault around e es
        → Outcome env source destination (err e, built service port ++ es)
