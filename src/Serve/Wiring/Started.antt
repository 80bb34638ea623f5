-- ===== src/Serve/Wiring/Started.antt =====
-- When a plugin has told the host where it listens, and what has been done by then.
use conduit_connector_sdk_py.Prelude.{
  ◌≡◌, refl, ◌⊎◌, inl, inr, Bool-cases, ℕ, String, true, Option, none, some, List, [], ◌∷◌, ℤ, All,
  Dict, Result, ok, err,
}
use conduit_connector_sdk_py.Prelude.Decimal.{Str}
use conduit_connector_sdk_py.Handshake.{
  check_magic_cookie, negotiate_protocol_version, supported_app_protocol_versions,
}
use conduit_connector_sdk_py.Introspect.{resolve_config_class}
use conduit_connector_sdk_py.Parameters.{FieldInfo, Parameter}
use conduit_connector_sdk_py.Parameters.Specify.{Specification, SpecifyResponse, advertised_params}
use conduit_connector_sdk_py.Serve.Wiring.{
  ConnectorClass, ServeError, not_exactly_one, handshake, unresolved, not_constructed,
  bad_parameters, not_installed, not_written, Surroundings, may_do, Service, source_plugin,
  destination_plugin, Effect, added, sigterm_installed, printed, Traced, ◌>>=◌, ◌>>◌, Handle,
  answer, register, start_server, build_plugin_server, line, serve_async, exactly_one, serve,
}
use conduit_connector_sdk_py.Serve.Wiring.Outcomes.{
  IsSilent, built, no_handler, no_line, IsServed, a_source, a_destination, Outcome, refused,
  started, unannounced,
}

Result-cases : {E A : Type 0} (r : Result E A) → ((a : A) × (r ≡ ok a)) ⊎ ((e : E) × (r ≡ err e))
Result-cases (ok a) = inl (a, refl)
Result-cases (err e) = inr (e, refl)

module _ (fields_of_class : String → Dict FieldInfo) (port : ℕ) (spec : Specification)
    (around : Surroundings) where
  -- a class that can be registered, or the exception and what was done before it
  register-cases :
      (service : Service) (base : String) (c : ConnectorClass)
      → ((config : String) × (ps : Dict Parameter) × (resolve_config_class base c.mro ≡ ok config)
          × (c.instantiable ≡ true)
          × (advertised_params (fields_of_class config) ≡ ok ps)
          × (register fields_of_class port spec around service base c
              ≡ (ok ps, added service ∷ [])))
        ⊎ ((e : ServeError) × (es : List Effect) × All IsSilent es
            × (register fields_of_class port spec around service base c ≡ (err e, es)))
  unfolding register
  register-cases service base c = elim (Result-cases (resolve_config_class base c.mro)) [
    | inr (e, x) ↦ inr (unresolved e, [], tt, rw x refl)
    | inl (config, r) ↦ elim (Bool-cases c.instantiable) [
      | inr n ↦ inr (not_constructed, [], tt, rw (r, n) refl)
      | inl i ↦ elim (Result-cases (advertised_params (fields_of_class config))) [
        | inr (e, x) ↦ inr (bad_parameters e, added service ∷ [], (tt, tt), rw (r, i, x) refl)
        | inl (ps, p) ↦ inl (config, ps, r, i, p, rw (r, i, p) refl)
      ]
    ]
  ]

  -- With the checks passed, `serve` is the rest of the work.
  serve-checked :
      (env : Dict Str) (source destination : Option ConnectorClass) (version : ℤ)
      → exactly_one source destination ≡ ok tt
      → check_magic_cookie env ≡ ok tt
      → negotiate_protocol_version env supported_app_protocol_versions ≡ ok version
      → serve fields_of_class port spec around env source destination
        ≡ serve_async fields_of_class port spec around source destination version
  unfolding serve
  serve-checked env source destination version x c n = rw (x, c, n) refl

  -- what `_serve_async` does once the server listens
  announce : ℤ → Handle → Traced Handle
  announce version handle = do
    may_do around.on_main_thread not_installed sigterm_installed
    may_do around.writes_line not_written (printed (line version handle.port))
    (ok handle, [])

  announced-Outcome :
      (env : Dict Str) (source destination : Option ConnectorClass) (version : ℤ)
      (service : Service) (response : SpecifyResponse)
      → IsServed fields_of_class port spec around env source destination version service response
      → Outcome fields_of_class port spec around env source destination (
          (ok (record { port = port; specified = response }), built service port) >>= λ handle.
          announce version handle)
  unfolding announce
  announced-Outcome env source destination version service response fit =
      elim (Bool-cases around.on_main_thread) [
        | inr n ↦ simp n (unannounced response service version not_installed [] fit (no_handler n))
        | inl m ↦ elim (Bool-cases around.writes_line) [
          | inr n ↦
              simp (m, n)
                (unannounced response service version not_written (sigterm_installed ∷ []) fit
                  (no_line m n))
          | inl w ↦ simp (m, w) (started response service version fit (m, w))
        ]
      ]

  launched_source :
      (env : Dict Str) (c : ConnectorClass) (version : ℤ)
      → check_magic_cookie env ≡ ok tt
      → negotiate_protocol_version env supported_app_protocol_versions ≡ ok version
      → Outcome fields_of_class port spec around env
          (some c)
          none
          (serve_async fields_of_class port spec around (some c) none version)
  unfolding serve_async build_plugin_server start_server announce
  launched_source env c version k n = elim (register-cases source_plugin "Source" c) [
    | inr (e, es, q, r) ↦ rw r (refused e es q)
    | inl (config, ps, x, i, p, r) ↦ rw r (
        announced-Outcome env (some c) none version source_plugin (answer spec ps []) (
          a_source ps (record {
            config_cls = config;
            cookie = k;
            negotiated = n;
            resolved = x;
            constructed = i;
            told = p;
          })))
  ]

  launched_destination :
      (env : Dict Str) (c : ConnectorClass) (version : ℤ)
      → check_magic_cookie env ≡ ok tt
      → negotiate_protocol_version env supported_app_protocol_versions ≡ ok version
      → Outcome fields_of_class port spec around env none
          (some c)
          (serve_async fields_of_class port spec around none (some c) version)
  unfolding serve_async build_plugin_server start_server announce
  launched_destination env c version k n =
      elim (register-cases destination_plugin "Destination" c) [
        | inr (e, es, q, r) ↦ rw r (refused e es q)
        | inl (config, ps, x, i, p, r) ↦ rw r (
            announced-Outcome env none (some c) version destination_plugin (answer spec [] ps) (
              a_destination ps (record {
                config_cls = config;
                cookie = k;
                negotiated = n;
                resolved = x;
                constructed = i;
                told = p;
              })))
      ]

  -- the checks, which do nothing to the process
  after_checks :
      (env : Dict Str) (source destination : Option ConnectorClass)
      → exactly_one source destination ≡ ok tt
      → ((version : ℤ)
          → check_magic_cookie env ≡ ok tt
          → negotiate_protocol_version env supported_app_protocol_versions ≡ ok version
          → Outcome fields_of_class port spec around env source destination
              (serve_async fields_of_class port spec around source destination version))
      → Outcome fields_of_class port spec around env source destination
          (serve fields_of_class port spec around env source destination)
  unfolding serve
  after_checks env source destination one f = elim (Result-cases (check_magic_cookie env)) [
    | inr (e, c) ↦ rw (one, c) (refused (handshake e) [] tt)
    | inl (u, c) ↦
        elim (Result-cases (negotiate_protocol_version env supported_app_protocol_versions)) [
          | inr (e, n) ↦ rw (one, c, n) (refused (handshake e) [] tt)
          | inl (version, n) ↦ rw (one, c, n) (f version c n)
        ]
  ]

  -- Whatever the environment, the classes and the process are, `serve` has one of three outcomes. It
  -- raises, and then nothing listens and nothing was written to the standard output. Or exactly one
  -- class is served, whose checks have all passed: its services and no others were added, the server
  -- listens on the port, and last of all, once, the line with the negotiated version and that port
  -- was written; and `Specify` answers with the class's parameters on its side and with none on the
  -- other. Or it raises for such a class with the server listening and no line written, and that only
  -- because SIGTERM got no handler or the line could not be written.
  pub serve-Outcome :
      (env : Dict Str) (source destination : Option ConnectorClass)
      → Outcome fields_of_class port spec around env source destination
          (serve fields_of_class port spec around env source destination)
  unfolding serve
  serve-Outcome env none none = refused not_exactly_one [] tt
  serve-Outcome env (some s) (some d) = refused not_exactly_one [] tt
  serve-Outcome env (some s) none =
      after_checks env (some s) none refl (λ version c n. launched_source env s version c n)
  serve-Outcome env none (some d) =
      after_checks env none (some d) refl (λ version c n. launched_destination env d version c n)
