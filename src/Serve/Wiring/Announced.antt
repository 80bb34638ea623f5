-- ===== src/Serve/Wiring/Announced.antt =====
-- What a host that offers the SDK's version gets from `serve`.
use conduit_connector_sdk_py.Prelude.{
  ◌≡◌, refl, ℕ, String, true, false, none, some, List, [], ◌∷◌, ℤ, pos, All-append, Dict, lookup,
  mem, eqb_ℤ_iff, ok, arith, ◌==◌,
}
use conduit_connector_sdk_py.Prelude.Decimal.{Str, codes, show, show_ℕ}
use conduit_connector_sdk_py.Handshake.{
  check_magic_cookie, negotiate_protocol_version, supported_app_protocol_versions,
  protocol_versions_env, handshake_line, format, split,
}
use conduit_connector_sdk_py.Handshake.Fields.{Lacks, split-format, show-Lacks}
use conduit_connector_sdk_py.Handshake.Highest.{IsHighest}
use conduit_connector_sdk_py.Handshake.Versions.{advertised, negotiate_text_iff}
use conduit_connector_sdk_py.Introspect.{resolve_config_class}
use conduit_connector_sdk_py.Parameters.{FieldInfo, Parameter}
use conduit_connector_sdk_py.Parameters.Specify.{Specification, advertised_params}
use conduit_connector_sdk_py.Serve.Wiring.{
  ConnectorClass, Surroundings, source_plugin, answer, address, register, start_server,
  build_plugin_server, serve_async, serve,
}
use conduit_connector_sdk_py.Serve.Wiring.Outcomes.{Works, launch}

address-Lacks : (n : ℕ) → Lacks b'|' (address n)
unfolding show
address-Lacks n =
    All-append (λ c. (c == b'|') ≡ false) (codes "127.0.0.1:") (show_ℕ n)
      (refl, (refl, (refl, (refl, (refl, (refl, (refl, (refl, (refl, (refl, tt))))))))))
      (show-Lacks b'|' (pos n) refl refl)

two-IsHighest :
    (client : List ℤ) → mem (pos 2) client ≡ true → IsHighest (pos 2 ∷ []) client (pos 2)
unfolding mem
two-IsHighest client h = (refl, h, λ w i j. ground (arith, eqb_ℤ_iff w (pos 2)))

negotiated_two :
    (env : Dict Str) (v : ℤ) (vs : List ℤ)
    → lookup protocol_versions_env env ≡ some (advertised v vs)
    → mem (pos 2) (v ∷ vs) ≡ true
    → negotiate_protocol_version env supported_app_protocol_versions ≡ ok (pos 2)
negotiated_two env v vs e m =
    rw e ((negotiate_text_iff v vs (pos 2 ∷ []) (pos 2)).1 (two-IsHighest (v ∷ vs) m))

-- what the host finds between the bars of the line
abbrev pub announced : ℕ → List Str
announced port = codes "1" ∷ codes "2" ∷ codes "tcp" ∷ address port ∷ codes "grpc" ∷ codes "" ∷ []

split-announced :
    (port : ℕ) → split b'|' (format (handshake_line (pos 2) (address port))) ≡ announced port
unfolding show show_ℕ
split-announced port = split-format (handshake_line (pos 2) (address port)) (
  (refl, (refl, (refl, tt))),
  (address-Lacks port, ((refl, (refl, (refl, (refl, tt)))), (tt, tt))),
)

-- A source class that names its configuration, that can be instantiated and whose parameters can be
-- written is served, by a process that can handle SIGTERM and write the line, to every host that sets
-- the cookie and has 2 among the versions that it offers:
-- the services are added, the server listens, and the line that is written last says the versions,
-- the port and the protocol at the places where the host looks for them.
pub serve-announced :
    (fields_of_class : String → Dict FieldInfo) (port : ℕ) (spec : Specification)
    (around : Surroundings) (env : Dict Str) (c : ConnectorClass) (v : ℤ) (vs : List ℤ)
    (ps : Dict Parameter) (config_cls : String)
    → Works around
    → check_magic_cookie env ≡ ok tt
    → lookup protocol_versions_env env ≡ some (advertised v vs)
    → mem (pos 2) (v ∷ vs) ≡ true
    → resolve_config_class "Source" c.mro ≡ ok config_cls
    → c.instantiable ≡ true
    → advertised_params (fields_of_class config_cls) ≡ ok ps
    → (serve fields_of_class port spec around env (some c) none ≡ (
      ok (record { port = port; specified = answer spec ps [] }),
      launch source_plugin (pos 2) port,
    ))
      × (split b'|' (format (handshake_line (pos 2) (address port))) ≡ announced port)
unfolding serve serve_async build_plugin_server register start_server
serve-announced fields_of_class port spec around env c v vs ps config_cls (on, w) k e m r i t =
    (rw (on, w, k, negotiated_two env v vs e m, r, i, t) refl, split-announced port)
