-- ===== src/Handshake/Tests.antt =====
-- The handshake with a host of the protocol's versions 1 and 2.
use conduit_connector_sdk_py.Prelude.{◌≡◌, ◌↔◌, [], ◌∷◌, pos, ok}
use conduit_connector_sdk_py.Handshake.{negotiate_text}
use conduit_connector_sdk_py.Handshake.Highest.{IsHighest}
use conduit_connector_sdk_py.Handshake.Versions.{advertised, negotiate_text_iff}

negotiate_text_iff_example :
    (negotiate_text (advertised (pos 1) (pos 2 ∷ [])) (pos 2 ∷ []) ≡ ok (pos 2))
    ↔ IsHighest (pos 2 ∷ []) (pos 1 ∷ pos 2 ∷ []) (pos 2)
negotiate_text_iff_example = negotiate_text_iff (pos 1) (pos 2 ∷ []) (pos 2 ∷ []) (pos 2)
