-- ===== src/Handshake.antt =====
-- src/conduit/connector/_handshake.py: the go-plugin handshake. The environment is a `Dict` of texts.
pub mod Fields
pub mod Highest
pub mod Versions
mod Tests
use conduit_connector_sdk_py.Prelude.{
  String, ℕ, Bool, true, false, ◌&&◌, not, Option, none, some, List, [], ◌∷◌, ◌++◌, if◌then◌else◌,
  ◌==◌, ℤ, pos, ltb_ℤ, mem, Dict, lookup, Result, ok, err, ◌>>=◌, raise_if, ◌>>◌,
}
use conduit_connector_sdk_py.Prelude.Decimal.{same_text, Str, codes, strip, int, show}

abbrev pub magic_cookie_key : String
magic_cookie_key = "CONDUIT_PLUGIN_MAGIC_COOKIE"

abbrev pub magic_cookie_value : Str
magic_cookie_value = codes "204e8e812c3a1bb73b838928c575b42a105dd2e9aa449be481bc4590486df53f"

abbrev pub protocol_versions_env : String
protocol_versions_env = "PLUGIN_PROTOCOL_VERSIONS"

abbrev pub core_protocol_version : ℤ
core_protocol_version = pos 1

abbrev pub supported_app_protocol_versions : List ℤ
supported_app_protocol_versions = pos 2 ∷ []

-- the `HandshakeError`s, in the order in which they are raised
pub data HandshakeError : Type 0 where
  bad_cookie versions_not_set not_integers no_common_version : HandshakeError

-- `check_magic_cookie`
unfoldable pub check_magic_cookie : Dict Str → Result HandshakeError (Unit {0})
check_magic_cookie env = elim (lookup magic_cookie_key env) [
  | none ↦ err bad_cookie
  | some value ↦ raise_if (not (same_text value magic_cookie_value)) bad_cookie
]

-- put a code before the first piece
abbrev pub onto_first : ℕ → List Str → List Str
onto_first c [] = (c ∷ []) ∷ []
onto_first c (p ∷ ps) = (c ∷ p) ∷ ps

-- `s.split(sep)` for a separator of one character
unfoldable pub split : ℕ → Str → List Str
split sep [] = [] ∷ []
split sep (c ∷ s) = let rest = split sep s in if c == sep then [] ∷ rest else onto_first c rest

-- `sep.join(pieces)`
unfoldable pub join : ℕ → List Str → Str
join sep [] = []
join sep (p ∷ []) = p
join sep (p ∷ q ∷ ps) = p ++ sep ∷ join sep (q ∷ ps)

abbrev pub is_blank : Str → Bool
is_blank [] = true
is_blank (c ∷ s) = false

abbrev pub cons_int : Option ℤ → Option (List ℤ) → Option (List ℤ)
cons_int (some v) (some vs) = some (v ∷ vs)
cons_int _ _ = none

-- `{int(v) for v in pieces if v.strip()}`; `none` is the `ValueError`
unfoldable pub client_versions : List Str → Option (List ℤ)
client_versions [] = some []
client_versions (p ∷ ps) =
    let rest = client_versions ps in if is_blank (strip p) then rest else cons_int (int p) rest

-- the greater of a version and what is common to the rest
abbrev pub max_of : ℤ → Option ℤ → ℤ
max_of v none = v
max_of v (some w) = if ltb_ℤ v w then w else v

-- `sorted(set(supported) & client_versions, reverse=True)[0]`; `none` where nothing is common
unfoldable pub highest_common : List ℤ → List ℤ → Option ℤ
highest_common [] client = none
highest_common (v ∷ supported) client =
    let rest = highest_common supported client in
    if mem v client then some (max_of v rest) else rest

abbrev pub text_or_empty : Option Str → Str
text_or_empty none = []
text_or_empty (some s) = s

-- `negotiate_protocol_version` on the text of the variable
unfoldable pub negotiate_text : Str → List ℤ → Result HandshakeError ℤ
negotiate_text raw supported =
    if is_blank (strip raw) then err versions_not_set else elim (client_versions (split b',' raw)) [
      | none ↦ err not_integers
      | some client ↦ elim (highest_common supported client) [
        | none ↦ err no_common_version
        | some v ↦ ok v
      ]
    ]

-- `negotiate_protocol_version`
abbrev pub negotiate_protocol_version : Dict Str → List ℤ → Result HandshakeError ℤ
negotiate_protocol_version env supported =
    negotiate_text (text_or_empty (lookup protocol_versions_env env)) supported

pub record HandshakeLine : Type 0 where
  pub app_protocol_version : ℤ
  pub address : Str
  pub network : Str
  pub server_cert : Str
  pub core_protocol_version : ℤ
  pub protocol : Str

-- the line with its default fields
abbrev pub handshake_line : ℤ → Str → HandshakeLine
handshake_line version address = record {
  app_protocol_version = version;
  address = address;
  network = codes "tcp";
  server_cert = [];
  core_protocol_version = core_protocol_version;
  protocol = codes "grpc";
}

abbrev pub fields : HandshakeLine → List Str
fields l =
    show l.core_protocol_version
    ∷ show l.app_protocol_version
    ∷ l.network
    ∷ l.address
    ∷ l.protocol
    ∷ l.server_cert
    ∷ []

-- `format`
unfoldable pub format : HandshakeLine → Str
format l = join b'|' (fields l)

-- what `serve` checks before it starts, and the line that it prints once it listens
unfoldable pub serve : Dict Str → Str → Result HandshakeError Str
serve env address =
    check_magic_cookie env
    >> negotiate_protocol_version env supported_app_protocol_versions
    >>= λ version. ok (format (handshake_line version address))
