-- ===== src/Handshake/Fields.antt =====
-- Texts joined by a separator and split at it.
use conduit_connector_sdk_py.Prelude.{
  suc, ◌≡◌, refl, ap, ◌∙◌, ℕ, false, List, [], ◌∷◌, ◌++◌, ◌==◌, arith, All, ℤ, pos, negsuc,
}
use conduit_connector_sdk_py.Prelude.Decimal.{
  Str, show, IsDigits, show_ℕ, show_ℕ-IsDigits, is_digit,
}
use conduit_connector_sdk_py.Handshake.{split, join, HandshakeLine, fields, format}

-- No character of the text is the separator.
abbrev pub Lacks : ℕ → Str → Type 0
Lacks sep s = All (λ c. (c == sep) ≡ false) s

split-Lacks : (sep : ℕ) (s : Str) → Lacks sep s → split sep s ≡ s ∷ []
unfolding split
split-Lacks sep [] h = refl
split-Lacks sep (c ∷ s) (h, hs) = rw (h, split-Lacks sep s hs) refl

split-append : (sep : ℕ) (s t : Str) → Lacks sep s → split sep (s ++ sep ∷ t) ≡ s ∷ split sep t
unfolding split
split-append sep [] t h = ground arith
split-append sep (c ∷ s) t (h, hs) = rw (h, split-append sep s t hs) refl

pub split-join :
    (sep : ℕ) (p : Str) (ps : List Str)
    → All (Lacks sep) (p ∷ ps)
    → split sep (join sep (p ∷ ps)) ≡ p ∷ ps
unfolding join
split-join sep p [] (h, hs) = split-Lacks sep p h
split-join sep p (q ∷ ps) (h, hs) =
    split-append sep p (join sep (q ∷ ps)) h ∙ ap (λ rest. p ∷ rest) (split-join sep q ps hs)

digits_lack : (sep : ℕ) (s : Str) → is_digit sep ≡ false → IsDigits s → Lacks sep s
digits_lack sep [] h d = tt
digits_lack sep (c ∷ s) h d = (ground (arith, d.0), digits_lack sep s h d.1)

pub show-Lacks :
    (sep : ℕ) (n : ℤ) → is_digit sep ≡ false → (b'-' == sep) ≡ false → Lacks sep (show n)
unfolding show
show-Lacks sep (pos n) h m = digits_lack sep (show_ℕ n) h (show_ℕ-IsDigits n)
show-Lacks sep (negsuc n) h m = (m, digits_lack sep (show_ℕ (suc n)) h (show_ℕ-IsDigits (suc n)))

-- The line that the host splits at its bars gives the six fields back, the numbers in decimal, where
-- no text field has a bar in it.
pub split-format :
    (l : HandshakeLine)
    → All (Lacks b'|') (l.network ∷ l.address ∷ l.protocol ∷ l.server_cert ∷ [])
    → split b'|' (format l) ≡ fields l
unfolding format
split-format l texts =
    split-join b'|' (show l.core_protocol_version)
      (show l.app_protocol_version ∷ l.network ∷ l.address ∷ l.protocol ∷ l.server_cert ∷ [])
      (
        show-Lacks b'|' l.core_protocol_version refl refl,
        (show-Lacks b'|' l.app_protocol_version refl refl, texts),
      )
