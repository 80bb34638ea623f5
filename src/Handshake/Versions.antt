-- ===== src/Handshake/Versions.antt =====
-- The version that the handshake agrees on.
use mathlib.Core.Path.{subst}
use conduit_connector_sdk_py.Prelude.{
  ◌≡◌, refl, ap, sym, ◌∙◌, ◌↔◌, ◌≢◌, ℕ, suc, false, Option, none, some, List, [], ◌∷◌, ◌++◌, map,
  arith, All, All-append, if◌then◌else◌, ℤ, pos, negsuc, ◌≤ℤ◌, eqb_ℤ, eqb_ℤ_iff, Option-cases, inl,
  inr, Result, ok, err,
}
use conduit_connector_sdk_py.Prelude.Decimal.{
  Str, show, int, int-show, strip, NoSpace, is_space, strip-NoSpace, show_ℕ, show_ℕ-IsDigits,
  IsDigits-NoSpace, show_ℕ-ne-nil,
}
use conduit_connector_sdk_py.Handshake.{
  HandshakeError, join, is_blank, client_versions, highest_common, negotiate_text,
  no_common_version,
}
use conduit_connector_sdk_py.Handshake.Highest.{IsHighest, highest_common-None, highest_common-Some}
use conduit_connector_sdk_py.Handshake.Fields.{Lacks, split-join, show-Lacks}

show-NoSpace : (v : ℤ) → NoSpace (show v)
unfolding show conduit_connector_sdk_py.Prelude.Decimal.is_space
show-NoSpace (pos n) = IsDigits-NoSpace _ (show_ℕ-IsDigits n)
show-NoSpace (negsuc n) = (refl, IsDigits-NoSpace _ (show_ℕ-IsDigits (suc n)))

is_blank-strip : (s : Str) → NoSpace s → s ≢ [] → is_blank (strip s) ≡ false
is_blank-strip [] h ne = absurd (ne refl)
is_blank-strip (c ∷ s) h ne = rw (strip-NoSpace (c ∷ s) h) refl

show-ne-nil : (v : ℤ) → show v ≢ []
unfolding show
show-ne-nil (pos n) = show_ℕ-ne-nil n
show-ne-nil (negsuc n) = λ e. cc

client_versions-shown : (vs : List ℤ) → client_versions (map show vs) ≡ some vs
unfolding client_versions
client_versions-shown [] = refl
client_versions-shown (v ∷ vs) =
    rw
      (
        is_blank-strip (show v) (show-NoSpace v) (show-ne-nil v),
        int-show v,
        client_versions-shown vs,
      )
      refl

-- The host's list of versions, as it sets the variable.
abbrev pub advertised : ℤ → List ℤ → Str
advertised v vs = join b',' (map show (v ∷ vs))

shown-Lacks : (vs : List ℤ) → All (Lacks b',') (map show vs)
shown-Lacks [] = tt
shown-Lacks (v ∷ vs) = (show-Lacks b',' v refl refl, shown-Lacks vs)

join-NoSpace : (ps : List Str) → All NoSpace ps → NoSpace (join b',' ps)
unfolding join conduit_connector_sdk_py.Prelude.Decimal.is_space
join-NoSpace [] h = tt
join-NoSpace (p ∷ []) h = h.0
join-NoSpace (p ∷ q ∷ ps) (h, hs) =
    All-append (λ c. is_space c ≡ false) p (b',' ∷ join b',' (q ∷ ps)) h
      (refl, join-NoSpace (q ∷ ps) hs)

shown-NoSpace : (vs : List ℤ) → All NoSpace (map show vs)
shown-NoSpace [] = tt
shown-NoSpace (v ∷ vs) = (show-NoSpace v, shown-NoSpace vs)

append-ne-nil : (s t : Str) (c : ℕ) → s ++ c ∷ t ≢ []
append-ne-nil [] t c = λ e. cc
append-ne-nil (d ∷ s) t c = λ e. cc

join-ne-nil : (v : ℤ) (vs : List ℤ) → join b',' (map show (v ∷ vs)) ≢ []
unfolding join
join-ne-nil v [] = show-ne-nil v
join-ne-nil v (w ∷ vs) = append-ne-nil (show v) (join b',' (map show (w ∷ vs))) b','

advertised-not_blank : (v : ℤ) (vs : List ℤ) → is_blank (strip (advertised v vs)) ≡ false
advertised-not_blank v vs =
    is_blank-strip (advertised v vs) (join-NoSpace (map show (v ∷ vs)) (shown-NoSpace (v ∷ vs)))
      (join-ne-nil v vs)

abbrev outcome : Option ℤ → Result HandshakeError ℤ
outcome none = err no_common_version
outcome (some w) = ok w

err_ne_ok : {e : HandshakeError} {w : ℤ} → err e ≡ ok w → ⊥
err_ne_ok h = cc

ok_inj : {v w : ℤ} → outcome (some v) ≡ outcome (some w) → v ≡ w
ok_inj h = cc

antisym : (a b : ℤ) → a ≤ℤ b → b ≤ℤ a → a ≡ b
antisym a b h k = (eqb_ℤ_iff a b).0 (ground arith)

negotiate_text-advertised :
    (v : ℤ) (vs supported : List ℤ)
    → negotiate_text (advertised v vs) supported ≡ outcome (highest_common supported (v ∷ vs))
unfolding negotiate_text
negotiate_text-advertised v vs supported =
    rw
      (
        advertised-not_blank v vs,
        split-join b',' (show v) (map show vs) (shown-Lacks (v ∷ vs)),
        client_versions-shown (v ∷ vs),
      )
      refl

-- On the list that a host advertises, in decimal and separated by commas, the negotiation gives a
-- version exactly where it is the highest that both sides have.
pub negotiate_text_iff :
    (v : ℤ) (vs supported : List ℤ) (best : ℤ)
    → (negotiate_text (advertised v vs) supported ≡ ok best) ↔ IsHighest supported (v ∷ vs) best
negotiate_text_iff v vs supported best = elim (Option-cases (highest_common supported (v ∷ vs))) [
  | inl nothing ↦ (
    λ h.
        absurd (
          err_ne_ok
            (sym (ap outcome nothing) ∙ sym (negotiate_text-advertised v vs supported) ∙ h)),
    λ b. absurd (highest_common-None supported (v ∷ vs) nothing best b.0 b.1),
  )
  | inr (w, e) ↦ (
    λ h.
        subst (λ x. IsHighest supported (v ∷ vs) x)
          (ok_inj (sym (ap outcome e) ∙ sym (negotiate_text-advertised v vs supported) ∙ h))
          (highest_common-Some supported (v ∷ vs) w e),
    λ b.
        let top = highest_common-Some supported (v ∷ vs) w e in
        negotiate_text-advertised v vs supported
        ∙ ap outcome e
        ∙ ap ok (antisym w best (b.2 w top.0 top.1) (top.2 best b.0 b.1)),
  )
]
