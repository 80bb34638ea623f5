-- ===== src/Client/Rows.antt =====
-- Calls in a row: `call_all`, for the loops of `Client.run` in src/conduit/client/client.py.
use mathlib.Core.Path.{subst}
use conduit_connector_sdk_py.Prelude.{
  ◌≡◌, refl, ◌⊎◌, inl, inr, sym, ap, ◌∙◌, List, [], ◌∷◌, ◌++◌, append-nil, append_assoc, Result, ok,
  err,
}
use conduit_connector_sdk_py.Client.Errors.{ConduitError, RpcError, from_rpc_error}
use conduit_connector_sdk_py.Client.Engine.{Request, Response, Engine, call, call_all, and_then}

-- Each request in turn is answered without an error.
unfoldable pub Answered : Engine → List Request → List Request → Type 0
Answered engine sent [] = Unit
Answered engine sent (r ∷ rs) =
    ((response : Response) × (engine sent r ≡ ok response)) × Answered engine (sent ++ r ∷ []) rs

-- how a row of calls ends
pub data Ended (engine : Engine) (sent rs : List Request)
    : Result ConduitError (Unit {0}) × List Request → Type 0 where
  finished : Answered engine sent rs → Ended engine sent rs (ok tt, sent ++ rs)
  failed :
      (done : List Request) (r : Request) (rest : List Request) (x : RpcError)
      → rs ≡ done ++ r ∷ rest
      → Answered engine sent done
      → engine (sent ++ done) r ≡ err x
      → Ended engine sent rs (err (from_rpc_error x), sent ++ (done ++ r ∷ []))

pub Answer-cases :
    (r : Result RpcError Response)
    → ((response : Response) × (r ≡ ok response)) ⊎ ((x : RpcError) × (r ≡ err x))
Answer-cases (ok response) = inl (response, refl)
Answer-cases (err x) = inr (x, refl)

module _ (engine : Engine) (sent : List Request) (r : Request) where
  pub call-ok :
      (response : Response)
      → engine sent r ≡ ok response
      → call engine sent r ≡ (ok response, sent ++ r ∷ [])
  unfolding call
  call-ok response e = rw (call, e) refl

  pub call-err :
      (x : RpcError)
      → engine sent r ≡ err x
      → call engine sent r ≡ (err (from_rpc_error x), sent ++ r ∷ [])
  unfolding call
  call-err x e = rw (call, e) refl

  module _ (rs : List Request) where
    call_all-ok :
        (response : Response)
        → engine sent r ≡ ok response
        → call_all engine sent (r ∷ rs) ≡ call_all engine (sent ++ r ∷ []) rs
    unfolding call_all and_then
    call_all-ok response e =
        ap (λ o. and_then o (λ response after. call_all engine after rs)) (call-ok response e)

    call_all-err :
        (x : RpcError)
        → engine sent r ≡ err x
        → call_all engine sent (r ∷ rs) ≡ (err (from_rpc_error x), sent ++ r ∷ [])
    unfolding call_all and_then
    call_all-err x e =
        ap (λ o. and_then o (λ response after. call_all engine after rs)) (call-err x e)

-- one answered call before the others
Ended-after :
    {engine : Engine} {sent rs : List Request} (r : Request) (response : Response)
    (e : engine sent r ≡ ok response) (o : Result ConduitError (Unit {0}) × List Request)
    → Ended engine (sent ++ r ∷ []) rs o
    → Ended engine sent (r ∷ rs) o
unfolding Answered
Ended-after {engine} {sent} {rs} r response e _ (finished a) =
    subst (λ h. Ended engine sent (r ∷ rs) (ok tt, h)) (sym (append_assoc sent (r ∷ []) rs))
      (finished ((response, e), a))
Ended-after {engine} {sent} {rs} r response e _ (failed done q rest x same a f) =
    subst (λ h. Ended engine sent (r ∷ rs) (err (from_rpc_error x), h))
      (sym (append_assoc sent (r ∷ []) (done ++ q ∷ [])))
      (failed (r ∷ done) q rest x (ap (λ t. r ∷ t) same) ((response, e), a)
        (ap (λ h. engine h q) (sym (append_assoc sent (r ∷ []) done)) ∙ f))

pub call_all-Ended :
    (engine : Engine) (sent rs : List Request) → Ended engine sent rs (call_all engine sent rs)
unfolding call_all Answered
call_all-Ended engine sent [] =
    subst (λ h. Ended engine sent [] (ok tt, h)) (append-nil sent) (finished tt)
call_all-Ended engine sent (r ∷ rs) = elim (Answer-cases (engine sent r)) [
  | inl (response, e) ↦ rw (call_all-ok engine sent r rs response e) (
      Ended-after r response e (call_all engine (sent ++ r ∷ []) rs)
        (call_all-Ended engine (sent ++ r ∷ []) rs))
  | inr (x, e) ↦
      rw (call_all-err engine sent r rs x e)
        (failed [] r rs x refl tt (ap (λ h. engine h r) (append-nil sent) ∙ e))
]

pub and_then-call_all :
    (engine : Engine) (sent rs qs : List Request)
    → and_then (call_all engine sent rs) (λ _ s. call_all engine s qs)
      ≡ call_all engine sent (rs ++ qs)
unfolding call_all and_then
and_then-call_all engine sent [] qs = refl
and_then-call_all engine sent (r ∷ rs) qs = elim (Answer-cases (engine sent r)) [
  | inl (response, e) ↦
      rw (call_all-ok engine sent r rs response e, call_all-ok engine sent r (rs ++ qs) response e)
        (and_then-call_all engine (sent ++ r ∷ []) rs qs)
  | inr (x, e) ↦
      rw (call_all-err engine sent r rs x e, call_all-err engine sent r (rs ++ qs) x e) refl
]
