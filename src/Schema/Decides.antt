-- ===== src/Schema/Decides.antt =====
-- What an outcome of `_validate_value` says about the value, loop by loop and schema by schema.
use conduit_connector_sdk_py.Prelude.{
  ◌≡◌, refl, sym, ◌⊎◌, inl, inr, Bool, true, false, List, [], ◌∷◌, arith, Result, ok, err, ◌>>◌,
  raise_if, In,
}
use conduit_connector_sdk_py.Avro.{Schema}
use conduit_connector_sdk_py.Schema.{
  Failure, type_error, value_error, overflow_error, recursion_error, or_continue, each,
  try_branches,
}

-- `except (TypeError, ValueError, OverflowError)` takes the error.
unfoldable pub Caught : Failure → Type 0
Caught type_error = Unit
Caught value_error = Unit
Caught overflow_error = Unit
Caught _ = ⊥

-- What returns has the property, what raises one of the three errors has not, and there is no
-- other error but the interpreter's own.
pub data Decided (P : Type 0) : Result Failure (Unit {0}) → Type 0 where
  returns : P → Decided P (ok tt)
  raises : (e : Failure) → Caught e → (P → ⊥) → Decided P (err e)
  gives_up : Decided P (err recursion_error)

pub Decided-iff :
    {P Q : Type 0} {r : Result Failure (Unit {0})} → (P → Q) → (Q → P) → Decided P r → Decided Q r
Decided-iff f g (returns p) = returns (f p)
Decided-iff f g (raises e c n) = raises e c (λ q. n (g q))
Decided-iff f g gives_up = gives_up

-- one step, and then the rest
pub Decided-seq :
    {P Q : Type 0} {r s : Result Failure (Unit {0})}
    → Decided P r
    → Decided Q s
    → Decided (P × Q) (r >> s)
Decided-seq (returns p) (returns q) = returns (p, q)
Decided-seq (returns p) (raises e c n) = raises e c (λ b. n b.1)
Decided-seq (returns p) gives_up = gives_up
Decided-seq (raises e c n) d = raises e c (λ b. n b.0)
Decided-seq gives_up d = gives_up

Caught-continues :
    {P : Type 0} {s : Result Failure (Unit {0})} (e : Failure)
    → Caught e
    → Decided P s
    → Decided P (or_continue (err e) s)
unfolding or_continue Caught
Caught-continues type_error c d = d
Caught-continues value_error c d = d
Caught-continues overflow_error c d = d
Caught-continues _ c d = absurd c

-- A raised error is passed over.
pub Decided-or_continue :
    {P Q : Type 0} {r s : Result Failure (Unit {0})}
    → Decided P r
    → Decided Q s
    → Decided (P ⊎ Q) (or_continue r s)
unfolding or_continue
Decided-or_continue (returns p) d = returns (inl p)
Decided-or_continue (raises e c n) d =
    Caught-continues e c (Decided-iff inr (λ b. elim b [ inl p ↦ absurd (n p) | inr q ↦ q ]) d)
Decided-or_continue gives_up d = gives_up

-- a test that raises one of the errors
pub Decided-raise_if :
    {P : Type 0} (b : Bool) (e : Failure)
    → Caught e
    → ((b ≡ false) → P)
    → (P → b ≡ false)
    → Decided P (raise_if b e)
Decided-raise_if false e c f g = returns (f refl)
Decided-raise_if true e c f g = raises e c (λ p. ground (arith, g p))

pub Decided-each :
    {A : Type 0} {P : A → Type 0} {body : A → Result Failure (Unit {0})} (xs : List A)
    → ((a : A) → Decided (P a) (body a))
    → Decided ((a : A) → In a xs → P a) (each body xs)
unfolding each
Decided-each [] h = returns (λ a i. absurd i)
Decided-each {P = P} (x ∷ xs) h =
    Decided-iff (λ (p, q) a i. elim i [ inl e ↦ rw e at p | inr j ↦ q a j ])
      (λ f. (f x (inl refl), λ a i. f a (inr i))) (Decided-seq (h x) (Decided-each xs h))

pub Decided-try_branches :
    {P : Schema → Type 0} {check : Schema → Result Failure (Unit {0})} (bs : List Schema)
    → ((b : Schema) → Decided (P b) (check b))
    → Decided ((b : Schema) × In b bs × P b) (try_branches check bs)
unfolding try_branches Caught
Decided-try_branches [] h = raises type_error tt (λ (b, i, p). absurd i)
Decided-try_branches {P = P} (x ∷ xs) h =
    Decided-iff (λ q. elim q [ inl p ↦ (x, inl refl, p) | inr (b, i, p) ↦ (b, inr i, p) ])
      (λ (b, i, p). elim i [ inl e ↦ inl (rw (sym e) at p) | inr j ↦ inr (b, j, p) ])
      (Decided-or_continue (h x) (Decided-try_branches xs h))
