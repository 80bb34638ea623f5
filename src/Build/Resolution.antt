-- ===== src/Build/Resolution.antt =====
-- What `_resolve_transitive_distributions` of src/conduit/connector/_build.py returns.
use mathlib.Core.Path.{subst}
use conduit_connector_sdk_py.Prelude.{
  ◌≡◌, refl, ◌∙◌, sym, ap, ◌⊎◌, inl, inr, zero, suc, ℕ, ◌+◌, ◌≤◌, String, Bool-cases, some, List,
  [], ◌∷◌, ◌++◌, length, Dict, Result, ok, err, arith, In, ok-inj,
}
use conduit_connector_sdk_py.Build.{
  BuildError, Distribution, member, direct_requirement_names, push_unseen, resolve,
  resolve_transitive_distributions,
}
use conduit_connector_sdk_py.Build.Closure.{
  Reached, root, required, Distinct, member-In, In-member, append-In, In-append, append-Distinct,
  push_unseen-In, queue-push_unseen, unseen-push_unseen,
}
use conduit_connector_sdk_py.Build.Terminates.{pending, pending-seen, push_unseen-length}

-- The loop's invariant.
record Inv (env : Dict Distribution) (roots queue seen resolved : List String) : Type 0 where
  seen_in : (n : String) → In n seen → In n resolved
  in_seen : (n : String) → In n resolved → In n seen
  queued : (n : String) → In n queue → Reached env roots n
  found : (n : String) → In n resolved → Reached env roots n
  closed :
      (m n : String) (deps : List String)
      → In m resolved
      → direct_requirement_names env m ≡ ok deps
      → In n deps
      → In n resolved ⊎ In n queue
  rooted : (n : String) → In n roots → In n resolved ⊎ In n queue
  distinct : Distinct resolved

-- how the resolution ends: with each name that is reached, once, or at one that is not installed
pub data Resolved (env : Dict Distribution) (roots : List String)
    : Result BuildError (List String) → Type 0 where
  complete :
      (names : List String)
      → Distinct names
      → ((n : String) → In n names → Reached env roots n)
      → ((n : String) → Reached env roots n → In n names)
      → Resolved env roots (ok names)
  lacking :
      (n : String) (e : BuildError)
      → Reached env roots n
      → direct_requirement_names env n ≡ err e
      → Resolved env roots (err e)

Names-cases :
    (r : Result BuildError (List String))
    → ((names : List String) × (r ≡ ok names)) ⊎ ((e : BuildError) × (r ≡ err e))
Names-cases (ok names) = inl (names, refl)
Names-cases (err e) = inr (e, refl)

module _ (env : Dict Distribution) (roots : List String) where
  start-Inv : Inv env roots roots [] []
  unfolding Distinct
  start-Inv = record {
    seen_in = λ n i. i;
    in_seen = λ n i. i;
    queued = root;
    found = λ n i. absurd i;
    closed = λ m n deps i. absurd i;
    rooted = λ n i. inr i;
    distinct = tt;
  }

  -- a name that is popped again
  skip-Inv :
      (name : String) (queue seen resolved : List String)
      → In name seen
      → Inv env roots (name ∷ queue) seen resolved
      → Inv env roots queue seen resolved
  skip-Inv name queue seen resolved i v =
      let dropped : (n : String)
          → In n resolved ⊎ In n (name ∷ queue)
          → In n resolved ⊎ In n queue =
        λ n w. elim w [
          | inl j ↦ inl j
          | inr (inl e) ↦ inl (v.seen_in n (rw e at i))
          | inr (inr j) ↦ inr j
        ] in
      record {
        seen_in = v.seen_in;
        in_seen = v.in_seen;
        queued = λ n j. v.queued n (inr j);
        found = v.found;
        closed = λ m n deps j e k. dropped n (v.closed m n deps j e k);
        rooted = λ n j. dropped n (v.rooted n j);
        distinct = v.distinct;
      }

  -- a name that is resolved
  module _ (name : String) (queue seen resolved deps : List String) (new : In name seen → ⊥)
      (e : direct_requirement_names env name ≡ ok deps)
      (v : Inv env roots (name ∷ queue) seen resolved) where
    settled :
        (n : String)
        → In n resolved ⊎ In n (name ∷ queue)
        → In n (resolved ++ name ∷ []) ⊎ In n (push_unseen deps (name ∷ seen) queue)
    settled n (inl j) = inl (append-In n resolved (name ∷ []) (inl j))
    settled n (inr (inl f)) = inl (append-In n resolved (name ∷ []) (inr (inl f)))
    settled n (inr (inr j)) = inr (queue-push_unseen deps (name ∷ seen) queue n j)

    pushed :
        (n : String)
        → In n deps
        → In n (resolved ++ name ∷ []) ⊎ In n (push_unseen deps (name ∷ seen) queue)
    pushed n i = elim (unseen-push_unseen deps (name ∷ seen) queue n i) [
      | inl (inl f) ↦ inl (append-In n resolved (name ∷ []) (inr (inl f)))
      | inl (inr j) ↦ inl (append-In n resolved (name ∷ []) (inl (v.seen_in n j)))
      | inr j ↦ inr j
    ]

    closed_after :
        (m n : String) (ds : List String)
        → In m (resolved ++ name ∷ [])
        → direct_requirement_names env m ≡ ok ds
        → In n ds
        → In n (resolved ++ name ∷ []) ⊎ In n (push_unseen deps (name ∷ seen) queue)
    closed_after m n ds i f k = elim (In-append m resolved (name ∷ []) i) [
      | inl j ↦ settled n (v.closed m n ds j f k)
      | inr (inl p) ↦
          pushed n (
            subst (λ l. In n l) (ok-inj (sym f ∙ (ap (direct_requirement_names env) (sym p) ∙ e)))
              k)
      | inr (inr j) ↦ absurd j
    ]

    step-Inv :
        Inv env roots (push_unseen deps (name ∷ seen) queue) (name ∷ seen) (resolved ++ name ∷ [])
    step-Inv = record {
      seen_in = λ n i. elim i [
        | inl f ↦ append-In n resolved (name ∷ []) (inr (inl f))
        | inr j ↦ append-In n resolved (name ∷ []) (inl (v.seen_in n j))
      ];
      in_seen = λ n i. elim (In-append n resolved (name ∷ []) i) [
        | inl j ↦ inr (v.in_seen n j)
        | inr (inl f) ↦ inl f
        | inr (inr j) ↦ absurd j
      ];
      queued = λ n i. elim (push_unseen-In deps (name ∷ seen) queue n i) [
        | inl j ↦ required name n deps (v.queued name (inl refl)) e j
        | inr j ↦ v.queued n (inr j)
      ];
      found = λ n i. elim (In-append n resolved (name ∷ []) i) [
        | inl j ↦ v.found n j
        | inr (inl f) ↦ subst (λ n. Reached env roots n) f (v.queued name (inl refl))
        | inr (inr j) ↦ absurd j
      ];
      closed = closed_after;
      rooted = λ n i. settled n (v.rooted n i);
      distinct = append-Distinct resolved name v.distinct (λ i. new (v.in_seen name i));
    }

  all_found :
      (seen resolved : List String)
      → Inv env roots [] seen resolved
      → (n : String) → Reached env roots n
      → In n resolved
  all_found seen resolved v n (root _ i) = elim (v.rooted n i) [ inl j ↦ j | inr j ↦ absurd j ]
  all_found seen resolved v n (required m _ deps r e i) =
      elim (v.closed m n deps (all_found seen resolved v m r) e i) [ inl j ↦ j | inr j ↦ absurd j ]

  resolve-Resolved :
      (fuel : ℕ) (queue seen resolved : List String)
      → Inv env roots queue seen resolved
      → suc (length queue + pending env seen) ≤ fuel
      → (o : Result BuildError (List String)) × (resolve env fuel queue seen resolved ≡ some o)
        × Resolved env roots o
  unfolding resolve
  resolve-Resolved zero queue seen resolved v f = absurd (omega (arith, f))
  resolve-Resolved (suc fuel) [] seen resolved v f =
      (ok resolved, refl, complete resolved v.distinct v.found (all_found seen resolved v))
  resolve-Resolved (suc fuel) (name ∷ queue) seen resolved v f =
      elim (Bool-cases (member name seen)) [
        | inl s ↦
            rw (resolve, s)
              (resolve-Resolved fuel queue seen resolved
                (skip-Inv name queue seen resolved (member-In name seen s) v) (omega (arith, f)))
        | inr s ↦ elim (Names-cases (direct_requirement_names env name)) [
          | inr (e, h) ↦
              (err e, rw (resolve, s, h) refl, lacking name e (v.queued name (inl refl)) h)
          | inl (deps, h) ↦
              rw (resolve, s, h)
                (resolve-Resolved fuel (push_unseen deps (name ∷ seen) queue) (name ∷ seen)
                  (resolved ++ name ∷ [])
                  (step-Inv name queue seen resolved deps
                    (λ i. ground (arith, In-member name seen i, s)) h v)
                  (omega (
                    arith,
                    f,
                    push_unseen-length deps (name ∷ seen) queue,
                    pending-seen env name seen deps s h,
                  )))
        ]
      ]

  -- With fuel for the roots and the requirements of all installed distributions, the resolution
  -- ends: with exactly the names that are reached, each once, or at one that is not installed.
  pub resolve_transitive_distributions-Resolved :
      (fuel : ℕ)
      → suc (length roots + pending env []) ≤ fuel
      → (o : Result BuildError (List String)) × (resolve_transitive_distributions env fuel roots
          ≡ some o)
        × Resolved env roots o
  unfolding resolve_transitive_distributions
  resolve_transitive_distributions-Resolved fuel f = resolve-Resolved fuel roots [] [] start-Inv f
