-- ===== src/Build/Terminates.antt =====
-- How long `_resolve_transitive_distributions` of src/conduit/connector/_build.py loops.
use conduit_connector_sdk_py.Prelude.{
  ok-inj, ◌≡◌, refl, ◌∙◌, sym, ap, inl, inr, ℕ, ◌+◌, ◌≤◌, String, true, false, Bool-cases, List, [],
  ◌∷◌, if◌then◌else◌, length, Dict, lookup, ok, str_eq, eq_iff, arith,
}
use conduit_connector_sdk_py.Build.{
  Distribution, member, applying, direct_requirement_names, push_unseen,
}

-- the requirements of the distributions that are not in `seen`
unfoldable pub pending : Dict Distribution → List String → ℕ
pending [] seen = 0
pending ((n, d) ∷ env) seen =
    (if member n seen then 0 else length (applying d.requires [])) + pending env seen

pub push_unseen-length :
    (ds seen queue : List String) → length (push_unseen ds seen queue) ≤ length ds + length queue
unfolding push_unseen
push_unseen-length [] seen queue = omega arith
push_unseen-length (d ∷ ds) seen queue = elim (Bool-cases (member d seen)) [
  | inl e ↦ rw e (omega (arith, push_unseen-length ds seen queue))
  | inr e ↦ rw e (omega (arith, push_unseen-length ds seen (d ∷ queue)))
]

pending-le :
    (env : Dict Distribution) (n : String) (seen : List String)
    → pending env (n ∷ seen) ≤ pending env seen
unfolding pending
pending-le [] n seen = omega arith
pending-le ((k, d) ∷ env) n seen = ground (arith, pending-le env n seen)

module _ (env : Dict Distribution) (k n : String) (d : Distribution) where
  requirements-here :
      str_eq k n ≡ true → direct_requirement_names ((k, d) ∷ env) n ≡ ok (applying d.requires [])
  unfolding direct_requirement_names lookup
  requirements-here e = rw (direct_requirement_names, lookup, e) refl

  requirements-later :
      str_eq k n ≡ false
      → direct_requirement_names ((k, d) ∷ env) n ≡ direct_requirement_names env n
  unfolding direct_requirement_names lookup
  requirements-later e = rw (direct_requirement_names, lookup, e) refl

-- a name that is looked at for the first time
pub pending-seen :
    (env : Dict Distribution) (n : String) (seen deps : List String)
    → member n seen ≡ false
    → direct_requirement_names env n ≡ ok deps
    → pending env (n ∷ seen) + length deps ≤ pending env seen
unfolding pending direct_requirement_names lookup
pending-seen [] n seen deps h e = ground (arith, e)
pending-seen ((k, d) ∷ env) n seen deps h e = elim (Bool-cases (str_eq k n)) [
  | inl f ↦
      let p = (eq_iff k n).0 f in
      let same = ok-inj (sym (requirements-here env k n d f) ∙ e) in
      ground (
        arith,
        pending-le env n seen,
        ap length same,
        (eq_iff n k).1 (sym p),
        ap (λ k. member k seen) p,
        h,
      )
  | inr f ↦ ground (
    arith,
    pending-seen env n seen deps h (sym (requirements-later env k n d f) ∙ e),
    eq_iff n k,
    eq_iff k n,
    f,
  )
]
