-- ===== src/Build/Closure.antt =====
-- The distributions that `_resolve_transitive_distributions` of src/conduit/connector/_build.py
-- finds, against reachability in the graph of requirements.
use conduit_connector_sdk_py.Prelude.{
  ◌≡◌, sym, ◌⊎◌, inl, inr, String, true, Bool-cases, List, [], ◌∷◌, ◌++◌, Dict, ok, str_eq, eq_iff,
  arith, In,
}
use conduit_connector_sdk_py.Build.{Distribution, member, direct_requirement_names, push_unseen}

-- `name` is a root or a requirement of a distribution that is reached.
pub data Reached (env : Dict Distribution) (roots : List String) : String → Type 0 where
  root : (n : String) → In n roots → Reached env roots n
  required :
      (m n : String) (deps : List String)
      → Reached env roots m
      → direct_requirement_names env m ≡ ok deps
      → In n deps
      → Reached env roots n

-- No name stands twice.
unfoldable pub Distinct : List String → Type 0
Distinct [] = Unit
Distinct (n ∷ ns) = (In n ns → ⊥) × Distinct ns

pub member-In : (n : String) (ns : List String) → member n ns ≡ true → In n ns
member-In n [] h = ground (arith, h)
member-In n (m ∷ ns) h = elim (Bool-cases (str_eq m n)) [
  | inl e ↦ inl ((eq_iff m n).0 e)
  | inr e ↦ inr (member-In n ns (ground (arith, e, h)))
]

pub In-member : (n : String) (ns : List String) → In n ns → member n ns ≡ true
In-member n [] i = absurd i
In-member n (m ∷ ns) (inl e) = ground (arith, eq_iff m n, e)
In-member n (m ∷ ns) (inr i) = ground (arith, In-member n ns i)

pub In-append : (n : String) (ns ms : List String) → In n (ns ++ ms) → In n ns ⊎ In n ms
In-append n [] ms i = inr i
In-append n (m ∷ ns) ms (inl e) = inl (inl e)
In-append n (m ∷ ns) ms (inr i) = elim (In-append n ns ms i) [ inl j ↦ inl (inr j) | inr j ↦ inr j ]

pub append-In : (n : String) (ns ms : List String) → In n ns ⊎ In n ms → In n (ns ++ ms)
append-In n [] ms (inl i) = absurd i
append-In n [] ms (inr i) = i
append-In n (m ∷ ns) ms (inl (inl e)) = inl e
append-In n (m ∷ ns) ms (inl (inr i)) = inr (append-In n ns ms (inl i))
append-In n (m ∷ ns) ms (inr i) = inr (append-In n ns ms (inr i))

pub append-Distinct :
    (ns : List String) (n : String) → Distinct ns → (In n ns → ⊥) → Distinct (ns ++ n ∷ [])
unfolding Distinct
append-Distinct [] n d h = (λ i. i, tt)
append-Distinct (m ∷ ns) n (f, d) h = (
  λ i. elim (In-append m ns (n ∷ []) i) [
    | inl j ↦ f j
    | inr (inl e) ↦ h (inl (sym e))
    | inr (inr j) ↦ j
  ],
  append-Distinct ns n d (λ i. h (inr i)),
)

-- what is on the queue after the requirements of a name are pushed
pub push_unseen-In :
    (ds seen queue : List String) (n : String)
    → In n (push_unseen ds seen queue)
    → In n ds ⊎ In n queue
unfolding push_unseen
push_unseen-In [] seen queue n i = inr i
push_unseen-In (d ∷ ds) seen queue n i = elim (Bool-cases (member d seen)) [
  | inl e ↦ elim (push_unseen-In ds seen queue n (rw e at i)) [
    | inl j ↦ inl (inr j)
    | inr j ↦ inr j
  ]
  | inr e ↦ elim (push_unseen-In ds seen (d ∷ queue) n (rw e at i)) [
    | inl j ↦ inl (inr j)
    | inr (inl f) ↦ inl (inl f)
    | inr (inr j) ↦ inr j
  ]
]

pub queue-push_unseen :
    (ds seen queue : List String) (n : String) → In n queue → In n (push_unseen ds seen queue)
unfolding push_unseen
queue-push_unseen [] seen queue n i = i
queue-push_unseen (d ∷ ds) seen queue n i = elim (Bool-cases (member d seen)) [
  | inl e ↦ rw e (queue-push_unseen ds seen queue n i)
  | inr e ↦ rw e (queue-push_unseen ds seen (d ∷ queue) n (inr i))
]

pub unseen-push_unseen :
    (ds seen queue : List String) (n : String)
    → In n ds
    → In n seen ⊎ In n (push_unseen ds seen queue)
unfolding push_unseen
unseen-push_unseen [] seen queue n i = absurd i
unseen-push_unseen (d ∷ ds) seen queue n i = elim (Bool-cases (member d seen)) [
  | inl e ↦ elim i [
    | inl f ↦ inl (rw f at (member-In d seen e))
    | inr j ↦ rw e (unseen-push_unseen ds seen queue n j)
  ]
  | inr e ↦ elim i [
    | inl f ↦ inr (rw e (queue-push_unseen ds seen (d ∷ queue) n (inl f)))
    | inr j ↦ rw e (unseen-push_unseen ds seen (d ∷ queue) n j)
  ]
]
