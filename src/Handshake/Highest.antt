-- ===== src/Handshake/Highest.antt =====
-- The highest version that two lists have, `negotiate_protocol_version` of
-- src/conduit/connector/_handshake.py.
use mathlib.Core.Path.{subst}
use conduit_connector_sdk_py.Prelude.{
  ◌≡◌, ◌⊎◌, true, none, some, List, [], ◌∷◌, arith, ℤ, ◌≤ℤ◌, ltb_ℤ, mem, eqb_ℤ, eqb_ℤ_iff,
  Option-cases, Bool-cases, inl, inr,
}
use conduit_connector_sdk_py.Handshake.{max_of, highest_common}

-- A version that both lists have, and no version that both have is greater.
abbrev pub IsHighest : List ℤ → List ℤ → ℤ → Type 0
IsHighest supported client v =
    (mem v supported ≡ true)
    × (mem v client ≡ true)
    × ((w : ℤ) → mem w supported ≡ true → mem w client ≡ true → w ≤ℤ v)

-- Whether a version is in a list, from its head on.
mem-cases : (w v : ℤ) (vs : List ℤ) → mem w (v ∷ vs) ≡ true → (w ≡ v) ⊎ (mem w vs ≡ true)
unfolding mem
mem-cases w v vs h = elim (Bool-cases (eqb_ℤ w v)) [
  | inl same ↦ inl ((eqb_ℤ_iff w v).0 same)
  | inr other ↦ inr (rw other at h)
]

mem-here : (v : ℤ) (vs : List ℤ) → mem v (v ∷ vs) ≡ true
unfolding mem
mem-here v vs = ground arith

mem-there : (w v : ℤ) (vs : List ℤ) → mem w vs ≡ true → mem w (v ∷ vs) ≡ true
unfolding mem
mem-there w v vs h = ground arith

pub highest_common-None :
    (supported client : List ℤ)
    → highest_common supported client ≡ none
    → (w : ℤ) → mem w supported ≡ true
    → mem w client ≡ true
    → ⊥
unfolding highest_common mem
highest_common-None [] client e w s c = cc
highest_common-None (v ∷ supported) client e w s c = elim (Bool-cases (mem v client)) [
  | inl common ↦ none_ne_some (rw common at e)
  | inr alone ↦ elim (mem-cases w v supported s) [
    | inl same ↦ cc
    | inr deep ↦ highest_common-None supported client (rw alone at e) w deep c
  ]
]
  where
    none_ne_some : {a : ℤ} → some a ≡ none → ⊥
    none_ne_some h = cc

max_of-Some : (v w : ℤ) → (v ≤ℤ max_of v (some w)) × (w ≤ℤ max_of v (some w))
max_of-Some v w = ground arith

one-IsHighest :
    (u : ℤ) (supported client : List ℤ)
    → mem u client ≡ true
    → highest_common supported client ≡ none
    → IsHighest (u ∷ supported) client u
one-IsHighest u supported client common nothing = (
  mem-here u supported,
  common,
  λ w w_s w_c. elim (mem-cases w u supported w_s) [
    | inl same ↦ rw same (ground arith)
    | inr deep ↦ absurd (highest_common-None supported client nothing w deep w_c)
  ],
)

max_of-IsHighest :
    (u b : ℤ) (supported client : List ℤ)
    → mem u client ≡ true
    → IsHighest supported client b
    → IsHighest (u ∷ supported) client (max_of u (some b))
max_of-IsHighest u b supported client common (s, c, most) = (
  in_supported,
  in_client,
  λ w w_s w_c. elim (mem-cases w u supported w_s) [
    | inl same ↦ rw same (max_of-Some u b).0
    | inr deep ↦ ground (arith, most w deep w_c, max_of-Some u b)
  ],
)
  where
    in_supported : mem (max_of u (some b)) (u ∷ supported) ≡ true
    in_supported = elim (Bool-cases (ltb_ℤ u b)) [
      | inl less ↦ simp less (mem-there b u supported s)
      | inr not_less ↦ simp not_less (mem-here u supported)
    ]

    in_client : mem (max_of u (some b)) client ≡ true
    in_client = elim (Bool-cases (ltb_ℤ u b)) [
      | inl less ↦ simp less c
      | inr not_less ↦ simp not_less common
    ]

some_inj : {A : Type 0} {a b : A} → some a ≡ some b → a ≡ b
some_inj e = cc

pub highest_common-Some :
    (supported client : List ℤ) (v : ℤ)
    → highest_common supported client ≡ some v
    → IsHighest supported client v
unfolding highest_common
highest_common-Some [] client v e = cc
highest_common-Some (u ∷ supported) client v e = elim (Bool-cases (mem u client)) [
  | inr alone ↦
      let (s, c, most) = highest_common-Some supported client v (rw alone at e) in
      (
        mem-there v u supported s,
        c,
        λ w w_s w_c. elim (mem-cases w u supported w_s) [
          | inl same ↦ cc
          | inr deep ↦ most w deep w_c
        ],
      )
  | inl common ↦ elim (Option-cases (highest_common supported client)) [
    | inl nothing ↦
        subst (λ x. IsHighest (u ∷ supported) client x) (some_inj (rw (common, nothing) at e))
          (one-IsHighest u supported client common nothing)
    | inr (b, eb) ↦
        subst (λ x. IsHighest (u ∷ supported) client x) (some_inj (rw (common, eb) at e))
          (max_of-IsHighest u b supported client common (highest_common-Some supported client b eb))
  ]
]
