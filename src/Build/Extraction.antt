-- ===== src/Build/Extraction.antt =====
-- What an artifact's entry script finds extracted, src/conduit/connector/_build.py.
use mathlib.Core.Path.{subst}
use conduit_connector_sdk_py.Prelude.{
  ◌≡◌, refl, ◌∙◌, ◌⊎◌, inl, inr, String, Bool, true, false, Bool-cases, some, List, [], ◌∷◌,
  if◌then◌else◌, In, lookup, insert, lookup-insert, str_eq, eq_iff, arith,
}
use conduit_connector_sdk_py.Build.Bootstrap.{
  payload_names, torn, whole, Target, Phase, checking, extracting, writing, running_entry, advance,
  LaunchEvent, goes_on, relaunched, on_launch, launches,
}

-- The file has been written.
abbrev pub IsWhole : Target → String → Type 0
IsWhole t n = lookup n t.files ≡ some whole

abbrev pub AllWhole : List String → Target → Type 0
AllWhole names t = (n : String) → In n (payload_names names) → IsWhole t n

-- What each phase has written already.
unfoldable pub Written : List String → Target → Phase → Type 0
Written names t checking = Unit
Written names t (extracting ns) =
    (t.marker ≡ false) × ((n : String) → In n (payload_names names) → In n ns ⊎ IsWhole t n)
Written names t (writing m ns) =
    (t.marker ≡ false) × ((n : String) → In n (payload_names names) → In n (m ∷ ns) ⊎ IsWhole t n)
Written names t running_entry = AllWhole names t

-- The marker stands only where every file is whole.
abbrev pub IsExtraction : List String → Target × Phase → Type 0
IsExtraction names (t, p) = (t.marker ≡ true → AllWhole names t) × Written names t p

IsWhole-insert :
    (t : Target) (m n : String)
    → IsWhole t n
    → (m ≡ n) ⊎ IsWhole (record t { files = insert m torn t.files }) n
IsWhole-insert t m n w = elim (Bool-cases (str_eq m n)) [
  | inl e ↦ inl ((eq_iff m n).0 e)
  | inr e ↦ inr (lookup-insert m n torn t.files ∙ rw e w)
]

whole-insert :
    (t : Target) (m n : String)
    → (m ≡ n) ⊎ IsWhole t n
    → IsWhole (record t { files = insert m whole t.files }) n
whole-insert t m n w = elim (Bool-cases (str_eq m n)) [
  | inl e ↦ lookup-insert m n whole t.files ∙ rw e refl
  | inr e ↦ elim w [
    | inl p ↦ absurd (ground (arith, eq_iff m n, p, e))
    | inr v ↦ lookup-insert m n whole t.files ∙ rw e v
  ]
]

check-IsExtraction :
    (names : List String) (t : Target)
    → (t.marker ≡ true → AllWhole names t)
    → (b : Bool) → t.marker ≡ b
    → IsExtraction names (if b then (t, running_entry) else (t, extracting (payload_names names)))
unfolding Written
check-IsExtraction names t marked true e = (marked, marked e)
check-IsExtraction names t marked false e = (marked, (e, λ n i. inl i))

advance-IsExtraction :
    (names : List String) (t : Target) (p : Phase)
    → IsExtraction names (t, p)
    → IsExtraction names (advance names t p)
unfolding advance Written
advance-IsExtraction names t checking (marked, w) = check-IsExtraction names t marked t.marker refl
advance-IsExtraction names t (extracting []) (marked, (e, w)) =
    let all : AllWhole names t = λ n i. elim (w n i) [ inl j ↦ absurd j | inr v ↦ v ] in
    (λ h. all, all)
advance-IsExtraction names t (extracting (m ∷ ns)) (marked, (e, w)) = (
  λ h. absurd (ground (arith, e, h)),
  (
    e,
    λ n i. elim (w n i) [
      | inl j ↦ inl j
      | inr v ↦ elim (IsWhole-insert t m n v) [ inl p ↦ inl (inl p) | inr u ↦ inr u ]
    ],
  ),
)
advance-IsExtraction names t (writing m ns) (marked, (e, w)) = (
  λ h. absurd (ground (arith, e, h)),
  (
    e,
    λ n i. elim (w n i) [
      | inl (inl p) ↦ inr (whole-insert t m n (inl p))
      | inl (inr j) ↦ inl j
      | inr v ↦ inr (whole-insert t m n (inr v))
    ],
  ),
)
advance-IsExtraction names t running_entry h = h

launches-IsExtraction :
    (names : List String) (es : List LaunchEvent) (s : Target × Phase)
    → IsExtraction names s
    → IsExtraction names (launches names s es)
unfolding launches on_launch Written
launches-IsExtraction names [] s h = h
launches-IsExtraction names (goes_on ∷ es) (t, p) h =
    launches-IsExtraction names es (advance names t p) (advance-IsExtraction names t p h)
launches-IsExtraction names (relaunched ∷ es) (t, p) h =
    launches-IsExtraction names es (t, checking) (h.0, tt)

-- From an empty directory, however often the artifact is killed and launched again, one process at
-- a time: whenever its entry script runs, every file of the payload has been written whole.
pub launches-AllWhole :
    (names : List String) (es : List LaunchEvent) (t : Target)
    → launches names (record { files = []; marker = false }, checking) es ≡ (t, running_entry)
    → AllWhole names t
unfolding Written
launches-AllWhole names es t h =
    let inv =
      launches-IsExtraction names es (record { files = []; marker = false }, checking)
        (λ e. absurd (ground (arith, e)), tt) in
    (subst (λ s. IsExtraction names s) h inv).1
