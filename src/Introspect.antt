-- ===== src/Introspect.antt =====
-- `resolve_config_class` of src/conduit/connector/_introspect.py. A class of the resolution order is
-- the list of its `__orig_bases__`; a base has an origin and arguments, of which some are classes.
use conduit_connector_sdk_py.Prelude.{
  ◌≡◌, refl, ◌∙◌, ap, sym, ok-inj, inl, inr, String, true, Bool-cases, Option, Option-cases, none,
  some, List, [], ◌∷◌, if◌then◌else◌, In, Result, ok, err, str_eq, arith,
}

pub data TypeArgument : Type 0 where
  a_class : String → TypeArgument
  another : TypeArgument

pub record OrigBase : Type 0 where
  pub origin : String
  pub arguments : List TypeArgument

pub data IntrospectError : Type 0 where
  not_parameterized : IntrospectError

-- `args and isinstance(args[0], type)`
abbrev pub first_class : List TypeArgument → Option String
first_class [] = none
first_class (a_class c ∷ rest) = some c
first_class (another ∷ rest) = none

-- the loop over the bases of one class
unfoldable pub among_bases : String → List OrigBase → Option String
among_bases base [] = none
among_bases base (b ∷ bs) =
    let rest = among_bases base bs in
    if str_eq b.origin base
    then elim (first_class b.arguments) [ some c ↦ some c | none ↦ rest ]
    else rest

-- `resolve_config_class`
unfoldable pub resolve_config_class : String → List (List OrigBase) → Result IntrospectError String
resolve_config_class base [] = err not_parameterized
resolve_config_class base (klass ∷ mro) = elim (among_bases base klass) [
  | some c ↦ ok c
  | none ↦ resolve_config_class base mro
]

-- The base is an alias of `base` whose first argument is the class.
abbrev Parameterizes : String → String → OrigBase → Type 0
Parameterizes base c b = (str_eq b.origin base ≡ true) × (first_class b.arguments ≡ some c)

among_bases-In :
    (base c : String) (bs : List OrigBase)
    → among_bases base bs ≡ some c
    → (b : OrigBase) × In b bs × Parameterizes base c b
unfolding among_bases
among_bases-In base c [] h = ground (arith, h)
among_bases-In base c (b ∷ bs) h = elim (Bool-cases (str_eq b.origin base)) [
  | inr e ↦ let (d, i, p) = among_bases-In base c bs (rw (among_bases, e) at h) in (d, inr i, p)
  | inl e ↦ elim (Option-cases (first_class b.arguments)) [
    | inl n ↦
        let (d, i, p) = among_bases-In base c bs (rw (among_bases, e, n) at h) in (d, inr i, p)
    | inr (k, f) ↦ (b, inl refl, (e, f ∙ rw (among_bases, e, f) at h))
  ]
]

-- The class is the first argument of an alias of `base` among the bases of a class of the order.
resolve_config_class-In :
    (base c : String) (mro : List (List OrigBase))
    → resolve_config_class base mro ≡ ok c
    → (klass : List OrigBase) × In klass mro
      × ((b : OrigBase) × In b klass × Parameterizes base c b)
unfolding resolve_config_class
resolve_config_class-In base c [] h = ground (arith, h)
resolve_config_class-In base c (klass ∷ mro) h = elim (Option-cases (among_bases base klass)) [
  | inl n ↦
      let (k, i, p) = resolve_config_class-In base c mro (rw (resolve_config_class, n) at h) in
      (k, inr i, p)
  | inr (d, e) ↦ (
    klass,
    inl refl,
    among_bases-In base c klass (e ∙ ap some (ok-inj (rw (resolve_config_class, e) at h))),
  )
]

-- An alias of `base` with a class among the bases is not passed over.
among_bases-found :
    (base c : String) (bs : List OrigBase) (b : OrigBase)
    → In b bs
    → Parameterizes base c b
    → among_bases base bs ≡ none
    → ⊥
unfolding among_bases
among_bases-found base c [] b i w h = absurd i
among_bases-found base c (a ∷ bs) b (inl p) (e, f) h =
    ground (arith, rw (among_bases, ap (λ x. x.origin) p, e, ap (λ x. x.arguments) p, f) at h)
among_bases-found base c (a ∷ bs) b (inr i) w h = elim (Bool-cases (str_eq a.origin base)) [
  | inr e ↦ among_bases-found base c bs b i w (rw (among_bases, e) at h)
  | inl e ↦ elim (Option-cases (first_class a.arguments)) [
    | inl n ↦ among_bases-found base c bs b i w (rw (among_bases, e, n) at h)
    | inr (k, f) ↦ ground (arith, rw (among_bases, e, f) at h)
  ]
]

-- The search fails only where no class of the order has such an alias among its bases.
resolve_config_class-refused :
    (base c : String) (mro : List (List OrigBase)) (klass : List OrigBase) (b : OrigBase)
    → In klass mro
    → In b klass
    → Parameterizes base c b
    → resolve_config_class base mro ≡ err not_parameterized
    → ⊥
unfolding resolve_config_class
resolve_config_class-refused base c [] klass b i j w h = absurd i
resolve_config_class-refused base c (a ∷ mro) klass b i j w h =
    elim (Option-cases (among_bases base a)) [
      | inr (d, e) ↦ ground (arith, rw (resolve_config_class, e) at h)
      | inl e ↦ elim i [
        | inl p ↦ among_bases-found base c klass b j w (rw (sym p) e)
        | inr k ↦
            resolve_config_class-refused base c mro klass b k j w
              (rw (resolve_config_class, e) at h)
      ]
    ]
