-- ===== src/Schema/Refers.antt =====
-- References to named types, `_resolve_named`: which schema is found, against the rule `Refers`.
use conduit_connector_sdk_py.Prelude.{
  ◌≡◌, refl, ◌∙◌, sym, ap, ◌↔◌, ◌⊎◌, inl, inr, String, Bool, true, false, Bool-cases, Option-cases,
  Option, none, some, some-inj, [], ◌∷◌, ◌++◌, ◌||◌, if◌then◌else◌, Dict, lookup, str_eq, In,
  eq_iff, ==_iff, arith,
}
use conduit_connector_sdk_py.Prelude.Decimal.{Str, codes, same_text, ends_with}
use conduit_connector_sdk_py.Avro.{Schema}
use conduit_connector_sdk_py.Schema.{resolve_named, resolve_suffix}
use conduit_connector_sdk_py.Schema.Conforms.{IsQualified, First, Absent, Refers}

same_text_iff : (s t : Str) → (same_text s t ≡ true) ↔ (s ≡ t)
unfolding same_text
same_text_iff [] [] = (λ h. refl, λ h. refl)
same_text_iff [] (d ∷ t) = (λ h. cc, λ h. cc)
same_text_iff (c ∷ s) [] = (λ h. cc, λ h. cc)
same_text_iff (c ∷ s) (d ∷ t) = (
  λ h. ground (arith, (same_text_iff s t).0, ==_iff c d, h),
  λ h. ground (arith, (same_text_iff s t).1, ==_iff c d, h),
)

-- `endswith` finds a text that stands after some other.
ends_with_iff :
    (suffix s : Str) → (ends_with suffix s ≡ true) ↔ ((before : Str) × (s ≡ before ++ suffix))
unfolding ends_with
ends_with_iff [] [] = (λ h. ([], refl), λ h. refl)
ends_with_iff (d ∷ suffix) [] = (λ h. cc, λ (before, e). absurd (longer before e))
  where
    longer : (before : Str) → ([] ≡ before ++ d ∷ suffix) → ⊥
    longer [] e = cc
    longer (x ∷ before) e = cc
ends_with_iff suffix (c ∷ s) = (
  λ h. elim (Bool-cases (same_text (c ∷ s) suffix)) [
    | inl e ↦ ([], (same_text_iff (c ∷ s) suffix).0 e)
    | inr e ↦
        let (before, q) = (ends_with_iff suffix s).0 (ground (arith, e, h)) in
        (c ∷ before, ap (λ r. c ∷ r) q)
  ],
  λ (before, e). stands (ends_with_iff suffix s).1 before e,
)
  where
    stands :
        (((before : Str) × (s ≡ before ++ suffix)) → ends_with suffix s ≡ true)
        → (before : Str) → c ∷ s ≡ before ++ suffix
        → same_text (c ∷ s) suffix || ends_with suffix s ≡ true
    stands later [] e = rw ((same_text_iff (c ∷ s) suffix).1 e) refl
    stands later (x ∷ before) e = ground (arith, later (before, cc))

-- one turn of a search, and one that has found nothing
found_iff :
    {P Q : Type 0} (b : Bool) (t s : Schema) (r : Option Schema)
    → ((b ≡ true) ↔ P)
    → ((r ≡ some s) ↔ Q)
    → ((if b then some t else r) ≡ some s) ↔ ((P × (t ≡ s)) ⊎ ((P → ⊥) × Q))
found_iff true t s r p q = (
  λ h. inl (p.0 refl, some-inj h),
  λ h. elim h [ inl (_, e) ↦ ap some e | inr (n, _) ↦ absurd (n (p.0 refl)) ],
)
found_iff false t s r p q = (
  λ h. inr (λ x. cc (p.1 x), q.0 h),
  λ h. elim h [ inl (x, _) ↦ absurd (cc (p.1 x)) | inr (_, y) ↦ q.1 y ],
)

absent_iff :
    {P Q : Type 0} (b : Bool) (t : Schema) (r : Option Schema)
    → ((b ≡ true) ↔ P)
    → ((r ≡ none) ↔ Q)
    → ((if b then some t else r) ≡ none) ↔ ((P → ⊥) × Q)
absent_iff true t r p q = (λ h. cc, λ (n, _). absurd (n (p.0 refl)))
absent_iff false t r p q = (λ h. (λ x. cc (p.1 x), q.0 h), λ (_, y). q.1 y)

lookup-First :
    (name : String) (named : Dict Schema) (s : Schema)
    → (lookup name named ≡ some s) ↔ First (λ k. k ≡ name) named s
unfolding lookup First
lookup-First name [] s = (λ h. cc, λ h. absurd h)
lookup-First name ((k, t) ∷ named) s =
    found_iff (str_eq k name) t s (lookup name named) (eq_iff k name) (lookup-First name named s)

lookup-Absent :
    (name : String) (named : Dict Schema)
    → (lookup name named ≡ none) ↔ Absent (λ k. k ≡ name) named
unfolding lookup Absent
lookup-Absent name [] = (λ h. tt, λ h. refl)
lookup-Absent name ((k, t) ∷ named) =
    absent_iff (str_eq k name) t (lookup name named) (eq_iff k name) (lookup-Absent name named)

resolve_suffix-First :
    (name : String) (named : Dict Schema) (s : Schema)
    → (resolve_suffix name named ≡ some s) ↔ First (IsQualified name) named s
unfolding resolve_suffix First
resolve_suffix-First name [] s = (λ h. cc, λ h. absurd h)
resolve_suffix-First name ((k, t) ∷ named) s =
    found_iff (ends_with (codes "." ++ codes name) (codes k)) t s (resolve_suffix name named)
      (ends_with_iff (codes "." ++ codes name) (codes k)) (resolve_suffix-First name named s)

-- `_resolve_named` finds what a reference stands for, and nothing else.
pub resolve_named_iff :
    (name : String) (named : Dict Schema) (s : Schema)
    → (resolve_named name named ≡ some s) ↔ Refers name named s
unfolding resolve_named
resolve_named_iff name named s = elim (Option-cases (lookup name named)) [
  | inl e ↦
      rw (resolve_named, e)
        (
          λ h. inr ((lookup-Absent name named).0 e, (resolve_suffix-First name named s).0 h),
          λ h. elim h [
            | inl f ↦ absurd (ground (arith, e, (lookup-First name named s).1 f))
            | inr (_, f) ↦ (resolve_suffix-First name named s).1 f
          ],
        )
  | inr (t, e) ↦
      rw (resolve_named, e)
        (
          λ h. inl ((lookup-First name named s).0 (e ∙ h)),
          λ h. elim h [
            | inl f ↦ sym e ∙ (lookup-First name named s).1 f
            | inr (n, _) ↦ absurd (ground (arith, e, (lookup-Absent name named).1 n))
          ],
        )
]

First-In :
    (P : String → Type 0) (named : Dict Schema) (s : Schema)
    → First P named s
    → (k : String) × In (k, s) named
unfolding First
First-In P [] s h = absurd h
First-In P ((k, t) ∷ named) s (inl (_, e)) = (k, inl (ap (λ r. (k, r)) e))
First-In P ((k, t) ∷ named) s (inr (_, h)) = let (j, i) = First-In P named s h in (j, inr i)

-- What `_resolve_named` finds is registered.
pub resolve_named-In :
    (name : String) (named : Dict Schema) (s : Schema)
    → resolve_named name named ≡ some s
    → (k : String) × In (k, s) named
resolve_named-In name named s h = elim ((resolve_named_iff name named s).0 h) [
  | inl f ↦ First-In (λ k. k ≡ name) named s f
  | inr (_, f) ↦ First-In (IsQualified name) named s f
]
