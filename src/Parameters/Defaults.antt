-- ===== src/Parameters/Defaults.antt =====
-- The default of a duration, from `to_parameters` of src/conduit/connector/config.py to the map that
-- is validated.
use conduit_connector_sdk_py.Prelude.{
  ok-inj, some-inj, bind-ok, ◌≡◌, refl, ◌∙◌, sym, ap, inl, inr, String, Bool, true, false,
  Bool-cases, some, List, [], ◌∷◌, Dict, lookup, insert, ok, ◌>>=◌, str_eq, eq_iff, arith,
}
use conduit_connector_sdk_py.Prelude.Decimal.{Str}
use conduit_connector_sdk_py.Duration.{Timedelta, format_go_duration, parse_go_duration}
use conduit_connector_sdk_py.Duration.RoundTrip.{IsTimedelta, parse_go_duration-format_go_duration}
use conduit_connector_sdk_py.Parameters.{
  timedelta_type, type_duration, Literal, duration_default, FieldInfo, Parameter, unwrap_optional,
  resolve_type, resolved, bounds_of, of_duration, typed_parameter, default_text, field_to_parameter,
  to_parameters, ConfigValue, text_value, duration_value, is_timedelta, convert, parse_durations,
}

-- a field of durations with the default
abbrev pub IsDuration : FieldInfo → Timedelta → Type 0
IsDuration info d =
    (unwrap_optional info.annotation ≡ timedelta_type)
    × ((s : Str) × (info.default ≡ some (duration_default d s)))

typed_parameter-duration :
    (info : FieldInfo) (d : Timedelta) (s : Str) (p : Parameter) (vs : List Literal)
    → info.default ≡ some (duration_default d s)
    → typed_parameter info (type_duration, vs) ≡ ok p
    → p.default ≡ format_go_duration d
unfolding typed_parameter default_text
typed_parameter-duration info d s p vs e h =
    let (bounds, _, h1) = bind-ok (of_duration (bounds_of type_duration info)) _ p h in
    let (t, g, h2) = bind-ok (default_text type_duration info.default) _ p h1 in
    ap (λ q. q.default) (sym (ok-inj h2)) ∙ ok-inj (sym g ∙ ap (default_text type_duration) e)

field_to_parameter-duration :
    (info : FieldInfo) (d : Timedelta) (p : Parameter)
    → IsDuration info d
    → field_to_parameter info ≡ ok p
    → p.default ≡ format_go_duration d
unfolding field_to_parameter resolve_type resolved typed_parameter bounds_of
field_to_parameter-duration info d p (a, (s, e)) h = elim (Bool-cases info.exclusion) [
  | inl x ↦ absurd (ground (arith, rw (field_to_parameter, x) at h))
  | inr x ↦
      typed_parameter-duration info d s p [] e (rw (field_to_parameter, x, resolve_type, a) at h)
]

module _ {V : Type 0} (n name : String) (v : V) (d : Dict V) where
  lookup-here : str_eq n name ≡ true → lookup name ((n, v) ∷ d) ≡ some v
  unfolding lookup
  lookup-here e = rw (lookup, e) refl

  lookup-later : str_eq n name ≡ false → lookup name ((n, v) ∷ d) ≡ lookup name d
  unfolding lookup
  lookup-later e = rw (lookup, e) refl

-- the parameter of a field of the class
to_parameters-lookup :
    (fields : Dict FieldInfo) (ps : Dict Parameter) (name : String) (info : FieldInfo)
    → to_parameters fields ≡ ok ps
    → lookup name fields ≡ some info
    → (p : Parameter) × (lookup name ps ≡ some p) × (field_to_parameter info ≡ ok p)
unfolding to_parameters lookup
to_parameters-lookup [] ps name info h e = ground (arith, e)
to_parameters-lookup ((n, i) ∷ fields) ps name info h e =
    let (p, g, h1) = bind-ok (field_to_parameter i) _ ps h in
    let (qs, g2, h2) = bind-ok (to_parameters fields) _ ps h1 in
    elim (Bool-cases (str_eq n name)) [
      | inl same ↦ (
        p,
        ap (lookup name) (sym (ok-inj h2)) ∙ lookup-here n name p qs same,
        ap field_to_parameter (some-inj (sym e ∙ lookup-here n name i fields same)) ∙ g,
      )
      | inr other ↦
          let (q, l, f) =
            to_parameters-lookup fields qs name info g2
              (sym (lookup-later n name i fields other) ∙ e) in
          (q, ap (lookup name) (sym (ok-inj h2)) ∙ (lookup-later n name p qs other ∙ l), f)
    ]

-- the map once the field's text is parsed: nothing changes it any more
abbrev parsed : String → Timedelta → Dict ConfigValue
parsed name d = (name, duration_value d) ∷ []

convert-parsed :
    (n name : String) (i : FieldInfo) (d : Timedelta)
    → convert n i (parsed name d) ≡ ok (parsed name d)
unfolding convert lookup
convert-parsed n name i d = elim (Bool-cases (is_timedelta (unwrap_optional i.annotation))) [
  | inr e ↦ rw (convert, e) refl
  | inl e ↦ elim (Bool-cases (str_eq name n)) [
    | inl f ↦ rw (convert, e, lookup, f) refl
    | inr f ↦ rw (convert, e, lookup, f) refl
  ]
]

convert-later :
    (n name : String) (i : FieldInfo) (t : Str)
    → str_eq name n ≡ false
    → convert n i ((name, text_value t) ∷ []) ≡ ok ((name, text_value t) ∷ [])
unfolding convert lookup
convert-later n name i t f = elim (Bool-cases (is_timedelta (unwrap_optional i.annotation))) [
  | inr e ↦ rw (convert, e) refl
  | inl e ↦ rw (convert, e, lookup, f) refl
]

convert-here :
    (n name : String) (i : FieldInfo) (t : Str) (d : Timedelta)
    → str_eq name n ≡ true
    → unwrap_optional i.annotation ≡ timedelta_type
    → parse_go_duration t ≡ ok d
    → convert n i ((name, text_value t) ∷ []) ≡ ok (parsed name d)
unfolding convert lookup insert
convert-here n name i t d f a g = rw (convert, a, lookup, f, g, insert, f) refl

parse_durations-parsed :
    (fields : Dict FieldInfo) (name : String) (d : Timedelta)
    → parse_durations fields (parsed name d) ≡ ok (parsed name d)
unfolding parse_durations convert lookup
parse_durations-parsed [] name d = refl
parse_durations-parsed ((n, i) ∷ fields) name d =
    ap (λ m. m >>= λ converted. parse_durations fields converted) (convert-parsed n name i d)
    ∙ parse_durations-parsed fields name d

abbrev given_text : String → Str → Dict ConfigValue
given_text name t = (name, text_value t) ∷ []

str_eq-sym : (a b : String) (v : Bool) → str_eq a b ≡ v → str_eq b a ≡ v
str_eq-sym a b true e = ground (arith, eq_iff a b, eq_iff b a, e)
str_eq-sym a b false e = ground (arith, eq_iff a b, eq_iff b a, e)

parse_durations-given :
    (fields : Dict FieldInfo) (name : String) (info : FieldInfo) (t : Str) (d : Timedelta)
    → lookup name fields ≡ some info
    → unwrap_optional info.annotation ≡ timedelta_type
    → parse_go_duration t ≡ ok d
    → parse_durations fields (given_text name t) ≡ ok (parsed name d)
unfolding parse_durations convert lookup insert
parse_durations-given [] name info t d l a g = ground (arith, l)
parse_durations-given ((n, i) ∷ fields) name info t d l a g = elim (Bool-cases (str_eq n name)) [
  | inl e ↦
      let same = some-inj (sym (lookup-here n name i fields e) ∙ l) in
      ap (λ m. m >>= λ converted. parse_durations fields converted)
        (convert-here n name i t d (str_eq-sym n name true e)
          (ap (λ i. unwrap_optional i.annotation) same ∙ a) g)
      ∙ parse_durations-parsed fields name d
  | inr e ↦
      ap (λ m. m >>= λ converted. parse_durations fields converted)
        (convert-later n name i t (str_eq-sym n name false e))
      ∙ parse_durations-given fields name info t d (sym (lookup-later n name i fields e) ∙ l) a g
]

-- If the parameters of a class can be made, a duration's default that they advertise is parsed back
-- to the same duration when it stands in the map that is validated.
pub to_parameters-parse_durations :
    (fields : Dict FieldInfo) (ps : Dict Parameter) (name : String) (info : FieldInfo)
    (d : Timedelta)
    → to_parameters fields ≡ ok ps
    → lookup name fields ≡ some info
    → IsDuration info d
    → IsTimedelta d
    → (p : Parameter) × (lookup name ps ≡ some p)
      × (parse_durations fields ((name, text_value p.default) ∷ [])
          ≡ ok ((name, duration_value d) ∷ []))
to_parameters-parse_durations fields ps name info d h l i r =
    let (p, at_p, made) = to_parameters-lookup fields ps name info h l in
    let written = field_to_parameter-duration info d p i made in
    (
      p,
      at_p,
      parse_durations-given fields name info p.default d l i.0
          (ap parse_go_duration written ∙ parse_go_duration-format_go_duration d r),
    )
