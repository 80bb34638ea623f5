-- ===== src/Parameters/Merged.antt =====
-- What `Specify` advertises for a name: the merge of src/conduit/connector/serve.py.
use mathlib.Core.Path.{subst}
use conduit_connector_sdk_py.Prelude.{
  ◌≡◌, refl, ◌∙◌, sym, ap, String, Bool, true, false, Option, none, some, [], ◌∷◌, if◌then◌else◌,
  Dict, lookup, insert, merge, lookup-insert, ok, str_eq, eq_iff, arith, bind-ok, ok-inj,
}
use conduit_connector_sdk_py.Parameters.{FieldInfo, Parameter, field_to_parameter, to_parameters}
use conduit_connector_sdk_py.Parameters.Specify.{
  sdk_batch_parameters, advertised_params, Served, a_source, a_destination, Specification,
  SpecifyResponse, specify,
}

-- A dictionary's names are distinct.
unfoldable pub IsDict : {V : Type 0} → Dict V → Type 0
IsDict [] = Unit
IsDict ((k, v) ∷ d) = (lookup k d ≡ none) × IsDict d

-- the first value, or else the second
abbrev pub or_else : {V : Type 0} → Option V → Option V → Option V
or_else (some v) o = some v
or_else none o = o

lookup-merge :
    {V : Type 0} (k : String) (e d : Dict V)
    → IsDict e
    → lookup k (merge d e) ≡ or_else (lookup k e) (lookup k d)
unfolding lookup merge IsDict
lookup-merge k [] d h = refl
lookup-merge k ((j, v) ∷ e) d (fresh, h) =
    lookup-merge k e (insert j v d) h ∙ ground (arith, lookup-insert j k v d, eq_iff j k, fresh)

-- What is got for a name: the parameter of the class's field, or else the SDK's.
unfoldable pub Advertised : Option FieldInfo → Option Parameter → Option Parameter → Type 0
Advertised none sdk got = got ≡ sdk
Advertised (some info) sdk got = (p : Parameter) × (field_to_parameter info ≡ ok p) × (got ≡ some p)

-- One side of the specification: its names against the fields of the class.
abbrev pub AdvertisesAll : Dict FieldInfo → Dict Parameter → Type 0
AdvertisesAll fields ps =
    (k : String) → Advertised (lookup k fields) (lookup k sdk_batch_parameters) (lookup k ps)

Advertised-if :
    (b : Bool) (info : FieldInfo) (p : Parameter) (o : Option FieldInfo) (q : Option Parameter)
    → field_to_parameter info ≡ ok p
    → Advertised o none q
    → Advertised (if b then some info else o) none (if b then some p else q)
unfolding Advertised
Advertised-if true info p o q f h = (p, f, refl)
Advertised-if false info p o q f h = h

to_parameters-Advertised :
    (k : String) (fields : Dict FieldInfo) (own : Dict Parameter)
    → to_parameters fields ≡ ok own
    → Advertised (lookup k fields) none (lookup k own)
unfolding to_parameters lookup Advertised
to_parameters-Advertised k [] own e = ap (lookup k) (sym (ok-inj e))
to_parameters-Advertised k ((j, info) ∷ fields) own e =
    let (p, f, rest) = bind-ok (field_to_parameter info) _ own e in
    let (ps, g, same) = bind-ok (to_parameters fields) _ own rest in
    subst (λ d. Advertised (if str_eq j k then some info else lookup k fields) none (lookup k d))
      (ok-inj same)
      (Advertised-if (str_eq j k) info p (lookup k fields) (lookup k ps) f
        (to_parameters-Advertised k fields ps g))

Advertised-none :
    (o : Option FieldInfo) (q : Option Parameter) → o ≡ none → Advertised o none q → q ≡ none
unfolding Advertised
Advertised-none none q n a = a
Advertised-none (some i) q n a = absurd (ground (arith, n))

to_parameters-IsDict :
    (fields : Dict FieldInfo) (own : Dict Parameter)
    → IsDict fields
    → to_parameters fields ≡ ok own
    → IsDict own
unfolding to_parameters IsDict
to_parameters-IsDict [] own h e = subst IsDict (ok-inj e) tt
to_parameters-IsDict ((j, info) ∷ fields) own (fresh, h) e =
    let (p, f, rest) = bind-ok (field_to_parameter info) _ own e in
    let (ps, g, same) = bind-ok (to_parameters fields) _ own rest in
    subst IsDict (ok-inj same) (
      Advertised-none (lookup j fields) (lookup j ps) fresh
          (to_parameters-Advertised j fields ps g),
      to_parameters-IsDict fields ps h g,
    )

Advertised-or_else :
    (o : Option FieldInfo) (q sdk got : Option Parameter)
    → Advertised o none q
    → got ≡ or_else q sdk
    → Advertised o sdk got
unfolding Advertised
Advertised-or_else none q sdk got a h = h ∙ ap (λ x. or_else x sdk) a
Advertised-or_else (some info) q sdk got (p, f, e) h = (p, f, h ∙ ap (λ x. or_else x sdk) e)

advertised-all :
    (fields : Dict FieldInfo) (ps : Dict Parameter)
    → IsDict fields
    → advertised_params fields ≡ ok ps
    → AdvertisesAll fields ps
unfolding advertised_params
advertised-all fields ps d e k =
    let (own, f, same) = bind-ok (to_parameters fields) _ ps e in
    Advertised-or_else (lookup k fields) (lookup k own) (lookup k sdk_batch_parameters)
      (lookup k ps) (to_parameters-Advertised k fields own f)
      (ap (lookup k) (sym (ok-inj same))
        ∙ lookup-merge k own sdk_batch_parameters (to_parameters-IsDict fields own d f))

abbrev pub served_fields : Served → Dict FieldInfo
served_fields (a_source fields) = fields
served_fields (a_destination fields) = fields

-- The side of the class that is served has its parameters, and the other has none.
unfoldable pub Specified : Served → SpecifyResponse → Type 0
Specified (a_source fields) r = AdvertisesAll fields r.source_params × (r.destination_params ≡ [])
Specified (a_destination fields) r =
    AdvertisesAll fields r.destination_params × (r.source_params ≡ [])

-- For fields of distinct names, a specification that is returned is the given one, with the
-- parameters on the side that is served and none on the other. Under each name it advertises the
-- parameter of the class's field if there is one, even where the SDK has one of that name, and
-- otherwise what the SDK has.
pub specify-Specified :
    (spec : Specification) (served : Served) (r : SpecifyResponse)
    → IsDict (served_fields served)
    → specify spec served ≡ ok r
    → (r.specification ≡ spec) × Specified served r
unfolding specify Specified
specify-Specified spec (a_source fields) r d e =
    let (ps, f, same) = bind-ok (advertised_params fields) _ r e in
    subst
      (λ x.
        (x.specification ≡ spec)
        × (AdvertisesAll fields x.source_params × (x.destination_params ≡ [])))
      (ok-inj same) (refl, (advertised-all fields ps d f, refl))
specify-Specified spec (a_destination fields) r d e =
    let (ps, f, same) = bind-ok (advertised_params fields) _ r e in
    subst
      (λ x.
        (x.specification ≡ spec)
        × (AdvertisesAll fields x.destination_params × (x.source_params ≡ [])))
      (ok-inj same) (refl, (advertised-all fields ps d f, refl))
