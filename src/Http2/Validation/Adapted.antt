-- ===== src/Http2/Validation/Adapted.antt =====
-- The copy of the fields that solvetls/http2/validation.py gives to h2.
use solvetls.Base.{
  ◌≡◌, ◌≢◌, refl, ap, ◌∙◌, Bool, true, false, List, [], ◌∷◌, map, Option, none, some, Bool-cases,
  inl, inr,
}
use solvetls.Base.Text.{codes}
use solvetls.Wire.Bytes.{Bytes}
use solvetls.HttpFields.Response.{text_eq, text_eq_refl, text_eq_sound}
use solvetls.Http2.Validation.{
  Fields, values_named, last_named, adapted_value, adapt_fields, headers_for_h2,
}

adapt_fields_names :
    (authority : Option Bytes) (trailers : Bool) (headers : Fields)
    → map (λ f. f.0) (adapt_fields authority trailers headers) ≡ map (λ f. f.0) headers
unfolding adapt_fields
adapt_fields_names authority trailers [] = refl
adapt_fields_names authority trailers ((name, value) ∷ headers) =
    ap (λ names. name ∷ names) (adapt_fields_names authority trailers headers)

-- A function on the values of one name carries over to the copy.
adapt_fields_named :
    (authority : Option Bytes) (trailers : Bool) (key : Bytes) (f : Bytes → Bytes)
    (headers : Fields)
    → ((value : Bytes) → adapted_value authority trailers key value ≡ f value)
    → values_named key (adapt_fields authority trailers headers) ≡ map f (values_named key headers)
unfolding adapt_fields values_named
adapt_fields_named authority trailers key f [] h = refl
adapt_fields_named authority trailers key f ((name, value) ∷ headers) h =
    let rest = adapt_fields_named authority trailers key f headers h in
    elim (Bool-cases (text_eq name key)) [
      | inl same ↦
          let value_same : adapted_value authority trailers name value ≡ f value =
            ap (λ n. adapted_value authority trailers n value) (text_eq_sound name key same)
            ∙ h value in
          rw (same, value_same, rest) refl
      | inr other ↦ rw (other, rest) refl
    ]

text_ne : (s t : Bytes) → s ≢ t → text_eq s t ≡ false
text_ne s t h = elim (Bool-cases (text_eq s t)) [
  | inl same ↦ absurd (h (text_eq_sound s t same))
  | inr other ↦ other
]

map_id : (xs : List Bytes) → map (λ v. v) xs ≡ xs
map_id [] = refl
map_id (x ∷ xs) = ap (λ t. x ∷ t) (map_id xs)

value_other :
    (authority : Option Bytes) (trailers : Bool) (key value : Bytes)
    → key ≢ codes "te"
    → key ≢ codes "host"
    → adapted_value authority trailers key value ≡ value
unfolding adapted_value
value_other none trailers key value te host = rw (text_ne key (codes "te") te) refl
value_other (some a) trailers key value te host =
    rw (text_ne key (codes "te") te, text_ne key (codes "host") host) refl

value_te :
    (authority : Option Bytes) (trailers : Bool) (value : Bytes)
    → adapted_value authority trailers (codes "te") value ≡ codes "trailers"
unfolding adapted_value
value_te none trailers value = rw (text_eq_refl (codes "te")) refl
value_te (some a) trailers value = rw (text_eq_refl (codes "te")) refl

-- What stands for the value of a Host field: :authority, in a request that has one.
abbrev pub seen_host : Option Bytes → Bool → Bytes → Bytes
seen_host (some authority) false value = authority
seen_host (some authority) true value = value
seen_host none trailers value = value

value_host :
    (authority : Option Bytes) (trailers : Bool) (value : Bytes)
    → adapted_value authority trailers (codes "host") value ≡ seen_host authority trailers value
unfolding adapted_value text_eq
value_host none trailers value = refl
value_host (some a) true value = refl
value_host (some a) false value = refl

-- The copy that h2 is given has the names of the fields in their order. Under each name other than TE and
-- Host it has the same values; each TE value is "trailers"; and each Host value is that of :authority in a
-- request that has :authority, and is the same otherwise.
pub headers_for_h2_lem :
    (headers : Fields) (trailers : Bool) (key : Bytes)
    → key ≢ codes "te"
    → key ≢ codes "host"
    → let copy = headers_for_h2 headers trailers in
      (map (λ f. f.0) copy ≡ map (λ f. f.0) headers)
      × (values_named key copy ≡ values_named key headers)
      × (values_named (codes "te") copy
          ≡ map (λ _. codes "trailers") (values_named (codes "te") headers))
      × (values_named (codes "host") copy
          ≡ map
              (seen_host (last_named (codes ":authority") headers) trailers)
              (values_named (codes "host") headers))
unfolding headers_for_h2
headers_for_h2_lem headers trailers key te host =
    let authority = last_named (codes ":authority") headers in
    (
      adapt_fields_names authority trailers headers,
      adapt_fields_named authority trailers key (λ v. v) headers
            (λ v. value_other authority trailers key v te host)
          ∙ map_id (values_named key headers),
      adapt_fields_named authority trailers (codes "te") (λ _. codes "trailers") headers
          (value_te authority trailers),
      adapt_fields_named authority trailers (codes "host") (seen_host authority trailers) headers
          (value_host authority trailers),
    )
