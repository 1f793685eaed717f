-- ===== src/Redirect/Location.antt =====
-- Where a redirect leads.
use solvetls.Base.{
  ℕ, not, ◌||◌, length, drop, ◌+◌, ◌≡◌, ◌≢◌, refl, sym, subst, Bool, true, false, [], ◌∷◌, ◌++◌,
  Option, Bool-cases, inl, inr,
}
use solvetls.Base.Text.{codes}
use solvetls.Base.Sort.{Text}
use solvetls.Exec.{Result, ok, err}
use solvetls.HttpFields.Response.{text_eq}
use solvetls.Uri.{UriError, is_empty, starts_with, validate_authority}
use solvetls.Uri.Normalize.{SplitResult, split_absolute_uri}
use solvetls.Http1.{HttpError}
use solvetls.Http1.Request.{HttpRequest}
use solvetls.Redirect.{
  RedirectError, and_then, refuse, from_uri, next_host, Place, with_slash, parsed_place,
  origin_place, bracketed, port_suffix, place_of, location_at, redirect_location,
}

and_then_inv :
    {A B : Type 0} (r : Result RedirectError A) (f : A → Result RedirectError B) (b : B)
    → and_then r f ≡ ok b
    → (a : A) × (r ≡ ok a) × (f a ≡ ok b)
and_then_inv (ok a) f b h = (a, refl, h)
and_then_inv (err e) f b h = cc

refuse_then_inv :
    {B : Type 0} (b : Bool) (e : HttpError) (f : Unit {0} → Result RedirectError B) (x : B)
    → and_then (refuse b e) f ≡ ok x
    → (b ≡ false) × (f tt ≡ ok x)
refuse_then_inv true e f x h = cc
refuse_then_inv false e f x h = (refl, h)

from_uri_inv : (r : Result UriError Text) (t : Text) → from_uri r ≡ ok t → r ≡ ok t
from_uri_inv (ok a) t h = cc
from_uri_inv (err e) t h = cc

filled : (t : Text) → is_empty t ≡ false → t ≢ []
filled [] h e = cc
filled (c ∷ t) h e = cc

with_slash_lem : (path : Text) → starts_with b'/' (with_slash path) ≡ true
with_slash_lem path = elim (Bool-cases (starts_with b'/' path)) [
  | inl slash ↦ rw (slash, slash) refl
  | inr other ↦ rw other refl
]

module _ (ipv6 : Text → Option Text) (urlsplit : Text → Result UriError SplitResult) where
  place_of-slash :
      (r : HttpRequest) (p : Place) → place_of ipv6 urlsplit r ≡ ok p → starts_with b'/' p.1 ≡ true
  unfolding place_of parsed_place
  place_of-slash r (authority, path) h = elim (Bool-cases (starts_with b'/' r.path)) [
    | inl slash ↦
        let (host, _, made) =
          and_then_inv (next_host r.headers) (origin_place r.path) (authority, path)
            (rw slash at h) in
        let same : r.path ≡ path = cc made in subst (λ t. starts_with b'/' t ≡ true) same slash
    | inr other ↦
        let (parsed, _, h2) =
          and_then_inv (from_uri (split_absolute_uri urlsplit r.path)) (parsed_place r.path)
            (authority, path) (rw other at h) in
        let (_, made) =
          refuse_then_inv
            (not (text_eq parsed.scheme (codes "http") || text_eq parsed.scheme (codes "https"))) _
            _ (authority, path) h2 in
        let same : with_slash (drop (length parsed.scheme + 3 + length parsed.netloc) r.path)
            ≡ path =
          cc made in
        subst (λ t. starts_with b'/' t ≡ true) same
          (with_slash_lem (drop (length parsed.scheme + 3 + length parsed.netloc) r.path))
  ]

  -- A location is an https URL, and no other: behind "https://" come a host that `validate_authority` has
  -- accepted and that is not empty, in brackets where it is an IP literal, the port if it is not 443, and a
  -- path that begins with a slash.
  pub redirect_location_https :
      (r : HttpRequest) (https_port : ℕ) (location : Text)
      → redirect_location ipv6 urlsplit r https_port ≡ ok location
      → (authority host path : Text) × (location
          ≡ codes "https://" ++ (bracketed authority host ++ (port_suffix https_port ++ path)))
        × (validate_authority ipv6 false authority ≡ ok host)
        × (host ≢ [])
        × (starts_with b'/' path ≡ true)
  unfolding redirect_location location_at
  redirect_location_https r https_port location h =
      let (_, h2) = refuse_then_inv (text_eq r.method (codes "CONNECT")) _ _ location h in
      let (_, h3) = refuse_then_inv (text_eq r.path (codes "*")) _ _ location h2 in
      let ((authority, path), place, h4) =
        and_then_inv (place_of ipv6 urlsplit r) (location_at ipv6 urlsplit https_port) location
          h3 in
      let (host, valid, h5) =
        and_then_inv (from_uri (validate_authority ipv6 false authority)) _ location h4 in
      let (some_host, made) = refuse_then_inv (is_empty host) _ _ location h5 in
      let same : codes "https://" ++ (bracketed authority host ++ (port_suffix https_port ++ path))
          ≡ location =
        cc made in
      (
        authority,
        host,
        path,
        sym same,
        from_uri_inv _ host valid,
        filled host some_host,
        place_of-slash r (authority, path) place,
      )
