-- ===== src/Http2/Validation/Target.antt =====
-- What a request's fields satisfy when `validate_fields` of solvetls/http2/validation.py returns.
use solvetls.Base.{
  ℕ, ◌≡◌, ◌≢◌, refl, ap, ap₂, subst, Bool, true, false, not, ◌&&◌, [], ◌∷◌, All, Option, none, some,
  ==_iff,
}
use solvetls.Base.Chars.{is_token}
use solvetls.Base.Text.{codes}
use solvetls.Base.Sort.{Text}
use solvetls.Exec.{Result, ok, err}
use solvetls.Wire.Bytes.{Bytes}
use solvetls.HttpFields.Response.{text_eq, text_eq_sound}
use solvetls.Uri.{UriError, is_empty, validate_authority}
use solvetls.Uri.Normalize.{normalize_authority}
use solvetls.Http2.Validation.{
  Fields, ProtocolError, refuse_if, validate_raw_fields, validate_field_lists, last_named,
}
use solvetls.Http2.Validation.Request.{
  or_empty, is_present, authority_of, same_number, same_normal, compare_normal, compare_host,
  check_authority, validate_request_authority, validate_request_target, validate_fields,
}
use solvetls.Http2.Validation.Safe.{and_also_inv, refuse_if_inv, IsSafe, validate_raw_fields-IsSafe}

not_inv : (b : Bool) → not b ≡ false → b ≡ true
not_inv true h = refl
not_inv false h = cc

and_true_inv : (a b : Bool) → (a && b) ≡ true → (a ≡ true) × (b ≡ true)
and_true_inv true b h = (refl, h)
and_true_inv false b h = cc

same_number_sound : (p q : Option ℕ) → same_number p q ≡ true → p ≡ q
same_number_sound none none h = refl
same_number_sound none (some q) h = cc
same_number_sound (some p) none h = cc
same_number_sound (some p) (some q) h = ap some ((==_iff p q).0 h)

same_normal_sound : (m n : Text × Option ℕ) → same_normal m n ≡ true → m ≡ n
same_normal_sound (h, p) (k, q) e =
    let (hosts, ports) = and_true_inv (text_eq h k) (same_number p q) e in
    ap₂ (λ x y. (x, y)) (text_eq_sound h k hosts) (same_number_sound p q ports)

compare_normal_inv : (m n : Result UriError (Text × Option ℕ)) → compare_normal m n ≡ ok tt → m ≡ n
compare_normal_inv (err e) n h = cc
compare_normal_inv (ok m) (err e) h = cc
compare_normal_inv (ok m) (ok n) h =
    ap ok (same_normal_sound m n (not_inv (same_normal m n) (refuse_if_inv _ _ h)))

not_empty_inv : (t : Text) → is_empty t ≡ false → t ≢ []
not_empty_inv [] h = cc
not_empty_inv (c ∷ t) h = λ e. cc e

module _ (ipv6 : Text → Option Text) where
  -- The values that a request is checked by.
  abbrev method_of : Fields → Bytes
  method_of headers = or_empty (last_named (codes ":method") headers)

  -- An accepted target.
  pub record IsTarget (headers : Fields) : Type 0 where
    pub method_token : is_token (or_empty (last_named (codes ":method") headers)) ≡ true
    pub not_extended : last_named (codes ":protocol") headers ≡ none
    pub hosted :
        (host : Text) × (validate_authority ipv6
            (text_eq (or_empty (last_named (codes ":method") headers)) (codes "CONNECT"))
            (authority_of
              (last_named (codes ":authority") headers)
              (last_named (codes "host") headers))
          ≡ ok host)
        × (host ≢ [])
    pub agree :
        (authority host : Bytes)
        → last_named (codes ":authority") headers ≡ some authority
        → last_named (codes "host") headers ≡ some host
        → normalize_authority ipv6 authority
            (or_empty (last_named (codes ":scheme") headers))
            (text_eq (or_empty (last_named (codes ":method") headers)) (codes "CONNECT"))
          ≡ normalize_authority ipv6 host
              (or_empty (last_named (codes ":scheme") headers))
              (text_eq (or_empty (last_named (codes ":method") headers)) (codes "CONNECT"))

  check_authority_inv :
      (r : Result UriError Text) (compared : Result ProtocolError (Unit {0}))
      → check_authority ipv6 r compared ≡ ok tt
      → ((host : Text) × (r ≡ ok host) × (host ≢ [])) × (compared ≡ ok tt)
  check_authority_inv (err e) compared h = cc
  check_authority_inv (ok host) compared h =
      let (same, filled) = and_also_inv compared _ h in
      ((host, refl, not_empty_inv host (refuse_if_inv (is_empty host) _ filled)), same)

  compare_host_inv :
      (a b : Option Bytes) (authority host : Bytes) (connect : Bool) (scheme : Bytes)
      → compare_host ipv6 a b connect scheme ≡ ok tt
      → a ≡ some authority
      → b ≡ some host
      → normalize_authority ipv6 authority scheme connect
        ≡ normalize_authority ipv6 host scheme connect
  unfolding compare_host
  compare_host_inv none b authority host connect scheme h p q = cc p
  compare_host_inv (some a) none authority host connect scheme h p q = cc q
  compare_host_inv (some a) (some b) authority host connect scheme h p q =
      let e = compare_normal_inv _ _ h in
      subst
        (λ x.
          normalize_authority ipv6 x scheme connect ≡ normalize_authority ipv6 host scheme connect)
        (cc p)
        (subst
          (λ x.
            normalize_authority ipv6 a scheme connect ≡ normalize_authority ipv6 x scheme connect)
          (cc q) e)

  absent : (v : Option Bytes) → is_present v ≡ false → v ≡ none
  absent none h = refl
  absent (some v) h = cc

  validate_request_target-IsTarget :
      (headers : Fields) → validate_request_target ipv6 headers ≡ ok tt → IsTarget headers
  unfolding validate_request_target validate_request_authority
  validate_request_target-IsTarget headers h =
      let connect = text_eq (method_of headers) (codes "CONNECT") in
      let scheme = or_empty (last_named (codes ":scheme") headers) in
      let a = last_named (codes ":authority") headers in
      let b = last_named (codes "host") headers in
      let (token, h2) = and_also_inv (refuse_if _ _) _ h in
      let (extended, h3) = and_also_inv (refuse_if _ _) _ h2 in
      let (_, h4) = and_also_inv _ _ h3 in
      let (hosted, compared) =
        check_authority_inv (validate_authority ipv6 connect (authority_of a b))
          (compare_host ipv6 a b connect scheme) h4 in
      record {
        method_token = not_inv _ (refuse_if_inv _ _ token);
        not_extended = absent _ (refuse_if_inv _ _ extended);
        hosted = hosted;
        agree = λ authority host. compare_host_inv a b authority host connect scheme compared;
      }

  -- Of a request's fields that `validate_fields` accepts, every field is safe; the method is a token; there
  -- is no :protocol; the authority, which is that of Host where :authority is absent, is accepted and has
  -- a host; and if both are present, their normal forms under the scheme are the same.
  pub validate_fields-IsTarget :
      (h2_validate : Bool → Fields → Result ProtocolError (Unit {0})) (headers : Fields)
      → validate_fields ipv6 h2_validate headers false ≡ ok tt
      → All (IsSafe false) headers × IsTarget headers
  unfolding validate_fields
  validate_fields-IsTarget h2_validate headers h =
      let (raw, h2) = and_also_inv (validate_raw_fields false headers) _ h in
      let (lists, h3) = and_also_inv (validate_field_lists headers) _ h2 in
      let (target, h4) = and_also_inv (validate_request_target ipv6 headers) _ h3 in
      (
        validate_raw_fields-IsSafe false headers raw,
        validate_request_target-IsTarget headers target,
      )
