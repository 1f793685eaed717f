-- ===== src/Http2/Validation/Request.antt =====
-- solvetls/http2/validation.py: the target of a request, and `validate_fields`. `ipaddress`, and the
-- validation of h2 over the adapted fields, are parameters.
use solvetls.Base.{
  ℕ, Bool, true, false, not, ◌&&◌, ◌||◌, [], ◌∷◌, Option, none, some, ltb, ◌==◌, if◌then◌else◌,
}
use solvetls.Base.Chars.{is_alpha, all_bytes, is_token}
use solvetls.Base.Text.{codes}
use solvetls.Base.Sort.{Text}
use solvetls.Exec.{Result, ok, err}
use solvetls.Wire.Bytes.{Bytes}
use solvetls.HttpFields.Response.{text_eq, lower}
use solvetls.Uri.{
  UriError, is_empty, starts_with, partition, validate_authority, validate_path_query,
}
use solvetls.Uri.Normalize.{is_scheme_char, normalize_authority}
use solvetls.Http2.Validation.{
  Fields, ProtocolError, invalid_method, extended_connect, invalid_scheme, invalid_path,
  connect_authority, host_mismatch, invalid_authority, uri_error, refuse_if, and_also,
  validate_raw_fields, validate_field_lists, last_named, headers_for_h2,
}

-- values.get(key, b"")
abbrev pub or_empty : Option Bytes → Bytes
or_empty none = []
or_empty (some v) = v

abbrev pub is_present : Option Bytes → Bool
is_present none = false
is_present (some v) = true

-- SCHEME.fullmatch
unfoldable pub is_scheme : Bytes → Bool
is_scheme [] = false
is_scheme (c ∷ t) = is_alpha c && all_bytes is_scheme_char t

-- path.startswith(b"/") or (path == b"*" and method == b"OPTIONS")
abbrev pub is_http_path : Bytes → Bytes → Bool
is_http_path path method =
    starts_with b'/' path || (text_eq path (codes "*") && text_eq method (codes "OPTIONS"))

abbrev pub is_http : Bytes → Bool
is_http scheme = text_eq (lower scheme) (codes "http") || text_eq (lower scheme) (codes "https")

-- A ValueError becomes the error that is given.
abbrev pub or_raise :
    (UriError → ProtocolError) → Result UriError (Unit {0}) → Result ProtocolError (Unit {0})
or_raise f (ok u) = ok tt
or_raise f (err e) = err (f e)

-- The `try` statement around the path: a path that is not ASCII cannot be decoded.
unfoldable pub validate_path : Bytes → Result ProtocolError (Unit {0})
validate_path path =
    let p = partition b'?' path in
    if not (all_bytes (λ c. ltb c 128) path)
    then err invalid_path
    else or_raise (λ e. invalid_path) (validate_path_query p.before p.after)

unfoldable pub validate_scheme_path : Fields → Bytes → Bytes → Result ProtocolError (Unit {0})
validate_scheme_path values method scheme =
    let path = or_empty (last_named (codes ":path") values) in
    and_also (refuse_if (not (is_scheme scheme)) invalid_scheme) (
      and_also (refuse_if (is_http scheme && not (is_http_path path method)) invalid_path)
        (validate_path path))

-- values.get(b":authority", values.get(b"host", b""))
abbrev pub authority_of : Option Bytes → Option Bytes → Bytes
authority_of none host = or_empty host
authority_of (some a) host = a

-- normalized_authority != normalized_host
abbrev pub same_number : Option ℕ → Option ℕ → Bool
same_number none none = true
same_number (some p) (some q) = p == q
same_number _ _ = false

abbrev pub same_normal : Text × Option ℕ → Text × Option ℕ → Bool
same_normal (h, p) (k, q) = text_eq h k && same_number p q

abbrev pub compare_normal :
    Result UriError (Text × Option ℕ)
    → Result UriError (Text × Option ℕ)
    → Result ProtocolError (Unit {0})
compare_normal (err e) n = err (uri_error e)
compare_normal (ok m) (err e) = err (uri_error e)
compare_normal (ok m) (ok n) = refuse_if (not (same_normal m n)) host_mismatch

module _ (ipv6 : Text → Option Text) where
  -- The comparison, where both are present.
  unfoldable pub compare_host :
      Option Bytes → Option Bytes → Bool → Bytes → Result ProtocolError (Unit {0})
  compare_host (some authority) (some host) connect scheme =
      compare_normal (normalize_authority ipv6 authority scheme connect)
        (normalize_authority ipv6 host scheme connect)
  compare_host _ _ connect scheme = ok tt

  abbrev pub check_authority :
      Result UriError Text → Result ProtocolError (Unit {0}) → Result ProtocolError (Unit {0})
  check_authority (err e) compared = err (uri_error e)
  check_authority (ok host) compared =
      and_also compared (refuse_if (is_empty host) invalid_authority)

  unfoldable pub validate_request_authority :
      Fields → Bool → Bytes → Result ProtocolError (Unit {0})
  validate_request_authority values connect scheme =
      let authority = last_named (codes ":authority") values in
      let host = last_named (codes "host") values in
      check_authority (validate_authority ipv6 connect (authority_of authority host))
        (compare_host authority host connect scheme)

  unfoldable pub validate_request_target : Fields → Result ProtocolError (Unit {0})
  validate_request_target values =
      let method = or_empty (last_named (codes ":method") values) in
      let scheme = or_empty (last_named (codes ":scheme") values) in
      let connect = text_eq method (codes "CONNECT") in
      and_also (refuse_if (not (is_token method)) invalid_method) (
        and_also (refuse_if (is_present (last_named (codes ":protocol") values)) extended_connect) (
          and_also
            (if not connect
              then validate_scheme_path values method scheme
              else refuse_if (is_empty (or_empty (last_named (codes ":authority") values)))
                  connect_authority)
            (validate_request_authority values connect scheme)))

  -- `h2_validate` is `list(validate_headers(headers, flags))`, of which only `is_trailer` varies.
  module _ (h2_validate : Bool → Fields → Result ProtocolError (Unit {0})) where
    unfoldable pub validate_fields : Fields → Bool → Result ProtocolError (Unit {0})
    validate_fields headers trailers = and_also (validate_raw_fields trailers headers) (
        and_also (validate_field_lists headers) (
          and_also (if trailers then ok tt else validate_request_target headers)
            (h2_validate trailers (headers_for_h2 headers trailers))))
