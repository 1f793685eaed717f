-- ===== src/Http2/Validation.antt =====
-- solvetls/http2/validation.py: the checks on raw fields and on field lists, and the copy of the fields
-- that h2 is given. `Request` has the target of a request and `validate_fields`.
pub mod Request
pub mod Target
pub mod Safe
pub mod Adapted
use solvetls.Base.{
  ℕ, zero, suc, ◌≤◌, ◌<◌, ◌≡◌, ◌≢◌, refl, sym, ap, ap₂, ◌∙◌, subst, arith, Bool, true, false, not,
  ◌&&◌, ◌||◌, List, [], ◌∷◌, map, any, All, Option, none, some, length, ltb, leb, ◌==◌,
  if◌then◌else◌, Bool-cases, inl, inr,
}
use solvetls.Base.Text.{codes}
use solvetls.Base.Sort.{Text}
use solvetls.Exec.{Result, ok, err}
use solvetls.Wire.Bytes.{Bytes}
use solvetls.HttpFields.Response.{text_eq, lower}
use solvetls.Uri.{UriError, uri_message}
use solvetls.HttpFields.Lists.{is_blank, ListError, parse_http_list}
use solvetls.Base.Chars.{strip_zeros, is_digit, all_bytes, is_token, is_digits}

-- Names and values, in the order of the field section.
abbrev pub Fields : Type 0
Fields = List (Bytes × Bytes)

-- The `ProtocolError`s, by their message; some take that of another error.
pub data ProtocolError : Type 0 where
  invalid_value invalid_name invalid_length : ProtocolError
  conflicting_lengths duplicate_host invalid_te : ProtocolError
  list_error : ListError → ProtocolError
  invalid_method extended_connect invalid_scheme invalid_path : ProtocolError
  connect_authority host_mismatch invalid_authority : ProtocolError
  uri_error : UriError → ProtocolError
  refused_by_h2 : Text → ProtocolError

-- str(error)
unfoldable pub protocol_message : ProtocolError → Text
protocol_message invalid_value = codes "Invalid HTTP field value"
protocol_message invalid_name = codes "Invalid HTTP field name"
protocol_message invalid_length = codes "Invalid Content-Length field"
protocol_message conflicting_lengths = codes "Conflicting Content-Length fields"
protocol_message duplicate_host = codes "Duplicate Host fields"
protocol_message invalid_te = codes "Invalid TE field"
protocol_message (list_error e) = codes "Unterminated quoted HTTP list member"
protocol_message invalid_method = codes "Invalid request method"
protocol_message extended_connect = codes "Extended CONNECT was not enabled"
protocol_message invalid_scheme = codes "Invalid request scheme"
protocol_message invalid_path = codes "Invalid request path"
protocol_message connect_authority = codes "CONNECT requires an authority"
protocol_message host_mismatch = codes "Host and :authority do not match"
protocol_message invalid_authority = codes "Invalid request authority"
protocol_message (uri_error e) = uri_message e
protocol_message (refused_by_h2 t) = t

-- if test: raise ProtocolError(...)
abbrev pub refuse_if : Bool → ProtocolError → Result ProtocolError (Unit {0})
refuse_if true e = err e
refuse_if false e = ok tt

-- The statement behind one that may raise.
abbrev pub and_also :
    Result ProtocolError (Unit {0})
    → Result ProtocolError (Unit {0})
    → Result ProtocolError (Unit {0})
and_also (ok u) r = r
and_also (err e) r = err e

-- byte in value for a byte of (0, 10, 13)
abbrev pub is_control : ℕ → Bool
is_control b = b == 0 || (b == 10 || b == 13)

unfoldable pub some_byte : (ℕ → Bool) → Bytes → Bool
some_byte p [] = false
some_byte p (b ∷ bs) = p b || some_byte p bs

-- value[-1:] in (b" ", b"\t")
unfoldable pub ends_blank : Bytes → Bool
ends_blank [] = false
ends_blank (b ∷ []) = is_blank b
ends_blank (b ∷ c ∷ bs) = ends_blank (c ∷ bs)

-- value[:1] in (b" ", b"\t")
unfoldable pub starts_blank : Bytes → Bool
starts_blank [] = false
starts_blank (b ∷ bs) = is_blank b

-- name.startswith(b":")
abbrev pub is_pseudo : Bytes → Bool
is_pseudo [] = false
is_pseudo (b ∷ bs) = b == b':'

abbrev pub content_length : Bytes
content_length = codes "content-length"

-- One round of the loop.
unfoldable pub validate_raw_field : Bool → Bytes → Bytes → Result ProtocolError (Unit {0})
validate_raw_field trailers name value =
    and_also
      (refuse_if (some_byte is_control value || (starts_blank value || ends_blank value))
        invalid_value)
      (and_also (refuse_if (not (is_pseudo name) && not (is_token name)) invalid_name) (
        refuse_if (text_eq name content_length && (not (is_digits value) || trailers))
          invalid_length))

unfoldable pub validate_raw_fields : Bool → Fields → Result ProtocolError (Unit {0})
validate_raw_fields trailers [] = ok tt
validate_raw_fields trailers ((name, value) ∷ headers) =
    and_also (validate_raw_field trailers name value) (validate_raw_fields trailers headers)

-- [value for name, value in headers if name == key]
unfoldable pub values_named : Bytes → Fields → List Bytes
values_named key [] = []
values_named key ((name, value) ∷ headers) =
    if text_eq name key then value ∷ values_named key headers else values_named key headers

-- value.lstrip(b"0") != lengths[0].lstrip(b"0")
abbrev pub differs : Bytes → Bytes → Bool
differs first value = not (text_eq (strip_zeros value) (strip_zeros first))

unfoldable pub some_differs : Bytes → List Bytes → Bool
some_differs first [] = false
some_differs first (v ∷ vs) = differs first v || some_differs first vs

-- lengths and any(...)
unfoldable pub lengths_conflict : List Bytes → Bool
lengths_conflict [] = false
lengths_conflict (first ∷ vs) = some_differs first (first ∷ vs)

unfoldable pub some_not_trailers : List Text → Bool
some_not_trailers [] = false
some_not_trailers (v ∷ vs) = not (text_eq (lower v) (codes "trailers")) || some_not_trailers vs

-- The `try` statement around the list of TE, and the check on its members.
abbrev pub validate_te : Result ListError (List Text) → Result ProtocolError (Unit {0})
validate_te (ok transfer_options) = refuse_if (some_not_trailers transfer_options) invalid_te
validate_te (err error) = err (list_error error)

unfoldable pub validate_field_lists : Fields → Result ProtocolError (Unit {0})
validate_field_lists headers =
    and_also
      (refuse_if (lengths_conflict (values_named content_length headers)) conflicting_lengths)
      (and_also (refuse_if (ltb 1 (length (values_named (codes "host") headers))) duplicate_host)
        (validate_te (parse_http_list (values_named (codes "te") headers))))

-- The value that `dict(headers)` has: that of the last field of the name.
abbrev pub or_else : Option Bytes → Option Bytes → Option Bytes
or_else none v = v
or_else (some w) v = some w

unfoldable pub last_named : Bytes → Fields → Option Bytes
last_named key [] = none
last_named key ((name, value) ∷ headers) =
    or_else (last_named key headers) (if text_eq name key then some value else none)

-- The value that h2 is given in place of `value`.
unfoldable pub adapted_value : Option Bytes → Bool → Bytes → Bytes → Bytes
adapted_value none trailers name value =
    if text_eq name (codes "te") then codes "trailers" else value
adapted_value (some authority) trailers name value =
    if text_eq name (codes "te")
    then codes "trailers"
    else if text_eq name (codes "host") && not trailers
    then authority
    else value

unfoldable pub adapt_fields : Option Bytes → Bool → Fields → Fields
adapt_fields authority trailers [] = []
adapt_fields authority trailers ((name, value) ∷ headers) =
    (name, adapted_value authority trailers name value) ∷ adapt_fields authority trailers headers

unfoldable pub headers_for_h2 : Fields → Bool → Fields
headers_for_h2 headers trailers =
    adapt_fields (last_named (codes ":authority") headers) trailers headers
