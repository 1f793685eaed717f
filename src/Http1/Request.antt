-- ===== src/Http1/Request.antt =====
-- solvetls/http1.py: `_validate_target` and `parse_request`. `ipaddress` and `urlsplit` are parameters.
use solvetls.Base.{
  ℕ, ◌+◌, Bool, true, false, not, ◌&&◌, ◌||◌, List, [], ◌∷◌, any, take, Option, none, some, ltb,
  leb, ◌==◌, if◌then◌else◌,
}
use solvetls.Base.Chars.{is_alpha, is_digit, all_bytes, is_token}
use solvetls.Base.Text.{codes}
use solvetls.Base.Sort.{Text}
use solvetls.Exec.{Result, ok, err}
use solvetls.Wire.Bytes.{Bytes}
use solvetls.HttpFields.Response.{text_eq, lower, Headers}
use solvetls.HttpFields.Lists.{strip}
use solvetls.Uri.{
  UriError, uri_message, is_name_char, uri_chars, partition, starts_with, is_empty,
  validate_authority, validate_path_query,
}
use solvetls.Uri.Normalize.{SplitResult, scheme_span, last_at, split_absolute_uri}
use solvetls.Http1.{
  HttpError, bad_request, refuse, and_then, head_end, find, check_head_size, starts, split_lines,
  split_on,
}
use solvetls.Http1.Framing.{values_of, validate_framing}

-- HTTP1Request
pub record HttpRequest : Type 0 where
  pub method : Text
  pub path : Text
  pub headers : Headers
  pub raw_head : Bytes

-- A ValueError becomes an HTTP1Error with its message, or with another.
abbrev pub or_bad : {A : Type 0} → Result UriError A → Result HttpError A
or_bad (ok a) = ok a
or_bad (err e) = err (bad_request (uri_message e))

abbrev pub or_invalid : {A : Type 0} → Text → Result UriError A → Result HttpError A
or_invalid message (ok a) = ok a
or_invalid message (err e) = err (bad_request message)

abbrev pub is_ascii : Text → Bool
is_ascii t = all_bytes (λ c. ltb c 128) t

-- _SCHEME_RE.match(target)
abbrev pub behind_colon : Text → Bool
behind_colon t = starts_with b':' t

unfoldable pub has_scheme : Text → Bool
has_scheme [] = false
has_scheme (c ∷ t) = is_alpha c && behind_colon (scheme_span (c ∷ t)).1

-- _USER_INFO_RE
abbrev pub is_user_char : ℕ → Bool
is_user_char c = is_name_char c || c == b':'

abbrev pub is_http : Text → Bool
is_http scheme = text_eq (lower scheme) (codes "http") || text_eq (lower scheme) (codes "https")

-- user_info: what stands before the last "@", which ends the text that `last_at` gives.
unfoldable pub drop_last : Text → Text
drop_last [] = []
drop_last (c ∷ []) = []
drop_last (c ∷ d ∷ t) = c ∷ drop_last (d ∷ t)

-- Whether user information, up to and with its "@", is refused.
abbrev pub bad_user : Bool → Text → Bool
bad_user http [] = false
bad_user http (c ∷ t) = http || not (uri_chars is_user_char 0 (drop_last (c ∷ t)))

-- Whether the host is missing or empty.
abbrev pub no_host : Option Text → Bool
no_host none = true
no_host (some host) = is_empty host

abbrev pub some_text : Text → Result HttpError (Option Text)
some_text t = ok (some t)

module _ (ipv6 : Text → Option Text) (urlsplit : Text → Result UriError SplitResult) where
  -- The host of the authority, where the target has one.
  unfoldable pub target_host : Bool → Bool → Text → Result HttpError (Option Text)
  target_host has_authority http netloc =
      if has_authority
      then and_then
          (refuse (bad_user http (last_at netloc).0)
            (bad_request (codes "Invalid user information in absolute-form target")))
          (λ _. and_then (or_bad (validate_authority ipv6 false (last_at netloc).1)) some_text)
      else ok none

  unfoldable pub validate_parsed : Text → SplitResult → Result HttpError (Unit {0})
  validate_parsed target parsed =
      and_then (or_bad (validate_path_query parsed.path parsed.query)) (λ _.
        and_then
          (target_host (starts (codes "//") (partition b':' target).after) (is_http parsed.scheme)
            parsed.netloc)
          (λ host.
            refuse (is_http parsed.scheme && no_host host)
              (bad_request (codes "HTTP absolute-form target requires an authority"))))

  unfoldable pub validate_absolute : Text → Result HttpError (Unit {0})
  validate_absolute target =
      and_then
        (refuse (not (has_scheme target) || any (λ c. c == b'#') target)
          (bad_request (codes "Invalid request target")))
        (λ _.
          and_then
            (refuse (any (λ c. leb c 32 || leb 127 c) target)
              (bad_request (codes "Invalid character in request target")))
            (λ _.
              and_then
                (or_invalid (codes "Invalid absolute-form request target")
                  (split_absolute_uri urlsplit target))
                (validate_parsed target)))

  abbrev pub ignore_host : Text → Result HttpError (Unit {0})
  ignore_host host = ok tt

  unfoldable pub validate_target : Text → Text → Result HttpError (Unit {0})
  validate_target method target =
      if text_eq method (codes "CONNECT")
      then and_then (or_bad (validate_authority ipv6 true target)) ignore_host
      else if text_eq target (codes "*")
      then refuse (not (text_eq method (codes "OPTIONS")))
          (bad_request (codes "Asterisk target is only valid for OPTIONS"))
      else if starts_with b'/' target
      then or_bad (validate_path_query (partition b'?' target).before (partition b'?' target).after)
      else validate_absolute target

-- The body of the loop over the fields, at one line.
unfoldable pub parse_field : Text → Result HttpError (Text × Text)
parse_field line =
    let parts = partition b':' line in
    and_then
      (refuse (starts_with b' ' line || starts_with 9 line)
        (bad_request (codes "Folded or whitespace-prefixed header field")))
      (λ _.
        and_then (refuse (not parts.found) (bad_request (codes "Header field has no colon"))) (λ _.
          and_then
            (refuse (not (is_ascii parts.before) || not (is_token parts.before))
              (bad_request (codes "Invalid header field name")))
            (λ _.
              and_then
                (refuse (any (λ c. (ltb c 32 && not (c == 9)) || c == 127) parts.after)
                  (bad_request (codes "Invalid control character in header field")))
                (λ _. ok (parts.before, strip parts.after)))))

unfoldable pub parse_fields : List Text → Result HttpError Headers
parse_fields [] = ok []
parse_fields (line ∷ lines) =
    and_then (parse_field line)
      (λ field. and_then (parse_fields lines) (λ fields. ok (field ∷ fields)))

-- _VERSION_RE.fullmatch(version)
unfoldable pub is_version : Text → Bool
is_version (h ∷ t ∷ u ∷ p ∷ slash ∷ major ∷ dot ∷ minor ∷ []) =
    text_eq (h ∷ t ∷ u ∷ p ∷ slash ∷ []) (codes "HTTP/")
    && (is_digit major && (dot == b'.' && is_digit minor))
is_version _ = false

abbrev pub version_error : Text → HttpError
version_error version = record {
  message = codes "HTTP version is not supported";
  status_code = if is_version version then 505 else 400;
}

-- The one Host field.
abbrev pub one_host : List Text → Result HttpError Text
one_host (host ∷ []) = ok host
one_host _ = err (bad_request (codes "Exactly one Host header field is required"))

-- The three parts of the request line, none of them empty.
abbrev pub three_parts : List Text → Result HttpError (Text × Text × Text)
three_parts ((a ∷ s) ∷ (b ∷ t) ∷ (c ∷ u) ∷ []) = ok (a ∷ s, b ∷ t, c ∷ u)
three_parts _ = err (bad_request (codes "Invalid request line"))

abbrev pub has_break : Text → Bool
has_break line = any (λ c. c == 13 || c == 10) line

-- An initial empty line is dropped.
abbrev pub skip_empty : List Text → List Text
skip_empty ([] ∷ lines) = lines
skip_empty lines = lines

abbrev pub first_line : List Text → Result HttpError (Text × List Text)
first_line [] = err (bad_request (codes "Invalid request line ending"))
first_line (line ∷ lines) =
    if any has_break (line ∷ lines)
    then err (bad_request (codes "Invalid request line ending"))
    else ok (line, lines)

abbrev pub terminated : Option ℕ → Result HttpError ℕ
terminated none = err (bad_request (codes "Request head was not terminated"))
terminated (some e) = ok e

module _ (ipv6 : Text → Option Text) (urlsplit : Text → Result UriError SplitResult) where
  unfoldable pub check_request_line : Text → Text → Text → Result HttpError (Unit {0})
  check_request_line method target version =
      and_then
        (refuse (not (is_ascii method) || not (is_ascii target))
          (bad_request (codes "Request line must be ASCII")))
        (λ _.
          and_then (refuse (not (is_token method)) (bad_request (codes "Invalid request method")))
            (λ _.
              and_then (refuse (not (text_eq version (codes "HTTP/1.1"))) (version_error version))
                (λ _. validate_target ipv6 urlsplit method target)))

  unfoldable pub check_fields : Headers → Result HttpError (Unit {0})
  check_fields headers = and_then (one_host (values_of (codes "host") headers)) (λ host.
      and_then (or_bad (validate_authority ipv6 false host)) (λ _. validate_framing headers))

  unfoldable pub parse_lines : Bytes → Text × List Text → Result HttpError HttpRequest
  parse_lines raw_head (line, lines) = and_then (three_parts (split_on b' ' line)) (λ p.
      and_then (check_request_line p.0 p.1 p.2) (λ _. and_then (parse_fields lines) (λ headers.
        and_then (check_fields headers)
          (λ _. ok (record { method = p.0; path = p.1; headers = headers; raw_head = raw_head })))))

  unfoldable pub parse_request : Bytes → Result HttpError HttpRequest
  parse_request raw_head = and_then (check_head_size raw_head false) (λ _.
      and_then (terminated (find head_end raw_head)) (λ e.
        and_then (first_line (skip_empty (split_lines (take e raw_head))))
          (λ lines. parse_lines (take (e + 4) raw_head) lines)))
