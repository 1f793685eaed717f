-- ===== src/Uri.antt =====
-- solvetls/uri.py: authorities, and the characters of paths and queries. `ipaddress` and `urlsplit` are
-- parameters. A text holds characters below 256, as the callers decode them.
pub mod Normalize
pub mod Ports
use solvetls.Base.{
  ℕ, zero, suc, ◌+◌, ◌*◌, ◌-◌, Bool, true, false, not, ◌&&◌, ◌||◌, List, [], ◌∷◌, ◌++◌, any, length,
  take, drop, Option, none, some, String, ltb, leb, ◌==◌, if◌then◌else◌,
}
use solvetls.Base.Chars.{is_alpha, is_digit, is_hex, all_bytes, decimal, strip_zeros, or_zero}
use solvetls.Base.Text.{codes}
use solvetls.Base.Sort.{Text}
use solvetls.Exec.{Result, ok, err}
use solvetls.HttpFields.Response.{text_eq, lower_char, lower}

-- The `ValueError`s, by their message; the last is one of `urlsplit`.
pub data UriError : Type 0 where
  invalid_literal after_literal invalid_host connect_port invalid_port : UriError
  port_range zero_port invalid_path : UriError
  split_error : Text → UriError

-- str(error)
unfoldable pub uri_message : UriError → Text
uri_message invalid_literal = codes "Invalid IP literal in authority"
uri_message after_literal = codes "Invalid authority after IP literal"
uri_message invalid_host = codes "Invalid host in authority"
uri_message connect_port = codes "CONNECT requires a host and explicit port"
uri_message invalid_port = codes "Invalid port in authority"
uri_message port_range = codes "Port is out of range"
uri_message zero_port = codes "CONNECT port must be nonzero"
uri_message invalid_path = codes "Invalid path or query"
uri_message (split_error t) = t

abbrev pub one_of : String → ℕ → Bool
one_of s c = any (λ d. d == c) (codes s)

-- The characters of _REG_NAME_RE, of _PATH_RE and of _QUERY_RE, outside escapes.
unfoldable pub is_name_char : ℕ → Bool
is_name_char c = is_alpha c || (is_digit c || one_of "-._~!$&'()*+,;=" c)

abbrev pub is_path_char : ℕ → Bool
is_path_char c = is_name_char c || one_of ":@/" c

abbrev pub is_query_char : ℕ → Bool
is_query_char c = is_name_char c || one_of ":@/?" c

-- fullmatch of (?:[chars]|%[0-9A-Fa-f]{2})*, where `owed` digits of an escape are still to come.
unfoldable pub uri_chars : (ℕ → Bool) → ℕ → Text → Bool
uri_chars p zero [] = true
uri_chars p (suc owed) [] = false
uri_chars p zero (c ∷ t) = (p c && uri_chars p zero t) || (c == b'%' && uri_chars p 2 t)
uri_chars p (suc owed) (c ∷ t) = is_hex c && uri_chars p owed t

-- _IPV_FUTURE_RE.fullmatch, behind the letter: digits, a dot, and what stands for the address.
abbrev pub is_future_char : ℕ → Bool
is_future_char c = is_name_char c || c == b':'

abbrev pub is_future_tail : Text → Bool
is_future_tail [] = false
is_future_tail (c ∷ t) = all_bytes is_future_char (c ∷ t)

unfoldable pub future_version : Bool → Text → Bool
future_version seen [] = false
future_version seen (c ∷ t) =
    let rest = future_version true t in
    if is_hex c then rest else seen && (c == b'.' && is_future_tail t)

unfoldable pub is_ipv_future : Text → Bool
is_ipv_future [] = false
is_ipv_future (c ∷ t) = lower_char c == b'v' && future_version false t

-- text.partition(c): what stands before the first `c`, whether there is one, and what stands behind.
pub record Parts : Type 0 where
  pub before : Text
  pub found : Bool
  pub after : Text

unfoldable pub partition : ℕ → Text → Parts
partition c [] = record { before = []; found = false; after = [] }
partition c (d ∷ t) =
    let rest = partition c t in
    if d == c
    then record { before = []; found = true; after = t }
    else record rest { before = d ∷ rest.before }

-- "[" in front of a text
abbrev pub starts_with : ℕ → Text → Bool
starts_with c [] = false
starts_with c (d ∷ t) = d == c

-- The host and the port, if there is a colon for one.
abbrev pub Authority : Type 0
Authority = Text × Option Text

-- suffix[1:] if suffix else None, of a suffix that is empty or begins with a colon
abbrev pub suffix_port : Text → Option Text
suffix_port [] = none
suffix_port (c ∷ t) = some t

abbrev pub is_bad_suffix : Text → Bool
is_bad_suffix [] = false
is_bad_suffix (c ∷ t) = not (c == b':')

-- `int` and `isdecimal` are asked of digits only.
unfoldable pub port_out_of_range : Text → Bool
port_out_of_range port =
    let significant = or_zero (strip_zeros port) in
    ltb 5 (length significant) || ltb 65535 (decimal significant)

unfoldable pub check_port : Bool → Text → Result UriError (Unit {0})
check_port connect port =
    if not (all_bytes is_digit port)
    then err invalid_port
    else if port_out_of_range port
    then err port_range
    else if connect && text_eq (or_zero (strip_zeros port)) (b'0' ∷ [])
    then err zero_port
    else ok tt

-- The tests behind the split, which return the host.
abbrev pub answer_host : Text → Result UriError (Unit {0}) → Result UriError Text
answer_host host (ok u) = ok host
answer_host host (err e) = err e

abbrev pub is_empty : Text → Bool
is_empty [] = true
is_empty (c ∷ t) = false

abbrev pub check_host_port : Bool → Authority → Result UriError Text
check_host_port connect (host, none) = if connect then err connect_port else ok host
check_host_port connect (host, some port) =
    if connect && (is_empty host || is_empty port)
    then err connect_port
    else answer_host host (check_port connect port)

abbrev pub port_if : Bool → Text → Option Text
port_if true port = some port
port_if false port = none

-- `ipv6` is `ipaddress.IPv6Address(host).compressed`, or none where it raises.
module _ (ipv6 : Text → Option Text) where
  abbrev pub is_ipv6 : Option Text → Bool
  is_ipv6 none = false
  is_ipv6 (some t) = true

  abbrev pub is_literal : Text → Bool
  is_literal host = is_ipv_future host || (not (any (λ c. c == b'%') host) && is_ipv6 (ipv6 host))

  -- What follows "[" in an authority.
  unfoldable pub split_literal : Text → Result UriError Authority
  split_literal rest =
      let p = partition b']' rest in
      if not p.found
      then err invalid_literal
      else if is_bad_suffix p.after
      then err after_literal
      else if not (is_literal p.before)
      then err invalid_literal
      else ok (p.before, suffix_port p.after)

  unfoldable pub split_name : Text → Result UriError Authority
  split_name authority =
      let p = partition b':' authority in
      if not (uri_chars is_name_char zero p.before)
      then err invalid_host
      else ok (p.before, port_if p.found p.after)

  unfoldable pub split_authority : Text → Result UriError Authority
  split_authority [] = split_name []
  split_authority (c ∷ rest) = if c == b'[' then split_literal rest else split_name (c ∷ rest)

  abbrev pub then_check : Bool → Result UriError Authority → Result UriError Text
  then_check connect (ok a) = check_host_port connect a
  then_check connect (err e) = err e

  unfoldable pub validate_authority : Bool → Text → Result UriError Text
  validate_authority connect authority = then_check connect (split_authority authority)

unfoldable pub validate_path_query : Text → Text → Result UriError (Unit {0})
validate_path_query path query =
    if not (uri_chars is_path_char zero path) || not (uri_chars is_query_char zero query)
    then err invalid_path
    else ok tt
