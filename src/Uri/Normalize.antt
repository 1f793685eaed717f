-- ===== src/Uri/Normalize.antt =====
-- solvetls/uri.py: `normalize_authority` and `split_absolute_uri`.
use solvetls.Base.{
  ℕ, ◌+◌, ◌*◌, ◌-◌, Bool, not, ◌&&◌, ◌||◌, [], ◌∷◌, ◌++◌, Option, none, some, leb, ◌==◌,
  if◌then◌else◌,
}
use solvetls.Base.Chars.{is_alpha, is_digit, decimal, strip_zeros, or_zero}
use solvetls.Base.Text.{codes}
use solvetls.Base.Sort.{Text}
use solvetls.Exec.{Result, ok, err}
use solvetls.HttpFields.Response.{text_eq, lower_char, lower}
use solvetls.Uri.{UriError, one_of, is_ipv_future, partition, validate_authority}

-- int(c, 16) of a hexadecimal digit in lower case
abbrev pub hex_value : ℕ → ℕ
hex_value c = if is_digit c then c - b'0' else c - b'a' + 10

abbrev pub is_lower_hex : ℕ → Bool
is_lower_hex c = is_digit c || (leb b'a' c && leb c b'f')

-- str.upper of such a digit
abbrev pub upper_hex : ℕ → ℕ
upper_hex c = if is_digit c then c else c - 32

abbrev pub is_unreserved : ℕ → Bool
is_unreserved c = is_alpha c || (is_digit c || one_of "-._~" c)

-- What stands for the escape of two digits.
unfoldable pub normalize_escape : ℕ → ℕ → Text
normalize_escape a b =
    let char = 16 * hex_value a + hex_value b in
    if is_unreserved char then lower_char char ∷ [] else b'%' ∷ upper_hex a ∷ upper_hex b ∷ []

-- re.sub(r"%[0-9a-f]{2}", normalize_escape, text)
unfoldable pub sub_escapes : Text → Text
sub_escapes [] = []
sub_escapes (c ∷ []) = c ∷ []
sub_escapes (c ∷ a ∷ []) = c ∷ a ∷ []
sub_escapes (c ∷ a ∷ b ∷ t) =
    let behind = sub_escapes t in
    let next = sub_escapes (a ∷ b ∷ t) in
    if c == b'%' && (is_lower_hex a && is_lower_hex b)
    then normalize_escape a b ++ behind
    else c ∷ next

-- int(port_text.lstrip("0") or "0") if port_text else None
unfoldable pub port_number : Text → Option ℕ
port_number [] = none
port_number (c ∷ t) = some (decimal (or_zero (strip_zeros (c ∷ t))))

unfoldable pub default_port : Text → Option ℕ
default_port scheme =
    if text_eq (lower scheme) (codes "http")
    then some 80
    else if text_eq (lower scheme) (codes "https")
    then some 443
    else none

abbrev pub port_or : Option ℕ → Option ℕ → Option ℕ
port_or none d = d
port_or (some p) d = some p

-- suffix[1:] if suffix else ""
abbrev pub tail_of : Text → Text
tail_of [] = []
tail_of (c ∷ t) = t

abbrev pub or_nothing : Option Text → Text
or_nothing none = []
or_nothing (some t) = t

module _ (ipv6 : Text → Option Text) where
  -- The normal form of an accepted host between brackets, with them.
  unfoldable pub normalize_literal : Text → Text
  normalize_literal host =
      codes "["
      ++ ((if is_ipv_future host then lower host else or_nothing (ipv6 host)) ++ codes "]")

  -- The normal host and the port's text of an authority whose host is accepted.
  unfoldable pub normalize_host : Text → Text → Text × Text
  normalize_host host [] = (sub_escapes (lower host), [])
  normalize_host host (c ∷ rest) =
      if c == b'['
      then (normalize_literal host, tail_of (partition b']' rest).after)
      else (sub_escapes (lower host), (partition b':' (c ∷ rest)).after)

  abbrev pub with_host : Text → Text → Result UriError Text → Result UriError (Text × Option ℕ)
  with_host authority scheme (err e) = err e
  with_host authority scheme (ok host) =
      let (normal, port_text) = normalize_host host authority in
      ok (normal, port_or (port_number port_text) (default_port scheme))

  unfoldable pub normalize_authority : Text → Text → Bool → Result UriError (Text × Option ℕ)
  normalize_authority authority scheme connect =
      with_host authority scheme (validate_authority ipv6 connect authority)

-- What `urlsplit` returns, without the fragment.
pub record SplitResult : Type 0 where
  pub scheme : Text
  pub netloc : Text
  pub path : Text
  pub query : Text

abbrev pub is_scheme_char : ℕ → Bool
is_scheme_char c = is_alpha c || (is_digit c || one_of "+.-" c)

-- The characters of a scheme at the front, and what follows them.
unfoldable pub scheme_span : Text → Text × Text
scheme_span [] = ([], [])
scheme_span (c ∷ t) =
    let rest = scheme_span t in if is_scheme_char c then (c ∷ rest.0, rest.1) else ([], c ∷ t)

abbrev pub ends_authority : ℕ → Bool
ends_authority c = one_of "/?#" c

unfoldable pub authority_span : Text → Text × Text
authority_span [] = ([], [])
authority_span (c ∷ t) =
    let rest = authority_span t in if ends_authority c then ([], c ∷ t) else (c ∷ rest.0, rest.1)

-- What stands up to and with the last "@", and behind it.
unfoldable pub last_at : Text → Text × Text
last_at [] = ([], [])
last_at (c ∷ t) =
    let (front, host) = last_at t in
    if c == b'@' || not (text_eq front []) then (c ∷ front, host) else ([], c ∷ host)

-- The match of [A-Za-z][A-Za-z0-9+.-]*://([^/?#]*): the text before the authority, the authority, and
-- what follows.
abbrev pub behind_scheme : Text → Text → Option (Text × Text × Text)
behind_scheme scheme (c ∷ d ∷ e ∷ t) =
    if c == b':' && (d == b'/' && e == b'/')
    then some (scheme ++ codes "://", (authority_span t).0, (authority_span t).1)
    else none
behind_scheme scheme _ = none

unfoldable pub match_absolute : Text → Option (Text × Text × Text)
match_absolute [] = none
match_absolute (c ∷ t) =
    if is_alpha c then behind_scheme (scheme_span (c ∷ t)).0 (scheme_span (c ∷ t)).1 else none

abbrev pub with_netloc : Text → Result UriError SplitResult → Result UriError SplitResult
with_netloc authority (ok s) = ok (record s { netloc = authority })
with_netloc authority (err e) = err e

-- `urlsplit` of the standard library, which may raise a ValueError.
module _ (urlsplit : Text → Result UriError SplitResult) where
  -- An authority in three parts: what stands up to its last "@", and the host behind.
  unfoldable pub split_host : Text → Text → Text → Text → Text → Text → Result UriError SplitResult
  split_host target front authority behind user (b ∷ v ∷ t) =
      if b == b'[' && v == b'V'
      then with_netloc authority (urlsplit (front ++ (user ++ (b ∷ b'v' ∷ t ++ behind))))
      else urlsplit target
  split_host target front authority behind user _ = urlsplit target

  abbrev pub split_matched : Text → Option (Text × Text × Text) → Result UriError SplitResult
  split_matched target none = urlsplit target
  split_matched target (some (front, authority, behind)) =
      split_host target front authority behind (last_at authority).0 (last_at authority).1

  unfoldable pub split_absolute_uri : Text → Result UriError SplitResult
  split_absolute_uri target = split_matched target (match_absolute target)
