-- ===== src/Redirect.antt =====
-- solvetls/redirect.py: `redirect_location` and `_read_head`. `ipaddress`, `urlsplit` and the stream are
-- parameters; the timeouts are not modelled.
pub mod Location
pub mod Head
use solvetls.Base.{
  ℕ, zero, suc, ◌+◌, Bool, true, false, not, ◌&&◌, ◌||◌, List, [], ◌∷◌, ◌++◌, length, take, drop,
  Option, none, some, ◌==◌, if◌then◌else◌,
}
use solvetls.Base.Text.{codes, str}
use solvetls.Base.Sort.{Text}
use solvetls.Exec.{Result, ok, err, Exec, pure, raise, ◌>>=◌}
use solvetls.Wire.Bytes.{Bytes}
use solvetls.HttpFields.Response.{text_eq, lower, Headers}
use solvetls.Uri.{UriError, is_empty, starts_with, validate_authority}
use solvetls.Uri.Normalize.{SplitResult, split_absolute_uri}
use solvetls.Http1.{HttpError, bad_request, head_end, find, check_head_size}
use solvetls.Http1.Request.{HttpRequest}

-- An HTTP1Error, a ValueError of a URI, the StopIteration of `next`, and an exception of the stream. `stuck`
-- is none of Python's: a loop ran out of fuel.
pub data RedirectError : Type 0 where
  http_error : HttpError → RedirectError
  value_error : UriError → RedirectError
  stop_iteration : RedirectError
  stream_error : Text → RedirectError
  stuck : RedirectError

abbrev pub and_then :
    {A B : Type 0} → Result RedirectError A → (A → Result RedirectError B) → Result RedirectError B
and_then (ok a) f = f a
and_then (err e) f = err e

abbrev pub refuse : Bool → HttpError → Result RedirectError (Unit {0})
refuse true e = err (http_error e)
refuse false e = ok tt

abbrev pub from_uri : {A : Type 0} → Result UriError A → Result RedirectError A
from_uri (ok a) = ok a
from_uri (err e) = err (value_error e)

-- next(value for name, value in headers if name.lower() == "host")
unfoldable pub next_host : Headers → Result RedirectError Text
next_host [] = err stop_iteration
next_host ((n, v) ∷ headers) =
    let rest = next_host headers in if text_eq (lower n) (codes "host") then ok v else rest

-- The authority and the path of the location.
abbrev pub Place : Type 0
Place = Text × Text

abbrev pub with_slash : Text → Text
with_slash path = if starts_with b'/' path then path else b'/' ∷ path

unfoldable pub parsed_place : Text → SplitResult → Result RedirectError Place
parsed_place target parsed =
    and_then
      (refuse (not (text_eq parsed.scheme (codes "http") || text_eq parsed.scheme (codes "https")))
        (bad_request (codes "Only HTTP request targets can be redirected")))
      (λ _.
        ok (
          parsed.netloc,
          with_slash (drop (length parsed.scheme + 3 + length parsed.netloc) target),
        ))

abbrev pub origin_place : Text → Text → Result RedirectError Place
origin_place target authority = ok (authority, target)

-- f"[{host}]" of an IP literal
abbrev pub bracketed : Text → Text → Text
bracketed authority host = if starts_with b'[' authority then b'[' ∷ (host ++ b']' ∷ []) else host

abbrev pub port_suffix : ℕ → Text
port_suffix https_port = if https_port == 443 then [] else b':' ∷ str https_port

module _ (ipv6 : Text → Option Text) (urlsplit : Text → Result UriError SplitResult) where
  unfoldable pub place_of : HttpRequest → Result RedirectError Place
  place_of request =
      if starts_with b'/' request.path
      then and_then (next_host request.headers) (origin_place request.path)
      else and_then (from_uri (split_absolute_uri urlsplit request.path))
          (parsed_place request.path)

  unfoldable pub location_at : ℕ → Place → Result RedirectError Text
  location_at https_port (authority, path) =
      and_then (from_uri (validate_authority ipv6 false authority)) (λ host.
        and_then (refuse (is_empty host) (bad_request (codes "A redirect requires a host"))) (λ _.
          ok (codes "https://" ++ (bracketed authority host ++ (port_suffix https_port ++ path)))))

  unfoldable pub redirect_location : HttpRequest → ℕ → Result RedirectError Text
  redirect_location request https_port =
      and_then
        (refuse (text_eq request.method (codes "CONNECT"))
          (record { message = codes "CONNECT tunnels are not supported"; status_code = 501 }))
        (λ _.
          and_then
            (refuse (text_eq request.path (codes "*"))
              (bad_request (codes "A redirect requires a request path")))
            (λ _. and_then (place_of request) (location_at https_port)))

-- `reader.read(4096)` of a stream with states of type `S`.
module _ {S : Type 0} (read : Exec S RedirectError Bytes) where
  -- At the end of the stream.
  unfoldable pub end_head : Bytes → Exec S RedirectError Bytes
  end_head xs =
      if length xs == 0
      then pure []
      else raise (http_error (bad_request (codes "Request head was not terminated")))

  -- What follows a chunk, with the rest of the loop.
  abbrev pub found_head : Bytes → Option ℕ → Exec S RedirectError Bytes → Exec S RedirectError Bytes
  found_head xs none rest = rest
  found_head xs (some e) rest = pure (take (e + 4) xs)

  abbrev pub checked_head :
      Bytes → Result HttpError (Unit {0}) → Exec S RedirectError Bytes → Exec S RedirectError Bytes
  checked_head xs (ok u) rest = found_head xs (find head_end xs) rest
  checked_head xs (err e) rest = raise (http_error e)

  -- The `while` loop, on fuel, with the bytes so far.
  unfoldable pub read_head_from : ℕ → Bytes → Exec S RedirectError Bytes
  read_head_from zero xs = raise stuck
  read_head_from (suc fuel) xs =
      let rest = read_head_from fuel in
      do
        chunk ← read
        if length chunk == 0
            then end_head xs
            else checked_head (xs ++ chunk) (check_head_size (xs ++ chunk) true)
                (rest (xs ++ chunk))

  -- Each chunk has a byte at least, and the size is checked with each.
  unfoldable pub read_head : Exec S RedirectError Bytes
  read_head = read_head_from 65537 []
