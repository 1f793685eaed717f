-- ===== src/Tests/Redirects.antt =====
-- Runs of a redirect, from chunks of a head to a location.
use solvetls.Base.{◌≡◌, ◌≢◌, refl, true, false, List, [], ◌∷◌, ◌++◌, none, Option}
use solvetls.Base.Chars.{all_bytes, strip_zeros, decimal, decimal_from}
use solvetls.Base.Text.{codes, str, digit, numeral_loop}
use solvetls.Base.Sort.{Text}
use solvetls.Exec.{Result, ok, err, Exec, ◌>>=◌}
use solvetls.Wire.Bytes.{Bytes}
use solvetls.HttpFields.Response.{text_eq, lower, lower_char}
use solvetls.Uri.{
  UriError, split_error, starts_with, is_name_char, uri_chars, partition, check_port,
  port_out_of_range, split_name, split_authority, validate_authority,
}
use solvetls.Uri.Normalize.{SplitResult}
use solvetls.Http1.{starts, find, head_size, too_large, check_head_size}
use solvetls.Http1.Request.{HttpRequest}
use solvetls.Redirect.{
  RedirectError, bracketed, port_suffix, next_host, place_of, location_at, redirect_location,
  read_head_from, read_head,
}
use solvetls.Redirect.Location.{redirect_location_https}
use solvetls.Redirect.Head.{IsHead, IsStreamError, read_head-IsHead}

abbrev no_ipv6 : Text → Option Text
no_ipv6 t = none

abbrev no_split : Text → Result UriError SplitResult
no_split t = err (split_error [])

abbrev request : HttpRequest
request = record {
  method = codes "GET";
  path = codes "/x?y";
  headers = (codes "Host", codes "a.b:80") ∷ [];
  raw_head = [];
}

located : redirect_location no_ipv6 no_split request 8443 ≡ ok (codes "https://a.b:8443/x?y")
unfolding redirect_location place_of next_host location_at validate_authority split_authority
    split_name partition uri_chars is_name_char check_port text_eq lower lower_char str numeral_loop
    digit all_bytes port_out_of_range strip_zeros decimal decimal_from
located = refl

redirect_location_https_example :
    (authority host path : Text) × (codes "https://a.b:8443/x?y"
      ≡ codes "https://" ++ (bracketed authority host ++ (port_suffix 8443 ++ path)))
    × (validate_authority no_ipv6 false authority ≡ ok host)
    × (host ≢ [])
    × (starts_with b'/' path ≡ true)
redirect_location_https_example =
    redirect_location_https no_ipv6 no_split request 8443 (codes "https://a.b:8443/x?y") located

-- A stream of chunks.
abbrev next_chunk : Exec (List Bytes) RedirectError Bytes
next_chunk [] = (ok [], [])
next_chunk (c ∷ cs) = (ok c, cs)

next_chunk_safe : (s : List Bytes) → IsStreamError (next_chunk s).0
next_chunk_safe [] = tt
next_chunk_safe (c ∷ cs) = tt

abbrev chunks : List Bytes
chunks = codes "GET / HTTP/1.1\r\n\r" ∷ codes "\nrest" ∷ []

chunks_read : read_head next_chunk chunks ≡ (ok (codes "GET / HTTP/1.1\r\n\r\n"), [])
unfolding read_head read_head_from check_head_size too_large head_size find starts ◌>>=◌
chunks_read = refl

read_head-IsHead_example : IsHead next_chunk chunks (read_head next_chunk chunks)
read_head-IsHead_example = read_head-IsHead next_chunk next_chunk_safe chunks
