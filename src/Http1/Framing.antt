-- ===== src/Http1/Framing.antt =====
-- solvetls/http1.py: `_TRANSFER_CODING_RE` and `_validate_framing`.
use solvetls.Base.{
  ℕ, Bool, true, false, not, ◌&&◌, ◌||◌, List, [], ◌∷◌, ◌++◌, any, ◌==◌, if◌then◌else◌,
}
use solvetls.Base.Chars.{is_token_byte, is_digits, strip_zeros, or_zero}
use solvetls.Base.Text.{codes}
use solvetls.Base.Sort.{Text}
use solvetls.Exec.{Result, ok, err}
use solvetls.HttpFields.Response.{text_eq, lower, Headers}
use solvetls.HttpFields.Lists.{is_blank, strip, ListError, parse_http_list}
use solvetls.Http1.{HttpError, bad_request, refuse, and_then, split_on}

-- The matcher of a coding with its parameters: where it stands in the pattern.
pub data Coding : Type 0 where
  at_token in_token between at_name in_name behind_name at_value in_value quoted quoted_pair :
      Coding
  refused : Coding

-- Behind a token or a value.
abbrev pub behind : ℕ → Coding
behind c = if is_blank c then between else if c == b';' then at_name else refused

unfoldable pub coding_step : Coding → ℕ → Coding
coding_step at_token c = if is_token_byte c then in_token else refused
coding_step in_token c = if is_token_byte c then in_token else behind c
coding_step between c = behind c
coding_step at_name c = if is_blank c then at_name else if is_token_byte c then in_name else refused
coding_step in_name c =
    if is_token_byte c
    then in_name
    else if is_blank c
    then behind_name
    else if c == b'='
    then at_value
    else refused
coding_step behind_name c =
    if is_blank c then behind_name else if c == b'=' then at_value else refused
coding_step at_value c =
    if is_blank c
    then at_value
    else if is_token_byte c
    then in_value
    else if c == 34
    then quoted
    else refused
coding_step in_value c = if is_token_byte c then in_value else behind c
coding_step quoted c = if c == 34 then between else if c == 92 then quoted_pair else quoted
coding_step quoted_pair c = if c == 10 then refused else quoted
coding_step refused c = refused

unfoldable pub coding_run : Coding → Text → Coding
coding_run q [] = q
coding_run q (c ∷ t) = coding_run (coding_step q c) t

abbrev pub is_matched : Coding → Bool
is_matched in_token = true
is_matched between = true
is_matched in_value = true
is_matched _ = false

-- _TRANSFER_CODING_RE.fullmatch(value)
unfoldable pub is_coding : Text → Bool
is_coding value = is_matched (coding_run at_token value)

-- match[1]
unfoldable pub coding_name : Text → Text
coding_name [] = []
coding_name (c ∷ t) = let rest = coding_name t in if is_token_byte c then c ∷ rest else []

abbrev pub chunked : Text
chunked = codes "chunked"

-- Whether some value is a text.
unfoldable pub some_is : Text → List Text → Bool
some_is t [] = false
some_is t (v ∷ vs) = text_eq v t || some_is t vs

-- The body of the loop over the codings, at one of them.
unfoldable pub read_coding : Text → Result HttpError Text
read_coding value =
    let coding = lower (coding_name value) in
    and_then (refuse (not (is_coding value)) (bad_request (codes "Invalid Transfer-Encoding")))
      (λ _.
        and_then
          (refuse (text_eq coding chunked && any (λ c. c == b';') value)
            (bad_request (codes "Chunked transfer coding cannot have parameters")))
          (λ _. ok coding))

unfoldable pub read_codings : List Text → Result HttpError (List Text)
read_codings [] = ok []
read_codings (v ∷ vs) =
    and_then (read_coding v) (λ c. and_then (read_codings vs) (λ cs. ok (c ∷ cs)))

-- Whether the last coding is "chunked", and no other is.
unfoldable pub ends_chunked : List Text → Bool
ends_chunked [] = false
ends_chunked (c ∷ []) = text_eq c chunked
ends_chunked (c ∷ d ∷ cs) = not (text_eq c chunked) && ends_chunked (d ∷ cs)

unfoldable pub is_known : Text → Bool
is_known c =
    text_eq c chunked
    || (text_eq c (codes "compress") || (text_eq c (codes "deflate") || text_eq c (codes "gzip")))

abbrev pub list_of : Result ListError (List Text) → Result HttpError (List Text)
list_of (ok values) = ok values
list_of (err e) = err (bad_request (codes "Unterminated quoted HTTP list member"))

abbrev pub coding_values : List Text → Result HttpError (List Text)
coding_values encodings = list_of (parse_http_list encodings)

abbrev pub chunked_error : HttpError
chunked_error = bad_request (codes "Request Transfer-Encoding must end with one chunked coding")

abbrev pub unsupported : HttpError
unsupported = record { message = codes "Transfer coding is not supported"; status_code = 501 }

unfoldable pub validate_encodings : List Text → Result HttpError (Unit {0})
validate_encodings [] = ok tt
validate_encodings (e ∷ es) = and_then (coding_values (e ∷ es)) (λ values.
    and_then (read_codings values) (λ codings.
      and_then (refuse (not (ends_chunked codings)) chunked_error)
        (λ _. refuse (any (λ c. not (is_known c)) codings) unsupported)))

-- The members of Content-Length, over commas.
unfoldable pub strip_each : List Text → List Text
strip_each [] = []
strip_each (t ∷ ts) = strip t ∷ strip_each ts

unfoldable pub length_values : List Text → List Text
length_values [] = []
length_values (v ∷ vs) = strip_each (split_on b',' v) ++ length_values vs

-- Whether some value has other significant digits than `first`.
unfoldable pub some_other_length : Text → List Text → Bool
some_other_length first [] = false
some_other_length first (v ∷ vs) =
    not (text_eq (or_zero (strip_zeros v)) (or_zero (strip_zeros first)))
    || some_other_length first vs

-- len({...}) != 1
abbrev pub conflicting : List Text → Bool
conflicting [] = true
conflicting (v ∷ vs) = some_other_length v vs

unfoldable pub validate_lengths : List Text → Result HttpError (Unit {0})
validate_lengths [] = ok tt
validate_lengths (l ∷ ls) =
    let values = length_values (l ∷ ls) in
    and_then
      (refuse (any (λ v. not (is_digits v)) values) (bad_request (codes "Invalid Content-Length")))
      (λ _. refuse (conflicting values) (bad_request (codes "Conflicting Content-Length values")))

-- fields.get(name, []): the values of the fields with that name in lower case, in their order.
unfoldable pub values_of : Text → Headers → List Text
values_of name [] = []
values_of name ((n, v) ∷ headers) =
    let rest = values_of name headers in if text_eq (lower n) name then v ∷ rest else rest

abbrev pub both : List Text → List Text → Bool
both [] es = false
both (l ∷ ls) [] = false
both (l ∷ ls) (e ∷ es) = true

unfoldable pub validate_framing : Headers → Result HttpError (Unit {0})
validate_framing headers =
    let lengths = values_of (codes "content-length") headers in
    let encodings = values_of (codes "transfer-encoding") headers in
    and_then
      (refuse (both lengths encodings)
        (bad_request (codes "Transfer-Encoding and Content-Length cannot be combined")))
      (λ _. and_then (validate_lengths lengths) (λ _. validate_encodings encodings))
