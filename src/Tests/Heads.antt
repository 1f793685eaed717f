-- ===== src/Tests/Heads.antt =====
-- Runs of the parser of HTTP/1 heads.
use solvetls.Base.{
  ℕ, ◌+◌, ◌≤◌, ◌≡◌, ◌≢◌, refl, List, [], ◌∷◌, ◌++◌, All, some, none, Option, length, take,
}
use solvetls.Base.Chars.{all_bytes, is_token, is_token_byte, is_digits, strip_zeros}
use solvetls.Base.Text.{codes, join}
use solvetls.Base.Sort.{Text}
use solvetls.Exec.{Result, ok, err}
use solvetls.Wire.Bytes.{Bytes}
use solvetls.HttpFields.Response.{text_eq, lower, lower_char}
use solvetls.HttpFields.Lists.{
  is_blank, trim_left, trim_right, strip, scan_char, scan_from, finish_list, parse_combined,
  parse_http_list,
}
use solvetls.Uri.{
  UriError, split_error, is_name_char, uri_chars, partition, split_name, split_authority,
  validate_authority, validate_path_query,
}
use solvetls.Uri.Normalize.{SplitResult}
use solvetls.Http1.{
  head_end, starts, find, head_size, too_large, check_head_size, line_step, line_scan, split_lines,
  split_on,
}
use solvetls.Http1.Framing.{
  chunked, coding_step, coding_run, is_coding, coding_name, read_coding, read_codings, ends_chunked,
  is_known, coding_values, validate_encodings, strip_each, length_values, some_other_length,
  validate_lengths, values_of, validate_framing,
}
use solvetls.Http1.Request.{
  HttpRequest, validate_target, parse_field, parse_fields, check_request_line, check_fields,
  parse_lines, parse_request,
}
use solvetls.Http1.Smuggling.{
  OneLength, IsFramed, validate_lengths-OneLength, validate_encodings-chunked,
  parse_request-IsFramed,
}

abbrev no_ipv6 : Text → Option Text
no_ipv6 t = none

abbrev no_split : Text → Result UriError SplitResult
no_split t = err (split_error [])

-- Two fields of lengths, one of them a list.
lengths_agree : validate_lengths (codes "7, 007" ∷ codes "07" ∷ []) ≡ ok tt
unfolding validate_lengths length_values strip_each split_on strip trim_left trim_right is_blank
    is_digits all_bytes some_other_length strip_zeros text_eq
lengths_agree = refl

validate_lengths-OneLength_example : OneLength (length_values (codes "7, 007" ∷ codes "07" ∷ []))
validate_lengths-OneLength_example =
    validate_lengths-OneLength (codes "7, 007") (codes "07" ∷ []) lengths_agree

codings_end : validate_encodings (codes "gzip;a=b, chunked" ∷ []) ≡ ok tt
unfolding validate_encodings read_codings read_coding is_coding coding_run coding_step coding_name
    is_token_byte ends_chunked is_known text_eq lower lower_char parse_http_list parse_combined
    finish_list scan_from scan_char join strip trim_left trim_right is_blank
codings_end = refl

validate_encodings-chunked_example :
    (values front : List Text) × (coding_values (codes "gzip;a=b, chunked" ∷ []) ≡ ok values)
    × (read_codings values ≡ ok (front ++ chunked ∷ []))
    × All (λ c. c ≢ chunked) front
validate_encodings-chunked_example =
    validate_encodings-chunked (codes "gzip;a=b, chunked") [] codings_end

abbrev head : Bytes
head = codes "GET / HTTP/1.1\r\nHost: a\r\n\r\nrest"

abbrev request : HttpRequest
request = record {
  method = codes "GET";
  path = codes "/";
  headers = (codes "Host", codes "a") ∷ [];
  raw_head = codes "GET / HTTP/1.1\r\nHost: a\r\n\r\n";
}

head_parsed : parse_request no_ipv6 no_split head ≡ ok request
unfolding parse_request check_head_size too_large head_size find starts split_lines line_scan
    line_step parse_lines split_on check_request_line is_token all_bytes is_token_byte text_eq
    validate_target validate_path_query partition uri_chars is_name_char parse_fields parse_field
    strip trim_left trim_right is_blank check_fields values_of lower lower_char validate_authority
    split_authority split_name validate_framing validate_lengths validate_encodings
head_parsed = refl

parse_request-IsFramed_example :
    IsFramed no_ipv6 no_split request
    × ((e : ℕ) × (find head_end head ≡ some e) × (request.raw_head ≡ take (e + 4) head))
    × (length request.raw_head ≤ 65536)
    × ((rest : Bytes) → parse_request no_ipv6 no_split (request.raw_head ++ rest) ≡ ok request)
parse_request-IsFramed_example = parse_request-IsFramed no_ipv6 no_split head request head_parsed
