-- ===== src/Tests/Requests.antt =====
-- Runs of the checks on the fields of an HTTP/2 request.
use solvetls.Base.Chars.{decimal, strip_zeros, is_token, all_bytes, is_token_byte, is_digits}
use solvetls.Base.{List, ◌+◌, ◌≤◌, ◌≡◌, refl, arith, min, false, [], ◌∷◌, map, All, length}
use solvetls.Base.Text.{codes, join}
use solvetls.Exec.{ok}
use solvetls.HttpFields.Response.{text_eq, lower, lower_char}
use solvetls.HttpFields.Lists.{
  is_blank, trim_left, trim_right, strip, scan_char, scan_from, finish_list, parse_combined,
  parse_http_list,
}
use solvetls.Http2.Adapter.{
  max_request_body, shrink_changes, smallest_from, final_from, bounded_content_length,
  bounded_content_length_lem,
}
use solvetls.Http2.Validation.{
  last_named, Fields, content_length, validate_raw_field, validate_raw_fields, values_named,
  validate_field_lists, some_byte, starts_blank, ends_blank, lengths_conflict, some_differs,
  some_not_trailers, headers_for_h2,
}
use solvetls.Http2.Validation.Adapted.{seen_host, headers_for_h2_lem}
use solvetls.Base.Sort.{Text}
use solvetls.Http2.Validation.Safe.{
  IsSafe, validate_raw_fields-IsSafe, validate_field_lists_lem, OneNumber,
}

bounded_content_length_lem_example :
    bounded_content_length (codes "0012345678")
    ≡ min (decimal (codes "0012345678")) (max_request_body + 1)
bounded_content_length_lem_example = bounded_content_length_lem (codes "0012345678") (
  (omega arith, omega arith),
  (
    (omega arith, omega arith),
    (
      (omega arith, omega arith),
      (
        (omega arith, omega arith),
        (
          (omega arith, omega arith),
          (
            (omega arith, omega arith),
            (
              (omega arith, omega arith),
              (
                (omega arith, omega arith),
                ((omega arith, omega arith), ((omega arith, omega arith), tt)),
              ),
            ),
          ),
        ),
      ),
    ),
  ),
)

-- Two lengths that are spelled differently.
abbrev request_fields : Fields
request_fields =
    (codes ":method", codes "POST")
    ∷ (codes "te", codes "Trailers")
    ∷ (content_length, codes "7")
    ∷ (content_length, codes "007")
    ∷ []

request_fields_raw : validate_raw_fields false request_fields ≡ ok tt
unfolding validate_raw_fields validate_raw_field some_byte starts_blank is_blank ends_blank text_eq
    is_token all_bytes is_token_byte is_digits
request_fields_raw = refl

request_fields_lists : validate_field_lists request_fields ≡ ok tt
unfolding validate_field_lists lengths_conflict values_named text_eq some_differs strip_zeros
    parse_http_list parse_combined finish_list scan_from join scan_char some_not_trailers strip
    trim_right trim_left is_blank lower lower_char
request_fields_lists = refl

validate_raw_fields-IsSafe_example : All (IsSafe false) request_fields
validate_raw_fields-IsSafe_example =
    validate_raw_fields-IsSafe false request_fields request_fields_raw

validate_field_lists_lem_example :
    OneNumber (values_named content_length request_fields)
    × (length (values_named (codes "host") request_fields) ≤ 1)
    × ((members : List Text) × (parse_http_list (values_named (codes "te") request_fields)
          ≡ ok members)
        × All (λ m. lower m ≡ codes "trailers") members)
validate_field_lists_lem_example = validate_field_lists_lem request_fields request_fields_lists

headers_for_h2_lem_example :
    let copy = headers_for_h2 request_fields false in
    (map (λ f. f.0) copy ≡ map (λ f. f.0) request_fields)
    × (values_named content_length copy ≡ values_named content_length request_fields)
    × (values_named (codes "te") copy
        ≡ map (λ _. codes "trailers") (values_named (codes "te") request_fields))
    × (values_named (codes "host") copy
        ≡ map
            (seen_host (last_named (codes ":authority") request_fields) false)
            (values_named (codes "host") request_fields))
headers_for_h2_lem_example =
    headers_for_h2_lem request_fields false content_length (λ e. cc) (λ e. cc)

shrunk : shrink_changes (9 ∷ 4 ∷ 7 ∷ []) ≡ 4 ∷ 7 ∷ []
unfolding shrink_changes smallest_from final_from
shrunk = refl
