-- ===== src/Tests/Uris.antt =====
-- Runs of the checks on authorities and on the target of a request.
use solvetls.Base.{◌≡◌, refl, arith, true, false, [], ◌∷◌, ◌++◌, some, none, All, Option}
use solvetls.Base.Chars.{
  decimal, decimal_from, strip_zeros, all_bytes, is_token, is_token_byte, is_digits,
}
use solvetls.Base.Text.{codes, join}
use solvetls.Base.Sort.{Text}
use solvetls.Exec.{ok}
use solvetls.HttpFields.Response.{text_eq, lower, lower_char}
use solvetls.HttpFields.Lists.{
  is_blank, scan_from, finish_list, parse_combined, parse_http_list, trim_left, trim_right, strip,
}
use solvetls.Uri.{
  Authority, is_name_char, uri_chars, partition, check_port, port_out_of_range, split_name,
  split_authority, validate_authority, validate_path_query,
}
use solvetls.Uri.Normalize.{default_port, normalize_authority}
use solvetls.Uri.Ports.{
  IsAccepted, IsPort, validate_authority-IsAccepted, normalize_authority-default_port,
}
use solvetls.Http2.Validation.{
  Fields, validate_raw_field, validate_raw_fields, values_named, validate_field_lists, some_byte,
  starts_blank, ends_blank, lengths_conflict, some_not_trailers, last_named, headers_for_h2,
}
use solvetls.Http2.Validation.Request.{
  is_scheme, validate_path, validate_scheme_path, compare_host, validate_request_authority,
  validate_request_target, validate_fields,
}
use solvetls.Http2.Validation.Safe.{IsSafe}
use solvetls.Http2.Validation.Target.{IsTarget, validate_fields-IsTarget}

abbrev no_ipv6 : Text → Option Text
no_ipv6 t = none

accepted : validate_authority no_ipv6 true (codes "a.b:8443") ≡ ok (codes "a.b")
unfolding validate_authority split_authority split_name partition uri_chars is_name_char check_port
    port_out_of_range all_bytes strip_zeros decimal decimal_from text_eq
accepted = refl

validate_authority-IsAccepted_example :
    (a : Authority) × (split_authority no_ipv6 (codes "a.b:8443") ≡ ok a)
    × (a.0 ≡ codes "a.b")
    × IsAccepted true a
validate_authority-IsAccepted_example =
    validate_authority-IsAccepted no_ipv6 true (codes "a.b:8443") (codes "a.b") accepted

implied : default_port (codes "https") ≡ some (decimal (codes "0443"))
unfolding default_port lower lower_char text_eq decimal decimal_from
implied = refl

https-IsPort : IsPort (codes "0443")
unfolding decimal decimal_from
https-IsPort = record {
  digits = (
    (omega arith, omega arith),
    ((omega arith, omega arith), ((omega arith, omega arith), ((omega arith, omega arith), tt))),
  );
  within = omega arith;
}

normalize_authority-default_port_example :
    normalize_authority no_ipv6 (codes "a" ++ b':' ∷ codes "0443") (codes "https") false
    ≡ normalize_authority no_ipv6 (codes "a") (codes "https") false
normalize_authority-default_port_example =
    normalize_authority-default_port no_ipv6 (codes "a") (codes "0443") (codes "https")
      ((λ e. omega (arith, e), λ e. omega (arith, e)), tt) (λ e. cc) https-IsPort implied

abbrev request : Fields
request =
    (codes ":method", codes "GET")
    ∷ (codes ":scheme", codes "https")
    ∷ (codes ":path", codes "/")
    ∷ (codes ":authority", codes "a")
    ∷ []

request_valid : validate_fields no_ipv6 (λ trailers h. ok tt) request false ≡ ok tt
unfolding validate_fields validate_raw_fields validate_raw_field some_byte starts_blank is_blank
    ends_blank text_eq is_token all_bytes is_token_byte is_digits validate_field_lists
    lengths_conflict values_named parse_http_list parse_combined finish_list scan_from join
    some_not_trailers validate_request_target last_named is_scheme validate_scheme_path
    validate_path validate_path_query partition uri_chars lower lower_char
    validate_request_authority validate_authority split_authority split_name is_name_char
    compare_host headers_for_h2 strip trim_left trim_right
request_valid = refl

validate_fields-IsTarget_example : All (IsSafe false) request × IsTarget no_ipv6 request
validate_fields-IsTarget_example =
    validate_fields-IsTarget no_ipv6 (λ trailers h. ok tt) request request_valid
