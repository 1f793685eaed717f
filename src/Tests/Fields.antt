-- ===== src/Tests/Fields.antt =====
-- Runs of the header fields, of a saved SYN and of the Akamai fingerprint.
use solvetls.Base.{ℕ, ◌≡◌, ◌≢◌, ◌⊎◌, refl, arith, false, none, some, [], ◌∷◌, ◌++◌, length}
use solvetls.Exec.{ok}
use solvetls.Base.Text.{codes, str}
use solvetls.Base.Sort.{Text}
use solvetls.HttpFields.Response.{get, content_length, Headers, prepare_response}
use solvetls.HttpFields.Response.Framing.{
  IsBodiless, same_char, same_name, or_else, last_given, prepare_response_framing,
}
use solvetls.HttpFields.Lists.{is_blank, trim_left, trim_right, strip, parse_combined}
use solvetls.HttpFields.Lists.Members.{split_members, parse_combined-split}
use solvetls.Http2.Frames.Data.{ParsedFrame, unknown_payload}
use solvetls.Http2.Capture.{Capture}
use solvetls.Fingerprints.Akamai.{build_akamai_fingerprint}
use solvetls.Fingerprints.Akamai.Prefix.{build_akamai_fingerprint-after_headers}
use solvetls.Tcpip.{parse_syn}
use solvetls.Tcpip.Layout.{Packet, Fits, ip_wire, tcp_wire, syn_of, parse_syn-ipv4}

abbrev quoted_list : Text
quoted_list = codes "a, ,\"b,c\" , d"

quoted_members :
    split_members false false [] quoted_list ≡ ok (codes "a" ∷ codes "\"b,c\"" ∷ codes "d" ∷ [])
unfolding split_members strip trim_right trim_left is_blank
quoted_members = refl

parse_combined-split_example : parse_combined quoted_list ≡ split_members false false [] quoted_list
parse_combined-split_example = parse_combined-split quoted_list

abbrev given_headers : Headers
given_headers = (codes "Content-Length", codes "7") ∷ (codes "ETag", codes "x") ∷ []

prepare_response_framing_example :
    ((IsBodiless 200
        × ((prepare_response (1 ∷ 2 ∷ []) given_headers 200).0 ≡ [])
        × (get content_length (prepare_response (1 ∷ 2 ∷ []) given_headers 200).1 ≡ none))
      ⊎ ((¬ IsBodiless 200)
          × ((prepare_response (1 ∷ 2 ∷ []) given_headers 200).0 ≡ 1 ∷ 2 ∷ [])
          × (get content_length (prepare_response (1 ∷ 2 ∷ []) given_headers 200).1
              ≡ some (str 2))))
    × ((name : Text)
        → name ≢ content_length
        → get name (prepare_response (1 ∷ 2 ∷ []) given_headers 200).1
          ≡ last_given name given_headers)
prepare_response_framing_example = prepare_response_framing (1 ∷ 2 ∷ []) given_headers 200

tag_given : last_given (codes "etag") given_headers ≡ some (codes "x")
unfolding last_given or_else same_name same_char
tag_given = refl

-- An IPv4 header with one word of options.
abbrev syn_packet : Packet
syn_packet = record {
  words = 6;
  service = 0;
  total = 44;
  id = 4242;
  fragment = 0x4000;
  ttl = 64;
  protocol = 6;
  ip_checksum = 7;
  src = 10 ∷ 0 ∷ 0 ∷ 1 ∷ [];
  dst = 10 ∷ 0 ∷ 0 ∷ 2 ∷ [];
  options = 1 ∷ 1 ∷ 1 ∷ 0 ∷ [];
  src_port = 50000;
  dst_port = 443;
  seq = 123456;
  ack = 0;
  offset = 80;
  flags = 2;
  window = 65535;
  tcp_checksum = 9;
  urgent = 0;
}

syn_packet-Fits : Fits syn_packet
syn_packet-Fits = record {
  words_fit = (omega arith, omega arith);
  options_fit = refl;
  service_fits = omega arith;
  total_fits = omega arith;
  id_fits = omega arith;
  fragment_fits = omega arith;
  ttl_fits = omega arith;
  protocol_fits = omega arith;
  ip_checksum_fits = omega arith;
  src_fits = refl;
  dst_fits = refl;
  src_port_fits = omega arith;
  dst_port_fits = omega arith;
  seq_fits = omega arith;
  ack_fits = omega arith;
  offset_fits = omega arith;
  flags_fit = omega arith;
  window_fits = omega arith;
  tcp_checksum_fits = omega arith;
  urgent_fits = omega arith;
}

parse_syn-ipv4_example :
    parse_syn (some ((ip_wire syn_packet ++ tcp_wire syn_packet) ++ []))
    ≡ some (syn_of syn_packet (length ((ip_wire syn_packet ++ tcp_wire syn_packet) ++ [])))
parse_syn-ipv4_example = parse_syn-ipv4 syn_packet [] syn_packet-Fits

abbrev frame_of : ℕ → ParsedFrame
frame_of t = record {
  header = record { length = 0; type = t; flags = 0; stream_id = 1 };
  payload =
      unknown_payload
        (record { unknown_type = t; raw_payload = []; parse_error = none; error_code = none });
  raw = [];
}

abbrev empty_capture : Capture
empty_capture = record {
  frames = [];
  initial_settings = none;
  headers = none;
  trailers = [];
  stream_id = none;
  expectation_failed = false;
}

build_akamai_fingerprint-after_headers_example :
    build_akamai_fingerprint
      (λ t. t)
      (some (record empty_capture { frames = frame_of 99 ∷ frame_of 1 ∷ frame_of 8 ∷ [] }))
    ≡ build_akamai_fingerprint
        (λ t. t)
        (some (record empty_capture { frames = frame_of 99 ∷ frame_of 1 ∷ [] }))
build_akamai_fingerprint-after_headers_example =
    build_akamai_fingerprint-after_headers (λ t. t) empty_capture (frame_of 99 ∷ []) (frame_of 1)
      (frame_of 8 ∷ []) [] refl
