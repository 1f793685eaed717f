-- ===== src/Tests/Hello.antt =====
-- Runs of the ClientHello reader, of its extension decoders and of the fingerprints.
use solvetls.Base.{ℕ, ◌≡◌, ◌≢◌, refl, arith, true, some, List, [], ◌∷◌, ◌++◌, ◌/◌, ◌%◌, ◌&&◌, ◌==◌}
use solvetls.Exec.{ok, err}
use solvetls.Wire.Bytes.{Bytes, pack}
use solvetls.Wire.Reader.Parses.{concat_map, vector}
use solvetls.Wire.Naming.{is_grease, is_grease_lem}
use solvetls.Wire.Reader.{ByteReader, stuck, new_reader, read_uint16, read_all}
use solvetls.Wire.Reader.Bounds.{forward_rules}
use solvetls.Wire.Reader.Ends.{Ends, read_all-Ends, read_uint16-Consumes, read_uint16-Ends}
use solvetls.Tls.ClientHello.{Extension, ClientHello, parse_client_hello}
use solvetls.Tls.ClientHello.RoundTrip.{
  extension_wire, Fits, client_hello_wire, parse_client_hello-wire,
}
use solvetls.Tls.ClientHello.Ends.{parse_client_hello-ne-stuck}
use solvetls.Tls.Extensions.{
  Decoded, limit, decoders, find_decoder, decode_extension, parse_alpn_protocols, extensions_code,
}
use solvetls.Wire.Reader.{Read}
use solvetls.Tls.Extensions.Ends.{decode_extension_whole, decode_extension-ne-stuck}
use solvetls.Tls.Extensions.Alpn.{alpn_wire, alpn_answer, parse_alpn_protocols-wire}
use solvetls.Fingerprints.Ja3.{build_ja3}
use solvetls.Fingerprints.Ja4.{build_ja4}
use solvetls.Fingerprints.Ja4.Order.{Reordered, build_ja4-reordered}
use solvetls.Fingerprints.Grease.{with_extra, build_ja3-grease, build_ja4-grease}
use mathlib.Core.List.{Permᴰ}

abbrev alpn_extension : Extension
alpn_extension = record { type = 16; payload = 0 ∷ 3 ∷ 2 ∷ b'h' ∷ b'2' ∷ [] }

abbrev versions_extension : Extension
versions_extension = record { type = 43; payload = 2 ∷ 3 ∷ 4 ∷ [] }

abbrev grease_extension : Extension
grease_extension = record { type = 0x1A1A; payload = [] }

abbrev random_bytes : Bytes
random_bytes =
    0 ∷ 1 ∷ 2 ∷ 3 ∷ 4 ∷ 5 ∷ 6 ∷ 7 ∷ 8 ∷ 9 ∷ 10 ∷ 11 ∷ 12 ∷ 13 ∷ 14 ∷ 15 ∷ 16 ∷ 17 ∷ 18 ∷ 19 ∷ 20
    ∷ 21 ∷ 22 ∷ 23 ∷ 24 ∷ 25 ∷ 26 ∷ 27 ∷ 28 ∷ 29 ∷ 30 ∷ 31 ∷ []

abbrev small_hello : ClientHello
small_hello = record {
  version = 0x0303;
  random = random_bytes;
  session_id = 9 ∷ [];
  cipher_suites = 0x1302 ∷ 0x1301 ∷ [];
  compression_methods = 0 ∷ [];
  extensions = alpn_extension ∷ versions_extension ∷ [];
}

small_hello-Fits : Fits small_hello
unfolding client_hello_wire concat_map pack extension_wire vector
small_hello-Fits = record {
  version_fits = omega arith;
  random_fits = refl;
  session_fits = omega arith;
  each_suite_fits = (omega arith, (omega arith, tt));
  suites_fit = omega arith;
  compression_fits = omega arith;
  each_extension_fits = (
    record { type_fits = omega arith; payload_fits = omega arith },
    (record { type_fits = omega arith; payload_fits = omega arith }, tt),
  );
  extensions_fit = omega arith;
}

parse_client_hello-wire_example :
    parse_client_hello (client_hello_wire small_hello ++ 7 ∷ []) ≡ ok small_hello
parse_client_hello-wire_example = parse_client_hello-wire small_hello (7 ∷ []) small_hello-Fits

parse_client_hello-ne-stuck_example : parse_client_hello (3 ∷ 3 ∷ 1 ∷ []) ≢ err stuck
parse_client_hello-ne-stuck_example = parse_client_hello-ne-stuck (3 ∷ 3 ∷ 1 ∷ [])

-- A hash that keeps its text.
abbrev no_hash : List ℕ → List ℕ
no_hash t = t

build_ja4-reordered_example :
    build_ja4 no_hash (some small_hello)
    ≡ build_ja4 no_hash (
        some (record small_hello {
          cipher_suites = 0x1301 ∷ 0x1302 ∷ [];
          extensions = versions_extension ∷ alpn_extension ∷ [];
        }))
build_ja4-reordered_example =
    build_ja4-reordered small_hello (0x1301 ∷ 0x1302 ∷ [])
      (versions_extension ∷ alpn_extension ∷ []) (Permᴰ.swap refl refl)
      (Reordered.swap alpn_extension versions_extension [] (omega arith)) no_hash

grease_suite : is_grease 0x0A0A ≡ true
unfolding is_grease
grease_suite = refl

grease_type : is_grease 0x1A1A ≡ true
unfolding is_grease
grease_type = refl

build_ja3-grease_example :
    build_ja3 no_hash (
      some (
        with_extra small_hello
          (0x1302 ∷ [])
          (0x0A0A ∷ 0x1301 ∷ [])
          (alpn_extension ∷ [])
          (grease_extension ∷ versions_extension ∷ [])))
    ≡ build_ja3 no_hash (some small_hello)
build_ja3-grease_example =
    build_ja3-grease small_hello 0x0A0A (0x1302 ∷ []) (0x1301 ∷ []) grease_extension
      (alpn_extension ∷ []) (versions_extension ∷ []) grease_suite grease_type no_hash

build_ja4-grease_example :
    build_ja4 no_hash (
      some (
        with_extra small_hello
          (0x1302 ∷ [])
          (0x0A0A ∷ 0x1301 ∷ [])
          (alpn_extension ∷ [])
          (grease_extension ∷ versions_extension ∷ [])))
    ≡ build_ja4 no_hash (some small_hello)
build_ja4-grease_example =
    build_ja4-grease small_hello 0x0A0A (0x1302 ∷ []) (0x1301 ∷ []) grease_extension
      (alpn_extension ∷ []) (versions_extension ∷ []) grease_suite grease_type no_hash

-- record_size_limit
limit_decoded : decode_extension 28 (0x40 ∷ 1 ∷ []) ≡ some (ok (limit 16385))
unfolding extensions_code
limit_decoded = refl

decode_extension_whole_example :
    (d : Read Decoded) × (r : ByteReader) × (find_decoder 28 decoders ≡ some d)
    × (d (new_reader (0x40 ∷ 1 ∷ [])) ≡ (ok (limit 16385), r))
    × (r.pos ≡ 2)
decode_extension_whole_example =
    decode_extension_whole 28 (0x40 ∷ 1 ∷ []) (limit 16385) limit_decoded

decode_extension-ne-stuck_example : decode_extension 51 (0 ∷ 1 ∷ 7 ∷ []) ≢ some (err stuck)
decode_extension-ne-stuck_example = decode_extension-ne-stuck 51 (0 ∷ 1 ∷ 7 ∷ [])

abbrev two_protocols : List Bytes
two_protocols = (b'h' ∷ b'2' ∷ []) ∷ (b'h' ∷ b'q' ∷ []) ∷ []

parse_alpn_protocols-wire_example :
    parse_alpn_protocols (alpn_wire two_protocols ++ 0 ∷ []) ≡ alpn_answer two_protocols (0 ∷ [])
unfolding concat_map vector pack
parse_alpn_protocols-wire_example =
    parse_alpn_protocols-wire two_protocols (omega arith, (omega arith, tt)) (omega arith) (0 ∷ [])

is_grease_lem_example : is_grease 0x2A2A ≡ (0x2A2A / 256 == 0x2A2A % 256 && 0x2A2A % 16 == 10)
is_grease_lem_example = is_grease_lem 0x2A2A

read_all-Ends_example : Ends (read_all read_uint16)
read_all-Ends_example =
    read_all-Ends read_uint16 (search forward_rules) read_uint16-Consumes read_uint16-Ends
