-- ===== src/Fingerprints/Ja4.antt =====
-- solvetls/fingerprints.py: `build_ja4`.
pub mod Order
use solvetls.Base.{
  ℕ, zero, suc, ◌/◌, ◌%◌, min, max, Bool, true, false, not, ◌&&◌, ◌||◌, List, [], ◌∷◌, ◌++◌, map,
  Option, none, some, length, take, leb, ◌==◌, if◌then◌else◌,
}
use solvetls.Base.Text.{codes, digit, hex4, join}
use solvetls.Base.Sort.{Text, sorted}
use solvetls.Wire.Bytes.{Bytes, unpack}
use solvetls.Wire.Naming.{is_grease}
use solvetls.Tls.ClientHello.{ClientHello}
use solvetls.Tls.Extensions.{hex}
use solvetls.Fingerprints.Hello.{
  server_name_ext, alpn_ext, no_grease, extension_types, extension_data, supported_versions,
  signature_algorithms, alpn_protocols,
}

abbrev pub ja4_empty_hash : Text
ja4_empty_hash = codes "000000000000"

abbrev pub ja4_hash_length : ℕ
ja4_hash_length = 12

-- JA4_VERSIONS.get(version, "00")
unfoldable pub ja4_version : ℕ → Text
ja4_version v =
    if v == 0x0304
    then codes "13"
    else if v == 0x0303
    then codes "12"
    else if v == 0x0302
    then codes "11"
    else if v == 0x0301
    then codes "10"
    else if v == 0x0300
    then codes "s3"
    else if v == 0x0002
    then codes "s2"
    else codes "00"

unfoldable pub ja4_alphanumeric : ℕ → Bool
ja4_alphanumeric b =
    (leb 0x30 b && leb b 0x39) || (leb 0x41 b && leb b 0x5A) || (leb 0x61 b && leb b 0x7A)

-- len(protocol) != 2 or int.from_bytes(protocol, "big") not in GREASE_VALUES
abbrev pub is_real_protocol : Bytes → Bool
is_real_protocol p = not (length p == 2) || not (is_grease (unpack p))

unfoldable pub real_protocols : List Bytes → List Bytes
real_protocols [] = []
real_protocols (p ∷ ps) = if is_real_protocol p then p ∷ real_protocols ps else real_protocols ps

-- The last item of a list that begins with `x`.
abbrev pub last_from : ℕ → List ℕ → ℕ
last_from x [] = x
last_from x (y ∷ ys) = last_from y ys

-- The first and the last of a text; a text of one is both.
abbrev pub ends_of : List ℕ → Text
ends_of [] = []
ends_of (x ∷ xs) = x ∷ last_from x xs ∷ []

unfoldable pub ja4_alpn_of : List Bytes → Text
ja4_alpn_of [] = codes "00"
ja4_alpn_of ([] ∷ ps) = codes "00"
ja4_alpn_of ((b ∷ bs) ∷ ps) =
    if not (ja4_alphanumeric b && ja4_alphanumeric (last_from b bs))
    then ends_of (hex (b ∷ bs))
    else ends_of (b ∷ bs)

unfoldable pub ja4_alpn : List Bytes → Text
ja4_alpn protocols = ja4_alpn_of (real_protocols protocols)

-- max(versions) if versions else client_hello.version
unfoldable pub highest : ℕ → List ℕ → ℕ
highest default [] = default
highest default (v ∷ []) = v
highest default (v ∷ w ∷ vs) = max v (highest default (w ∷ vs))

-- f"{min(n, 99):02d}"
unfoldable pub two_digits : ℕ → Text
two_digits n = digit (min n 99 / 10) ∷ digit (min n 99 % 10) ∷ []

unfoldable pub sorted_ciphers : List ℕ → List Text
sorted_ciphers suites = sorted (map hex4 (no_grease suites))

-- value in JA4_UNHASHED_EXTENSIONS
abbrev pub is_unhashed : ℕ → Bool
is_unhashed v = v == server_name_ext || v == alpn_ext

unfoldable pub hashed_types : List ℕ → List ℕ
hashed_types [] = []
hashed_types (v ∷ vs) = if is_unhashed v then hashed_types vs else v ∷ hashed_types vs

unfoldable pub sorted_extensions : List ℕ → List Text
sorted_extensions types = sorted (map hex4 (hashed_types (no_grease types)))

abbrev pub present_mark : Option Bytes → Text
present_mark none = codes "i"
present_mark (some xs) = codes "d"

unfoldable pub ja4_a : ClientHello → Text
ja4_a h =
    codes "t"
    ++ (ja4_version (highest h.version (no_grease (supported_versions h)))
        ++ (present_mark (extension_data h server_name_ext)
            ++ (two_digits (length (sorted_ciphers h.cipher_suites))
                ++ (two_digits (length (no_grease (extension_types h)))
                    ++ ja4_alpn (alpn_protocols h)))))

-- `sha256` is `hashlib.sha256(value.encode()).hexdigest()`.
module _ (sha256 : Text → Text) where
  unfoldable pub truncated_sha256 : Text → Text
  truncated_sha256 t = take ja4_hash_length (sha256 t)

  unfoldable pub ja4_b : List Text → Text
  ja4_b [] = ja4_empty_hash
  ja4_b (c ∷ cs) = truncated_sha256 (join (codes ",") (c ∷ cs))

  -- The signature algorithms follow the extensions, where there are any, in their original order.
  abbrev pub with_signatures : Text → List Text → Text
  with_signatures tail [] = tail
  with_signatures tail (s ∷ ss) = tail ++ (codes "_" ++ join (codes ",") (s ∷ ss))

  unfoldable pub ja4_c : List Text → List Text → Text
  ja4_c [] signatures = ja4_empty_hash
  ja4_c (e ∷ es) signatures =
      truncated_sha256 (with_signatures (join (codes ",") (e ∷ es)) signatures)

  unfoldable pub ja4_text : ClientHello → Text
  ja4_text h =
      ja4_a h
      ++ (codes "_"
          ++ (ja4_b (sorted_ciphers h.cipher_suites)
              ++ (codes "_"
                  ++ ja4_c (sorted_extensions (extension_types h))
                      (map hex4 (no_grease (signature_algorithms h))))))

  unfoldable pub build_ja4 : Option ClientHello → Option Text
  build_ja4 none = none
  build_ja4 (some h) = some (ja4_text h)
