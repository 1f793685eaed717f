-- ===== src/Tls/Extensions.antt =====
-- solvetls/tls/extensions.py: the decoders of extension payloads, and `decode_extension`.
pub mod Ends
pub mod Alpn
use solvetls.Base.{
  ℕ, ◌-◌, Bool, true, false, not, List, [], ◌∷◌, ◌++◌, map, any, length, Option, none, some, String,
  ◌==◌, if◌then◌else◌,
}
use solvetls.Base.Text.{hex2}
use solvetls.Exec.{Result, ok, err, pure, raise, gets, ◌>>=◌, on_new}
use solvetls.Wire.Bytes.{Bytes}
use solvetls.Wire.Naming.{EnumType, Described, describe}
use solvetls.Wire.Reader.{
  ReadError, insufficient_data, invalid_length_bytes, trailing_bytes, trailing_alpn,
  record_size_limit, Read, new_reader, has_more, read_remaining, read_uint8, read_uint16,
  read_vector, read_all, reader_code,
}
use solvetls.Tls.Enums.{
  named_group, tls_version, server_name_type, ec_point_format, psk_key_exchange_mode,
  certificate_compression_algorithm,
}
use solvetls.Tls.Enums.Suites.{signature_scheme}

pub record ServerName : Type 0 where
  pub type : Described
  pub host : Bytes

pub record KeyShare : Type 0 where
  pub group : Described
  pub key_exchange_length : ℕ
  pub key_exchange : List ℕ

-- The dicts that the decoders return. A host stays the bytes from which Python makes its text by
-- `decode("utf-8", "replace")`, and an ALPN identifier those which it maps to Latin-1.
pub data Decoded : Type 0 where
  server_names : List ServerName → Decoded
  groups : List Described → Decoded
  formats : List Described → Decoded
  algorithms : List Described → Decoded
  protocols : List Bytes → Decoded
  versions : List Described → Decoded
  modes : List Described → Decoded
  shares : List KeyShare → Decoded
  limit : ℕ → Decoded
  padding : ℕ → Bool → Decoded
  present : ℕ → Decoded

-- bytes.hex()
unfoldable pub hex : Bytes → List ℕ
hex [] = []
hex (b ∷ bs) = hex2 b ++ hex bs

unfoldable pub uint16_list : Bytes → EnumType → Read (List Described)
uint16_list xs enum_type =
    on_new (new_reader xs) (read_all (do v ← read_uint16; pure (describe v enum_type)))

unfoldable pub read_server_name : Read ServerName
read_server_name = do
  name_type ← read_uint8
  host ← read_vector 2
  pure (record { type = describe name_type server_name_type; host = host })

unfoldable pub decode_server_name : Read Decoded
decode_server_name = do
  block ← read_vector 2
  names ← on_new (new_reader block) (read_all read_server_name)
  pure (server_names names)

unfoldable pub decode_supported_groups : Read Decoded
decode_supported_groups = do
  block ← read_vector 2
  vs ← uint16_list block named_group
  pure (groups vs)

unfoldable pub decode_ec_point_formats : Read Decoded
decode_ec_point_formats = do
  block ← read_vector 1
  pure (formats (map (λ v. describe v ec_point_format) block))

unfoldable pub decode_signature_algorithms : Read Decoded
decode_signature_algorithms = do
  block ← read_vector 2
  vs ← uint16_list block signature_scheme
  pure (algorithms vs)

-- The body of `parse_alpn_protocols`, over the reader that it makes of its argument.
unfoldable pub read_alpn_protocols : Read (List Bytes)
read_alpn_protocols = do
  block ← read_vector 2
  more ← gets has_more
  if more then raise trailing_alpn else on_new (new_reader block) (read_all (read_vector 1))

unfoldable pub parse_alpn_protocols : Bytes → Result ReadError (List Bytes)
parse_alpn_protocols xs = (read_alpn_protocols (new_reader xs)).0

unfoldable pub decode_alpn : Read Decoded
decode_alpn = do
  payload ← read_remaining
  ps ← on_new (new_reader payload) read_alpn_protocols
  pure (protocols ps)

unfoldable pub decode_supported_versions : Read Decoded
decode_supported_versions = do
  block ← read_vector 1
  vs ← uint16_list block tls_version
  pure (versions vs)

unfoldable pub decode_psk_key_exchange_modes : Read Decoded
decode_psk_key_exchange_modes = do
  block ← read_vector 1
  pure (modes (map (λ v. describe v psk_key_exchange_mode) block))

unfoldable pub read_key_share : Read KeyShare
read_key_share = do
  group ← read_uint16
  key_exchange ← read_vector 2
  pure (record {
    group = describe group named_group;
    key_exchange_length = length key_exchange;
    key_exchange = hex key_exchange;
  })

unfoldable pub decode_key_share : Read Decoded
decode_key_share = do
  block ← read_vector 2
  found ← on_new (new_reader block) (read_all read_key_share)
  pure (shares found)

unfoldable pub decode_record_size_limit : Read Decoded
decode_record_size_limit = do
  value ← read_uint16
  more ← gets has_more
  if more then raise record_size_limit else pure (limit value)

unfoldable pub decode_compress_certificate : Read Decoded
decode_compress_certificate = do
  block ← read_vector 1
  vs ← uint16_list block certificate_compression_algorithm
  pure (algorithms vs)

unfoldable pub decode_padding : Read Decoded
decode_padding = do
  bytes ← read_remaining
  pure (padding (length bytes) (not (any (λ b. not (b == 0)) bytes)))

unfoldable pub decode_empty : Read Decoded
decode_empty = do bytes ← read_remaining; pure (present (length bytes))

-- `_DECODERS`
unfoldable pub decoders : List (ℕ × Read Decoded)
decoders =
    (0, decode_server_name)
    ∷ (10, decode_supported_groups)
    ∷ (11, decode_ec_point_formats)
    ∷ (13, decode_signature_algorithms)
    ∷ (50, decode_signature_algorithms)
    ∷ (16, decode_alpn)
    ∷ (21, decode_padding)
    ∷ (22, decode_empty)
    ∷ (23, decode_empty)
    ∷ (27, decode_compress_certificate)
    ∷ (28, decode_record_size_limit)
    ∷ (43, decode_supported_versions)
    ∷ (45, decode_psk_key_exchange_modes)
    ∷ (51, decode_key_share)
    ∷ []

-- `_DECODERS.get(ext_type)`
unfoldable pub find_decoder : ℕ → List (ℕ × Read Decoded) → Option (Read Decoded)
find_decoder t [] = none
find_decoder t ((u, d) ∷ ds) = if t == u then some d else find_decoder t ds

-- The `try` block: the decoder, and the check that it has read the whole payload.
unfoldable pub run_decoder : Read Decoded → Read Decoded
run_decoder decoder = do
  decoded ← decoder
  more ← gets has_more
  if more then raise trailing_bytes else pure decoded

-- None for a type that has no decoder. `err e` is the dict `{"error": str(e)}` of the `except` clause.
unfoldable pub decode_with : Option (Read Decoded) → Bytes → Option (Result ReadError Decoded)
decode_with none payload = none
decode_with (some decoder) payload = some (run_decoder decoder (new_reader payload)).0

unfoldable pub decode_extension : ℕ → Bytes → Option (Result ReadError Decoded)
decode_extension ext_type payload = decode_with (find_decoder ext_type decoders) payload

-- Tests run the decoders by unfolding this name.
unfoldable pub extensions_code : Unit {0}
unfolding reader_code hex uint16_list read_server_name decode_server_name decode_supported_groups
    decode_ec_point_formats decode_signature_algorithms read_alpn_protocols parse_alpn_protocols
    decode_alpn decode_supported_versions decode_psk_key_exchange_modes read_key_share
    decode_key_share decode_record_size_limit decode_compress_certificate decode_padding
    decode_empty decoders find_decoder run_decoder decode_with decode_extension on_new describe
extensions_code = tt
