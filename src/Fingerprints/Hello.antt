-- ===== src/Fingerprints/Hello.antt =====
-- solvetls/fingerprints.py: the parts of a ClientHello that the fingerprints read.
use solvetls.Base.{ℕ, List, [], ◌∷◌, map, Option, none, some, ◌==◌, if◌then◌else◌}
use solvetls.Base.Text.{codes, str, join}
use solvetls.Base.Sort.{Text}
use solvetls.Exec.{Result, ok, err, ◌>>=◌, on_new}
use solvetls.Wire.Bytes.{Bytes}
use solvetls.Wire.Naming.{is_grease}
use solvetls.Wire.Reader.{ReadError, Read, new_reader, read_uint16, read_vector, read_all}
use solvetls.Tls.ClientHello.{Extension, ClientHello}
use solvetls.Tls.Extensions.{parse_alpn_protocols}

-- ExtensionType
abbrev pub server_name_ext : ℕ
server_name_ext = 0

abbrev pub supported_groups_ext : ℕ
supported_groups_ext = 10

abbrev pub ec_point_formats_ext : ℕ
ec_point_formats_ext = 11

abbrev pub signature_algorithms_ext : ℕ
signature_algorithms_ext = 13

abbrev pub alpn_ext : ℕ
alpn_ext = 16

abbrev pub supported_versions_ext : ℕ
supported_versions_ext = 43

unfoldable pub no_grease : List ℕ → List ℕ
no_grease [] = []
no_grease (v ∷ vs) = if is_grease v then no_grease vs else v ∷ no_grease vs

unfoldable pub dashed : List ℕ → Text
dashed vs = join (codes "-") (map str vs)

-- [extension.type for extension in extensions]
unfoldable pub types_of : List Extension → List ℕ
types_of [] = []
types_of (e ∷ es) = e.type ∷ types_of es

unfoldable pub extension_types : ClientHello → List ℕ
extension_types h = types_of h.extensions

-- The payload of the first extension of the type.
unfoldable pub find_extension : List Extension → ℕ → Option Bytes
find_extension [] t = none
find_extension (e ∷ es) t = if e.type == t then some e.payload else find_extension es t

unfoldable pub extension_data : ClientHello → ℕ → Option Bytes
extension_data h t = find_extension h.extensions t

-- try: ...  except ValueError: return []
abbrev pub or_empty : {A : Type 0} → Result ReadError (List A) → List A
or_empty (ok vs) = vs
or_empty (err e) = []

-- The values of a vector of 16-bit numbers; `if data is None: return []`.
unfoldable pub read_uint16s : ℕ → Read (List ℕ)
read_uint16s length_bytes = do
  block ← read_vector length_bytes
  on_new (new_reader block) (read_all read_uint16)

unfoldable pub uint16s_of : ℕ → Option Bytes → List ℕ
uint16s_of length_bytes none = []
uint16s_of length_bytes (some xs) = or_empty (read_uint16s length_bytes (new_reader xs)).0

unfoldable pub uint16_vector : ClientHello → ℕ → ℕ → List ℕ
uint16_vector h t length_bytes = uint16s_of length_bytes (extension_data h t)

unfoldable pub supported_groups : ClientHello → List ℕ
supported_groups h = uint16_vector h supported_groups_ext 2

unfoldable pub supported_versions : ClientHello → List ℕ
supported_versions h = uint16_vector h supported_versions_ext 1

unfoldable pub signature_algorithms : ClientHello → List ℕ
signature_algorithms h = uint16_vector h signature_algorithms_ext 2

unfoldable pub bytes_of : Option Bytes → List ℕ
bytes_of none = []
bytes_of (some xs) = or_empty (read_vector 1 (new_reader xs)).0

unfoldable pub ec_point_formats : ClientHello → List ℕ
ec_point_formats h = bytes_of (extension_data h ec_point_formats_ext)

unfoldable pub protocols_of : Option Bytes → List Bytes
protocols_of none = []
protocols_of (some xs) = or_empty (parse_alpn_protocols xs)

unfoldable pub alpn_protocols : ClientHello → List Bytes
alpn_protocols h = protocols_of (extension_data h alpn_ext)
