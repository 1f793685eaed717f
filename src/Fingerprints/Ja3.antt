-- ===== src/Fingerprints/Ja3.antt =====
-- solvetls/fingerprints.py: `build_ja3`.
use solvetls.Base.{[], ◌∷◌, Option, none, some}
use solvetls.Base.Text.{codes, str, join}
use solvetls.Base.Sort.{Text}
use solvetls.Tls.ClientHello.{ClientHello}
use solvetls.Fingerprints.Hello.{
  no_grease, dashed, extension_types, supported_groups, ec_point_formats,
}

pub record Ja3 : Type 0 where
  pub ja3 : Option Text
  pub ja3_hash : Option Text

unfoldable pub ja3_text : ClientHello → Text
ja3_text h = join (codes ",") (
    str h.version
    ∷ dashed (no_grease h.cipher_suites)
    ∷ dashed (no_grease (extension_types h))
    ∷ dashed (no_grease (supported_groups h))
    ∷ dashed (ec_point_formats h)
    ∷ [])

-- `md5` is `hashlib.md5(value.encode()).hexdigest()`.
unfoldable pub build_ja3 : (Text → Text) → Option ClientHello → Ja3
build_ja3 md5 none = record { ja3 = none; ja3_hash = none }
build_ja3 md5 (some h) = record { ja3 = some (ja3_text h); ja3_hash = some (md5 (ja3_text h)) }
