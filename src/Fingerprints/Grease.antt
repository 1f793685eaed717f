-- ===== src/Fingerprints/Grease.antt =====
-- solvetls/fingerprints.py: JA3 and JA4 of a ClientHello with GREASE and without.
use solvetls.Base.{
  ℕ, ◌≡◌, refl, sym, ap, ◌∙◌, true, false, List, [], ◌∷◌, ◌++◌, some, ◌==◌, ==_iff, Bool-cases, inl,
  inr,
}
use solvetls.Base.Sort.{Text}
use solvetls.Wire.Naming.{is_grease}
use solvetls.Tls.ClientHello.{Extension, ClientHello}
use solvetls.Fingerprints.Hello.{
  server_name_ext, supported_groups_ext, ec_point_formats_ext, signature_algorithms_ext, alpn_ext,
  supported_versions_ext, no_grease, types_of, extension_types, find_extension, extension_data,
  uint16s_of, uint16_vector, bytes_of, protocols_of, supported_groups, supported_versions,
  signature_algorithms, ec_point_formats, alpn_protocols,
}
use solvetls.Fingerprints.Ja3.{ja3_text, build_ja3}
use solvetls.Fingerprints.Ja4.{sorted_ciphers, sorted_extensions, ja4_a, ja4_text, build_ja4}

no_grease-insert :
    (g : ℕ) (xs ys : List ℕ) → is_grease g ≡ true → no_grease (xs ++ g ∷ ys) ≡ no_grease (xs ++ ys)
unfolding no_grease
no_grease-insert g [] ys h = rw h
no_grease-insert g (x ∷ xs) ys h = rw (no_grease-insert g xs ys h)

types_of-append : (es fs : List Extension) → types_of (es ++ fs) ≡ types_of es ++ types_of fs
unfolding types_of
types_of-append [] fs = refl
types_of-append (e ∷ es) fs = ap (λ t. e.type ∷ t) (types_of-append es fs)

no_grease-types :
    (g : Extension) (es fs : List Extension)
    → is_grease g.type ≡ true
    → no_grease (types_of (es ++ g ∷ fs)) ≡ no_grease (types_of (es ++ fs))
unfolding types_of
no_grease-types g es fs h =
    ap no_grease (types_of-append es (g ∷ fs))
    ∙ no_grease-insert g.type (types_of es) (types_of fs) h
    ∙ ap no_grease (sym (types_of-append es fs))

other_type :
    (g : Extension) (t : ℕ) → is_grease g.type ≡ true → is_grease t ≡ false → (g.type == t) ≡ false
other_type g t h k = elim (Bool-cases (g.type == t)) [
  | inr e ↦ e
  | inl e ↦ cc (h, k, ap is_grease ((==_iff g.type t).0 e))
]

find_extension-insert :
    (g : Extension) (es fs : List Extension) (t : ℕ)
    → is_grease g.type ≡ true
    → is_grease t ≡ false
    → find_extension (es ++ g ∷ fs) t ≡ find_extension (es ++ fs) t
unfolding find_extension
find_extension-insert g [] fs t h k = rw (other_type g t h k)
find_extension-insert g (e ∷ es) fs t h k = rw (find_extension-insert g es fs t h k)

-- A ClientHello with a cipher suite and an extension put between its others.
abbrev pub with_extra :
    ClientHello → List ℕ → List ℕ → List Extension → List Extension → ClientHello
with_extra h xs ys es fs = record h { cipher_suites = xs ++ ys; extensions = es ++ fs }

module _ (h : ClientHello) (g : ℕ) (xs ys : List ℕ) (e : Extension) (es fs : List Extension)
    (suite_is_grease : is_grease g ≡ true) (type_is_grease : is_grease e.type ≡ true) where
  abbrev greased : ClientHello
  greased = with_extra h xs (g ∷ ys) es (e ∷ fs)

  abbrev plain : ClientHello
  plain = with_extra h xs ys es fs

  data-insert : (t : ℕ) → is_grease t ≡ false → extension_data greased t ≡ extension_data plain t
  unfolding extension_data
  data-insert t k = find_extension-insert e es fs t type_is_grease k

  same_types : no_grease (extension_types greased) ≡ no_grease (extension_types plain)
  unfolding extension_types
  same_types = no_grease-types e es fs type_is_grease

  same_suites : no_grease greased.cipher_suites ≡ no_grease plain.cipher_suites
  same_suites = no_grease-insert g xs ys suite_is_grease

  same_groups : supported_groups greased ≡ supported_groups plain
  unfolding supported_groups uint16_vector is_grease
  same_groups = ap (uint16s_of 2) (data-insert supported_groups_ext refl)

  same_versions : supported_versions greased ≡ supported_versions plain
  unfolding supported_versions uint16_vector is_grease
  same_versions = ap (uint16s_of 1) (data-insert supported_versions_ext refl)

  same_signatures : signature_algorithms greased ≡ signature_algorithms plain
  unfolding signature_algorithms uint16_vector is_grease
  same_signatures = ap (uint16s_of 2) (data-insert signature_algorithms_ext refl)

  same_formats : ec_point_formats greased ≡ ec_point_formats plain
  unfolding ec_point_formats is_grease
  same_formats = ap bytes_of (data-insert ec_point_formats_ext refl)

  same_protocols : alpn_protocols greased ≡ alpn_protocols plain
  unfolding alpn_protocols is_grease
  same_protocols = ap protocols_of (data-insert alpn_ext refl)

  same_name : extension_data greased server_name_ext ≡ extension_data plain server_name_ext
  unfolding is_grease
  same_name = data-insert server_name_ext refl

  -- A cipher suite and an extension, both of a GREASE value and each put anywhere in its list, do
  -- not change the JA3 text nor its hash, whatever the hash function.
  pub build_ja3-grease :
      (md5 : Text → Text) → build_ja3 md5 (some greased) ≡ build_ja3 md5 (some plain)
  unfolding build_ja3 ja3_text
  build_ja3-grease md5 = rw (same_suites, same_types, same_groups, same_formats)

  -- A cipher suite and an extension, both of a GREASE value and each put anywhere in its list, do
  -- not change JA4, whatever the hash function.
  pub build_ja4-grease :
      (sha256 : Text → Text) → build_ja4 sha256 (some greased) ≡ build_ja4 sha256 (some plain)
  unfolding build_ja4 ja4_text ja4_a sorted_ciphers sorted_extensions
  build_ja4-grease sha256 =
      rw (same_suites, same_types, same_versions, same_name, same_protocols, same_signatures)
