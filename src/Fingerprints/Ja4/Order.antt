-- ===== src/Fingerprints/Ja4/Order.antt =====
-- solvetls/fingerprints.py: JA4 of a ClientHello whose lists are put in another order.
use solvetls.Base.{
  ℕ, suc, ◌≡◌, ◌≢◌, refl, ap, ◌∙◌, arith, List, [], ◌∷◌, some, length, if◌then◌else◌,
}
use solvetls.Base.Text.{hex4}
use solvetls.Base.Sort.{Text, insert, sorted, insert_comm, fold-Permᴰ}
use solvetls.Wire.Naming.{is_grease}
use solvetls.Tls.ClientHello.{Extension, ClientHello}
use solvetls.Fingerprints.Hello.{
  server_name_ext, signature_algorithms_ext, alpn_ext, supported_versions_ext, no_grease, types_of,
  extension_types, find_extension, extension_data, uint16s_of, uint16_vector, protocols_of,
  supported_versions, signature_algorithms, alpn_protocols,
}
use solvetls.Fingerprints.Ja4.{
  is_unhashed, hashed_types, sorted_ciphers, sorted_extensions, ja4_a, ja4_text, build_ja4,
}
use mathlib.Core.List.{Permᴰ}

abbrev add_cipher : ℕ → List Text → List Text
add_cipher a x = if is_grease a then x else insert (hex4 a) x

sorted_ciphers-Permᴰ : {l m : List ℕ} → Permᴰ l m → sorted_ciphers l ≡ sorted_ciphers m
unfolding sorted_ciphers no_grease sorted
sorted_ciphers-Permᴰ =
    fold-Permᴰ sorted_ciphers add_cipher (λ a l. ground arith)
      (λ a b x. ground (arith, insert_comm (hex4 a) (hex4 b) x))

-- One list of extensions is another in a new order, in which extensions of the same type keep theirs.
pub data Reordered : List Extension → List Extension → Type 0 where
  nil : Reordered [] []
  cons : (e : Extension) {es fs : List Extension} → Reordered es fs → Reordered (e ∷ es) (e ∷ fs)
  swap :
      (e f : Extension) (es : List Extension)
      → e.type ≢ f.type
      → Reordered (e ∷ f ∷ es) (f ∷ e ∷ es)
  trans : {es fs gs : List Extension} → Reordered es fs → Reordered fs gs → Reordered es gs

types-Permᴰ : {es fs : List Extension} → Reordered es fs → Permᴰ (types_of es) (types_of fs)
unfolding types_of
types-Permᴰ nil = Permᴰ.nil
types-Permᴰ (cons e r) = Permᴰ.cons refl (types-Permᴰ r)
types-Permᴰ (swap e f es d) = Permᴰ.swap refl refl
types-Permᴰ (trans r q) = Permᴰ.trans (types-Permᴰ r) (types-Permᴰ q)

find_extension-Reordered :
    (t : ℕ) {es fs : List Extension} → Reordered es fs → find_extension es t ≡ find_extension fs t
unfolding find_extension
find_extension-Reordered t nil = refl
find_extension-Reordered t (cons e r) = rw (find_extension-Reordered t r)
find_extension-Reordered t (swap e f es d) = ground arith
find_extension-Reordered t (trans r q) = find_extension-Reordered t r ∙ find_extension-Reordered t q

abbrev add_type : ℕ → List Text → List Text
add_type a x = if is_grease a then x else (if is_unhashed a then x else insert (hex4 a) x)

sorted_extensions-Permᴰ : {l m : List ℕ} → Permᴰ l m → sorted_extensions l ≡ sorted_extensions m
unfolding sorted_extensions no_grease hashed_types sorted
sorted_extensions-Permᴰ =
    fold-Permᴰ sorted_extensions add_type (λ a l. ground arith)
      (λ a b x. ground (arith, insert_comm (hex4 a) (hex4 b) x))

abbrev count_type : ℕ → ℕ → ℕ
count_type a n = if is_grease a then n else suc n

count-Permᴰ : {l m : List ℕ} → Permᴰ l m → length (no_grease l) ≡ length (no_grease m)
unfolding no_grease
count-Permᴰ =
    fold-Permᴰ (λ l. length (no_grease l)) count_type (λ a l. ground arith) (λ a b x. ground arith)

module _ (h : ClientHello) (suites : List ℕ) (exts : List Extension)
    (suites_permuted : Permᴰ h.cipher_suites suites) (reordered : Reordered h.extensions exts) where
  abbrev shuffled : ClientHello
  shuffled = record h { cipher_suites = suites; extensions = exts }

  same_data : (t : ℕ) → extension_data h t ≡ extension_data shuffled t
  unfolding extension_data
  same_data t = find_extension-Reordered t reordered

  same_ciphers : sorted_ciphers h.cipher_suites ≡ sorted_ciphers suites
  same_ciphers = sorted_ciphers-Permᴰ suites_permuted

  same_hashed : sorted_extensions (extension_types h) ≡ sorted_extensions (extension_types shuffled)
  unfolding extension_types
  same_hashed = sorted_extensions-Permᴰ (types-Permᴰ reordered)

  same_count :
      length (no_grease (extension_types h)) ≡ length (no_grease (extension_types shuffled))
  unfolding extension_types
  same_count = count-Permᴰ (types-Permᴰ reordered)

  same_versions : supported_versions h ≡ supported_versions shuffled
  unfolding supported_versions uint16_vector
  same_versions = ap (uint16s_of 1) (same_data supported_versions_ext)

  same_signatures : signature_algorithms h ≡ signature_algorithms shuffled
  unfolding signature_algorithms uint16_vector
  same_signatures = ap (uint16s_of 2) (same_data signature_algorithms_ext)

  same_protocols : alpn_protocols h ≡ alpn_protocols shuffled
  unfolding alpn_protocols
  same_protocols = ap protocols_of (same_data alpn_ext)

  -- JA4 stays the same, whatever the hash function, when the cipher suites are permuted and the
  -- extensions are reordered so that those of one type keep their order.
  pub build_ja4-reordered :
      (sha256 : Text → Text) → build_ja4 sha256 (some h) ≡ build_ja4 sha256 (some shuffled)
  unfolding build_ja4 ja4_text ja4_a
  build_ja4-reordered sha256 = rw (
    same_data server_name_ext,
    same_ciphers,
    same_hashed,
    same_count,
    same_versions,
    same_signatures,
    same_protocols,
  )
