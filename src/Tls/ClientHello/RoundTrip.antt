-- ===== src/Tls/ClientHello/RoundTrip.antt =====
-- The reader of a ClientHello against a description of its wire format (RFC 8446, 4.1.2).
use solvetls.Base.{
  ℕ, ◌<◌, ◌≡◌, refl, ap, ◌∙◌, arith, List, [], ◌∷◌, ◌++◌, length, All, length-append,
}
use solvetls.Exec.{ok, gets, on_new}
use solvetls.Exec.Run.{bind-ok}
use solvetls.Wire.Bytes.{Bytes, pack, length-pack}
use solvetls.Wire.Reader.{new_reader, has_more, read_uint16, read_all}
use solvetls.Wire.Reader.Parses.{
  Parses, Reads, vector, concat_map, read-Parses, pure-Parses, bind-Parses, map-Parses, Rest-new,
  read_uint16-Parses, read_vector1-Parses, read_vector2-Parses, on_new-Parses, has_more-Rest,
}
use solvetls.Tls.ClientHello.{
  Extension, ClientHello, read_extension, read_extensions, parse, parse_client_hello,
}

unfoldable pub extension_wire : Extension → Bytes
extension_wire e = pack 2 e.type ++ vector 2 e.payload

unfoldable pub client_hello_wire : ClientHello → Bytes
client_hello_wire h =
    pack 2 h.version
    ++ (h.random
        ++ (vector 1 h.session_id
            ++ (vector 2 (concat_map (pack 2) h.cipher_suites)
                ++ (vector 1 h.compression_methods
                    ++ vector 2 (concat_map extension_wire h.extensions)))))

pub record FitsExtension (e : Extension) : Type 0 where
  pub type_fits : e.type < 65536
  pub payload_fits : length e.payload < 65536

-- Every field fits its place on the wire.
pub record Fits (h : ClientHello) : Type 0 where
  pub version_fits : h.version < 65536
  pub random_fits : length h.random ≡ 32
  pub session_fits : length h.session_id < 256
  pub each_suite_fits : All (λ s. s < 65536) h.cipher_suites
  pub suites_fit : length (concat_map (pack 2) h.cipher_suites) < 65536
  pub compression_fits : length h.compression_methods < 256
  pub each_extension_fits : All FitsExtension h.extensions
  pub extensions_fit : length (concat_map extension_wire h.extensions) < 65536

read_extension-Parses :
    (e : Extension) → FitsExtension e → Parses read_extension (extension_wire e) e
unfolding read_extension extension_wire
read_extension-Parses e f =
    bind-Parses _ (read_uint16-Parses e.type f.type_fits)
      (map-Parses _ (read_vector2-Parses e.payload f.payload_fits) (pure-Parses e))

extensions-Reads :
    (es : List Extension) → All FitsExtension es → All (Reads read_extension extension_wire) es
unfolding extension_wire vector
extensions-Reads [] f = tt
extensions-Reads (e ∷ es) (f, fs) = (
  (
    unfold extension_wire in read_extension-Parses e f,
    omega (
      arith,
      length-append {0} (pack 2 e.type) (pack 2 (length e.payload) ++ e.payload),
      length-pack 2 e.type,
    ),
  ),
  extensions-Reads es fs,
)

suites-Reads : (ss : List ℕ) → All (λ s. s < 65536) ss → All (Reads read_uint16 (pack 2)) ss
suites-Reads [] f = tt
suites-Reads (s ∷ ss) (f, fs) =
    ((read_uint16-Parses s f, omega (arith, length-pack 2 s)), suites-Reads ss fs)

length-vector-pos : (v : Bytes) → 0 < length (vector 2 v)
unfolding vector
length-vector-pos v =
    omega (arith, length-append {0} (pack 2 (length v)) v, length-pack 2 (length v))

length-prefix-pos : (xs ys : Bytes) → 0 < length xs → 0 < length (xs ++ ys)
length-prefix-pos xs ys h = omega (arith, length-append {0} xs ys)

-- A block of extensions that is there, even an empty one, is read whole.
read_extensions-Parses :
    (es : List Extension)
    → All FitsExtension es
    → length (concat_map extension_wire es) < 65536
    → Parses read_extensions (vector 2 (concat_map extension_wire es)) es
unfolding read_extensions
read_extensions-Parses es f n = record {
  at = λ r ys h.
      let block = vector 2 (concat_map extension_wire es) in
      let more =
        has_more-Rest r (block ++ ys) h (length-prefix-pos block ys (length-vector-pos _)) in
      let body =
        map-Parses (λ b. on_new (new_reader b) (read_all read_extension))
          (read_vector2-Parses (concat_map extension_wire es) n)
          (on_new-Parses read_extension extension_wire es (extensions-Reads es f)) in
      bind-ok (gets has_more) _ refl ∙ rw more (body.at r ys h);
}

client_hello-Parses : (h : ClientHello) → Fits h → Parses parse (client_hello_wire h) h
unfolding parse client_hello_wire
client_hello-Parses h f = bind-Parses _ (read_uint16-Parses h.version f.version_fits) (
    bind-Parses _ (rw f.random_fits at (read-Parses h.random)) (
      bind-Parses _ (read_vector1-Parses h.session_id f.session_fits) (
        bind-Parses _ (read_vector2-Parses (concat_map (pack 2) h.cipher_suites) f.suites_fit) (
          bind-Parses _
            (on_new-Parses read_uint16 (pack 2) h.cipher_suites
              (suites-Reads h.cipher_suites f.each_suite_fits))
            (bind-Parses _ (read_vector1-Parses h.compression_methods f.compression_fits) (
              map-Parses _
                (read_extensions-Parses h.extensions f.each_extension_fits f.extensions_fit)
                (pure-Parses h)))))))

-- A ClientHello whose fields fit the wire is read back from its wire form, whatever bytes follow it.
pub parse_client_hello-wire :
    (h : ClientHello) (rest : Bytes)
    → Fits h
    → parse_client_hello (client_hello_wire h ++ rest) ≡ ok h
unfolding parse_client_hello
parse_client_hello-wire h rest f =
    ap (λ p. p.0) ((client_hello-Parses h f).at (new_reader _) rest (Rest-new _))
