-- ===== src/Tls/Extensions/Alpn.antt =====
-- `parse_alpn_protocols` against the wire form of a protocol list (RFC 7301, 3.1).
use solvetls.Base.{
  ◌<◌, ◌≡◌, refl, ap, ◌∙◌, arith, List, [], ◌∷◌, ◌++◌, length, length-append, All, if◌then◌else◌,
}
use solvetls.Exec.{Result, ok, err, gets, ◌>>=◌, on_new, raise}
use solvetls.Exec.Run.{bind-ok}
use solvetls.Wire.Bytes.{Bytes, pack, length-pack}
use solvetls.Wire.Reader.{
  ReadError, trailing_alpn, ByteReader, new_reader, has_more, read_vector, read_all,
}
use solvetls.Wire.Reader.Parses.{
  Reads, Rest, Rest-new, Rest-advance, vector, concat_map, advance, has_more-Rest,
  has_more-Rest_nil, read_vector1-Parses, read_vector2-Parses, on_new-Parses,
}
use solvetls.Tls.Extensions.{read_alpn_protocols, parse_alpn_protocols}

unfoldable pub alpn_wire : List Bytes → Bytes
alpn_wire ps = vector 2 (concat_map (vector 1) ps)

protocols-Reads :
    (ps : List Bytes) → All (λ p. length p < 256) ps → All (Reads (read_vector 1) (vector 1)) ps
unfolding vector
protocols-Reads [] a = tt
protocols-Reads (p ∷ ps) (h, a) = (
  (
    unfold vector in read_vector1-Parses p h,
    omega (arith, length-append {0} (pack 1 (length p)) p, length-pack 1 (length p)),
  ),
  protocols-Reads ps a,
)

-- What `parse_alpn_protocols` answers, by what follows the list.
abbrev pub alpn_answer : List Bytes → Bytes → Result ReadError (List Bytes)
alpn_answer ps [] = ok ps
alpn_answer ps (b ∷ rest) = err trailing_alpn

module _ (ps : List Bytes) (each : All (λ p. length p < 256) ps)
    (total : length (concat_map (vector 1) ps) < 65536) where
  after_list :
      (r : ByteReader) (rest : Bytes)
      → Rest r rest
      → ((gets has_more >>= λ more.
            if more
            then raise trailing_alpn
            else on_new (new_reader (concat_map (vector 1) ps)) (read_all (read_vector 1)))
          r).0
        ≡ alpn_answer ps rest
  unfolding ◌>>=◌
  after_list r [] h = rw (has_more-Rest_nil r h) (
      ap (λ x. x.0)
        ((on_new-Parses (read_vector 1) (vector 1) ps (protocols-Reads ps each)).at r [] h))
  after_list r (b ∷ rest) h = rw (has_more-Rest r (b ∷ rest) h (omega arith)) refl

  -- The identifiers of a list, each shorter than 256 bytes and all together shorter than 65536 on the
  -- wire, are read back in order; with a byte behind the list the answer is the error for it.
  pub parse_alpn_protocols-wire :
      (rest : Bytes) → parse_alpn_protocols (alpn_wire ps ++ rest) ≡ alpn_answer ps rest
  unfolding parse_alpn_protocols read_alpn_protocols alpn_wire
  parse_alpn_protocols-wire rest =
      let block = concat_map (vector 1) ps in
      let r = new_reader (vector 2 block ++ rest) in
      ap (λ x. x.0)
        (bind-ok (read_vector 2) _ ((read_vector2-Parses block total).at r rest (Rest-new _)))
      ∙ after_list (advance r (length (vector 2 block))) rest
          (Rest-advance r (vector 2 block) rest (Rest-new _))
