-- ===== src/Tls/Extensions/Ends.antt =====
-- `decode_extension` on any payload: its loops, and the end of what it reads.
use solvetls.Base.{
  ℕ, ◌≡◌, ◌≢◌, ap, subst, ap₂, ◌∙◌, arith, false, List, [], ◌∷◌, length, All, some, ltb_false→le,
  ◌==◌, if◌then◌else◌, Bool-cases, Option-cases, inl, inr,
}
use solvetls.Exec.{Result, ok, err, pure, raise, gets, ◌>>=◌}
use solvetls.Exec.Steps.{Steps}
use solvetls.Exec.Run.{bind_inv}
use solvetls.Wire.Bytes.{Bytes}
use solvetls.Wire.Naming.{EnumType, describe}
use solvetls.Wire.Reader.{
  ReadError, stuck, trailing_bytes, trailing_alpn, record_size_limit, ByteReader, Read, new_reader,
  has_more, read_uint8, read_uint16, read_vector, read_all,
}
use solvetls.Wire.Reader.Bounds.{Forward, forward_rules}
use solvetls.Wire.Reader.Ends.{
  Ends, ends_rules, bind-Ends, raise-Ends, read_uint8-Ends, read_uint16-Ends, read_remaining-Ends,
  read_vector-Ends, read_uint8-Consumes, read_uint16-Consumes, read_vector-Consumes, bind-Consumes,
  read_all-Ends,
}
use solvetls.Tls.Extensions.{
  Decoded, uint16_list, read_server_name, decode_server_name, decode_supported_groups,
  decode_ec_point_formats, decode_signature_algorithms, read_alpn_protocols, decode_alpn,
  decode_supported_versions, decode_psk_key_exchange_modes, read_key_share, decode_key_share,
  decode_record_size_limit, decode_compress_certificate, decode_padding, decode_empty, decoders,
  find_decoder, run_decoder, decode_with, decode_extension,
}

trailing_alpn-Ends : {A : Type 0} → Ends (raise {A = A} trailing_alpn)
trailing_alpn-Ends = raise-Ends trailing_alpn (λ p. cc p)

record_size_limit-Ends : {A : Type 0} → Ends (raise {A = A} record_size_limit)
record_size_limit-Ends = raise-Ends record_size_limit (λ p. cc p)

trailing_bytes-Ends : {A : Type 0} → Ends (raise {A = A} trailing_bytes)
trailing_bytes-Ends = raise-Ends trailing_bytes (λ p. cc p)

ruleset reads = (
  ends_rules, trailing_alpn-Ends, record_size_limit-Ends, trailing_bytes-Ends, read_uint8-Ends,
  read_uint16-Ends, read_remaining-Ends, read_vector-Ends,
)

uint16_list-Ends : (xs : Bytes) (e : EnumType) → Ends (uint16_list xs e)
unfolding uint16_list
uint16_list-Ends xs e = search (
  reads,
  read_all-Ends (read_uint16 >>= λ v. pure (describe v e)) (search forward_rules)
      (bind-Consumes read_uint16 _ read_uint16-Consumes (λ v. search forward_rules)) (search reads),
)

names-Ends : Ends (read_all read_server_name)
unfolding read_server_name
names-Ends =
    read_all-Ends _ (search forward_rules)
      (bind-Consumes read_uint8 _ read_uint8-Consumes (λ v. search forward_rules)) (search reads)

key_shares-Ends : Ends (read_all read_key_share)
unfolding read_key_share
key_shares-Ends =
    read_all-Ends _ (search forward_rules)
      (bind-Consumes read_uint16 _ read_uint16-Consumes (λ v. search forward_rules)) (search reads)

vectors-Ends : Ends (read_all (read_vector 1))
vectors-Ends = read_all-Ends _ (search forward_rules) (read_vector-Consumes 1) (read_vector-Ends 1)

uint16_list-Forward : (xs : Bytes) (e : EnumType) → Steps Forward (uint16_list xs e)
unfolding uint16_list
uint16_list-Forward xs e = search forward_rules

read_alpn_protocols-Ends : Ends read_alpn_protocols
unfolding read_alpn_protocols
read_alpn_protocols-Ends = search (reads, vectors-Ends) depth 9

ruleset decoder_rules = (
  reads, uint16_list-Ends, names-Ends, key_shares-Ends, read_alpn_protocols-Ends, forward_rules,
  uint16_list-Forward,
)

-- A decoder ends, and keeps its reader inside the payload.
record Behaves (d : Read Decoded) : Type 0 where
  ends : Ends d
  forward : Steps Forward d

decode_server_name-Behaves : Behaves decode_server_name
unfolding decode_server_name
decode_server_name-Behaves = record { ends = search decoder_rules; forward = search decoder_rules }

decode_supported_groups-Behaves : Behaves decode_supported_groups
unfolding decode_supported_groups
decode_supported_groups-Behaves = record {
  ends = search decoder_rules;
  forward = search decoder_rules;
}

decode_ec_point_formats-Behaves : Behaves decode_ec_point_formats
unfolding decode_ec_point_formats
decode_ec_point_formats-Behaves = record {
  ends = search decoder_rules;
  forward = search decoder_rules;
}

decode_signature_algorithms-Behaves : Behaves decode_signature_algorithms
unfolding decode_signature_algorithms
decode_signature_algorithms-Behaves = record {
  ends = search decoder_rules;
  forward = search decoder_rules;
}

decode_alpn-Behaves : Behaves decode_alpn
unfolding decode_alpn
decode_alpn-Behaves = record { ends = search decoder_rules; forward = search decoder_rules }

decode_padding-Behaves : Behaves decode_padding
unfolding decode_padding
decode_padding-Behaves = record { ends = search decoder_rules; forward = search decoder_rules }

decode_empty-Behaves : Behaves decode_empty
unfolding decode_empty
decode_empty-Behaves = record { ends = search decoder_rules; forward = search decoder_rules }

decode_compress_certificate-Behaves : Behaves decode_compress_certificate
unfolding decode_compress_certificate
decode_compress_certificate-Behaves = record {
  ends = search decoder_rules;
  forward = search decoder_rules;
}

decode_record_size_limit-Behaves : Behaves decode_record_size_limit
unfolding decode_record_size_limit
decode_record_size_limit-Behaves = record {
  ends = search decoder_rules;
  forward = search decoder_rules;
}

decode_supported_versions-Behaves : Behaves decode_supported_versions
unfolding decode_supported_versions
decode_supported_versions-Behaves = record {
  ends = search decoder_rules;
  forward = search decoder_rules;
}

decode_psk_key_exchange_modes-Behaves : Behaves decode_psk_key_exchange_modes
unfolding decode_psk_key_exchange_modes
decode_psk_key_exchange_modes-Behaves = record {
  ends = search decoder_rules;
  forward = search decoder_rules;
}

decode_key_share-Behaves : Behaves decode_key_share
unfolding decode_key_share
decode_key_share-Behaves = record { ends = search decoder_rules; forward = search decoder_rules }

decoders-Behave : All (λ p. Behaves p.1) decoders
unfolding decoders
decoders-Behave = (
  decode_server_name-Behaves,
  (
    decode_supported_groups-Behaves,
    (
      decode_ec_point_formats-Behaves,
      (
        decode_signature_algorithms-Behaves,
        (
          decode_signature_algorithms-Behaves,
          (
            decode_alpn-Behaves,
            (
              decode_padding-Behaves,
              (
                decode_empty-Behaves,
                (
                  decode_empty-Behaves,
                  (
                    decode_compress_certificate-Behaves,
                    (
                      decode_record_size_limit-Behaves,
                      (
                        decode_supported_versions-Behaves,
                        (decode_psk_key_exchange_modes-Behaves, (decode_key_share-Behaves, tt)),
                      ),
                    ),
                  ),
                ),
              ),
            ),
          ),
        ),
      ),
    ),
  ),
)

find_decoder-Behaves :
    (t : ℕ) (ds : List (ℕ × Read Decoded)) (d : Read Decoded)
    → All (λ p. Behaves p.1) ds
    → find_decoder t ds ≡ some d
    → Behaves d
unfolding find_decoder
find_decoder-Behaves t [] d a e = cc
find_decoder-Behaves t ((u, c) ∷ ds) d (h, a) e = elim (Bool-cases (t == u)) [
  | inl same ↦ subst Behaves (cc (rw same at e)) h
  | inr other ↦ find_decoder-Behaves t ds d a (rw other at e)
]

run_decoder-Ends : (d : Read Decoded) → Behaves d → Ends (run_decoder d)
unfolding run_decoder
run_decoder-Ends d b = bind-Ends b.ends (λ v. search reads)

-- Whatever the type and the payload, decoding ends: the error that it reports is never that a loop
-- ran out of fuel.
pub decode_extension-ne-stuck :
    (t : ℕ) (payload : Bytes) → decode_extension t payload ≢ some (err stuck)
unfolding decode_extension decode_with
decode_extension-ne-stuck t payload = elim (Option-cases (find_decoder t decoders)) [
  | inl e ↦ rw e (λ p. cc p)
  | inr (d, e) ↦ rw e (λ p.
      (run_decoder-Ends d (find_decoder-Behaves t decoders d decoders-Behave e)).ends
        (new_reader payload) (cc p))
]

check_end_inv :
    (w v : Decoded) (u r : ByteReader)
    → (gets has_more >>= λ more. if more then raise trailing_bytes else pure w) u ≡ (ok v, r)
    → (has_more u ≡ false) × (w ≡ v) × (u ≡ r)
unfolding ◌>>=◌
check_end_inv w v u r h = elim (Bool-cases (has_more u)) [
  | inl more ↦ cc (rw more at h)
  | inr done ↦ (done, cc (rw done at h), ap (λ x. x.1) (rw done at h))
]

no_more :
    (payload : Bytes) (r : ByteReader)
    → Forward (new_reader payload) r
    → has_more r ≡ false
    → r.pos ≡ length payload
unfolding has_more new_reader
no_more payload r k e = omega (
  arith,
  k.inside (omega arith),
  ltb_false→le r.pos (length r.dat) e,
  ap (λ (d : Bytes). length d) k.same,
)

run_decoder_inv :
    (d : Read Decoded) (payload : Bytes) (v : Decoded) (r : ByteReader)
    → Behaves d
    → run_decoder d (new_reader payload) ≡ (ok v, r)
    → (d (new_reader payload) ≡ (ok v, r)) × (r.pos ≡ length payload)
unfolding run_decoder
run_decoder_inv d payload v r b h =
    let (w, u, p, q) = bind_inv d _ (new_reader payload) r h in
    let (done, value, place) = check_end_inv w v u r q in
    let k : Forward (new_reader payload) u = rw p at (b.forward.run (new_reader payload)) in
    (
      p ∙ ap₂ (λ x y. (ok x, y)) value place,
      no_more payload r (subst (Forward (new_reader payload)) place k)
          (subst (λ x. has_more x ≡ false) place done),
    )

result_pair :
    (p : Result ReadError Decoded × ByteReader) (v : Decoded) → p.0 ≡ ok v → p ≡ (ok v, p.1)
result_pair (r, t) v e = ap (λ x. (x, t)) e

-- A payload that is decoded without an error has a decoder for its type, whose value is the answer,
-- and which has read the payload to its last byte.
pub decode_extension_whole :
    (t : ℕ) (payload : Bytes) (v : Decoded)
    → decode_extension t payload ≡ some (ok v)
    → (d : Read Decoded) × (r : ByteReader) × (find_decoder t decoders ≡ some d)
      × (d (new_reader payload) ≡ (ok v, r))
      × (r.pos ≡ length payload)
unfolding decode_extension decode_with
decode_extension_whole t payload v h = elim (Option-cases (find_decoder t decoders)) [
  | inl e ↦ cc (rw e at h)
  | inr (d, e) ↦
      let x = run_decoder d (new_reader payload) in
      let f = result_pair x v (cc (rw e at h)) in
      let (a, b) =
        run_decoder_inv d payload v x.1 (find_decoder-Behaves t decoders d decoders-Behave e) f in
      (d, x.1, e, a, b)
]
