-- ===== src/Http2/Frames/Parse/Header.antt =====
-- The nine bytes of a frame header, read at once.
use solvetls.Base.{
  ℕ, ◌+◌, ◌≤◌, ◌≡◌, sym, ap, ◌∙◌, arith, false, none, ◌∷◌, take, drop, ltb, le→ltb, ltb_false→le,
  if◌then◌else◌, bit_and, Bool-cases, inl, inr,
}
use solvetls.Exec.{Result, ok, err, raise_if, ◌>>=◌, ◌>>◌}
use solvetls.Wire.Bytes.{Bytes, unpack}
use solvetls.Http2.Frames.Codes.{max_stream_id, frame_header_size}
use solvetls.Http2.Frames.Data.{FrameHeader, FrameError, plain, size_exceeds}
use solvetls.Http2.Frames.Cursor.{
  FrameReader, size_fault, limit, read, read_uint8, read_uint24, read_uint32,
  read_uint32_with_reserved,
}
use solvetls.Http2.Frames.Parse.{available, read_header}

-- The reader, `n` bytes further on.
abbrev pub advance : FrameReader → ℕ → FrameReader
advance r n = record r { pos = r.pos + n }

-- The next `n` bytes, `k` bytes behind the cursor.
abbrev pub peek : FrameReader → ℕ → ℕ → Bytes
peek r k n = take n (drop (r.pos + k) r.dat)

-- A read that fits takes exactly its bytes.
pub read_run :
    (n k : ℕ) (r : FrameReader)
    → r.pos + k + n ≤ limit r
    → read n (advance r k) ≡ (ok (peek r k n), advance r (k + n))
unfolding read
read_run n k r h =
    rw (le→ltb (limit r) (r.pos + k + n) h)
      (ap (λ p. (ok (peek r k n), record r { pos = p })) (omega arith))

advance-zero : (r : FrameReader) → advance r 0 ≡ r
advance-zero r = ap (λ p. record r { pos = p }) (omega arith)

pub read_uint24_run :
    (r : FrameReader)
    → r.pos + 3 ≤ limit r
    → read_uint24 r ≡ (ok (unpack (0 ∷ peek r 0 3)), advance r 3)
unfolding read_uint24 ◌>>=◌
read_uint24_run r h =
    let first : read 3 r ≡ (ok (peek r 0 3), advance r 3) =
      ap (read 3) (sym (advance-zero r)) ∙ read_run 3 0 r (omega arith) in
    rw first

pub read_uint8_run :
    (k : ℕ) (r : FrameReader)
    → r.pos + k + 1 ≤ limit r
    → read_uint8 (advance r k) ≡ (ok (unpack (peek r k 1)), advance r (k + 1))
unfolding read_uint8 ◌>>=◌
read_uint8_run k r h = rw (read_run 1 k r h)

pub read_uint32_with_reserved_run :
    (k : ℕ) (r : FrameReader)
    → r.pos + k + 4 ≤ limit r
    → read_uint32_with_reserved (advance r k)
      ≡ (ok (bit_and (unpack (peek r k 4)) max_stream_id), advance r (k + 4))
unfolding read_uint32_with_reserved read_uint32 ◌>>=◌
read_uint32_with_reserved_run k r h = rw (read_run 4 k r h)

-- The header that stands at the cursor.
unfoldable pub header_at : FrameReader → FrameHeader
header_at r = record {
  length = unpack (0 ∷ peek r 0 3);
  type = unpack (peek r 3 1);
  flags = unpack (peek r 4 1);
  stream_id = bit_and (unpack (peek r 5 4)) max_stream_id;
}

module _ (r : FrameReader) (open_end : r.payload_end ≡ none) where
  -- What `read_header` answers, branch by branch.
  abbrev pub header_answer : Result FrameError FrameHeader × FrameReader
  header_answer =
      if ltb (available r) frame_header_size
      then (err (size_fault (plain "Incomplete frame header")), r)
      else if ltb r.max_frame_size (header_at r).length
      then (err (size_fault (size_exceeds (header_at r).length r.max_frame_size)), advance r 9)
      else if ltb (available (advance r 9)) (header_at r).length
      then (err (size_fault (plain "Incomplete frame payload")), advance r 9)
      else (ok (header_at r), advance r 9)

  room : ltb (available r) 9 ≡ false → r.pos + 9 ≤ limit r
  room h = rw open_end (omega (arith, ltb_false→le (available r) 9 h))

  -- Between two frames, reading a header fails with fewer than nine bytes left, leaving the cursor;
  -- otherwise it moves the cursor over the nine bytes, and fails if the length that they declare is
  -- over the maximum or over what is left, and else returns the header that they hold.
  pub read_header_lem : read_header r ≡ header_answer
  unfolding read_header header_at ◌>>=◌ ◌>>◌ raise_if
  read_header_lem = elim (Bool-cases (ltb (available r) 9)) [
    | inl short ↦ rw short
    | inr long ↦
        let fits = room long in
        rw
          (
            long,
            read_uint24_run r (omega (arith, fits)),
            read_uint8_run 3 r (omega (arith, fits)),
            read_uint8_run 4 r (omega (arith, fits)),
            read_uint32_with_reserved_run 5 r (omega (arith, fits)),
          )
          (ground arith)
  ]
