-- ===== src/Http2/Frames/Build/RoundTrip.antt =====
-- `HTTP2FrameReader` on what `HTTP2FrameBuilder` writes.
use solvetls.Base.{
  ℕ, ◌+◌, ◌-◌, ◌≤◌, ◌<◌, ◌≡◌, ◌≢◌, refl, ap₂, ◌∙◌, arith, Bool, true, false, ◌∷◌, ◌++◌, Option,
  none, some, length, length-append, take, drop, take-append, le→ltb, ◌==◌,
}
use solvetls.Base.Bits.{bit_and_stream_id}
use solvetls.Exec.{ok, raise_if, ◌>>=◌, ◌>>◌, try_except, try_finally}
use solvetls.Wire.Bytes.{Bytes, pack, unpack, unpack_from}
use solvetls.Http2.Frames.Codes.{
  max_allowed_frame_size, max_stream_id, headers_type, end_stream_flag, end_headers_flag,
  padded_flag, priority_flag,
}
use solvetls.Http2.Frames.Data.{FrameHeader, Payload, headers_payload, ParsedFrame}
use solvetls.Http2.Frames.Cursor.{
  FrameReader, new_frame_reader, has_flag, limit, read, read_padding_length, skip_padding,
}
use solvetls.Http2.Frames.Payloads.{
  parse_headers, read_priority_if, parsers, find_parser, parse_payload_by_type,
}
use solvetls.Http2.Frames.Parse.{read_payload, parse_body, parse_frame, set_end, slice}
use solvetls.Http2.Frames.Parse.Header.{advance, header_at, peek}
use solvetls.Http2.Frames.Parse.Forensic.{IsComplete, read_header_complete}
use solvetls.Http2.Frames.Build.{build_frame, build_headers_frame, with_flag}

-- A read at the cursor that fits.
read_here :
    (n : ℕ) (r : FrameReader)
    → r.pos + n ≤ limit r
    → read n r ≡ (ok (take n (drop r.pos r.dat)), advance r n)
unfolding read
read_here n r h = rw (le→ltb (limit r) (r.pos + n) h)

-- A HEADERS payload with neither padding nor priority is the header block.
parse_headers_plain :
    (h : FrameHeader) (r : FrameReader)
    → h.stream_id ≢ 0
    → has_flag h.flags padded_flag ≡ false
    → has_flag h.flags priority_flag ≡ false
    → r.pos + h.length ≤ limit r
    → parse_headers h r ≡ (
      ok (
          headers_payload (record {
            header_block = take h.length (drop r.pos r.dat);
            priority = none;
            end_stream = has_flag h.flags end_stream_flag;
            end_headers = has_flag h.flags end_headers_flag;
            padded = false;
          })),
      advance r h.length,
    )
unfolding parse_headers read_padding_length read_priority_if skip_padding read ◌>>=◌ ◌>>◌ raise_if
parse_headers_plain h r id pad prio fits = rw (pad, prio) (ground arith)

-- The bytes of a frame.
abbrev frame_wire : ℕ → ℕ → ℕ → Bytes → Bytes
frame_wire type flags stream_id payload =
    drop 1 (pack 4 (length payload))
    ++ (pack 1 type ++ (pack 1 flags ++ (pack 4 stream_id ++ payload)))

build_frame_lem :
    (type flags stream_id : ℕ) (payload : Bytes)
    → length payload ≤ max_allowed_frame_size
    → stream_id ≤ max_stream_id
    → build_frame type flags stream_id payload ≡ ok (frame_wire type flags stream_id payload)
unfolding build_frame
build_frame_lem type flags stream_id payload n i =
    rw (le→ltb max_allowed_frame_size (length payload) n, le→ltb max_stream_id stream_id i)

-- A reader whose buffer begins with a frame.
module _ (type flags stream_id : ℕ) (payload rest : Bytes) (type_fits : type < 256)
    (flags_fit : flags < 256) (stream_fits : stream_id ≤ max_stream_id)
    (payload_fits : length payload ≤ max_allowed_frame_size) (r : FrameReader)
    (at_start : r.pos ≡ 0) (holds : r.dat ≡ frame_wire type flags stream_id payload ++ rest) where
  abbrev built_header : FrameHeader
  built_header = record {
    length = length payload;
    type = type;
    flags = flags;
    stream_id = stream_id;
  }

  whole : Bytes
  whole = frame_wire type flags stream_id payload ++ rest

  peek_lem : (k n : ℕ) → peek r k n ≡ take n (drop (0 + k) whole)
  unfolding whole
  peek_lem k n = ap₂ (λ p (d : Bytes). take n (drop (p + k) d)) at_start holds

  length_field : unpack (0 ∷ peek r 0 3) ≡ length payload
  unfolding whole pack unpack unpack_from
  length_field = rw (peek_lem 0 3) (omega arith)

  type_field : unpack (peek r 3 1) ≡ type
  unfolding whole pack unpack unpack_from
  type_field = rw (peek_lem 3 1) (omega arith)

  flags_field : unpack (peek r 4 1) ≡ flags
  unfolding whole pack unpack unpack_from
  flags_field = rw (peek_lem 4 1) (omega arith)

  stream_field : unpack (peek r 5 4) ≡ stream_id
  unfolding whole pack unpack unpack_from
  stream_field = rw (peek_lem 5 4) (omega arith)

  built_header_at : header_at r ≡ built_header
  unfolding header_at
  built_header_at = rw (
    length_field,
    type_field,
    flags_field,
    stream_field,
    bit_and_stream_id stream_id (omega arith),
  )

  length-whole : length r.dat ≡ 9 + (length payload + length rest)
  unfolding pack
  length-whole =
      rw holds (omega (arith, length-append {0} (frame_wire type flags stream_id payload) rest))

  payload_here : take (length payload) (drop (r.pos + 9) r.dat) ≡ payload
  unfolding pack
  payload_here =
      ap₂ (λ p (d : Bytes). take (length payload) (drop (p + 9) d)) at_start holds
      ∙ take-append payload rest

  built-IsComplete : length payload ≤ r.max_frame_size → IsComplete r
  built-IsComplete size = record {
    header_fits = omega (arith, length-whole);
    size_fits = rw built_header_at size;
    payload_fits = rw built_header_at (omega (arith, length-whole));
  }

  length-wire : length (frame_wire type flags stream_id payload) ≡ 9 + length payload
  unfolding pack
  length-wire = omega arith

  raw_here :
      slice r.pos (r.pos + 9 + length payload) r.dat ≡ frame_wire type flags stream_id payload
  raw_here =
      ap₂ (λ n (d : Bytes). take n d) (omega (arith, length-wire))
        (ap₂ (λ p (d : Bytes). drop p d) at_start holds)
      ∙ take-append (frame_wire type flags stream_id payload) rest

  -- The state in which the payload is parsed.
  abbrev payload_reader : FrameReader
  payload_reader = set_end (some (r.pos + 9 + length payload)) (advance r 9)

  -- A payload that its parser reads whole makes the frame.
  built_frame :
      (p : Payload)
      → r.payload_end ≡ none
      → length payload ≤ r.max_frame_size
      → parse_payload_by_type built_header payload_reader
        ≡ (ok p, advance payload_reader (length payload))
      → (parse_frame r).0
        ≡ ok (record {
          header = built_header;
          payload = p;
          raw = frame_wire type flags stream_id payload;
        })
  unfolding parse_frame parse_body read_payload try_except try_finally ◌>>=◌ ◌>>◌ raise_if
  built_frame p o size e =
      let same_size : (r.pos + 9 + length payload - (r.pos + 9) == length payload) ≡ true =
        ground arith in
      rw (read_header_complete r o (built-IsComplete size), built_header_at, e, same_size, raw_here)

abbrev headers_flags : Bool → Bool → ℕ
headers_flags end_stream end_headers =
    with_flag end_headers end_headers_flag (with_flag end_stream end_stream_flag 0)

-- What the reader makes of the flags that the builder sets.
headers_flags_lem :
    (es eh : Bool)
    → (headers_flags es eh < 256)
      × (has_flag (headers_flags es eh) padded_flag ≡ false)
      × (has_flag (headers_flags es eh) priority_flag ≡ false)
      × (has_flag (headers_flags es eh) end_stream_flag ≡ es)
      × (has_flag (headers_flags es eh) end_headers_flag ≡ eh)
headers_flags_lem true true = (omega arith, refl, refl, refl, refl)
headers_flags_lem true false = (omega arith, refl, refl, refl, refl)
headers_flags_lem false true = (omega arith, refl, refl, refl, refl)
headers_flags_lem false false = (omega arith, refl, refl, refl, refl)

dispatch_headers :
    (h : FrameHeader) → h.type ≡ headers_type → parse_payload_by_type h ≡ parse_headers h
unfolding parse_payload_by_type find_parser parsers
dispatch_headers h e = rw e

-- The frame that `build_headers_frame` is asked for.
abbrev pub headers_frame : ℕ → Bytes → Bool → Bool → Bytes → ParsedFrame
headers_frame stream_id block end_stream end_headers wire = record {
  header = record {
    length = length block;
    type = headers_type;
    flags = headers_flags end_stream end_headers;
    stream_id = stream_id;
  };
  payload = headers_payload (record {
    header_block = block;
    priority = none;
    end_stream = end_stream;
    end_headers = end_headers;
    padded = false;
  });
  raw = wire;
}

-- For a stream from 1 to the largest identifier and a block no longer than the reader's maximum and
-- the largest frame, `build_headers_frame` returns a frame, and a new reader of it returns that
-- stream, block and flags, without padding and priority, whatever bytes follow it and however the
-- padding check, the forensic mode and the entry limit are set.
pub parse_frame-build_headers_frame :
    (stream_id size : ℕ) (block rest : Bytes) (es eh strict forensic : Bool) (entries : Option ℕ)
    → 0 < stream_id
    → stream_id ≤ max_stream_id
    → length block ≤ size
    → length block ≤ max_allowed_frame_size
    → (wire : Bytes) × (build_headers_frame stream_id block es eh ≡ ok wire)
      × ((parse_frame (new_frame_reader (wire ++ rest) size strict forensic entries)).0
          ≡ ok (headers_frame stream_id block es eh wire))
unfolding build_headers_frame new_frame_reader
parse_frame-build_headers_frame stream_id size block rest es eh strict forensic entries pos fits
      small allowed =
    let (flags_fit, not_padded, no_priority, es_set, eh_set) = headers_flags_lem es eh in
    let flags = headers_flags es eh in
    let wire = frame_wire headers_type flags stream_id block in
    let r = new_frame_reader (wire ++ rest) size strict forensic entries in
    let type_fits : headers_type < 256 = omega arith in
    let h =
      built_header headers_type flags stream_id block rest type_fits flags_fit fits allowed r refl
        refl in
    let inner =
      payload_reader headers_type flags stream_id block rest type_fits flags_fit fits allowed r refl
        refl in
    let body : take (length block) (drop 9 (wire ++ rest)) ≡ block =
      payload_here headers_type flags stream_id block rest type_fits flags_fit fits allowed r refl
        refl in
    let parsed =
      parse_headers_plain h inner (λ e. absurd (omega (arith, e))) not_padded no_priority
        (omega arith) in
    (
      wire,
      build_frame_lem headers_type flags stream_id block allowed fits,
      built_frame headers_type flags stream_id block rest type_fits flags_fit fits allowed r refl
          refl _ refl (omega arith)
          (rw (dispatch_headers h refl) (parsed ∙ rw (es_set, eh_set, body))),
    )
