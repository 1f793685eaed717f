-- ===== src/Http2/Frames/Parse.antt =====
-- solvetls/http2/frames.py: `HTTP2FrameReader.parse_frame`.
pub mod Header
pub mod Exact
pub mod Classes
pub mod Forensic
pub mod Errors
use solvetls.Base.{
  ℕ, ◌+◌, ◌-◌, Bool, true, false, not, ◌&&◌, ◌||◌, List, [], ◌∷◌, Option, none, some, length, take,
  drop, ltb, ◌==◌, if◌then◌else◌,
}
use solvetls.Exec.{
  Result, ok, err, Exec, pure, raise, gets, modify, raise_if, ◌>>=◌, ◌>>◌, try_except, try_finally,
}
use solvetls.Wire.Bytes.{Bytes, unpack}
use solvetls.Http2.Frames.Codes.{frame_header_size, enhance_your_calm, altsvc_type, origin_type}
use solvetls.Http2.Frames.Data.{
  FrameHeader, Payload, unknown_payload, ParsedFrame, FrameError, plain, size_exceeds,
  expected_read,
}
use solvetls.Http2.Frames.Cursor.{
  FrameReader, Read, new_frame_reader, size_fault, reserve_entries, read, read_uint8, read_uint16,
  read_uint24, read_uint32, read_uint32_with_reserved, read_priority, read_padding_length,
  skip_padding,
}
use solvetls.Http2.Frames.Settings.{
  dict_set, check_setting, read_settings, read_settings_payload, acknowledge_settings,
  parse_settings,
}
use solvetls.Http2.Frames.Payloads.{
  parse_data, read_priority_if, parse_headers, parse_priority, parse_rst_stream, parse_push_promise,
  parse_ping, parse_goaway, parse_window_update, parse_continuation, parse_altsvc, read_origins,
  parse_origin, parse_priority_update, keep_unknown, parsers, find_parser, parse_payload_by_type,
}

-- len(self._data) - self._pos
abbrev pub available : FrameReader → ℕ
available r = length r.dat - r.pos

-- The nine bytes of the header, and the checks on the length that they declare.
unfoldable pub read_header : Read FrameHeader
read_header = do
  left ← gets available
  raise_if (ltb left frame_header_size) (size_fault (plain "Incomplete frame header"))
  frame_length ← read_uint24
  frame_type ← read_uint8
  frame_flags ← read_uint8
  stream_id ← read_uint32_with_reserved
  maximum ← gets (λ r. r.max_frame_size)
  raise_if (ltb maximum frame_length) (size_fault (size_exceeds frame_length maximum))
  behind ← gets available
  raise_if (ltb behind frame_length) (size_fault (plain "Incomplete frame payload"))
  pure (record {
    length = frame_length;
    type = frame_type;
    flags = frame_flags;
    stream_id = stream_id;
  })

-- self._payload_end = e
abbrev pub set_end : Option ℕ → FrameReader → FrameReader
set_end e r = record r { payload_end = e }

-- The `try` block, from `payload_start` on: the payload, which has to take all its bytes.
unfoldable pub read_payload : FrameHeader → ℕ → Read Payload
read_payload header payload_start = do
  payload ← parse_payload_by_type header
  pos ← gets (λ r. r.pos)
  raise_if (not (pos - payload_start == header.length))
      (size_fault (expected_read header.length (pos - payload_start)))
  pure payload

abbrev pub is_ignorable : ℕ → Bool
is_ignorable frame_type = frame_type == altsvc_type || frame_type == origin_type

-- data[start:end]
abbrev pub slice : ℕ → ℕ → Bytes → Bytes
slice start stop xs = take (stop - start) (drop start xs)

-- The frame's bytes in place of a payload that could not be parsed.
unfoldable pub keep_malformed : FrameHeader → ℕ → FrameError → Read Payload
keep_malformed header payload_start error = do
  modify (λ r. record r { pos = payload_start + header.length })
  raw_payload ← gets (λ r. slice payload_start (payload_start + header.length) r.dat)
  pure (
      unknown_payload (record {
        unknown_type = header.type;
        raw_payload = raw_payload;
        parse_error = some error.message;
        error_code = some error.code;
      }))

-- The `except` clause.
unfoldable pub recover : FrameHeader → ℕ → FrameError → Read Payload
recover header payload_start error = if error.code == enhance_your_calm then raise error else (do
  forensic ← gets (λ r. r.forensic)
  if not forensic && not (is_ignorable header.type)
      then raise error
      else keep_malformed header payload_start error)

-- The payload between `payload_start` and `payload_end`, with the `try` statement around it.
unfoldable pub parse_body : FrameHeader → ℕ → Read Payload
parse_body header payload_start =
    modify (set_end (some (payload_start + header.length)))
    >> try_finally (try_except (read_payload header payload_start) (recover header payload_start))
        (set_end none)

unfoldable pub parse_frame : Read ParsedFrame
parse_frame = do
  frame_start ← gets (λ r. r.pos)
  header ← read_header
  payload_start ← gets (λ r. r.pos)
  payload ← parse_body header payload_start
  raw ← gets (λ r. slice frame_start (payload_start + header.length) r.dat)
  pure (record { header = header; payload = payload; raw = raw })

-- Tests run the reader of frames by unfolding this name.
unfoldable pub frames_code : Unit {0}
unfolding ◌>>=◌ ◌>>◌ raise_if try_except try_finally unpack new_frame_reader reserve_entries read
    read_uint8 read_uint16 read_uint24 read_uint32 read_uint32_with_reserved read_priority
    read_padding_length skip_padding dict_set check_setting read_settings read_settings_payload
    acknowledge_settings parse_settings parse_data read_priority_if parse_headers parse_priority
    parse_rst_stream parse_push_promise parse_ping parse_goaway parse_window_update
    parse_continuation parse_altsvc read_origins parse_origin parse_priority_update keep_unknown
    parsers find_parser parse_payload_by_type read_header read_payload keep_malformed recover
    parse_body parse_frame
frames_code = tt
