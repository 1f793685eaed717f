-- ===== src/Http2/Frames/Payloads.antt =====
-- solvetls/http2/frames.py: the parsers of the payloads, one for each frame type, and the choice
-- among them. A test `x - y < 0` of the source is `x < y`.
pub mod Bounds
pub mod Classes
pub mod Errors
use solvetls.Base.{
  ℕ, zero, suc, ◌+◌, ◌-◌, ◌/◌, ◌%◌, Bool, true, false, not, List, [], ◌∷◌, ◌++◌, Option, none, some,
  ltb, ◌==◌, if◌then◌else◌,
}
use solvetls.Exec.{Exec, pure, raise, raise_if, ◌>>=◌, ◌>>◌}
use solvetls.Wire.Bytes.{Bytes}
use solvetls.Http2.Frames.Codes.{
  data_type, headers_type, priority_type, rst_stream_type, settings_type, push_promise_type,
  ping_type, goaway_type, window_update_type, continuation_type, altsvc_type, origin_type,
  priority_update_type, end_stream_flag, end_headers_flag, padded_flag, priority_flag, ack_flag,
  ping_payload_size, priority_payload_size, rst_stream_payload_size, window_update_payload_size,
}
use solvetls.Http2.Frames.Data.{
  FrameHeader, DataPayload, PriorityInfo, HeadersPayload, Payload, data_payload, headers_payload,
  priority_info, rst_stream_payload, settings_payload, push_promise_payload, ping_payload,
  goaway_payload, window_update_payload, continuation_payload, altsvc_payload, origin_payload,
  priority_update_payload, unknown_payload, FrameError, Message, plain, stuck,
}
use solvetls.Http2.Frames.Cursor.{
  FrameReader, Read, protocol_fault, size_fault, has_flag, reserve_entries, read, read_uint8,
  read_uint16, read_uint32, read_uint32_with_reserved, read_priority, read_padding_length,
  skip_padding,
}
use solvetls.Http2.Frames.Settings.{parse_settings}

-- The bytes of the payload that the padding's length and the padding take.
abbrev pub padding_size : FrameHeader → ℕ → ℕ
padding_size header pad_length = (if has_flag header.flags padded_flag then 1 else 0) + pad_length

unfoldable pub parse_data : FrameHeader → Read Payload
parse_data header = do
  raise_if (header.stream_id == 0)
      (protocol_fault (plain "DATA frame must have non-zero stream ID"))
  pad_length ← read_padding_length header
  raise_if (ltb header.length (padding_size header pad_length))
      (protocol_fault (plain "Invalid data length"))
  content ← read (header.length - padding_size header pad_length)
  skip_padding pad_length
  pure (
      data_payload (record {
        content = content;
        end_stream = has_flag header.flags end_stream_flag;
        padded = has_flag header.flags padded_flag;
      }))

-- `self._read_priority() if header.flags & FrameFlags.PRIORITY else None`
unfoldable pub read_priority_if : Bool → Read (Option PriorityInfo)
read_priority_if b = if b then (do p ← read_priority; pure (some p)) else pure none

abbrev pub priority_size : FrameHeader → ℕ
priority_size header = if has_flag header.flags priority_flag then 5 else 0

unfoldable pub parse_headers : FrameHeader → Read Payload
parse_headers header = do
  raise_if (header.stream_id == 0)
      (protocol_fault (plain "HEADERS frame must have non-zero stream ID"))
  pad_length ← read_padding_length header
  priority_data ← read_priority_if (has_flag header.flags priority_flag)
  raise_if (ltb header.length (padding_size header pad_length + priority_size header))
      (protocol_fault (plain "Invalid header block length"))
  header_block ← read (header.length - (padding_size header pad_length + priority_size header))
  skip_padding pad_length
  pure (
      headers_payload (record {
        header_block = header_block;
        priority = priority_data;
        end_stream = has_flag header.flags end_stream_flag;
        end_headers = has_flag header.flags end_headers_flag;
        padded = has_flag header.flags padded_flag;
      }))

unfoldable pub parse_priority : FrameHeader → Read Payload
parse_priority header = do
  raise_if (not (header.length == priority_payload_size))
      (size_fault (plain "PRIORITY frame must be 5 bytes"))
  raise_if (header.stream_id == 0)
      (protocol_fault (plain "PRIORITY frame must have non-zero stream ID"))
  p ← read_priority
  pure (priority_info p)

unfoldable pub parse_rst_stream : FrameHeader → Read Payload
parse_rst_stream header = do
  raise_if (not (header.length == rst_stream_payload_size))
      (size_fault (plain "RST_STREAM frame must be 4 bytes"))
  raise_if (header.stream_id == 0)
      (protocol_fault (plain "RST_STREAM frame must have non-zero stream ID"))
  error_code ← read_uint32
  pure (rst_stream_payload (record { error_code = error_code }))

unfoldable pub parse_push_promise : FrameHeader → Read Payload
parse_push_promise header = do
  raise_if (header.stream_id == 0)
      (protocol_fault (plain "PUSH_PROMISE frame must have non-zero stream ID"))
  pad_length ← read_padding_length header
  promised_stream_id ← read_uint32_with_reserved
  raise_if (promised_stream_id == 0) (protocol_fault (plain "Promised stream ID must be non-zero"))
  raise_if (ltb header.length (padding_size header pad_length + 4))
      (protocol_fault (plain "Invalid header block length"))
  header_block ← read (header.length - (padding_size header pad_length + 4))
  skip_padding pad_length
  pure (
      push_promise_payload (record {
        promised_stream_id = promised_stream_id;
        header_block = header_block;
        end_headers = has_flag header.flags end_headers_flag;
        padded = has_flag header.flags padded_flag;
      }))

unfoldable pub parse_ping : FrameHeader → Read Payload
parse_ping header = do
  raise_if (not (header.stream_id == 0))
      (protocol_fault (plain "PING frame must have stream ID = 0"))
  raise_if (not (header.length == ping_payload_size))
      (size_fault (plain "PING frame must be 8 bytes"))
  content ← read ping_payload_size
  pure (ping_payload (record { content = content; ack = has_flag header.flags ack_flag }))

unfoldable pub parse_goaway : FrameHeader → Read Payload
parse_goaway header = do
  raise_if (not (header.stream_id == 0))
      (protocol_fault (plain "GOAWAY frame must have stream ID = 0"))
  raise_if (ltb header.length 8) (size_fault (plain "GOAWAY frame must be at least 8 bytes"))
  last_stream_id ← read_uint32_with_reserved
  error_code ← read_uint32
  debug_data ← (if ltb 0 (header.length - 8) then read (header.length - 8) else pure [])
  pure (
      goaway_payload (record {
        last_stream_id = last_stream_id;
        error_code = error_code;
        debug_data = debug_data;
      }))

unfoldable pub parse_window_update : FrameHeader → Read Payload
parse_window_update header = do
  raise_if (not (header.length == window_update_payload_size))
      (size_fault (plain "WINDOW_UPDATE frame must be 4 bytes"))
  increment ← read_uint32_with_reserved
  raise_if (increment == 0) (protocol_fault (plain "Window size increment must not be 0"))
  pure (window_update_payload (record { increment = increment }))

unfoldable pub parse_continuation : FrameHeader → Read Payload
parse_continuation header = do
  raise_if (header.stream_id == 0)
      (protocol_fault (plain "CONTINUATION frame must have non-zero stream ID"))
  header_block ← read header.length
  pure (
      continuation_payload (record {
        header_block = header_block;
        end_headers = has_flag header.flags end_headers_flag;
      }))

unfoldable pub parse_altsvc : FrameHeader → Read Payload
parse_altsvc header = do
  raise_if (ltb header.length 2) (protocol_fault (plain "ALTSVC frame too short"))
  origin_len ← read_uint16
  raise_if (ltb (header.length - 2) origin_len)
      (protocol_fault (plain "Invalid origin length in ALTSVC"))
  origin ← read origin_len
  field_value ← read (header.length - 2 - origin_len)
  pure (altsvc_payload (record { origin = origin; field_value = field_value }))

-- The `while` loop of `_parse_origin`, on fuel, from `bytes_read` on.
unfoldable pub read_origins : ℕ → ℕ → ℕ → Read (List Bytes)
read_origins zero size bytes_read =
    if ltb bytes_read size then raise (protocol_fault stuck) else pure []
read_origins (suc fuel) size bytes_read =
    let round = (do
      raise_if (ltb size (bytes_read + 2)) (protocol_fault (plain "Invalid ORIGIN frame format"))
      origin_len ← read_uint16
      raise_if (ltb size (bytes_read + 2 + origin_len))
          (protocol_fault (plain "Invalid origin length in ORIGIN frame"))
      reserve_entries 1
      origin ← read origin_len
      rest ← read_origins fuel size (bytes_read + 2 + origin_len)
      pure (origin ∷ rest)) in
    if ltb bytes_read size then round else pure []

-- Each round reads two bytes at least, so as many rounds as bytes are enough.
unfoldable pub parse_origin : FrameHeader → Read Payload
parse_origin header = do
  raise_if (not (header.stream_id == 0))
      (protocol_fault (plain "ORIGIN frame must have stream ID = 0"))
  origins ← read_origins header.length header.length 0
  pure (origin_payload (record { origins = origins }))

unfoldable pub parse_priority_update : FrameHeader → Read Payload
parse_priority_update header = do
  raise_if (not (header.stream_id == 0))
      (protocol_fault (plain "PRIORITY_UPDATE frame must have stream ID = 0"))
  raise_if (ltb header.length 4) (size_fault (plain "PRIORITY_UPDATE frame too short"))
  prioritized_stream_id ← read_uint32_with_reserved
  raise_if (prioritized_stream_id == 0)
      (protocol_fault (plain "Prioritized stream ID must be non-zero"))
  priority_field_value ← read (header.length - 4)
  pure (
      priority_update_payload (record {
        prioritized_stream_id = prioritized_stream_id;
        priority_field_value = priority_field_value;
      }))

-- A frame of an unknown type is kept as its bytes.
unfoldable pub keep_unknown : FrameHeader → Read Payload
keep_unknown header = do
  raw_payload ← read header.length
  pure (
      unknown_payload (record {
        unknown_type = header.type;
        raw_payload = raw_payload;
        parse_error = none;
        error_code = none;
      }))

-- The dict `parsers`, in the order of the source.
unfoldable pub parsers : List (ℕ × (FrameHeader → Read Payload))
parsers =
    (data_type, parse_data)
    ∷ (headers_type, parse_headers)
    ∷ (priority_type, parse_priority)
    ∷ (rst_stream_type, parse_rst_stream)
    ∷ (settings_type, parse_settings)
    ∷ (push_promise_type, parse_push_promise)
    ∷ (ping_type, parse_ping)
    ∷ (goaway_type, parse_goaway)
    ∷ (window_update_type, parse_window_update)
    ∷ (continuation_type, parse_continuation)
    ∷ (altsvc_type, parse_altsvc)
    ∷ (origin_type, parse_origin)
    ∷ (priority_update_type, parse_priority_update)
    ∷ []

unfoldable pub find_parser :
    ℕ → List (ℕ × (FrameHeader → Read Payload)) → FrameHeader → Read Payload
find_parser t [] = keep_unknown
find_parser t ((u, p) ∷ ps) = if t == u then p else find_parser t ps

unfoldable pub parse_payload_by_type : FrameHeader → Read Payload
parse_payload_by_type header = find_parser header.type parsers header
