-- ===== src/Http2/Frames/Data.antt =====
-- solvetls/http2/frames.py: the data classes of frames and payloads, and the parsing error.
use solvetls.Base.{ℕ, Bool, List, ◌++◌, Option, String}
use solvetls.Base.Text.{codes, str}
use solvetls.Wire.Bytes.{Bytes}

pub record FrameHeader : Type 0 where
  pub length : ℕ
  pub type : ℕ
  pub flags : ℕ
  pub stream_id : ℕ

pub record DataPayload : Type 0 where
  pub content : Bytes
  pub end_stream : Bool
  pub padded : Bool

pub record PriorityInfo : Type 0 where
  pub exclusive : Bool
  pub dependency : ℕ
  pub weight : ℕ

pub record HeadersPayload : Type 0 where
  pub header_block : Bytes
  pub priority : Option PriorityInfo
  pub end_stream : Bool
  pub end_headers : Bool
  pub padded : Bool

pub record RstStreamPayload : Type 0 where
  pub error_code : ℕ

-- A dict of settings, in insertion order.
abbrev pub Settings : Type 0
Settings = List (ℕ × ℕ)

pub record SettingsPayload : Type 0 where
  pub ack : Bool
  pub settings : Option Settings
  pub entries : List (ℕ × ℕ)

pub record PushPromisePayload : Type 0 where
  pub promised_stream_id : ℕ
  pub header_block : Bytes
  pub end_headers : Bool
  pub padded : Bool

pub record PingPayload : Type 0 where
  pub content : Bytes
  pub ack : Bool

pub record GoawayPayload : Type 0 where
  pub last_stream_id : ℕ
  pub error_code : ℕ
  pub debug_data : Bytes

pub record WindowUpdatePayload : Type 0 where
  pub increment : ℕ

pub record ContinuationPayload : Type 0 where
  pub header_block : Bytes
  pub end_headers : Bool

pub record AltSvcPayload : Type 0 where
  pub origin : Bytes
  pub field_value : Bytes

pub record OriginPayload : Type 0 where
  pub origins : List Bytes

pub record PriorityUpdatePayload : Type 0 where
  pub prioritized_stream_id : ℕ
  pub priority_field_value : Bytes

-- The text of an error: a fixed one, or one that shows two numbers. `stuck` is none of Python's: a
-- loop ran out of fuel.
pub data Message : Type 0 where
  plain : String → Message
  need_have : ℕ → ℕ → Message
  size_exceeds : ℕ → ℕ → Message
  expected_read : ℕ → ℕ → Message
  stuck : Message

-- str(error)
unfoldable pub message_text : Message → List ℕ
message_text (plain s) = codes s
message_text (need_have n k) =
    codes "Insufficient data: need " ++ (str n ++ (codes " bytes, have " ++ str k))
message_text (size_exceeds n k) =
    codes "Frame size " ++ (str n ++ (codes " exceeds maximum " ++ str k))
message_text (expected_read n k) =
    codes "Payload: expected " ++ (str n ++ (codes " bytes, read " ++ str k))
message_text stuck = codes ""

-- HTTP2FrameParsingError
pub record FrameError : Type 0 where
  pub message : Message
  pub code : ℕ

pub record UnknownPayload : Type 0 where
  pub unknown_type : ℕ
  pub raw_payload : Bytes
  pub parse_error : Option Message
  pub error_code : Option ℕ

-- PayloadType
pub data Payload : Type 0 where
  data_payload : DataPayload → Payload
  headers_payload : HeadersPayload → Payload
  priority_info : PriorityInfo → Payload
  rst_stream_payload : RstStreamPayload → Payload
  settings_payload : SettingsPayload → Payload
  push_promise_payload : PushPromisePayload → Payload
  ping_payload : PingPayload → Payload
  goaway_payload : GoawayPayload → Payload
  window_update_payload : WindowUpdatePayload → Payload
  continuation_payload : ContinuationPayload → Payload
  altsvc_payload : AltSvcPayload → Payload
  origin_payload : OriginPayload → Payload
  priority_update_payload : PriorityUpdatePayload → Payload
  unknown_payload : UnknownPayload → Payload

pub record ParsedFrame : Type 0 where
  pub header : FrameHeader
  pub payload : Payload
  pub raw : Bytes
