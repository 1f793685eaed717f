-- ===== src/Http2/Frames/Codes.antt =====
-- solvetls/http2/frames.py: `FrameType`, `FrameFlags`, `ErrorCode`, `SettingsIdentifier`, and the
-- sizes of the protocol.
use solvetls.Base.{ℕ}

-- FrameType
abbrev pub data_type : ℕ
data_type = 0

abbrev pub headers_type : ℕ
headers_type = 1

abbrev pub priority_type : ℕ
priority_type = 2

abbrev pub rst_stream_type : ℕ
rst_stream_type = 3

abbrev pub settings_type : ℕ
settings_type = 4

abbrev pub push_promise_type : ℕ
push_promise_type = 5

abbrev pub ping_type : ℕ
ping_type = 6

abbrev pub goaway_type : ℕ
goaway_type = 7

abbrev pub window_update_type : ℕ
window_update_type = 8

abbrev pub continuation_type : ℕ
continuation_type = 9

abbrev pub altsvc_type : ℕ
altsvc_type = 10

abbrev pub origin_type : ℕ
origin_type = 12

abbrev pub priority_update_type : ℕ
priority_update_type = 16

-- FrameFlags
abbrev pub end_stream_flag : ℕ
end_stream_flag = 0x01

abbrev pub end_headers_flag : ℕ
end_headers_flag = 0x04

abbrev pub padded_flag : ℕ
padded_flag = 0x08

abbrev pub priority_flag : ℕ
priority_flag = 0x20

abbrev pub ack_flag : ℕ
ack_flag = 0x01

-- ErrorCode
abbrev pub no_error : ℕ
no_error = 0

abbrev pub protocol_error : ℕ
protocol_error = 1

abbrev pub internal_error : ℕ
internal_error = 2

abbrev pub flow_control_error : ℕ
flow_control_error = 3

abbrev pub settings_timeout : ℕ
settings_timeout = 4

abbrev pub stream_closed : ℕ
stream_closed = 5

abbrev pub frame_size_error : ℕ
frame_size_error = 6

abbrev pub refused_stream : ℕ
refused_stream = 7

abbrev pub cancel : ℕ
cancel = 8

abbrev pub compression_error : ℕ
compression_error = 9

abbrev pub connect_error : ℕ
connect_error = 10

abbrev pub enhance_your_calm : ℕ
enhance_your_calm = 11

abbrev pub inadequate_security : ℕ
inadequate_security = 12

abbrev pub http_1_1_required : ℕ
http_1_1_required = 13

-- SettingsIdentifier
abbrev pub header_table_size : ℕ
header_table_size = 1

abbrev pub enable_push : ℕ
enable_push = 2

abbrev pub max_concurrent_streams : ℕ
max_concurrent_streams = 3

abbrev pub initial_window_size : ℕ
initial_window_size = 4

abbrev pub max_frame_size_setting : ℕ
max_frame_size_setting = 5

abbrev pub max_header_list_size : ℕ
max_header_list_size = 6

abbrev pub enable_connect_protocol : ℕ
enable_connect_protocol = 8

abbrev pub no_rfc7540_priorities : ℕ
no_rfc7540_priorities = 9

-- Sizes
abbrev pub frame_header_size : ℕ
frame_header_size = 9

abbrev pub default_max_frame_size : ℕ
default_max_frame_size = 16384

abbrev pub max_allowed_frame_size : ℕ
max_allowed_frame_size = 16777215

abbrev pub max_stream_id : ℕ
max_stream_id = 0x7fffffff

abbrev pub reserved_bit_mask : ℕ
reserved_bit_mask = 0x80000000

abbrev pub ping_payload_size : ℕ
ping_payload_size = 8

abbrev pub priority_payload_size : ℕ
priority_payload_size = 5

abbrev pub rst_stream_payload_size : ℕ
rst_stream_payload_size = 4

abbrev pub window_update_payload_size : ℕ
window_update_payload_size = 4

abbrev pub settings_entry_size : ℕ
settings_entry_size = 6
