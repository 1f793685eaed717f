-- ===== src/Tests/Frames.antt =====
-- Frames: runs of `parse_frame` that can be followed in the source, and its theorems there.
use solvetls.Base.{ℕ, ◌≡◌, refl, arith, true, false, none, some, List, [], ◌∷◌, ◌++◌}
use solvetls.Exec.{ok}
use solvetls.Exec.Steps.{Steps}
use solvetls.Wire.Bytes.{Bytes}
use solvetls.Http2.Frames.Codes.{frame_size_error}
use solvetls.Http2.Frames.Data.{
  FrameHeader, ping_payload, SettingsPayload, settings_payload, unknown_payload, plain, Payload,
  ParsedFrame,
}
use solvetls.Http2.Frames.Cursor.{FrameReader, new_frame_reader}
use solvetls.Http2.Frames.Cursor.Bounds.{Moves}
use solvetls.Http2.Frames.Payloads.{parse_payload_by_type}
use solvetls.Http2.Frames.Payloads.Bounds.{parse_payload_by_type-Moves}
use solvetls.Http2.Frames.Settings.{parse_settings}
use solvetls.Http2.Frames.Settings.Valid.{IsAccepted, parse_settings-IsAccepted}
use solvetls.Http2.Frames.Parse.{parse_frame, read_header, frames_code}
use solvetls.Http2.Frames.Parse.Header.{header_at, header_answer, read_header_lem}
use solvetls.Http2.Frames.Parse.Exact.{Exact, parse_frame-Exact}
use solvetls.Http2.Frames.Parse.Forensic.{IsComplete, ReturnsOrLimit, parse_frame-returns}
use solvetls.Http2.Frames.Build.{build_headers_frame}
use solvetls.Http2.Frames.Build.RoundTrip.{headers_frame, parse_frame-build_headers_frame}

-- PING with ACK, and a byte of the next frame.
abbrev ping_wire : Bytes
ping_wire = 0 ∷ 0 ∷ 8 ∷ 6 ∷ 1 ∷ 0 ∷ 0 ∷ 0 ∷ 0 ∷ 1 ∷ 2 ∷ 3 ∷ 4 ∷ 5 ∷ 6 ∷ 7 ∷ 8 ∷ []

abbrev ping_reader : FrameReader
ping_reader = record {
  dat = ping_wire ++ 99 ∷ [];
  pos = 0;
  max_frame_size = 16384;
  strict_padding = true;
  forensic = false;
  payload_end = none;
  max_entries = none;
  entries_read = 0;
}

abbrev ping_frame : ParsedFrame
ping_frame = record {
  header = record { length = 8; type = 6; flags = 1; stream_id = 0 };
  payload = ping_payload (record { content = 1 ∷ 2 ∷ 3 ∷ 4 ∷ 5 ∷ 6 ∷ 7 ∷ 8 ∷ []; ack = true });
  raw = ping_wire;
}

ping_parsed : parse_frame ping_reader ≡ (ok ping_frame, record ping_reader { pos = 17 })
unfolding frames_code
ping_parsed = refl

parse_frame-Exact_example : Exact ping_reader ping_frame (record ping_reader { pos = 17 })
parse_frame-Exact_example =
    parse_frame-Exact ping_reader (record ping_reader { pos = 17 }) ping_frame refl ping_parsed

read_header_lem_example : read_header ping_reader ≡ header_answer ping_reader refl
read_header_lem_example = read_header_lem ping_reader refl

-- A PING of four bytes, in forensic capture.
abbrev short_ping : FrameReader
short_ping = record {
  dat = 0 ∷ 0 ∷ 4 ∷ 6 ∷ 0 ∷ 0 ∷ 0 ∷ 0 ∷ 0 ∷ 1 ∷ 2 ∷ 3 ∷ 4 ∷ [];
  pos = 0;
  max_frame_size = 16384;
  strict_padding = false;
  forensic = true;
  payload_end = none;
  max_entries = some 10;
  entries_read = 0;
}

short_ping_kept :
    (parse_frame short_ping).0
    ≡ ok (record {
      header = record { length = 4; type = 6; flags = 0; stream_id = 0 };
      payload = unknown_payload (record {
        unknown_type = 6;
        raw_payload = 1 ∷ 2 ∷ 3 ∷ 4 ∷ [];
        parse_error = some (plain "PING frame must be 8 bytes");
        error_code = some frame_size_error;
      });
      raw = short_ping.dat;
    })
unfolding frames_code
short_ping_kept = refl

short_ping-IsComplete : IsComplete short_ping
unfolding header_at frames_code
short_ping-IsComplete = omega arith

parse_frame-returns_example : ReturnsOrLimit (parse_frame short_ping).0
parse_frame-returns_example = parse_frame-returns short_ping refl short_ping-IsComplete refl

parse_frame-build_headers_frame_example :
    (wire : Bytes) × (build_headers_frame 1 (0x82 ∷ 0x84 ∷ []) true true ≡ ok wire)
    × ((parse_frame (new_frame_reader (wire ++ 7 ∷ []) 65536 false true (some 5))).0
        ≡ ok (headers_frame 1 (0x82 ∷ 0x84 ∷ []) true true wire))
parse_frame-build_headers_frame_example =
    parse_frame-build_headers_frame 1 65536 (0x82 ∷ 0x84 ∷ []) (7 ∷ []) true true false true
      (some 5) (omega arith) (omega arith) (omega arith) (omega arith)

-- MAX_CONCURRENT_STREAMS twice: 100, then 200.
abbrev settings_header : FrameHeader
settings_header = record { length = 12; type = 4; flags = 0; stream_id = 0 }

abbrev settings_reader : FrameReader
settings_reader = record {
  dat = 0 ∷ 3 ∷ 0 ∷ 0 ∷ 0 ∷ 100 ∷ 0 ∷ 3 ∷ 0 ∷ 0 ∷ 0 ∷ 200 ∷ [];
  pos = 0;
  max_frame_size = 16384;
  strict_padding = true;
  forensic = false;
  payload_end = some 12;
  max_entries = some 2;
  entries_read = 0;
}

abbrev settings_parsed : Payload
settings_parsed =
    settings_payload
      (record { ack = false; settings = some ((3, 200) ∷ []); entries = (3, 100) ∷ (3, 200) ∷ [] })

parse_settings_twice :
    parse_settings settings_header settings_reader
    ≡ (ok settings_parsed, record settings_reader { pos = 12; entries_read = 2 })
unfolding frames_code
parse_settings_twice = refl

parse_settings-IsAccepted_example :
    (p : SettingsPayload) × (d : List (ℕ × ℕ)) × (settings_parsed ≡ settings_payload p)
    × IsAccepted settings_header p d
parse_settings-IsAccepted_example =
    parse_settings-IsAccepted settings_header settings_reader
      (record settings_reader { pos = 12; entries_read = 2 }) settings_parsed refl
      parse_settings_twice

abbrev origin_header : FrameHeader
origin_header = record { length = 5; type = 12; flags = 0; stream_id = 0 }

parse_payload_by_type-Moves_example : Steps Moves (parse_payload_by_type origin_header)
parse_payload_by_type-Moves_example = parse_payload_by_type-Moves origin_header
