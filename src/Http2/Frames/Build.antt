-- ===== src/Http2/Frames/Build.antt =====
-- solvetls/http2/frames.py: `HTTP2FrameBuilder`.
pub mod RoundTrip
use solvetls.Base.{
  ℕ, ◌+◌, Bool, true, false, not, ◌&&◌, List, [], ◌∷◌, ◌++◌, Option, none, some, length, drop, ltb,
  bit_or, if◌then◌else◌,
}
use solvetls.Exec.{Result, ok, err}
use solvetls.Wire.Bytes.{Bytes, pack}
use solvetls.Http2.Frames.Codes.{
  max_allowed_frame_size, max_stream_id, headers_type, settings_type, end_stream_flag,
  end_headers_flag, ack_flag,
}
use solvetls.Http2.Frames.Data.{Settings}

-- The two `ValueError`s of `_build_frame`.
pub data BuildError : Type 0 where
  length_exceeds stream_id_range : BuildError

-- `struct.pack("!BB", frame_type, flags)` and the identifier's `!I` are given numbers that fit: the
-- callers pass constants, flags below 256, and an identifier that has been checked.
unfoldable pub build_frame : ℕ → ℕ → ℕ → Bytes → Result BuildError Bytes
build_frame frame_type flags stream_id payload =
    if ltb max_allowed_frame_size (length payload)
    then err length_exceeds
    else if ltb max_stream_id stream_id
    then err stream_id_range
    else ok (
        drop 1 (pack 4 (length payload))
        ++ (pack 1 frame_type ++ (pack 1 flags ++ (pack 4 stream_id ++ payload))))

-- `flags |= flag`, if the test holds
abbrev pub with_flag : Bool → ℕ → ℕ → ℕ
with_flag b flag flags = if b then bit_or flags flag else flags

unfoldable pub build_headers_frame : ℕ → Bytes → Bool → Bool → Result BuildError Bytes
build_headers_frame stream_id header_block end_stream end_headers =
    build_frame headers_type
      (with_flag end_headers end_headers_flag (with_flag end_stream end_stream_flag 0)) stream_id
      header_block

-- struct.pack("!HI", id, value) for each item of the dict
unfoldable pub settings_wire : Settings → Bytes
settings_wire [] = []
settings_wire ((k, v) ∷ settings) = pack 2 k ++ (pack 4 v ++ settings_wire settings)

-- An empty dict and None are both false, and write nothing.
abbrev pub settings_body : Option Settings → Bytes
settings_body none = []
settings_body (some settings) = settings_wire settings

unfoldable pub build_settings_frame : Option Settings → Bool → Result BuildError Bytes
build_settings_frame settings ack =
    build_frame settings_type (if ack then ack_flag else 0) 0
      (if ack then [] else settings_body settings)
