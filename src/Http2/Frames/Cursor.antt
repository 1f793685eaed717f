-- ===== src/Http2/Frames/Cursor.antt =====
-- solvetls/http2/frames.py: the state of `HTTP2FrameReader` and its reads.
pub mod Bounds
use solvetls.Base.{
  ℕ, ◌+◌, ◌-◌, min, Bool, true, false, not, ◌&&◌, Option, none, some, length, take, drop, any, ltb,
  leb, ◌==◌, bit_and, if◌then◌else◌,
}
use mathlib.Core.List.{◌∷◌}
use solvetls.Exec.{Result, ok, err, Exec, pure, gets, ◌>>=◌, ◌>>◌, raise_if, raise}
use solvetls.Wire.Bytes.{Bytes, unpack}
use solvetls.Http2.Frames.Codes.{
  protocol_error, frame_size_error, enhance_your_calm, max_allowed_frame_size, max_stream_id,
  reserved_bit_mask, padded_flag,
}
use solvetls.Http2.Frames.Data.{FrameHeader, PriorityInfo, FrameError, Message, plain, need_have}

pub record FrameReader : Type 0 where
  pub dat : Bytes
  pub pos : ℕ
  pub max_frame_size : ℕ
  pub strict_padding : Bool
  pub forensic : Bool
  pub payload_end : Option ℕ
  pub max_entries : Option ℕ
  pub entries_read : ℕ

abbrev pub Read : Type 0 → Type 0
Read A = Exec FrameReader FrameError A

-- HTTP2FrameReader(data, max_frame_size, strict_padding, forensic, max_entries)
unfoldable pub new_frame_reader : Bytes → ℕ → Bool → Bool → Option ℕ → FrameReader
new_frame_reader xs size strict forensic entries = record {
  dat = xs;
  pos = 0;
  max_frame_size = min size max_allowed_frame_size;
  strict_padding = strict;
  forensic = forensic;
  payload_end = none;
  max_entries = entries;
  entries_read = 0;
}

-- An error with the default code, PROTOCOL_ERROR, and one with the code of a wrong size.
abbrev pub protocol_fault : Message → FrameError
protocol_fault m = record { message = m; code = protocol_error }

abbrev pub size_fault : Message → FrameError
size_fault m = record { message = m; code = frame_size_error }

abbrev pub entry_limit_fault : FrameError
entry_limit_fault = record {
  message = plain "HTTP/2 decoded entry limit exceeded";
  code = enhance_your_calm;
}

-- flags & flag, as a truth value
abbrev pub has_flag : ℕ → ℕ → Bool
has_flag flags flag = not (bit_and flags flag == 0)

abbrev pub over_budget : Option ℕ → ℕ → Bool
over_budget none n = false
over_budget (some m) n = ltb m n

unfoldable pub reserve_entries : ℕ → Read (Unit {0})
reserve_entries count r =
    if over_budget r.max_entries (r.entries_read + count)
    then (err entry_limit_fault, r)
    else (ok tt, record r { entries_read = r.entries_read + count })

abbrev pub end_or : Option ℕ → ℕ → ℕ
end_or none n = n
end_or (some e) n = e

-- Where `_read` stops: the end of the payload that is being parsed, or of the buffer.
abbrev pub limit : FrameReader → ℕ
limit r = end_or r.payload_end (length r.dat)

-- Every length that is passed is not negative: the callers test theirs first.
unfoldable pub read : ℕ → Read Bytes
read n r =
    if ltb (limit r) (r.pos + n)
    then (err (size_fault (need_have n (limit r - r.pos))), r)
    else (ok (take n (drop r.pos r.dat)), record r { pos = r.pos + n })

unfoldable pub read_uint8 : Read ℕ
read_uint8 = do bs ← read 1; pure (unpack bs)

unfoldable pub read_uint16 : Read ℕ
read_uint16 = do bs ← read 2; pure (unpack bs)

unfoldable pub read_uint24 : Read ℕ
read_uint24 = do bs ← read 3; pure (unpack (0 ∷ bs))

unfoldable pub read_uint32 : Read ℕ
read_uint32 = do bs ← read 4; pure (unpack bs)

unfoldable pub read_uint32_with_reserved : Read ℕ
read_uint32_with_reserved = do n ← read_uint32; pure (bit_and n max_stream_id)

unfoldable pub read_priority : Read PriorityInfo
read_priority = do
  raw_dependency ← read_uint32
  w ← read_uint8
  pure (record {
    exclusive = has_flag raw_dependency reserved_bit_mask;
    dependency = bit_and raw_dependency max_stream_id;
    weight = w + 1;
  })

unfoldable pub read_padding_length : FrameHeader → Read ℕ
read_padding_length header = if not (has_flag header.flags padded_flag) then pure 0 else (do
  n ← read_uint8
  raise_if (leb header.length n) (protocol_fault (plain "Invalid padding length"))
  pure n)

unfoldable pub skip_padding : ℕ → Read (Unit {0})
skip_padding n = do
  padding ← read n
  strict ← gets (λ r. r.strict_padding)
  raise_if (strict && any (λ b. not (b == 0)) padding)
      (protocol_fault (plain "Padding must be zero"))

unfoldable pub has_more_frames : FrameReader → Bool
has_more_frames r = ltb r.pos (length r.dat)
