-- ===== src/Http2/Frames/Parse/Forensic.antt =====
-- Malformed frames that are kept: in forensic capture, and for the extensions that a server ignores.
use solvetls.Base.{
  ℕ, ◌+◌, ◌≤◌, ◌≡◌, ◌∙◌, Bool, true, ◌||◌, none, some, le→ltb, ◌==◌, ==_iff, Bool-cases, inl, inr,
}
use solvetls.Exec.{Result, ok, err, continue, handle, try_except, try_finally, ◌>>=◌, ◌>>◌}
use solvetls.Exec.Raises.{OnError, Raises}
use solvetls.Http2.Frames.Codes.{enhance_your_calm, frame_header_size}
use solvetls.Http2.Frames.Data.{FrameHeader, Payload, ParsedFrame, FrameError, expected_read}
use solvetls.Http2.Frames.Cursor.{FrameReader, Read, size_fault, entry_limit_fault}
use solvetls.Http2.Frames.Payloads.Errors.{
  Known, known_rules, size_fault-Known, parse_payload_by_type-Known,
}
use solvetls.Http2.Frames.Parse.{
  available, read_header, set_end, read_payload, keep_malformed, recover, parse_body, parse_frame,
  is_ignorable,
}
use solvetls.Http2.Frames.Parse.Header.{advance, header_at, read_header_lem}
use solvetls.Http2.Frames.Parse.Exact.{read_payload-Moves}

expected_read-Known : (n k : ℕ) → Known (size_fault (expected_read n k))
expected_read-Known n k = size_fault-Known (expected_read n k) (λ p. cc p)

pub read_payload-Known : (h : FrameHeader) (start : ℕ) → Raises Known (read_payload h start)
unfolding read_payload
read_payload-Known h start =
    search (known_rules, parse_payload_by_type-Known, expected_read-Known) depth 8

-- Whether an error in the payload of a frame of this type is kept as a payload.
abbrev pub keeps_malformed : FrameReader → ℕ → Bool
keeps_malformed r t = r.forensic || is_ignorable t

-- An answer that is a frame, or the error of the entry limit.
abbrev pub ReturnsOrLimit : {A : Type 0} → Result FrameError A → Type 0
ReturnsOrLimit (ok a) = Unit {0}
ReturnsOrLimit (err e) = e ≡ entry_limit_fault

recover-returns :
    (h : FrameHeader) (start : ℕ) (e : FrameError) (s : FrameReader)
    → Known e
    → keeps_malformed s h.type ≡ true
    → ReturnsOrLimit (recover h start e s).0
unfolding recover keep_malformed ◌>>=◌ ◌>>◌
recover-returns h start e s k m = elim (Bool-cases (e.code == enhance_your_calm)) [
  | inl calm ↦ rw calm (k.1 ((==_iff e.code enhance_your_calm).0 calm))
  | inr other ↦ elim (Bool-cases s.forensic) [
    | inl f ↦ rw (other, f) tt
    | inr n ↦ rw (other, n, (rw n at m)) tt
  ]
]

handled-returns :
    (h : FrameHeader) (start : ℕ) (x : Result FrameError Payload × FrameReader)
    → OnError Known x.0
    → keeps_malformed x.1 h.type ≡ true
    → ReturnsOrLimit (handle (recover h start) x).0
handled-returns h start (ok p, u) k m = tt
handled-returns h start (err e, u) k m = recover-returns h start e u k m

parse_body-returns :
    (h : FrameHeader) (start : ℕ) (s : FrameReader)
    → keeps_malformed s h.type ≡ true
    → ReturnsOrLimit (parse_body h start s).0
unfolding parse_body try_finally try_except ◌>>=◌ ◌>>◌
parse_body-returns h start s m =
    let inner = set_end (some (start + h.length)) s in
    let k = (read_payload-Moves h start).run inner in
    handled-returns h start (read_payload h start inner) ((read_payload-Known h start).at inner)
      (rw k.same_forensic m)

-- The header and the whole payload are in the buffer, and the payload is no longer than allowed.
pub record IsComplete (s : FrameReader) : Type 0 where
  pub header_fits : frame_header_size ≤ available s
  pub size_fits : (header_at s).length ≤ s.max_frame_size
  pub payload_fits : (header_at s).length ≤ available (advance s 9)

pub read_header_complete :
    (s : FrameReader)
    → s.payload_end ≡ none
    → IsComplete s
    → read_header s ≡ (ok (header_at s), advance s 9)
read_header_complete s o c =
    read_header_lem s o
    ∙ rw (
      le→ltb (available s) 9 c.header_fits,
      le→ltb s.max_frame_size (header_at s).length c.size_fits,
      le→ltb (available (advance s 9)) (header_at s).length c.payload_fits,
    )

frame-returns :
    (x : Result FrameError Payload × FrameReader) (f : Payload → Read ParsedFrame)
    → ReturnsOrLimit x.0
    → ((p : Payload) → ReturnsOrLimit (f p x.1).0)
    → ReturnsOrLimit (continue f x).0
frame-returns (ok p, u) f h k = k p
frame-returns (err e, u) f h k = h

-- On a frame whose header and payload are all in the buffer, no longer than the maximum, and that is
-- read in forensic capture or is of type ALTSVC or ORIGIN, `parse_frame`, between two frames, returns
-- a frame or raises the error of the entry limit, however malformed the payload is.
pub parse_frame-returns :
    (s : FrameReader)
    → s.payload_end ≡ none
    → IsComplete s
    → keeps_malformed s (header_at s).type ≡ true
    → ReturnsOrLimit (parse_frame s).0
unfolding parse_frame ◌>>=◌
parse_frame-returns s o c m = rw (read_header_complete s o c) (
    frame-returns (parse_body (header_at s) (s.pos + 9) (advance s 9)) _
      (parse_body-returns (header_at s) (s.pos + 9) (advance s 9) m) (λ p. tt))
