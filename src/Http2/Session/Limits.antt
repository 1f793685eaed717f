-- ===== src/Http2/Session/Limits.antt =====
-- The limits on what a session captures.
pub mod Admits
pub mod Rounds
pub mod Received
pub mod Serves
use solvetls.Base.{
  ℕ, ◌+◌, ◌-◌, ◌≤◌, ◌<◌, min, ◌≡◌, refl, sym, ap, ap₂, subst, ◌∙◌, arith, Bool, true, false, List,
  [], ◌∷◌, ◌++◌, append-nil, append_assoc, length, take, drop, length-append, length-take,
  length-drop, take-append, take-append-drop, Option, none, some, ltb, leb, ltb_false→le,
  if◌then◌else◌, Bool-cases, inl, inr,
}
use solvetls.Exec.{Result, ok, err}
use solvetls.Exec.Run.{Result-cases}
use solvetls.Wire.Bytes.{Bytes, unpack, unpack_from}
use solvetls.Http2.Frames.Data.{FrameHeader, ParsedFrame, FrameError}
use solvetls.Http2.Frames.Cursor.{FrameReader, over_budget, new_frame_reader}
use solvetls.Http2.Frames.Parse.{parse_frame}
use solvetls.Http2.Frames.Parse.Header.{header_at}
use solvetls.Http2.Frames.Parse.Exact.{Exact, parse_frame-Exact}
use solvetls.Http2.Session.{Session, max_capture_bytes, max_capture_frames, max_capture_entries}
use solvetls.Http2.Session.Receive.{declared, reader_for}

-- The bytes of the captured frames, one behind the other.
unfoldable pub raw_bytes : List ParsedFrame → Bytes
raw_bytes [] = []
raw_bytes (f ∷ fs) = f.raw ++ raw_bytes fs

-- The bytes that a session holds: those of its frames, and those that wait for the rest of a frame.
abbrev pub wire_of : {C T : Type 0} → Session C T → Bytes
wire_of s = raw_bytes s.capture.frames ++ s.buffer

pub record IsWithin {C T : Type 0} (s : Session C T) : Type 0 where
  pub frames : length s.capture.frames ≤ max_capture_frames
  pub entries : s.capture_entries ≤ max_capture_entries
  pub counted : length (wire_of s) ≤ s.capture_bytes
  pub stored : length (wire_of s) ≤ max_capture_bytes

pub raw_bytes-append :
    (fs : List ParsedFrame) (f : ParsedFrame) → raw_bytes (fs ++ f ∷ []) ≡ raw_bytes fs ++ f.raw
unfolding raw_bytes
raw_bytes-append [] f = append-nil f.raw
raw_bytes-append (g ∷ fs) f =
    ap (λ t. g.raw ++ t) (raw_bytes-append fs f) ∙ sym (append_assoc g.raw (raw_bytes fs) f.raw)

take_all : (n : ℕ) (xs : Bytes) → length xs ≡ n → take n xs ≡ xs
take_all n xs h =
    ap (λ k. take k xs) (sym h) ∙ (ap (take (length xs)) (sym (append-nil xs)) ∙ take-append xs [])

-- A reader that holds the bytes of one frame and no others gives a frame of those bytes, and reserves no
-- more entries than are left.
pub whole_frame :
    (wire : Bytes) (maximum entries : ℕ) (f : ParsedFrame) (r : FrameReader)
    → entries ≤ max_capture_entries
    → length wire ≡ 9 + declared wire
    → parse_frame (reader_for wire maximum entries) ≡ (ok f, r)
    → (f.raw ≡ wire) × (entries + r.entries_read ≤ max_capture_entries)
unfolding new_frame_reader header_at unpack unpack_from
whole_frame wire maximum entries f r le size e =
    let x = parse_frame-Exact (reader_for wire maximum entries) r f refl e in
    let same : f.header.length ≡ declared wire = ap (λ (h : FrameHeader). h.length) x.header in
    let left : over_budget (some (max_capture_entries - entries)) r.entries_read ≡ false =
      subst (λ b. over_budget b r.entries_read ≡ false) x.keeps.same_budget
        (x.keeps.budget (ground arith)) in
    (
      x.raw ∙ take_all (9 + f.header.length) wire (omega (arith, size, same)),
      omega (arith, ltb_false→le (max_capture_entries - entries) r.entries_read left),
    )
