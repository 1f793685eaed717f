-- ===== src/Http2/Frames/Parse/Errors.antt =====
-- What `HTTP2FrameReader.parse_frame` may raise, on any buffer and from any state.
use solvetls.Base.{ℕ, Option}
use solvetls.Exec.{Result, ok, err, raise, modify, handle, try_except, try_finally}
use solvetls.Exec.Raises.{OnError, Raises, Raises-raise}
use solvetls.Http2.Frames.Data.{FrameHeader, Payload, FrameError, size_exceeds}
use solvetls.Http2.Frames.Cursor.{FrameReader, size_fault}
use solvetls.Http2.Frames.Payloads.Errors.{Known, known_rules, size_fault-Known}
use solvetls.Http2.Frames.Parse.{
  read_header, read_payload, set_end, keep_malformed, recover, parse_body, parse_frame,
}
use solvetls.Http2.Frames.Parse.Forensic.{read_payload-Known}

size_exceeds-Known : (n k : ℕ) → Known (size_fault (size_exceeds n k))
size_exceeds-Known n k = size_fault-Known (size_exceeds n k) (λ p. cc p)

read_header-Known : Raises Known read_header
unfolding read_header
read_header-Known = search (known_rules, size_exceeds-Known) depth 14

modify-Known : (f : FrameReader → FrameReader) → Raises Known (modify f)
modify-Known f = record { at = λ s. tt }

raise-Known : (e : FrameError) → Known e → Raises {S = FrameReader} {A = Payload} Known (raise e)
raise-Known e k = Raises-raise k

recover-Known :
    (h : FrameHeader) (start : ℕ) (e : FrameError) → Known e → Raises Known (recover h start e)
unfolding recover keep_malformed
recover-Known h start e k = search (known_rules, modify-Known, raise-Known, k) depth 9

handled-Known :
    (h : FrameHeader) (start : ℕ) (x : Result FrameError Payload × FrameReader)
    → OnError Known x.0
    → OnError Known (handle (recover h start) x).0
handled-Known h start (ok p, u) k = tt
handled-Known h start (err e, u) k = (recover-Known h start e k).at u

guarded-Known :
    (h : FrameHeader) (start : ℕ)
    → Raises Known
        (try_finally (try_except (read_payload h start) (recover h start)) (set_end Option.none))
unfolding try_finally try_except
guarded-Known h start = record {
  at = λ s. handled-Known h start (read_payload h start s) ((read_payload-Known h start).at s);
}

parse_body-Known : (h : FrameHeader) (start : ℕ) → Raises Known (parse_body h start)
unfolding parse_body
parse_body-Known h start = search (known_rules, modify-Known, guarded-Known) depth 5

-- Whatever the buffer holds and however the reader is configured, an error that `parse_frame` raises
-- is never that a loop ran out of fuel, and one with the code ENHANCE_YOUR_CALM is the error of the
-- entry limit.
pub parse_frame-Known : Raises Known parse_frame
unfolding parse_frame
parse_frame-Known = search (known_rules, read_header-Known, parse_body-Known) depth 9
