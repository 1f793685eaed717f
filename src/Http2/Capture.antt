-- ===== src/Http2/Capture.antt =====
-- solvetls/http2/session.py: `HTTP2Capture`, what a session keeps for the report.
use solvetls.Base.{ℕ, Bool, List, Option}
use solvetls.Wire.Bytes.{Bytes}
use solvetls.Http2.Frames.Data.{ParsedFrame}

pub record Capture : Type 0 where
  pub frames : List ParsedFrame
  pub initial_settings : Option (List (ℕ × ℕ))
  pub headers : Option (List (Bytes × Bytes))
  pub trailers : List (Bytes × Bytes)
  pub stream_id : Option ℕ
  pub expectation_failed : Bool
