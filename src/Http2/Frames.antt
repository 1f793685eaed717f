-- ===== src/Http2/Frames.antt =====
-- solvetls/http2/frames.py: constants (`Codes`), frames as data (`Data`), the cursor of
-- `HTTP2FrameReader` (`Cursor`), its payload parsers (`Settings` has that of SETTINGS, `Payloads` the
-- others), `parse_frame` (`Parse`) and
-- `HTTP2FrameBuilder` (`Build`). The proofs are in the modules below these.
pub mod Codes
pub mod Data
pub mod Cursor
pub mod Settings
pub mod Payloads
pub mod Parse
pub mod Build
