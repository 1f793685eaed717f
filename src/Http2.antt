-- ===== src/Http2.antt =====
-- solvetls/http2: `Frames` is frames.py, `Capture` the data that a session keeps for the report,
-- `Adapter` and `Session` are adapter.py and session.py over the h2 of `Library`, and `Validation` is
-- validation.py.
pub mod Frames
pub mod Capture
pub mod Adapter
pub mod Validation
pub mod Library
pub mod Session
