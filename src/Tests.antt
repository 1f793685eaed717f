-- ===== src/Tests.antt =====
-- Runs at concrete inputs, and the theorems at inputs that meet their hypotheses.
mod Frames
mod Hello
mod Fields
mod Requests
mod Sessions
mod Uris
mod Heads
mod Redirects
mod Records
