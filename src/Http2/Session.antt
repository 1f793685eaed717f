-- ===== src/Http2/Session.antt =====
-- solvetls/http2/session.py: `HTTP2Session`. h2 and the transport are parameters; see `Library`.
pub mod Events
pub mod Process
pub mod Receive
pub mod Keeps
pub mod Limits
pub mod Ends
pub mod Calls
pub mod Requests
use solvetls.Base.{
  ℕ, zero, suc, ◌+◌, ◌-◌, ◌%◌, min, Bool, true, false, not, ◌&&◌, ◌||◌, List, [], ◌∷◌, ◌++◌, map,
  length, take, drop, Option, none, some, String, ltb, leb, ◌==◌, if◌then◌else◌,
}
use solvetls.Base.Text.{codes, str}
use solvetls.Base.Sort.{Text}
use solvetls.Exec.{Result, ok, err, Exec, pure, raise, gets, modify, ◌>>=◌, ◌>>◌}
use solvetls.Wire.Bytes.{Bytes}
use solvetls.Http2.Capture.{Capture}
use solvetls.Http2.Frames.Codes.{protocol_error}
use solvetls.Http2.Validation.{Fields, ProtocolError}
use solvetls.Http2.Library.{LibraryError, protocol, foreign, Library}
use solvetls.Http2.Adapter.Connection.{
  Adapter, AdapterError, h2_error, unexpected_response, builder_error, Adapting, on_h2, take_output,
}
use solvetls.Http2.Frames.Build.{BuildError}

abbrev pub http2_preface : Bytes
http2_preface = codes "PRI * HTTP/2.0\r\n\r\nSM\r\n\r\n"

abbrev pub server_max_frame_size : ℕ
server_max_frame_size = 65536

abbrev pub max_capture_bytes : ℕ
max_capture_bytes = 2097152

abbrev pub max_capture_frames : ℕ
max_capture_frames = 4096

abbrev pub max_capture_entries : ℕ
max_capture_entries = 1024

abbrev pub max_header_list_size : ℕ
max_header_list_size = 65536

-- The exceptions that leave a method: those of h2 and of the transport, and ProtocolError;
-- ConnectionResetError and RuntimeError; an AttributeError, where the session reads an attribute that its
-- object has not; a KeyError, where a dict has no such key; and a ValueError of the builder of frames.
-- `stuck` is none of Python's: a loop ran out of fuel.
pub data SessionError : Type 0 where
  library_error : LibraryError → SessionError
  connection_reset : String → SessionError
  runtime_error : String → SessionError
  attribute_error : SessionError
  key_error : SessionError
  value_error : BuildError → SessionError
  stuck : SessionError

-- `HTTP2Transport` on states of type `T`.
pub record Transport (T : Type 0) : Type 0 where
  pub read : Exec T LibraryError Bytes
  pub write : Bytes → Exec T LibraryError (Unit {0})

pub record Session (C T : Type 0) : Type 0 where
  pub transport : T
  pub capture : Capture
  pub connection : Adapter C
  pub buffer : Bytes
  pub capture_bytes : ℕ
  pub capture_entries : ℕ
  pub first_frame : Bool
  pub continuation_stream : Option ℕ
  pub header_block_bytes : ℕ
  pub prioritized_idle_streams : List ℕ
  pub request_ready : Bool
  pub request_bytes : ℕ
  pub expected_length : Option ℕ
  pub cancelled : Bool
  pub initialized : Bool
  pub closed : Bool

abbrev pub empty_capture : Capture
empty_capture = record {
  frames = [];
  initial_settings = none;
  headers = none;
  trailers = [];
  stream_id = none;
  expectation_failed = false;
}

-- HTTP2Session(transport), with an adapter to which the server's settings have been given.
unfoldable pub new_session : {C T : Type 0} → T → C → Session C T
new_session transport h2 = record {
  transport = transport;
  capture = empty_capture;
  connection = record { h2 = h2; header_table_size_changes = 0 };
  buffer = [];
  capture_bytes = 0;
  capture_entries = 0;
  first_frame = true;
  continuation_stream = none;
  header_block_bytes = 0;
  prioritized_idle_streams = [];
  request_ready = false;
  request_bytes = 0;
  expected_length = none;
  cancelled = false;
  initialized = false;
  closed = false;
}

abbrev pub from_adapter : {A : Type 0} → Result AdapterError A → Result SessionError A
from_adapter (ok a) = ok a
from_adapter (err (h2_error e)) = err (library_error e)
from_adapter (err unexpected_response) =
    err (runtime_error "Unexpected response while applying SETTINGS")
from_adapter (err (builder_error e)) = err (value_error e)

abbrev pub from_transport : {A : Type 0} → Result LibraryError A → Result SessionError A
from_transport (ok a) = ok a
from_transport (err e) = err (library_error e)

-- if test: m
abbrev pub when : {S E : Type 0} → Bool → Exec S E (Unit {0}) → Exec S E (Unit {0})
when b m = if b then m else pure tt

-- data[len(HTTP2_PREFACE):], where data.startswith(HTTP2_PREFACE)
unfoldable pub strip_prefix : Bytes → Bytes → Option Bytes
strip_prefix [] xs = some xs
strip_prefix (p ∷ ps) [] = none
strip_prefix (p ∷ ps) (x ∷ xs) = let rest = strip_prefix ps xs in if p == x then rest else none

abbrev pub is_some : {A : Type 0} → Option A → Bool
is_some none = false
is_some (some a) = true

abbrev pub or_default : ℕ → Option ℕ → ℕ
or_default d none = d
or_default d (some n) = n

abbrev pub Serve : Type 0 → Type 0 → Type 0 → Type 0
Serve C T A = Exec (Session C T) SessionError A

-- What a session calls that is not in this repository: h2, the transport, `ipaddress`, and the validation
-- of h2 over the adapted fields.
pub record Environment (C T : Type 0) : Type 0 where
  pub library : Library C
  pub net : Transport T
  pub ipv6 : Text → Option Text
  pub h2_validate : Bool → Fields → Result ProtocolError (Unit {0})

-- A method of the adapter, of the h2 connection, or of the transport.
unfoldable pub on_connection : {C T A : Type 0} → Adapting C A → Serve C T A
on_connection m s = let (r, c) = m s.connection in (from_adapter r, record s { connection = c })

unfoldable pub on_transport : {C T A : Type 0} → Exec T LibraryError A → Serve C T A
on_transport m s = let (r, t) = m s.transport in (from_transport r, record s { transport = t })

unfoldable pub check_cancelled : {C T : Type 0} → Serve C T (Unit {0})
check_cancelled = do
  cancelled ← gets (λ s. s.cancelled)
  closed ← gets (λ s. s.closed)
  if cancelled
      then raise (connection_reset "HTTP/2 request stream was reset")
      else if closed
      then raise (connection_reset "HTTP/2 connection is closed")
      else pure tt

module _ {C T : Type 0} (env : Environment C T) where
  unfoldable pub flush : Serve C T (Unit {0})
  flush = do
    output ← on_connection (take_output env.library)
    when (not (length output == 0)) (on_transport (env.net.write output))

  unfoldable pub send_goaway : ℕ → Serve C T (Unit {0})
  send_goaway error_code = do
    stream ← gets (λ s. s.capture.stream_id)
    on_connection (on_h2 (env.library.close_connection error_code (some (or_default 0 stream))))
    modify (λ s. record s { closed = true })

  unfoldable pub close : ℕ → Serve C T (Unit {0})
  close error_code = do
    closed ← gets (λ s. s.closed)
    when (not closed) (send_goaway error_code)
    flush

  unfoldable pub fail : {A : Type 0} → Text → ℕ → Serve C T A
  fail message error_code = do close error_code; raise (library_error (protocol message error_code))

  abbrev pub fail_protocol : {A : Type 0} → String → Serve C T A
  fail_protocol message = fail (codes message) protocol_error
