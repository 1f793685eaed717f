-- ===== src/Http2/Session/Receive.antt =====
-- solvetls/http2/session.py: `_receive`, `initialize`, `receive_request` and `send_response`.
use solvetls.Base.{
  ℕ, zero, suc, ◌+◌, ◌-◌, ◌∷◌, [], ◌++◌, Bool, true, false, not, Option, none, some, length, take,
  drop, min, ltb, leb, ◌==◌, if◌then◌else◌,
}
use solvetls.Base.Text.{codes, str}
use solvetls.Exec.{Result, ok, err, pure, raise, gets, modify, ◌>>=◌, ◌>>◌}
use solvetls.Wire.Bytes.{Bytes, unpack}
use solvetls.HttpFields.Response.{Headers, put, prepare_response}
use solvetls.Http2.Frames.Codes.{frame_header_size, frame_size_error, enhance_your_calm}
use solvetls.Http2.Frames.Data.{ParsedFrame, FrameError, message_text}
use solvetls.Http2.Frames.Cursor.{FrameReader, new_frame_reader}
use solvetls.Http2.Frames.Parse.{slice, parse_frame}
use solvetls.Http2.Adapter.Connection.{on_h2, receive_data}
use solvetls.Http2.Session.{
  Session, connection_reset, runtime_error, stuck, Serve, Environment, on_connection, on_transport,
  when, http2_preface, max_capture_bytes, max_capture_frames, max_capture_entries, strip_prefix,
  check_cancelled, flush, fail, fail_protocol,
}
use solvetls.Http2.Session.Process.{process_frame}

module _ {C T : Type 0} where
  abbrev pub add_entries : ℕ → Session C T → Session C T
  add_entries n s = record s { capture_entries = s.capture_entries + n }

  abbrev pub add_frame : ParsedFrame → Session C T → Session C T
  add_frame frame s = record s {
    capture = record s.capture { frames = s.capture.frames ++ frame ∷ [] };
  }

  abbrev pub drop_buffer : ℕ → Session C T → Session C T
  drop_buffer n s = record s { buffer = drop n s.buffer }

  abbrev pub add_bytes : ℕ → Session C T → Session C T
  add_bytes n s = record s { capture_bytes = s.capture_bytes + n }

  abbrev pub extend_buffer : Bytes → Session C T → Session C T
  extend_buffer xs s = record s { buffer = s.buffer ++ xs }

-- The length that the first three bytes declare.
abbrev pub declared : Bytes → ℕ
declared xs = unpack (take 3 xs)

-- {":status": ..., **headers}
unfoldable pub merge : Headers → Headers → Headers
merge d [] = d
merge d ((k, v) ∷ headers) = merge (put k v d) headers

-- The reader of one frame, with what is left of the entries.
abbrev pub reader_for : Bytes → ℕ → ℕ → FrameReader
reader_for wire maximum entries =
    new_frame_reader wire maximum false true (some (max_capture_entries - entries))

module _ {C T : Type 0} (env : Environment C T) where
  unfoldable pub keep_frame : ParsedFrame → ℕ → Serve C T (Unit {0})
  keep_frame frame entries = do
    modify (add_entries entries)
    count ← gets (λ s. length s.capture.frames)
    when (leb max_capture_frames count)
        (fail env (codes "HTTP/2 frame count limit exceeded") enhance_your_calm)
    modify (add_frame frame)

  -- What follows the `try` around the parser, with its answer and the reader.
  abbrev pub admit : Bytes → Result FrameError ParsedFrame × FrameReader → Serve C T (Unit {0})
  admit wire (err e, reader) = fail env (message_text e.message) e.code
  admit wire (ok frame, reader) =
      keep_frame frame reader.entries_read >> process_frame env frame wire

  unfoldable pub take_frame : Bytes → ℕ → Serve C T (Unit {0})
  take_frame wire maximum = do
    entries ← gets (λ s. s.capture_entries)
    admit wire (parse_frame (reader_for wire maximum entries))

  unfoldable pub complete_frame : Bytes → ℕ → Serve C T Bool
  complete_frame buffer maximum =
      if ltb (length buffer) (frame_header_size + declared buffer) then pure false else (do
        modify (drop_buffer (frame_header_size + declared buffer))
        take_frame (take (frame_header_size + declared buffer) buffer) maximum
        pure true)

  unfoldable pub read_frame : Bytes → Serve C T Bool
  read_frame buffer = do
    maximum ← gets (λ s. env.library.max_inbound_frame_size s.connection.h2)
    when (ltb maximum (declared buffer))
        (fail env (codes "HTTP/2 frame size limit exceeded") frame_size_error)
    complete_frame buffer maximum

  -- One round of the `while` loop: whether there was a whole frame.
  unfoldable pub next_frame : Serve C T Bool
  next_frame = do
    buffer ← gets (λ s. s.buffer)
    if ltb (length buffer) frame_header_size then pure false else read_frame buffer

  -- The `while` loop, on fuel.
  unfoldable pub receive_frames : ℕ → Serve C T (Unit {0})
  receive_frames zero = raise stuck
  receive_frames (suc fuel) =
      let rest = receive_frames fuel in do more ← next_frame; if more then rest else pure tt

  -- Each frame takes nine bytes at least, so as many rounds as bytes, and one, are enough.
  unfoldable pub receive_buffered : Serve C T (Unit {0})
  receive_buffered = do size ← gets (λ s. length s.buffer); receive_frames (suc size)

  unfoldable pub count_bytes : ℕ → Serve C T (Unit {0})
  count_bytes n = do
    modify (add_bytes n)
    total ← gets (λ s. s.capture_bytes)
    when (ltb max_capture_bytes total)
        (fail env (codes "HTTP/2 capture limit exceeded") enhance_your_calm)

  unfoldable pub receive : Bytes → Serve C T (Unit {0})
  receive xs = do
    when (length xs == 0) (raise (connection_reset "HTTP/2 connection closed before completion"))
    count_bytes (length xs)
    modify (extend_buffer xs)
    receive_buffered
    flush env
    check_cancelled

  abbrev pub receive_preface : Option Bytes → Serve C T (Unit {0})
  receive_preface none = fail_protocol env "Invalid HTTP/2 connection preface"
  receive_preface (some remaining) =
      on_connection (receive_data env.library http2_preface)
      >> when (not (length remaining == 0)) (receive remaining)

  unfoldable pub initialize : Bytes → Serve C T (Unit {0})
  initialize incoming = do
    initialized ← gets (λ s. s.initialized)
    when initialized (raise (runtime_error "HTTP/2 session already initialized"))
    modify (λ s. record s { initialized = true })
    on_connection (on_h2 env.library.initiate_connection)
    flush env
    receive_preface (strip_prefix http2_preface incoming)

  unfoldable pub receive_more : Serve C T (Unit {0})
  receive_more = do xs ← on_transport env.net.read; receive xs

  -- The `while` loop, on fuel.
  unfoldable pub await_request : ℕ → Serve C T (Unit {0})
  await_request zero = raise stuck
  await_request (suc fuel) =
      let rest = await_request fuel in
      do
        ready ← gets (λ s. s.request_ready)
        if ready then check_cancelled else receive_more >> rest

  -- Each read that succeeds adds a byte at least to those that are counted.
  unfoldable pub receive_request : Serve C T (Unit {0})
  receive_request = await_request (max_capture_bytes + 1)

  -- send_data of content[offset:end]
  unfoldable pub send_slice : ℕ → Bytes → ℕ → ℕ → Serve C T (Unit {0})
  send_slice i content offset stop = do
    on_connection
        (on_h2 (env.library.send_data i (slice offset stop content) (stop == length content)))
    flush env

  unfoldable pub sendable : ℕ → Serve C T ℕ
  sendable i = do
    check_cancelled
    window ← on_connection (on_h2 (env.library.local_flow_control_window i))
    largest ← gets (λ s. env.library.max_outbound_frame_size s.connection.h2)
    pure (min window largest)

  -- The `while` loop, on fuel.
  unfoldable pub send_content : ℕ → ℕ → Bytes → ℕ → Serve C T (Unit {0})
  send_content zero i content offset = raise stuck
  send_content (suc fuel) i content offset =
      let rest = send_content fuel i content in
      if leb (length content) offset then pure tt else (do
        available ← sendable i
        let stop = min (offset + available) (length content)
        if available == 0
            then receive_more >> rest offset
            else send_slice i content offset stop >> rest stop)

  -- Each round sends a byte, or counts one that is read.
  unfoldable pub respond : ℕ → ℕ → Bytes × Headers → Serve C T (Unit {0})
  respond i status (content, headers) = do
    on_connection (
        on_h2 (
          env.library.send_headers i (merge ((codes ":status", str status) ∷ []) headers)
            (length content == 0)))
    flush env
    send_content (length content + max_capture_bytes + 1) i content 0

  abbrev pub respond_on : Option ℕ → Bool → Bytes → Headers → ℕ → Serve C T (Unit {0})
  respond_on (some i) true content headers status =
      respond i status (prepare_response content headers status)
  respond_on _ _ content headers status = raise (runtime_error "No complete HTTP/2 request")

  unfoldable pub send_response : Bytes → Headers → ℕ → Serve C T (Unit {0})
  send_response content headers status = do
    check_cancelled
    stream ← gets (λ s. s.capture.stream_id)
    ready ← gets (λ s. s.request_ready)
    respond_on stream ready content headers status
