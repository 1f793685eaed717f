-- ===== src/Http2/Session/Process.antt =====
-- solvetls/http2/session.py: `_process_frame`. The pause of the event loop behind a SETTINGS frame is not
-- modelled.
use solvetls.Base.{
  ℕ, ◌+◌, ◌%◌, ◌∷◌, Bool, true, false, not, ◌&&◌, ◌||◌, List, Option, none, some, any, length, ltb,
  ◌==◌, if◌then◌else◌,
}
use solvetls.Base.Text.{codes}
use solvetls.Exec.{Result, ok, err, pure, raise, gets, modify, try_except, ◌>>=◌, ◌>>◌}
use solvetls.Wire.Bytes.{Bytes}
use solvetls.Http2.Frames.Codes.{
  headers_type, priority_type, rst_stream_type, settings_type, push_promise_type, goaway_type,
  continuation_type, altsvc_type, origin_type, priority_update_type, ack_flag, end_headers_flag,
  priority_flag, no_error, enhance_your_calm,
}
use solvetls.Http2.Frames.Data.{
  FrameHeader, ParsedFrame, Payload, headers_payload, settings_payload, goaway_payload,
  priority_update_payload, unknown_payload, Message, message_text,
}
use solvetls.Http2.Frames.Cursor.{has_flag}
use solvetls.Http2.Frames.Build.{BuildError, build_headers_frame}
use solvetls.Http2.Adapter.Connection.{take_output, receive_data, apply_settings}
use solvetls.Http2.Library.{protocol, foreign}
use solvetls.Http2.Session.{
  Session, SessionError, library_error, connection_reset, runtime_error, attribute_error, key_error,
  value_error, stuck, Serve, Environment, on_connection, on_transport, when, or_default,
  max_header_list_size, flush, fail, fail_protocol,
}
use solvetls.Http2.Session.Events.{check_priority_limit, process_events}

-- s.add(n)
unfoldable pub set_add : ℕ → List ℕ → List ℕ
set_add n ns = if any (λ m. m == n) ns then ns else n ∷ ns

abbrev pub breaks_continuation : Option ℕ → FrameHeader → Bool
breaks_continuation none header = false
breaks_continuation (some i) header =
    not (header.type == continuation_type) || not (header.stream_id == i)

abbrev pub is_header_block : ℕ → Bool
is_header_block t = t == headers_type || t == continuation_type

abbrev pub is_advertisement : ℕ → Bool
is_advertisement t = t == altsvc_type || t == origin_type

-- `stream is None or stream.closed`
abbrev pub is_gone : Option Bool → Bool
is_gone none = true
is_gone (some closed) = closed

module _ {C T : Type 0} where
  abbrev pub set_first : Payload → Session C T → Session C T
  set_first (settings_payload p) s = record s {
    first_frame = false;
    capture = record s.capture { initial_settings = some p.entries };
  }
  set_first _ s = record s { first_frame = false }

  abbrev pub set_block : Option ℕ → ℕ → Session C T → Session C T
  set_block stream total s = record s { continuation_stream = stream; header_block_bytes = total }

module _ {C T : Type 0} (env : Environment C T) where
  unfoldable pub check_first : ParsedFrame → Serve C T (Unit {0})
  check_first frame = do
    first ← gets (λ s. s.first_frame)
    when first (
        when (not (frame.header.type == settings_type) || has_flag frame.header.flags ack_flag)
          (fail_protocol env "First HTTP/2 frame must be client SETTINGS")
        >> modify (set_first frame.payload))

  unfoldable pub check_continuation : FrameHeader → Serve C T (Unit {0})
  check_continuation header = do
    expected ← gets (λ s. s.continuation_stream)
    when (breaks_continuation expected header)
        (fail_protocol env "CONTINUATION on the same stream was expected")

  unfoldable pub count_block : FrameHeader → Serve C T (Unit {0})
  count_block header = do
    modify (λ s. record s { header_block_bytes = s.header_block_bytes + header.length })
    total ← gets (λ s. s.header_block_bytes)
    when (ltb max_header_list_size total)
        (fail env (codes "HTTP/2 header block limit exceeded") enhance_your_calm)
    if has_flag header.flags end_headers_flag
        then modify (set_block none 0)
        else modify (λ s. record s { continuation_stream = some header.stream_id })

  -- A payload that could not be parsed carries its error, and the error's code with it.
  abbrev pub fail_parsing : Option Message → Option ℕ → Serve C T (Unit {0})
  fail_parsing none code = pure tt
  fail_parsing (some m) code = fail env (message_text m) (or_default no_error code)

  abbrev pub check_parsed : Payload → Serve C T (Unit {0})
  check_parsed (unknown_payload p) = fail_parsing p.parse_error p.error_code
  check_parsed _ = pure tt

  unfoldable pub check_reset : FrameHeader → Serve C T (Unit {0})
  check_reset header = do
    inbound ← gets (λ s. env.library.highest_inbound_stream_id s.connection.h2)
    outbound ← gets (λ s. env.library.highest_outbound_stream_id s.connection.h2)
    when (ltb (if not (header.stream_id % 2 == 0) then inbound else outbound) header.stream_id)
        (fail_protocol env "RST_STREAM refers to an idle stream")

  unfoldable pub prioritize : ℕ → Serve C T (Unit {0})
  prioritize i = do
    when (i % 2 == 0) (fail_protocol env "PRIORITY_UPDATE refers to an idle push stream")
    highest ← gets (λ s. env.library.highest_inbound_stream_id s.connection.h2)
    stream ← gets (λ s. env.library.is_closed i s.connection.h2)
    if ltb highest i
        then (do
          modify (λ s. record s { prioritized_idle_streams = set_add i s.prioritized_idle_streams })
          check_priority_limit env)
        else when (not (is_gone stream)) (check_priority_limit env)

  -- A payload of another class has no such attribute.
  abbrev pub process_priority_update : Payload → Serve C T (Unit {0})
  process_priority_update (priority_update_payload p) = prioritize p.prioritized_stream_id
  process_priority_update _ = raise attribute_error

  abbrev pub process_goaway : Payload → Serve C T (Unit {0})
  process_goaway (goaway_payload p) =
      when (not (p.error_code == no_error)) (modify (λ s. record s { cancelled = true }))
  process_goaway _ = raise attribute_error

  -- A ValueError of the builder.
  abbrev pub rebuilt : Result BuildError Bytes → Serve C T Bytes
  rebuilt (ok wire) = pure wire
  rebuilt (err e) = raise (value_error e)

  abbrev pub strip_priority : FrameHeader → Payload → Serve C T Bytes
  strip_priority header (headers_payload p) =
      rebuilt (build_headers_frame header.stream_id p.header_block p.end_stream p.end_headers)
  strip_priority header _ = raise attribute_error

  unfoldable pub wire_for_h2 : ParsedFrame → Bytes → Serve C T Bytes
  wire_for_h2 frame wire =
      if frame.header.type == headers_type && has_flag frame.header.flags priority_flag
      then strip_priority frame.header frame.payload
      else pure wire

  unfoldable pub deliver_wire : Bytes → Serve C T (Unit {0})
  deliver_wire wire = do
    events ← on_connection (receive_data env.library wire)
    process_events env events

  -- A SETTINGS frame that was parsed has a payload of its class.
  abbrev pub deliver_settings : Payload → Bytes → Serve C T (Unit {0})
  deliver_settings (settings_payload p) wire =
      if not p.ack then on_connection (apply_settings env.library p.entries) else deliver_wire wire
  deliver_settings _ wire = raise attribute_error

  -- The body of the `try`.
  unfoldable pub deliver : ParsedFrame → Bytes → Serve C T (Unit {0})
  deliver frame wire =
      if frame.header.type == settings_type
      then deliver_settings frame.payload wire
      else deliver_wire wire

  -- except ProtocolError, of which `error` is one
  unfoldable pub queue_goaway : SessionError → Serve C T (Unit {0})
  queue_goaway error = do
    closed ← gets (λ s. s.closed)
    when (not closed) (do
      pending ← on_connection (take_output env.library)
      when (not (length pending == 0))
          (on_transport (env.net.write pending) >> modify (λ s. record s { closed = true })))
    raise error

  abbrev pub except_protocol : SessionError → Serve C T (Unit {0})
  except_protocol (library_error (protocol message code)) =
      queue_goaway (library_error (protocol message code))
  except_protocol (library_error (foreign name)) = raise (library_error (foreign name))
  except_protocol (connection_reset message) = raise (connection_reset message)
  except_protocol (runtime_error message) = raise (runtime_error message)
  except_protocol attribute_error = raise attribute_error
  except_protocol key_error = raise key_error
  except_protocol (value_error e) = raise (value_error e)
  except_protocol stuck = raise stuck

  unfoldable pub forward : ParsedFrame → Bytes → Serve C T (Unit {0})
  forward frame wire = do
    adapted ← wire_for_h2 frame wire
    try_except (deliver frame adapted) except_protocol
    flush env

  unfoldable pub process_known : ParsedFrame → Bytes → Serve C T (Unit {0})
  process_known frame wire = do
    check_parsed frame.payload
    when (frame.header.type == push_promise_type)
        (fail_protocol env "Clients must not send PUSH_PROMISE")
    when (frame.header.type == rst_stream_type) (check_reset frame.header)
    if frame.header.type == priority_type
        then pure tt
        else if frame.header.type == priority_update_type
        then process_priority_update frame.payload
        else if frame.header.type == goaway_type
        then process_goaway frame.payload
        else forward frame wire

  unfoldable pub process_frame : ParsedFrame → Bytes → Serve C T (Unit {0})
  process_frame frame wire = do
    check_first frame
    check_continuation frame.header
    when (is_header_block frame.header.type) (count_block frame.header)
    if is_advertisement frame.header.type then pure tt else process_known frame wire
