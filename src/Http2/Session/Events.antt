-- ===== src/Http2/Session/Events.antt =====
-- solvetls/http2/session.py: `_check_priority_limit` and `_process_event`.
use solvetls.Base.{
  ℕ, ◌+◌, ◌∷◌, [], Bool, true, false, not, ◌&&◌, List, Option, none, some, any, length, ltb, ◌==◌,
  if◌then◌else◌,
}
use solvetls.Base.Text.{codes}
use solvetls.Base.Sort.{Text}
use solvetls.Exec.{Result, ok, err, pure, raise, gets, modify, ◌>>=◌, ◌>>◌}
use solvetls.Wire.Bytes.{Bytes}
use solvetls.HttpFields.Response.{text_eq}
use solvetls.HttpFields.Lists.{ListError, parse_expectations}
use solvetls.Http2.Frames.Codes.{protocol_error, enhance_your_calm, refused_stream}
use solvetls.Http2.Adapter.{max_request_body, bounded_content_length}
use solvetls.Http2.Adapter.Connection.{on_h2}
use solvetls.Http2.Validation.{Fields, ProtocolError, protocol_message, values_named, last_named}
use solvetls.Http2.Validation.Request.{validate_fields}
use solvetls.Http2.Library.{
  Event, request_received, trailers_received, data_received, stream_ended, stream_reset,
  other_event,
}
use solvetls.Http2.Session.{
  Session, key_error, Serve, Environment, on_connection, when, is_some, fail, fail_protocol,
}

abbrev pub take_open : {C : Type 0} → ℕ × C → ℕ
take_open (n, c) = n

-- {n for n in streams if n > i}
unfoldable pub above : ℕ → List ℕ → List ℕ
above i [] = []
above i (n ∷ ns) = if ltb i n then n ∷ above i ns else above i ns

abbrev pub same_stream : Option ℕ → ℕ → Bool
same_stream none i = false
same_stream (some j) i = i == j

abbrev pub differs_from : Option ℕ → ℕ → Bool
differs_from none n = false
differs_from (some m) n = not (m == n)

-- The `try` around the expectations: whether some member is not "100-continue", and whether there is one.
abbrev pub some_other : Result ListError (List Text) → Bool
some_other (err e) = true
some_other (ok members) = any (λ m. not (text_eq m (codes "100-continue"))) members

abbrev pub some_member : Result ListError (List Text) → Bool
some_member (err e) = true
some_member (ok members) = not (length members == 0)

module _ {C T : Type 0} where
  abbrev pub forget_idle : ℕ → Session C T → Session C T
  forget_idle i s = record s { prioritized_idle_streams = above i s.prioritized_idle_streams }

  -- The request is taken: its stream and its fields.
  abbrev pub set_request : ℕ → Fields → Session C T → Session C T
  set_request i headers s = record s {
    capture = record s.capture { stream_id = some i; headers = some headers };
  }

  abbrev pub set_ready : Session C T → Session C T
  set_ready s = record s { request_ready = true }

  abbrev pub set_expectation_failed : Session C T → Session C T
  set_expectation_failed s = record s { capture = record s.capture { expectation_failed = true } }

  abbrev pub set_trailers : Fields → Session C T → Session C T
  set_trailers headers s = record s { capture = record s.capture { trailers = headers } }

module _ {C T : Type 0} (env : Environment C T) where
  -- `open_inbound_streams` is read once; reading it lets h2 drop closed streams.
  unfoldable pub check_priority_limit : Serve C T (Unit {0})
  check_priority_limit = do
    open_streams ←
        on_connection (on_h2 (λ c. let (n, d) = env.library.open_inbound_streams c in (ok n, d)))
    idle ← gets (λ s. length s.prioritized_idle_streams)
    maximum ← gets (λ s. env.library.max_concurrent_streams s.connection.h2)
    when (ltb maximum (idle + open_streams))
        (fail_protocol env "PRIORITY_UPDATE stream limit exceeded")

  -- try: validate_fields  except ProtocolError as error: self._fail(str(error))
  abbrev pub fail_invalid : Result ProtocolError (Unit {0}) → Serve C T (Unit {0})
  fail_invalid (ok u) = pure tt
  fail_invalid (err e) = fail env (protocol_message e) protocol_error

  unfoldable pub check_fields : Fields → Bool → Serve C T (Unit {0})
  check_fields headers trailers =
      fail_invalid (validate_fields env.ipv6 env.h2_validate headers trailers)

  abbrev pub fail_body : Serve C T (Unit {0})
  fail_body = fail env (codes "HTTP/2 request body limit exceeded") enhance_your_calm

  unfoldable pub check_content_length : Option Bytes → Serve C T (Unit {0})
  check_content_length none = pure tt
  check_content_length (some value) = do
    modify (λ s. record s { expected_length = some (bounded_content_length value) })
    when (ltb max_request_body (bounded_content_length value)) fail_body

  -- values[b":method"] == b"CONNECT", and what follows.
  abbrev pub check_method : Option Bytes → Bool → ℕ → Serve C T (Unit {0})
  check_method none continues i = raise key_error
  check_method (some method) continues i =
      if text_eq method (codes "CONNECT")
      then modify set_ready
      else when continues (
          on_connection
            (on_h2 (env.library.send_headers i ((codes ":status", codes "100") ∷ []) false)))

  unfoldable pub check_expectations : ℕ → Fields → Bool → Serve C T (Unit {0})
  check_expectations i headers ended =
      let expectations = parse_expectations (values_named (codes "expect") headers) in
      if some_other expectations
      then (do modify set_expectation_failed; modify set_ready)
      else check_method (last_named (codes ":method") headers)
          (some_member expectations && not ended) i

  unfoldable pub accept_request : ℕ → Fields → Bool → Serve C T (Unit {0})
  accept_request i headers ended = do
    check_priority_limit
    check_fields headers false
    modify (set_request i headers)
    check_content_length (last_named (codes "content-length") headers)
    check_expectations i headers ended

  unfoldable pub process_request : ℕ → Fields → Bool → Serve C T (Unit {0})
  process_request i headers ended = do
    modify (forget_idle i)
    stream ← gets (λ s. s.capture.stream_id)
    if is_some stream
        then on_connection (on_h2 (env.library.reset_stream i refused_stream))
        else accept_request i headers ended

  unfoldable pub process_trailers : ℕ → Fields → Serve C T (Unit {0})
  process_trailers i headers = do
    check_fields headers true
    stream ← gets (λ s. s.capture.stream_id)
    when (same_stream stream i) (modify (set_trailers headers))

  unfoldable pub count_body : ℕ → Serve C T (Unit {0})
  count_body n = do
    modify (λ s. record s { request_bytes = s.request_bytes + n })
    total ← gets (λ s. s.request_bytes)
    when (ltb max_request_body total) fail_body

  unfoldable pub process_data : ℕ → Bytes → ℕ → Serve C T (Unit {0})
  process_data i content flow_controlled = do
    stream ← gets (λ s. s.capture.stream_id)
    when (same_stream stream i) (count_body (length content))
    on_connection (on_h2 (env.library.acknowledge_received_data flow_controlled i))

  unfoldable pub finish_request : Serve C T (Unit {0})
  finish_request = do
    expected ← gets (λ s. s.expected_length)
    total ← gets (λ s. s.request_bytes)
    when (differs_from expected total)
        (fail_protocol env "HTTP/2 Content-Length does not match request body")
    modify set_ready

  unfoldable pub process_end : ℕ → Serve C T (Unit {0})
  process_end i = do
    stream ← gets (λ s. s.capture.stream_id)
    when (same_stream stream i) finish_request

  unfoldable pub process_reset : ℕ → Serve C T (Unit {0})
  process_reset i = do
    stream ← gets (λ s. s.capture.stream_id)
    when (same_stream stream i) (modify (λ s. record s { cancelled = true }))

  abbrev pub process_event : Event → Serve C T (Unit {0})
  process_event (request_received i headers ended) = process_request i headers ended
  process_event (trailers_received i headers) = process_trailers i headers
  process_event (data_received i content n) = process_data i content n
  process_event (stream_ended i) = process_end i
  process_event (stream_reset i) = process_reset i
  process_event other_event = pure tt

  -- for event in events: await self._process_event(event)
  unfoldable pub process_events : List Event → Serve C T (Unit {0})
  process_events [] = pure tt
  process_events (e ∷ es) = process_event e >> process_events es
