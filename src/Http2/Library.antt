-- ===== src/Http2/Library.antt =====
-- What solvetls/http2/adapter.py and solvetls/http2/session.py use of h2: its operations on a connection,
-- of any type, and the exceptions and events that they give. Nothing is assumed of what they do.
use solvetls.Base.{ℕ, Bool, List, Option}
use solvetls.Base.Sort.{Text}
use solvetls.Exec.{Exec}
use solvetls.Wire.Bytes.{Bytes}
use solvetls.Http2.Validation.{Fields}

-- A ProtocolError with its message and error code, or any other exception.
pub data LibraryError : Type 0 where
  protocol : Text → ℕ → LibraryError
  foreign : Text → LibraryError

-- The events by class: stream, fields and whether the stream has ended; stream and fields; stream, content
-- and flow-controlled length; stream; stream.
pub data Event : Type 0 where
  request_received : ℕ → Fields → Bool → Event
  trailers_received : ℕ → Fields → Event
  data_received : ℕ → Bytes → ℕ → Event
  stream_ended : ℕ → Event
  stream_reset : ℕ → Event
  other_event : Event

-- `H2Connection` on states of type `C`. Where an attribute may be cleaned up when it is read, the state
-- is returned too. A window that is negative is 0 here: the session asks only whether it is positive.
pub record Library (C : Type 0) : Type 0 where
  pub initiate_connection : Exec C LibraryError (Unit {0})
  pub receive_data : Bytes → Exec C LibraryError (List Event)
  pub data_to_send : C → Bytes × C
  pub send_headers : ℕ → Fields → Bool → Exec C LibraryError (Unit {0})
  pub send_data : ℕ → Bytes → Bool → Exec C LibraryError (Unit {0})
  pub close_connection : ℕ → Option ℕ → Exec C LibraryError (Unit {0})
  pub reset_stream : ℕ → ℕ → Exec C LibraryError (Unit {0})
  pub acknowledge_received_data : ℕ → ℕ → Exec C LibraryError (Unit {0})
  pub local_flow_control_window : ℕ → Exec C LibraryError ℕ
  pub max_outbound_frame_size : C → ℕ
  pub max_inbound_frame_size : C → ℕ
  pub highest_inbound_stream_id : C → ℕ
  pub highest_outbound_stream_id : C → ℕ
  pub open_inbound_streams : C → ℕ × C
  pub max_concurrent_streams : C → ℕ
  pub is_closed : ℕ → C → Option Bool
  pub header_table_size : C → ℕ
  -- self.decoder.original_headers
  pub original_headers : C → Fields
  -- whether an identifier is one of h2's SettingCodes
  pub is_supported : ℕ → Bool
