-- ===== src/Tests/Sessions.antt =====
-- Runs of a session of HTTP/2, with an h2 that accepts everything and takes a HEADERS frame for a request.
use solvetls.Base.{◌≡◌, refl, arith, Bool, true, false, List, [], ◌∷◌, ◌++◌, none, some, ◌==◌, ◌||◌}
use solvetls.Base.Text.{codes}
use solvetls.Exec.{Exec, ok, ◌>>=◌, ◌>>◌}
use solvetls.Exec.Raises.{OnError}
use solvetls.Wire.Bytes.{Bytes}
use solvetls.Http2.Validation.{Fields}
use solvetls.Http2.Library.{LibraryError, Event, request_received, Library}
use solvetls.Http2.Session.{
  Session, Environment, new_session, http2_preface, on_connection, check_cancelled, flush,
}
use solvetls.Http2.Session.Events.{set_ready, process_end, finish_request}
use solvetls.Http2.Session.Receive.{
  receive, count_bytes, receive_buffered, receive_frames, next_frame,
}
use solvetls.Http2.Session.Keeps.{IsKnown}
use solvetls.Http2.Session.Limits.{raw_bytes, wire_of, IsWithin}
use solvetls.Http2.Session.Calls.{
  initializes, closes, run_call, opened, called, Reached-IsWithin, Reached-IsKnown,
  run_call_request, receive_wire,
}
use solvetls.Http2.Session.Requests.{process_end-set_ready}

abbrev fields : Fields
fields =
    (codes ":method", codes "GET")
    ∷ (codes ":scheme", codes "https")
    ∷ (codes ":path", codes "/")
    ∷ (codes ":authority", codes "a.b")
    ∷ []

abbrev accepts : {A : Type 0} → A → Exec (Unit {0}) LibraryError A
accepts a s = (ok a, s)

abbrev events_if : Bool → List Event
events_if true = request_received 1 fields true ∷ []
events_if false = []

abbrev events_of : Bytes → List Event
events_of (a ∷ b ∷ c ∷ kind ∷ rest) = events_if (kind == 1)
events_of _ = []

abbrev lenient : Library (Unit {0})
lenient = record {
  initiate_connection = accepts tt;
  receive_data = λ wire. accepts (events_of wire);
  data_to_send = λ c. ([], c);
  send_headers = λ i f b. accepts tt;
  send_data = λ i xs b. accepts tt;
  close_connection = λ n o. accepts tt;
  reset_stream = λ i n. accepts tt;
  acknowledge_received_data = λ n i. accepts tt;
  local_flow_control_window = λ i. accepts 65535;
  max_outbound_frame_size = λ c. 16384;
  max_inbound_frame_size = λ c. 65536;
  highest_inbound_stream_id = λ c. 1;
  highest_outbound_stream_id = λ c. 0;
  open_inbound_streams = λ c. (1, c);
  max_concurrent_streams = λ c. 100;
  is_closed = λ i c. none;
  header_table_size = λ c. 4096;
  original_headers = λ c. fields;
  is_supported = λ i. true;
}

abbrev env : Environment (Unit {0}) (Unit {0})
env = record {
  library = lenient;
  net = record { read = accepts (codes "abc"); write = λ xs. accepts tt };
  ipv6 = λ t. none;
  h2_validate = λ trailers f. ok tt;
}

abbrev fresh : Session (Unit {0}) (Unit {0})
fresh = new_session tt tt

-- The preface, an empty SETTINGS frame, and a HEADERS frame with END_HEADERS on stream 1.
abbrev opening : Bytes
opening =
    http2_preface
    ++ (0 ∷ 0 ∷ 0 ∷ 4 ∷ 0 ∷ 0 ∷ 0 ∷ 0 ∷ 0 ∷ 0 ∷ 0 ∷ 1 ∷ 1 ∷ 4 ∷ 0 ∷ 0 ∷ 0 ∷ 1 ∷ 130 ∷ [])

Reached-IsWithin_example : IsWithin (run_call env (initializes opening) fresh).1
Reached-IsWithin_example = Reached-IsWithin env (called (opened tt tt) (initializes opening))

Reached-IsKnown_example : OnError IsKnown (run_call env (initializes opening) fresh).0
Reached-IsKnown_example = Reached-IsKnown env (opened tt tt) (initializes opening)

-- A part of a frame waits in the buffer.
abbrev waiting : Session (Unit {0}) (Unit {0})
waiting = (receive env (0 ∷ 0 ∷ 0 ∷ 4 ∷ 0 ∷ []) fresh).1

five_bytes : receive env (0 ∷ 0 ∷ 0 ∷ 4 ∷ 0 ∷ []) fresh ≡ (ok tt, waiting)
unfolding receive count_bytes receive_buffered receive_frames next_frame flush check_cancelled
    on_connection new_session ◌>>=◌ ◌>>◌
five_bytes = refl

receive_wire_example : wire_of waiting ≡ wire_of fresh ++ (0 ∷ 0 ∷ 0 ∷ 4 ∷ 0 ∷ [])
receive_wire_example =
    receive_wire env (0 ∷ 0 ∷ 0 ∷ 4 ∷ 0 ∷ []) fresh waiting (Reached-IsWithin env (opened tt tt))
      five_bytes

-- A request on stream 1 whose body had the declared length.
abbrev taken : Session (Unit {0}) (Unit {0})
taken = record fresh {
  capture = record fresh.capture { stream_id = some 1; headers = some fields };
  expected_length = some 3;
  request_bytes = 3;
}

taken_ended : process_end env 1 taken ≡ (ok tt, set_ready taken)
unfolding process_end finish_request new_session ◌>>=◌ ◌>>◌
taken_ended = refl

process_end-set_ready_example : (set_ready taken ≡ set_ready taken) × (taken.request_bytes ≡ 3)
process_end-set_ready_example =
    process_end-set_ready env 1 3 taken (set_ready taken) refl refl taken_ended

taken-IsWithin : IsWithin taken
unfolding new_session raw_bytes
taken-IsWithin = record {
  frames = omega arith;
  entries = omega arith;
  counted = omega arith;
  stored = omega arith;
}

run_call_request_example :
    let t = (run_call env (closes 0) taken).1 in
    (t.capture.stream_id ≡ some 1)
    × (t.capture.headers ≡ taken.capture.headers)
    × ((taken.request_ready || t.request_ready) ≡ t.request_ready)
    × ((taken.cancelled || t.cancelled) ≡ t.cancelled)
    × ((taken.closed || t.closed) ≡ t.closed)
run_call_request_example = run_call_request env 1 (closes 0) taken taken-IsWithin refl
