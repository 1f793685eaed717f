-- ===== src/Http2/Session/Calls.antt =====
-- The public methods of a session, in any order, whether they return or raise.
use solvetls.Base.{ℕ, Bool, false, ◌||◌, ◌≡◌, refl, sym, subst, arith, ◌++◌, some, true}
use solvetls.Exec.{ok}
use solvetls.Exec.Raises.{OnError}
use solvetls.Wire.Bytes.{Bytes}
use solvetls.HttpFields.Response.{Headers}
use solvetls.Http2.Session.{Session, Serve, Environment, new_session, close}
use solvetls.Http2.Session.Receive.{initialize, receive, receive_request, send_response}
use solvetls.Http2.Session.Keeps.{IsKnown, close-Quiet}
use solvetls.Http2.Session.Limits.{raw_bytes, wire_of, IsWithin}
use solvetls.Http2.Session.Limits.Received.{Received, receive-Received}
use solvetls.Http2.Session.Limits.Serves.{
  Serves, Quiet-Serves, initialize-Serves, receive_request-Serves, send_response-Serves,
}

pub data Call : Type 0 where
  initializes : Bytes → Call
  receives_request : Call
  sends_response : Bytes → Headers → ℕ → Call
  closes : ℕ → Call

absorbed : (a b : Bool) → (a ≡ true → b ≡ true) → (a || b) ≡ b
absorbed true b h = sym (h refl)
absorbed false b h = refl

module _ {C T : Type 0} (env : Environment C T) where
  unfoldable pub run_call : Call → Serve C T (Unit {0})
  run_call (initializes xs) = initialize env xs
  run_call receives_request = receive_request env
  run_call (sends_response xs headers status) = send_response env xs headers status
  run_call (closes error_code) = close env error_code

  -- The states of a session that has been called.
  pub data Reached : Session C T → Type 0 where
    opened : (t : T) (c : C) → Reached (new_session t c)
    called : {s : Session C T} → Reached s → (m : Call) → Reached (run_call m s).1

  run_call-Serves : (m : Call) (s : Session C T) → IsWithin s → Serves s (run_call m s)
  unfolding run_call
  run_call-Serves (initializes xs) s w = initialize-Serves env xs s w
  run_call-Serves receives_request s w = receive_request-Serves env s w
  run_call-Serves (sends_response xs headers status) s w =
      send_response-Serves env xs headers status s w
  run_call-Serves (closes error_code) s w = Quiet-Serves (close-Quiet env error_code) s w

  new_session-IsWithin : (t : T) (c : C) → IsWithin (new_session t c)
  unfolding new_session raw_bytes
  new_session-IsWithin t c = record {
    frames = omega arith;
    entries = omega arith;
    counted = omega arith;
    stored = omega arith;
  }

  -- However a session is called, and whatever h2 and the transport do: it keeps at most 4096 frames, reserves
  -- at most 1024 entries, and the bytes of its frames and of its buffer together are at most 2097152, and at
  -- most as many as it has counted.
  pub Reached-IsWithin : {s : Session C T} → Reached s → IsWithin s
  Reached-IsWithin (opened t c) = new_session-IsWithin t c
  Reached-IsWithin (called {s} r m) = (run_call-Serves m s (Reached-IsWithin r)).within

  -- Every call on a session that was made and called comes to its end: no loop runs out of fuel. What it
  -- raises, if it raises, is an exception of h2 or of the transport, a ProtocolError, a ConnectionResetError,
  -- a RuntimeError, or a ValueError of the builder of frames; it is neither an AttributeError nor a KeyError,
  -- whatever the frames that arrive and the fields of the request.
  pub Reached-IsKnown :
      {s : Session C T} → Reached s → (m : Call) → OnError IsKnown (run_call m s).0
  Reached-IsKnown {s} r m = (run_call-Serves m s (Reached-IsWithin r)).known

  -- A request that was accepted is the request of the session from then on: in a session within its limits,
  -- through any call, its stream and its fields stay, a request that was ready or reset stays so, and a closed session stays closed.
  pub run_call_request :
      (i : ℕ) (m : Call) (s : Session C T)
      → IsWithin s
      → s.capture.stream_id ≡ some i
      → let t = (run_call m s).1 in
        (t.capture.stream_id ≡ some i)
        × (t.capture.headers ≡ s.capture.headers)
        × ((s.request_ready || t.request_ready) ≡ t.request_ready)
        × ((s.cancelled || t.cancelled) ≡ t.cancelled)
        × ((s.closed || t.closed) ≡ t.closed)
  run_call_request i m s w e =
      let t = (run_call m s).1 in
      let l = (run_call-Serves m s w).lasts in
      let (stream, headers) = l.request i e in
      (
        stream,
        headers,
        absorbed s.request_ready t.request_ready l.ready,
        absorbed s.cancelled t.cancelled l.cancelled,
        absorbed s.closed t.closed l.closed,
      )

  -- When `_receive` returns, in a session within its limits, the bytes of the captured frames followed by
  -- the buffer are what they were, followed by the bytes received: however the wire is cut into reads,
  -- nothing is lost, repeated or moved.
  pub receive_wire :
      (xs : Bytes) (s t : Session C T)
      → IsWithin s
      → receive env xs s ≡ (ok tt, t)
      → wire_of t ≡ wire_of s ++ xs
  receive_wire xs s t w e = (subst (Received xs s) e (receive-Received env xs s w)).whole
