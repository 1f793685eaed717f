-- ===== src/Http2/Session/Limits/Received.antt =====
-- What `_receive` does with bytes from the wire.
use solvetls.Base.{
  suc, ◌+◌, ◌≤◌, ◌<◌, ◌≡◌, refl, sym, ap, ap₂, subst, ◌∙◌, arith, Bool, true, false, ◌++◌,
  append_assoc, length, length-append, ltb, ltb_false→le, ◌==◌,
}
use solvetls.Base.Text.{codes}
use solvetls.Exec.{Result, ok, err, modify, raise, ◌>>=◌, ◌>>◌}
use solvetls.Exec.Run.{then_at}
use solvetls.Exec.Raises.{OnError}
use solvetls.Wire.Bytes.{Bytes}
use solvetls.Http2.Frames.Codes.{enhance_your_calm}
use solvetls.Http2.Session.{
  Session, SessionError, connection_reset, Environment, when, flush, fail, check_cancelled,
  max_capture_bytes,
}
use solvetls.Http2.Session.Receive.{
  add_bytes, extend_buffer, receive_frames, receive_buffered, count_bytes, receive,
}
use solvetls.Http2.Session.Keeps.{
  IsKnown, Keeps, Quiet, then-Quiet, flush-Quiet, check_cancelled-Quiet, fail-Quiet, fail_never,
}
use solvetls.Http2.Session.Limits.{raw_bytes, wire_of, IsWithin}
use solvetls.Http2.Session.Limits.Admits.{Lasts, Lasts-preorder, Keeps-Lasts, OnOk}
use solvetls.Http2.Session.Limits.Rounds.{
  Rounds, Keeps-IsWithin, receive_frames-Rounds, receive_frames-IsKnown,
}

-- The limits hold, and every error is one of Python's; when the method returns, every byte of `xs` has been
-- captured behind the others and counted.
pub record Received {C T : Type 0} (xs : Bytes) (s : Session C T)
    (x : Result SessionError (Unit {0}) × Session C T) : Type 0 where
  pub within : IsWithin x.1
  pub grows : s.capture_bytes ≤ x.1.capture_bytes
  pub known : OnError IsKnown x.0
  pub whole : OnOk x.0 (wire_of x.1 ≡ wire_of s ++ xs)
  pub counted : OnOk x.0 (
      (0 < length xs)
      × (x.1.capture_bytes ≡ s.capture_bytes + length xs)
      × (x.1.capture_bytes ≤ max_capture_bytes))
  pub lasts : Lasts s x.1

module _ {C T : Type 0} (env : Environment C T) (xs : Bytes) (s : Session C T)
    (w : IsWithin s) where
  abbrev counted_state : Session C T
  counted_state = add_bytes (length xs) s

  abbrev extended_state : Session C T
  extended_state = extend_buffer xs counted_state

  counted_history : {t : Session C T} → Lasts counted_state t → Lasts s t
  counted_history l = record {
    closed = l.closed;
    cancelled = l.cancelled;
    ready = l.ready;
    request = l.request;
  }

  extended_history : {t : Session C T} → Lasts extended_state t → Lasts s t
  extended_history l = record {
    closed = l.closed;
    cancelled = l.cancelled;
    ready = l.ready;
    request = l.request;
  }

  counted-IsWithin : IsWithin counted_state
  counted-IsWithin = record {
    frames = w.frames;
    entries = w.entries;
    counted = omega (arith, w.counted);
    stored = w.stored;
  }

  extended_wire : wire_of extended_state ≡ wire_of s ++ xs
  extended_wire = sym (append_assoc (raw_bytes s.capture.frames) s.buffer xs)

  module _ (positive : 0 < length xs)
      (small : s.capture_bytes + length xs ≤ max_capture_bytes) where
    extended-IsWithin : IsWithin extended_state
    extended-IsWithin =
        let size : length (wire_of extended_state) ≡ length (wire_of s) + length xs =
          ap length extended_wire ∙ length-append (wire_of s) xs in
        record {
          frames = w.frames;
          entries = w.entries;
          counted = omega (arith, size, w.counted);
          stored = omega (arith, size, w.counted, small);
        }

    -- Behind the loop only output is written.
    finished :
        (t : Session C T) (x : Result SessionError (Unit {0}) × Session C T)
        → Rounds {A = Unit {0}} extended_state (ok tt, t)
        → Keeps t x.1
        → OnError IsKnown x.0
        → Received xs s x
    finished t (ok a, u) h k known = record {
      within = Keeps-IsWithin k h.within;
      grows = omega (arith, k.captures.same_bytes, h.same_bytes);
      known = known;
      whole =
          ap₂ (λ fs (b : Bytes). raw_bytes fs ++ b) k.captures.same_frames k.captures.same_buffer
          ∙ (h.whole ∙ extended_wire);
      counted = (
        positive,
        k.captures.same_bytes ∙ h.same_bytes,
        omega (arith, k.captures.same_bytes, h.same_bytes, small),
      );
      lasts = extended_history (Lasts-preorder.chain _ t u h.lasts (Keeps-Lasts k));
    }
    finished t (err e, u) h k known = record {
      within = Keeps-IsWithin k h.within;
      grows = omega (arith, k.captures.same_bytes, h.same_bytes);
      known = known;
      whole = tt;
      counted = tt;
      lasts = extended_history (Lasts-preorder.chain _ t u h.lasts (Keeps-Lasts k));
    }

    rest-Quiet : Quiet (flush env >> check_cancelled)
    rest-Quiet = then-Quiet (flush-Quiet env) check_cancelled-Quiet

    buffered-Received : Received xs s (
        (receive_frames env (suc (length extended_state.buffer)) >> (flush env >> check_cancelled))
          extended_state)
    buffered-Received =
        let fuel = suc (length extended_state.buffer) in
        let h = receive_frames-Rounds env fuel extended_state extended-IsWithin in
        let k = receive_frames-IsKnown env fuel extended_state extended-IsWithin (omega arith) in
        then_at (Received xs s) (receive_frames env fuel) (flush env >> check_cancelled)
          extended_state
          (λ e t p.
            let h' = subst (Rounds extended_state) p h in
            record {
              within = h'.within;
              grows = omega (arith, h'.same_bytes);
              known =
                  subst (λ (x : Result SessionError (Unit {0}) × Session C T). OnError IsKnown x.0)
                    p k;
              whole = tt;
              counted = tt;
              lasts = extended_history h'.lasts;
            })
          (λ u t p.
            finished t _ (subst (Rounds extended_state) p h) (rest-Quiet.steps.run t)
              (rest-Quiet.errors.at t))

  raised-Received :
      (e : SessionError) (t : Session C T)
      → IsKnown e
      → Keeps counted_state t
      → Received xs s (err e, t)
  raised-Received e t known k = record {
    within = Keeps-IsWithin k counted-IsWithin;
    grows = omega (arith, k.captures.same_bytes);
    known = known;
    whole = tt;
    counted = tt;
    lasts = counted_history (Keeps-Lasts k);
  }

  limit-Received :
      (b : Bool)
      → 0 < length xs
      → ltb max_capture_bytes (s.capture_bytes + length xs) ≡ b
      → Received xs s (
          (when b (fail env (codes "HTTP/2 capture limit exceeded") enhance_your_calm)
              >> (modify (extend_buffer xs)
                  >> (receive_buffered env >> (flush env >> check_cancelled))))
            counted_state)
  unfolding receive_buffered ◌>>=◌ ◌>>◌
  limit-Received true positive over =
      then_at (Received xs s) (fail env (codes "HTTP/2 capture limit exceeded") enhance_your_calm) _
        counted_state
        (λ e t p.
          let q =
            fail-Quiet env {A = Unit {0}} (codes "HTTP/2 capture limit exceeded")
              enhance_your_calm in
          raised-Received e t
            (subst (λ (x : Result SessionError (Unit {0}) × Session C T). OnError IsKnown x.0) p
              (q.errors.at counted_state))
            (subst (λ (x : Result SessionError (Unit {0}) × Session C T). Keeps counted_state x.1) p
              (q.steps.run counted_state)))
        (λ u t p. absurd (fail_never env _ _ counted_state t p))
  limit-Received false positive under =
      buffered-Received positive
        (ltb_false→le max_capture_bytes (s.capture_bytes + length xs) under)

  empty-Received :
      (b : Bool)
      → (length xs == 0) ≡ b
      → Received xs s (
          (when b (raise (connection_reset "HTTP/2 connection closed before completion"))
              >> (count_bytes env (length xs)
                  >> (modify (extend_buffer xs)
                      >> (receive_buffered env >> (flush env >> check_cancelled)))))
            s)
  unfolding count_bytes ◌>>=◌ ◌>>◌
  empty-Received true empty = record {
    within = w;
    grows = omega arith;
    known = tt;
    whole = tt;
    counted = tt;
    lasts = Lasts-preorder.stay s;
  }
  empty-Received false full = limit-Received _ (ground (arith, full)) refl

  -- What a call of `_receive` does, from any state within the limits.
  pub receive-Received : Received xs s (receive env xs s)
  unfolding receive
  receive-Received = empty-Received (length xs == 0) refl
