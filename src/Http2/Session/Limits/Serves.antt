-- ===== src/Http2/Session/Limits/Serves.antt =====
-- What each method of a session does.
use solvetls.Base.{
  ℕ, zero, suc, ◌+◌, ◌-◌, ◌≤◌, ◌<◌, min, ◌≡◌, refl, subst, arith, Bool, true, false, length, leb,
  ◌==◌, if◌then◌else◌, Option, none, some,
}
use solvetls.Exec.{Result, ok, err, modify, gets, pure, ◌>>=◌, ◌>>◌}
use solvetls.Exec.Run.{bind_at}
use solvetls.Exec.Raises.{OnError}
use solvetls.Wire.Bytes.{Bytes}
use solvetls.HttpFields.Response.{Headers, prepare_response}
use solvetls.Http2.Adapter.Connection.{on_h2, receive_data}
use solvetls.Http2.Session.{
  Session, SessionError, Serve, Environment, on_transport, when, http2_preface, max_capture_bytes,
  strip_prefix, check_cancelled,
}
use solvetls.Http2.Session.Receive.{
  receive, receive_preface, initialize, receive_more, await_request, receive_request, send_slice,
  sendable, send_content, respond, respond_on, send_response,
}
use solvetls.Http2.Session.Keeps.{
  IsKnown, Keeps, Quiet, pure-Quiet, gets-Quiet, if-Quiet, raise_runtime-Quiet, Keeps-fields,
  modify-Quiet, quiet_rules, fail-Quiet, flush-Quiet, on_connection-Quiet, on_transport-Quiet,
  check_cancelled-Quiet,
}
use solvetls.Http2.Session.Limits.{IsWithin}
use solvetls.Http2.Session.Limits.Admits.{OnOk, Lasts, Lasts-preorder, Keeps-Lasts}
use solvetls.Http2.Session.Limits.Rounds.{Keeps-IsWithin}
use solvetls.Http2.Session.Limits.Received.{Received, receive-Received}

-- The limits hold, the count of bytes does not fall, the accepted request stays, and every error is one of
-- Python's.
pub record Serves {C T A : Type 0} (s : Session C T) (x : Result SessionError A × Session C T)
    : Type 0 where
  pub within : IsWithin x.1
  pub grows : s.capture_bytes ≤ x.1.capture_bytes
  pub known : OnError IsKnown x.0
  pub lasts : Lasts s x.1

module _ {C T : Type 0} where
  pub Quiet-Serves :
      {A : Type 0} {m : Serve C T A} → Quiet m → (s : Session C T) → IsWithin s → Serves s (m s)
  Quiet-Serves q s w =
      let k = q.steps.run s in
      record {
        within = Keeps-IsWithin k w;
        grows = omega (arith, k.captures.same_bytes);
        known = q.errors.at s;
        lasts = Keeps-Lasts k;
      }

  Serves-chain :
      {A B : Type 0} (s t : Session C T) (a : A) (x : Result SessionError B × Session C T)
      → Serves s (ok a, t)
      → Serves t x
      → Serves s x
  Serves-chain s t a (r, u) h k = record {
    within = k.within;
    grows = omega (arith, h.grows, k.grows);
    known = k.known;
    lasts = Lasts-preorder.chain s t u h.lasts k.lasts;
  }

  Serves-raised :
      {A B : Type 0} (s t : Session C T) (e : SessionError)
      → Serves {A = A} s (err e, t)
      → Serves {A = B} s (err e, t)
  Serves-raised s t e h = record {
    within = h.within;
    grows = h.grows;
    known = h.known;
    lasts = h.lasts;
  }

  module _ {A B : Type 0} where
    Serves-bind :
        (m : Serve C T A) (f : A → Serve C T B) (s : Session C T)
        → Serves s (m s)
        → ((a : A) (t : Session C T) → m s ≡ (ok a, t) → Serves s (ok a, t) → Serves t (f a t))
        → Serves s ((m >>= f) s)
    Serves-bind m f s h k =
        bind_at (Serves s) m f s (λ e t p. Serves-raised s t e (subst (Serves s) p h))
          (λ a t p. let h' = subst (Serves s) p h in Serves-chain s t a (f a t) h' (k a t p h'))

    Serves-then :
        (m : Serve C T A) (n : Serve C T B) (s : Session C T)
        → Serves s (m s)
        → ((a : A) (t : Session C T) → m s ≡ (ok a, t) → Serves s (ok a, t) → Serves t (n t))
        → Serves s ((m >> n) s)
    unfolding ◌>>◌
    Serves-then m n s h k = Serves-bind m (λ _. n) s h k

    -- A step that captures nothing, and the rest from any state.
    Quiet-then :
        {m : Serve C T A} (q : Quiet m) (n : Serve C T B)
        → ((t : Session C T) → IsWithin t → Serves t (n t))
        → (s : Session C T) → IsWithin s
        → Serves s ((m >> n) s)
    Quiet-then {m} q n k s w = Serves-then m n s (Quiet-Serves q s w) (λ a t p h. k t h.within)

module _ {C T : Type 0} (env : Environment C T) where
  pub receive-Serves : (xs : Bytes) (s : Session C T) → IsWithin s → Serves s (receive env xs s)
  receive-Serves xs s w =
      let h = receive-Received env xs s w in
      record { within = h.within; grows = h.grows; known = h.known; lasts = h.lasts }

  set_initialized-Quiet : Quiet {C = C} {T = T} (modify (λ s. record s { initialized = true }))
  set_initialized-Quiet =
      modify-Quiet _ (λ s. Keeps-fields refl refl refl refl refl refl (λ e. e) (λ e. e) (λ e. e))

  remaining-Serves :
      (b : Bool) (xs : Bytes) (s : Session C T) → IsWithin s → Serves s (when b (receive env xs) s)
  remaining-Serves true xs s w = receive-Serves xs s w
  remaining-Serves false xs s w = Quiet-Serves (pure-Quiet tt) s w

  receive_preface-Serves :
      (o : Option Bytes) (s : Session C T) → IsWithin s → Serves s (receive_preface env o s)
  receive_preface-Serves none s w = Quiet-Serves (fail-Quiet env _ _) s w
  receive_preface-Serves (some xs) s w =
      Quiet-then (on_connection-Quiet (receive_data env.library http2_preface)) _
        (remaining-Serves _ xs) s w

  pub initialize-Serves :
      (xs : Bytes) (s : Session C T) → IsWithin s → Serves s (initialize env xs s)
  unfolding initialize
  initialize-Serves xs s w =
      Serves-bind (gets (λ s. s.initialized)) _ s
        (Quiet-Serves (gets-Quiet (λ s. s.initialized)) s w)
        (λ initialized t p h.
          Quiet-then (if-Quiet initialized (raise_runtime-Quiet _) (pure-Quiet tt)) _
            (Quiet-then set_initialized-Quiet _ (
              Quiet-then (on_connection-Quiet (on_h2 env.library.initiate_connection)) _ (
                Quiet-then (flush-Quiet env) _
                  (receive_preface-Serves (strip_prefix http2_preface xs)))))
            t h.within)

-- A read that succeeds has counted a byte at least, and no more than the limit.
record Counts {C T : Type 0} (s : Session C T) (x : Result SessionError (Unit {0}) × Session C T)
    : Type 0 where
  serves : Serves s x
  progress :
      OnOk x.0 ((s.capture_bytes < x.1.capture_bytes) × (x.1.capture_bytes ≤ max_capture_bytes))

module _ {C T : Type 0} (env : Environment C T) where
  Received-progress :
      (xs : Bytes) (s t : Session C T) (x : Result SessionError (Unit {0}) × Session C T)
      → t.capture_bytes ≡ s.capture_bytes
      → Received xs t x
      → OnOk x.0 ((s.capture_bytes < x.1.capture_bytes) × (x.1.capture_bytes ≤ max_capture_bytes))
  Received-progress xs s t (ok a, u) same h =
      let (positive, sum, small) = h.counted in (omega (arith, positive, sum, same), small)
  Received-progress xs s t (err e, u) same h = tt

  receive_more-Counts : (s : Session C T) → IsWithin s → Counts s (receive_more env s)
  unfolding receive_more
  receive_more-Counts s w =
      let q = on_transport-Quiet env.net.read in
      bind_at (Counts s) (on_transport env.net.read) (receive env) s
        (λ e t p. record {
          serves = Serves-raised s t e (subst (Serves s) p (Quiet-Serves q s w));
          progress = tt;
        })
        (λ xs t p.
          let h = subst (Serves s) p (Quiet-Serves q s w) in
          let k =
            subst (λ (x : Result SessionError Bytes × Session C T). Keeps s x.1) p
              (q.steps.run s) in
          record {
            serves = Serves-chain s t xs _ h (receive-Serves env xs t h.within);
            progress =
                Received-progress xs s t _ k.captures.same_bytes
                  (receive-Received env xs t h.within);
          })

  -- A read, and the rest with a byte more.
  read_then :
      (n : Serve C T (Unit {0})) (s : Session C T)
      → IsWithin s
      → ((t : Session C T)
          → IsWithin t
          → s.capture_bytes < t.capture_bytes
          → t.capture_bytes ≤ max_capture_bytes
          → Serves t (n t))
      → Serves s ((receive_more env >> n) s)
  read_then n s w k =
      let h = receive_more-Counts s w in
      Serves-then (receive_more env) n s h.serves (λ a t p ok.
        let (more, small) = (subst (Counts s) p h).progress in k t ok.within more small)

  request_round :
      (fuel : ℕ) (s : Session C T) (ready : Bool)
      → IsWithin s
      → max_capture_bytes - s.capture_bytes < suc fuel
      → ((t : Session C T)
          → IsWithin t
          → max_capture_bytes - t.capture_bytes < fuel
          → Serves t (await_request env fuel t))
      → Serves s ((if ready then check_cancelled else receive_more env >> await_request env fuel) s)
  request_round fuel s true w le k = Quiet-Serves check_cancelled-Quiet s w
  request_round fuel s false w le k =
      read_then (await_request env fuel) s w
        (λ t v more small. k t v (omega (arith, le, more, small)))

  await_request-Serves :
      (fuel : ℕ) (s : Session C T)
      → IsWithin s
      → max_capture_bytes - s.capture_bytes < fuel
      → Serves s (await_request env fuel s)
  unfolding await_request ◌>>=◌
  await_request-Serves zero s w le = absurd (omega (arith, le))
  await_request-Serves (suc fuel) s w le =
      request_round fuel s s.request_ready w le (await_request-Serves fuel)

  pub receive_request-Serves : (s : Session C T) → IsWithin s → Serves s (receive_request env s)
  unfolding receive_request
  receive_request-Serves s w = await_request-Serves (max_capture_bytes + 1) s w (omega arith)

  sendable-Quiet : (i : ℕ) → Quiet (sendable env i)
  unfolding sendable
  sendable-Quiet i = search quiet_rules depth 8

  send_slice-Quiet : (i : ℕ) (xs : Bytes) (a b : ℕ) → Quiet (send_slice env i xs a b)
  unfolding send_slice
  send_slice-Quiet i xs a b = search quiet_rules depth 8

  module _ (i : ℕ) (xs : Bytes) where
    -- What is left to send, and to read.
    abbrev left : ℕ → Session C T → ℕ
    left offset s = (length xs - offset) + (max_capture_bytes - s.capture_bytes)

    send_round :
        (fuel offset available : ℕ) (b : Bool) (s : Session C T)
        → IsWithin s
        → offset < length xs
        → (available == 0) ≡ b
        → left offset s < suc fuel
        → ((o : ℕ) (t : Session C T)
            → IsWithin t
            → left o t < fuel
            → Serves t (send_content env fuel i xs o t))
        → let stop = min (offset + available) (length xs) in
          Serves s (
            (if b
                then receive_more env >> send_content env fuel i xs offset
                else send_slice env i xs offset stop >> send_content env fuel i xs stop)
              s)
    send_round fuel offset available true s w more none_left le k =
        read_then (send_content env fuel i xs offset) s w
          (λ t v grown small. k offset t v (omega (arith, le, grown, small)))
    send_round fuel offset available false s w more some_left le k =
        let stop = min (offset + available) (length xs) in
        let positive : 0 < available = ground (arith, some_left) in
        Serves-then (send_slice env i xs offset stop) (send_content env fuel i xs stop) s
          (Quiet-Serves (send_slice-Quiet i xs offset stop) s w)
          (λ a t p h. k stop t h.within (omega (arith, le, more, positive, h.grows)))

    content_round :
        (fuel offset : ℕ) (b : Bool) (s : Session C T)
        → IsWithin s
        → leb (length xs) offset ≡ b
        → left offset s < suc fuel
        → ((o : ℕ) (t : Session C T)
            → IsWithin t
            → left o t < fuel
            → Serves t (send_content env fuel i xs o t))
        → Serves s (
            (if b
                then pure tt
                else (sendable env i >>= λ available.
                    if available == 0
                    then receive_more env >> send_content env fuel i xs offset
                    else send_slice env i xs offset (min (offset + available) (length xs))
                      >> send_content env fuel i xs (min (offset + available) (length xs))))
              s)
    content_round fuel offset true s w done le k = Quiet-Serves (pure-Quiet tt) s w
    content_round fuel offset false s w more le k =
        Serves-bind (sendable env i) _ s (Quiet-Serves (sendable-Quiet i) s w) (λ available t p h.
          send_round fuel offset available (available == 0) t h.within (ground (arith, more)) refl
            (omega (arith, le, h.grows)) k)

    send_content-Serves :
        (fuel offset : ℕ) (s : Session C T)
        → IsWithin s
        → left offset s < fuel
        → Serves s (send_content env fuel i xs offset s)
    unfolding send_content
    send_content-Serves zero offset s w le = absurd (omega (arith, le))
    send_content-Serves (suc fuel) offset s w le =
        content_round fuel offset (leb (length xs) offset) s w refl le (send_content-Serves fuel)

  respond-Serves :
      (i status : ℕ) (p : Bytes × Headers) (s : Session C T)
      → IsWithin s
      → Serves s (respond env i status p s)
  unfolding respond
  respond-Serves i status (xs, headers) s w =
      Quiet-then (on_connection-Quiet _) _
        (Quiet-then (flush-Quiet env) _
          (λ t v. send_content-Serves i xs (length xs + max_capture_bytes + 1) 0 t v (omega arith)))
        s w

  respond_on-Serves :
      (o : Option ℕ) (ready : Bool) (xs : Bytes) (headers : Headers) (status : ℕ) (s : Session C T)
      → IsWithin s
      → Serves s (respond_on env o ready xs headers status s)
  respond_on-Serves (some i) true xs headers status s w =
      respond-Serves i status (prepare_response xs headers status) s w
  respond_on-Serves (some i) false xs headers status s w = Quiet-Serves (raise_runtime-Quiet _) s w
  respond_on-Serves none ready xs headers status s w = Quiet-Serves (raise_runtime-Quiet _) s w

  pub send_response-Serves :
      (xs : Bytes) (headers : Headers) (status : ℕ) (s : Session C T)
      → IsWithin s
      → Serves s (send_response env xs headers status s)
  unfolding send_response ◌>>=◌
  send_response-Serves xs headers status s w =
      Quiet-then check_cancelled-Quiet _
        (λ t v. respond_on-Serves t.capture.stream_id t.request_ready xs headers status t v) s w
