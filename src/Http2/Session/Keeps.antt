-- ===== src/Http2/Session/Keeps.antt =====
-- What everything that handles a frame leaves alone of a session.
pub mod Events
pub mod Frames
use solvetls.Base.{
  ℕ, String, ◌≡◌, refl, subst, ◌∙◌, Bool, true, false, List, Option, none, some, if◌then◌else◌,
  Option-cases, inl, inr,
}
use solvetls.Base.Sort.{Text}
use solvetls.Exec.{Result, ok, err, Exec, pure, raise, gets, modify, ◌>>=◌, ◌>>◌, try_except}
use solvetls.Exec.Steps.{Steps, IsPreorder}
use solvetls.Exec.Raises.{OnError, Raises}
use solvetls.Exec.Run.{then_inv, then_at}
use solvetls.Exec.Obeys.{
  Obeys, Obeys-weaken, Obeys-modify, Obeys-pure, Obeys-raise, Obeys-gets, Obeys-if, Obeys-try,
  Obeys-bind, Obeys-then,
}
use solvetls.Wire.Bytes.{Bytes}
use solvetls.Http2.Adapter.Connection.{
  AdapterError, h2_error, unexpected_response, builder_error, Adapting,
}
use solvetls.Http2.Frames.Build.{BuildError}
use solvetls.Http2.Validation.{Fields}
use solvetls.Http2.Library.{LibraryError, protocol}
use solvetls.Http2.Session.{
  Session, SessionError, library_error, connection_reset, runtime_error, attribute_error, key_error,
  value_error, stuck, Serve, Environment, from_adapter, from_transport, on_connection, on_transport,
  when, check_cancelled, flush, send_goaway, close, fail,
}

-- What is captured of the wire stays, and what has come to an end has.
pub record Captures {C T : Type 0} (s t : Session C T) : Type 0 where
  pub same_buffer : t.buffer ≡ s.buffer
  pub same_bytes : t.capture_bytes ≡ s.capture_bytes
  pub same_entries : t.capture_entries ≡ s.capture_entries
  pub same_frames : t.capture.frames ≡ s.capture.frames
  pub closed : s.closed ≡ true → t.closed ≡ true
  pub cancelled : s.cancelled ≡ true → t.cancelled ≡ true
  pub ready : s.request_ready ≡ true → t.request_ready ≡ true

-- An accepted request stays the same one.
pub record Keeps {C T : Type 0} (s t : Session C T) : Type 0 where
  pub captures : Captures s t
  pub request :
      (i : ℕ)
      → s.capture.stream_id ≡ some i
      → (t.capture.stream_id ≡ some i) × (t.capture.headers ≡ s.capture.headers)

-- An exception that the session lets out: the ValueError is that of the builder of frames. No loop has run
-- out of fuel, no attribute is missing of a payload, and no key of a request's fields.
abbrev pub IsKnown : SessionError → Type 0
IsKnown (library_error e) = Unit
IsKnown (connection_reset m) = Unit
IsKnown (runtime_error m) = Unit
IsKnown attribute_error = ⊥
IsKnown key_error = ⊥
IsKnown (value_error e) = Unit
IsKnown stuck = ⊥

from_adapter-IsKnown : {A : Type 0} (r : Result AdapterError A) → OnError IsKnown (from_adapter r)
from_adapter-IsKnown (ok a) = tt
from_adapter-IsKnown (err (h2_error e)) = tt
from_adapter-IsKnown (err unexpected_response) = tt
from_adapter-IsKnown (err (builder_error e)) = tt

from_transport-IsKnown :
    {A : Type 0} (r : Result LibraryError A) → OnError IsKnown (from_transport r)
from_transport-IsKnown (ok a) = tt
from_transport-IsKnown (err e) = tt

module _ {C T : Type 0} where
  pub Captures-preorder : IsPreorder (Captures {C = C} {T = T})
  Captures-preorder = record {
    stay = λ s. record {
      same_buffer = refl;
      same_bytes = refl;
      same_entries = refl;
      same_frames = refl;
      closed = λ e. e;
      cancelled = λ e. e;
      ready = λ e. e;
    };
    chain = λ s t u h k. record {
      same_buffer = k.same_buffer ∙ h.same_buffer;
      same_bytes = k.same_bytes ∙ h.same_bytes;
      same_entries = k.same_entries ∙ h.same_entries;
      same_frames = k.same_frames ∙ h.same_frames;
      closed = λ e. k.closed (h.closed e);
      cancelled = λ e. k.cancelled (h.cancelled e);
      ready = λ e. k.ready (h.ready e);
    };
  }

  pub Keeps-preorder : IsPreorder (Keeps {C = C} {T = T})
  Keeps-preorder = record {
    stay = λ s. record { captures = Captures-preorder.stay s; request = λ i e. (e, refl) };
    chain = λ s t u h k. record {
      captures = Captures-preorder.chain s t u h.captures k.captures;
      request = λ i e.
          let (e', same) = h.request i e in
          let (e'', same') = k.request i e' in (e'', same' ∙ same);
    };
  }

  abbrev pub Quiet : {A : Type 0} → Serve C T A → Type 0
  Quiet m = Obeys Keeps IsKnown m

  -- An assignment that leaves alone what is captured and the request.
  pub Keeps-fields :
      {s t : Session C T}
      → t.buffer ≡ s.buffer
      → t.capture_bytes ≡ s.capture_bytes
      → t.capture_entries ≡ s.capture_entries
      → t.capture.frames ≡ s.capture.frames
      → t.capture.stream_id ≡ s.capture.stream_id
      → t.capture.headers ≡ s.capture.headers
      → (s.closed ≡ true → t.closed ≡ true)
      → (s.cancelled ≡ true → t.cancelled ≡ true)
      → (s.request_ready ≡ true → t.request_ready ≡ true)
      → Keeps s t
  Keeps-fields b n e f i h closed cancelled ready = record {
    captures = record {
      same_buffer = b;
      same_bytes = n;
      same_entries = e;
      same_frames = f;
      closed = closed;
      cancelled = cancelled;
      ready = ready;
    };
    request = λ j p. (i ∙ p, h);
  }

  pub on_connection-Quiet : {A : Type 0} (m : Adapting C A) → Quiet (on_connection m)
  unfolding on_connection
  on_connection-Quiet m = record {
    steps = record {
      run = λ s. Keeps-fields refl refl refl refl refl refl (λ e. e) (λ e. e) (λ e. e);
    };
    errors = record { at = λ s. from_adapter-IsKnown (m s.connection).0 };
  }

  pub on_transport-Quiet : {A : Type 0} (m : Exec T LibraryError A) → Quiet (on_transport m)
  unfolding on_transport
  on_transport-Quiet m = record {
    steps = record {
      run = λ s. Keeps-fields refl refl refl refl refl refl (λ e. e) (λ e. e) (λ e. e);
    };
    errors = record { at = λ s. from_transport-IsKnown (m s.transport).0 };
  }

  -- An assignment to other fields.
  pub modify-Quiet :
      (f : Session C T → Session C T) → ((s : Session C T) → Keeps s (f s)) → Quiet (modify f)
  modify-Quiet f h = Obeys-modify f h

  module _ {A B : Type 0} where
    pub bind-Quiet :
        {m : Serve C T A} {f : A → Serve C T B}
        → Quiet m
        → ((a : A) → Quiet (f a))
        → Quiet (m >>= f)
    bind-Quiet = Obeys-bind Keeps-preorder

    pub then-Quiet : {m : Serve C T A} {n : Serve C T B} → Quiet m → Quiet n → Quiet (m >> n)
    then-Quiet = Obeys-then Keeps-preorder

    -- Behind what does not return, anything may stand.
    pub stops-Quiet :
        (m : Serve C T A) (n : Serve C T B)
        → Quiet m
        → ((s t : Session C T) (a : A) → m s ≡ (ok a, t) → ⊥)
        → Quiet (m >> n)
    stops-Quiet m n q never = record {
      steps = record {
        run = λ s.
            then_at (λ x. Keeps s x.1) m n s
              (λ e t p.
                subst (λ (x : Result SessionError A × Session C T). Keeps s x.1) p (q.steps.run s))
              (λ a t p. absurd (never s t a p));
      };
      errors = record {
        at = λ s.
            then_at (λ x. OnError IsKnown x.0) m n s
              (λ e t p.
                subst (λ (x : Result SessionError A × Session C T). OnError IsKnown x.0) p
                  (q.errors.at s))
              (λ a t p. absurd (never s t a p));
      };
    }

  module _ {A : Type 0} where
    pub pure-Quiet : (a : A) → Quiet (pure a)
    pure-Quiet = Obeys-pure Keeps-preorder

    pub gets-Quiet : (f : Session C T → A) → Quiet (gets f)
    gets-Quiet = Obeys-gets Keeps-preorder

    pub if-Quiet : (b : Bool) {m n : Serve C T A} → Quiet m → Quiet n → Quiet (if b then m else n)
    if-Quiet = Obeys-if Keeps-preorder

    pub raise_library-Quiet : (e : LibraryError) → Quiet {A = A} (raise (library_error e))
    raise_library-Quiet e = Obeys-raise Keeps-preorder tt

    pub raise_reset-Quiet : (m : String) → Quiet {A = A} (raise (connection_reset m))
    raise_reset-Quiet m = Obeys-raise Keeps-preorder tt

    pub raise_runtime-Quiet : (m : String) → Quiet {A = A} (raise (runtime_error m))
    raise_runtime-Quiet m = Obeys-raise Keeps-preorder tt

    pub raise_value-Quiet : (e : BuildError) → Quiet {A = A} (raise (value_error e))
    raise_value-Quiet e = Obeys-raise Keeps-preorder tt

    -- A test, with what each branch knows of it.
    pub if_at-Quiet :
        (b : Bool) {m n : Serve C T A}
        → (b ≡ true → Quiet m)
        → (b ≡ false → Quiet n)
        → Quiet (if b then m else n)
    if_at-Quiet true h k = h refl
    if_at-Quiet false h k = k refl

pub ruleset block_rules = (
  on_connection-Quiet, on_transport-Quiet, bind-Quiet, then-Quiet, pure-Quiet, gets-Quiet, if-Quiet,
  raise_library-Quiet, raise_reset-Quiet, raise_runtime-Quiet, raise_value-Quiet,
)

module _ {C T : Type 0} where
  pub check_cancelled-Quiet : Quiet {C = C} {T = T} check_cancelled
  unfolding check_cancelled
  check_cancelled-Quiet = search block_rules depth 8

  pub set_closed-Quiet : Quiet {C = C} {T = T} (modify (λ s. record s { closed = true }))
  set_closed-Quiet =
      modify-Quiet _ (λ s. Keeps-fields refl refl refl refl refl refl (λ e. refl) (λ e. e) (λ e. e))

module _ {C T : Type 0} (env : Environment C T) where
  pub flush-Quiet : Quiet (flush env)
  unfolding flush
  flush-Quiet = search block_rules depth 8

  send_goaway-Quiet : (n : ℕ) → Quiet (send_goaway env n)
  unfolding send_goaway
  send_goaway-Quiet n = search (block_rules, set_closed-Quiet) depth 8

  pub close-Quiet : (n : ℕ) → Quiet (close env n)
  unfolding close
  close-Quiet n = search (block_rules, flush-Quiet, send_goaway-Quiet) depth 8

  pub fail-Quiet : {A : Type 0} (m : Text) (n : ℕ) → Quiet (fail env {A = A} m n)
  unfolding fail
  fail-Quiet m n = search (block_rules, close-Quiet) depth 8

  -- What raises does not return.
  pub fail_never :
      {A : Type 0} (m : Text) (n : ℕ) (s t : Session C T) {a : A} → fail env m n s ≡ (ok a, t) → ⊥
  unfolding fail
  fail_never {A} m n s t {a} e =
      let (u, v, closed, raised) =
        then_inv (close env n) (raise {A = A} (library_error (protocol m n))) s t e in
      cc raised

pub ruleset quiet_rules =
    (block_rules, check_cancelled-Quiet, set_closed-Quiet, flush-Quiet, close-Quiet, fail-Quiet)
