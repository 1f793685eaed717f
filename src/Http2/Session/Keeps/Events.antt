-- ===== src/Http2/Session/Keeps/Events.antt =====
-- What each event of h2 leaves alone of a session.
use solvetls.Base.{
  ℕ, ◌+◌, ◌≡◌, refl, sym, ap, subst, Bool, true, false, List, [], ◌∷◌, Option, none, some,
  if◌then◌else◌,
}
use solvetls.Exec.{Result, ok, err, modify, ◌>>=◌, ◌>>◌}
use solvetls.Exec.Obeys.{Obeys, Obeys-weaken, Obeys-modify, Obeys-bind, Obeys-then, Obeys-if}
use solvetls.Wire.Bytes.{Bytes}
use solvetls.Base.Chars.{is_token}
use solvetls.Base.Text.{codes}
use solvetls.Base.Sort.{Text}
use solvetls.Http2.Validation.{Fields, ProtocolError, protocol_message, last_named}
use solvetls.Http2.Validation.Request.{or_empty, validate_fields}
use solvetls.Http2.Validation.Target.{IsTarget, validate_fields-IsTarget}
use solvetls.Http2.Frames.Codes.{refused_stream, protocol_error}
use solvetls.Http2.Adapter.Connection.{on_h2}
use solvetls.Http2.Library.{
  Event, request_received, trailers_received, data_received, stream_ended, stream_reset,
  other_event,
}
use solvetls.Http2.Session.{Session, SessionError, Serve, Environment, on_connection, is_some}
use solvetls.Http2.Session.Events.{
  forget_idle, set_request, set_ready, set_expectation_failed, set_trailers, check_priority_limit,
  fail_invalid, check_fields, check_content_length, check_method, check_expectations,
  accept_request, process_request, process_trailers, count_body, process_data, finish_request,
  process_end, process_reset, process_event, process_events,
}
use solvetls.Http2.Session.Keeps.{
  Captures, IsKnown, Captures-preorder, Quiet, Keeps-fields, modify-Quiet, on_connection-Quiet,
  gets-Quiet, then-Quiet, quiet_rules, if-Quiet, stops-Quiet, fail_never,
}

module _ {C T : Type 0} where
  forget_idle-Quiet : (i : ℕ) → Quiet {C = C} {T = T} (modify (forget_idle i))
  forget_idle-Quiet i =
      modify-Quiet _ (λ s. Keeps-fields refl refl refl refl refl refl (λ e. e) (λ e. e) (λ e. e))

  set_ready-Quiet : Quiet {C = C} {T = T} (modify set_ready)
  set_ready-Quiet =
      modify-Quiet _ (λ s. Keeps-fields refl refl refl refl refl refl (λ e. e) (λ e. e) (λ e. refl))

  set_expectation_failed-Quiet : Quiet {C = C} {T = T} (modify set_expectation_failed)
  set_expectation_failed-Quiet =
      modify-Quiet _ (λ s. Keeps-fields refl refl refl refl refl refl (λ e. e) (λ e. e) (λ e. e))

  set_trailers-Quiet : (h : Fields) → Quiet {C = C} {T = T} (modify (set_trailers h))
  set_trailers-Quiet h =
      modify-Quiet _ (λ s. Keeps-fields refl refl refl refl refl refl (λ e. e) (λ e. e) (λ e. e))

  pub set_cancelled-Quiet : Quiet {C = C} {T = T} (modify (λ s. record s { cancelled = true }))
  set_cancelled-Quiet =
      modify-Quiet _ (λ s. Keeps-fields refl refl refl refl refl refl (λ e. e) (λ e. refl) (λ e. e))

  set_expected-Quiet :
      (n : Option ℕ) → Quiet {C = C} {T = T} (modify (λ s. record s { expected_length = n }))
  set_expected-Quiet n =
      modify-Quiet _ (λ s. Keeps-fields refl refl refl refl refl refl (λ e. e) (λ e. e) (λ e. e))

  add_body-Quiet :
      (n : ℕ)
      → Quiet {C = C} {T = T} (modify (λ s. record s { request_bytes = s.request_bytes + n }))
  add_body-Quiet n =
      modify-Quiet _ (λ s. Keeps-fields refl refl refl refl refl refl (λ e. e) (λ e. e) (λ e. e))

abbrev IsGiven : Option Bytes → Type 0
IsGiven none = ⊥
IsGiven (some v) = Unit

token-IsGiven : (m : Option Bytes) → is_token (or_empty m) ≡ true → IsGiven m
unfolding is_token
token-IsGiven none h = cc h
token-IsGiven (some m) h = tt

method-IsGiven :
    (ipv6 : Text → Option Text) (h : Fields)
    → IsTarget ipv6 h
    → IsGiven (last_named (codes ":method") h)
method-IsGiven ipv6 h k = token-IsGiven _ k.method_token

ruleset event_rules = (
  quiet_rules, forget_idle-Quiet, set_ready-Quiet, set_expectation_failed-Quiet, set_trailers-Quiet,
  set_cancelled-Quiet, set_expected-Quiet, add_body-Quiet,
)

module _ {C T : Type 0} (env : Environment C T) where
  pub check_priority_limit-Quiet : Quiet (check_priority_limit env)
  unfolding check_priority_limit
  check_priority_limit-Quiet = search event_rules depth 8

  fail_invalid-Quiet : (r : Result ProtocolError (Unit {0})) → Quiet (fail_invalid env r)
  fail_invalid-Quiet (ok u) = search event_rules
  fail_invalid-Quiet (err e) = search event_rules

  check_fields-Quiet : (h : Fields) (t : Bool) → Quiet (check_fields env h t)
  unfolding check_fields
  check_fields-Quiet h t = fail_invalid-Quiet _

  check_content_length-Quiet : (v : Option Bytes) → Quiet (check_content_length env v)
  unfolding check_content_length
  check_content_length-Quiet none = search event_rules
  check_content_length-Quiet (some v) = search event_rules depth 8

  check_method-Quiet :
      (m : Option Bytes) (b : Bool) (i : ℕ) → IsGiven m → Quiet (check_method env m b i)
  check_method-Quiet none b i k = absurd k
  check_method-Quiet (some m) b i k = search event_rules depth 8

  check_expectations-Quiet :
      (i : ℕ) (h : Fields) (b : Bool)
      → IsGiven (last_named (codes ":method") h)
      → Quiet (check_expectations env i h b)
  unfolding check_expectations
  check_expectations-Quiet i h b k =
      if-Quiet _ (then-Quiet set_expectation_failed-Quiet set_ready-Quiet)
        (check_method-Quiet _ _ i k)

  -- Fields that are refused end the method.
  check_fields-never :
      (h : Fields) (t : Bool) (e : ProtocolError) (s u : Session C T) (a : Unit {0})
      → validate_fields env.ipv6 env.h2_validate h t ≡ err e
      → check_fields env h t s ≡ (ok a, u)
      → ⊥
  unfolding check_fields
  check_fields-never h t e s u a invalid k =
      fail_never env (protocol_message e) protocol_error s u (rw invalid at k)

  captured : {A : Type 0} {m : Serve C T A} → Quiet m → Obeys Captures IsKnown m
  captured q = Obeys-weaken (λ s t k. k.captures) q

  set_request-Captures :
      (i : ℕ) (h : Fields) → Obeys {S = Session C T} Captures IsKnown (modify (set_request i h))
  set_request-Captures i h = Obeys-modify _ (λ s. record {
    same_buffer = refl;
    same_bytes = refl;
    same_entries = refl;
    same_frames = refl;
    closed = λ e. e;
    cancelled = λ e. e;
    ready = λ e. e;
  })

  accept_valid :
      (i : ℕ) (h : Fields) (b : Bool) (r : Result ProtocolError (Unit {0}))
      → validate_fields env.ipv6 env.h2_validate h false ≡ r
      → Obeys Captures IsKnown (
          check_fields env h false
          >> (modify (set_request i h)
              >> (check_content_length env (last_named (codes "content-length") h)
                  >> check_expectations env i h b)))
  accept_valid i h b (err e) invalid = captured (
      stops-Quiet _ _ (check_fields-Quiet h false)
        (λ s u a k. check_fields-never h false e s u a invalid k))
  accept_valid i h b (ok u) valid =
      let given =
        method-IsGiven env.ipv6 h (validate_fields-IsTarget env.ipv6 env.h2_validate h valid).1 in
      Obeys-then Captures-preorder (captured (check_fields-Quiet h false)) (
        Obeys-then Captures-preorder (set_request-Captures i h) (
          captured
            (then-Quiet (check_content_length-Quiet _) (check_expectations-Quiet i h b given))))

  -- Taking a request changes the request only.
  accept_request-Captures :
      (i : ℕ) (h : Fields) (b : Bool) → Obeys Captures IsKnown (accept_request env i h b)
  unfolding accept_request
  accept_request-Captures i h b =
      Obeys-then Captures-preorder (captured check_priority_limit-Quiet) (accept_valid i h b _ refl)

  process_request-Captures :
      (i : ℕ) (h : Fields) (b : Bool) → Obeys Captures IsKnown (process_request env i h b)
  unfolding process_request
  process_request-Captures i h b = Obeys-then Captures-preorder (captured (forget_idle-Quiet i)) (
      Obeys-bind Captures-preorder (captured (gets-Quiet (λ s. s.capture.stream_id))) (λ stream.
        Obeys-if Captures-preorder (is_some stream)
          (captured (on_connection-Quiet (on_h2 (env.library.reset_stream i refused_stream))))
          (accept_request-Captures i h b)))

  -- With a request in hand, another stream is refused.
  refuses :
      (i j : ℕ) (h : Fields) (b : Bool) (s : Session C T)
      → s.capture.stream_id ≡ some j
      → process_request env i h b s
        ≡ on_connection (on_h2 (env.library.reset_stream i refused_stream)) (forget_idle i s)
  unfolding process_request ◌>>=◌ ◌>>◌
  refuses i j h b s e =
      ap
        (λ o.
          (if is_some o
              then on_connection (on_h2 (env.library.reset_stream i refused_stream))
              else accept_request env i h b)
            (forget_idle i s))
        e

  process_request-Quiet : (i : ℕ) (h : Fields) (b : Bool) → Quiet (process_request env i h b)
  process_request-Quiet i h b = record {
    steps = record {
      run = λ s. record {
        captures = (process_request-Captures i h b).steps.run s;
        request = λ j e.
            let refused = on_connection-Quiet (on_h2 (env.library.reset_stream i refused_stream)) in
            subst
              (λ (x : Result SessionError (Unit {0}) × Session C T).
                (x.1.capture.stream_id ≡ some j) × (x.1.capture.headers ≡ s.capture.headers))
              (sym (refuses i j h b s e)) ((refused.steps.run (forget_idle i s)).request j e);
      };
    };
    errors = (process_request-Captures i h b).errors;
  }

  process_trailers-Quiet : (i : ℕ) (h : Fields) → Quiet (process_trailers env i h)
  unfolding process_trailers
  process_trailers-Quiet i h = search (event_rules, check_fields-Quiet) depth 8

  count_body-Quiet : (n : ℕ) → Quiet (count_body env n)
  unfolding count_body
  count_body-Quiet n = search event_rules depth 8

  process_data-Quiet : (i : ℕ) (xs : Bytes) (n : ℕ) → Quiet (process_data env i xs n)
  unfolding process_data
  process_data-Quiet i xs n = search (event_rules, count_body-Quiet) depth 8

  finish_request-Quiet : Quiet (finish_request env)
  unfolding finish_request
  finish_request-Quiet = search event_rules depth 8

  process_end-Quiet : (i : ℕ) → Quiet (process_end env i)
  unfolding process_end
  process_end-Quiet i = search (event_rules, finish_request-Quiet) depth 8

  process_reset-Quiet : (i : ℕ) → Quiet (process_reset env i)
  unfolding process_reset
  process_reset-Quiet i = search event_rules depth 8

  process_event-Quiet : (e : Event) → Quiet (process_event env e)
  process_event-Quiet (request_received i h b) = process_request-Quiet i h b
  process_event-Quiet (trailers_received i h) = process_trailers-Quiet i h
  process_event-Quiet (data_received i xs n) = process_data-Quiet i xs n
  process_event-Quiet (stream_ended i) = process_end-Quiet i
  process_event-Quiet (stream_reset i) = process_reset-Quiet i
  process_event-Quiet other_event = search event_rules

  pub process_events-Quiet : (es : List Event) → Quiet (process_events env es)
  unfolding process_events
  process_events-Quiet [] = search event_rules
  process_events-Quiet (e ∷ es) = then-Quiet (process_event-Quiet e) (process_events-Quiet es)
