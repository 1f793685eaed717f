-- ===== src/Http2/Session/Keeps/Frames.antt =====
-- What the handling of a frame leaves alone of a session.
use solvetls.Base.{ℕ, ◌+◌, ◌≡◌, inl, inr, refl, arith, ◌==◌, if◌then◌else◌, Option, none, some}
use solvetls.Http2.Frames.Codes.{priority_type, goaway_type, priority_update_type, no_error}
use solvetls.Http2.Frames.Payloads.Classes.{IsHeaders, IsSettings, IsGoaway, IsPriorityUpdate}
use solvetls.Http2.Frames.Parse.Classes.{Failed, Failed-cases, Fits, Suits, Suits-Fits}
use solvetls.Exec.{Result, ok, err, pure, modify, try_except}
use solvetls.Exec.Steps.{Steps, Steps-raise}
use solvetls.Exec.Raises.{Raises, Raises-raise}
use solvetls.Exec.Obeys.{Obeys-try}
use solvetls.Wire.Bytes.{Bytes}
use solvetls.Http2.Frames.Data.{
  FrameHeader, ParsedFrame, Payload, headers_payload, settings_payload, goaway_payload,
  priority_update_payload, unknown_payload, Message, message_text,
}
use solvetls.Http2.Frames.Build.{BuildError}
use solvetls.Http2.Library.{LibraryError, protocol, foreign}
use solvetls.Http2.Session.{
  Session, SessionError, library_error, connection_reset, runtime_error, attribute_error, key_error,
  value_error, stuck, or_default, Environment,
}
use solvetls.Http2.Session.Process.{
  set_add, set_first, set_block, check_first, check_continuation, count_block, fail_parsing,
  check_parsed, check_reset, prioritize, process_priority_update, process_goaway, rebuilt,
  strip_priority, wire_for_h2, deliver_wire, deliver_settings, deliver, queue_goaway,
  except_protocol, forward, process_known, process_frame,
}
use solvetls.Http2.Session.Keeps.{
  Keeps, Keeps-preorder, IsKnown, Quiet, Keeps-fields, modify-Quiet, quiet_rules, stops-Quiet,
  if_at-Quiet, if-Quiet, pure-Quiet, bind-Quiet, then-Quiet, flush-Quiet, fail_never,
}
use solvetls.Http2.Session.Keeps.Events.{
  set_cancelled-Quiet, check_priority_limit-Quiet, process_events-Quiet,
}

module _ {C T : Type 0} where
  set_first-Keeps : (p : Payload) (s : Session C T) → Keeps s (set_first p s)
  set_first-Keeps (settings_payload p) s =
      Keeps-fields refl refl refl refl refl refl (λ e. e) (λ e. e) (λ e. e)
  set_first-Keeps _ s = Keeps-fields refl refl refl refl refl refl (λ e. e) (λ e. e) (λ e. e)

  set_first-Quiet : (p : Payload) → Quiet {C = C} {T = T} (modify (set_first p))
  set_first-Quiet p = modify-Quiet _ (set_first-Keeps p)

  set_block-Quiet : (o : Option ℕ) (n : ℕ) → Quiet {C = C} {T = T} (modify (set_block o n))
  set_block-Quiet o n =
      modify-Quiet _ (λ s. Keeps-fields refl refl refl refl refl refl (λ e. e) (λ e. e) (λ e. e))

  set_stream-Quiet :
      (o : Option ℕ) → Quiet {C = C} {T = T} (modify (λ s. record s { continuation_stream = o }))
  set_stream-Quiet o =
      modify-Quiet _ (λ s. Keeps-fields refl refl refl refl refl refl (λ e. e) (λ e. e) (λ e. e))

  add_block-Quiet :
      (n : ℕ)
      → Quiet {C = C} {T = T}
          (modify (λ s. record s { header_block_bytes = s.header_block_bytes + n }))
  add_block-Quiet n =
      modify-Quiet _ (λ s. Keeps-fields refl refl refl refl refl refl (λ e. e) (λ e. e) (λ e. e))

  add_idle-Quiet :
      (i : ℕ)
      → Quiet {C = C} {T = T} (
          modify
            (λ s. record s { prioritized_idle_streams = set_add i s.prioritized_idle_streams }))
  add_idle-Quiet i =
      modify-Quiet _ (λ s. Keeps-fields refl refl refl refl refl refl (λ e. e) (λ e. e) (λ e. e))

ruleset frame_rules = (
  quiet_rules, set_first-Quiet, set_block-Quiet, set_stream-Quiet, add_block-Quiet, add_idle-Quiet,
  set_cancelled-Quiet, check_priority_limit-Quiet,
)

module _ {C T : Type 0} (env : Environment C T) where
  check_first-Quiet : (f : ParsedFrame) → Quiet (check_first env f)
  unfolding check_first
  check_first-Quiet f = search frame_rules depth 10

  check_continuation-Quiet : (h : FrameHeader) → Quiet (check_continuation env h)
  unfolding check_continuation
  check_continuation-Quiet h = search frame_rules depth 8

  count_block-Quiet : (h : FrameHeader) → Quiet (count_block env h)
  unfolding count_block
  count_block-Quiet h = search frame_rules depth 8

  fail_parsing-Quiet : (m : Option Message) (c : Option ℕ) → Quiet (fail_parsing env m c)
  fail_parsing-Quiet none c = search frame_rules
  fail_parsing-Quiet (some m) c = search frame_rules

  check_parsed-Quiet : (p : Payload) → Quiet (check_parsed env p)
  check_parsed-Quiet (unknown_payload p) = fail_parsing-Quiet p.parse_error p.error_code
  check_parsed-Quiet _ = search frame_rules

  check_reset-Quiet : (h : FrameHeader) → Quiet (check_reset env h)
  unfolding check_reset
  check_reset-Quiet h = search frame_rules depth 8

  prioritize-Quiet : (i : ℕ) → Quiet (prioritize env i)
  unfolding prioritize
  prioritize-Quiet i = search frame_rules depth 10

  check_parsed-never :
      (p : Payload)
      → Failed p
      → (s t : Session C T) (u : Unit {0}) → check_parsed env p s ≡ (ok u, t)
      → ⊥
  check_parsed-never (unknown_payload p) (m, e) s t u h =
      fail_never env (message_text m) (or_default no_error p.error_code) s t (rw e at h)
  check_parsed-never _ k s t u h = k

  process_priority_update-Quiet :
      (p : Payload) → IsPriorityUpdate p → Quiet (process_priority_update env p)
  process_priority_update-Quiet (priority_update_payload p) k =
      prioritize-Quiet p.prioritized_stream_id
  process_priority_update-Quiet _ k = absurd k

  process_goaway-Quiet : (p : Payload) → IsGoaway p → Quiet (process_goaway env p)
  process_goaway-Quiet (goaway_payload p) k = search frame_rules
  process_goaway-Quiet _ k = absurd k

  rebuilt-Quiet : (r : Result BuildError Bytes) → Quiet (rebuilt env r)
  rebuilt-Quiet (ok w) = search frame_rules
  rebuilt-Quiet (err e) = search frame_rules

  strip_priority-Quiet :
      (h : FrameHeader) (p : Payload) → IsHeaders p → Quiet (strip_priority env h p)
  strip_priority-Quiet h (headers_payload p) k = rebuilt-Quiet _
  strip_priority-Quiet h _ k = absurd k

  wire_for_h2-Quiet : (f : ParsedFrame) (w : Bytes) → Fits f → Quiet (wire_for_h2 env f w)
  unfolding wire_for_h2
  wire_for_h2-Quiet f w k =
      if_at-Quiet _ (λ e. strip_priority-Quiet f.header f.payload (k.headers (ground (arith, e))))
        (λ e. pure-Quiet w)

  deliver_wire-Quiet : (w : Bytes) → Quiet (deliver_wire env w)
  unfolding deliver_wire
  deliver_wire-Quiet w = search (frame_rules, process_events-Quiet)

  deliver_settings-Quiet :
      (p : Payload) (w : Bytes) → IsSettings p → Quiet (deliver_settings env p w)
  deliver_settings-Quiet (settings_payload p) w k = search (frame_rules, deliver_wire-Quiet)
  deliver_settings-Quiet _ w k = absurd k

  deliver-Quiet : (f : ParsedFrame) (w : Bytes) → Fits f → Quiet (deliver env f w)
  unfolding deliver
  deliver-Quiet f w k =
      if_at-Quiet _ (λ e. deliver_settings-Quiet f.payload w (k.settings (ground (arith, e))))
        (λ e. deliver_wire-Quiet w)

  queue_goaway-Quiet : (e : LibraryError) → Quiet (queue_goaway env (library_error e))
  unfolding queue_goaway
  queue_goaway-Quiet e = search frame_rules depth 12

  except_protocol-Steps : (e : SessionError) → Steps Keeps (except_protocol env e)
  except_protocol-Steps (library_error (protocol m c)) = (queue_goaway-Quiet (protocol m c)).steps
  except_protocol-Steps (library_error (foreign n)) = Steps-raise Keeps-preorder _
  except_protocol-Steps (connection_reset m) = Steps-raise Keeps-preorder _
  except_protocol-Steps (runtime_error m) = Steps-raise Keeps-preorder _
  except_protocol-Steps attribute_error = Steps-raise Keeps-preorder _
  except_protocol-Steps key_error = Steps-raise Keeps-preorder _
  except_protocol-Steps (value_error e) = Steps-raise Keeps-preorder _
  except_protocol-Steps stuck = Steps-raise Keeps-preorder _

  except_protocol-Raises : (e : SessionError) → IsKnown e → Raises IsKnown (except_protocol env e)
  except_protocol-Raises (library_error (protocol m c)) k =
      (queue_goaway-Quiet (protocol m c)).errors
  except_protocol-Raises (library_error (foreign n)) k = Raises-raise tt
  except_protocol-Raises (connection_reset m) k = Raises-raise tt
  except_protocol-Raises (runtime_error m) k = Raises-raise tt
  except_protocol-Raises attribute_error k = Raises-raise k
  except_protocol-Raises key_error k = Raises-raise k
  except_protocol-Raises (value_error e) k = Raises-raise k
  except_protocol-Raises stuck k = Raises-raise k

  tried-Quiet :
      (f : ParsedFrame) (w : Bytes)
      → Fits f
      → Quiet (try_except (deliver env f w) (except_protocol env))
  tried-Quiet f w k =
      Obeys-try Keeps-preorder (deliver-Quiet f w k) except_protocol-Steps except_protocol-Raises

  forward-Quiet : (f : ParsedFrame) (w : Bytes) → Fits f → Quiet (forward env f w)
  unfolding forward
  forward-Quiet f w k =
      bind-Quiet (wire_for_h2-Quiet f w k) (λ x. then-Quiet (tried-Quiet f x k) (flush-Quiet env))

  -- The frame's payload has been parsed.
  by_type-Quiet :
      (f : ParsedFrame) (w : Bytes)
      → Fits f
      → Quiet (
          if f.header.type == priority_type
          then pure tt
          else if f.header.type == priority_update_type
          then process_priority_update env f.payload
          else if f.header.type == goaway_type
          then process_goaway env f.payload
          else forward env f w)
  by_type-Quiet f w k = if-Quiet (f.header.type == priority_type) (pure-Quiet tt) (
      if_at-Quiet (f.header.type == priority_update_type)
        (λ e. process_priority_update-Quiet f.payload (k.priority_update (ground (arith, e))))
        (λ _.
          if_at-Quiet (f.header.type == goaway_type)
            (λ e. process_goaway-Quiet f.payload (k.goaway (ground (arith, e))))
            (λ _. forward-Quiet f w k)))

  process_known-Quiet : (f : ParsedFrame) (w : Bytes) → Suits f → Quiet (process_known env f w)
  unfolding process_known
  process_known-Quiet f w k = elim (Failed-cases f.payload) [
    | inl failed ↦
        stops-Quiet _ _ (check_parsed-Quiet f.payload) (check_parsed-never f.payload failed)
    | inr parsed ↦
        let by_type = by_type-Quiet f w (Suits-Fits f k parsed) in
        then-Quiet (check_parsed-Quiet f.payload) (
          then-Quiet (search frame_rules)
            (then-Quiet (search (frame_rules, check_reset-Quiet)) by_type))
  ]

  pub process_frame-Quiet : (f : ParsedFrame) (w : Bytes) → Suits f → Quiet (process_frame env f w)
  unfolding process_frame
  process_frame-Quiet f w k = then-Quiet (check_first-Quiet f) (
      then-Quiet (check_continuation-Quiet f.header) (
        then-Quiet (search (frame_rules, count_block-Quiet))
          (if-Quiet _ (pure-Quiet tt) (process_known-Quiet f w k))))
