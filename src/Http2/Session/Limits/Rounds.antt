-- ===== src/Http2/Session/Limits/Rounds.antt =====
-- What the loop over the buffered frames does.
use solvetls.Base.{
  ℕ, zero, suc, ◌+◌, ◌≤◌, ◌<◌, ◌≡◌, refl, ap, ap₂, subst, ◌∙◌, arith, Bool, true, false, ◌++◌,
  append_assoc, length, take, drop, take-take, take-append-drop, length-append, length-take,
  length-drop, ltb, ltb_false→le, if◌then◌else◌, Bool-cases, inl, inr,
}
use solvetls.Base.Text.{codes}
use solvetls.Exec.{Result, ok, err, pure, ◌>>=◌, ◌>>◌}
use solvetls.Exec.Run.{then_at, bind_at}
use solvetls.Exec.Raises.{OnError}
use solvetls.Wire.Bytes.{Bytes, unpack}
use solvetls.Http2.Frames.Codes.{frame_size_error}
use solvetls.Http2.Frames.Data.{ParsedFrame}
use solvetls.Http2.Frames.Cursor.{FrameReader}
use solvetls.Http2.Frames.Parse.{parse_frame}
use solvetls.Http2.Session.{Session, SessionError, Environment, when, fail, max_capture_entries}
use solvetls.Http2.Session.Receive.{
  declared, reader_for, drop_buffer, take_frame, complete_frame, read_frame, next_frame,
  receive_frames,
}
use solvetls.Http2.Session.Ends.{next_frame-Raises}
use solvetls.Http2.Frames.Parse.Classes.{parse_frame-Suits}
use solvetls.Http2.Session.Keeps.{IsKnown, Keeps-preorder, Keeps, fail-Quiet, fail_never}
use solvetls.Http2.Session.Limits.{raw_bytes, wire_of, IsWithin, whole_frame}
use solvetls.Http2.Session.Limits.Admits.{
  Lasts, Lasts-preorder, Keeps-Lasts, OnOk, Admits, admit-Admits,
}

-- From a state within the limits: the limits hold; what is returned has lost no byte; the buffer does not
-- grow.
pub record Rounds {C T A : Type 0} (s : Session C T) (x : Result SessionError A × Session C T)
    : Type 0 where
  pub within : IsWithin x.1
  pub same_bytes : x.1.capture_bytes ≡ s.capture_bytes
  pub whole : OnOk x.0 (wire_of x.1 ≡ wire_of s)
  pub lasts : Lasts s x.1

-- A whole frame takes nine bytes at least.
abbrev pub Shorter : {C T : Type 0} → Session C T → Result SessionError Bool × Session C T → Type 0
Shorter s (ok true, t) = length t.buffer + 9 ≤ length s.buffer
Shorter s (ok false, t) = Unit
Shorter s (err e, t) = Unit

whole_chain :
    {A : Type 0} {xs ys : Bytes} (zs : Bytes) (r : Result SessionError A)
    → ys ≡ xs
    → OnOk r (zs ≡ ys)
    → OnOk r (zs ≡ xs)
whole_chain zs (ok a) h k = k ∙ h
whole_chain zs (err e) h k = tt

module _ {C T : Type 0} where
  pub Keeps-IsWithin : {s t : Session C T} → Keeps s t → IsWithin s → IsWithin t
  Keeps-IsWithin k w =
      let c = k.captures in
      record {
        frames = rw c.same_frames w.frames;
        entries = omega (arith, c.same_entries, w.entries);
        counted = rw (c.same_frames, c.same_buffer, c.same_bytes) w.counted;
        stored = rw (c.same_frames, c.same_buffer) w.stored;
      }

  whole_kept :
      {A : Type 0} (s t : Session C T) (r : Result SessionError A)
      → Keeps s t
      → OnOk r (wire_of t ≡ wire_of s)
  whole_kept s t (ok a) k =
      ap₂ (λ fs (b : Bytes). raw_bytes fs ++ b) k.captures.same_frames k.captures.same_buffer
  whole_kept s t (err e) k = tt

  pub Keeps-Rounds :
      {A : Type 0} (s : Session C T) (x : Result SessionError A × Session C T)
      → Keeps s x.1
      → IsWithin s
      → Rounds s x
  Keeps-Rounds s (r, t) k w = record {
    within = Keeps-IsWithin k w;
    same_bytes = k.captures.same_bytes;
    whole = whole_kept s t r k;
    lasts = Keeps-Lasts k;
  }

  -- What returns, and then something else.
  Rounds-chain :
      {A B : Type 0} (s t : Session C T) (a : A) (x : Result SessionError B × Session C T)
      → Rounds s (ok a, t)
      → Rounds t x
      → Rounds s x
  Rounds-chain s t a (r, u) h k = record {
    within = k.within;
    same_bytes = k.same_bytes ∙ h.same_bytes;
    whole = whole_chain (wire_of u) r h.whole k.whole;
    lasts = Lasts-preorder.chain s t u h.lasts k.lasts;
  }

module _ {C T : Type 0} (env : Environment C T) (s : Session C T) (w : IsWithin s) where
  module _ (n : ℕ) (size : n ≡ 9 + declared s.buffer) (room : n ≤ length s.buffer) where
    whole_wire :
        (f : ParsedFrame) (r : FrameReader) (maximum : ℕ)
        → parse_frame (reader_for (take n s.buffer) maximum s.capture_entries) ≡ (ok f, r)
        → (f.raw ≡ take n s.buffer) × (s.capture_entries + r.entries_read ≤ max_capture_entries)
    whole_wire f r maximum e =
        let same : declared (take n s.buffer) ≡ declared s.buffer =
          ap unpack (take-take 3 n s.buffer (omega (arith, size))) in
        whole_frame (take n s.buffer) maximum s.capture_entries f r w.entries
          (omega (arith, size, same, room, length-take n s.buffer)) e

    taken-Admits :
        (maximum : ℕ)
        → Admits
            (take n s.buffer)
            (drop_buffer n s)
            (take_frame env (take n s.buffer) maximum (drop_buffer n s))
    unfolding take_frame ◌>>=◌
    taken-Admits maximum =
        admit-Admits env (drop_buffer n s) w.frames (take n s.buffer) _ w.entries (λ f r e.
          let (same, entries) = whole_wire f r maximum e in
          (same, entries, parse_frame-Suits _ r f e))

    Admits-IsWithin :
        (x : Result SessionError (Unit {0}) × Session C T)
        → Admits (take n s.buffer) (drop_buffer n s) x
        → IsWithin x.1
    Admits-IsWithin (r, t) h =
        let small : length (wire_of t) ≤ length (wire_of s) = omega (
          arith,
          length-append (raw_bytes t.capture.frames) t.buffer,
          length-append (raw_bytes s.capture.frames) s.buffer,
          h.size,
          ap length h.same_buffer,
          length-take n s.buffer,
          length-drop n s.buffer,
        ) in
        record {
          frames = h.frames;
          entries = h.entries;
          counted = omega (arith, small, w.counted, h.same_bytes);
          stored = omega (arith, small, w.stored);
        }

    Admits-wire_of :
        (t : Session C T)
        → Admits (take n s.buffer) (drop_buffer n s) (ok tt, t)
        → wire_of t ≡ wire_of s
    Admits-wire_of t h =
        ap₂ (λ (a : Bytes) b. a ++ b) h.whole h.same_buffer
        ∙ (append_assoc (raw_bytes s.capture.frames) (take n s.buffer) (drop n s.buffer)
            ∙ ap (λ b. raw_bytes s.capture.frames ++ b) (take-append-drop n s.buffer))

    same_history : {t : Session C T} → Lasts (drop_buffer n s) t → Lasts s t
    same_history l = record {
      closed = l.closed;
      cancelled = l.cancelled;
      ready = l.ready;
      request = l.request;
    }

    taken-Rounds :
        (maximum : ℕ)
        → let x = (take_frame env (take n s.buffer) maximum >> pure true) (drop_buffer n s) in
          Rounds s x × Shorter s x
    taken-Rounds maximum =
        then_at (λ x. Rounds s x × Shorter s x) (take_frame env (take n s.buffer) maximum)
          (pure true) (drop_buffer n s)
          (λ e t p.
            let h = subst (Admits (take n s.buffer) (drop_buffer n s)) p (taken-Admits maximum) in
            (
              record {
                within = Admits-IsWithin _ h;
                same_bytes = h.same_bytes;
                whole = tt;
                lasts = same_history h.lasts;
              },
              tt,
            ))
          (λ u t p.
            let h = subst (Admits (take n s.buffer) (drop_buffer n s)) p (taken-Admits maximum) in
            (
              record {
                within = Admits-IsWithin _ h;
                same_bytes = h.same_bytes;
                whole = Admits-wire_of t h;
                lasts = same_history h.lasts;
              },
              omega (arith, size, room, ap length h.same_buffer, length-drop n s.buffer),
            ))

  idle-Rounds : Rounds s (ok false, s) × Shorter s (ok false, s)
  idle-Rounds =
      (record { within = w; same_bytes = refl; whole = refl; lasts = Lasts-preorder.stay s }, tt)

  complete_frame-Rounds :
      (maximum : ℕ)
      → Rounds s (complete_frame env s.buffer maximum s)
        × Shorter s (complete_frame env s.buffer maximum s)
  unfolding complete_frame ◌>>=◌ ◌>>◌
  complete_frame-Rounds maximum =
      elim (Bool-cases (ltb (length s.buffer) (9 + declared s.buffer))) [
        | inl short ↦ rw short idle-Rounds
        | inr whole ↦ rw whole (
            taken-Rounds (9 + declared s.buffer) refl
              (ltb_false→le (length s.buffer) (9 + declared s.buffer) whole) maximum)
      ]

  size_fault-Rounds :
      (maximum : ℕ) (b : Bool)
      → let x =
          (when b (fail env (codes "HTTP/2 frame size limit exceeded") frame_size_error)
              >> complete_frame env s.buffer maximum)
            s in
        Rounds s x × Shorter s x
  unfolding ◌>>=◌ ◌>>◌
  size_fault-Rounds maximum true =
      let fault =
        fail env {A = Unit {0}} (codes "HTTP/2 frame size limit exceeded") frame_size_error in
      then_at (λ x. Rounds s x × Shorter s x) fault (complete_frame env s.buffer maximum) s
        (λ e t p.
          let k =
            subst (λ (x : Result SessionError (Unit {0}) × Session C T). Keeps s x.1) p
              ((fail-Quiet env _ _).steps.run s) in
          (Keeps-Rounds s (err e, t) k w, tt))
        (λ u t p. absurd (fail_never env _ _ s t p))
  size_fault-Rounds maximum false = complete_frame-Rounds maximum

  next_frame-Rounds : Rounds s (next_frame env s) × Shorter s (next_frame env s)
  unfolding next_frame read_frame ◌>>=◌
  next_frame-Rounds = elim (Bool-cases (ltb (length s.buffer) 9)) [
    | inl short ↦ rw short idle-Rounds
    | inr long ↦ rw long (size_fault-Rounds _ _)
  ]

module _ {C T : Type 0} (env : Environment C T) where
  raised-Rounds :
      {A B : Type 0} (s t : Session C T) (e : SessionError)
      → Rounds {A = A} s (err e, t)
      → Rounds {A = B} s (err e, t)
  raised-Rounds s t e h = record {
    within = h.within;
    same_bytes = h.same_bytes;
    whole = tt;
    lasts = h.lasts;
  }

  round_after :
      (fuel : ℕ) (s t : Session C T) (more : Bool)
      → Rounds s (ok more, t)
      → (IsWithin t → Rounds t (receive_frames env fuel t))
      → Rounds s ((if more then receive_frames env fuel else pure tt) t)
  round_after fuel s t true h k = Rounds-chain s t true _ h (k h.within)
  round_after fuel s t false h k = record {
    within = h.within;
    same_bytes = h.same_bytes;
    whole = h.whole;
    lasts = h.lasts;
  }

  pub receive_frames-Rounds :
      (fuel : ℕ) (s : Session C T) → IsWithin s → Rounds s (receive_frames env fuel s)
  unfolding receive_frames
  receive_frames-Rounds zero s w = Keeps-Rounds s _ (Keeps-preorder.stay s) w
  receive_frames-Rounds (suc fuel) s w =
      let (h, shorter) = next_frame-Rounds env s w in
      bind_at (Rounds s) (next_frame env) _ s (λ e t p. raised-Rounds s t e (subst (Rounds s) p h))
        (λ more t p.
          round_after fuel s t more (subst (Rounds s) p h) (receive_frames-Rounds fuel t))

  IsKnown-after :
      (fuel : ℕ) (s t : Session C T) (more : Bool)
      → Shorter s (ok more, t)
      → length s.buffer < suc fuel
      → (length t.buffer < fuel → OnError IsKnown (receive_frames env fuel t).0)
      → OnError IsKnown ((if more then receive_frames env fuel else pure tt) t).0
  IsKnown-after fuel s t true h le k = k (omega (arith, h, le))
  IsKnown-after fuel s t false h le k = tt

  -- With more fuel than bytes the loop comes to its end.
  pub receive_frames-IsKnown :
      (fuel : ℕ) (s : Session C T)
      → IsWithin s
      → length s.buffer < fuel
      → OnError IsKnown (receive_frames env fuel s).0
  unfolding receive_frames
  receive_frames-IsKnown zero s w le = absurd (omega (arith, le))
  receive_frames-IsKnown (suc fuel) s w le =
      let (h, shorter) = next_frame-Rounds env s w in
      bind_at (λ x. OnError IsKnown x.0) (next_frame env) _ s
        (λ e t p.
          subst (λ (x : Result SessionError Bool × Session C T). OnError IsKnown x.0) p
            ((next_frame-Raises env).at s))
        (λ more t p.
          IsKnown-after fuel s t more (subst (Shorter s) p shorter) le
            (receive_frames-IsKnown fuel t (subst (Rounds s) p h).within))
