-- ===== src/Http2/Session/Limits/Admits.antt =====
-- What the session captures of one frame.
use solvetls.Base.{
  ℕ, ◌+◌, ◌≤◌, ◌≡◌, refl, sym, ap, subst, ◌∙◌, arith, Bool, true, false, List, [], ◌∷◌, ◌++◌,
  length, length-append, some, leb, inl, inr,
}
use solvetls.Base.Text.{codes}
use solvetls.Base.Sort.{Text}
use solvetls.Exec.{Result, ok, err, modify, ◌>>=◌, ◌>>◌}
use solvetls.Exec.Run.{then_at, Result-cases}
use solvetls.Exec.Steps.{IsPreorder}
use solvetls.Wire.Bytes.{Bytes}
use solvetls.Http2.Frames.Codes.{enhance_your_calm}
use solvetls.Http2.Frames.Data.{ParsedFrame, FrameError, message_text}
use solvetls.Http2.Frames.Cursor.{FrameReader}
use solvetls.Http2.Session.{
  Session, SessionError, Serve, Environment, when, fail, max_capture_frames, max_capture_entries,
}
use solvetls.Http2.Session.Process.{process_frame}
use solvetls.Http2.Session.Receive.{add_entries, add_frame, keep_frame, admit}
use solvetls.Http2.Session.Keeps.{Keeps, fail-Quiet, fail_never}
use solvetls.Http2.Frames.Parse.Classes.{Suits}
use solvetls.Http2.Session.Keeps.Frames.{process_frame-Quiet}
use solvetls.Http2.Session.Limits.{raw_bytes, raw_bytes-append}

-- The accepted request stays, and what has come to an end has.
pub record Lasts {C T : Type 0} (s t : Session C T) : Type 0 where
  pub closed : s.closed ≡ true → t.closed ≡ true
  pub cancelled : s.cancelled ≡ true → t.cancelled ≡ true
  pub ready : s.request_ready ≡ true → t.request_ready ≡ true
  pub request :
      (i : ℕ)
      → s.capture.stream_id ≡ some i
      → (t.capture.stream_id ≡ some i) × (t.capture.headers ≡ s.capture.headers)

-- The equation holds of what is returned.
abbrev pub OnOk : {E A : Type 0} → Result E A → Type 0 → Type 0
OnOk (ok a) P = P
OnOk (err e) P = Unit

-- From the state `s`: no more than `wire` is captured, and all of it if the method returns.
pub record Admits {C T : Type 0} (wire : Bytes) (s : Session C T)
    (x : Result SessionError (Unit {0}) × Session C T) : Type 0 where
  pub same_buffer : x.1.buffer ≡ s.buffer
  pub same_bytes : x.1.capture_bytes ≡ s.capture_bytes
  pub entries : x.1.capture_entries ≤ max_capture_entries
  pub frames : length x.1.capture.frames ≤ max_capture_frames
  pub size :
      length (raw_bytes x.1.capture.frames) ≤ length (raw_bytes s.capture.frames) + length wire
  pub whole : OnOk x.0 (raw_bytes x.1.capture.frames ≡ raw_bytes s.capture.frames ++ wire)
  pub lasts : Lasts s x.1

whole_after :
    (fs gs hs : List ParsedFrame) (wire : Bytes) (r : Result SessionError (Unit {0}))
    → hs ≡ gs
    → raw_bytes gs ≡ raw_bytes fs ++ wire
    → OnOk r (raw_bytes hs ≡ raw_bytes fs ++ wire)
whole_after fs gs hs wire (ok a) same e = ap raw_bytes same ∙ e
whole_after fs gs hs wire (err x) same e = tt

module _ {C T : Type 0} where
  pub Lasts-preorder : IsPreorder (Lasts {C = C} {T = T})
  Lasts-preorder = record {
    stay = λ s. record {
      closed = λ e. e;
      cancelled = λ e. e;
      ready = λ e. e;
      request = λ i e. (e, refl);
    };
    chain = λ s t u h k. record {
      closed = λ e. k.closed (h.closed e);
      cancelled = λ e. k.cancelled (h.cancelled e);
      ready = λ e. k.ready (h.ready e);
      request = λ i e.
          let (e', same) = h.request i e in
          let (e'', same') = k.request i e' in (e'', same' ∙ same);
    };
  }

  pub Keeps-Lasts : {s t : Session C T} → Keeps s t → Lasts s t
  Keeps-Lasts k = record {
    closed = k.captures.closed;
    cancelled = k.captures.cancelled;
    ready = k.captures.ready;
    request = k.request;
  }

  -- What follows the capture of a frame leaves it alone.
  Admits-Keeps :
      (wire : Bytes) (s t : Session C T) (x : Result SessionError (Unit {0}) × Session C T)
      → Admits wire s (ok tt, t)
      → Keeps t x.1
      → Admits wire s x
  Admits-Keeps wire s t (r, u) h k =
      let c = k.captures in
      record {
        same_buffer = c.same_buffer ∙ h.same_buffer;
        same_bytes = c.same_bytes ∙ h.same_bytes;
        entries = omega (arith, h.entries, c.same_entries);
        frames = rw c.same_frames h.frames;
        size = rw c.same_frames h.size;
        whole =
            whole_after s.capture.frames t.capture.frames u.capture.frames wire r c.same_frames
              h.whole;
        lasts = Lasts-preorder.chain s t u h.lasts (Keeps-Lasts k);
      }

  -- A frame that is refused leaves what was captured.
  refused-Admits :
      (wire : Bytes) (s u t : Session C T) (e : SessionError)
      → Lasts s u
      → u.buffer ≡ s.buffer
      → u.capture_bytes ≡ s.capture_bytes
      → u.capture.frames ≡ s.capture.frames
      → u.capture_entries ≤ max_capture_entries
      → length s.capture.frames ≤ max_capture_frames
      → Keeps u t
      → Admits wire s (err e, t)
  refused-Admits wire s u t e l b n f le few k =
      let c = k.captures in
      record {
        same_buffer = c.same_buffer ∙ b;
        same_bytes = c.same_bytes ∙ n;
        entries = omega (arith, le, c.same_entries);
        frames = rw (c.same_frames, f) few;
        size = rw (c.same_frames, f) (omega arith);
        whole = tt;
        lasts = Lasts-preorder.chain s u t l (Keeps-Lasts k);
      }

module _ {C T : Type 0} (env : Environment C T) (s : Session C T)
    (few : length s.capture.frames ≤ max_capture_frames) where
  failed :
      (m : Text) (n : ℕ) (u t : Session C T) {e : SessionError}
      → fail env {A = Unit {0}} m n u ≡ (err e, t)
      → Keeps u t
  failed m n u t p =
      subst (λ (x : Result SessionError (Unit {0}) × Session C T). Keeps u x.1) p
        ((fail-Quiet env m n).steps.run u)

  abbrev count_fault : Serve C T (Unit {0})
  count_fault = fail env (codes "HTTP/2 frame count limit exceeded") enhance_your_calm

  add_frame-Admits :
      (f : ParsedFrame) (n : ℕ) (b : Bool)
      → s.capture_entries + n ≤ max_capture_entries
      → leb max_capture_frames (length s.capture.frames) ≡ b
      → Admits f.raw s ((when b count_fault >> modify (add_frame f)) (add_entries n s))
  unfolding ◌>>=◌ ◌>>◌
  add_frame-Admits f n true le full =
      then_at (Admits f.raw s) count_fault (modify (add_frame f)) (add_entries n s)
        (λ e t p.
          refused-Admits f.raw s (add_entries n s) t e
            (record {
              closed = λ q. q;
              cancelled = λ q. q;
              ready = λ q. q;
              request = λ i q. (q, refl);
            })
            refl refl refl le few (failed _ _ (add_entries n s) t p))
        (λ u t p. absurd (fail_never env _ _ (add_entries n s) t p))
  add_frame-Admits f n false le free =
      let grown = raw_bytes-append s.capture.frames f in
      record {
        same_buffer = refl;
        same_bytes = refl;
        entries = le;
        frames = ground (arith, free, length-append s.capture.frames (f ∷ []));
        size = rw grown (omega (arith, length-append (raw_bytes s.capture.frames) f.raw));
        whole = grown;
        lasts = record {
          closed = λ q. q;
          cancelled = λ q. q;
          ready = λ q. q;
          request = λ i q. (q, refl);
        };
      }

  keep_frame-Admits :
      (f : ParsedFrame) (n : ℕ)
      → s.capture_entries + n ≤ max_capture_entries
      → Admits f.raw s (keep_frame env f n s)
  unfolding keep_frame ◌>>=◌ ◌>>◌
  keep_frame-Admits f n le =
      add_frame-Admits f n (leb max_capture_frames (length s.capture.frames)) le refl

  -- A frame is captured with its bytes, or refused with nothing of it.
  pub admit-Admits :
      (wire : Bytes) (x : Result FrameError ParsedFrame × FrameReader)
      → s.capture_entries ≤ max_capture_entries
      → ((f : ParsedFrame) (r : FrameReader)
          → x ≡ (ok f, r)
          → (f.raw ≡ wire) × (s.capture_entries + r.entries_read ≤ max_capture_entries) × Suits f)
      → Admits wire s (admit env wire x s)
  admit-Admits wire (err e, r) le h =
      elim (Result-cases (fail env {A = Unit {0}} (message_text e.message) e.code s)) [
        | inl (u, t, p) ↦ absurd (fail_never env _ _ s t p)
        | inr (x, t, p) ↦ subst (Admits wire s) (sym p) (
            refused-Admits wire s s t x (Lasts-preorder.stay s) refl refl refl le few
              (failed _ _ s t p))
      ]
  admit-Admits wire (ok f, r) le h =
      let (same, entries, suits) = h f r refl in
      let kept : Admits wire s (keep_frame env f r.entries_read s) =
        subst (λ w. Admits w s (keep_frame env f r.entries_read s)) same
          (keep_frame-Admits f r.entries_read entries) in
      then_at (Admits wire s) (keep_frame env f r.entries_read) (process_frame env f wire) s
        (λ e t p. subst (Admits wire s) p kept)
        (λ u t p.
          Admits-Keeps wire s t _ (subst (Admits wire s) p kept)
            ((process_frame-Quiet env f wire suits).steps.run t))
