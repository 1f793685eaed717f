-- ===== src/Http2/Session/Ends.antt =====
-- What the handling of one frame raises.
use solvetls.Base.{ℕ, ◌≡◌, refl, List}
use solvetls.Exec.{Result, ok, err, modify}
use solvetls.Exec.Raises.{Raises, Raises-pure, Raises-gets, Raises-if, Raises-bind, Raises-then}
use solvetls.Wire.Bytes.{Bytes}
use solvetls.Http2.Frames.Data.{ParsedFrame, FrameError}
use solvetls.Http2.Frames.Cursor.{FrameReader}
use solvetls.Http2.Frames.Parse.Classes.{Suits, parse_frame-Suits}
use solvetls.Http2.Session.{Session, Serve, Environment, fail}
use solvetls.Http2.Session.Process.{process_frame}
use solvetls.Http2.Session.Receive.{
  reader_for, keep_frame, admit, take_frame, complete_frame, read_frame, next_frame,
}
use solvetls.Http2.Session.Keeps.{IsKnown, Quiet, fail-Quiet}
use solvetls.Http2.Session.Keeps.Frames.{process_frame-Quiet}

module _ {C T : Type 0} where
  pub modify-Raises : (f : Session C T → Session C T) → Raises IsKnown (modify f)
  modify-Raises f = record { at = λ s. tt }

  pub Quiet-Raises : {A : Type 0} {m : Serve C T A} → Quiet m → Raises IsKnown m
  Quiet-Raises q = q.errors

pub ruleset raises_rules =
    (modify-Raises, Raises-pure, Raises-gets, Raises-if, Raises-bind, Raises-then)

module _ {C T : Type 0} (env : Environment C T) where
  pub fail-Raises : {A : Type 0} (m : List ℕ) (n : ℕ) → Raises IsKnown (fail env {A = A} m n)
  fail-Raises m n = (fail-Quiet env m n).errors

  keep_frame-Raises : (f : ParsedFrame) (n : ℕ) → Raises IsKnown (keep_frame env f n)
  unfolding keep_frame
  keep_frame-Raises f n = search (raises_rules, fail-Raises) depth 8

  process_frame-Raises :
      (f : ParsedFrame) (w : Bytes) → Suits f → Raises IsKnown (process_frame env f w)
  process_frame-Raises f w k = (process_frame-Quiet env f w k).errors

  admit-Raises :
      (w : Bytes) (x : Result FrameError ParsedFrame × FrameReader)
      → ((f : ParsedFrame) (r : FrameReader) → x ≡ (ok f, r) → Suits f)
      → Raises IsKnown (admit env w x)
  admit-Raises w (err e, r) k = fail-Raises _ _
  admit-Raises w (ok f, r) k =
      Raises-then (keep_frame-Raises f r.entries_read) (process_frame-Raises f w (k f r refl))

  take_frame-Raises : (w : Bytes) (n : ℕ) → Raises IsKnown (take_frame env w n)
  unfolding take_frame
  take_frame-Raises w n =
      Raises-bind (Raises-gets (λ s. s.capture_entries))
        (λ entries. admit-Raises w _ (λ f r e. parse_frame-Suits (reader_for w n entries) r f e))

  complete_frame-Raises : (b : Bytes) (n : ℕ) → Raises IsKnown (complete_frame env b n)
  unfolding complete_frame
  complete_frame-Raises b n = search (raises_rules, take_frame-Raises) depth 8

  read_frame-Raises : (b : Bytes) → Raises IsKnown (read_frame env b)
  unfolding read_frame
  read_frame-Raises b = search (raises_rules, fail-Raises, complete_frame-Raises) depth 8

  pub next_frame-Raises : Raises IsKnown (next_frame env)
  unfolding next_frame
  next_frame-Raises = search (raises_rules, read_frame-Raises) depth 8
