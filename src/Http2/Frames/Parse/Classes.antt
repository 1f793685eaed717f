-- ===== src/Http2/Frames/Parse/Classes.antt =====
-- The class of the payload of a frame that `parse_frame` returns, where its attributes are read.
use solvetls.Base.{ℕ, ◌≡◌, ◌⊎◌, inl, inr, refl, subst, some, Option, none, some}
use solvetls.Exec.{Result, ok, err, pure, raise, handle, try_except, try_finally}
use solvetls.Http2.Frames.Codes.{headers_type, settings_type, goaway_type, priority_update_type}
use solvetls.Http2.Frames.Data.{
  FrameHeader, UnknownPayload, Payload, unknown_payload, ParsedFrame, FrameError, Message,
}
use solvetls.Http2.Frames.Cursor.{FrameReader}
use solvetls.Http2.Frames.Payloads.{parse_payload_by_type}
use solvetls.Http2.Frames.Payloads.Classes.{
  IsHeaders, IsSettings, IsGoaway, IsPriorityUpdate, OnOk, Makes, Makes-from, Makes-bind,
  Makes-then, Makes-if, Makes-pure, IsHeaders-class, IsSettings-class, IsGoaway-class,
  IsPriorityUpdate-class,
}
use solvetls.Http2.Frames.Parse.{read_payload, keep_malformed, recover, parse_body, parse_frame}
use solvetls.Http2.Frames.Parse.Exact.{frame_inv}

-- A payload that could not be parsed.
abbrev pub Failed : Payload → Type 0
Failed (unknown_payload p) = (m : Message) × (p.parse_error ≡ some m)
Failed _ = ⊥

-- The payload has the class of the frame's type, or could not be parsed.
pub record Suits (f : ParsedFrame) : Type 0 where
  pub headers : f.header.type ≡ headers_type → IsHeaders f.payload ⊎ Failed f.payload
  pub settings : f.header.type ≡ settings_type → IsSettings f.payload ⊎ Failed f.payload
  pub goaway : f.header.type ≡ goaway_type → IsGoaway f.payload ⊎ Failed f.payload
  pub priority_update :
      f.header.type ≡ priority_update_type → IsPriorityUpdate f.payload ⊎ Failed f.payload

raised : {A : Type 0} {P : A → Type 0} (e : FrameError) → Makes P (raise e)
raised e = record { at = λ s. tt }

module _ (P : Payload → Type 0) (h : FrameHeader) (start : ℕ) where
  abbrev OrFailed : Payload → Type 0
  OrFailed p = P p ⊎ Failed p

  failed_made :
      (p : UnknownPayload) (m : Message)
      → p.parse_error ≡ some m
      → Makes OrFailed (pure (unknown_payload p))
  failed_made p m e = Makes-pure (unknown_payload p) (inr (m, e))

  recover_made : (e : FrameError) → Makes OrFailed (recover h start e)
  unfolding recover keep_malformed
  recover_made e = Makes-if _ _ _ (raised e) (
      Makes-bind _ _ (λ forensic.
        Makes-if _ _ _ (raised e)
          (Makes-then _ _ (Makes-bind _ _ (λ raw. failed_made _ e.message refl)))))

  read_payload_made : Makes P (parse_payload_by_type h) → Makes OrFailed (read_payload h start)
  unfolding read_payload
  read_payload_made k =
      Makes-from _ _ k (λ p made. Makes-bind _ _ (λ pos. Makes-then _ _ (Makes-pure p (inl made))))

  handled :
      (x : Result FrameError Payload × FrameReader)
      → OnOk OrFailed x.0
      → OnOk OrFailed (handle (recover h start) x).0
  handled (ok p, s) k = k
  handled (err e, s) k = (recover_made e).at s

  parse_body_made : Makes P (parse_payload_by_type h) → Makes OrFailed (parse_body h start)
  unfolding parse_body try_finally try_except
  parse_body_made k =
      Makes-then _ _
        (record { at = λ s. handled (read_payload h start s) ((read_payload_made k).at s) })

parsed_made :
    (P : Payload → Type 0) (s t : FrameReader) (f : ParsedFrame)
    → parse_frame s ≡ (ok f, t)
    → Makes P (parse_payload_by_type f.header)
    → P f.payload ⊎ Failed f.payload
parsed_made P s t f e k =
    let (u, head, body, raw) = frame_inv s t f e in
    subst (λ (x : Result FrameError Payload × FrameReader). OnOk (λ p. P p ⊎ Failed p) x.0) body
      ((parse_body_made P f.header u.pos k).at u)

-- A frame that is parsed has a payload of its type's class, or an error of the parser with it.
pub parse_frame-Suits : (s t : FrameReader) (f : ParsedFrame) → parse_frame s ≡ (ok f, t) → Suits f
parse_frame-Suits s t f e = record {
  headers = λ same. parsed_made IsHeaders s t f e (IsHeaders-class f.header same);
  settings = λ same. parsed_made IsSettings s t f e (IsSettings-class f.header same);
  goaway = λ same. parsed_made IsGoaway s t f e (IsGoaway-class f.header same);
  priority_update =
      λ same. parsed_made IsPriorityUpdate s t f e (IsPriorityUpdate-class f.header same);
}

Failed-at :
    (p : UnknownPayload) (o : Option Message)
    → p.parse_error ≡ o
    → Failed (unknown_payload p) ⊎ (¬ Failed (unknown_payload p))
Failed-at p none e = inr (λ failed. cc (failed.1, e))
Failed-at p (some m) e = inl (m, e)

pub Failed-cases : (p : Payload) → Failed p ⊎ (¬ Failed p)
Failed-cases (unknown_payload p) = Failed-at p p.parse_error refl
Failed-cases _ = inr (λ failed. failed)

-- The payload has the class of the frame's type.
pub record Fits (f : ParsedFrame) : Type 0 where
  pub headers : f.header.type ≡ headers_type → IsHeaders f.payload
  pub settings : f.header.type ≡ settings_type → IsSettings f.payload
  pub goaway : f.header.type ≡ goaway_type → IsGoaway f.payload
  pub priority_update : f.header.type ≡ priority_update_type → IsPriorityUpdate f.payload

parsed_class : {P Q : Type 0} → P ⊎ Q → ¬ Q → P
parsed_class (inl p) k = p
parsed_class (inr q) k = absurd (k q)

pub Suits-Fits : (f : ParsedFrame) → Suits f → ¬ Failed f.payload → Fits f
Suits-Fits f s parsed = record {
  headers = λ e. parsed_class (s.headers e) parsed;
  settings = λ e. parsed_class (s.settings e) parsed;
  goaway = λ e. parsed_class (s.goaway e) parsed;
  priority_update = λ e. parsed_class (s.priority_update e) parsed;
}
