-- ===== src/Fingerprints/Akamai/Prefix.antt =====
-- solvetls/fingerprints.py: the loop of `build_akamai_fingerprint` and its `break`.
use solvetls.Base.{◌≡◌, refl, ap, fun_ext, List, [], ◌∷◌, ◌++◌, some, ◌==◌, ==_iff, if◌then◌else◌}
use solvetls.Base.Sort.{Text}
use solvetls.Exec.{Result, ok, err}
use solvetls.Http2.Capture.{Capture}
use solvetls.Http2.Frames.Codes.{headers_type}
use solvetls.Http2.Frames.Data.{ParsedFrame}
use solvetls.Fingerprints.Akamai.{
  AttributeError, Gathered, gather_frame, and_then, gather, start, akamai_text, akamai_of,
  build_akamai_fingerprint,
}

and_then-congr :
    (r : Result AttributeError Gathered) (f g : Gathered → Result AttributeError Gathered)
    → ((x : Gathered) → f x ≡ g x)
    → and_then r f ≡ and_then r g
and_then-congr (ok a) f g h = h a
and_then-congr (err e) f g h = refl

gather-cut :
    (before : List ParsedFrame) (f : ParsedFrame) (after later : List ParsedFrame) (g : Gathered)
    → f.header.type ≡ headers_type
    → gather (before ++ f ∷ after) g ≡ gather (before ++ f ∷ later) g
unfolding gather
gather-cut [] f after later g h = rw ((==_iff f.header.type headers_type).1 h)
gather-cut (b ∷ before) f after later g h =
    ap (λ x. if b.header.type == headers_type then ok g else x)
      (and_then-congr (gather_frame b g) _ _ (λ x. gather-cut before f after later x h))

akamai_of-cut :
    (md5 : Text → Text) (c d : Capture) (before : List ParsedFrame) (f : ParsedFrame)
    (after later : List ParsedFrame)
    → f.header.type ≡ headers_type
    → ((g : Gathered) → akamai_text c g ≡ akamai_text d g)
    → akamai_of md5 c (before ++ f ∷ after) ≡ akamai_of md5 d (before ++ f ∷ later)
unfolding akamai_of
akamai_of-cut md5 c d [] f after later h k = rw (gather-cut [] f after later start h, fun_ext k)
akamai_of-cut md5 c d (b ∷ before) f after later h k =
    rw (gather-cut (b ∷ before) f after later start h, fun_ext k)

-- The Akamai fingerprint of a capture does not change with the frames behind its first HEADERS frame,
-- however many they are and whatever they hold.
pub build_akamai_fingerprint-after_headers :
    (md5 : Text → Text) (c : Capture) (before : List ParsedFrame) (f : ParsedFrame)
    (after later : List ParsedFrame)
    → f.header.type ≡ headers_type
    → build_akamai_fingerprint md5 (some (record c { frames = before ++ f ∷ after }))
      ≡ build_akamai_fingerprint md5 (some (record c { frames = before ++ f ∷ later }))
unfolding build_akamai_fingerprint akamai_text
build_akamai_fingerprint-after_headers md5 c before f after later h =
    akamai_of-cut md5 (record c { frames = before ++ f ∷ after })
      (record c { frames = before ++ f ∷ later }) before f after later h (λ g. refl)
