-- ===== src/Http1.antt =====
-- solvetls/http1.py: the error, the size of a request's head, and its lines. Octets and the characters that
-- they are decoded to are the same numbers.
pub mod Framing
pub mod Prefix
pub mod Inversion
pub mod Request
pub mod Smuggling
use solvetls.Base.{
  ℕ, zero, suc, ◌+◌, ◌-◌, Bool, true, false, not, ◌&&◌, ◌||◌, List, [], ◌∷◌, ◌++◌, length, take,
  drop, Option, none, some, ltb, leb, ◌==◌, if◌then◌else◌,
}
use solvetls.Base.Text.{codes}
use solvetls.Base.Sort.{Text}
use solvetls.Exec.{Result, ok, err}
use solvetls.Wire.Bytes.{Bytes}
use solvetls.Uri.{Parts, partition}

abbrev pub max_head_size : ℕ
max_head_size = 65536

abbrev pub head_end : Bytes
head_end = codes "\r\n\r\n"

abbrev pub line_break : Bytes
line_break = codes "\r\n"

-- HTTP1Error
pub record HttpError : Type 0 where
  pub message : Text
  pub status_code : ℕ

abbrev pub bad_request : Text → HttpError
bad_request message = record { message = message; status_code = 400 }

-- if test: raise HTTP1Error(...)
abbrev pub refuse : Bool → HttpError → Result HttpError (Unit {0})
refuse true e = err e
refuse false e = ok tt

-- What follows a statement that may raise.
abbrev pub and_then :
    {A B : Type 0} → Result HttpError A → (A → Result HttpError B) → Result HttpError B
and_then (ok a) f = f a
and_then (err e) f = err e

-- xs.startswith(p)
unfoldable pub starts : Bytes → Bytes → Bool
starts [] xs = true
starts (p ∷ ps) [] = false
starts (p ∷ ps) (x ∷ xs) = p == x && starts ps xs

abbrev pub further : ℕ → Option ℕ → Option ℕ
further n none = none
further n (some m) = some (n + m)

-- xs.find(p), where -1 is none; `p` is not empty.
unfoldable pub find : Bytes → Bytes → Option ℕ
find p [] = none
find p (x ∷ xs) = let rest = further 1 (find p xs) in if starts p (x ∷ xs) then some 0 else rest

-- Where the head ends, behind its terminator, or all of the data.
abbrev pub size_at : Bytes → Option ℕ → ℕ
size_at xs none = length xs
size_at xs (some e) = e + 4

unfoldable pub head_size : Bytes → ℕ
head_size xs = size_at xs (find head_end xs)

abbrev pub is_absent : Option ℕ → Bool
is_absent none = true
is_absent (some e) = false

unfoldable pub too_large : Bytes → Bool → Bool
too_large xs incomplete =
    ltb max_head_size (head_size xs)
    || (incomplete && (is_absent (find head_end xs) && leb max_head_size (head_size xs)))

abbrev pub line_of : ℕ → Bytes → Option ℕ → Bytes
line_of start xs none = drop start xs
line_of start xs (some e) = take (e - start) (drop start xs)

abbrev pub line_too_large : Option ℕ → Bool
line_too_large none = true
line_too_large (some e) = ltb max_head_size (e + 4)

-- The error of a head that is too large: `start` skips an empty line, and a framing that leaves no room is
-- not smaller than the maximum.
unfoldable pub size_error : Bytes → HttpError
size_error xs =
    let start = if starts line_break xs then 2 else 0 in
    let line_end = further start (find line_break (drop start xs)) in
    let parts = partition b' ' (line_of start xs line_end) in
    let target = (partition b' ' parts.after).before in
    let framing_size = start + length parts.before + 14 in
    if line_too_large line_end
      && (parts.found
          && (ltb framing_size max_head_size && ltb (max_head_size - framing_size) (length target)))
    then record { message = codes "Request target too long"; status_code = 414 }
    else record { message = codes "Request head too large"; status_code = 431 }

unfoldable pub check_head_size : Bytes → Bool → Result HttpError (Unit {0})
check_head_size xs incomplete = refuse (too_large xs incomplete) (size_error xs)

-- xs.split(b"\r\n"), from the left: the lines that have ended, the characters of the next one, and whether
-- a carriage return stands behind them.
pub record Lines : Type 0 where
  pub ended : List Text
  pub current : Text
  pub returned : Bool

unfoldable pub line_step : ℕ → Lines → Lines
line_step c s =
    if s.returned
    then (if c == 10
        then record { ended = s.ended ++ s.current ∷ []; current = []; returned = false }
        else if c == 13
        then record s { current = s.current ++ 13 ∷ [] }
        else record s { current = s.current ++ 13 ∷ c ∷ []; returned = false })
    else if c == 13
    then record s { returned = true }
    else record s { current = s.current ++ c ∷ [] }

unfoldable pub line_scan : Bytes → Lines → Lines
line_scan [] s = s
line_scan (c ∷ xs) s = line_scan xs (line_step c s)

unfoldable pub split_lines : Bytes → List Text
split_lines xs =
    let s = line_scan xs (record { ended = []; current = []; returned = false }) in
    s.ended ++ (if s.returned then s.current ++ 13 ∷ [] else s.current) ∷ []

abbrev pub join_first : ℕ → List Text → List Text
join_first c [] = (c ∷ []) ∷ []
join_first c (t ∷ ts) = (c ∷ t) ∷ ts

-- text.split(c)
unfoldable pub split_on : ℕ → Text → List Text
split_on c [] = [] ∷ []
split_on c (d ∷ t) = let rest = split_on c t in if d == c then [] ∷ rest else join_first d rest
