-- ===== src/HttpFields/Lists.antt =====
-- solvetls/http_fields.py: `parse_http_list` and `parse_expectations`.
pub mod Members
use solvetls.Base.{
  ℕ, ◌+◌, ◌-◌, Bool, true, false, not, ◌&&◌, ◌||◌, List, [], ◌∷◌, ◌++◌, map, length, take, drop,
  ◌==◌, if◌then◌else◌,
}
use solvetls.Base.Text.{codes, join}
use solvetls.Base.Sort.{Text}
use solvetls.Exec.{Result, ok, err}
use solvetls.HttpFields.Response.{lower}

-- " " or "\t"
unfoldable pub is_blank : ℕ → Bool
is_blank c = c == b' ' || c == 9

-- text.lstrip(" \t")
unfoldable pub trim_left : Text → Text
trim_left [] = []
trim_left (c ∷ t) = if is_blank c then trim_left t else c ∷ t

-- A character in front of a text that is trimmed on its right.
abbrev pub keep : ℕ → Text → Text
keep c [] = if is_blank c then [] else c ∷ []
keep c (d ∷ t) = c ∷ d ∷ t

-- text.rstrip(" \t")
unfoldable pub trim_right : Text → Text
trim_right [] = []
trim_right (c ∷ t) = keep c (trim_right t)

-- text.strip(" \t")
unfoldable pub strip : Text → Text
strip t = trim_right (trim_left t)

-- The local variables of the loop.
pub record Scan : Type 0 where
  pub result : List Text
  pub start : ℕ
  pub quoted : Bool
  pub escaped : Bool

-- `if member: result.append(member)`
abbrev pub append_member : List Text → Text → List Text
append_member result [] = result
append_member result (c ∷ m) = result ++ (c ∷ m) ∷ []

-- combined[start:index]
abbrev pub slice : ℕ → ℕ → Text → Text
slice start stop t = take (stop - start) (drop start t)

-- The body of the loop, at `index` and `char`.
unfoldable pub scan_char : Text → ℕ → ℕ → Scan → Scan
scan_char combined index char s =
    if s.escaped
    then record s { escaped = false }
    else if s.quoted && char == 92
    then record s { escaped = true }
    else if char == 34
    then record s { quoted = not s.quoted }
    else if char == b',' && not s.quoted
    then record s {
      result = append_member s.result (strip (slice s.start index combined));
      start = index + 1;
    }
    else s

-- `for index, char in enumerate(combined)`, over the characters that are left.
unfoldable pub scan_from : Text → ℕ → Text → Scan → Scan
scan_from combined index [] s = s
scan_from combined index (c ∷ rest) s =
    scan_from combined (index + 1) rest (scan_char combined index c s)

-- ValueError("Unterminated quoted HTTP list member")
pub data ListError : Type 0 where
  unterminated : ListError

abbrev pub scan_start : Scan
scan_start = record { result = []; start = 0; quoted = false; escaped = false }

unfoldable pub finish_list : Text → Scan → Result ListError (List Text)
finish_list combined s =
    if s.quoted || s.escaped
    then err unterminated
    else ok (append_member s.result (strip (drop s.start combined)))

unfoldable pub parse_combined : Text → Result ListError (List Text)
parse_combined combined = finish_list combined (scan_from combined 0 combined scan_start)

unfoldable pub parse_http_list : List Text → Result ListError (List Text)
parse_http_list values = parse_combined (join (codes ",") values)

unfoldable pub lower_all : Result ListError (List Text) → Result ListError (List Text)
lower_all (ok members) = ok (map lower members)
lower_all (err e) = err e

unfoldable pub parse_expectations : List Text → Result ListError (List Text)
parse_expectations values = lower_all (parse_http_list values)
