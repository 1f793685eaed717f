-- ===== src/HttpFields/Lists/Members.antt =====
-- `parse_http_list` against a splitting of the text that keeps the current member instead of indices.
use solvetls.Base.{
  ℕ, ◌+◌, ◌≡◌, refl, sym, ap, ap₂, ◌∙◌, arith, Bool, false, not, ◌&&◌, ◌||◌, List, [], ◌∷◌, ◌++◌,
  length, length-append, take, drop, take-append, drop-append, append_assoc, append-nil, ◌==◌,
  if◌then◌else◌, Bool-cases, inl, inr,
}
use solvetls.Base.Sort.{Text}
use solvetls.Exec.{Result, ok, err}
use solvetls.HttpFields.Lists.{
  strip, Scan, append_member, slice, scan_char, scan_from, scan_start, finish_list, parse_combined,
  ListError, unterminated,
}

-- A member in front of the others, unless it is empty.
abbrev pub put_first : Text → Result ListError (List Text) → Result ListError (List Text)
put_first [] r = r
put_first (c ∷ m) (ok ms) = ok ((c ∷ m) ∷ ms)
put_first (c ∷ m) (err e) = err e

-- A comma outside quotes ends a member.
abbrev pub ends_member : Bool → Bool → ℕ → Bool
ends_member quoted escaped c = not escaped && (not quoted && c == b',')

-- A double quote that is not escaped opens and closes a quoted string.
abbrev pub next_quoted : Bool → Bool → ℕ → Bool
next_quoted quoted escaped c = if not escaped && c == 34 then not quoted else quoted

-- A backslash in a quoted string, not itself escaped, escapes the next character.
abbrev pub next_escaped : Bool → Bool → ℕ → Bool
next_escaped quoted escaped c = not escaped && (quoted && c == 92)

-- The members of what is left, where `member` holds the characters since the last separator.
unfoldable pub split_members : Bool → Bool → Text → Text → Result ListError (List Text)
split_members quoted escaped member [] =
    if quoted || escaped then err unterminated else put_first (strip member) (ok [])
split_members quoted escaped member (c ∷ rest) =
    let cut = ends_member quoted escaped c in
    let others =
      split_members (next_quoted quoted escaped c) (next_escaped quoted escaped c)
        (if cut then [] else member ++ c ∷ []) rest in
    if cut then put_first (strip member) others else others

abbrev prepend : List Text → Result ListError (List Text) → Result ListError (List Text)
prepend ms (ok ns) = ok (ms ++ ns)
prepend ms (err e) = err e

-- One round of the loop, in these terms.
scan_char_lem :
    (combined : Text) (index c : ℕ) (s : Scan)
    → scan_char combined index c s ≡ (
        if ends_member s.quoted s.escaped c
        then record {
          result = append_member s.result (strip (slice s.start index combined));
          start = index + 1;
          quoted = next_quoted s.quoted s.escaped c;
          escaped = next_escaped s.quoted s.escaped c;
        }
        else record {
          result = s.result;
          start = s.start;
          quoted = next_quoted s.quoted s.escaped c;
          escaped = next_escaped s.quoted s.escaped c;
        })
unfolding scan_char
scan_char_lem combined index c s = ground arith

prepend-append_member :
    (result : List Text) (m : Text) (r : Result ListError (List Text))
    → prepend (append_member result m) r ≡ prepend result (put_first m r)
prepend-append_member result [] r = refl
prepend-append_member result (c ∷ m) (ok ms) = ap ok (append_assoc result ((c ∷ m) ∷ []) ms)
prepend-append_member result (c ∷ m) (err e) = refl

append_member-last :
    (result : List Text) (m : Text)
    → ok (append_member result m) ≡ prepend result (put_first m (ok []))
append_member-last result m =
    ap ok (sym (append-nil (append_member result m))) ∙ prepend-append_member result m (ok [])

prepend-nil : (r : Result ListError (List Text)) → prepend [] r ≡ r
prepend-nil (ok ms) = refl
prepend-nil (err e) = refl

regroup :
    (front member : Text) (c : ℕ) (rest : Text)
    → front ++ (member ++ c ∷ rest) ≡ (front ++ (member ++ c ∷ [])) ++ ([] ++ rest)
regroup front member c rest =
    ap (λ t. front ++ t) (sym (append_assoc member (c ∷ []) rest))
    ∙ sym (append_assoc front (member ++ c ∷ []) rest)

module _ (combined : Text) where
  slice_member :
      (front member rest : Text) (start index : ℕ)
      → start ≡ length front
      → index ≡ length front + length member
      → combined ≡ front ++ (member ++ rest)
      → slice start index combined ≡ member
  slice_member front member rest start index hs hi hc =
      ap₂ (λ n t. take n t) (omega (arith, hs, hi))
        (ap₂ drop hs hc ∙ drop-append front (member ++ rest))
      ∙ take-append member rest

  scan-end :
      (front member : Text) (s : Scan)
      → s.start ≡ length front
      → combined ≡ front ++ (member ++ [])
      → finish_list combined s ≡ prepend s.result (split_members s.quoted s.escaped member [])
  unfolding finish_list split_members
  scan-end front member s hs hc =
      let tail : drop s.start combined ≡ member =
        ap₂ drop hs hc ∙ drop-append front (member ++ []) ∙ append-nil member in
      rw tail (elim (Bool-cases (s.quoted || s.escaped)) [
        | inl bad ↦ rw bad
        | inr good ↦ rw good (append_member-last s.result (strip member))
      ])

  scan-split :
      (rest front member : Text) (index : ℕ) (s : Scan)
      → s.start ≡ length front
      → index ≡ length front + length member
      → combined ≡ front ++ (member ++ rest)
      → finish_list combined (scan_from combined index rest s)
        ≡ prepend s.result (split_members s.quoted s.escaped member rest)
  unfolding scan_from split_members
  scan-split [] front member index s hs hi hc =
      rw (scan-end front member s hs hc) (unfold split_members in refl)
  scan-split (c ∷ rest) front member index s hs hi hc =
      elim (Bool-cases (ends_member s.quoted s.escaped c)) [
        | inl cut ↦
            let here = slice_member front member (c ∷ rest) s.start index hs hi hc in
            let front' = front ++ (member ++ c ∷ []) in
            let grown = length-append {0} front (member ++ c ∷ []) in
            let one = length-append {0} member (c ∷ []) in
            rw (scan_char_lem combined index c s, cut, here)
              (scan-split rest front' [] (index + 1) _ (omega (arith, hi, grown, one))
                  (omega (arith, hi, grown, one)) (hc ∙ regroup front member c rest)
                ∙ prepend-append_member s.result (strip member) _)
        | inr stays ↦
            rw (scan_char_lem combined index c s, stays)
              (scan-split rest front (member ++ c ∷ []) (index + 1) _ hs
                (omega (arith, hi, length-append {0} member (c ∷ [])))
                (hc ∙ ap (λ t. front ++ t) (sym (append_assoc member (c ∷ []) rest))))
      ]

-- On any joined values, the loop of `parse_http_list`, which cuts by indices, answers as a splitting
-- does that keeps the characters of the current member: the members between the commas outside quoted
-- strings, trimmed and without the empty ones, or the error if a quoted string is left open.
pub parse_combined-split :
    (combined : Text) → parse_combined combined ≡ split_members false false [] combined
unfolding parse_combined
parse_combined-split combined =
    scan-split combined combined [] [] 0 scan_start refl refl refl
    ∙ prepend-nil (split_members false false [] combined)
