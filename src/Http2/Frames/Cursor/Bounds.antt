-- ===== src/Http2/Frames/Cursor/Bounds.antt =====
-- What every read of a frame reader leaves alone, how far it goes, and what it reserves.
use solvetls.Base.{ℕ, ◌≤◌, ◌≡◌, refl, ap, ◌∙◌, arith, Bool, false, length, if◌then◌else◌}
use solvetls.Exec.{pure, raise, gets, raise_if, ◌>>=◌, ◌>>◌}
use solvetls.Exec.Steps.{
  Steps, IsPreorder, Steps-pure, Steps-raise, Steps-gets, Steps-if, Steps-bind, Steps-then,
  Steps-raise_if,
}
use solvetls.Wire.Bytes.{Bytes}
use solvetls.Http2.Frames.Data.{FrameHeader, FrameError}
use solvetls.Http2.Frames.Cursor.{
  FrameReader, Read, limit, end_or, over_budget, reserve_entries, read, read_uint8, read_uint16,
  read_uint24, read_uint32, read_uint32_with_reserved, read_priority, read_padding_length,
  skip_padding,
}

-- The entries that were read are within the budget.
abbrev pub WithinBudget : FrameReader → Type 0
WithinBudget r = over_budget r.max_entries r.entries_read ≡ false

-- The buffer and the configuration stay; the cursor goes forward and not past the limit; the count
-- of entries does not fall and does not pass its budget.
pub record Moves (s t : FrameReader) : Type 0 where
  pub same_dat : t.dat ≡ s.dat
  pub same_size : t.max_frame_size ≡ s.max_frame_size
  pub same_forensic : t.forensic ≡ s.forensic
  pub same_end : t.payload_end ≡ s.payload_end
  pub same_budget : t.max_entries ≡ s.max_entries
  pub ahead : s.pos ≤ t.pos
  pub inside : s.pos ≤ limit s → t.pos ≤ limit s
  pub grows : s.entries_read ≤ t.entries_read
  pub budget : WithinBudget s → WithinBudget t

pub limit-Moves : (s t : FrameReader) → Moves s t → limit t ≡ limit s
limit-Moves s t h =
    ap (λ (d : Bytes). end_or t.payload_end (length d)) h.same_dat
    ∙ ap (λ e. end_or e (length s.dat)) h.same_end

pub Moves-refl : (s : FrameReader) → Moves s s
Moves-refl s = record {
  same_dat = refl;
  same_size = refl;
  same_forensic = refl;
  same_end = refl;
  same_budget = refl;
  ahead = omega arith;
  inside = λ h. h;
  grows = omega arith;
  budget = λ h. h;
}

pub Moves-trans : (s t u : FrameReader) → Moves s t → Moves t u → Moves s u
Moves-trans s t u h k = record {
  same_dat = k.same_dat ∙ h.same_dat;
  same_size = k.same_size ∙ h.same_size;
  same_forensic = k.same_forensic ∙ h.same_forensic;
  same_end = k.same_end ∙ h.same_end;
  same_budget = k.same_budget ∙ h.same_budget;
  ahead = omega (arith, h.ahead, k.ahead);
  inside = λ p.
      omega (arith, limit-Moves s t h, k.inside (omega (arith, limit-Moves s t h, h.inside p)));
  grows = omega (arith, h.grows, k.grows);
  budget = λ p. k.budget (h.budget p);
}

-- What holds too of a method that sets the cursor or the payload's end anew.
pub record Keeps (s t : FrameReader) : Type 0 where
  pub same_dat : t.dat ≡ s.dat
  pub same_size : t.max_frame_size ≡ s.max_frame_size
  pub same_forensic : t.forensic ≡ s.forensic
  pub same_budget : t.max_entries ≡ s.max_entries
  pub grows : s.entries_read ≤ t.entries_read
  pub budget : WithinBudget s → WithinBudget t

pub Keeps-trans : (s t u : FrameReader) → Keeps s t → Keeps t u → Keeps s u
Keeps-trans s t u h k = record {
  same_dat = k.same_dat ∙ h.same_dat;
  same_size = k.same_size ∙ h.same_size;
  same_forensic = k.same_forensic ∙ h.same_forensic;
  same_budget = k.same_budget ∙ h.same_budget;
  grows = omega (arith, h.grows, k.grows);
  budget = λ p. k.budget (h.budget p);
}

pub Moves-Keeps : (s t : FrameReader) → Moves s t → Keeps s t
Moves-Keeps s t h = record {
  same_dat = h.same_dat;
  same_size = h.same_size;
  same_forensic = h.same_forensic;
  same_budget = h.same_budget;
  grows = h.grows;
  budget = h.budget;
}

pub Moves-preorder : IsPreorder Moves
Moves-preorder = record { stay = Moves-refl; chain = Moves-trans }

pub read-Moves : (n : ℕ) → Steps Moves (read n)
unfolding read
read-Moves n = record { run = λ r. ground arith }

pub reserve_entries-Moves : (n : ℕ) → Steps Moves (reserve_entries n)
unfolding reserve_entries
reserve_entries-Moves n = record { run = λ r. ground arith }

module _ {A B : Type 0} where
  pub bind-Moves :
      {m : Read A} {f : A → Read B}
      → Steps Moves m
      → ((a : A) → Steps Moves (f a))
      → Steps Moves (m >>= f)
  bind-Moves = Steps-bind Moves-preorder

  pub then-Moves : {m : Read A} {n : Read B} → Steps Moves m → Steps Moves n → Steps Moves (m >> n)
  then-Moves = Steps-then Moves-preorder

module _ {A : Type 0} where
  pub pure-Moves : (a : A) → Steps {E = FrameError} Moves (pure a)
  pure-Moves = Steps-pure Moves-preorder

  pub raise-Moves : (e : FrameError) → Steps {A = A} Moves (raise e)
  raise-Moves = Steps-raise Moves-preorder

  pub gets-Moves : (f : FrameReader → A) → Steps {E = FrameError} Moves (gets f)
  gets-Moves = Steps-gets Moves-preorder

  pub if-Moves :
      (b : Bool) {m n : Read A} → Steps Moves m → Steps Moves n → Steps Moves (if b then m else n)
  if-Moves = Steps-if Moves-preorder

pub raise_if-Moves : (b : Bool) (e : FrameError) → Steps Moves (raise_if b e)
raise_if-Moves = Steps-raise_if Moves-preorder

pub ruleset block_rules = (
  read-Moves, reserve_entries-Moves, bind-Moves, then-Moves, pure-Moves, raise-Moves, gets-Moves,
  if-Moves, raise_if-Moves,
)

pub read_uint8-Moves : Steps Moves read_uint8
unfolding read_uint8
read_uint8-Moves = search block_rules

pub read_uint16-Moves : Steps Moves read_uint16
unfolding read_uint16
read_uint16-Moves = search block_rules

pub read_uint24-Moves : Steps Moves read_uint24
unfolding read_uint24
read_uint24-Moves = search block_rules

pub read_uint32-Moves : Steps Moves read_uint32
unfolding read_uint32
read_uint32-Moves = search block_rules

pub read_uint32_with_reserved-Moves : Steps Moves read_uint32_with_reserved
unfolding read_uint32_with_reserved
read_uint32_with_reserved-Moves = search (block_rules, read_uint32-Moves)

pub read_priority-Moves : Steps Moves read_priority
unfolding read_priority
read_priority-Moves = search (block_rules, read_uint32-Moves, read_uint8-Moves)

pub read_padding_length-Moves : (h : FrameHeader) → Steps Moves (read_padding_length h)
unfolding read_padding_length
read_padding_length-Moves h = search (block_rules, read_uint8-Moves) depth 8

pub skip_padding-Moves : (n : ℕ) → Steps Moves (skip_padding n)
unfolding skip_padding
skip_padding-Moves n = search block_rules depth 8

pub ruleset moves_rules = (
  block_rules, read_uint8-Moves, read_uint16-Moves, read_uint24-Moves, read_uint32-Moves,
  read_uint32_with_reserved-Moves, read_priority-Moves, read_padding_length-Moves,
  skip_padding-Moves,
)
