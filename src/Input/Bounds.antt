-- ===== src/Input/Bounds.antt =====
-- The line buffer is never read or written out of bounds, and only bytes of the line are read.
use ice40_ultraplus_examples.Base.{
  ℕ, suc, ◌+◌, ◌-◌, ◌≤◌, ◌<◌, ◌≡◌, refl, sym, ap, ◌∙◌, ◌⊎◌, inl, inr, Bool, true, false, none, List,
  [], ◌∷◌, arith, leb, ◌==◌, length, length-append, get_or, branch, ℤ, pos, negsuc, length-set,
}
use ice40_ultraplus_examples.Input.{
  Source, input_line_max, newline, ctrl_d, unify_newline, refill_interactive_line, read_line,
  next_of_line, next_of_stdin, input_source_next, input_source_next_blocking,
}
use ice40_ultraplus_examples.Input.Editing.{store, drop_last, ended, eot, edit, LineIs}
use ice40_ultraplus_examples.Input.Lines.{read_line-Agrees}

pub record IsValid (s : Source) : Type 0 where
  pub size : length s.line ≡ input_line_max
  pub small : s.line_len ≤ input_line_max - 1
  pub within : s.line_pos ≤ s.line_len

store-nonempty : (acc : List ℕ) (c : ℕ) → 0 < length (store acc c)
unfolding store
store-nonempty acc c = ground (arith, length-append acc (c ∷ []))

-- A line that is handed out is not empty.
edit-nonempty :
    (raw stops : Bool) (acc keys : List ℕ)
    → ((edit raw stops acc keys).code ≡ negsuc 0)
      ⊎ (((edit raw stops acc keys).code ≡ pos 0) × (0 < length (edit raw stops acc keys).line))
unfolding edit ended eot
edit-nonempty raw stops acc [] = inr (refl, omega arith)
edit-nonempty raw stops acc (c ∷ cs) = ground (
  arith,
  store-nonempty acc newline,
  edit-nonempty raw stops (drop_last acc) cs,
  edit-nonempty raw stops (store acc (unify_newline c)) cs,
)

-- What a refill leaves.
pub record Refilled (out : Source × ℤ) : Type 0 where
  pub valid : IsValid out.0
  pub from_start : out.0.line_pos ≡ 0
  pub filled : (out.1 ≡ negsuc 0) ⊎ ((out.1 ≡ pos 0) × (0 < out.0.line_len))

-- A line that was just begun.
pub fresh-LineIs :
    (s : Source)
    → length s.line ≡ input_line_max
    → LineIs (record s { line_len = 0; line_pos = 0 }) []
fresh-LineIs s h = record { size = h; len = refl; small = omega arith; contents = refl }

-- A line read from the keys.
line-Refilled :
    (stops : Bool) (s : Source)
    → length s.line ≡ input_line_max
    → s.line_len ≡ 0
    → s.line_pos ≡ 0
    → (keys : List ℕ) → Refilled (read_line stops s keys)
line-Refilled stops s size len from keys =
    let held : LineIs s [] = record {
      size = size;
      len = len;
      small = omega arith;
      contents = rw len refl;
    } in
    let a = read_line-Agrees stops s.raw_mode s [] keys refl held in
    let filled = edit-nonempty s.raw_mode stops [] keys in
    record {
      valid = record {
        size = a.line.size;
        small = omega (arith, a.line.len, a.line.small);
        within = omega (arith, a.line_pos);
      };
      from_start = a.line_pos ∙ from;
      filled = elim filled [
        | inl e ↦ inl (a.code ∙ e)
        | inr (e, some_char) ↦ inr (a.code ∙ e, omega (arith, a.line.len))
      ];
    }

refill-Refilled :
    (stops : Bool) (s : Source) → IsValid s → Refilled (refill_interactive_line stops s)
unfolding refill_interactive_line
refill-Refilled stops s v =
    branch Refilled s.eof
      (λ e.
        branch Refilled s.eof_sent
          (λ e'. record {
            valid = record { size = v.size; small = omega arith; within = omega arith };
            from_start = refl;
            filled = inl refl;
          })
          λ e'. record {
            valid = record {
              size = length-set s.line 0 ctrl_d ∙ v.size;
              small = omega arith;
              within = omega arith;
            };
            from_start = refl;
            filled = inr (refl, omega arith);
          })
      λ e. line-Refilled stops (record s { line_len = 0; line_pos = 0 }) v.size refl refl s.stdin

-- The result of a read: -1, or a byte of the line that was filled in.
pub record FromLine (out : Source × ℤ) : Type 0 where
  pub valid : IsValid out.0
  pub result :
      (out.1 ≡ negsuc 0)
      ⊎ ((i : ℕ) × (i < out.0.line_len)
          × (out.1 ≡ pos (get_or out.0.line i 0))
          × (out.0.line_pos ≡ suc i))

next_of_line-FromLine :
    (s : Source) → IsValid s → s.line_pos < s.line_len → FromLine (next_of_line s)
unfolding next_of_line
next_of_line-FromLine s v h =
    branch (λ t. FromLine (t, pos (get_or s.line s.line_pos 0)))
      (get_or s.line s.line_pos 0 == ctrl_d)
      (λ e. found (record s { line_pos = s.line_pos + 1; eof_sent = true }) refl refl refl)
      (λ e. found (record s { line_pos = s.line_pos + 1 }) refl refl refl)
  where
    found :
        (t : Source)
        → t.line ≡ s.line
        → t.line_len ≡ s.line_len
        → t.line_pos ≡ s.line_pos + 1
        → FromLine (t, pos (get_or s.line s.line_pos 0))
    found t l n p = record {
      valid = record {
        size = ap length l ∙ v.size;
        small = omega (arith, v.small);
        within = omega arith;
      };
      result =
          inr (s.line_pos, omega arith, ap (λ k. pos (get_or k s.line_pos 0)) (sym l), omega arith);
    }

next_of_stdin-FromLine : (stops : Bool) (s : Source) → IsValid s → FromLine (next_of_stdin stops s)
unfolding next_of_stdin
next_of_stdin-FromLine stops s v =
    branch FromLine (leb s.line_len s.line_pos) (λ used. refilled (refill-Refilled stops s v))
      λ unread. next_of_line-FromLine s v (ground arith)
  where
    refilled :
        {out : Source × ℤ}
        → Refilled out
        → FromLine (elim out.1 [ negsuc n ↦ (out.0, negsuc 0) | pos n ↦ next_of_line out.0 ])
    refilled {out} r = elim r.filled [
      | inl e ↦ rw e (record { valid = r.valid; result = inl refl })
      | inr (e, some_char) ↦ rw e (next_of_line-FromLine out.0 r.valid (omega arith))
    ]

-- Without -i, the input functions of both programs keep the buffer valid: 1024 bytes, at most 1023
-- of them in the line, and the read position within the line. The result is -1 or the byte at a
-- position of the line that was filled in, which the read position is moved behind.
pub input-FromLine :
    (s : Source)
    → IsValid s
    → s.text ≡ none
    → FromLine (input_source_next_blocking s) × FromLine (input_source_next s)
unfolding input_source_next_blocking input_source_next
input-FromLine s v e = (
  rw (e, input_source_next_blocking) (next_of_stdin-FromLine true s v),
  rw (e, input_source_next) (next_of_stdin-FromLine false s v),
)
