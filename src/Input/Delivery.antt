-- ===== src/Input/Delivery.antt =====
-- What a program that asks for characters receives of what was typed.
use ice40_ultraplus_examples.Base.{
  ℕ, zero, suc, ◌+◌, ◌-◌, ◌≤◌, ◌<◌, ◌≡◌, refl, sym, ap, ap₂, ◌∙◌, Bool, true, false, List, [], ◌∷◌,
  ◌++◌, arith, leb, length, length-append, get_or, get_or-take, drop, map, take-all, branch, ℤ, pos,
}
use native.Mathlib.Numerals.{add-one}
use ice40_ultraplus_examples.Input.{
  Source, input_line_max, newline, refill_interactive_line, read_line, next_of_line, next_of_stdin,
}
use ice40_ultraplus_examples.Input.Editing.{edit, LineIs}
use ice40_ultraplus_examples.Input.Lines.{Agrees, read_line-Agrees}
use ice40_ultraplus_examples.Input.Keys.{AllPlain, clip, edit-typed}
use ice40_ultraplus_examples.Input.Bounds.{fresh-LineIs}

-- `n` reads in a row: the results, and the state behind them.
unfoldable pub reads : (stops : Bool) → ℕ → Source → List ℤ × Source
reads stops zero s = ([], s)
reads stops (suc n) s =
    let (t, c) = next_of_stdin stops s in let (cs, u) = reads stops n t in (c ∷ cs, u)

-- The line was read to its end, and stdin is open.
pub record IsAsking (s : Source) : Type 0 where
  pub size : length s.line ≡ input_line_max
  pub used : s.line_len ≤ s.line_pos
  pub open_input : s.eof ≡ false

pub leb-true : (a b : ℕ) → a ≤ b → leb a b ≡ true
leb-true a b h = ground arith

leb-false : (a b : ℕ) → b < a → leb a b ≡ false
leb-false a b h = ground arith

-- A line that is not read to its end: its next byte.
next_of_stdin-unread :
    (stops : Bool) (s : Source) (acc : List ℕ)
    → LineIs s acc
    → s.line_pos < length acc
    → next_of_stdin stops s ≡ next_of_line s
unfolding next_of_stdin
next_of_stdin-unread stops s acc v h = rw (leb-false s.line_len s.line_pos (omega (arith, v.len)))

-- What a read of a byte of the line leaves.
record Advanced (s : Source) (out : Source × ℤ) : Type 0 where
  line : out.0.line ≡ s.line
  len : out.0.line_len ≡ s.line_len
  position : out.0.line_pos ≡ s.line_pos + 1
  stdin : out.0.stdin ≡ s.stdin
  char : out.1 ≡ pos (get_or s.line s.line_pos 0)

next_of_line-Advanced : (s : Source) → Advanced s (next_of_line s)
unfolding next_of_line
next_of_line-Advanced s = ground arith

drop-get_or : (xs : List ℕ) (i : ℕ) → i < length xs → drop i xs ≡ get_or xs i 0 ∷ drop (suc i) xs
drop-get_or [] i h = absurd (omega arith)
drop-get_or (x ∷ xs) zero h = refl
drop-get_or (x ∷ xs) (suc i) h = drop-get_or xs i (omega arith)

drop-length : (xs : List ℕ) (n : ℕ) → n ≡ length xs → drop n xs ≡ []
drop-length [] zero h = refl
drop-length [] (suc n) h = refl
drop-length (x ∷ xs) zero h = absurd (omega arith)
drop-length (x ∷ xs) (suc n) h = drop-length xs n (omega arith)

LineIs-Advanced :
    (s t : Source) (acc : List ℕ)
    → t.line ≡ s.line
    → t.line_len ≡ s.line_len
    → LineIs s acc
    → LineIs t acc
LineIs-Advanced s t acc l n v = rw (l, n) v

-- The rest of a line, byte by byte.
reads-line :
    (stops : Bool) (n : ℕ) (s : Source) (acc : List ℕ)
    → LineIs s acc
    → s.line_pos + n ≡ length acc
    → ((reads stops n s).0 ≡ map pos (drop s.line_pos acc)) × ((reads stops n s).1.stdin ≡ s.stdin)
unfolding reads
reads-line stops zero s acc v e = (rw (drop-length acc s.line_pos (omega arith)), refl)
reads-line stops (suc n) s acc v e =
    let a = next_of_line-Advanced s in
    let t = (next_of_line s).0 in
    let moved : t.line_pos ≡ suc s.line_pos = omega (arith, a.position) in
    let (chars, left) =
      reads-line stops n t acc (LineIs-Advanced s t acc a.line a.len v)
        (omega (arith, a.position)) in
    let here =
      sym (get_or-take s.line_len s.line s.line_pos 0 (omega (arith, v.len)))
      ∙ ap (λ l. get_or l s.line_pos 0) v.contents in
    rw (next_of_stdin-unread stops s acc v (omega arith), drop-get_or acc s.line_pos (omega arith))
      (
        ap₂ ◌∷◌ (a.char ∙ ap pos here) (chars ∙ ap (λ k. map pos (drop k acc)) moved),
        left ∙ a.stdin,
      )

-- The state after a refill from the keys.
unfoldable pub began : Source → Source
began s = record s { line_len = 0; line_pos = 0 }

refill-open :
    (stops : Bool) (s : Source)
    → s.eof ≡ false
    → refill_interactive_line stops s ≡ read_line stops (began s) s.stdin
unfolding refill_interactive_line began
refill-open stops s open_input =
    branch (λ out. out ≡ read_line stops (began s) s.stdin) s.eof (λ e. absurd (cc)) (λ e. refl)

-- A read at the end of a line, after a refill that gives a line.
pub next_of_stdin-refilled :
    (stops : Bool) (s t : Source)
    → s.line_len ≤ s.line_pos
    → refill_interactive_line stops s ≡ (t, pos 0)
    → next_of_stdin stops s ≡ next_of_line t
unfolding next_of_stdin
next_of_stdin-refilled stops s t used e =
    rw (leb-true s.line_len s.line_pos used, e) (ap (λ out. next_of_line out.0) e)

-- A refill from the keys, by what `edit` says of them.
pub refill-edit :
    (stops : Bool) (s : Source)
    → IsAsking s
    → Agrees (began s) (refill_interactive_line stops s) (edit s.raw_mode stops [] s.stdin)
unfolding began
refill-edit stops s a =
    rw (refill-open stops s a.open_input)
      (read_line-Agrees stops s.raw_mode (began s) [] s.stdin refl (fresh-LineIs s a.size))

-- The first of several reads decides, if two states read alike.
reads-suc :
    (stops : Bool) (n : ℕ) (s t : Source)
    → next_of_stdin stops s ≡ next_of_stdin stops t
    → reads stops (suc n) s ≡ reads stops (suc n) t
unfolding reads
reads-suc stops n s t e = rw e

-- Plain keys and a newline on stdin, fewer than 1024 with the newline: the reads that follow give
-- exactly these characters, in order, and leave what stands behind them on stdin.
pub reads-typed :
    (stops : Bool) (s : Source) (keys rest : List ℕ)
    → IsAsking s
    → s.stdin ≡ keys ++ newline ∷ rest
    → AllPlain s.raw_mode stops keys
    → length keys < input_line_max - 1
    → ((reads stops (length keys + 1) s).0 ≡ map pos (keys ++ newline ∷ []))
      × ((reads stops (length keys + 1) s).1.stdin ≡ rest)
unfolding began
reads-typed stops s keys rest a e p short =
    let line = keys ++ newline ∷ [] in
    let out = refill_interactive_line stops s in
    let t = out.0 in
    let typed : edit s.raw_mode stops [] s.stdin
        ≡ record { line = clip line; rest = rest; code = pos 0; met_eof = false } =
      rw e (edit-typed s.raw_mode stops [] keys rest p) in
    let g : Agrees (began s) out
        (record { line = clip line; rest = rest; code = pos 0; met_eof = false }) =
      rw typed at (refill-edit stops s a) in
    let size : length line ≡ length keys + 1 = omega (arith, length-append keys (newline ∷ [])) in
    let whole : clip line ≡ line = take-all line (input_line_max - 1) (omega arith) in
    let held : LineIs t line = rw whole at g.line in
    let filled : out ≡ (t, pos 0) = ap (λ c. (t, c)) g.code in
    let alike : next_of_stdin stops s ≡ next_of_stdin stops t =
      next_of_stdin-refilled stops s t a.used filled
      ∙ sym (next_of_stdin-unread stops t line held (omega (arith, g.line_pos))) in
    let (chars, left) =
      reads-line stops (suc (length keys)) t line held (omega (arith, g.line_pos)) in
    rw (add-one, reads-suc stops (length keys) s t alike)
      (chars ∙ ap (λ k. map pos (drop k line)) g.line_pos, left ∙ g.rest)
