-- ===== src/Input/Eof.antt =====
-- What a program that asks for characters receives behind the end of stdin.
use ice40_ultraplus_examples.Base.{
  ℕ, zero, suc, ◌≤◌, ◌≡◌, refl, sym, ap, ap₂, ◌∙◌, Bool, true, [], ◌∷◌, arith, get_or, get_or-take,
  replicate, branch, pos, negsuc,
}
use ice40_ultraplus_examples.Input.{
  Source, ctrl_d, refill_interactive_line, next_of_line, next_of_stdin,
}
use ice40_ultraplus_examples.Input.Editing.{eot}
use ice40_ultraplus_examples.Input.Lines.{Agrees}
use ice40_ultraplus_examples.Input.Keys.{AllPlain, edit-unterminated}
use ice40_ultraplus_examples.Input.Delivery.{
  reads, IsAsking, leb-true, began, next_of_stdin-refilled, refill-edit,
}

-- stdin is at its end and the end-of-transmission byte went out.
record IsClosed (s : Source) : Type 0 where
  used : s.line_len ≤ s.line_pos
  eof : s.eof ≡ true
  eof_sent : s.eof_sent ≡ true

refill-closed :
    (stops : Bool) (s : Source) → IsClosed s → refill_interactive_line stops s ≡ (began s, negsuc 0)
unfolding refill_interactive_line began
refill-closed stops s c =
    branch (λ out. out ≡ (began s, negsuc 0)) s.eof
      (λ e.
        branch (λ out. out ≡ (began s, negsuc 0)) s.eof_sent (λ e'. refl)
          (λ e'. absurd (cc (c.eof_sent))))
      (λ e. absurd (cc (c.eof)))

closed-fails :
    (stops : Bool) (s : Source) → IsClosed s → next_of_stdin stops s ≡ (began s, negsuc 0)
unfolding next_of_stdin
closed-fails stops s c =
    let e = refill-closed stops s c in
    rw (leb-true s.line_len s.line_pos c.used, e) (ap (λ out. (out.0, negsuc 0)) e)

began-IsClosed : (s : Source) → IsClosed s → IsClosed (began s)
unfolding began
began-IsClosed s c = record { used = omega arith; eof = c.eof; eof_sent = c.eof_sent }

reads-closed :
    (stops : Bool) (n : ℕ) (s : Source) → IsClosed s → (reads stops n s).0 ≡ replicate n (negsuc 0)
unfolding reads
reads-closed stops zero s c = refl
reads-closed stops (suc n) s c =
    rw (closed-fails stops s c)
      (ap (λ r. negsuc 0 ∷ r) (reads-closed stops n (began s) (began-IsClosed s c)))

-- The read that hands out the end-of-transmission byte, at EOF.
eot-read :
    (t : Source)
    → get_or t.line t.line_pos 0 ≡ ctrl_d
    → t.eof ≡ true
    → t.line_len ≡ suc t.line_pos
    → ((next_of_line t).1 ≡ pos ctrl_d) × IsClosed (next_of_line t).0
unfolding next_of_line
eot-read t e eof len = rw e (refl, record { used = omega arith; eof = eof; eof_sent = refl })

-- Plain keys on stdin with no newline behind them: none of them is delivered. The first read gives
-- the end-of-transmission byte, and each later one fails.
pub reads-unterminated :
    (stops : Bool) (s : Source) (n : ℕ)
    → IsAsking s
    → AllPlain s.raw_mode stops s.stdin
    → (reads stops (suc n) s).0 ≡ pos ctrl_d ∷ replicate n (negsuc 0)
unfolding reads began eot
reads-unterminated stops s n a p =
    let out = refill_interactive_line stops s in
    let t = out.0 in
    let g : Agrees (began s) out (eot [] true) =
      rw (edit-unterminated s.raw_mode stops [] s.stdin p) at (refill-edit stops s a) in
    let filled : out ≡ (t, pos 0) = ap (λ c. (t, c)) g.code in
    let at_start : t.line_pos ≡ 0 = g.line_pos in
    let byte : get_or t.line t.line_pos 0 ≡ ctrl_d =
      ap (λ i. get_or t.line i 0) at_start
      ∙ sym (get_or-take t.line_len t.line 0 0 (omega (arith, g.line.len)))
      ∙ ap (λ l. get_or l 0 0) g.line.contents in
    let (first, closed) = eot-read t byte g.eof (omega (arith, g.line.len)) in
    rw (next_of_stdin-refilled stops s t a.used filled)
      (ap₂ ◌∷◌ first (reads-closed stops n (next_of_line t).0 closed))
