-- ===== src/Bench/Loops.antt =====
-- The two loops of the test bench, by the ticks that they make.
use ice40_ultraplus_examples.Base.{
  ℕ, zero, suc, ◌≤◌, ◌<◌, ◌≡◌, refl, ◌∙◌, Bool, true, false, arith, if◌then◌else◌,
}
use ice40_ultraplus_examples.Cmd.{Cmd, done}
use ice40_ultraplus_examples.Cmd.Returns
use ice40_ultraplus_examples.Cmd.Returns.{Returns, returns}
use ice40_ultraplus_examples.Bench.{Bench, run_cycles, run_expecting_fault}
use ice40_ultraplus_examples.Bench.Ticks.{
  advance, Bounded, tick-advance, advance-Bounded, advance-sticky,
}
use ice40_ultraplus_examples.Bench.Runs.{advances}

abbrev pub error_of : Bench → Bool
error_of b = b.tb.core.error_instruction

pub advances-Bounded : (n : ℕ) (b : Bench) → Bounded b → Bounded (advances n b)
unfolding advances
advances-Bounded zero b v = v
advances-Bounded (suc n) b v = advances-Bounded n (advance false b) (advance-Bounded false b v)

pub advances-sticky :
    (n : ℕ) (b : Bench) → Bounded b → error_of (advances n b) ≡ false → error_of b ≡ false
unfolding advances
advances-sticky zero b v clean = clean
advances-sticky (suc n) b v clean =
    advance-sticky b v (advances-sticky n (advance false b) (advance-Bounded false b v) clean)

-- No error behind some ticks: none behind fewer.
pub advances-sticky-le :
    (m n : ℕ) (b : Bench)
    → Bounded b
    → m ≤ n
    → error_of (advances n b) ≡ false
    → error_of (advances m b) ≡ false
unfolding advances
advances-sticky-le zero n b v h clean = advances-sticky n b v clean
advances-sticky-le (suc m) zero b v h clean = absurd (omega arith)
advances-sticky-le (suc m) (suc n) b v h clean =
    advances-sticky-le m n (advance false b) (advance-Bounded false b v) (omega arith) clean

-- A test that fails leaves the other command.
other :
    {A : Type 0} (t : Bool) (f g : Cmd Bench A) (b : Bench)
    → t ≡ false
    → (if t then f else g) b ≡ g b
other true f g b e = absurd (cc)
other false f g b e = refl

-- With no error at the end, the loop makes all its ticks.
pub run_cycles-advances :
    (n : ℕ) (b : Bench)
    → Bounded b
    → error_of (advances n b) ≡ false
    → run_cycles n b ≡ done tt (advances n b)
unfolding run_cycles advances
run_cycles-advances zero b v clean = refl
run_cycles-advances (suc n) b v clean =
    let b' = advance false b in
    let v' = advance-Bounded false b v in
    rw (tick-advance false b v) (
      other (error_of b') _ (run_cycles n) b' (advances-sticky n b' v' clean)
      ∙ run_cycles-advances n b' v' clean)

-- An error behind at least one tick and at most `max_cycles` is found.
pub run_expecting_fault-true :
    (max_cycles n : ℕ) (b : Bench)
    → Bounded b
    → n < max_cycles
    → error_of (advances (suc n) b) ≡ true
    → Returns (λ found b'. found ≡ true) (run_expecting_fault max_cycles b)
unfolding run_expecting_fault advances
run_expecting_fault-true zero n b v h wrong = absurd (omega arith)
run_expecting_fault-true (suc max_cycles) zero b v h wrong = rw (tick-advance false b v) (
    Returns.branch_at (error_of (advance false b)) _ _ (advance false b) (λ e. returns refl)
      (λ e. absurd (cc)))
run_expecting_fault-true (suc max_cycles) (suc n) b v h wrong =
    let b' = advance false b in
    rw (tick-advance false b v) (
      Returns.branch_at (error_of b') _ _ b' (λ e. returns refl)
        (λ e.
          run_expecting_fault-true max_cycles n b' (advance-Bounded false b v) (omega arith) wrong))

-- With no error at the end, none is found.
pub run_expecting_fault-false :
    (max_cycles : ℕ) (b : Bench)
    → Bounded b
    → error_of (advances max_cycles b) ≡ false
    → run_expecting_fault max_cycles b ≡ done false (advances max_cycles b)
unfolding run_expecting_fault advances
run_expecting_fault-false zero b v clean = refl
run_expecting_fault-false (suc n) b v clean =
    let b' = advance false b in
    let v' = advance-Bounded false b v in
    rw (tick-advance false b v) (
      other (error_of b') _ (run_expecting_fault n) b' (advances-sticky n b' v' clean)
      ∙ run_expecting_fault-false n b' v' clean)
