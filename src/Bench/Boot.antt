-- ===== src/Bench/Boot.antt =====
-- From a reset on, the test bench runs the program in its memory as the instruction set says.
use ice40_ultraplus_examples.Base.{
  ℕ, zero, suc, ◌+◌, ◌*◌, ◌≤◌, ◌≡◌, refl, ap, ◌∙◌, subst, true, false, arith,
}
use ice40_ultraplus_examples.Cmd.{done, ◌>>◌}
use ice40_ultraplus_examples.Cmd.Returns.{Returns, returns}
use ice40_ultraplus_examples.Comet.Machine.{Machine, instructions, started}
use ice40_ultraplus_examples.Bench.{Bench, reset_cpu, run_cycles, run_expecting_fault}
use ice40_ultraplus_examples.Bench.Ticks.{advance, Bounded}
use ice40_ultraplus_examples.Bench.Runs.{advances, view, IsIdle, Reaches, and_on}
use ice40_ultraplus_examples.Bench.Refines.{instruction-Reaches}
use ice40_ultraplus_examples.Bench.Loops.{
  error_of, run_cycles-advances, run_expecting_fault-true, run_expecting_fault-false,
  advances-sticky-le,
}

pub instructions-Reaches :
    (k : ℕ) (b : Bench) → IsIdle b → Reaches (k * 4) (k * 10) b (instructions k (view b))
unfolding instructions advances
instructions-Reaches zero b idle = record {
  ticks = 0;
  many = omega arith;
  few = omega arith;
  idle = idle;
  same = refl;
}
instructions-Reaches (suc k) b idle =
    let r = and_on (instruction-Reaches b idle) λ c idle' e.
      subst (λ m. Reaches (k * 4) (k * 10) c (instructions k m)) e
        (instructions-Reaches k c idle') in
    record {
      ticks = r.ticks;
      many = omega (arith, r.many);
      few = omega (arith, r.few);
      idle = r.idle;
      same = r.same;
    }

-- The bench behind `reset_cpu`.
abbrev booted : Bench → Bench
booted b = advance false (
    advance true
      (advance true (record b { mem = record b.mem { pending_read = false; pending_addr = 0 } })))

reset_cpu-booted : (b : Bench) → reset_cpu b ≡ done tt (booted b)
unfolding reset_cpu advance
reset_cpu-booted b = refl

booted-Bounded : (b : Bench) → Bounded (booted b)
unfolding advance
booted-Bounded b = record { pending = omega arith; reading = omega arith; writing = omega arith }

booted-Reaches : (b : Bench) → Reaches 3 3 (booted b) (started b.mem.word)
unfolding started advances advance
booted-Reaches b = record {
  ticks = 3;
  many = omega arith;
  few = omega arith;
  idle = refl;
  same = refl;
}

program-Reaches :
    (k : ℕ) (b : Bench)
    → Reaches (3 + k * 4) (3 + k * 10) (booted b) (instructions k (started b.mem.word))
program-Reaches k b = and_on (booted-Reaches b) λ c idle e.
    subst (λ m. Reaches (k * 4) (k * 10) c (instructions k m)) e (instructions-Reaches k c idle)

found_at :
    (max_cycles n : ℕ) (b : Bench)
    → n ≤ max_cycles
    → error_of (advances n (booted b)) ≡ true
    → Returns (λ found c. found ≡ true) (run_expecting_fault max_cycles (booted b))
unfolding advances advance
found_at max_cycles zero b h wrong = absurd (cc)
found_at max_cycles (suc n) b h wrong =
    run_expecting_fault-true max_cycles n (booted b) (booted-Bounded b) (omega arith) wrong

error-at :
    (k : ℕ) (b : Bench)
    (r : Reaches (3 + k * 4) (3 + k * 10) (booted b) (instructions k (started b.mem.word)))
    → error_of (advances r.ticks (booted b)) ≡ (instructions k (started b.mem.word)).faulted
error-at k b r = ap (λ (m : Machine). m.faulted) r.same

-- Whatever the CPU did before: if the program in memory makes no fault in its first `k`
-- instructions, then `reset_cpu` and a number of cycles return, with registers and memory as these
-- instructions leave them, and the next one about to be fetched. The cycles are four to ten for
-- each instruction, and three.
pub reset_cpu-runs :
    (k : ℕ) (b : Bench)
    → (instructions k (started b.mem.word)).faulted ≡ false
    → (cycles : ℕ) × (3 + k * 4 ≤ cycles)
      × (cycles ≤ 3 + k * 10)
      × Returns
          (λ _ c. (view c ≡ instructions k (started b.mem.word)) × IsIdle c)
          ((reset_cpu >> run_cycles cycles) b)
reset_cpu-runs k b clean =
    let r = program-Reaches k b in
    (
      r.ticks,
      r.many,
      r.few,
      rw (reset_cpu-booted b) (
          rw (run_cycles-advances r.ticks (booted b) (booted-Bounded b) (error-at k b r ∙ clean))
            (returns (r.same, r.idle))),
    )

-- Whatever the CPU did before: if the program in memory makes a fault in its first `k`
-- instructions, it is found behind `reset_cpu` within as many cycles as these can take.
pub reset_cpu-finds_fault :
    (k max_cycles : ℕ) (b : Bench)
    → (instructions k (started b.mem.word)).faulted ≡ true
    → 3 + k * 10 ≤ max_cycles
    → Returns (λ found c. found ≡ true) ((reset_cpu >> run_expecting_fault max_cycles) b)
reset_cpu-finds_fault k max_cycles b wrong enough =
    let r = program-Reaches k b in
    rw (reset_cpu-booted b)
      (found_at max_cycles r.ticks b (omega (arith, r.few, enough)) (error-at k b r ∙ wrong))

-- Whatever the CPU did before: if the program in memory makes no fault in its first `k`
-- instructions, then none is found behind `reset_cpu` in the cycles that these take at least, and
-- the call returns.
reset_cpu-finds_none :
    (k max_cycles : ℕ) (b : Bench)
    → (instructions k (started b.mem.word)).faulted ≡ false
    → max_cycles ≤ 3 + k * 4
    → Returns (λ found c. found ≡ false) ((reset_cpu >> run_expecting_fault max_cycles) b)
reset_cpu-finds_none k max_cycles b clean short =
    let r = program-Reaches k b in
    let v = booted-Bounded b in
    rw (reset_cpu-booted b) (
      rw
        (run_expecting_fault-false max_cycles (booted b) v (
          advances-sticky-le max_cycles r.ticks (booted b) v (omega (arith, r.many, short))
            (error-at k b r ∙ clean)))
        (returns refl))
