-- ===== src/Bench/Refines.antt =====
-- The CPU on the bus of the test bench refines the instruction set.
use ice40_ultraplus_examples.Base.{
  ℕ, ◌+◌, ◌*◌, ◌/◌, ◌%◌, ◌^◌, ◌≡◌, refl, inl, inr, Bool-cases, sym, subst, Bool, true, false, arith,
  if◌then◌else◌,
}
use ice40_ultraplus_examples.Comet.Codes.{
  Op, State, st_fetch_req, st_operand_req, st_execute, is_two_word_instruction, decode,
}
use ice40_ultraplus_examples.Comet.Registers.{Cpu}
use ice40_ultraplus_examples.Comet.Machine.{Machine, word_at, fetched, obey, instruction}
use ice40_ultraplus_examples.Bench.{Bench, pulse}
use ice40_ultraplus_examples.Bench.Ticks.{advance}
use ice40_ultraplus_examples.Bench.Runs.{view, IsIdle, Reaches, later, within}
use ice40_ultraplus_examples.Bench.Executes.{index, execute-Reaches, one_word}

-- The bench with its CPU in a state.
abbrev put_in : State → Bench → Bench
put_in state b = record b { tb = record b.tb { core = record b.tb.core { state = state } } }

-- The word of the instruction, by its fields.
abbrev obeyed : (operand : ℕ) → Cpu → Machine → Machine
obeyed operand c m = obey (decode (c.ir / 256 % 256)) (c.ir / 16 % 16) (index c) operand m

executing-Reaches :
    (b : Bench) → Reaches 1 5 (put_in st_execute b) (obeyed b.tb.core.operand b.tb.core (view b))
unfolding advance pulse
executing-Reaches b =
    let d = b.tb.core in
    later (
      execute-Reaches (pulse false (put_in st_execute b)) b.mem (decode (d.ir / 256 % 256))
        (d.ir / 16 % 16)
        (record d { state = st_execute; write_data = d.write_word; debug = 9 * 2 ^ 16 + d.pr }))

-- Behind ST_DECODE: the operand is fetched, or not.
decoded-Reaches :
    (t : Bool) (b : Bench)
    → let m = view b in
      Reaches 1 7 (put_in (if t then st_operand_req else st_execute) b) (
        if t
        then obeyed (word_at m m.pr) b.tb.core (fetched m)
        else obeyed b.tb.core.operand b.tb.core m)
unfolding advance
decoded-Reaches true b =
    within (omega arith) (omega arith)
      (later (later (executing-Reaches (advance false (advance false (put_in st_operand_req b))))))
decoded-Reaches false b = within (omega arith) (omega arith) (executing-Reaches b)

-- Only an instruction of two words reads its operand.
either_operand :
    (o : Op) (r x a b : ℕ) (m n : Machine)
    → (if is_two_word_instruction o then n else obey o r x a m)
      ≡ (if is_two_word_instruction o then n else obey o r x b m)
either_operand o r x a b m n = elim (Bool-cases (is_two_word_instruction o)) [
  | inl two ↦ rw (two) refl
  | inr one ↦ rw (one) (one_word o r x a b m one)
]

fetching-Reaches : (b : Bench) → Reaches 4 10 (put_in st_fetch_req b) (instruction (view b))
unfolding instruction advance
fetching-Reaches b =
    let d = advance false (advance false (advance false (put_in st_fetch_req b))) in
    let ir = word_at (view b) b.tb.core.pr in
    let m = fetched (view b) in
    let o = decode (ir / 256 % 256) in
    later (
      later (
        later (
          subst (λ n. Reaches 1 7 d n)
            (either_operand o (ir / 16 % 16) (ir % 16) b.tb.core.operand 0 m
              (obey o (ir / 16 % 16) (ir % 16) (word_at m m.pr) (fetched m)))
            (decoded-Reaches (is_two_word_instruction o) d))))

-- A CPU that is about to fetch an instruction executes it, in four to ten ticks.
pub instruction-Reaches : (b : Bench) → IsIdle b → Reaches 4 10 b (instruction (view b))
instruction-Reaches b idle =
    subst (λ state. Reaches 4 10 (put_in state b) (instruction (view b))) (sym idle)
      (fetching-Reaches b)
