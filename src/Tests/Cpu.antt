-- ===== src/Tests/Cpu.antt =====
-- The CPU and its test bench at small programs.
use ice40_ultraplus_examples.Base.{
  ℕ, ◌+◌, ◌*◌, ◌≤◌, ◌≡◌, refl, true, false, [], ◌∷◌, ◌&&◌, not, ltb, leb, arith, if◌then◌else◌,
}
use ice40_ultraplus_examples.Cmd.{◌>>◌}
use ice40_ultraplus_examples.Cmd.Returns.{Returns}
use ice40_ultraplus_examples.Comet.Codes.{
  is_two_word_instruction, decode, uses_r_field, uses_x_field,
}
use ice40_ultraplus_examples.Comet.Words.{
  bit, add16, sub16, indexed_addr, signed_add_overflow, signed_sub_overflow,
}
use ice40_ultraplus_examples.Comet.Perform.{bad_field}
use ice40_ultraplus_examples.Comet.Machine.{effect, instruction, instructions, started}
use ice40_ultraplus_examples.Comet.Widths.{IsWords}
use ice40_ultraplus_examples.Comet.Signed.{biased, signed_add_overflow-range, signed_sub-flags}
use ice40_ultraplus_examples.Bench.{
  Memory, Bench, insn, reset_cpu, run_cycles, run_expecting_fault, tick,
}
use ice40_ultraplus_examples.Bench.Program.{two, load_all, vectors, new_cpu}
use ice40_ultraplus_examples.Bench.Ticks.{Bounded, tick-Bounded}
use ice40_ultraplus_examples.Bench.Runs.{view, IsIdle}
use ice40_ultraplus_examples.Bench.Boot.{reset_cpu-runs, reset_cpu-finds_fault}
use ice40_ultraplus_examples.Bench.Registers.{reset_cpu-IsWords}

abbrev bench_with : Memory → Bench
bench_with mem = record { tb = new_cpu; mem = mem }

-- LAD GR1,#1234; ST GR1,#0300, with some room for the stack.
abbrev storing : Bench
storing = bench_with (
    load_all 0x0100 (two (insn 0x12 1 0) 0x1234 ∷ two (insn 0x11 1 0) 0x0300 ∷ []) (vectors 0x0200))

-- LAD GR1,#ABCD; PUSH 0, with SP = 0.
abbrev overflowing : Bench
overflowing = bench_with (
    load_all 0x0100 (two (insn 0x12 1 0) 0xabcd ∷ two (insn 0x70 0 0) 0x0000 ∷ []) (vectors 0x0000))

storing_clean : (instructions 2 (started storing.mem.word)).faulted ≡ false
unfolding instructions instruction started load_all vectors insn is_two_word_instruction decode
    uses_r_field uses_x_field bad_field add16 indexed_addr effect
storing_clean = refl

overflowing_faults : (instructions 2 (started overflowing.mem.word)).faulted ≡ true
unfolding instructions instruction started load_all vectors insn is_two_word_instruction decode
    uses_r_field uses_x_field bad_field add16 indexed_addr effect
overflowing_faults = refl

reset_cpu-runs_example :
    (cycles : ℕ) × (3 + 2 * 4 ≤ cycles)
    × (cycles ≤ 3 + 2 * 10)
    × Returns
        (λ _ c. (view c ≡ instructions 2 (started storing.mem.word)) × IsIdle c)
        ((reset_cpu >> run_cycles cycles) storing)
reset_cpu-runs_example = reset_cpu-runs 2 storing storing_clean

reset_cpu-finds_fault_example :
    Returns (λ found c. found ≡ true) ((reset_cpu >> run_expecting_fault 60) overflowing)
reset_cpu-finds_fault_example =
    reset_cpu-finds_fault 2 60 overflowing overflowing_faults (omega arith)

tick-Bounded_example : Returns (λ out c. Bounded c) (tick false storing)
unfolding load_all vectors
tick-Bounded_example =
    tick-Bounded false storing
      (record { pending = omega arith; reading = omega arith; writing = omega arith })

reset_cpu-IsWords_example :
    (cycles : ℕ) × (3 + 2 * 4 ≤ cycles)
    × (cycles ≤ 3 + 2 * 10)
    × Returns (λ _ c. IsWords (view c)) ((reset_cpu >> run_cycles cycles) storing)
reset_cpu-IsWords_example = reset_cpu-IsWords 2 storing storing_clean

signed_add_overflow-range_example :
    signed_add_overflow 0x7fff 1 (add16 0x7fff 1)
    ≡ not (leb 32768 (biased 0x7fff + biased 1) && ltb (biased 0x7fff + biased 1) 98304)
signed_add_overflow-range_example = signed_add_overflow-range 0x7fff 1 (omega arith) (omega arith)

-- 32767 and -32768: the difference is no word, and the sign flag is the wrong way round.
signed_sub-flags_example :
    let overflow = signed_sub_overflow 0x7fff 0x8000 (sub16 0x7fff 0x8000) in
    let less = ltb (biased 0x7fff) (biased 0x8000) in
    (overflow
      ≡ not (
          leb (biased 0x8000) (biased 0x7fff + 32768)
          && ltb (biased 0x7fff) (biased 0x8000 + 32768)))
    × (bit (sub16 0x7fff 0x8000) 15 ≡ (if overflow then not less else less))
signed_sub-flags_example = signed_sub-flags 0x7fff 0x8000 (omega arith) (omega arith)
