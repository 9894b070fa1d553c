-- ===== src/Bench/Program.antt =====
-- The tests of comet2/comet2_cpu/verilator_test/main.cpp, and its `main`.
use ice40_ultraplus_examples.Base.{ℕ, ◌+◌, ◌%◌, ◌^◌, false, List, [], ◌∷◌, ◌||◌, ltb, if◌then◌else◌}
use ice40_ultraplus_examples.Cmd.{Cmd, done, pure, ◌>>=◌, ◌>>◌}
use ice40_ultraplus_examples.Comet.Registers.{reset_values}
use ice40_ultraplus_examples.Bench.{
  Memory, new_memory, Vcomet2Cpu, Bench, insn, load_word, load_2word, run_cycles, reset_cpu,
  expect_word, run_expecting_fault, exit,
}

-- `load_word(mem, pc++, w)` and `load_2word(mem, pc, op, operand)`.
pub data Load : Type 0 where
  one : (w : ℕ) → Load
  two : (op operand : ℕ) → Load

-- The loads of a test from `pc` on.
unfoldable pub load_all : (pc : ℕ) → List Load → Memory → Memory
unfolding load_2word load_word
load_all pc [] mem = mem
load_all pc (one w ∷ loads) mem = load_all ((pc + 1) % 2 ^ 16) loads (load_word pc w mem)
load_all pc (two op operand ∷ loads) mem =
    let (pc', mem') = load_2word pc op operand mem in load_all pc' loads mem'

-- The memory at the start of each test: the reset vector and the stack pointer.
unfoldable pub vectors : (sp : ℕ) → Memory
unfolding load_word
vectors sp = load_word 31 sp (load_word 0 0x0100 new_memory)

unfoldable pub use_memory : Memory → Cmd Bench (Unit {0})
use_memory mem b = done tt (record b { mem = mem })

-- `memory` is loaded, the CPU is reset and runs.
unfoldable pub run_test : Memory → (cycles : ℕ) → Cmd Bench (Unit {0})
unfolding use_memory reset_cpu run_cycles
run_test memory cycles = do use_memory memory; reset_cpu; run_cycles cycles

unfoldable pub expect_fault : Memory → Cmd Bench (Unit {0})
unfolding use_memory reset_cpu run_expecting_fault
expect_fault memory = do
  use_memory memory
  reset_cpu
  fault ← run_expecting_fault 60
  if fault then pure tt else exit 1

-- `pr < 0x0100 || pr > 0x0106`, for the lower half of `debug`.
unfoldable pub expect_near_reset : Cmd Bench (Unit {0})
expect_near_reset b =
    let pr = b.tb.core.debug % 2 ^ 16 in
    (if ltb pr 0x0100 || ltb 0x0106 pr then exit 1 else pure tt) b

unfoldable pub test_lad_st_and_svc_reset : Cmd Bench (Unit {0})
unfolding load_all vectors insn run_test expect_word expect_near_reset
test_lad_st_and_svc_reset = do
  let program =
      load_all 0x0100
        (two (insn 0x12 1 0) 0x1234 ∷ two (insn 0x11 1 0) 0x0300 ∷ two (insn 0xf0 0 0) 0x0000 ∷ [])
        (vectors 0x0200)
  run_test program 80
  expect_word 0x0300 0x1234
  expect_near_reset

unfoldable pub test_arithmetic_compare_and_branch : Cmd Bench (Unit {0})
unfolding load_all vectors insn run_test expect_word
test_arithmetic_compare_and_branch = do
  let program =
      load_all 0x0100
        (two (insn 0x12 1 0) 5
          ∷ two (insn 0x12 2 0) 7
          ∷ one (insn 0x24 1 2)
          ∷ two (insn 0x40 1 0) 0x0310
          ∷ two (insn 0x63 0 0) 0x0110
          ∷ two (insn 0x12 3 0) 0xbad0
          ∷ two (insn 0x11 3 0) 0x0301
          ∷ two (insn 0xf0 0 0) 0x0000
          ∷ [])
        (load_word 0x0310 12 (vectors 0x0200))
  let pass =
      two (insn 0x12 3 0) 0xbeef ∷ two (insn 0x11 3 0) 0x0301 ∷ two (insn 0xf0 0 0) 0x0000 ∷ []
  run_test (load_all 0x0110 pass program) 140
  expect_word 0x0301 0xbeef

unfoldable pub test_call_ret_push_pop : Cmd Bench (Unit {0})
unfolding load_all vectors insn run_test expect_word
test_call_ret_push_pop = do
  let program =
      load_all 0x0100
        (two (insn 0x12 1 0) 0x4444
          ∷ two (insn 0x70 0 0) 0x7777
          ∷ one (insn 0x71 2 0)
          ∷ two (insn 0x80 0 0) 0x0120
          ∷ two (insn 0x11 1 0) 0x0302
          ∷ two (insn 0x11 2 0) 0x0303
          ∷ two (insn 0xf0 0 0) 0x0000
          ∷ [])
        (vectors 0x0200)
  let sub = two (insn 0x12 1 0) 0x5555 ∷ one (insn 0x81 0 0) ∷ []
  run_test (load_all 0x0120 sub program) 180
  expect_word 0x0302 0x5555
  expect_word 0x0303 0x7777

unfoldable pub test_push_sp_overflow : Cmd Bench (Unit {0})
unfolding load_all vectors insn expect_fault
test_push_sp_overflow = expect_fault (
    load_all 0x0100 (two (insn 0x12 1 0) 0xabcd ∷ two (insn 0x70 0 0) 0x0000 ∷ []) (vectors 0x0000))

unfoldable pub test_call_sp_overflow : Cmd Bench (Unit {0})
unfolding load_all vectors insn expect_fault
test_call_sp_overflow =
    let program = load_all 0x0100 (two (insn 0x80 0 0) 0x0120 ∷ []) (vectors 0x0000) in
    expect_fault (load_all 0x0120 (one (insn 0x81 0 0) ∷ []) program)

unfoldable pub test_pop_sp_underflow : Cmd Bench (Unit {0})
unfolding load_all vectors insn expect_fault
test_pop_sp_underflow = expect_fault (load_all 0x0100 (one (insn 0x71 1 0) ∷ []) (vectors 0xf000))

unfoldable pub test_ret_sp_underflow : Cmd Bench (Unit {0})
unfolding load_all vectors insn expect_fault
test_ret_sp_underflow = expect_fault (load_all 0x0100 (one (insn 0x81 0 0) ∷ []) (vectors 0xf000))

unfoldable pub test_svc_invalid_vector : Cmd Bench (Unit {0})
unfolding load_all vectors insn expect_fault
test_svc_invalid_vector =
    expect_fault (load_all 0x0100 (two (insn 0xf0 0 0) 0x0010 ∷ []) (vectors 0x0200))

unfoldable pub test_svc_sp_overflow : Cmd Bench (Unit {0})
unfolding load_all vectors insn expect_fault
test_svc_sp_overflow =
    expect_fault
      (load_all 0x0100 (two (insn 0xf0 0 0) 0x0001 ∷ []) (load_word 1 0x0120 (vectors 0x0000)))

unfoldable pub test_svc_ret : Cmd Bench (Unit {0})
unfolding load_all vectors insn run_test expect_word
test_svc_ret = do
  let program =
      load_all 0x0100
        (two (insn 0xf0 0 0) 0x0001 ∷ two (insn 0x11 1 0) 0x0304 ∷ two (insn 0xf0 0 0) 0x0000 ∷ [])
        (load_word 1 0x0120 (vectors 0x0200))
  let handler = two (insn 0x12 1 0) 0xcafe ∷ one (insn 0x81 0 0) ∷ []
  run_test (load_all 0x0120 handler program) 120
  expect_word 0x0304 0xcafe

unfoldable pub run_tests : Cmd Bench (Unit {0})
unfolding test_lad_st_and_svc_reset test_arithmetic_compare_and_branch test_call_ret_push_pop
    test_svc_ret test_push_sp_overflow test_call_sp_overflow test_pop_sp_underflow
    test_ret_sp_underflow test_svc_invalid_vector test_svc_sp_overflow
run_tests = do
  test_lad_st_and_svc_reset
  test_arithmetic_compare_and_branch
  test_call_ret_push_pop
  test_svc_ret
  test_push_sp_overflow
  test_call_sp_overflow
  test_pop_sp_underflow
  test_ret_sp_underflow
  test_svc_invalid_vector
  test_svc_sp_overflow

-- `new Vcomet2_cpu`, with the initial values of the registers.
abbrev pub new_cpu : Vcomet2Cpu
new_cpu = record {
  clk = false;
  reset = false;
  read_data = 0;
  read_data_valid = false;
  last_clk = false;
  core = reset_values;
}

unfoldable pub main : Cmd Bench ℕ
unfolding run_tests
main b = (do run_tests; pure 0) (record b { tb = new_cpu })
