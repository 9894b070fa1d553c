-- ===== src/Bench.antt =====
-- The test bench of the CPU, comet2/comet2_cpu/verilator_test/main.cpp: the model that Verilator
-- makes of comet2_cpu.v, the memory beside it, and the functions that the tests are made of.
pub mod Program
pub mod Ticks
pub mod Runs
pub mod Executes
pub mod Refines
pub mod Loops
pub mod Boot
pub mod Passes
pub mod Registers
use ice40_ultraplus_examples.Base.{
  ℕ, zero, suc, ◌+◌, ◌*◌, ◌%◌, ◌^◌, Bool, true, false, ◌&&◌, not, leb, ◌==◌, if◌then◌else◌,
}
use ice40_ultraplus_examples.Cmd.{Cmd, done, exited, pure, ◌>>=◌, ◌>>◌}
use ice40_ultraplus_examples.Comet.Registers.{Cpu}
use ice40_ultraplus_examples.Comet.Cpu.{posedge}

abbrev pub mem_words : ℕ
mem_words = 65536

-- `word` is the array, a function of the index.
pub record Memory : Type 0 where
  pub word : ℕ → ℕ
  pub pending_read : Bool
  pub pending_addr : ℕ

-- The constructor of `Memory`.
abbrev pub new_memory : Memory
new_memory = record { word = λ i. 0; pending_read = false; pending_addr = 0 }

-- The inputs of the model, what `clk` was at the last evaluation, and its registers, which are also
-- its outputs.
pub record Vcomet2Cpu : Type 0 where
  pub clk : Bool
  pub reset : Bool
  pub read_data : ℕ
  pub read_data_valid : Bool
  pub last_clk : Bool
  pub core : Cpu

-- `eval()`: the registers change on a rising edge of the clock.
unfoldable pub eval : Vcomet2Cpu → Vcomet2Cpu
unfolding posedge
eval tb =
    let seen = record tb { last_clk = tb.clk } in
    if tb.clk && not tb.last_clk
    then record seen { core = posedge tb.reset tb.read_data tb.read_data_valid tb.core }
    else seen

pub record Bench : Type 0 where
  pub tb : Vcomet2Cpu
  pub mem : Memory

unfoldable pub insn : (op r x : ℕ) → ℕ
insn op r x = op * 2 ^ 8 + r % 16 * 2 ^ 4 + x % 16

unfoldable pub load_word : (addr value : ℕ) → Memory → Memory
load_word addr value mem = record mem { word = λ i. if i == addr then value else mem.word i }

-- The second word goes behind the first; `pc` moves behind both.
unfoldable pub load_2word : (pc op operand : ℕ) → Memory → ℕ × Memory
unfolding load_word
load_2word pc op operand mem =
    ((pc + 2) % 2 ^ 16, load_word ((pc + 1) % 2 ^ 16) operand (load_word pc op mem))

-- The inputs of a tick, and what the memory answers to a pending read.
abbrev pub give_inputs : (reset : Bool) → Bench → Vcomet2Cpu
give_inputs reset b = record b.tb {
  clk = false;
  reset = reset;
  read_data = if b.mem.pending_read then b.mem.word b.mem.pending_addr else 0;
  read_data_valid = b.mem.pending_read;
}

-- Both evaluations of a tick.
unfoldable pub pulse : (reset : Bool) → Bench → Vcomet2Cpu
unfolding eval
pulse reset b = eval (record (eval (give_inputs reset b)) { clk = true })

-- What the CPU writes goes to the memory; a bad write ends the process.
unfoldable pub take_write : Vcomet2Cpu → Memory → Cmd Bench Memory
take_write tb mem b =
    if tb.core.write_req
    then (if leb mem_words tb.core.write_addr
        then exited 1 b
        else if not (tb.core.memory_mask == 3)
        then exited 1 b
        else done (load_word tb.core.write_addr (tb.core.write_data % 2 ^ 16) mem) b)
    else done mem b

-- The read that the CPU asks for.
abbrev pub note_read : Vcomet2Cpu → Memory → Memory
note_read tb mem = record mem { pending_read = tb.core.read_req; pending_addr = tb.core.read_addr }

unfoldable pub tick : (reset : Bool) → Cmd Bench (Unit {0})
unfolding pulse take_write load_word
tick reset b =
    if b.mem.pending_read && leb mem_words b.mem.pending_addr
    then exited 1 b
    else (let tb = pulse reset b in
          do mem ← take_write tb b.mem; λ b'. done tt (record { tb = tb; mem = note_read tb mem }))
        b

abbrev pub error_instruction : Cmd Bench Bool
error_instruction b = done b.tb.core.error_instruction b

abbrev pub exit : {A : Type 0} → ℕ → Cmd Bench A
exit code b = exited code b

-- The loop, for `cycles` ticks.
unfoldable pub run_cycles : (cycles : ℕ) → Cmd Bench (Unit {0})
run_cycles zero = pure tt
run_cycles (suc cycles) = do
  tick false
  wrong ← error_instruction
  if wrong then exit 1 else run_cycles cycles

unfoldable pub reset_cpu : Cmd Bench (Unit {0})
unfolding tick
reset_cpu b =
    (do tick true; tick true; tick false)
      (record b { mem = record b.mem { pending_read = false; pending_addr = 0 } })

unfoldable pub expect_word : (addr expected : ℕ) → Cmd Bench (Unit {0})
expect_word addr expected b = if b.mem.word addr == expected then done tt b else exited 1 b

-- Whether the fault comes within `max_cycles` ticks.
unfoldable pub run_expecting_fault : (max_cycles : ℕ) → Cmd Bench Bool
run_expecting_fault zero = pure false
run_expecting_fault (suc max_cycles) = do
  tick false
  fault ← error_instruction
  if fault then pure true else run_expecting_fault max_cycles
