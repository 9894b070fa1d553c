-- ===== src/Bench/Registers.antt =====
-- What the instruction set keeps, on the bench: the width of the registers, and the device
-- registers.
use ice40_ultraplus_examples.Base.{
  ℕ, ◌+◌, ◌*◌, ◌/◌, ◌%◌, ◌^◌, ◌≤◌, ◌<◌, ◌≡◌, ◌≢◌, sym, ap, ◌∙◌, subst, false,
}
use ice40_ultraplus_examples.Cmd.{◌>>◌}
use ice40_ultraplus_examples.Cmd.Returns
use ice40_ultraplus_examples.Cmd.Returns.{Returns, returns}
use ice40_ultraplus_examples.Comet.Codes.{decode, st}
use ice40_ultraplus_examples.Comet.Machine.{Machine, word_at, instruction, instructions, started}
use ice40_ultraplus_examples.Comet.Widths.{IsWords, instructions-IsWords, started-IsWords}
use ice40_ultraplus_examples.Comet.Devices.{instruction-keeps_devices}
use ice40_ultraplus_examples.Bench.{Bench, reset_cpu, run_cycles}
use ice40_ultraplus_examples.Bench.Ticks.{Bounded}
use ice40_ultraplus_examples.Bench.Runs.{advances, view, IsIdle}
use ice40_ultraplus_examples.Bench.Refines.{instruction-Reaches}
use ice40_ultraplus_examples.Bench.Loops.{run_cycles-advances}
use ice40_ultraplus_examples.Bench.Boot.{reset_cpu-runs}

-- Whatever the CPU did before: if the program in memory makes no fault in its first `k`
-- instructions, then behind `reset_cpu` and four to ten cycles for each of them, and three, the
-- registers, PR and SP hold words of 16 bits.
pub reset_cpu-IsWords :
    (k : ℕ) (b : Bench)
    → (instructions k (started b.mem.word)).faulted ≡ false
    → (cycles : ℕ) × (3 + k * 4 ≤ cycles)
      × (cycles ≤ 3 + k * 10)
      × Returns (λ _ c. IsWords (view c)) ((reset_cpu >> run_cycles cycles) b)
reset_cpu-IsWords k b clean =
    let (cycles, many, few, ends) = reset_cpu-runs k b clean in
    (
      cycles,
      many,
      few,
      Returns.weaken ends λ _ c (same, idle).
          subst IsWords (sym same)
            (instructions-IsWords k (started b.mem.word) (started-IsWords b.mem.word)),
    )

-- A CPU that is about to fetch an instruction that is no ST and makes no fault, with a word in SP:
-- four to ten cycles return, with the next instruction about to be fetched, and each word of the
-- memory from 0xf000 on as it was. The stack does not grow into the device registers.
run_cycles-keeps_devices :
    (b : Bench) (i : ℕ)
    → Bounded b
    → IsIdle b
    → b.tb.core.sp < 2 ^ 16
    → 0xf000 ≤ i
    → decode (word_at (view b) b.tb.core.pr / 256 % 256) ≢ st
    → (instruction (view b)).faulted ≡ false
    → (cycles : ℕ) × (4 ≤ cycles)
      × (cycles ≤ 10)
      × Returns (λ _ c. IsIdle c × (c.mem.word i ≡ b.mem.word i)) (run_cycles cycles b)
run_cycles-keeps_devices b i v idle small high no_store clean =
    let r = instruction-Reaches b idle in
    let kept : (advances r.ticks b).mem.word i ≡ b.mem.word i =
      ap (λ (m : Machine). m.word i) r.same
      ∙ instruction-keeps_devices (view b) i small high no_store in
    (
      r.ticks,
      r.many,
      r.few,
      rw (run_cycles-advances r.ticks b v (ap (λ (m : Machine). m.faulted) r.same ∙ clean))
          (returns (r.idle, kept)),
    )
