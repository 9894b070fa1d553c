-- ===== src/Bench/Ticks.antt =====
-- A tick of the test bench never fails on an address, and is then a function of the state.
use ice40_ultraplus_examples.Base.{
  ℕ, ◌%◌, ◌^◌, ◌<◌, ◌≡◌, refl, ap, Bool, false, Bool-cases, inl, inr, not, ◌&&◌, leb, arith,
  if◌then◌else◌,
}
use ice40_ultraplus_examples.Cmd.{Outcome, done, and_then}
use ice40_ultraplus_examples.Cmd.Returns.{Returns, returns}
use ice40_ultraplus_examples.Comet.Addresses.{Within, posedge-Within}
use ice40_ultraplus_examples.Bench.{
  Memory, mem_words, Vcomet2Cpu, Bench, load_word, pulse, eval, take_write, note_read, tick,
}

pub record Bounded (b : Bench) : Type 0 where
  pub pending : b.mem.pending_addr < mem_words
  pub reading : b.tb.core.read_addr < 2 ^ 16
  pub writing : b.tb.core.write_addr < 2 ^ 16

-- The memory behind a tick.
abbrev pub written : Vcomet2Cpu → Memory → Memory
written tb mem =
    if tb.core.write_req
    then load_word tb.core.write_addr (tb.core.write_data % 2 ^ 16) mem
    else mem

-- A tick with no bad address.
unfoldable pub advance : (reset : Bool) → Bench → Bench
unfolding pulse load_word
advance reset b =
    let tb = pulse reset b in record { tb = tb; mem = note_read tb (written tb b.mem) }

in_range : (b : Bool) (a : ℕ) → a < mem_words → b && leb mem_words a ≡ false
in_range b a h = ground arith

take_write-written :
    (tb : Vcomet2Cpu) (mem : Memory) (b : Bench) {was now : Bool} {read : ℕ}
    → Within was now read tb.core.write_addr tb.core.memory_mask
    → take_write tb mem b ≡ done (written tb mem) b
unfolding take_write
take_write-written tb mem b a = ground (arith, a.write_bound, a.whole_word)

pulse-Within :
    (reset : Bool) (b : Bench)
    → Bounded b
    → let c = (pulse reset b).core in
      Within
        (b.tb.core.error_instruction && not reset)
        c.error_instruction
        c.read_addr
        c.write_addr
        c.memory_mask
unfolding pulse eval
pulse-Within reset b v = posedge-Within reset _ _ b.tb.core v.reading v.writing

-- From a bench with addresses in range, a tick returns.
pub tick-advance : (reset : Bool) (b : Bench) → Bounded b → tick reset b ≡ done tt (advance reset b)
unfolding tick advance
tick-advance reset b v = rw (in_range b.mem.pending_read b.mem.pending_addr v.pending) (
    ap
      (λ (out : Outcome Bench Memory).
        and_then out
          λ mem b'. done tt (record { tb = pulse reset b; mem = note_read (pulse reset b) mem }))
      (take_write-written (pulse reset b) b.mem b (pulse-Within reset b v)))

pub advance-Bounded : (reset : Bool) (b : Bench) → Bounded b → Bounded (advance reset b)
unfolding advance
advance-Bounded reset b v =
    let a = pulse-Within reset b v in
    record { pending = a.read_bound; reading = a.read_bound; writing = a.write_bound }

-- Without a reset an error stays.
pub advance-sticky :
    (b : Bench)
    → Bounded b
    → (advance false b).tb.core.error_instruction ≡ false
    → b.tb.core.error_instruction ≡ false
unfolding advance
advance-sticky b v clean = elim (Bool-cases b.tb.core.error_instruction) [
  | inl wrong ↦ absurd (cc ((pulse-Within false b v).sticky (rw (wrong) refl)))
  | inr fine ↦ fine
]

-- From a bench with the pending address and the CPU's addresses in range, a tick returns, and they
-- are in range again: neither the bad addresses nor the mask of a part of a word end the process.
pub tick-Bounded :
    (reset : Bool) (b : Bench) → Bounded b → Returns (λ out c. Bounded c) (tick reset b)
tick-Bounded reset b v = rw (tick-advance reset b v) (returns (advance-Bounded reset b v))
