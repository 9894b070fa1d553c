-- ===== src/Bench/Executes.antt =====
-- The CPU behind ST_EXECUTE does what the instruction set says.
use ice40_ultraplus_examples.Base.{
  ℕ, ◌%◌, ◌^◌, ◌≤◌, ◌≡◌, refl, inl, inr, Bool-cases, false, ◌||◌, ltb, ◌==◌, arith,
}
use ice40_ultraplus_examples.Comet.Codes.{
  Op, nop, ld, st, lad, ld_r, adda, suba, addl, subl, adda_r, suba_r, addl_r, subl_r, logic_and,
  logic_or, logic_xor, and_r, or_r, xor_r, cpa, cpl, cpa_r, cpl_r, sla, sra, sll, srl, jmi, jnz,
  jze, jump, jpl, jov, push, pop, call, ret, svc, unknown, mr_none, mw_none,
  is_two_word_instruction, uses_r_field, uses_x_field,
}
use ice40_ultraplus_examples.Comet.Words.{indexed_addr}
use ice40_ultraplus_examples.Comet.Registers.{Cpu, no_room, in_mmio}
use ice40_ultraplus_examples.Comet.Perform.{supervisor_call, perform, bad_field, execute}
use ice40_ultraplus_examples.Comet.Machine.{Machine, supervise, effect, obey}
use ice40_ultraplus_examples.Bench.{Memory, Vcomet2Cpu}
use ice40_ultraplus_examples.Bench.Ticks.{advance}
use ice40_ultraplus_examples.Bench.Runs.{
  view, IsIdle, advances, machine_of, Reaches, settled, either,
}

-- The index field of the instruction, and the address that it names.
abbrev pub index : Cpu → ℕ
index d = d.ir % 16

abbrev address : Cpu → ℕ
address d = indexed_addr d.gr d.operand (index d)

-- The registers in ST_EXECUTE, with the assignments that stand above `case (op)`.
abbrev ready : (r ea : ℕ) → Cpu → Cpu
ready r ea d = record d {
  read_req = false;
  write_req = false;
  memory_mask = 3;
  mem_read_kind = mr_none;
  mem_write_kind = mw_none;
  effective_addr = ea;
  dest_reg = r;
}

field : (r : ℕ) → ltb 7 r || false ≡ false → ltb 7 r ≡ false
field r h = ground arith

module _ (tb : Vcomet2Cpu) (mem : Memory) where
  -- A number of ticks that computes.
  reached :
      (n : ℕ) {c : Cpu} {m : Machine}
      → n ≤ 4
      → IsIdle (advances n (settled tb c mem))
      → view (advances n (settled tb c mem)) ≡ m
      → Reaches 0 4 (settled tb c mem) m
  reached n few idle same = record {
    ticks = n;
    many = omega arith;
    few = few;
    idle = idle;
    same = same;
  }

  supervise-Reaches :
      (n r ea : ℕ) (d : Cpu)
      → Reaches 0 4
          (settled tb (supervisor_call n (ready r ea d)) mem)
          (supervise n (machine_of d mem.word))
  unfolding supervisor_call supervise advances advance
  supervise-Reaches n r ea d = either tb mem (n == 0) (reached 4 (omega arith) refl refl) (
      either tb mem (ltb 0x0f n) (reached 0 (omega arith) refl refl) (
        either tb mem (no_room d.sp) (reached 0 (omega arith) refl refl)
          (reached 3 (omega arith) refl refl)))

  -- The cases of `case (op)`, when the fields name registers.
  perform-Reaches :
      (o : Op) (r : ℕ) (d : Cpu)
      → bad_field o r (index d) ≡ false
      → Reaches 0 4
          (settled tb (perform o r (index d) (address d) (ready r (address d) d)) mem)
          (effect o r (index d) (address d) (machine_of d mem.word))
  unfolding perform effect advances advance bad_field uses_r_field uses_x_field
  perform-Reaches nop r d good = reached 0 (omega arith) refl refl
  perform-Reaches ld r d good = reached 2 (omega arith) refl refl
  perform-Reaches st r d good = reached 1 (omega arith) refl refl
  perform-Reaches lad r d good = reached 0 (omega arith) refl refl
  perform-Reaches ld_r r d good = reached 0 (omega arith) refl refl
  perform-Reaches adda r d good = reached 2 (omega arith) refl refl
  perform-Reaches suba r d good = reached 2 (omega arith) refl refl
  perform-Reaches addl r d good = reached 2 (omega arith) refl refl
  perform-Reaches subl r d good = reached 2 (omega arith) refl refl
  perform-Reaches adda_r r d good = reached 0 (omega arith) refl refl
  perform-Reaches suba_r r d good = reached 0 (omega arith) refl refl
  perform-Reaches addl_r r d good = reached 0 (omega arith) refl refl
  perform-Reaches subl_r r d good = reached 0 (omega arith) refl refl
  perform-Reaches logic_and r d good = reached 2 (omega arith) refl refl
  perform-Reaches logic_or r d good = reached 2 (omega arith) refl refl
  perform-Reaches logic_xor r d good = reached 2 (omega arith) refl refl
  perform-Reaches and_r r d good = reached 0 (omega arith) refl refl
  perform-Reaches or_r r d good = reached 0 (omega arith) refl refl
  perform-Reaches xor_r r d good = reached 0 (omega arith) refl refl
  perform-Reaches cpa r d good = reached 2 (omega arith) refl refl
  perform-Reaches cpl r d good = reached 2 (omega arith) refl refl
  perform-Reaches cpa_r r d good = reached 0 (omega arith) refl refl
  perform-Reaches cpl_r r d good = reached 0 (omega arith) refl refl
  perform-Reaches sla r d good = reached 0 (omega arith) refl refl
  perform-Reaches sra r d good = reached 0 (omega arith) refl refl
  perform-Reaches sll r d good = reached 0 (omega arith) refl refl
  perform-Reaches srl r d good = reached 0 (omega arith) refl refl
  perform-Reaches jmi r d good = reached 0 (omega arith) refl refl
  perform-Reaches jnz r d good = reached 0 (omega arith) refl refl
  perform-Reaches jze r d good = reached 0 (omega arith) refl refl
  perform-Reaches jump r d good = reached 0 (omega arith) refl refl
  perform-Reaches jpl r d good = reached 0 (omega arith) refl refl
  perform-Reaches jov r d good = reached 0 (omega arith) refl refl
  perform-Reaches push r d good =
      either tb mem (no_room d.sp) (reached 0 (omega arith) refl refl)
        (reached 1 (omega arith) refl refl)
  perform-Reaches pop r d good = rw (field r good) (
      either tb mem (in_mmio d.sp) (reached 0 (omega arith) refl refl)
        (reached 2 (omega arith) refl refl))
  perform-Reaches call r d good =
      either tb mem (no_room d.sp) (reached 0 (omega arith) refl refl)
        (reached 1 (omega arith) refl refl)
  perform-Reaches ret r d good =
      either tb mem (in_mmio d.sp) (reached 0 (omega arith) refl refl)
        (reached 2 (omega arith) refl refl)
  perform-Reaches svc r d good = supervise-Reaches (address d % 2 ^ 8) r (address d) d
  perform-Reaches unknown r d good = reached 0 (omega arith) refl refl

  pub execute-Reaches :
      (o : Op) (r : ℕ) (d : Cpu)
      → Reaches 0 4
          (settled tb
            (execute o r
              (index d)
              (record d { read_req = false; write_req = false; memory_mask = 3 }))
            mem)
          (obey o r (index d) d.operand (machine_of d mem.word))
  unfolding execute obey advances advance
  execute-Reaches o r d = elim (Bool-cases (bad_field o r (index d))) [
    | inl bad ↦ rw (bad) (reached 0 (omega arith) refl refl)
    | inr good ↦ rw (good) (perform-Reaches o r d good)
  ]

-- An instruction of one word does not read the operand.
pub one_word :
    (o : Op) (r x a b : ℕ) (m : Machine)
    → is_two_word_instruction o ≡ false
    → obey o r x a m ≡ obey o r x b m
unfolding obey effect is_two_word_instruction
one_word nop r x a b m e = refl
one_word ld_r r x a b m e = refl
one_word adda_r r x a b m e = refl
one_word suba_r r x a b m e = refl
one_word addl_r r x a b m e = refl
one_word subl_r r x a b m e = refl
one_word and_r r x a b m e = refl
one_word or_r r x a b m e = refl
one_word xor_r r x a b m e = refl
one_word cpa_r r x a b m e = refl
one_word cpl_r r x a b m e = refl
one_word pop r x a b m e = refl
one_word ret r x a b m e = refl
one_word unknown r x a b m e = refl
one_word _ r x a b m e = absurd (cc)
