-- ===== src/Comet/Perform.antt =====
-- The branch ST_EXECUTE of comet2_cpu.v.
use Prim.Native.Nat.{bit_xor}
use ice40_ultraplus_examples.Base.{
  ℕ, ◌+◌, ◌%◌, ◌^◌, Bool, true, false, ◌&&◌, ◌||◌, not, ltb, ◌==◌, get_or, set, if◌then◌else◌,
  bit_and, bit_or,
}
use ice40_ultraplus_examples.Comet.Codes.{
  Op, nop, ld, st, lad, ld_r, adda, suba, addl, subl, adda_r, suba_r, addl_r, subl_r, logic_and,
  logic_or, logic_xor, and_r, or_r, xor_r, cpa, cpl, cpa_r, cpl_r, sla, sra, sll, srl, jmi, jnz,
  jze, jump, jpl, jov, push, pop, call, ret, svc, unknown, uses_r_field, uses_x_field, st_mem_write,
  mr_none, mr_ld, mr_adda, mr_suba, mr_addl, mr_subl, mr_and, mr_or, mr_xor, mr_cpa, mr_cpl, mr_pop,
  mr_ret, mr_svc, mw_none, mw_st, mw_push, mw_call, mw_svc,
}
use ice40_ultraplus_examples.Comet.Words.{
  bit, add16, sub16, indexed_addr, signed_add_overflow, signed_sub_overflow, sla_result,
  sla_overflow, sra_result, sra_overflow, sll_result, sll_overflow, srl_result, srl_overflow,
}
use ice40_ultraplus_examples.Comet.Registers.{
  Cpu, set_fr, fault_instruction, set_register, read_memory, next_instruction, jump_if, in_mmio,
  no_room, push_word,
}

-- SVC with the number `n`.
unfoldable pub supervisor_call : (n : ℕ) → Cpu → Cpu
supervisor_call n d =
    if n == 0
    then read_memory mr_svc (record d { effective_addr = 0 })
    else if ltb 0x0f n
    then fault_instruction d
    else if no_room d.sp
    then fault_instruction d
    else record (push_word d.pr mw_svc d) { svc_vector_addr = n; mem_read_kind = mr_none }

-- The cases of `case (op)`, with the registers that the fields name and the address `ea` that
-- `indexed_addr` gives. What it reads of `d` no assignment above it changes.
unfoldable pub perform : Op → (r x ea : ℕ) → Cpu → Cpu
unfolding supervisor_call
perform nop r x ea d = next_instruction d
perform ld r x ea d = read_memory mr_ld d
perform st r x ea d = record d {
  write_word = get_or d.gr r 0;
  mem_write_kind = mw_st;
  state = st_mem_write;
}
perform lad r x ea d = next_instruction (record d { gr = set d.gr r ea })
perform ld_r r x ea d = next_instruction (set_register r (get_or d.gr x 0) false d)
perform adda r x ea d = read_memory mr_adda d
perform suba r x ea d = read_memory mr_suba d
perform addl r x ea d = read_memory mr_addl d
perform subl r x ea d = read_memory mr_subl d
perform adda_r r x ea d =
    let a = get_or d.gr r 0 in
    let b = get_or d.gr x 0 in
    let result = add16 a b in
    next_instruction (set_register r result (signed_add_overflow a b result) d)
perform suba_r r x ea d =
    let a = get_or d.gr r 0 in
    let b = get_or d.gr x 0 in
    let result = sub16 a b in
    next_instruction (set_register r result (signed_sub_overflow a b result) d)
perform addl_r r x ea d =
    let wide = get_or d.gr r 0 + get_or d.gr x 0 in
    next_instruction (set_register r (wide % 2 ^ 16) (bit wide 16) d)
perform subl_r r x ea d =
    let a = get_or d.gr r 0 in
    let b = get_or d.gr x 0 in next_instruction (set_register r (sub16 a b) (ltb a b) d)
perform logic_and r x ea d = read_memory mr_and d
perform logic_or r x ea d = read_memory mr_or d
perform logic_xor r x ea d = read_memory mr_xor d
perform and_r r x ea d =
    next_instruction (set_register r (bit_and (get_or d.gr r 0) (get_or d.gr x 0)) false d)
perform or_r r x ea d =
    next_instruction (set_register r (bit_or (get_or d.gr r 0) (get_or d.gr x 0)) false d)
perform xor_r r x ea d =
    next_instruction (set_register r (bit_xor (get_or d.gr r 0) (get_or d.gr x 0)) false d)
perform cpa r x ea d = read_memory mr_cpa d
perform cpl r x ea d = read_memory mr_cpl d
perform cpa_r r x ea d =
    let a = get_or d.gr r 0 in
    let b = get_or d.gr x 0 in
    let result = sub16 a b in next_instruction (set_fr result (signed_sub_overflow a b result) d)
perform cpl_r r x ea d =
    let a = get_or d.gr r 0 in
    let b = get_or d.gr x 0 in next_instruction (set_fr (sub16 a b) (ltb a b) d)
perform sla r x ea d =
    let a = get_or d.gr r 0 in
    next_instruction (set_register r (sla_result a ea) (sla_overflow a ea) d)
perform sra r x ea d =
    let a = get_or d.gr r 0 in
    next_instruction (set_register r (sra_result a ea) (sra_overflow a ea) d)
perform sll r x ea d =
    let a = get_or d.gr r 0 in
    next_instruction (set_register r (sll_result a ea) (sll_overflow a ea) d)
perform srl r x ea d =
    let a = get_or d.gr r 0 in
    next_instruction (set_register r (srl_result a ea) (srl_overflow a ea) d)
perform jmi r x ea d = jump_if d.sf ea d
perform jnz r x ea d = jump_if (not d.zf) ea d
perform jze r x ea d = jump_if d.zf ea d
perform jump r x ea d = jump_if true ea d
perform jpl r x ea d = jump_if (not d.sf && not d.zf) ea d
perform jov r x ea d = jump_if d.fr_of ea d
perform push r x ea d = if no_room d.sp then fault_instruction d else push_word ea mw_push d
perform pop r x ea d =
    if ltb 7 r
    then fault_instruction d
    else if in_mmio d.sp
    then fault_instruction d
    else read_memory mr_pop (record d { effective_addr = d.sp })
perform call r x ea d = if no_room d.sp then fault_instruction d else push_word d.pr mw_call d
perform ret r x ea d =
    if in_mmio d.sp
    then fault_instruction d
    else read_memory mr_ret (record d { effective_addr = d.sp })
perform svc r x ea d = supervisor_call (ea % 2 ^ 8) d
perform unknown r x ea d = fault_instruction d

-- A register field that names no register.
unfoldable pub bad_field : Op → (r x : ℕ) → Bool
bad_field o r x = (uses_r_field o && ltb 7 r) || (uses_x_field o && ltb 7 x)

-- The branch ST_EXECUTE, for the fields of the instruction.
unfoldable pub execute : Op → (r x : ℕ) → Cpu → Cpu
execute o r x d =
    let cleared = record d { mem_read_kind = mr_none; mem_write_kind = mw_none } in
    let ea = indexed_addr d.gr d.operand x in
    if bad_field o r x
    then fault_instruction cleared
    else perform o r x ea (record cleared { effective_addr = ea; dest_reg = r })
