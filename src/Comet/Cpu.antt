-- ===== src/Comet/Cpu.antt =====
-- What a rising edge of the clock makes of the registers of comet2_cpu.v.
use Prim.Native.Nat.{bit_xor}
use ice40_ultraplus_examples.Base.{
  ℕ, ◌+◌, ◌*◌, ◌/◌, ◌%◌, ◌^◌, Bool, true, false, ltb, ◌==◌, get_or, set, if◌then◌else◌, bit_and,
  bit_or,
}
use ice40_ultraplus_examples.Comet.Codes.{
  decode, is_two_word_instruction, State, st_reset_pr_req, st_reset_pr_wait, st_reset_sp_req,
  st_reset_sp_wait, st_fetch_req, st_fetch_wait, st_decode, st_operand_req, st_operand_wait,
  st_execute, st_mem_read_req, st_mem_read_wait, st_mem_write, st_svc_vector_req,
  st_svc_vector_wait, st_svc0_sp_req, st_svc0_sp_wait, st_other, state_number, MemReadKind, mr_none,
  mr_ld, mr_adda, mr_suba, mr_addl, mr_subl, mr_and, mr_or, mr_xor, mr_cpa, mr_cpl, mr_pop, mr_ret,
  mr_svc, MemWriteKind, mw_call, mw_svc,
}
use ice40_ultraplus_examples.Comet.Words.{
  bit, bus_addr, bus_word, add16, sub16, indexed_addr, signed_add_overflow, signed_sub_overflow,
}
use ice40_ultraplus_examples.Comet.Registers.{Cpu, reset_values, set_fr, set_register}
use ice40_ultraplus_examples.Comet.Perform.{execute}

-- `case (mem_read_kind)` with the word that was read; the state behind it is set by `read_wait`.
unfoldable pub use_word : MemReadKind → (rhs : ℕ) → Cpu → Cpu
use_word mr_ld rhs d = set_register d.dest_reg rhs false d
use_word mr_adda rhs d =
    let a = get_or d.gr d.dest_reg 0 in
    let result = add16 a rhs in set_register d.dest_reg result (signed_add_overflow a rhs result) d
use_word mr_suba rhs d =
    let a = get_or d.gr d.dest_reg 0 in
    let result = sub16 a rhs in set_register d.dest_reg result (signed_sub_overflow a rhs result) d
use_word mr_addl rhs d =
    let wide = get_or d.gr d.dest_reg 0 + rhs in
    set_register d.dest_reg (wide % 2 ^ 16) (bit wide 16) d
use_word mr_subl rhs d =
    let a = get_or d.gr d.dest_reg 0 in set_register d.dest_reg (sub16 a rhs) (ltb a rhs) d
use_word mr_and rhs d = set_register d.dest_reg (bit_and (get_or d.gr d.dest_reg 0) rhs) false d
use_word mr_or rhs d = set_register d.dest_reg (bit_or (get_or d.gr d.dest_reg 0) rhs) false d
use_word mr_xor rhs d = set_register d.dest_reg (bit_xor (get_or d.gr d.dest_reg 0) rhs) false d
use_word mr_cpa rhs d =
    let a = get_or d.gr d.dest_reg 0 in
    let result = sub16 a rhs in set_fr result (signed_sub_overflow a rhs result) d
use_word mr_cpl rhs d = let a = get_or d.gr d.dest_reg 0 in set_fr (sub16 a rhs) (ltb a rhs) d
use_word mr_pop rhs d = record d { gr = set d.gr d.dest_reg rhs; sp = add16 d.sp 1 }
use_word mr_ret rhs d = record d { pr = rhs; sp = add16 d.sp 1 }
use_word mr_svc rhs d = record d { pr = rhs }
use_word mr_none rhs d = record d { error_instruction = true }

-- The state behind a read of memory.
abbrev pub after_read : MemReadKind → (effective_addr : ℕ) → State
after_read mr_svc effective_addr = if effective_addr == 0 then st_svc0_sp_req else st_fetch_req
after_read _ effective_addr = st_fetch_req

-- A request state: ask for the word at the address, and wait.
abbrev pub ask_for : (addr : ℕ) → State → Cpu → Cpu
ask_for addr next d = record d { read_addr = bus_addr addr; read_req = true; state = next }

-- A wait state: `take` the word that is there, or ask again.
abbrev pub wait_for : (addr : ℕ) (valid : Bool) → (Cpu → Cpu) → Cpu → Cpu
wait_for addr valid take d =
    if valid
    then take (record d { read_addr = bus_addr addr })
    else record d { read_addr = bus_addr addr; read_req = true }

-- The branch ST_MEM_WRITE.
abbrev pub write_memory : MemWriteKind → Cpu → Cpu
write_memory kind d =
    let written = record d {
      write_addr = bus_addr d.effective_addr;
      write_data = d.write_word;
      memory_mask = 3;
      write_req = true;
    } in
    elim kind [
      | mw_call ↦ record written {
        pr = indexed_addr d.gr d.operand (d.ir % 16);
        state = st_fetch_req;
      }
      | mw_svc ↦ record written { state = st_svc_vector_req }
      | _ ↦ record written { state = st_fetch_req }
    ]

-- `case (state)`.
unfoldable pub in_state : State → (word : ℕ) (valid : Bool) → Cpu → Cpu
unfolding execute use_word
in_state st_reset_pr_req word valid d = ask_for 0 st_reset_pr_wait d
in_state st_reset_pr_wait word valid d =
    wait_for 0 valid (λ d'. record d' { pr = word; state = st_reset_sp_req }) d
in_state st_reset_sp_req word valid d = ask_for 31 st_reset_sp_wait d
in_state st_reset_sp_wait word valid d =
    wait_for 31 valid (λ d'. record d' { sp = word; state = st_fetch_req }) d
in_state st_fetch_req word valid d = ask_for d.pr st_fetch_wait d
in_state st_fetch_wait word valid d =
    wait_for d.pr valid (λ d'. record d' { ir = word; pr = add16 d'.pr 1; state = st_decode }) d
in_state st_decode word valid d = record d {
  state =
      if is_two_word_instruction (decode (d.ir / 256 % 256)) then st_operand_req else st_execute;
}
in_state st_operand_req word valid d = ask_for d.pr st_operand_wait d
in_state st_operand_wait word valid d =
    wait_for d.pr valid (λ d'. record d' { operand = word; pr = add16 d'.pr 1; state = st_execute })
      d
in_state st_execute word valid d =
    execute (decode (d.ir / 256 % 256)) (d.ir / 16 % 16) (d.ir % 16) d
in_state st_mem_read_req word valid d = ask_for d.effective_addr st_mem_read_wait d
in_state st_mem_read_wait word valid d =
    wait_for d.effective_addr valid
      (λ d'. record (use_word d.mem_read_kind word d') {
        state = after_read d.mem_read_kind d.effective_addr;
      })
      d
in_state st_mem_write word valid d = write_memory d.mem_write_kind d
in_state st_svc_vector_req word valid d = ask_for d.svc_vector_addr st_svc_vector_wait d
in_state st_svc_vector_wait word valid d =
    wait_for d.svc_vector_addr valid (λ d'. record d' { pr = word; state = st_fetch_req }) d
in_state st_svc0_sp_req word valid d = ask_for 31 st_svc0_sp_wait d
in_state st_svc0_sp_wait word valid d =
    wait_for 31 valid (λ d'. record d' { sp = word; state = st_fetch_req }) d
in_state (st_other n) word valid d = record d { error_instruction = true; state = st_reset_pr_req }

-- `always @(posedge clk)`.
unfoldable pub posedge : (reset : Bool) (read_data : ℕ) (read_data_valid : Bool) → Cpu → Cpu
unfolding in_state state_number
posedge true read_data read_data_valid c = reset_values
posedge false read_data read_data_valid c =
    in_state c.state (bus_word read_data) read_data_valid (record c {
      read_req = false;
      write_req = false;
      memory_mask = 3;
      write_data = c.write_word;
      debug = state_number c.state * 2 ^ 16 + c.pr;
    })
