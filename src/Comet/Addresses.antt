-- ===== src/Comet/Addresses.antt =====
-- The bus addresses of the CPU stay within 16 bits, and a write covers both bytes of a word.
use ice40_ultraplus_examples.Base.{
  ℕ, ◌+◌, ◌*◌, ◌/◌, ◌%◌, ◌^◌, ◌<◌, ◌≡◌, refl, Bool, true, false, arith, branch, ltb, ◌==◌, ◌&&◌,
  not,
}
use ice40_ultraplus_examples.Comet.Codes.{
  Op, pop, push, call, ret, svc, State, st_other, MemReadKind, MemWriteKind, decode,
  st_reset_pr_req, st_reset_pr_wait, st_reset_sp_req, st_reset_sp_wait, st_fetch_req, st_fetch_wait,
  st_decode, st_operand_req, st_operand_wait, st_execute, st_mem_read_req, st_mem_read_wait,
  st_mem_write, st_svc_vector_req, st_svc_vector_wait, st_svc0_sp_req, st_svc0_sp_wait, mw_none,
  nop, mr_ld, mr_none, unknown, state_number,
}
use ice40_ultraplus_examples.Comet.Words.{indexed_addr, bus_word}
use ice40_ultraplus_examples.Comet.Registers.{Cpu, no_room, in_mmio}
use ice40_ultraplus_examples.Comet.Perform.{supervisor_call, perform, bad_field, execute}
use ice40_ultraplus_examples.Comet.Cpu.{use_word, in_state, posedge, write_memory}

-- The addresses and the mask behind an edge; `was` and `now` are error_instruction before and behind
-- it, which nothing but a reset takes back.
pub record Within (was now : Bool) (read_addr write_addr memory_mask : ℕ) : Type 0 where
  pub read_bound : read_addr < 2 ^ 16
  pub write_bound : write_addr < 2 ^ 16
  pub whole_word : memory_mask ≡ 3
  pub sticky : was ≡ true → now ≡ true

failed :
    {was now : Bool} {read write mask : ℕ}
    → Within was now read write mask
    → Within was true read write mask
failed a = record {
  read_bound = a.read_bound;
  write_bound = a.write_bound;
  whole_word = a.whole_word;
  sticky = λ e. refl;
}

-- A request of the word at an address.
asked :
    {was now : Bool} {read write mask : ℕ} (addr : ℕ)
    → Within was now read write mask
    → Within was now (addr % 2 ^ 16) write mask
asked addr a = record {
  read_bound = omega arith;
  write_bound = a.write_bound;
  whole_word = a.whole_word;
  sticky = a.sticky;
}

module _ (was : Bool) where
  abbrev Addressed : Cpu → Type 0
  Addressed d = Within was d.error_instruction d.read_addr d.write_addr d.memory_mask

  supervisor_call-Addressed : (n : ℕ) (d : Cpu) → Addressed d → Addressed (supervisor_call n d)
  unfolding supervisor_call
  supervisor_call-Addressed n d a =
      branch Addressed (n == 0) (λ e. a)
        (λ e.
          branch Addressed (ltb 0x0f n) (λ e'. failed a)
            (λ e'. branch Addressed (no_room d.sp) (λ e''. failed a) (λ e''. a)))

  perform-Addressed : (o : Op) (r x ea : ℕ) (d : Cpu) → Addressed d → Addressed (perform o r x ea d)
  unfolding perform
  perform-Addressed nop r x ea d a = a
  perform-Addressed push r x ea d a = branch Addressed (no_room d.sp) (λ e. failed a) (λ e. a)
  perform-Addressed pop r x ea d a =
      branch Addressed (ltb 7 r) (λ e. failed a)
        (λ e. branch Addressed (in_mmio d.sp) (λ e'. failed a) (λ e'. a))
  perform-Addressed call r x ea d a = branch Addressed (no_room d.sp) (λ e. failed a) (λ e. a)
  perform-Addressed ret r x ea d a = branch Addressed (in_mmio d.sp) (λ e. failed a) (λ e. a)
  perform-Addressed svc r x ea d a = supervisor_call-Addressed (ea % 2 ^ 8) d a
  perform-Addressed unknown r x ea d a = failed a
  perform-Addressed _ r x ea d a = a

  execute-Addressed : (o : Op) (r x : ℕ) (d : Cpu) → Addressed d → Addressed (execute o r x d)
  unfolding execute
  execute-Addressed o r x d a =
      let ea = indexed_addr d.gr d.operand x in
      branch Addressed (bad_field o r x) (λ bad. failed a)
        (λ good.
          perform-Addressed o r x ea
            (record d {
              mem_read_kind = mr_none;
              mem_write_kind = mw_none;
              effective_addr = ea;
              dest_reg = r;
            })
            a)

  use_word-Addressed :
      (kind : MemReadKind) (rhs : ℕ) (d : Cpu) → Addressed d → Addressed (use_word kind rhs d)
  unfolding use_word
  use_word-Addressed mr_ld rhs d a = a
  use_word-Addressed mr_none rhs d a = failed a
  use_word-Addressed _ rhs d a = a

  write_memory-Addressed :
      (kind : MemWriteKind) (d : Cpu) → Addressed d → Addressed (write_memory kind d)
  write_memory-Addressed mw_none d a = record {
    read_bound = a.read_bound;
    write_bound = omega arith;
    whole_word = refl;
    sticky = a.sticky;
  }
  write_memory-Addressed _ d a = record {
    read_bound = a.read_bound;
    write_bound = omega arith;
    whole_word = refl;
    sticky = a.sticky;
  }

  in_state-Addressed :
      (state : State) (word : ℕ) (valid : Bool) (d : Cpu)
      → Addressed d
      → Addressed (in_state state word valid d)
  unfolding in_state
  in_state-Addressed st_reset_pr_req word valid d a = asked 0 a
  in_state-Addressed st_reset_pr_wait word true d a = asked 0 a
  in_state-Addressed st_reset_pr_wait word false d a = asked 0 a
  in_state-Addressed st_reset_sp_req word valid d a = asked 31 a
  in_state-Addressed st_reset_sp_wait word true d a = asked 31 a
  in_state-Addressed st_reset_sp_wait word false d a = asked 31 a
  in_state-Addressed st_fetch_req word valid d a = asked d.pr a
  in_state-Addressed st_fetch_wait word true d a = asked d.pr a
  in_state-Addressed st_fetch_wait word false d a = asked d.pr a
  in_state-Addressed st_decode word valid d a = a
  in_state-Addressed st_operand_req word valid d a = asked d.pr a
  in_state-Addressed st_operand_wait word true d a = asked d.pr a
  in_state-Addressed st_operand_wait word false d a = asked d.pr a
  in_state-Addressed st_execute word valid d a =
      execute-Addressed (decode (d.ir / 256 % 256)) (d.ir / 16 % 16) (d.ir % 16) d a
  in_state-Addressed st_mem_read_req word valid d a = asked d.effective_addr a
  in_state-Addressed st_mem_read_wait word true d a =
      use_word-Addressed d.mem_read_kind word (record d { read_addr = d.effective_addr % 2 ^ 16 })
        (asked d.effective_addr a)
  in_state-Addressed st_mem_read_wait word false d a = asked d.effective_addr a
  in_state-Addressed st_mem_write word valid d a = write_memory-Addressed d.mem_write_kind d a
  in_state-Addressed st_svc_vector_req word valid d a = asked d.svc_vector_addr a
  in_state-Addressed st_svc_vector_wait word true d a = asked d.svc_vector_addr a
  in_state-Addressed st_svc_vector_wait word false d a = asked d.svc_vector_addr a
  in_state-Addressed st_svc0_sp_req word valid d a = asked 31 a
  in_state-Addressed st_svc0_sp_wait word true d a = asked 31 a
  in_state-Addressed st_svc0_sp_wait word false d a = asked 31 a
  in_state-Addressed (st_other n) word valid d a = failed a

-- A rising edge keeps the addresses within 16 bits, leaves the mask of a whole word, and takes an
-- error back only in a reset.
pub posedge-Within :
    (reset : Bool) (word : ℕ) (valid : Bool) (c : Cpu)
    → c.read_addr < 2 ^ 16
    → c.write_addr < 2 ^ 16
    → let e = posedge reset word valid c in
      Within
        (c.error_instruction && not reset)
        e.error_instruction
        e.read_addr
        e.write_addr
        e.memory_mask
unfolding posedge
posedge-Within true word valid c hr hw = record {
  read_bound = omega arith;
  write_bound = omega arith;
  whole_word = refl;
  sticky = λ e. ground arith;
}
posedge-Within false word valid c hr hw =
    in_state-Addressed (c.error_instruction && true) c.state (bus_word word) valid
      (record c {
        read_req = false;
        write_req = false;
        memory_mask = 3;
        write_data = c.write_word;
        debug = state_number c.state * 2 ^ 16 + c.pr;
      })
      (record { read_bound = hr; write_bound = hw; whole_word = refl; sticky = λ e. ground arith })
