-- ===== src/Comet/Codes.antt =====
-- The operation codes of comet2_cpu.v, and its constants for states and memory accesses.
use ice40_ultraplus_examples.Base.{ℕ, Bool, true, false, ◌==◌, if◌then◌else◌}

-- The cases of `case (op)` in ST_EXECUTE; `unknown` is the default. A name with `_r` is the form
-- with two registers.
pub data Op : Type 0 where
  nop ld st lad ld_r : Op
  adda suba addl subl adda_r suba_r addl_r subl_r : Op
  logic_and logic_or logic_xor and_r or_r xor_r : Op
  cpa cpl cpa_r cpl_r : Op
  sla sra sll srl : Op
  jmi jnz jze jump jpl jov : Op
  push pop call ret svc : Op
  unknown : Op

unfoldable pub decode : (op : ℕ) → Op
decode op =
    if op == 0x00
    then nop
    else if op == 0x10
    then ld
    else if op == 0x11
    then st
    else if op == 0x12
    then lad
    else if op == 0x14
    then ld_r
    else if op == 0x20
    then adda
    else if op == 0x21
    then suba
    else if op == 0x22
    then addl
    else if op == 0x23
    then subl
    else if op == 0x24
    then adda_r
    else if op == 0x25
    then suba_r
    else if op == 0x26
    then addl_r
    else if op == 0x27
    then subl_r
    else if op == 0x30
    then logic_and
    else if op == 0x31
    then logic_or
    else if op == 0x32
    then logic_xor
    else if op == 0x34
    then and_r
    else if op == 0x35
    then or_r
    else if op == 0x36
    then xor_r
    else if op == 0x40
    then cpa
    else if op == 0x41
    then cpl
    else if op == 0x44
    then cpa_r
    else if op == 0x45
    then cpl_r
    else if op == 0x50
    then sla
    else if op == 0x51
    then sra
    else if op == 0x52
    then sll
    else if op == 0x53
    then srl
    else if op == 0x61
    then jmi
    else if op == 0x62
    then jnz
    else if op == 0x63
    then jze
    else if op == 0x64
    then jump
    else if op == 0x65
    then jpl
    else if op == 0x66
    then jov
    else if op == 0x70
    then push
    else if op == 0x71
    then pop
    else if op == 0x80
    then call
    else if op == 0x81
    then ret
    else if op == 0xf0
    then svc
    else unknown

unfoldable pub is_two_word_instruction : Op → Bool
is_two_word_instruction nop = false
is_two_word_instruction ld_r = false
is_two_word_instruction adda_r = false
is_two_word_instruction suba_r = false
is_two_word_instruction addl_r = false
is_two_word_instruction subl_r = false
is_two_word_instruction and_r = false
is_two_word_instruction or_r = false
is_two_word_instruction xor_r = false
is_two_word_instruction cpa_r = false
is_two_word_instruction cpl_r = false
is_two_word_instruction pop = false
is_two_word_instruction ret = false
is_two_word_instruction unknown = false
is_two_word_instruction _ = true

unfoldable pub uses_r_field : Op → Bool
uses_r_field nop = false
uses_r_field jmi = false
uses_r_field jnz = false
uses_r_field jze = false
uses_r_field jump = false
uses_r_field jpl = false
uses_r_field jov = false
uses_r_field push = false
uses_r_field call = false
uses_r_field ret = false
uses_r_field svc = false
uses_r_field unknown = false
uses_r_field _ = true

unfoldable pub uses_x_field : Op → Bool
uses_x_field nop = false
uses_x_field pop = false
uses_x_field ret = false
uses_x_field unknown = false
uses_x_field _ = true

-- The values of `state`; `st_other` is any that has no name.
pub data State : Type 0 where
  st_reset_pr_req st_reset_pr_wait st_reset_sp_req st_reset_sp_wait : State
  st_fetch_req st_fetch_wait st_decode st_operand_req st_operand_wait : State
  st_execute st_mem_read_req st_mem_read_wait st_mem_write : State
  st_svc_vector_req st_svc_vector_wait st_svc0_sp_req st_svc0_sp_wait : State
  st_other : ℕ → State

-- The number of a state, which `debug` shows.
unfoldable pub state_number : State → ℕ
state_number st_reset_pr_req = 0
state_number st_reset_pr_wait = 1
state_number st_reset_sp_req = 2
state_number st_reset_sp_wait = 3
state_number st_fetch_req = 4
state_number st_fetch_wait = 5
state_number st_decode = 6
state_number st_operand_req = 7
state_number st_operand_wait = 8
state_number st_execute = 9
state_number st_mem_read_req = 10
state_number st_mem_read_wait = 11
state_number st_mem_write = 12
state_number st_svc_vector_req = 13
state_number st_svc_vector_wait = 14
state_number st_svc0_sp_req = 15
state_number st_svc0_sp_wait = 16
state_number (st_other n) = n

pub data MemReadKind : Type 0 where
  mr_none mr_ld mr_adda mr_suba mr_addl mr_subl mr_and mr_or mr_xor mr_cpa mr_cpl : MemReadKind
  mr_pop mr_ret mr_svc : MemReadKind

pub data MemWriteKind : Type 0 where
  mw_none mw_st mw_push mw_call mw_svc : MemWriteKind
