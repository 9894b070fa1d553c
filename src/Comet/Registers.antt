-- ===== src/Comet/Registers.antt =====
-- The registers of comet2_cpu.v, and the assignments that its branches share. A task or a branch of
-- the source that makes non-blocking assignments is a function of the registers; `d` holds the
-- assignments that were made above it.
use ice40_ultraplus_examples.Base.{
  ℕ, ◌/◌, ◌%◌, Bool, true, false, List, ◌||◌, ◌==◌, set, replicate, if◌then◌else◌,
}
use ice40_ultraplus_examples.Comet.Codes.{
  State, st_reset_pr_req, st_fetch_req, st_mem_read_req, st_mem_write, MemReadKind, mr_none,
  MemWriteKind, mw_none,
}
use ice40_ultraplus_examples.Comet.Words.{bit, sub16}

-- `fr_of`, `sf` and `zf` are the flags of, sf and zf.
pub record Cpu : Type 0 where
  pub read_req : Bool
  pub read_addr : ℕ
  pub write_req : Bool
  pub write_addr : ℕ
  pub write_data : ℕ
  pub memory_mask : ℕ
  pub error_instruction : Bool
  pub debug : ℕ
  pub gr : List ℕ
  pub pr : ℕ
  pub sp : ℕ
  pub fr_of : Bool
  pub sf : Bool
  pub zf : Bool
  pub svc_vector_addr : ℕ
  pub state : State
  pub ir : ℕ
  pub operand : ℕ
  pub effective_addr : ℕ
  pub write_word : ℕ
  pub mem_read_kind : MemReadKind
  pub mem_write_kind : MemWriteKind
  pub dest_reg : ℕ

-- What a reset sets, and the initial values.
abbrev pub reset_values : Cpu
reset_values = record {
  read_req = false;
  read_addr = 0;
  write_req = false;
  write_addr = 0;
  write_data = 0;
  memory_mask = 3;
  error_instruction = false;
  debug = 0;
  gr = replicate 8 0;
  pr = 0;
  sp = 0;
  fr_of = false;
  sf = false;
  zf = false;
  svc_vector_addr = 0;
  state = st_reset_pr_req;
  ir = 0;
  operand = 0;
  effective_addr = 0;
  write_word = 0;
  mem_read_kind = mr_none;
  mem_write_kind = mw_none;
  dest_reg = 0;
}

abbrev pub set_fr : (result : ℕ) (new_of : Bool) → Cpu → Cpu
set_fr result new_of d = record d { fr_of = new_of; sf = bit result 15; zf = result == 0 }

abbrev pub fault_instruction : Cpu → Cpu
fault_instruction d = record d { error_instruction = true; state = st_fetch_req }

-- A result for a register, with the flags.
abbrev pub set_register : (r result : ℕ) (new_of : Bool) → Cpu → Cpu
set_register r result new_of d = set_fr result new_of (record d { gr = set d.gr r result })

-- The assignments of an operand's read: its kind, and the state.
abbrev pub read_memory : MemReadKind → Cpu → Cpu
read_memory kind d = record d { mem_read_kind = kind; state = st_mem_read_req }

abbrev pub next_instruction : Cpu → Cpu
next_instruction d = record d { state = st_fetch_req }

-- The jumps.
abbrev pub jump_if : Bool → (to : ℕ) → Cpu → Cpu
jump_if taken to d = record d { pr = if taken then to else d.pr; state = st_fetch_req }

-- `sp == 16'h0000 || sp[15:12] == 4'hF`, and the second part of it.
abbrev pub in_mmio : (sp : ℕ) → Bool
in_mmio sp = sp / 4096 % 16 == 15

abbrev pub no_room : (sp : ℕ) → Bool
no_room sp = sp == 0 || in_mmio sp

-- The assignments of PUSH, CALL and SVC: `value` goes below the top of the stack.
abbrev pub push_word : (value : ℕ) → MemWriteKind → Cpu → Cpu
push_word value kind d = record d {
  sp = sub16 d.sp 1;
  effective_addr = sub16 d.sp 1;
  write_word = value;
  mem_write_kind = kind;
  state = st_mem_write;
}
