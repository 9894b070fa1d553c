-- ===== src/Comet/Machine.antt =====
-- The instruction set that comet2_cpu.v implements, as a reference: a machine with registers and a
-- memory that executes one instruction in one step, with no bus, no states and no latches.
use Prim.Native.Nat.{bit_xor}
use ice40_ultraplus_examples.Base.{
  ℕ, zero, suc, ◌+◌, ◌/◌, ◌%◌, ◌^◌, Bool, true, false, List, ◌&&◌, ◌||◌, not, ltb, ◌==◌, get_or,
  set, replicate, if◌then◌else◌, bit_and, bit_or,
}
use ice40_ultraplus_examples.Comet.Codes.{
  Op, nop, ld, st, lad, ld_r, adda, suba, addl, subl, adda_r, suba_r, addl_r, subl_r, logic_and,
  logic_or, logic_xor, and_r, or_r, xor_r, cpa, cpl, cpa_r, cpl_r, sla, sra, sll, srl, jmi, jnz,
  jze, jump, jpl, jov, push, pop, call, ret, svc, unknown, decode, is_two_word_instruction,
}
use ice40_ultraplus_examples.Comet.Words.{
  bit, add16, sub16, indexed_addr, signed_add_overflow, signed_sub_overflow, sla_result,
  sla_overflow, sra_result, sra_overflow, sll_result, sll_overflow, srl_result, srl_overflow,
}
use ice40_ultraplus_examples.Comet.Perform.{bad_field}

pub record Machine : Type 0 where
  pub gr : List ℕ
  pub pr : ℕ
  pub sp : ℕ
  pub fr_of : Bool
  pub sf : Bool
  pub zf : Bool
  pub faulted : Bool
  pub word : ℕ → ℕ

abbrev pub word_at : Machine → ℕ → ℕ
word_at m a = m.word (a % 2 ^ 16) % 2 ^ 16

abbrev pub with_word : (addr value : ℕ) → (ℕ → ℕ) → ℕ → ℕ
with_word addr value word i = if i == addr % 2 ^ 16 then value % 2 ^ 16 else word i

abbrev pub fault : Machine → Machine
fault m = record m { faulted = true }

abbrev flags : (result : ℕ) (overflow : Bool) → Machine → Machine
flags result overflow m = record m { fr_of = overflow; sf = bit result 15; zf = result == 0 }

-- A result goes to register `r` and into the flags.
abbrev give : (r result : ℕ) (overflow : Bool) → Machine → Machine
give r result overflow m = flags result overflow (record m { gr = set m.gr r result })

-- The binary operations on a register and a word `b`.
abbrev add_signed : (r b : ℕ) → Machine → Machine
add_signed r b m =
    let a = get_or m.gr r 0 in give r (add16 a b) (signed_add_overflow a b (add16 a b)) m

abbrev sub_signed : (r b : ℕ) → Machine → Machine
sub_signed r b m =
    let a = get_or m.gr r 0 in give r (sub16 a b) (signed_sub_overflow a b (sub16 a b)) m

abbrev add_unsigned : (r b : ℕ) → Machine → Machine
add_unsigned r b m = let a = get_or m.gr r 0 in give r ((a + b) % 2 ^ 16) (bit (a + b) 16) m

abbrev sub_unsigned : (r b : ℕ) → Machine → Machine
sub_unsigned r b m = let a = get_or m.gr r 0 in give r (sub16 a b) (ltb a b) m

abbrev compare_signed : (r b : ℕ) → Machine → Machine
compare_signed r b m =
    let a = get_or m.gr r 0 in flags (sub16 a b) (signed_sub_overflow a b (sub16 a b)) m

abbrev compare_unsigned : (r b : ℕ) → Machine → Machine
compare_unsigned r b m = let a = get_or m.gr r 0 in flags (sub16 a b) (ltb a b) m

abbrev logical : (ℕ → ℕ → ℕ) → (r b : ℕ) → Machine → Machine
logical f r b m = give r (f (get_or m.gr r 0) b) false m

abbrev shift : (result : ℕ → ℕ → ℕ) (out : ℕ → ℕ → Bool) → (r amount : ℕ) → Machine → Machine
shift result out r amount m = let a = get_or m.gr r 0 in give r (result a amount) (out a amount) m

abbrev go_to : Bool → ℕ → Machine → Machine
go_to taken to m = record m { pr = if taken then to else m.pr }

-- The device registers begin at 0xf000.
abbrev pub underflows : Machine → Bool
underflows m = m.sp / 4096 % 16 == 15

abbrev pub overflows : Machine → Bool
overflows m = m.sp == 0 || underflows m

-- `value` goes on the stack, which grows downwards.
abbrev pub pushed : (value : ℕ) → Machine → Machine
pushed value m = record m { sp = sub16 m.sp 1; word = with_word (sub16 m.sp 1) value m.word }

abbrev popped : Machine → Machine
popped m = record m { sp = add16 m.sp 1 }

-- The supervisor call `n`: 0 starts the machine again, 1 to 15 call by the vector at `n`.
unfoldable pub supervise : (n : ℕ) → Machine → Machine
supervise n m =
    if n == 0
    then record m { pr = word_at m 0; sp = word_at m 31 }
    else if ltb 0x0f n
    then fault m
    else if overflows m
    then fault m
    else (let saved = pushed m.pr m in record saved { pr = word_at saved n })

-- What an instruction does, with the register `r`, the index register `x` and the address `ea`.
unfoldable pub effect : Op → (r x ea : ℕ) → Machine → Machine
unfolding supervise
effect nop r x ea m = m
effect ld r x ea m = give r (word_at m ea) false m
effect st r x ea m = record m { word = with_word ea (get_or m.gr r 0) m.word }
effect lad r x ea m = record m { gr = set m.gr r ea }
effect ld_r r x ea m = give r (get_or m.gr x 0) false m
effect adda r x ea m = add_signed r (word_at m ea) m
effect suba r x ea m = sub_signed r (word_at m ea) m
effect addl r x ea m = add_unsigned r (word_at m ea) m
effect subl r x ea m = sub_unsigned r (word_at m ea) m
effect adda_r r x ea m = add_signed r (get_or m.gr x 0) m
effect suba_r r x ea m = sub_signed r (get_or m.gr x 0) m
effect addl_r r x ea m = add_unsigned r (get_or m.gr x 0) m
effect subl_r r x ea m = sub_unsigned r (get_or m.gr x 0) m
effect logic_and r x ea m = logical bit_and r (word_at m ea) m
effect logic_or r x ea m = logical bit_or r (word_at m ea) m
effect logic_xor r x ea m = logical bit_xor r (word_at m ea) m
effect and_r r x ea m = logical bit_and r (get_or m.gr x 0) m
effect or_r r x ea m = logical bit_or r (get_or m.gr x 0) m
effect xor_r r x ea m = logical bit_xor r (get_or m.gr x 0) m
effect cpa r x ea m = compare_signed r (word_at m ea) m
effect cpl r x ea m = compare_unsigned r (word_at m ea) m
effect cpa_r r x ea m = compare_signed r (get_or m.gr x 0) m
effect cpl_r r x ea m = compare_unsigned r (get_or m.gr x 0) m
effect sla r x ea m = shift sla_result sla_overflow r ea m
effect sra r x ea m = shift sra_result sra_overflow r ea m
effect sll r x ea m = shift sll_result sll_overflow r ea m
effect srl r x ea m = shift srl_result srl_overflow r ea m
effect jmi r x ea m = go_to m.sf ea m
effect jnz r x ea m = go_to (not m.zf) ea m
effect jze r x ea m = go_to m.zf ea m
effect jump r x ea m = go_to true ea m
effect jpl r x ea m = go_to (not m.sf && not m.zf) ea m
effect jov r x ea m = go_to m.fr_of ea m
effect push r x ea m = if overflows m then fault m else pushed ea m
effect pop r x ea m =
    if underflows m then fault m else popped (record m { gr = set m.gr r (word_at m m.sp) })
effect call r x ea m = if overflows m then fault m else record (pushed m.pr m) { pr = ea }
effect ret r x ea m = if underflows m then fault m else popped (record m { pr = word_at m m.sp })
effect svc r x ea m = supervise (ea % 2 ^ 8) m
effect unknown r x ea m = fault m

-- An instruction with its fields, and the operand behind it if it has one.
unfoldable pub obey : Op → (r x operand : ℕ) → Machine → Machine
obey o r x operand m =
    if bad_field o r x then fault m else effect o r x (indexed_addr m.gr operand x) m

-- The machine behind the fetch of the word at `pr`.
abbrev pub fetched : Machine → Machine
fetched m = record m { pr = add16 m.pr 1 }

-- One instruction.
unfoldable pub instruction : Machine → Machine
unfolding obey
instruction m =
    let ir = word_at m m.pr in
    let o = decode (ir / 256 % 256) in
    let m' = fetched m in
    if is_two_word_instruction o
    then obey o (ir / 16 % 16) (ir % 16) (word_at m' m'.pr) (fetched m')
    else obey o (ir / 16 % 16) (ir % 16) 0 m'

unfoldable pub instructions : ℕ → Machine → Machine
instructions zero m = m
instructions (suc k) m = instructions k (instruction m)

-- The machine behind a reset: the first instruction and the top of the stack are in memory.
unfoldable pub started : (word : ℕ → ℕ) → Machine
started word = record {
  gr = replicate 8 0;
  pr = word 0 % 2 ^ 16;
  sp = word 31 % 2 ^ 16;
  fr_of = false;
  sf = false;
  zf = false;
  faulted = false;
  word = word;
}
