-- ===== src/Comet/Widths.antt =====
-- The registers hold words of 16 bits, with no truncation but that of the operations.
use ice40_ultraplus_examples.Base.{
  ℕ, zero, suc, ◌/◌, ◌%◌, ◌^◌, ◌<◌, not, ◌&&◌, List, [], ◌∷◌, arith, branch, ltb, ◌==◌, get_or, set,
}
use ice40_ultraplus_examples.Comet.Codes.{
  Op, nop, ld, st, lad, ld_r, adda, suba, addl, subl, adda_r, suba_r, addl_r, subl_r, logic_and,
  logic_or, logic_xor, and_r, or_r, xor_r, cpa, cpl, cpa_r, cpl_r, sla, sra, sll, srl, jmi, jnz,
  jze, jump, jpl, jov, push, pop, call, ret, svc, unknown, is_two_word_instruction, decode,
}
use ice40_ultraplus_examples.Comet.Words.{add16, sub16}
use ice40_ultraplus_examples.Comet.Digits.{bit_and-lt, bit_or-lt, bit_xor-lt}
use ice40_ultraplus_examples.Comet.Perform.{bad_field}
use ice40_ultraplus_examples.Comet.Machine.{
  Machine, word_at, supervise, effect, obey, fetched, instruction, instructions, started, overflows,
  underflows,
}
use ice40_ultraplus_examples.Comet.Bounds.{
  add16-lt, sub16-lt, indexed_addr-lt, sla_result-lt, sra_result-lt, sll_result-lt, srl_result-lt,
}

abbrev pub AllWords : List ℕ → Type 0
AllWords [] = Unit
AllWords (x ∷ xs) = (x < 2 ^ 16) × AllWords xs

pub record HoldWords (gr : List ℕ) (pr sp : ℕ) : Type 0 where
  pub registers : AllWords gr
  pub counter : pr < 2 ^ 16
  pub stack : sp < 2 ^ 16

abbrev pub IsWords : Machine → Type 0
IsWords m = HoldWords m.gr m.pr m.sp

pub get_or-lt : (xs : List ℕ) (i : ℕ) → AllWords xs → get_or xs i 0 < 2 ^ 16
get_or-lt [] i h = omega arith
get_or-lt (x ∷ xs) zero h = h.0
get_or-lt (x ∷ xs) (suc i) h = get_or-lt xs i h.1

set-AllWords : (xs : List ℕ) (i v : ℕ) → AllWords xs → v < 2 ^ 16 → AllWords (set xs i v)
set-AllWords [] i v h hv = tt
set-AllWords (x ∷ xs) zero v h hv = (hv, h.1)
set-AllWords (x ∷ xs) (suc i) v h hv = (h.0, set-AllWords xs i v h.1 hv)

given :
    {gr : List ℕ} {pr sp : ℕ} (r result : ℕ)
    → HoldWords gr pr sp
    → result < 2 ^ 16
    → HoldWords (set gr r result) pr sp
given r result v h = record {
  registers = set-AllWords _ r result v.registers h;
  counter = v.counter;
  stack = v.stack;
}

moved : {gr : List ℕ} {pr sp : ℕ} (to : ℕ) → HoldWords gr pr sp → to < 2 ^ 16 → HoldWords gr to sp
moved to v h = record { registers = v.registers; counter = h; stack = v.stack }

stacked :
    {gr : List ℕ} {pr sp : ℕ} (top : ℕ) → HoldWords gr pr sp → top < 2 ^ 16 → HoldWords gr pr top
stacked top v h = record { registers = v.registers; counter = v.counter; stack = h }

supervise-IsWords : (n : ℕ) (m : Machine) → IsWords m → IsWords (supervise n m)
unfolding supervise
supervise-IsWords n m v =
    branch IsWords (n == 0)
      (λ e. record { registers = v.registers; counter = omega arith; stack = omega arith })
      (λ e.
        branch IsWords (ltb 0x0f n) (λ e'. v)
          (λ e'.
            branch IsWords (overflows m) (λ f. v)
              (λ f. stacked (sub16 m.sp 1) (moved _ v (omega arith)) (sub16-lt m.sp 1))))

effect-IsWords :
    (o : Op) (r x ea : ℕ) (m : Machine) → IsWords m → ea < 2 ^ 16 → IsWords (effect o r x ea m)
unfolding effect
effect-IsWords nop r x ea m v h = v
effect-IsWords ld r x ea m v h = given r _ v (omega arith)
effect-IsWords st r x ea m v h = v
effect-IsWords lad r x ea m v h = given r _ v (h)
effect-IsWords ld_r r x ea m v h = given r _ v (get_or-lt m.gr x v.registers)
effect-IsWords adda r x ea m v h = given r _ v (add16-lt (get_or m.gr r 0) _)
effect-IsWords suba r x ea m v h = given r _ v (sub16-lt (get_or m.gr r 0) _)
effect-IsWords addl r x ea m v h = given r _ v (omega arith)
effect-IsWords subl r x ea m v h = given r _ v (sub16-lt (get_or m.gr r 0) _)
effect-IsWords adda_r r x ea m v h = given r _ v (add16-lt (get_or m.gr r 0) _)
effect-IsWords suba_r r x ea m v h = given r _ v (sub16-lt (get_or m.gr r 0) _)
effect-IsWords addl_r r x ea m v h = given r _ v (omega arith)
effect-IsWords subl_r r x ea m v h = given r _ v (sub16-lt (get_or m.gr r 0) _)
effect-IsWords logic_and r x ea m v h =
    given r _ v
      (bit_and-lt 16 (get_or m.gr r 0) (word_at m ea) (get_or-lt m.gr r v.registers) (omega arith))
effect-IsWords logic_or r x ea m v h =
    given r _ v
      (bit_or-lt 16 (get_or m.gr r 0) (word_at m ea) (get_or-lt m.gr r v.registers) (omega arith))
effect-IsWords logic_xor r x ea m v h =
    given r _ v
      (bit_xor-lt 16 (get_or m.gr r 0) (word_at m ea) (get_or-lt m.gr r v.registers) (omega arith))
effect-IsWords and_r r x ea m v h = given r _ v (
    bit_and-lt 16 (get_or m.gr r 0) (get_or m.gr x 0) (get_or-lt m.gr r v.registers)
      (get_or-lt m.gr x v.registers))
effect-IsWords or_r r x ea m v h = given r _ v (
    bit_or-lt 16 (get_or m.gr r 0) (get_or m.gr x 0) (get_or-lt m.gr r v.registers)
      (get_or-lt m.gr x v.registers))
effect-IsWords xor_r r x ea m v h = given r _ v (
    bit_xor-lt 16 (get_or m.gr r 0) (get_or m.gr x 0) (get_or-lt m.gr r v.registers)
      (get_or-lt m.gr x v.registers))
effect-IsWords cpa r x ea m v h = v
effect-IsWords cpl r x ea m v h = v
effect-IsWords cpa_r r x ea m v h = v
effect-IsWords cpl_r r x ea m v h = v
effect-IsWords sla r x ea m v h =
    given r _ v (sla_result-lt (get_or m.gr r 0) ea (get_or-lt m.gr r v.registers))
effect-IsWords sra r x ea m v h =
    given r _ v (sra_result-lt (get_or m.gr r 0) ea (get_or-lt m.gr r v.registers))
effect-IsWords sll r x ea m v h = given r _ v (sll_result-lt (get_or m.gr r 0) ea)
effect-IsWords srl r x ea m v h =
    given r _ v (srl_result-lt (get_or m.gr r 0) ea (get_or-lt m.gr r v.registers))
effect-IsWords jmi r x ea m v h =
    branch (λ pr. HoldWords m.gr pr m.sp) m.sf (λ e. moved ea v h) (λ e. v)
effect-IsWords jnz r x ea m v h =
    branch (λ pr. HoldWords m.gr pr m.sp) (not m.zf) (λ e. moved ea v h) (λ e. v)
effect-IsWords jze r x ea m v h =
    branch (λ pr. HoldWords m.gr pr m.sp) m.zf (λ e. moved ea v h) (λ e. v)
effect-IsWords jump r x ea m v h = moved ea v h
effect-IsWords jpl r x ea m v h =
    branch (λ pr. HoldWords m.gr pr m.sp) (not m.sf && not m.zf) (λ e. moved ea v h) (λ e. v)
effect-IsWords jov r x ea m v h =
    branch (λ pr. HoldWords m.gr pr m.sp) m.fr_of (λ e. moved ea v h) (λ e. v)
effect-IsWords push r x ea m v h =
    branch IsWords (overflows m) (λ e. v) (λ e. stacked _ v (sub16-lt m.sp 1))
effect-IsWords pop r x ea m v h =
    branch IsWords (underflows m) (λ e. v)
      (λ e. stacked _ (given r (word_at m m.sp) v (omega arith)) (add16-lt m.sp 1))
effect-IsWords call r x ea m v h =
    branch IsWords (overflows m) (λ e. v) (λ e. moved ea (stacked _ v (sub16-lt m.sp 1)) h)
effect-IsWords ret r x ea m v h =
    branch IsWords (underflows m) (λ e. v)
      (λ e. stacked _ (moved (word_at m m.sp) v (omega arith)) (add16-lt m.sp 1))
effect-IsWords svc r x ea m v h = supervise-IsWords (ea % 2 ^ 8) m v
effect-IsWords unknown r x ea m v h = v

obey-IsWords :
    (o : Op) (r x operand : ℕ) (m : Machine)
    → IsWords m
    → operand < 2 ^ 16
    → IsWords (obey o r x operand m)
unfolding obey
obey-IsWords o r x operand m v h =
    branch IsWords (bad_field o r x) (λ bad. v)
      (λ good. effect-IsWords o r x _ m v (indexed_addr-lt m.gr operand x h))

-- Each instruction leaves words of 16 bits in the registers, PR and SP, if they held such.
pub instruction-IsWords : (m : Machine) → IsWords m → IsWords (instruction m)
unfolding instruction
instruction-IsWords m v =
    let w = moved (add16 m.pr 1) v (add16-lt m.pr 1) in
    let o = decode (word_at m m.pr / 256 % 256) in
    branch IsWords (is_two_word_instruction o)
      (λ e.
        obey-IsWords o _ _ (word_at m (add16 m.pr 1)) (fetched (fetched m))
          (moved (add16 (add16 m.pr 1) 1) v (add16-lt (add16 m.pr 1) 1)) (omega arith))
      (λ e. obey-IsWords o _ _ 0 (fetched m) w (omega arith))

pub instructions-IsWords : (k : ℕ) (m : Machine) → IsWords m → IsWords (instructions k m)
unfolding instructions
instructions-IsWords zero m v = v
instructions-IsWords (suc k) m v = instructions-IsWords k (instruction m) (instruction-IsWords m v)

pub started-IsWords : (word : ℕ → ℕ) → IsWords (started word)
unfolding started
started-IsWords word = record {
  registers = omega arith;
  counter = omega arith;
  stack = omega arith;
}
