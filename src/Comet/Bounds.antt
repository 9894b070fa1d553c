-- ===== src/Comet/Bounds.antt =====
-- The results of the operations of the CPU are words of 16 bits.
use native.Mathlib.Nat.{
  zero-add, suc-add, mul-one, two-pow-succ, div-le_self, div-lt_iff_lt-mul, one-le-pow,
  pow-le-pow_right,
}
use ice40_ultraplus_examples.Base.{
  ℕ, zero, suc, ◌+◌, ◌-◌, ◌*◌, ◌/◌, ◌^◌, ◌≤◌, ◌<◌, ◌≡◌, ap, ◌∙◌, List, arith, get_or,
}
use ice40_ultraplus_examples.Comet.Words.{
  add16, sub16, indexed_addr, sla_result, sra_result, sll_result, srl_result,
}

pub add16-lt : (a b : ℕ) → add16 a b < 2 ^ 16
unfolding add16
add16-lt a b = omega arith

pub sub16-lt : (a b : ℕ) → sub16 a b < 2 ^ 16
unfolding sub16
sub16-lt a b = omega arith

pub indexed_addr-lt : (gr : List ℕ) (addr x : ℕ) → addr < 2 ^ 16 → indexed_addr gr addr x < 2 ^ 16
unfolding indexed_addr
indexed_addr-lt gr addr x h = ground (arith, add16-lt addr (get_or gr x 0))

pub sla_result-lt : (value amount : ℕ) → value < 2 ^ 16 → sla_result value amount < 2 ^ 16
unfolding sla_result
sla_result-lt value amount h = ground arith

pub pow-split : (j k : ℕ) → 2 ^ j * 2 ^ k ≡ 2 ^ (k + j)
pow-split j zero = rw zero-add (mul-one (2 ^ j))
pow-split j (suc k) =
    let higher : 2 ^ (suc k + j) ≡ 2 ^ (k + j) + 2 ^ (k + j) = rw suc-add (two-pow-succ (k + j)) in
    omega (arith, pow-split j k, higher, ap (λ (p : ℕ). 2 ^ j * p) (two-pow-succ k))

pub shifted-lt : (value amount : ℕ) → value < 2 ^ 16 → value / 2 ^ amount < 2 ^ 16
shifted-lt value amount h = omega (arith, div-le_self value (2 ^ amount))

-- The sign fills up what the shift leaves free.
pub filled :
    (value amount : ℕ)
    → value < 2 ^ 16
    → amount ≤ 16
    → 2 ^ 16 - 2 ^ (16 - amount) + value / 2 ^ amount < 2 ^ 16
filled value amount h k =
    let whole : amount + (16 - amount) ≡ 16 = omega arith in
    let split : 2 ^ (16 - amount) * 2 ^ amount ≡ 2 ^ 16 =
      pow-split (16 - amount) amount ∙ ap (λ (e : ℕ). 2 ^ e) whole in
    let room =
      (div-lt_iff_lt-mul {k = 2 ^ amount} {x = value} {y = 2 ^ (16 - amount)}
          (one-le-pow amount 2 (omega arith))).1
        (rw split h) in
    omega
      (arith, room, pow-le-pow_right {n = 2} (omega arith) {i = 16 - amount} {j = 16} (omega arith))

pub sra_result-lt : (value amount : ℕ) → value < 2 ^ 16 → sra_result value amount < 2 ^ 16
unfolding sra_result
sra_result-lt value amount h = ground (arith, shifted-lt value amount, filled value amount)

pub sll_result-lt : (value amount : ℕ) → sll_result value amount < 2 ^ 16
unfolding sll_result
sll_result-lt value amount = ground arith

pub srl_result-lt : (value amount : ℕ) → value < 2 ^ 16 → srl_result value amount < 2 ^ 16
unfolding srl_result
srl_result-lt value amount h = ground (arith, shifted-lt value amount)
