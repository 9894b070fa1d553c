-- ===== src/Loader/Budget.antt =====
-- The rounds of the capture loop of comet2_spi_loader.c: the arithmetic of the clock and the budget.
use ice40_ultraplus_examples.Base.{
  ℕ, suc, ◌+◌, ◌-◌, ◌*◌, ◌/◌, ◌≤◌, ◌<◌, ◌≡◌, true, false, arith, ltb, not,
}
use native.Mathlib.Nat.{mul-le-mul_left}

-- One answer less makes room for one waiting time more.
spend : (a a' k : ℕ) → a' + 1 ≤ a → a' * k + k ≤ a * k
spend a a' k h = omega (arith, mul-le-mul_left k h)

pub not_early : (a b : ℕ) → not (ltb a b) ≡ true → b ≤ a
not_early a b h = ground arith

pub is_early : (a b : ℕ) → not (ltb a b) ≡ false → a < b
is_early a b h = ground arith

-- A round without an answer takes time before the deadline.
pub quiet_budget :
    (a a' k d m m' fuel : ℕ)
    → a' ≤ a
    → m < m'
    → m / 1000 < d
    → a * k + (d * 1000 - m) < suc fuel
    → a' * k + (d * 1000 - m') < fuel
quiet_budget a a' k d m m' fuel h time early enough = omega (arith, mul-le-mul_left k h)

-- A round with an answer uses it up, and moves the deadline.
pub answer_budget :
    (a a' i d d' m m' fuel : ℕ)
    → a' + 1 ≤ a
    → d' ≤ m' / 1000 + i
    → a * (i * 1000 + 1) + (d * 1000 - m) < suc fuel
    → a' * (i * 1000 + 1) + (d' * 1000 - m') < fuel
answer_budget a a' i d d' m m' fuel h near enough = omega (arith, spend a a' (i * 1000 + 1) h)
