-- ===== src/Comet/Digits.antt =====
-- The bitwise operations on two numbers of `w` bits give a number of `w` bits.
use Prim.Native.Nat.{max, bit_xor, differ, digits, bit_and-bitwise, bit_or-bitwise, bit_xor-bitwise}
use native.Mathlib.Nat.{two-pow-succ}
use ice40_ultraplus_examples.Base.{ℕ, zero, suc, ◌/◌, ◌%◌, ◌^◌, ◌<◌, min, bit_and, bit_or, arith}

module _ (z : ℕ → ℕ) (f : ℕ → ℕ → ℕ) (z-lt : (w b : ℕ) → b < 2 ^ w → z b < 2 ^ w)
    (f-lt : (x y : ℕ) → x < 2 → y < 2 → f x y < 2) where
  digits-lt : (w n a b : ℕ) → a < 2 ^ w → b < 2 ^ w → digits z f n a b < 2 ^ w
  digits-lt w zero a b ha hb = z-lt w b hb
  digits-lt w (suc n) zero b ha hb = z-lt w b hb
  digits-lt zero (suc n) (suc a) b ha hb = absurd (omega arith)
  digits-lt (suc w) (suc n) (suc a) b ha hb =
      let h =
        digits-lt w n (suc a / 2) (b / 2) (omega (arith, two-pow-succ w))
          (omega (arith, two-pow-succ w)) in
      omega (arith, h, two-pow-succ w, f-lt (suc a % 2) (b % 2) (omega arith) (omega arith))

differ-lt : (x y : ℕ) → x < 2 → y < 2 → differ x y < 2
differ-lt zero y hx hy = hy
differ-lt (suc x) zero hx hy = hx
differ-lt (suc zero) (suc y) hx hy = omega arith
differ-lt (suc (suc x)) (suc y) hx hy = absurd (omega arith)

pow-pos : (w : ℕ) → 0 < 2 ^ w
pow-pos zero = omega arith
pow-pos (suc w) = omega (arith, pow-pos w, two-pow-succ w)

pub bit_and-lt : (w a b : ℕ) → a < 2 ^ w → b < 2 ^ w → bit_and a b < 2 ^ w
bit_and-lt w a b ha hb =
    rw bit_and-bitwise
      (digits-lt (λ b. 0) min (λ v c h. pow-pos v) (λ x y hx hy. omega arith) w a a b ha hb)

pub bit_or-lt : (w a b : ℕ) → a < 2 ^ w → b < 2 ^ w → bit_or a b < 2 ^ w
bit_or-lt w a b ha hb =
    rw bit_or-bitwise (digits-lt (λ b. b) max (λ v c h. h) (λ x y hx hy. omega arith) w a a b ha hb)

pub bit_xor-lt : (w a b : ℕ) → a < 2 ^ w → b < 2 ^ w → bit_xor a b < 2 ^ w
bit_xor-lt w a b ha hb =
    rw bit_xor-bitwise (digits-lt (λ b. b) differ (λ v c h. h) differ-lt w a a b ha hb)
