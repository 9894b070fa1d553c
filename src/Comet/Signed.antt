-- ===== src/Comet/Signed.antt =====
-- What the flags of an addition, a subtraction and a comparison tell of the signed numbers.
use ice40_ultraplus_examples.Base.{
  ℕ, ◌+◌, ◌*◌, ◌%◌, ◌^◌, ◌<◌, ◌≡◌, not, ◌&&◌, arith, ltb, leb, if◌then◌else◌,
}
use ice40_ultraplus_examples.Comet.Words.{
  bit, add16, sub16, signed_add_overflow, signed_sub_overflow,
}

-- The signed number that a word stands for, plus 2 ^ 15.
abbrev pub biased : ℕ → ℕ
biased a = (a + 2 ^ 15) % 2 ^ 16

-- The overflow of an addition tells that the sum of the signed numbers is out of the range of a
-- word.
pub signed_add_overflow-range :
    (a b : ℕ)
    → a < 2 ^ 16
    → b < 2 ^ 16
    → signed_add_overflow a b (add16 a b)
      ≡ not (leb (2 ^ 15) (biased a + biased b) && ltb (biased a + biased b) (3 * 2 ^ 15))
unfolding signed_add_overflow add16
signed_add_overflow-range a b ha hb = ground arith

-- A signed subtraction or comparison: the overflow tells that the difference of the signed numbers
-- is out of the range of a word; the sign flag tells that the first number is less, exactly if
-- there is no overflow.
pub signed_sub-flags :
    (a b : ℕ)
    → a < 2 ^ 16
    → b < 2 ^ 16
    → let overflow = signed_sub_overflow a b (sub16 a b) in
      let less = ltb (biased a) (biased b) in
      (overflow ≡ not (leb (biased b) (biased a + 2 ^ 15) && ltb (biased a) (biased b + 2 ^ 15)))
      × (bit (sub16 a b) 15 ≡ (if overflow then not less else less))
unfolding signed_sub_overflow sub16
signed_sub-flags a b ha hb = ground arith
