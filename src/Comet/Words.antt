-- ===== src/Comet/Words.antt =====
-- The combinational functions of comet2_cpu.v on 16-bit words, which are natural numbers below
-- 2 ^ 16.
use ice40_ultraplus_examples.Base.{
  ℕ, ◌+◌, ◌-◌, ◌*◌, ◌/◌, ◌%◌, ◌^◌, Bool, true, false, List, ◌&&◌, not, ltb, leb, ◌==◌, get_or,
  if◌then◌else◌,
}

-- value[i]
abbrev pub bit : ℕ → ℕ → Bool
bit value i = value / 2 ^ i % 2 == 1

abbrev pub same_bit : Bool → Bool → Bool
same_bit true b = b
same_bit false b = not b

-- The width of the argument of `bus_addr` and of the result of `bus_word`.
abbrev pub bus_addr : ℕ → ℕ
bus_addr word_addr = word_addr % 2 ^ 16

abbrev pub bus_word : ℕ → ℕ
bus_word word = word % 2 ^ 16

unfoldable pub add16 : ℕ → ℕ → ℕ
add16 a b = (a + b) % 2 ^ 16

unfoldable pub sub16 : ℕ → ℕ → ℕ
sub16 a b = (a + (2 ^ 16 - b)) % 2 ^ 16

unfoldable pub indexed_addr : List ℕ → (addr x : ℕ) → ℕ
indexed_addr gr addr x =
    if x == 0 then addr else if ltb x 8 then add16 addr (get_or gr x 0) else addr

unfoldable pub signed_add_overflow : (a b result : ℕ) → Bool
signed_add_overflow a b result =
    same_bit (bit a 15) (bit b 15) && not (same_bit (bit result 15) (bit a 15))

unfoldable pub signed_sub_overflow : (a b result : ℕ) → Bool
signed_sub_overflow a b result =
    not (same_bit (bit a 15) (bit b 15)) && not (same_bit (bit result 15) (bit a 15))

-- {value[15], 15'b0}
abbrev pub sign_only : ℕ → ℕ
sign_only value = value / 2 ^ 15 % 2 * 2 ^ 15

unfoldable pub sla_result : (value amount : ℕ) → ℕ
sla_result value amount =
    if amount == 0
    then value
    else if leb 15 amount
    then sign_only value
    else sign_only value + value % 2 ^ 15 * 2 ^ amount % 2 ^ 15

unfoldable pub sla_overflow : (value amount : ℕ) → Bool
sla_overflow value amount =
    if amount == 0 then false else if leb 15 amount then bit value 0 else bit value (15 - amount)

-- A negative value is filled up with ones from above.
unfoldable pub sra_result : (value amount : ℕ) → ℕ
sra_result value amount =
    if amount == 0
    then value
    else if leb 15 amount
    then (if bit value 15 then 2 ^ 16 - 1 else 0)
    else if bit value 15
    then 2 ^ 16 - 2 ^ (16 - amount) + value / 2 ^ amount
    else value / 2 ^ amount

unfoldable pub sra_overflow : (value amount : ℕ) → Bool
sra_overflow value amount =
    if amount == 0 then false else if leb 16 amount then bit value 15 else bit value (amount - 1)

unfoldable pub sll_result : (value amount : ℕ) → ℕ
sll_result value amount = if leb 16 amount then 0 else value * 2 ^ amount % 2 ^ 16

unfoldable pub sll_overflow : (value amount : ℕ) → Bool
sll_overflow value amount =
    if amount == 0 then false else if leb 16 amount then bit value 0 else bit value (16 - amount)

unfoldable pub srl_result : (value amount : ℕ) → ℕ
srl_result value amount = if leb 16 amount then 0 else value / 2 ^ amount

unfoldable pub srl_overflow : (value amount : ℕ) → Bool
srl_overflow value amount =
    if amount == 0 then false else if leb 16 amount then bit value 15 else bit value (amount - 1)
