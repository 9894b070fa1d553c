-- ===== src/Riscv.antt =====
-- The firmware of the RISC-V system, riscv/host_server/firmware/main.c: commands arrive as 32-bit
-- words in the SPI registers, and results are written back. An `int` is its 32-bit pattern. The
-- registers are the parameter `Registers`; `rounds` bounds the polls for a free write buffer.
pub mod Arithmetic
pub mod Gradient
pub mod Board
pub mod Results
pub mod Service
pub mod Rounds
pub mod Matrices
use ice40_ultraplus_examples.Base.{
  ℕ, zero, suc, ◌+◌, ◌-◌, ◌*◌, ◌/◌, ◌%◌, ◌^◌, Bool, List, [], ◌∷◌, ◌++◌, ◌&&◌, not, ltb, leb, ◌==◌,
  if◌then◌else◌, get_or, set, bit_and,
}
use ice40_ultraplus_examples.Cmd.{Cmd, done, polling, pure, ◌>>=◌, ◌>>◌}

-- The memory-mapped words, `spi_addr[i]` and `*gpio_addr`, and the time that an empty loop over a
-- `volatile` counter takes.
pub record Registers (S : Type 0) : Type 0 where
  pub load_spi : ℕ → S → ℕ × S
  pub store_spi : ℕ → ℕ → S → S
  pub store_gpio : ℕ → S → S
  pub pass_rounds : ℕ → S → S

abbrev pub word : ℕ
word = 2 ^ 32

unfoldable pub fib : ℕ → ℕ
fib zero = 0
fib (suc zero) = 1
fib (suc (suc zero)) = 1
fib (suc (suc (suc n))) = (fib (suc n) + fib (suc (suc n))) % 2 ^ 32

abbrev pub matrix_side_size : ℕ
matrix_side_size = 2

abbrev pub matrix_total_size : ℕ
matrix_total_size = 4

-- `mat_result[j*2+i] += mat0[j*2+k]*mat1[k*2+i]`
unfoldable pub add_product : (mat0 mat1 : List ℕ) (i j k : ℕ) → List ℕ → List ℕ
add_product mat0 mat1 i j k result =
    let at = j * matrix_side_size + i in
    let term =
      get_or mat0 (j * matrix_side_size + k) 0 * get_or mat1 (k * matrix_side_size + i) 0 in
    set result at ((get_or result at 0 + term) % 2 ^ 32)

-- A loop from `k` on, `left` rounds long.
unfoldable pub for_each : (left k : ℕ) → (ℕ → List ℕ → List ℕ) → List ℕ → List ℕ
for_each zero k body result = result
for_each (suc left) k body result = for_each left (k + 1) body (body k result)

-- The body of the loop over `j`: the entry starts from 0, and the loop over `k` adds to it.
unfoldable pub mult_entry : (mat0 mat1 : List ℕ) (i j : ℕ) → List ℕ → List ℕ
unfolding add_product for_each
mult_entry mat0 mat1 i j result =
    for_each matrix_side_size 0 (add_product mat0 mat1 i j)
      (set result (j * matrix_side_size + i) 0)

-- The body of the loop over `i`.
unfoldable pub mult_column : (mat0 mat1 : List ℕ) (i : ℕ) → List ℕ → List ℕ
unfolding mult_entry
mult_column mat0 mat1 i = for_each matrix_side_size 0 (mult_entry mat0 mat1 i)

-- The result after the three loops.
unfoldable pub matrix_mult : (mat0 mat1 mat_result : List ℕ) → List ℕ
unfolding mult_column
matrix_mult mat0 mat1 = for_each matrix_side_size 0 (mult_column mat0 mat1)

-- The variables of `main`.
pub record Locals : Type 0 where
  pub mat_counter : ℕ
  pub mat0 : List ℕ
  pub mat1 : List ℕ
  pub mat_result : List ℕ

-- A value of a matrix command is stored by the counter.
unfoldable pub take_element : Locals → ℕ → Locals
take_element l value =
    if ltb l.mat_counter matrix_total_size
    then record l { mat0 = set l.mat0 l.mat_counter value; mat_counter = l.mat_counter + 1 }
    else if ltb l.mat_counter (matrix_total_size * 2)
    then record l {
      mat1 = set l.mat1 (l.mat_counter - matrix_total_size) value;
      mat_counter = l.mat_counter + 1;
    }
    else l

-- `value = (read >> 8)`, an arithmetic shift of an `int`.
abbrev pub shift_right_8 : ℕ → ℕ
shift_right_8 read = if ltb read (2 ^ 31) then read / 2 ^ 8 else read / 2 ^ 8 + 0xff00_0000

-- The values that `gradient` writes in one pass of `j`, `left` rounds from `j` on.
unfoldable pub ticks : (col i left j : ℕ) → List ℕ
ticks col i zero j = []
ticks col i (suc left) j = (if ltb j i then col else 0) ∷ ticks col i left (j + 1)

unfoldable pub ramps : (col left i : ℕ) → List ℕ
unfolding ticks
ramps col zero i = []
ramps col (suc left) i = ticks col i 256 0 ++ ramps col left (i + 1)

-- All values that `gradient` writes, in order.
unfoldable pub colours : (left col : ℕ) → List ℕ
unfolding ramps
colours zero col = []
colours (suc left) col = ramps col 256 0 ++ colours left (col + 1)

module _ {S : Type 0} (regs : Registers S) where
  abbrev pub load : ℕ → Cmd S ℕ
  load i s = let (v, t) = regs.load_spi i s in done v t

  abbrev pub store : ℕ → ℕ → Cmd S (Unit {0})
  store i v s = done tt (regs.store_spi i v s)

  abbrev pub pass : ℕ → Cmd S (Unit {0})
  pass n s = done tt (regs.pass_rounds n s)

  abbrev pub light : ℕ → Cmd S (Unit {0})
  light v s = done tt (regs.store_gpio v s)

  unfoldable pub set_led : ℕ → Cmd S (Unit {0})
  set_led rgb24 = light (bit_and rgb24 0x7)

  unfoldable pub light_all : List ℕ → Cmd S (Unit {0})
  light_all [] = pure tt
  light_all (v ∷ vs) = do light v; light_all vs

  unfoldable pub gradient : Cmd S (Unit {0})
  gradient = light_all (colours 7 1)

  -- `while((*spi_addr & 0x2) != 0){}`
  unfoldable pub wait_free : (rounds : ℕ) → Cmd S (Unit {0})
  wait_free zero s = polling
  wait_free (suc k) s =
      let (status, t) = regs.load_spi 0 s in
      let again = wait_free k t in if bit_and status 0x2 == 0 then done tt t else again

  module _ (rounds : ℕ) where
    -- One result, written when the buffer is free.
    unfoldable pub write_result : ℕ → Cmd S (Unit {0})
    write_result v = do wait_free rounds; store 3 v

    unfoldable pub write_results : List ℕ → Cmd S (Unit {0})
    write_results [] = pure tt
    write_results (v ∷ vs) = do write_result v; write_results vs

    -- The result goes out after the last element.
    unfoldable pub matrix_command : Locals → ℕ → Cmd S Locals
    matrix_command l value =
        let m = take_element l value in
        let product = matrix_mult m.mat0 m.mat1 m.mat_result in
        if leb (matrix_total_size * 2) m.mat_counter
        then (do write_results product; pure (record m { mat_result = product; mat_counter = 0 }))
        else pure m

    -- The five tests of the operation, one after the other.
    unfoldable pub dispatch : Locals → (operation value : ℕ) → Cmd S Locals
    dispatch l operation value = do
      if operation == 0x4 then set_led value else pure tt
      if operation == 0x5 then gradient else pure tt
      if operation == 0x6 then write_result (fib value) else pure tt
      if operation == 0x7 then write_result (value * value % 2 ^ 32) else pure tt
      if operation == 0x8 then matrix_command l value else pure l

    -- One round of the `while(1)` loop of `main`.
    unfoldable pub main_round : Locals → Cmd S Locals
    main_round l = do
      status ← load 0
      if bit_and status 0x1 == 0
          then pure l
          else (do read ← load 1; store 2 1; pass 16; dispatch l (read % 256) (shift_right_8 read))

    unfoldable pub main_rounds : ℕ → Locals → Cmd S Locals
    main_rounds zero l = pure l
    main_rounds (suc n) l = do m ← main_round l; main_rounds n m
