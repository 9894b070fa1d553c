-- ===== src/Tests/Board.antt =====
-- The RISC-V firmware at concrete commands.
use ice40_ultraplus_examples.Base.{
  suc, map, ◌<◌, Bool, false, leb, drop, get_or, bit_and, not, ◌&&◌, ◌∙◌, ℕ, ◌+◌, ◌*◌, ◌≡◌, refl,
  true, List, [], ◌∷◌, ◌++◌, arith, if◌then◌else◌, ◌==◌,
}
use ice40_ultraplus_examples.Cmd.Returns.{Returns}
use ice40_ultraplus_examples.Riscv.{Registers, Locals, fib, matrix_mult, main_round, main_rounds}
use ice40_ultraplus_examples.Riscv.Arithmetic.{fibonacci, matrix_mult-product}
use ice40_ultraplus_examples.Riscv.Board.{Board, service, services, signed_value}
use ice40_ultraplus_examples.Riscv.Rounds.{main_rounds-services}
use ice40_ultraplus_examples.Riscv.Service.{main_round-service}
use ice40_ultraplus_examples.Riscv.Matrices.{IsReady, matrix_word, main_rounds-product}

-- The commands to come, whether the first is acknowledged, whether the write buffer is taken, and
-- what was written. A result that is written while the buffer is taken is lost.
record Desk : Type 0 where
  pending : List ℕ
  acknowledged : Bool
  taken : Bool
  results : List ℕ
  colours : List ℕ

abbrev flags : List ℕ → Bool → ℕ
flags [] false = 0
flags [] true = 2
flags (c ∷ cs) false = 1
flags (c ∷ cs) true = 3

abbrev some_pending : List ℕ → Bool
some_pending [] = false
some_pending (c ∷ cs) = true

abbrev load_at : ℕ → Desk → ℕ × Desk
load_at i s =
    if i == 0
    then (flags s.pending s.taken, record s { taken = false })
    else (get_or s.pending 0 0, s)

abbrev store_at : ℕ → ℕ → Desk → Desk
store_at i v s =
    if i == 2
    then record s { acknowledged = true }
    else if i == 3
    then (if s.taken then s else record s { results = s.results ++ v ∷ []; taken = true })
    else s

abbrev pass_at : ℕ → Desk → Desk
pass_at n s =
    if s.acknowledged && leb 16 n
    then record s { pending = drop 1 s.pending; acknowledged = false }
    else s

abbrev desk : Registers Desk
desk = record {
  load_spi = load_at;
  store_spi = store_at;
  store_gpio = λ v s. record s { colours = s.colours ++ v ∷ [] };
  pass_rounds = pass_at;
}

flags-waiting : (cs : List ℕ) (t : Bool) → (bit_and (flags cs t) 0x1 == 0) ≡ not (some_pending cs)
flags-waiting [] false = refl
flags-waiting [] true = refl
flags-waiting (c ∷ cs) false = refl
flags-waiting (c ∷ cs) true = refl

flags-taken : (cs : List ℕ) (t : Bool) → (bit_and (flags cs t) 0x2 == 0) ≡ not t
flags-taken [] false = refl
flags-taken [] true = refl
flags-taken (c ∷ cs) false = refl
flags-taken (c ∷ cs) true = refl

first_pending : (cs : List ℕ) → some_pending cs ≡ true → cs ≡ get_or cs 0 0 ∷ drop 1 cs
first_pending [] h = cc
first_pending (c ∷ cs) h = refl

none_pending : (cs : List ℕ) → some_pending cs ≡ false → cs ≡ []
none_pending [] h = refl
none_pending (c ∷ cs) h = cc

abbrev polls : Bool → ℕ
polls t = if t then 1 else 0

polls-free : (t : Bool) → polls t ≡ 0 → not t ≡ true
polls-free true e = cc
polls-free false e = refl

polls-taken : (t : Bool) (k : ℕ) → polls t ≡ suc k → (not t ≡ false) × (0 ≡ k)
polls-taken true k e = (refl, omega arith)
polls-taken false k e = absurd (omega arith)

polls-lt : (t : Bool) → polls t < 2
polls-lt true = omega arith
polls-lt false = omega arith

abbrev desk_board : Board desk 2
desk_board = record {
  waiting = λ s. some_pending s.pending;
  commands = λ s. s.pending;
  busy = λ s. polls s.taken;
  written = λ s. s.results;
  lit = λ s. s.colours;
  status_waiting = λ s. flags-waiting s.pending s.taken;
  presents = λ s h. first_pending s.pending h;
  status_free = λ s e. (flags-taken s.pending s.taken ∙ polls-free s.taken e, refl);
  status_busy = λ s k e.
      let (shown, last) = polls-taken s.taken k e in (flags-taken s.pending s.taken ∙ shown, last);
  busy-lt = λ s. polls-lt s.taken;
  commands-load = λ i s. ground arith;
  commands-acknowledge = λ n s h. ground arith;
  commands-result = λ v s. ground arith;
  commands-gpio = λ v s. refl;
  written-load = λ i s. ground arith;
  written-acknowledge = λ s. refl;
  written-result = λ v s free. ground arith;
  written-gpio = λ v s. refl;
  written-pass = λ n s. ground arith;
  lit-load = λ i s. ground arith;
  lit-store = λ i v s. ground arith;
  lit-gpio = λ v s. refl;
  lit-pass = λ n s. ground arith;
}

abbrev zeros : List ℕ
zeros = 0 ∷ 0 ∷ 0 ∷ 0 ∷ []

abbrev locals : Locals
locals = record { mat_counter = 0; mat0 = zeros; mat1 = zeros; mat_result = zeros }

-- SPI_FIBONACCI of 20 and a command behind it, and a write buffer that is taken at first.
abbrev asked : Desk
asked = record {
  pending = (20 * 256 + 6) ∷ 4 ∷ [];
  acknowledged = false;
  taken = true;
  results = [];
  colours = [];
}

-- The elements of the matrices of riscv/host_server/main.c.
abbrev elements : Desk
elements = record asked {
  pending = map matrix_word (1 ∷ 2 ∷ 3 ∷ 1 ∷ 10 ∷ 0 ∷ 5 ∷ 2 ∷ []) ++ 4 ∷ [];
}

fib_of_20 : fib 20 ≡ 6765
unfolding fib
fib_of_20 = refl

-- The matrices of riscv/host_server/main.c.
matrix_mult-product_example :
    matrix_mult (1 ∷ 2 ∷ 3 ∷ 1 ∷ []) (10 ∷ 0 ∷ 5 ∷ 2 ∷ []) zeros ≡ 20 ∷ 4 ∷ 35 ∷ 2 ∷ []
matrix_mult-product_example = matrix_mult-product 1 2 3 1 10 0 5 2 0 0 0 0

main_round-service_example :
    Returns
      (λ out t.
        (out ≡ locals)
        × (t.results ≡ [] ++ 6765 ∷ [])
        × (t.colours ≡ [] ++ [])
        × (t.pending ≡ 4 ∷ []))
      (main_round desk 2 locals asked)
unfolding service fibonacci signed_value
main_round-service_example = main_round-service desk_board locals asked

locals-IsReady : IsReady locals
locals-IsReady = omega arith

-- SET_LED of 5 and the square of 3, in three rounds.
abbrev two_commands : Desk
two_commands = record asked { pending = (5 * 256 + 4) ∷ (3 * 256 + 7) ∷ [] }

main_rounds-services_example :
    Returns
      (λ out t.
        (out ≡ locals) × (t.results ≡ [] ++ 9 ∷ []) × (t.colours ≡ [] ++ 5 ∷ []) × (t.pending ≡ []))
      (main_rounds desk 2 3 locals two_commands)
unfolding services service signed_value
main_rounds-services_example =
    main_rounds-services desk_board (λ s h. none_pending s.pending h) 3 locals two_commands

main_rounds-product_example :
    Returns
      (λ out t.
        (t.results ≡ [] ++ 20 ∷ 4 ∷ 35 ∷ 2 ∷ [])
        × (t.colours ≡ [])
        × (t.pending ≡ 4 ∷ [])
        × (out.mat_counter ≡ 0))
      (main_rounds desk 2 8 locals elements)
    × Returns (λ out t. t.results ≡ []) (main_rounds desk 2 7 locals elements)
unfolding signed_value
main_rounds-product_example =
    main_rounds-product desk_board (λ s h. none_pending s.pending h) 1 2 3 1 10 0 5 2 (4 ∷ [])
      locals elements locals-IsReady refl refl
