-- ===== src/Riscv/Board.antt =====
-- The board that the firmware relies on, and the table of services of its commands.
use ice40_ultraplus_examples.Base.{
  ℕ, suc, ◌+◌, ◌-◌, ◌/◌, ◌≤◌, drop, ◌*◌, ◌%◌, ◌^◌, ◌<◌, ◌≡◌, Bool, true, false, List, [], ◌∷◌, ◌++◌,
  ◌==◌, if◌then◌else◌, leb, bit_and, not,
}
use ice40_ultraplus_examples.Riscv.{Registers, Locals, matrix_mult, matrix_total_size, take_element}
use ice40_ultraplus_examples.Riscv.Gradient.{soft_colours}
use ice40_ultraplus_examples.Riscv.Arithmetic.{fibonacci}

-- What the firmware relies on of spi_mm. Bit 0 of the status tells that a command waits: the first
-- of `commands`, the words to come, which an acknowledgement takes off by the end of the 16 rounds
-- behind it. Bit 1 tells that the write buffer is taken, which passes within fewer than `rounds`
-- polls; `busy` is how many polls will show it. A result that is written while the buffer is free is
-- the next of `written`; of one that is written before, nothing is said. `lit` is the colours.
pub record Board {S : Type 0} (regs : Registers S) (rounds : ℕ) : Type 0 where
  pub waiting : S → Bool
  pub commands : S → List ℕ
  pub busy : S → ℕ
  pub written : S → List ℕ
  pub lit : S → List ℕ
  pub status_waiting : (s : S) → (bit_and (regs.load_spi 0 s).0 0x1 == 0) ≡ not (waiting s)
  pub presents :
      (s : S)
      → waiting s ≡ true
      → commands s ≡ (regs.load_spi 1 (regs.load_spi 0 s).1).0 ∷ drop 1 (commands s)
  pub status_free :
      (s : S)
      → busy s ≡ 0
      → ((bit_and (regs.load_spi 0 s).0 0x2 == 0) ≡ true) × (busy (regs.load_spi 0 s).1 ≡ 0)
  pub status_busy :
      (s : S) (k : ℕ)
      → busy s ≡ suc k
      → ((bit_and (regs.load_spi 0 s).0 0x2 == 0) ≡ false) × (busy (regs.load_spi 0 s).1 ≡ k)
  pub busy-lt : (s : S) → busy s < rounds
  pub commands-load : (i : ℕ) (s : S) → commands (regs.load_spi i s).1 ≡ commands s
  pub commands-acknowledge :
      (n : ℕ) (s : S)
      → 16 ≤ n
      → commands (regs.pass_rounds n (regs.store_spi 2 1 s)) ≡ drop 1 (commands s)
  pub commands-result : (v : ℕ) (s : S) → commands (regs.store_spi 3 v s) ≡ commands s
  pub commands-gpio : (v : ℕ) (s : S) → commands (regs.store_gpio v s) ≡ commands s
  pub written-load : (i : ℕ) (s : S) → written (regs.load_spi i s).1 ≡ written s
  pub written-acknowledge : (s : S) → written (regs.store_spi 2 1 s) ≡ written s
  pub written-result :
      (v : ℕ) (s : S) → busy s ≡ 0 → written (regs.store_spi 3 v s) ≡ written s ++ v ∷ []
  pub written-gpio : (v : ℕ) (s : S) → written (regs.store_gpio v s) ≡ written s
  pub written-pass : (n : ℕ) (s : S) → written (regs.pass_rounds n s) ≡ written s
  pub lit-load : (i : ℕ) (s : S) → lit (regs.load_spi i s).1 ≡ lit s
  pub lit-store : (i v : ℕ) (s : S) → lit (regs.store_spi i v s) ≡ lit s
  pub lit-gpio : (v : ℕ) (s : S) → lit (regs.store_gpio v s) ≡ lit s ++ v ∷ []
  pub lit-pass : (n : ℕ) (s : S) → lit (regs.pass_rounds n s) ≡ lit s

-- The upper three bytes of a word as a signed number, in the pattern of an `int`.
unfoldable pub signed_value : ℕ → ℕ
signed_value read =
    let bytes = read / 256 in if leb (2 ^ 23) bytes then bytes + (2 ^ 32 - 2 ^ 24) else bytes

-- The matrix results of a command.
unfoldable pub products : Locals → List ℕ
products m =
    if leb (matrix_total_size * 2) m.mat_counter then matrix_mult m.mat0 m.mat1 m.mat_result else []

-- The locals after a matrix command.
unfoldable pub settle : Locals → Locals
settle m =
    if leb (matrix_total_size * 2) m.mat_counter
    then record m { mat_result = matrix_mult m.mat0 m.mat1 m.mat_result; mat_counter = 0 }
    else m

-- The service of a command: the locals after it, the results and the colours that it writes.
unfoldable pub service : (l : Locals) (operation value : ℕ) → Locals × List ℕ × List ℕ
service l operation value =
    if operation == 0x4
    then (l, [], bit_and value 0x7 ∷ [])
    else if operation == 0x5
    then (l, [], soft_colours)
    else if operation == 0x6
    then (l, fibonacci value % 2 ^ 32 ∷ [], [])
    else if operation == 0x7
    then (l, value * value % 2 ^ 32 ∷ [], [])
    else if operation == 0x8
    then (settle (take_element l value), products (take_element l value), [])
    else (l, [], [])

-- The service of the command in a word: the operation is in its lowest byte, the value above it.
abbrev pub answer : Locals → (read : ℕ) → Locals × List ℕ × List ℕ
answer l read = service l (read % 256) (signed_value read)

-- The services of some commands, one behind the other.
unfoldable pub services : Locals → List ℕ → Locals × List ℕ × List ℕ
services l [] = (l, [], [])
services l (read ∷ reads) =
    let (l', rs, cs) = answer l read in
    let (l'', rs', cs') = services l' reads in (l'', rs ++ rs', cs ++ cs')
