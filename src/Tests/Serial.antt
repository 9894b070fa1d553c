-- ===== src/Tests/Serial.antt =====
-- The UART programs at a UART that shows each byte at once, is busy twice behind a byte, and drops
-- what is written while it is.
use ice40_ultraplus_examples.Base.{
  ℕ, zero, suc, ◌+◌, ◌%◌, ◌≤◌, ◌≡◌, refl, true, false, List, [], ◌∷◌, ◌++◌, map, arith, bit_and,
  ◌==◌, if◌then◌else◌,
}
use ice40_ultraplus_examples.Cmd.Returns.{Returns}
use ice40_ultraplus_examples.Uart.{Uart, echo_rounds, tx_rounds}
use ice40_ultraplus_examples.Uart.Echo.{Works, hellos, echo_rounds-all, tx_rounds-hellos}

-- The bytes to come, what was sent, and how often the transmitter will be shown as busy.
record Line : Type 0 where
  pending : List ℕ
  written : List ℕ
  busy : ℕ

abbrev flags : List ℕ → ℕ → ℕ
flags [] zero = 0
flags [] (suc n) = 2
flags (x ∷ xs) zero = 1
flags (x ∷ xs) (suc n) = 3

abbrev first : List ℕ → ℕ
first [] = 0
first (x ∷ xs) = x

abbrev rest : List ℕ → List ℕ
rest [] = []
rest (x ∷ xs) = xs

abbrev calmer : ℕ → ℕ
calmer zero = 0
calmer (suc n) = n

abbrev small_uart : Uart Line
small_uart = record {
  read_status = λ s. (flags s.pending s.busy, record s { busy = calmer s.busy });
  read_data = λ s. (first s.pending, record s { pending = rest s.pending });
  write_data = λ c s. record s {
    written = if s.busy == 0 then s.written ++ c ∷ [] else s.written;
    busy = 2;
  };
}

abbrev bytes : List ℕ → List ℕ
bytes xs = map (λ x. x % 256) xs

calmer-le : (n : ℕ) → calmer n ≤ n
calmer-le zero = omega arith
calmer-le (suc n) = omega arith

flags-busy : (xs : List ℕ) (n : ℕ) → bit_and (flags xs n) 2 == 0 ≡ false → calmer n + 1 ≤ n
flags-busy [] zero e = absurd (ground arith)
flags-busy (x ∷ xs) zero e = absurd (ground arith)
flags-busy xs (suc n) e = omega arith

flags-free : (xs : List ℕ) (n : ℕ) → bit_and (flags xs n) 2 == 0 ≡ true → calmer n ≡ 0
flags-free xs zero e = refl
flags-free [] (suc n) e = absurd (ground arith)
flags-free (x ∷ xs) (suc n) e = absurd (ground arith)

flags-byte :
    (xs : List ℕ) (n : ℕ)
    → bit_and (flags xs n) 1 == 0 ≡ false
    → bytes xs ≡ first xs % 256 ∷ bytes (rest xs)
flags-byte [] zero e = absurd (ground arith)
flags-byte [] (suc n) e = absurd (ground arith)
flags-byte (x ∷ xs) n e = refl

flags-none : (xs : List ℕ) (n : ℕ) → bit_and (flags xs n) 1 == 0 ≡ true → bytes xs ≡ []
flags-none [] n e = refl
flags-none (x ∷ xs) zero e = absurd (ground arith)
flags-none (x ∷ xs) (suc n) e = absurd (ground arith)

abbrev small_uart-Works : Works small_uart 2
small_uart-Works = record {
  to_read = λ s. bytes s.pending;
  sent = λ s. s.written;
  busy = λ s. s.busy;
  status-to_read = λ s. refl;
  status-sent = λ s. refl;
  status-busy = λ s. calmer-le s.busy;
  shows_busy = λ s e. flags-busy s.pending s.busy e;
  shows_free = λ s e. flags-free s.pending s.busy e;
  shows_byte = λ s e. flags-byte s.pending s.busy e;
  data-sent = λ s. refl;
  data-busy = λ s. omega arith;
  write-sent = λ c s free. rw free refl;
  write-to_read = λ c s. refl;
  write-busy = λ c s. omega arith;
}

abbrev at_start : Line
at_start = record { pending = 0x41 ∷ 0x42 ∷ []; written = []; busy = 0 }

echo_rounds-all_example :
    Returns
      (λ out t. (t.written ≡ [] ++ 0x41 ∷ 0x42 ∷ []) × (bytes t.pending ≡ []))
      (echo_rounds small_uart 3 2 at_start)
echo_rounds-all_example =
    echo_rounds-all small_uart-Works 3 (omega arith) (λ s e. flags-none s.pending s.busy e) 2
      at_start (omega arith) (omega arith)

tx_rounds-hellos_example :
    Returns
      (λ out t. (t.written ≡ [] ++ hellos 2) × (t.busy ≤ 2))
      (tx_rounds small_uart 3 2 at_start)
tx_rounds-hellos_example =
    tx_rounds-hellos small_uart-Works 3 (omega arith) 2 at_start (omega arith)
