-- ===== src/Uart.antt =====
-- riscv/host_server/firmware/uart_echo.c and uart_tx_test.c, over the three registers of the UART.
pub mod Echo
use ice40_ultraplus_examples.Base.{ℕ, zero, suc, ◌%◌, List, [], ◌∷◌, ◌==◌, bit_and, if◌then◌else◌}
use ice40_ultraplus_examples.Cmd.{Cmd, done, polling, pure, ◌>>=◌, ◌>>◌}

-- The words at UART_BASE + 0 and + 4 are read, that at UART_BASE + 8 is written.
pub record Uart (S : Type 0) : Type 0 where
  pub read_status : S → ℕ × S
  pub read_data : S → ℕ × S
  pub write_data : ℕ → S → S

module _ {S : Type 0} (uart : Uart S) where
  abbrev pub uart_status : Cmd S ℕ
  uart_status s = let (word, t) = uart.read_status s in done word t

  unfoldable pub uart_read_byte : Cmd S ℕ
  uart_read_byte s = let (word, t) = uart.read_data s in done (word % 256) t

  unfoldable pub uart_write_byte : ℕ → Cmd S (Unit {0})
  uart_write_byte value s = done tt (uart.write_data (value % 256) s)

  -- The wait for the transmitter; `rounds` bounds it.
  unfoldable pub wait_sent : (rounds : ℕ) → Cmd S (Unit {0})
  wait_sent zero = λ s. polling
  wait_sent (suc rounds) = do
    status ← uart_status
    let again = wait_sent rounds
    if bit_and status 2 == 0 then pure tt else again

  module _ (rounds : ℕ) where
    -- One round of the loop of uart_echo.c.
    unfoldable pub echo_round : Cmd S (Unit {0})
    echo_round = do
      status ← uart_status
      if bit_and status 1 == 0
          then pure tt
          else (do ch ← uart_read_byte; wait_sent rounds; uart_write_byte ch)

    unfoldable pub echo_rounds : ℕ → Cmd S (Unit {0})
    echo_rounds zero = pure tt
    echo_rounds (suc n) = do echo_round; echo_rounds n

    -- The characters in front of the NUL.
    unfoldable pub uart_write_string : List ℕ → Cmd S (Unit {0})
    uart_write_string [] = pure tt
    uart_write_string (c ∷ cs) = do wait_sent rounds; uart_write_byte c; uart_write_string cs

    -- One round of the loop of uart_tx_test.c: "HELLO\r\n", and a delay without effect.
    unfoldable pub tx_round : Cmd S (Unit {0})
    tx_round = uart_write_string (0x48 ∷ 0x45 ∷ 0x4c ∷ 0x4c ∷ 0x4f ∷ 0x0d ∷ 0x0a ∷ [])

    unfoldable pub tx_rounds : ℕ → Cmd S (Unit {0})
    tx_rounds zero = pure tt
    tx_rounds (suc n) = do tx_round; tx_rounds n
