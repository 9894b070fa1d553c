-- ===== src/SpiHost/Program.antt =====
-- `main` of spi/spi_host/main.c: a fixed list of commands, over the library beside it.
pub mod Returned
use ice40_ultraplus_examples.Base.{ℕ, zero, suc, ◌*◌, List, [], ◌∷◌}
use ice40_ultraplus_examples.Cmd.{Cmd, done, pure, ◌>>=◌, ◌>>◌}
use ice40_ultraplus_examples.Bus.{Bus, pause}
use ice40_ultraplus_examples.Spi.{Bytes3}
use ice40_ultraplus_examples.SpiHost.{spi_send, spi_send24b, spi_read}

abbrev pub spi_cmd_init : ℕ
spi_cmd_init = 0x01

abbrev pub send_bit_inv : ℕ
send_bit_inv = 0x02

abbrev pub read_req_bit_inv : ℕ
read_req_bit_inv = 0x03

abbrev pub set_led : ℕ
set_led = 0x04

abbrev pub read_req_led : ℕ
read_req_led = 0x05

abbrev pub send_vec : ℕ
send_vec = 0x06

abbrev pub read_vec : ℕ
read_vec = 0x07

module _ {S : Type 0} (bus : Bus S) where
  -- `data_read` and the status.
  unfoldable pub read_pair : Cmd S (Bytes3 × ℕ)
  read_pair = do (rc, data_read, status) ← spi_read bus; pure (data_read, status)

  -- The loop over the values `(i+1)*16`, `left` of them from the `i`th on.
  unfoldable pub send_vector : (left i : ℕ) → Cmd S (Unit {0})
  send_vector zero i = pure tt
  send_vector (suc left) i = do
    sent ← spi_send24b bus send_vec (suc i * 16)
    send_vector left (suc i)

  unfoldable pub read_vector : ℕ → Cmd S (List (Bytes3 × ℕ))
  read_vector zero = pure []
  read_vector (suc left) = do pair ← read_pair; more ← read_vector left; pure (pair ∷ more)

  -- Behind `spi_init`: the exit status, and what was read.
  unfoldable pub run : Cmd S (ℕ × List (Bytes3 × ℕ))
  run = do
    begun ← spi_send bus spi_cmd_init (0, 0, 0)
    sent ← spi_send bus send_bit_inv (0x38, 0xae, 0x3b)
    asked ← spi_send bus read_req_bit_inv (0, 0, 0)
    inverted ← read_pair
    yellow ← spi_send bus set_led (0, 0, 3)
    asked_led ← spi_send bus read_req_led (0, 0, 0)
    led ← read_pair
    pause bus 2000000
    blue ← spi_send bus set_led (0, 0, 4)
    send_vector 4 0
    pause bus 1000
    asked_vec ← spi_send bus read_vec (0, 0, 0)
    vector ← read_vector 4
    pure (0, inverted ∷ led ∷ vector)

  unfoldable pub main : (spi_init : Cmd S ℕ) → Cmd S (ℕ × List (Bytes3 × ℕ))
  main spi_init = do ignored ← spi_init; run
