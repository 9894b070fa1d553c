-- ===== src/SpiHw/Program.antt =====
-- `main` of spi_hw/spi_host/main.c: a fixed list of commands, over the library beside it.
pub mod Script
use ice40_ultraplus_examples.Base.{ℕ, zero, suc, ◌+◌, ◌*◌, ◌%◌, ◌^◌, List, [], ◌∷◌, ◌++◌}
use ice40_ultraplus_examples.Cmd.{Cmd, done, pure, ◌>>=◌, ◌>>◌}
use ice40_ultraplus_examples.Bus.{Bus, pause}
use ice40_ultraplus_examples.SpiHw.{spi_command_send, spi_command_send_recv, spi_command_send_32}

abbrev pub spi_cmd_init : ℕ
spi_cmd_init = 0x01

abbrev pub send_bit_inv : ℕ
send_bit_inv = 0x02

abbrev pub set_led : ℕ
set_led = 0x04

abbrev pub send_vec : ℕ
send_vec = 0x06

abbrev pub read_vec : ℕ
read_vec = 0x07

-- A parameter: four bytes and three zeros.
abbrev pub four : (a b c d : ℕ) → List ℕ
four a b c d = a ∷ b ∷ c ∷ d ∷ 0 ∷ 0 ∷ 0 ∷ []

abbrev pub init_param : List ℕ
init_param = 0 ∷ 0 ∷ 0 ∷ 0 ∷ 0 ∷ 0 ∷ 0x11 ∷ []

module _ {S : Type 0} (bus : Bus S) where
  -- The five bytes of an answer.
  unfoldable pub fetch_data : ℕ → List ℕ → Cmd S (List ℕ)
  fetch_data cmd param = do (rc, data_read) ← spi_command_send_recv bus cmd param; pure data_read

  -- The loop over the values `(i+1)*0x01020304`, `left` of them from the `i`th on.
  unfoldable pub send_vector : (left i : ℕ) → Cmd S (Unit {0})
  send_vector zero i = pure tt
  send_vector (suc left) i = do
    rc ← spi_command_send_32 bus send_vec (suc i * 0x01020304)
    send_vector left (suc i)

  unfoldable pub read_vector : ℕ → Cmd S (List (List ℕ))
  read_vector zero = pure []
  read_vector (suc left) = do
    data_read ← fetch_data read_vec (four 0 0 0 0)
    more ← read_vector left
    pure (data_read ∷ more)

  -- Behind `spi_init`: the exit status and the answers that are printed.
  unfoldable pub run : Cmd S (ℕ × List (List ℕ))
  run = do
    rc ← spi_command_send bus spi_cmd_init init_param
    inverted ← fetch_data send_bit_inv (four 0x38 0xae 0x3b 0x48)
    yellow ← fetch_data set_led (four 0x3 0 0 0)
    pause bus 2000000
    blue ← fetch_data set_led (four 0x4 0 0 0)
    send_vector 4 0
    pause bus 5000
    vector ← read_vector 4
    pure (0, inverted ∷ yellow ∷ blue ∷ vector)

  unfoldable pub main : (spi_init : Cmd S ℕ) → Cmd S (ℕ × List (List ℕ))
  main spi_init = do ignored ← spi_init; run
