-- ===== src/SpiHost.antt =====
-- spi/spi_host/spi_lib.c, the older SPI library: no flush byte behind a transfer, and up to 1000
-- polls for an answer. What reads as in comet2/host_server/spi_lib.c is taken from there.
pub mod Keeps
pub mod Program
pub mod Read
use ice40_ultraplus_examples.Base.{
  ℕ, ◌+◌, ◌-◌, ◌/◌, ◌%◌, Bool, true, false, List, [], ◌∷◌, bit_or, ltb, if◌then◌else◌, get_or,
  length,
}
use ice40_ultraplus_examples.Cmd.{Cmd, pure, ◌>>=◌, ◌>>◌}
use ice40_ultraplus_examples.Ftdi as Ftdi
use ice40_ultraplus_examples.Ftdi.{
  Device, Setup, mc_exchange_bytes, mc_exchange_bits, send_byte, write_chunk, recv_bytes,
}
use ice40_ultraplus_examples.Bus.{Bus, retry}
use ice40_ultraplus_examples.Spi as Spi
use ice40_ultraplus_examples.Spi.{Bytes3, has_answer, nop_command, poll}

module _ {S : Type 0} (dev : Device S) where
  abbrev pub recv_byte : (rounds : ℕ) → Cmd S ℕ
  recv_byte = Ftdi.recv_byte dev

  -- `mode` is the byte of the MC_DATA_ flags; nothing is received.
  unfoldable pub send_frame : (mode : ℕ) → List ℕ → Cmd S (Unit {0})
  send_frame mode bytes =
      let n = length bytes in
      if ltb n 1 then pure tt else do
        send_byte dev mode
        send_byte dev ((n - 1) % 256)
        send_byte dev ((n - 1) / 256 % 256)
        write_chunk dev bytes

  -- MC_DATA_OUT | MC_DATA_LSB
  unfoldable pub send_spi : List ℕ → Cmd S (Unit {0})
  unfolding send_frame
  send_spi = send_frame (bit_or 0x10 0x08)

  unfoldable pub xfer_spi_bits : (rounds byte n : ℕ) → Cmd S ℕ
  xfer_spi_bits rounds byte n = if ltb n 1 then pure 0 else do
    send_byte dev mc_exchange_bits
    send_byte dev ((n - 1) % 256)
    send_byte dev byte
    recv_byte rounds

  unfoldable pub xfer_spi : (rounds : ℕ) → List ℕ → Cmd S (List ℕ)
  xfer_spi rounds bytes =
      let n = length bytes in
      if ltb n 1 then pure bytes else do
        send_byte dev mc_exchange_bytes
        send_byte dev ((n - 1) % 256)
        send_byte dev ((n - 1) / 256 % 256)
        write_chunk dev bytes
        recv_bytes dev rounds n

  abbrev pub set_gpio : Bool → Bool → Cmd S (Unit {0})
  set_gpio = Ftdi.set_gpio dev

  abbrev pub flash_release_reset : Cmd S (Unit {0})
  flash_release_reset = set_gpio true true

  abbrev pub sram_reset : Cmd S (Unit {0})
  sram_reset = set_gpio false false

  abbrev pub sram_chip_select : Cmd S (Unit {0})
  sram_chip_select = Ftdi.sram_chip_select dev

  -- The same calls, with the same results.
  abbrev pub spi_init : Setup S → Cmd S ℕ
  spi_init = Ftdi.spi_init dev

abbrev pub read_limit : ℕ
read_limit = 1000

module _ {S : Type 0} (bus : Bus S) where
  abbrev pub spi_send : ℕ → Bytes3 → Cmd S (ℕ × ℕ)
  spi_send = Spi.spi_send bus

  abbrev pub spi_send3 : ℕ → ℕ → ℕ → ℕ → Cmd S (ℕ × ℕ)
  spi_send3 = Spi.spi_send3 bus

  abbrev pub spi_send24b : ℕ → ℕ → Cmd S (ℕ × ℕ)
  spi_send24b = Spi.spi_send24b bus

  -- The result code (1 if an answer came), `val` and `*status`.
  unfoldable pub spi_read : Cmd S (ℕ × Bytes3 × ℕ)
  unfolding poll
  spi_read = do
    (reply, retries) ← retry (poll bus) has_answer read_limit read_limit nop_command 0
    pure (
      if ltb retries read_limit then 1 else 0,
      (get_or reply 1 0, get_or reply 2 0, get_or reply 3 0),
      get_or reply 0 0,
    )
