-- ===== src/SpiHw.antt =====
-- spi_hw/spi_host/spi_lib.c, the library for the SPI block of the chip: packets of eight bytes,
-- with the status in the third byte of the reply. What reads as in the other libraries is taken
-- from there.
pub mod Program
pub mod Resend
pub mod Values
use ice40_ultraplus_examples.Base.{
  ℕ, ◌+◌, ◌-◌, ◌/◌, ◌%◌, ◌^◌, Bool, true, false, List, [], ◌∷◌, bit_or, ltb, if◌then◌else◌, get_or,
  length, take, drop, is_negative,
}
use ice40_ultraplus_examples.Cmd.{Cmd, exited, pure, ◌>>=◌, ◌>>◌}
use ice40_ultraplus_examples.Ftdi as Ftdi
use ice40_ultraplus_examples.Ftdi.{
  Device, Setup, call, or_fail, is_nonzero, sleep, send_byte, recv_bytes, usb_open_either,
  reset_or_flush, mc_tck_d5, mc_set_clk_div,
}
use ice40_ultraplus_examples.Bus.{Bus, retry}
use ice40_ultraplus_examples.Spi.{has_bit, recv_mask}
use ice40_ultraplus_examples.SpiHost as SpiHost
use ice40_ultraplus_examples.SpiHost.{send_frame}

module _ {S : Type 0} (dev : Device S) where
  abbrev pub recv_byte : (rounds : ℕ) → Cmd S ℕ
  recv_byte = Ftdi.recv_byte dev

  abbrev pub xfer_spi_bits : (rounds byte n : ℕ) → Cmd S ℕ
  xfer_spi_bits = SpiHost.xfer_spi_bits dev

  abbrev pub xfer_spi : (rounds : ℕ) → List ℕ → Cmd S (List ℕ)
  xfer_spi = SpiHost.xfer_spi dev

  -- MC_DATA_OUT | MC_DATA_LSB | MC_DATA_OCN
  unfoldable pub send_spi : List ℕ → Cmd S (Unit {0})
  unfolding send_frame
  send_spi = send_frame dev (bit_or 0x10 (bit_or 0x08 0x01))

  -- MC_DATA_IN | MC_DATA_LSB; the result is the bytes of `data`, as many as it had.
  unfoldable pub read_spi : (rounds : ℕ) → List ℕ → Cmd S (List ℕ)
  read_spi rounds bytes =
      let n = length bytes in
      if ltb n 1 then pure bytes else do
        send_byte dev (bit_or 0x20 0x08)
        send_byte dev ((n - 1) % 256)
        send_byte dev ((n - 1) / 256 % 256)
        recv_bytes dev rounds n

  abbrev pub set_gpio : Bool → Bool → Cmd S (Unit {0})
  set_gpio = Ftdi.set_gpio dev

  abbrev pub flash_release_reset : Cmd S (Unit {0})
  flash_release_reset = set_gpio true true

  abbrev pub sram_reset : Cmd S (Unit {0})
  sram_reset = set_gpio false false

  abbrev pub sram_chip_select : Cmd S (Unit {0})
  sram_chip_select = Ftdi.sram_chip_select dev

  -- A failure to enter the MPSSE mode ends the program.
  unfoldable pub spi_init : Setup S → Cmd S ℕ
  unfolding usb_open_either reset_or_flush
  spi_init setup = do
    rc ← call setup.init
    or_fail (is_nonzero rc) do
      rc ← call setup.set_interface_a
      or_fail (is_nonzero rc) do
        missing ← usb_open_either dev setup
        or_fail missing do
          failed ← reset_or_flush dev setup
          or_fail failed do
            rc ← call setup.get_latency_timer
            or_fail (is_negative rc) do
              rc ← call (setup.set_latency_timer 1)
              or_fail (is_negative rc) do
                rc ← call (setup.set_bitmode_mpsse 0xff)
                if is_negative rc then (λ s. exited 2 s) else do
                  send_byte dev mc_tck_d5
                  send_byte dev mc_set_clk_div
                  send_byte dev 0
                  send_byte dev 0x01
                  sleep dev 100
                  sram_chip_select
                  sleep dev 2000
                  pure 0

abbrev pub max_retries : ℕ
max_retries = 10

-- The test on the third byte of a reply.
unfoldable pub was_received : List ℕ → Bool
was_received to_send = has_bit recv_mask (get_or to_send 2 0)

module _ {S : Type 0} (bus : Bus S) where
  -- One round: `to_send` is filled in again, whatever it held, and transferred.
  unfoldable pub send_again : List ℕ → List ℕ → Cmd S (List ℕ)
  send_again request to_send = bus.xfer request

  -- `send_param` has seven bytes. The result code and the five bytes of `recv_data`.
  unfoldable pub spi_command_send_recv : ℕ → List ℕ → Cmd S (ℕ × List ℕ)
  unfolding send_again
  spi_command_send_recv cmd send_param = do
    let request = cmd ∷ take 7 send_param
    (reply, retries) ← retry (send_again request) was_received max_retries max_retries request 0
    pure (if ltb retries max_retries then 0 else 1, take 5 (drop 3 reply))

  unfoldable pub spi_command_send : ℕ → List ℕ → Cmd S ℕ
  spi_command_send cmd param = do (rc, nop_param) ← spi_command_send_recv cmd param; pure rc

  unfoldable pub spi_command_send_32 : ℕ → ℕ → Cmd S ℕ
  spi_command_send_32 cmd val32b = spi_command_send cmd (
      val32b % 256
      ∷ val32b / 2 ^ 8 % 256
      ∷ val32b / 2 ^ 16 % 256
      ∷ val32b / 2 ^ 24 % 256
      ∷ 0
      ∷ 0
      ∷ 0
      ∷ [])
