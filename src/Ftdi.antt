-- ===== src/Ftdi.antt =====
-- The FTDI layer of comet2/host_server/spi_lib.c: bytes to and from the MPSSE engine, one full
-- duplex SPI transfer, the GPIO pins and the setup of the device. libftdi and `usleep` are the
-- parameter `Device`; `rounds` bounds the polls that `recv_byte` makes for one byte.
pub mod Engine
pub mod Transfer
pub mod Port
use ice40_ultraplus_examples.Base.{
  ℕ, zero, suc, ◌+◌, ◌-◌, ◌/◌, ◌%◌, Bool, true, false, List, [], ◌∷◌, not, ◌&&◌, ◌||◌, bit_or, ltb,
  if◌then◌else◌, length, ℤ, equals, is_negative,
}
use ice40_ultraplus_examples.Cmd.{Cmd, done, exited, polling, pure, ◌>>=◌, ◌>>◌}

-- A call returns its result code beside the new state. `read_data` asks for one byte.
pub record Device (S : Type 0) : Type 0 where
  pub write_data : List ℕ → S → ℤ × S
  pub read_data : S → ℤ × ℕ × S
  pub usleep : ℕ → S → S

-- The setup calls of libftdi.
pub record Setup (S : Type 0) : Type 0 where
  pub init : S → ℤ × S
  pub set_interface_a : S → ℤ × S
  pub usb_open : (vendor product : ℕ) → S → ℤ × S
  pub usb_reset : S → ℤ × S
  pub tcioflush : S → ℤ × S
  pub get_latency_timer : S → ℤ × S
  pub set_latency_timer : ℕ → S → ℤ × S
  pub set_bitmode_mpsse : ℕ → S → ℤ × S

-- `enum mpsse_cmd` and the `MC_DATA_` flags that are used.
abbrev pub mc_setb_low : ℕ
mc_setb_low = 0x80

abbrev pub mc_set_clk_div : ℕ
mc_set_clk_div = 0x86

abbrev pub mc_flush : ℕ
mc_flush = 0x87

abbrev pub mc_tck_d5 : ℕ
mc_tck_d5 = 0x8b

-- MC_DATA_IN | MC_DATA_OUT | MC_DATA_LSB | MC_DATA_OCN
abbrev pub mc_exchange_bytes : ℕ
mc_exchange_bytes = bit_or 0x20 (bit_or 0x10 (bit_or 0x08 0x01))

-- MC_DATA_IN | MC_DATA_OUT | MC_DATA_BITS | MC_DATA_LSB
abbrev pub mc_exchange_bits : ℕ
mc_exchange_bits = bit_or 0x20 (bit_or 0x10 (bit_or 0x02 0x08))

module _ {S : Type 0} (dev : Device S) where
  unfoldable pub send_byte : ℕ → Cmd S (Unit {0})
  send_byte b s =
      let (rc, t) = dev.write_data (b ∷ []) s in if equals rc 1 then done tt t else exited 2 t

  -- `ftdi_write_data(&ftdic, data, n) != n`
  unfoldable pub write_chunk : List ℕ → Cmd S (Unit {0})
  write_chunk bytes s =
      let (rc, t) = dev.write_data bytes s in
      if equals rc (length bytes) then done tt t else exited 2 t

  -- `usleep` as a command.
  abbrev pub sleep : ℕ → Cmd S (Unit {0})
  sleep n s = done tt (dev.usleep n s)

  unfoldable pub recv_byte : (rounds : ℕ) → Cmd S ℕ
  recv_byte zero s = polling
  recv_byte (suc k) s =
      let (rc, b, t) = dev.read_data s in
      let again = recv_byte k (dev.usleep 100 t) in
      if is_negative rc then exited 2 t else if equals rc 1 then done b t else again

  module _ (rounds : ℕ) where
    -- `for (int i = 0; i < n; i++) data[i] = recv_byte();`
    unfoldable pub recv_bytes : ℕ → Cmd S (List ℕ)
    recv_bytes zero = pure []
    recv_bytes (suc n) = do b ← recv_byte rounds; bs ← recv_bytes n; pure (b ∷ bs)

    -- `n` is the number of bytes in `data`.
    unfoldable pub xfer_spi : List ℕ → Cmd S (List ℕ)
    xfer_spi bytes =
        let n = length bytes in
        if ltb n 1 then pure bytes else do
          send_byte mc_exchange_bytes
          send_byte ((n - 1) % 256)
          send_byte ((n - 1) / 256 % 256)
          write_chunk bytes
          send_byte mc_flush
          recv_bytes n

    unfoldable pub xfer_spi_bits : ℕ → ℕ → Cmd S ℕ
    xfer_spi_bits byte n = if ltb n 1 then pure 0 else do
      send_byte mc_exchange_bits
      send_byte ((n - 1) % 256)
      send_byte byte
      send_byte mc_flush
      recv_byte rounds

  unfoldable pub set_gpio : Bool → Bool → Cmd S (Unit {0})
  set_gpio slavesel_b creset_b = do
    let select = if slavesel_b then bit_or 0 0x10 else 0
    let gpio = if creset_b then bit_or select 0x80 else select
    send_byte mc_setb_low
    send_byte gpio
    send_byte 0x93

  unfoldable pub sram_chip_select : Cmd S (Unit {0})
  sram_chip_select = set_gpio false true

-- A setup call whose result decides whether `spi_init` goes on.
abbrev pub call : {S : Type 0} → (S → ℤ × S) → Cmd S ℤ
call f s = let (rc, t) = f s in done rc t

-- `if (failed) return 1;`
abbrev pub or_fail : {S : Type 0} → Bool → Cmd S ℕ → Cmd S ℕ
or_fail failed rest = if failed then pure 1 else rest

abbrev pub is_nonzero : ℤ → Bool
is_nonzero rc = not (equals rc 0)

module _ {S : Type 0} (dev : Device S) (setup : Setup S) where
  -- `a(..) && b(..)`: the second device is tried only if the first did not open.
  unfoldable pub usb_open_either : Cmd S Bool
  usb_open_either = do
    first ← call (setup.usb_open 0x0403 0x6010)
    if is_nonzero first
        then (do second ← call (setup.usb_open 0x0403 0x6014); pure (is_nonzero second))
        else pure false

  -- `a(..) || b(..)`
  unfoldable pub reset_or_flush : Cmd S Bool
  reset_or_flush = do
    first ← call setup.usb_reset
    if is_nonzero first
        then pure true
        else (do second ← call setup.tcioflush; pure (is_nonzero second))

  unfoldable pub spi_init : Cmd S ℕ
  unfolding usb_open_either reset_or_flush
  spi_init = do
    rc ← call setup.init
    or_fail (is_nonzero rc) do
      rc ← call setup.set_interface_a
      or_fail (is_nonzero rc) do
        missing ← usb_open_either
        or_fail missing do
          failed ← reset_or_flush
          or_fail failed do
            rc ← call setup.get_latency_timer
            or_fail (is_negative rc) do
              rc ← call (setup.set_latency_timer 1)
              or_fail (is_negative rc) do
                rc ← call (setup.set_bitmode_mpsse 0xff)
                or_fail (is_negative rc) do
                  send_byte dev mc_tck_d5
                  send_byte dev mc_set_clk_div
                  send_byte dev 0
                  send_byte dev 0x01
                  sleep dev 100
                  sram_chip_select dev
                  sleep dev 2000
                  pure 0
