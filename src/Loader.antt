-- ===== src/Loader.antt =====
-- comet2/host_server/comet2_spi_loader.c: the loader, and the loop that captures what the started
-- program sends. The functions that read as in comet2_spi_run.c are taken from there.
pub mod Capture
pub mod Budget
pub mod Slave
pub mod Settled
pub mod Packets
pub mod Loop
pub mod Summary
pub mod Program
use ice40_ultraplus_examples.Base.{
  ℕ, zero, suc, ◌+◌, ◌%◌, Bool, true, false, Option, List, [], not, ltb, ◌==◌, if◌then◌else◌, set,
  ℤ, pos, negsuc, equals,
}
use ice40_ultraplus_examples.Cmd.{Cmd, done, polling, pure, ◌>>=◌}
use ice40_ultraplus_examples.Bus.{Bus, Heap}
use ice40_ultraplus_examples.Spi.{Bytes3, spi_send, spi_read}
use ice40_ultraplus_examples.Firmware as Firmware
use ice40_ultraplus_examples.Firmware.{Files, DrainReport}
use ice40_ultraplus_examples.Firmware.Load as Load
use ice40_ultraplus_examples.Firmware.Load.{Mode}
use ice40_ultraplus_examples.Input as Input
use ice40_ultraplus_examples.Input.{Source, input_source_next}

module _ {S : Type 0} (bus : Bus S) (heap : Heap S) (files : Files S) where
  abbrev pub read_firmware_file : List ℕ → Cmd S (Option (List ℕ))
  read_firmware_file = Firmware.read_firmware_file heap files

  abbrev pub drain_spi_output_until_quiet : ℕ → ℕ → Cmd S DrainReport
  drain_spi_output_until_quiet = Firmware.drain_spi_output_until_quiet bus

  abbrev pub send_firmware_legacy : (past : ℕ) → List ℕ → ℕ → Cmd S (ℤ × ℕ)
  send_firmware_legacy = Firmware.send_firmware_legacy bus

  abbrev pub send_firmware_burst : (fuel : ℕ) → List ℕ → ℕ → Cmd S (ℤ × ℕ)
  send_firmware_burst = Firmware.send_firmware_burst bus heap

  abbrev pub load_and_start_comet_firmware : (past fuel : ℕ) → Mode → List ℕ → Cmd S ℤ
  load_and_start_comet_firmware = Load.load_and_start_comet_firmware bus heap files

-- Without the test for Ctrl-C that comet2_spi_run.c has.
abbrev pub refill_interactive_line : Source → Source × ℤ
refill_interactive_line = Input.refill_interactive_line false

-- COMET_CMD_IN_CHAR, COMET_CMD_IN_REQUEST and COMET_RSP_OUT_CHAR
abbrev pub cmd_in_char : ℕ
cmd_in_char = 0x10

abbrev pub cmd_in_request : ℕ
cmd_in_request = 0x30

abbrev pub rsp_out_char : ℕ
rsp_out_char = 0x20

abbrev pub rx_buffer_size : ℕ
rx_buffer_size = 256

pub record RxCapture : Type 0 where
  pub data_bytes : List ℕ
  pub used : ℕ
  pub dropped : ℕ

unfoldable pub rx_capture_push : RxCapture → ℕ → RxCapture
rx_capture_push capture ch =
    if ltb capture.used rx_buffer_size
    then record capture {
      data_bytes = set capture.data_bytes capture.used ch;
      used = capture.used + 1;
    }
    else record capture { dropped = capture.dropped + 1 }

-- What the loop works on: the capture and the source of characters.
pub record Io : Type 0 where
  pub capture : RxCapture
  pub src : Source

module _ {S : Type 0} (bus : Bus S) where
  unfoldable pub comet_send_in_char : ℕ → Cmd S ℕ
  comet_send_in_char ch = do
    (rc, status) ← spi_send bus cmd_in_char (cmd_in_char, ch, 0x00)
    pure rc

  -- The result code and `packet`.
  unfoldable pub comet_read_packet : Cmd S (ℤ × Bytes3)
  comet_read_packet = do
    (found, packet, status) ← spi_read bus
    pure (if found == 0 then negsuc 0 else pos 0, packet)

  -- The character for an IN_REQUEST, or -1: the result code of sending it, 0 if none is sent.
  unfoldable pub send_next : ℤ → Cmd S ℕ
  send_next (negsuc n) = pure 0
  send_next (pos ch) = comet_send_in_char (ch % 256)

  -- What the loop does with a packet; the flag tells whether the loop goes on.
  unfoldable pub take_packet : Bytes3 → Io → Cmd S (Bool × Io)
  take_packet packet io =
      if packet.0 == rsp_out_char
      then pure (true, record io { capture = rx_capture_push io.capture packet.1 })
      else if packet.0 == cmd_in_request
      then (let next = input_source_next io.src in
          do rc ← send_next next.1; pure (rc == 0, record io { src = next.0 }))
      else pure (true, io)

  -- `now_ms` is a parameter. `fuel` bounds the rounds.
  module _ (now_ms : S → ℕ × S) (idle_timeout_ms : ℕ) where
    abbrev pub now : Cmd S ℕ
    now s = let (ms, t) = now_ms s in done ms t

    unfoldable pub io_loop : (fuel deadline : ℕ) → Io → Cmd S (ℤ × Io)
    io_loop zero deadline io = λ s. polling
    io_loop (suc fuel) deadline io = do
      ms ← now
      let again = io_loop fuel
      if not (ltb ms deadline) then pure (pos 0, io) else (do
        (rc, packet) ← comet_read_packet
        if not (equals rc 0) then again deadline io else (do
          later ← now
          (sent, io') ← take_packet packet io
          if sent then again (later + idle_timeout_ms) io' else pure (negsuc 0, io')))

    unfoldable pub run_io_loop : (fuel : ℕ) → Io → Cmd S (ℤ × Io)
    run_io_loop fuel io = do ms ← now; io_loop fuel (ms + idle_timeout_ms) io
