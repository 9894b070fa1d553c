-- ===== src/Loader/Program.antt =====
-- `main` of comet2/host_server/comet2_spi_loader.c.
pub mod Ends
pub mod Finishes
pub mod Whole
use ice40_ultraplus_examples.Base.{ℕ, Bool, false, List, [], replicate, if◌then◌else◌, ℤ, equals}
use ice40_ultraplus_examples.Cmd.{Cmd}
use ice40_ultraplus_examples.Bus.{Bus, Heap}
use ice40_ultraplus_examples.Firmware.{Files}
use ice40_ultraplus_examples.Options.{RunOptions, loader_parse_args}
use ice40_ultraplus_examples.Startup.{mode_of, new_source, start_up}
use ice40_ultraplus_examples.Loader.{
  rx_buffer_size, RxCapture, Io, load_and_start_comet_firmware, run_io_loop,
}
use ice40_ultraplus_examples.Loader.Summary.{Item, print_capture_summary}
use ice40_ultraplus_examples.Terminal as Terminal
use ice40_ultraplus_examples.Terminal.{Tty, Process}

-- `memset(&capture, 0, sizeof(capture))`
abbrev pub cleared : RxCapture
cleared = record { data_bytes = replicate rx_buffer_size 0; used = 0; dropped = 0 }

-- The exit status and, if all went well, the summary.
unfoldable pub report : ℤ × Io → ℕ × List Item
report out = if equals out.0 0 then (0, print_capture_summary out.1.capture) else (1, [])

module _ {S T Attrs : Type 0} (tty : Tty T Attrs) where
  abbrev pub restore_terminal : Process S T Attrs → Process S T Attrs
  restore_terminal = Terminal.restore_terminal tty

  abbrev pub sig_cleanup : Process S T Attrs → ℕ × Process S T Attrs
  sig_cleanup = Terminal.sig_cleanup tty 1

  abbrev pub setup_raw_mode : Process S T Attrs → Process S T Attrs
  setup_raw_mode = Terminal.setup_raw_mode tty false

module _ {S T Attrs : Type 0} (tty : Tty T Attrs) (bus : Bus S) (heap : Heap S) (files : Files S)
    (now_ms : S → ℕ × S) (spi_init : Cmd S ℕ) (strtoul : List ℕ → ℕ × Bool)
    (past burst_fuel fuel : ℕ) (line keys : List ℕ) where
  abbrev pub load : RunOptions → Cmd S ℤ
  load opts =
      load_and_start_comet_firmware bus heap files past burst_fuel (mode_of opts) opts.firmware_path

  -- `line` is what stands in the line buffer, which is not cleared, and `keys` is stdin.
  abbrev pub loop : RunOptions → (raw_mode : Bool) → Cmd S (ℤ × Io)
  loop opts raw_mode =
      run_io_loop bus now_ms opts.idle_timeout_ms fuel
        (record { capture = cleared; src = new_source line keys opts raw_mode })

  unfoldable pub main : List (ℕ × List ℕ) → (left : Bool) → Cmd (Process S T Attrs) (ℕ × List Item)
  main given left =
      let (rc, opts) = loader_parse_args strtoul given left in
      start_up tty false spi_init load loop report [] rc opts
