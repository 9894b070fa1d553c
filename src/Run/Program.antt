-- ===== src/Run/Program.antt =====
-- `main` of comet2/host_server/comet2_spi_run.c, over the firmware loader and the loop.
pub mod Ends
pub mod Finishes
pub mod Whole
use ice40_ultraplus_examples.Base.{ℕ, Bool, true, List, [], ◌∷◌, ◌++◌, if◌then◌else◌, ℤ, equals}
use ice40_ultraplus_examples.Cmd.{Cmd}
use ice40_ultraplus_examples.Bus.{Bus, Heap}
use ice40_ultraplus_examples.Firmware.{Files}
use ice40_ultraplus_examples.Firmware.Load.{load_and_start_comet_firmware}
use ice40_ultraplus_examples.Input.{Source, newline}
use ice40_ultraplus_examples.Options.{RunOptions, parse_args}
use ice40_ultraplus_examples.Startup.{mode_of, new_source, start_up}
use ice40_ultraplus_examples.Run.{run_io_loop}
use ice40_ultraplus_examples.Terminal.{Tty, Process}

-- The exit status, and the output behind the load: a newline ends it if all went well.
unfoldable pub report : ℤ × Source → ℕ × List ℕ
report out = if equals out.0 0 then (0, out.1.echoed ++ newline ∷ []) else (1, out.1.echoed)

module _ {S T Attrs : Type 0} (tty : Tty T Attrs) (bus : Bus S) (heap : Heap S) (files : Files S)
    (now_ms : S → ℕ × S) (select_stdin : ℕ → S → ℤ × S) (spi_init : Cmd S ℕ)
    (strtoul : List ℕ → ℕ × Bool) (past burst_fuel fuel : ℕ) (line keys : List ℕ) where
  abbrev pub load : RunOptions → Cmd S ℤ
  load opts =
      load_and_start_comet_firmware bus heap files past burst_fuel (mode_of opts) opts.firmware_path

  -- `line` is what stands in the line buffer, which is not cleared, and `keys` is stdin.
  abbrev pub loop : RunOptions → (raw_mode : Bool) → Cmd S (ℤ × Source)
  loop opts raw_mode =
      run_io_loop bus now_ms select_stdin opts.idle_timeout_ms opts.eof_drain_ms fuel
        (new_source line keys opts raw_mode)

  unfoldable pub main : List (ℕ × List ℕ) → (left : Bool) → Cmd (Process S T Attrs) (ℕ × List ℕ)
  main given left =
      let (rc, opts) = parse_args strtoul given left in
      start_up tty true spi_init load loop report [] rc opts
