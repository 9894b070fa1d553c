-- ===== src/Run/Program/Whole.antt =====
-- comet2_spi_run from its start to its end: the load, the loop and the return.
use ice40_ultraplus_examples.Base.{ℕ, ◌<◌, ◌≤◌, ◌≡◌, Bool, false, some, List, length, ℤ, pos}
use ice40_ultraplus_examples.Cmd.{Cmd, done}
use ice40_ultraplus_examples.Cmd.Returns
use ice40_ultraplus_examples.Cmd.Returns.{Returns, returns}
use ice40_ultraplus_examples.Bus.{Bus, Heap}
use ice40_ultraplus_examples.Firmware.{Files, read_firmware_file}
use ice40_ultraplus_examples.Firmware.Image.{IsImage}
use ice40_ultraplus_examples.Firmware.Wire.{Takes}
use ice40_ultraplus_examples.Input.{Source}
use ice40_ultraplus_examples.Options.{RunOptions, parse_args}
use ice40_ultraplus_examples.Run.Console.{Console}
use ice40_ultraplus_examples.Run.Program.Finishes.{first_source}
use ice40_ultraplus_examples.Terminal.{Tty, Process}
use ice40_ultraplus_examples.Terminal.Restored.{Works}

module _ {S T Attrs : Type 0} {tty : Tty T Attrs} (works : Works tty) {bus : Bus S} {heap : Heap S}
    (files : Files S) {now_ms : S → ℕ × S} {select_stdin : ℕ → S → ℤ × S} {Ready : S → Type 0}
    (console : Console bus now_ms select_stdin Ready) {shifted : S → List ℕ}
    (takes : Takes bus heap Ready shifted)
    (answers-malloc : (n : ℕ) (s : S)
      → console.slave.answers (heap.malloc n s).1 ≤ console.slave.answers s)
    (answers-free : (s : S) → console.slave.answers (heap.free s) ≤ console.slave.answers s)
    (spi_init : Cmd S ℕ) (strtoul : List ℕ → ℕ × Bool) (past burst_fuel fuel : ℕ)
    (line keys : List ℕ) where
  open console use {slave}
  open slave use {answers}
  open works use {attrs}

  -- The command line is accepted, `spi_init` returns 0, and the image is read.
  pub record Given (given : List (ℕ × List ℕ)) (p : Process S T Attrs) (opts : RunOptions)
      (firmware : List ℕ) (s r : S) : Type 0 where
    pub parsed : parse_args strtoul given false ≡ (pos 0, opts)
    pub cooked : p.guard.raw_mode ≡ false
    pub found : spi_init p.world ≡ done 0 s
    pub image : read_firmware_file heap files opts.firmware_path s ≡ done (some firmware) r
    pub ready : Ready r
    pub well : IsImage firmware
    pub short : length firmware < burst_fuel

  -- The source that the loop starts from.
  abbrev pub source_of : RunOptions → Process S T Attrs → S → Source
  source_of opts p s =
      first_source works heap files console spi_init strtoul past burst_fuel fuel line keys opts
        (record p { world = s })
