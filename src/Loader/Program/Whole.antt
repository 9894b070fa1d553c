-- ===== src/Loader/Program/Whole.antt =====
-- comet2_spi_loader from its start to its end: the load, the capture and the return.
use native.Mathlib.Nat.{mul-le-mul_left}
use ice40_ultraplus_examples.Base.{
  ℕ, ◌+◌, ◌*◌, ◌<◌, ◌≤◌, ◌≡◌, ap, ◌∙◌, Bool, false, some, List, length, pos, arith,
}
use ice40_ultraplus_examples.Cmd.{Cmd, done}
use ice40_ultraplus_examples.Cmd.Returns
use ice40_ultraplus_examples.Cmd.Returns.{Returns}
use ice40_ultraplus_examples.Bus.{Bus, Heap}
use ice40_ultraplus_examples.Firmware.{Files, read_firmware_file}
use ice40_ultraplus_examples.Firmware.Image.{IsImage}
use ice40_ultraplus_examples.Firmware.Wire.{Takes}
use ice40_ultraplus_examples.Options.{RunOptions, loader_parse_args}
use ice40_ultraplus_examples.Startup.{mode_of}
use ice40_ultraplus_examples.Terminal.{Tty, Process}
use ice40_ultraplus_examples.Terminal.Restored.{Works}
use ice40_ultraplus_examples.Loader.{Io}
use ice40_ultraplus_examples.Loader.Slave.{Slave}
use ice40_ultraplus_examples.Loader.Settled.{Loaded, load-LoadsTo}
use ice40_ultraplus_examples.Loader.Program.{main}
use ice40_ultraplus_examples.Loader.Program.Finishes.{Finished, first_io, loader_main-Finished}

module _ {S T Attrs : Type 0} {tty : Tty T Attrs} (works : Works tty) {bus : Bus S} {heap : Heap S}
    (files : Files S) {now_ms : S → ℕ × S} {Ready : S → Type 0} (slave : Slave bus now_ms Ready)
    {shifted : S → List ℕ} (takes : Takes bus heap Ready shifted)
    (answers-malloc : (n : ℕ) (s : S) → slave.answers (heap.malloc n s).1 ≤ slave.answers s)
    (answers-free : (s : S) → slave.answers (heap.free s) ≤ slave.answers s) (spi_init : Cmd S ℕ)
    (strtoul : List ℕ → ℕ × Bool) (past burst_fuel fuel : ℕ) (line keys : List ℕ) where
  open slave use {answers}
  open works use {attrs}

  -- The command line is accepted, `spi_init` returns 0, and the image is read.
  pub record Given (given : List (ℕ × List ℕ)) (p : Process S T Attrs) (opts : RunOptions)
      (firmware : List ℕ) (s r : S) : Type 0 where
    pub parsed : loader_parse_args strtoul given false ≡ (pos 0, opts)
    pub cooked : p.guard.raw_mode ≡ false
    pub found : spi_init p.world ≡ done 0 s
    pub image : read_firmware_file heap files opts.firmware_path s ≡ done (some firmware) r
    pub ready : Ready r
    pub well : IsImage firmware
    pub short : length firmware < burst_fuel

  -- What the loop starts from.
  abbrev pub io_of : RunOptions → Process S T Attrs → S → Io
  io_of opts p s =
      first_io works heap files slave spi_init strtoul past burst_fuel fuel line keys opts
        (record p { world = s })

  -- With a slave that takes every packet and has only so many answers to give, and a terminal that
  -- keeps its promises and is not in raw mode: if the command line is accepted, `spi_init` returns 0
  -- and the image is read, then `main` returns, within enough rounds for the idle time, for each
  -- answer and once more. Behind the drain the load shifted out exactly SPI_INIT, the packets of the
  -- image and SPI_START_CPU, in this order, and the loop started from there. `main` returns 0 with
  -- the summary of the bytes that the loop heard, or 1 without a summary. The terminal has the
  -- attributes that it had at first, and raw mode is off.
  pub loader_main-loads_and_finishes :
      (given : List (ℕ × List ℕ)) (opts : RunOptions) (p : Process S T Attrs) (firmware : List ℕ)
      (s r : S)
      → Given given p opts firmware s r
      → answers r * (opts.idle_timeout_ms * 1000 + 1) + opts.idle_timeout_ms * 1000 < fuel
      → Returns
          (λ out q.
            (t : S) × Loaded shifted firmware r t
            × Finished works heap files slave spi_init strtoul past burst_fuel fuel line keys
                (attrs p.terminal)
                opts
                (io_of opts p s)
                t
                out
                q)
          (main tty bus heap files now_ms spi_init strtoul past burst_fuel fuel line keys given
            false p)
  loader_main-loads_and_finishes given opts p firmware s r g enough =
      let (rc, t, e, loads) = Returns.value (
        load-LoadsTo slave takes answers-malloc answers-free files past burst_fuel (mode_of opts)
          opts.firmware_path firmware s r g.image g.ready g.well g.short) in
      Returns.weaken
        (loader_main-Finished works heap files slave spi_init strtoul past burst_fuel fuel line keys
          given opts p s t
          (record {
            parsed = g.parsed;
            cooked = g.cooked;
            found = g.found;
            loaded = e ∙ ap (λ c. done c t) loads.succeeded;
            ready = loads.ready;
          })
          (omega (arith, mul-le-mul_left (opts.idle_timeout_ms * 1000 + 1) loads.few, enough)))
        λ out q finished. (t, loads.wire, finished)
