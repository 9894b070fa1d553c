-- ===== src/Loader/Program/Ends.antt =====
-- However `main` of comet2_spi_loader.c ends, the terminal gets its attributes back.
use ice40_ultraplus_examples.Base.{ℕ, ◌≡◌, Bool, false, List, []}
use ice40_ultraplus_examples.Cmd.{Cmd}
use ice40_ultraplus_examples.Bus.{Bus, Heap}
use ice40_ultraplus_examples.Firmware.{Files}
use ice40_ultraplus_examples.Options.{loader_parse_args}
use ice40_ultraplus_examples.Terminal.{Tty, Process, ended}
use ice40_ultraplus_examples.Terminal.Restored.{Works, Restored, AllEnded, ended-Restored}
use ice40_ultraplus_examples.Startup.Ends.{start_up-Ends}
use ice40_ultraplus_examples.Loader.Program.{load, loop, report, main}

module _ {S T Attrs : Type 0} {tty : Tty T Attrs} (works : Works tty) (bus : Bus S) (heap : Heap S)
    (files : Files S) (now_ms : S → ℕ × S) (spi_init : Cmd S ℕ) (strtoul : List ℕ → ℕ × Bool)
    (past burst_fuel fuel : ℕ) (line keys : List ℕ) where
  open works use {attrs}

  -- For a terminal that keeps its promises and is not in raw mode: however `main` ends, by its
  -- return or by `exit` and with any status, the terminal has the attributes that it had at first.
  pub loader_main-Restored :
      (given : List (ℕ × List ℕ)) (left : Bool) (p : Process S T Attrs)
      → p.guard.raw_mode ≡ false
      → AllEnded works (Restored works (attrs p.terminal)) (
          ended tty (
            main tty bus heap files now_ms spi_init strtoul past burst_fuel fuel line keys given
              left p))
  unfolding main
  loader_main-Restored given left p off =
      let (rc, opts) = loader_parse_args strtoul given left in
      ended-Restored works (attrs p.terminal)
        (main tty bus heap files now_ms spi_init strtoul past burst_fuel fuel line keys given left
          p)
        (start_up-Ends works false spi_init
          (load tty bus heap files now_ms spi_init strtoul past burst_fuel fuel line keys)
          (loop tty bus heap files now_ms spi_init strtoul past burst_fuel fuel line keys) report []
          rc opts p off)
