-- ===== src/Loader/Program/Finishes.antt =====
-- `main` of comet2_spi_loader.c returns once the firmware runs, with the summary of what was heard.
use ice40_ultraplus_examples.Base.{
  ℕ, ◌+◌, ◌-◌, ◌*◌, ◌<◌, ◌≡◌, refl, Bool, false, List, [], length, take, length-replicate,
  if◌then◌else◌, ℤ, pos, equals, arith,
}
use ice40_ultraplus_examples.Cmd.{Cmd, done}
use ice40_ultraplus_examples.Cmd.Returns
use ice40_ultraplus_examples.Cmd.Returns.{Returns}
use ice40_ultraplus_examples.Bus.{Bus, Heap}
use ice40_ultraplus_examples.Firmware.{Files}
use ice40_ultraplus_examples.Options.{RunOptions, loader_parse_args}
use ice40_ultraplus_examples.Terminal.{Tty, Process, setup_raw_mode}
use ice40_ultraplus_examples.Startup.{new_source}
use ice40_ultraplus_examples.Terminal.Restored.{Works}
use ice40_ultraplus_examples.Startup.Finishes.{Closed, start_up-Closed}
use ice40_ultraplus_examples.Loader.{Io}
use ice40_ultraplus_examples.Loader.Capture.{Captured}
use ice40_ultraplus_examples.Loader.Slave.{Slave}
use ice40_ultraplus_examples.Loader.Packets.{out_bytes}
use ice40_ultraplus_examples.Loader.Loop.{Ended, run_io_loop-Ended}
use ice40_ultraplus_examples.Loader.Summary.{Item, report_of, print_capture_summary-report}
use ice40_ultraplus_examples.Loader.Program.{cleared, report, load, loop, main}

pub cleared-Captured : Captured cleared []
cleared-Captured = record {
  size = length-replicate {A = ℕ} 256 0;
  used = omega arith;
  held = refl;
  total = refl;
  full = λ some_dropped. absurd (omega arith);
}

module _ {S T Attrs : Type 0} {tty : Tty T Attrs} (works : Works tty) {bus : Bus S} (heap : Heap S)
    (files : Files S) {now_ms : S → ℕ × S} {Ready : S → Type 0} (slave : Slave bus now_ms Ready)
    (spi_init : Cmd S ℕ) (strtoul : List ℕ → ℕ × Bool) (past burst_fuel fuel : ℕ)
    (line keys : List ℕ) where
  open slave use {answers}
  open works use {attrs}

  -- Where the start succeeded: the process before the load, and the world behind it.
  pub record Started (given : List (ℕ × List ℕ)) (p : Process S T Attrs) (opts : RunOptions)
      (s t : S) : Type 0 where
    pub parsed : loader_parse_args strtoul given false ≡ (pos 0, opts)
    pub cooked : p.guard.raw_mode ≡ false
    pub found : spi_init p.world ≡ done 0 s
    pub loaded :
        load tty bus heap files now_ms spi_init strtoul past burst_fuel fuel line keys opts s
        ≡ done (pos 0) t
    pub ready : Ready t

  abbrev pub first_io : RunOptions → Process S T Attrs → Io
  first_io opts p = record {
    capture = cleared;
    src = new_source line keys opts (setup_raw_mode tty false p).guard.raw_mode;
  }

  -- How the loop of `main` ended, and what is then reported of the packets that it read.
  pub record LoopEnded (opts : RunOptions) (io : Io) (t : S) (out : ℤ × Io) (u : S) : Type 0 where
    pub looped : Ended slave ((now_ms t).0 + opts.idle_timeout_ms) [] (now_ms t).1 io out u
    pub told :
        let heard = out_bytes looped.packets in
        report out
        ≡ (if equals out.0 0 then (0, report_of (take 256 heard) (length heard - 256)) else (1, []))

  abbrev pub Finished : Attrs → RunOptions → Io → S → ℕ × List Item → Process S T Attrs → Type 0
  Finished a opts io t =
      Closed works false spi_init
        (load tty bus heap files now_ms spi_init strtoul past burst_fuel fuel line keys)
        (loop tty bus heap files now_ms spi_init strtoul past burst_fuel fuel line keys) report [] a
        (LoopEnded opts io t)

  report-told :
      (out : ℤ × Io) (heard : List ℕ)
      → Captured out.1.capture heard
      → report out
        ≡ (if equals out.0 0 then (0, report_of (take 256 heard) (length heard - 256)) else (1, []))
  unfolding report
  report-told out heard c = rw (print_capture_summary-report out.1.capture heard c) refl

  -- With a slave that has only so many answers to give, and a terminal that keeps its promises and
  -- is not in raw mode: if the command line is accepted, `spi_init` returns 0 and the load returns
  -- 0, then `main` returns, within enough rounds for the idle time, for each answer and once more.
  -- It returns 0 with the summary of the bytes that the loop heard, or 1 without a summary. The
  -- terminal has the attributes that it had at first, and raw mode is off.
  pub loader_main-Finished :
      (given : List (ℕ × List ℕ)) (opts : RunOptions) (p : Process S T Attrs) (s t : S)
      → Started given p opts s t
      → answers t * (opts.idle_timeout_ms * 1000 + 1) + opts.idle_timeout_ms * 1000 < fuel
      → Returns (Finished (attrs p.terminal) opts (first_io opts (record p { world = s })) t) (
          main tty bus heap files now_ms spi_init strtoul past burst_fuel fuel line keys given false
            p)
  unfolding main
  loader_main-Finished given opts p s t started enough =
      let io = first_io opts (record p { world = s }) in
      rw started.parsed (
        start_up-Closed works false spi_init
          (load tty bus heap files now_ms spi_init strtoul past burst_fuel fuel line keys)
          (loop tty bus heap files now_ms spi_init strtoul past burst_fuel fuel line keys) report []
          {P = LoopEnded opts io t} opts p s t started.cooked started.found started.loaded
          (Returns.weaken
            (run_io_loop-Ended slave opts.idle_timeout_ms fuel io [] t cleared-Captured
              started.ready enough)
            λ out u looped. record {
              looped = looped;
              told = report-told out (out_bytes looped.packets) looped.captured;
            }))
