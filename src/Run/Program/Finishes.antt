-- ===== src/Run/Program/Finishes.antt =====
-- `main` of comet2_spi_run.c returns once the firmware runs.
use ice40_ultraplus_examples.Base.{
  ℕ, ◌+◌, ◌*◌, ◌<◌, ◌≤◌, ◌≡◌, Bool, true, false, List, [], inl, inr, ◌⊎◌, ℤ, pos, negsuc, arith,
}
use ice40_ultraplus_examples.Cmd.{Cmd, done}
use ice40_ultraplus_examples.Cmd.Returns
use ice40_ultraplus_examples.Cmd.Returns.{Returns, returns}
use ice40_ultraplus_examples.Bus.{Bus, Heap}
use ice40_ultraplus_examples.Firmware.{Files}
use ice40_ultraplus_examples.Firmware.Load.{load_and_start_comet_firmware}
use ice40_ultraplus_examples.Input.{Source}
use ice40_ultraplus_examples.Options.{RunOptions, parse_args}
use ice40_ultraplus_examples.Options.Bounds.{Verdict, parse_args-Verdict}
use ice40_ultraplus_examples.Terminal.{Tty, Process, setup_raw_mode}
use ice40_ultraplus_examples.Run.{current_timeout_ms, run_io_loop}
use ice40_ultraplus_examples.Run.Sources.{inputs}
use ice40_ultraplus_examples.Run.Console.{Console, waiting}
use ice40_ultraplus_examples.Run.Loop.{EndedBy, run_io_loop-EndedBy}
use ice40_ultraplus_examples.Terminal.Restored.{Works}
use ice40_ultraplus_examples.Startup.Finishes.{Closed, start_up-Closed}
use ice40_ultraplus_examples.Startup.{mode_of, new_source}
use ice40_ultraplus_examples.Run.Program.{load, loop, report, main}

module _ {S T Attrs : Type 0} {tty : Tty T Attrs} (works : Works tty) {bus : Bus S} (heap : Heap S)
    (files : Files S) {now_ms : S → ℕ × S} {select_stdin : ℕ → S → ℤ × S} {Ready : S → Type 0}
    (console : Console bus now_ms select_stdin Ready) (spi_init : Cmd S ℕ)
    (strtoul : List ℕ → ℕ × Bool) (past burst_fuel fuel : ℕ) (line keys : List ℕ) where
  open console use {slave}
  open slave use {answers}
  open works use {attrs}

  -- Where the start succeeded: the process before the load, the world behind it, and enough rounds.
  pub record Started (given : List (ℕ × List ℕ)) (p : Process S T Attrs) (opts : RunOptions)
      (s t : S) : Type 0 where
    pub parsed : parse_args strtoul given false ≡ (pos 0, opts)
    pub cooked : p.guard.raw_mode ≡ false
    pub found : spi_init p.world ≡ done 0 s
    pub loaded :
        load_and_start_comet_firmware bus heap files past burst_fuel
          (mode_of opts)
          opts.firmware_path
          s
        ≡ done (pos 0) t
    pub ready : Ready t

  -- The source that the loop starts from.
  abbrev pub first_source : RunOptions → Process S T Attrs → Source
  first_source opts p = new_source line keys opts (setup_raw_mode tty true p).guard.raw_mode

  -- A run of the loop within ten minutes of patience.
  abbrev pub Looped :
      (opts : RunOptions)
      → opts.idle_timeout_ms ≤ 600000
      → opts.eof_drain_ms ≤ 600000
      → Source
      → S
      → ℤ × Source
      → S
      → Type 0
  Looped opts a b src t =
      EndedBy console opts.idle_timeout_ms opts.eof_drain_ms 600000 a b
        ((now_ms t).0 + current_timeout_ms src opts.idle_timeout_ms opts.eof_drain_ms) src
        (now_ms t).1

  -- Why the loop is over: the user asked for it, no user is waited for, or a character was not sent.
  abbrev pub Code : ℤ → Source → Type 0
  Code rc last =
      ((rc ≡ pos 0) × ((last.exit_requested ≡ true) ⊎ (waiting last ≡ false))) ⊎ (rc ≡ negsuc 0)

  no_hurry :
      (opts : RunOptions) (a : opts.idle_timeout_ms ≤ 600000) (b : opts.eof_drain_ms ≤ 600000)
      (src : Source) (t : S) (out : ℤ × Source) (v : S)
      → 0 < opts.idle_timeout_ms
      → Looped opts a b src t out v
      → Code out.0 out.1
  no_hurry opts a b src t out v some_idle looped = elim looped.code [
    | inl (zero_code, over) ↦ elim over [
      | inl ask ↦ inl (zero_code, inl ask)
      | inr (inl none_waits) ↦ inl (zero_code, inr none_waits)
      | inr (inr no_time) ↦ absurd (omega (arith, some_idle, no_time))
    ]
    | inr failed ↦ inr failed
  ]

  -- How the loop of `main` ended.
  pub record LoopEnded (opts : RunOptions) (src : Source) (t : S) (out : ℤ × Source) (u : S)
      : Type 0 where
    pub a : opts.idle_timeout_ms ≤ 600000
    pub b : opts.eof_drain_ms ≤ 600000
    pub looped : Looped opts a b src t out u
    pub code : Code out.0 out.1

  abbrev pub Finished : Attrs → RunOptions → Source → S → ℕ × List ℕ → Process S T Attrs → Type 0
  Finished a opts src t =
      Closed works true spi_init
        (load tty bus heap files now_ms select_stdin spi_init strtoul past burst_fuel fuel line
          keys)
        (loop tty bus heap files now_ms select_stdin spi_init strtoul past burst_fuel fuel line
          keys)
        report [] a (LoopEnded opts src t)

  loop-LoopEnded :
      (opts : RunOptions) (src : Source) (t : S)
      → 0 < opts.idle_timeout_ms
      → opts.idle_timeout_ms ≤ 600000
      → opts.eof_drain_ms ≤ 600000
      → Ready t
      → (answers t + inputs src) * (600000 * 1000 + 1) + 600000 * 1000 < fuel
      → Returns
          (LoopEnded opts src t)
          (run_io_loop bus now_ms select_stdin opts.idle_timeout_ms opts.eof_drain_ms fuel src t)
  loop-LoopEnded opts src t some_idle a b ready enough =
      Returns.weaken
        (run_io_loop-EndedBy console opts.idle_timeout_ms opts.eof_drain_ms 600000 a b fuel src t
          ready enough)
        λ out u looped. record {
          a = a;
          b = b;
          looped = looped;
          code = no_hurry opts a b src t out u some_idle looped;
        }

  -- With the console that `run_io_loop` needs, and a terminal that keeps its promises and is not in
  -- raw mode: if the command line is accepted, `spi_init` returns 0 and the load returns 0, then
  -- `main` returns, within enough rounds for ten minutes of patience. Its loop ended as it promises.
  -- The status is 0, with a newline behind the output, if the user asked for the exit or is not
  -- waited for, and 1 if a character was not sent. The terminal has the attributes that it had at
  -- first, and raw mode is off.
  pub main-Finished :
      (given : List (ℕ × List ℕ)) (opts : RunOptions) (p : Process S T Attrs) (s t : S)
      → Started given p opts s t
      → (answers t + inputs (first_source opts (record p { world = s }))) * (600000 * 1000 + 1)
          + 600000 * 1000
        < fuel
      → Returns (Finished (attrs p.terminal) opts (first_source opts (record p { world = s })) t) (
          main tty bus heap files now_ms select_stdin spi_init strtoul past burst_fuel fuel line
            keys given false p)
  unfolding main Verdict
  main-Finished given opts p s t started enough =
      let limits = (parse_args-Verdict strtoul given false).0.0 in
      rw started.parsed (
        start_up-Closed works true spi_init
          (load tty bus heap files now_ms select_stdin spi_init strtoul past burst_fuel fuel line
            keys)
          (loop tty bus heap files now_ms select_stdin spi_init strtoul past burst_fuel fuel line
            keys)
          report [] {P = LoopEnded opts (first_source opts (record p { world = s })) t} opts p s t
          started.cooked started.found started.loaded
          (loop-LoopEnded opts (first_source opts (record p { world = s })) t
            (rw started.parsed at limits.some_idle) (rw started.parsed at limits.idle)
            (rw started.parsed at limits.drain) started.ready enough))
