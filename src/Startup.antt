-- ===== src/Startup.antt =====
-- What the `main` functions of comet2/host_server/comet2_spi_run.c and comet2_spi_loader.c share.
pub mod Ends
pub mod Finishes
use ice40_ultraplus_examples.Base.{
  ℕ, zero, suc, Bool, true, false, none, List, [], ◌∷◌, ◌++◌, ◌==◌, if◌then◌else◌, ℤ, pos, negsuc,
  equals,
}
use ice40_ultraplus_examples.Cmd.{Cmd, done, pure, ◌>>=◌, ◌>>◌}
use ice40_ultraplus_examples.Firmware.Load.{Mode}
use ice40_ultraplus_examples.Input.{Source}
use ice40_ultraplus_examples.Options.{RunOptions}
use ice40_ultraplus_examples.Terminal.{Tty, Process, lift, restore_terminal, setup_raw_mode}

-- The options that the loader takes.
abbrev pub mode_of : RunOptions → Mode
mode_of opts = record {
  use_burst = opts.use_burst;
  reload_safe = opts.reload_safe;
  probe_reload = opts.probe_reload;
}

-- The source that `main` fills in. `line` is what stands in its buffer, which is not cleared, and
-- `keys` is stdin.
unfoldable pub new_source : (line keys : List ℕ) → RunOptions → (raw_mode : Bool) → Source
new_source line keys opts raw_mode = record {
  text = opts.input_text;
  at = 0;
  eof = false;
  eof_sent = false;
  local_echo = opts.local_echo;
  echo_newline = opts.echo_newline;
  line = line;
  line_len = 0;
  line_pos = 0;
  raw_mode = raw_mode;
  exit_requested = false;
  stdin = keys;
  echoed = [];
}

-- Calls on the terminal as commands.
abbrev pub setup_terminal :
    {S T Attrs : Type 0} → Tty T Attrs → (keeps_signals : Bool) → Cmd (Process S T Attrs) Bool
setup_terminal tty keeps_signals p =
    let q = setup_raw_mode tty keeps_signals p in done q.guard.raw_mode q

abbrev pub give_terminal_back :
    {S T Attrs : Type 0} → Tty T Attrs → Cmd (Process S T Attrs) (Unit {0})
give_terminal_back tty p = done tt (restore_terminal tty p)

-- `load` is the start of the firmware and `loop` what follows in raw mode or not. `report` is the
-- exit status and the output at the end of the loop, `silence` the output if it is not reached.
module _ {S T Attrs L B : Type 0} (tty : Tty T Attrs) (keeps_signals : Bool) (spi_init : Cmd S ℕ)
    (load : RunOptions → Cmd S ℤ) (loop : RunOptions → Bool → Cmd S L) (report : L → ℕ × B)
    (silence : B) where
  unfoldable pub run_firmware : RunOptions → (raw_mode : Bool) → Cmd (Process S T Attrs) (ℕ × B)
  run_firmware opts raw_mode = do
    rc ← lift (load opts)
    if equals rc 0
        then (do out ← lift (loop opts raw_mode); give_terminal_back tty; pure (report out))
        else pure (1, silence)

  unfoldable pub run : RunOptions → Cmd (Process S T Attrs) (ℕ × B)
  unfolding run_firmware
  run opts = do
    rc ← lift spi_init
    if rc == 0
        then (do raw_mode ← setup_terminal tty keeps_signals; run_firmware opts raw_mode)
        else pure (1, silence)

  -- By the result of `parse_args`.
  unfoldable pub start_up : ℤ → RunOptions → Cmd (Process S T Attrs) (ℕ × B)
  unfolding run
  start_up (pos zero) opts = run opts
  start_up (pos (suc n)) opts = pure (0, silence)
  start_up (negsuc n) opts = pure (1, silence)
