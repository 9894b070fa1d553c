-- ===== src/Terminal.antt =====
-- The raw mode of the terminal in comet2/host_server/comet2_spi_run.c and comet2_spi_loader.c, and
-- the end of a process. `isatty`, `tcgetattr`, `tcsetattr` and `cfmakeraw` are parameters.
pub mod Restored
use ice40_ultraplus_examples.Base.{ℕ, Bool, true, false, Option, none, some, not, if◌then◌else◌}
use ice40_ultraplus_examples.Cmd.{Outcome, done, exited, polling, Cmd}

-- The calls on the terminal of stdin. `tcsetattr` tells whether it succeeded. `zeroed` is a
-- `struct termios` of zeros.
pub record Tty (T Attrs : Type 0) : Type 0 where
  pub isatty : T → Bool × T
  pub tcgetattr : T → Option Attrs × T
  pub tcsetattr : Attrs → T → Bool × T
  pub cfmakeraw : Attrs → Attrs
  pub set_isig : Attrs → Attrs
  pub set_opost : Attrs → Attrs
  pub zeroed : Attrs

-- `g_saved_term` and `g_raw_mode`, and whether `restore_terminal` is registered with `atexit`.
pub record Guard (Attrs : Type 0) : Type 0 where
  pub saved_term : Attrs
  pub raw_mode : Bool
  pub registered : Bool

-- A process: the world of its other calls, its terminal, and these variables.
pub record Process (S T Attrs : Type 0) : Type 0 where
  pub world : S
  pub terminal : T
  pub guard : Guard Attrs

module _ {S T Attrs A : Type 0} where
  abbrev pub at_world : Process S T Attrs → Outcome S A → Outcome (Process S T Attrs) A
  at_world p (done a s) = done a (record p { world = s })
  at_world p (exited code s) = exited code (record p { world = s })
  at_world p polling = polling

  -- A command that does not touch the terminal.
  unfoldable pub lift : Cmd S A → Cmd (Process S T Attrs) A
  lift m p = at_world p (m p.world)

-- What the two programs set: Ctrl-C stays a signal in comet2_spi_run.c only.
abbrev pub raw_attrs : {T Attrs : Type 0} → Tty T Attrs → (keeps_signals : Bool) → Attrs → Attrs
raw_attrs tty keeps_signals saved =
    tty.set_opost
      (if keeps_signals then tty.set_isig (tty.cfmakeraw saved) else tty.cfmakeraw saved)

module _ {S T Attrs : Type 0} (tty : Tty T Attrs) where
  unfoldable pub restore_terminal : Process S T Attrs → Process S T Attrs
  restore_terminal p =
      let (set, t) = tty.tcsetattr p.guard.saved_term p.terminal in
      if p.guard.raw_mode
      then record p { terminal = t; guard = record p.guard { raw_mode = false } }
      else p

  -- From `tcsetattr` on.
  unfoldable pub enter_raw :
      (keeps_signals : Bool) (saved : Attrs) → Process S T Attrs → Process S T Attrs
  enter_raw keeps_signals saved p =
      let (set, t) = tty.tcsetattr (raw_attrs tty keeps_signals saved) p.terminal in
      record p {
        terminal = t;
        guard =
            if set
            then record { saved_term = saved; raw_mode = true; registered = true }
            else record p.guard { saved_term = saved };
      }

  -- Behind `tcgetattr`.
  unfoldable pub keep_saved :
      (keeps_signals : Bool) → Option Attrs → Process S T Attrs → Process S T Attrs
  keep_saved keeps_signals none p = p
  keep_saved keeps_signals (some saved) p = enter_raw keeps_signals saved p

  unfoldable pub setup_raw_mode : (keeps_signals : Bool) → Process S T Attrs → Process S T Attrs
  unfolding keep_saved enter_raw
  setup_raw_mode keeps_signals p =
      let (is_tty, t) = tty.isatty p.terminal in
      let (saved, u) = tty.tcgetattr t in
      if is_tty
      then keep_saved keeps_signals saved (record p { terminal = u })
      else record p { terminal = t }

  -- A signal ends the process with `status`, behind `restore_terminal`: 0 in comet2_spi_run.c,
  -- which also writes a newline, and 1 in comet2_spi_loader.c.
  unfoldable pub sig_cleanup : (status : ℕ) → Process S T Attrs → ℕ × Process S T Attrs
  sig_cleanup status p = (status, restore_terminal p)

  -- The functions that `atexit` registered.
  unfoldable pub at_exit : Process S T Attrs → Process S T Attrs
  at_exit p = if p.guard.registered then restore_terminal p else p

  -- `exit`, and the return of `main`. `none` is a run that has not ended within its bounds.
  unfoldable pub ended :
      {B : Type 0} → Outcome (Process S T Attrs) (ℕ × B) → Option (ℕ × Process S T Attrs)
  ended (done out p) = some (out.0, at_exit p)
  ended (exited status p) = some (status, at_exit p)
  ended polling = none
