-- ===== src/Run.antt =====
-- comet2/host_server/comet2_spi_run.c behind the start of the firmware: stdin is polled, and the
-- loop moves characters between the terminal and the COMET II. `gettimeofday` and `select` are
-- parameters; the terminal's output goes to `echoed` of the source.
pub mod Lines
pub mod Sources
pub mod Console
pub mod Handled
pub mod Rounds
pub mod Clock
pub mod Ended
pub mod Loop
pub mod Program
use ice40_ultraplus_examples.Base.{
  ℕ, zero, suc, ◌+◌, ◌%◌, Bool, true, false, Option, none, some, List, [], ◌∷◌, not, ◌&&◌, ◌||◌,
  ltb, leb, ◌==◌, if◌then◌else◌, length, get_or, ℤ, pos, negsuc, equals,
}
use ice40_ultraplus_examples.Cmd.{Cmd, done, polling, pure, ◌>>=◌}
use ice40_ultraplus_examples.Bus.{Bus}
use ice40_ultraplus_examples.Spi.{Bytes3}
use ice40_ultraplus_examples.Input.{
  Source, newline, carriage_return, ctrl_c, ctrl_d, put, unify_newline, input_source_next_blocking,
}
use ice40_ultraplus_examples.Loader as Loader
use ice40_ultraplus_examples.Loader.{cmd_in_request, rsp_out_char}

-- STDIN_POLL_US
abbrev pub stdin_poll_us : ℕ
stdin_poll_us = 1000

unfoldable pub current_timeout_ms : Source → (idle_timeout_ms eof_drain_ms : ℕ) → ℕ
current_timeout_ms src idle_timeout_ms eof_drain_ms =
    if src.eof then eof_drain_ms else idle_timeout_ms

-- `src->text == NULL`
abbrev pub no_text : Option (List ℕ) → Bool
no_text none = true
no_text (some text) = false

-- `g_raw_mode && src->text == NULL`
unfoldable pub is_interactive : Source → Bool
is_interactive src = src.raw_mode && no_text src.text

-- The branch for the text of -i: its characters, one newline, and -1.
unfoldable pub poll_text : List ℕ → Source → Source × ℤ
poll_text text src =
    if ltb src.at (length text)
    then (record src { at = src.at + 1 }, pos (get_or text src.at 0))
    else if not src.eof
    then (record src { eof = true }, pos newline)
    else (src, negsuc 0)

-- EOF or Ctrl-D.
unfoldable pub meet_end : Source → Source × ℤ
meet_end src =
    let t = record src { eof = true } in (if src.raw_mode then put t newline else t, pos newline)

-- What `fgetc` gives behind a successful `select`.
unfoldable pub take_key : Source → List ℕ → Source × ℤ
take_key src [] = meet_end src
take_key src (c ∷ cs) =
    let t = record src { stdin = cs } in
    let k = unify_newline c in
    if c == ctrl_c
    then (record t { exit_requested = true }, negsuc 0)
    else if c == ctrl_d
    then meet_end t
    else (if t.raw_mode then put t k else t, pos k)

-- `sel > 0`
abbrev pub is_positive : ℤ → Bool
is_positive (pos zero) = false
is_positive (pos (suc n)) = true
is_positive (negsuc n) = false

-- Printable characters and white space are shown as they are.
unfoldable pub shown : ℕ → ℕ
shown ch =
    if (leb 0x20 ch && leb ch 0x7e) || (ch == newline || (ch == carriage_return || ch == 0x09))
    then ch
    else 0x2e

-- `select_stdin` waits at most the given microseconds for stdin, and gives the result of `select`.
module _ {S : Type 0} (bus : Bus S) (now_ms : S → ℕ × S) (select_stdin : ℕ → S → ℤ × S) where
  abbrev pub comet_send_in_char : ℕ → Cmd S ℕ
  comet_send_in_char = Loader.comet_send_in_char bus

  abbrev pub comet_read_packet : Cmd S (ℤ × Bytes3)
  comet_read_packet = Loader.comet_read_packet bus

  abbrev pub now : Cmd S ℕ
  now s = let (ms, t) = now_ms s in done ms t

  abbrev pub select : ℕ → Cmd S ℤ
  select usec s = let (sel, t) = select_stdin usec s in done sel t

  unfoldable pub poll_stdin : Source → Cmd S (Source × ℤ)
  poll_stdin src = if src.eof then pure (src, negsuc 0) else (do
    sel ← select (if src.raw_mode then 0 else stdin_poll_us)
    if is_positive sel then pure (take_key src src.stdin) else pure (src, negsuc 0))

  unfoldable pub stdin_poll_char : Source → Cmd S (Source × ℤ)
  unfolding poll_text poll_stdin
  stdin_poll_char src = elim src.text [
    | some text ↦ pure (poll_text text src)
    | none ↦ poll_stdin src
  ]

  module _ (idle_timeout_ms eof_drain_ms : ℕ) where
    -- `now_ms() + current_timeout_ms(..)`
    unfoldable pub next_deadline : Source → Cmd S ℕ
    next_deadline src = do ms ← now; pure (ms + current_timeout_ms src idle_timeout_ms eof_drain_ms)

    -- A character, or -1, is sent on: whether the loop goes on, the deadline and the source.
    unfoldable pub forward : ℤ → (deadline : ℕ) → Source → Cmd S (Bool × ℕ × Source)
    forward (negsuc n) deadline src = pure (true, deadline, src)
    forward (pos ch) deadline src = do
      rc ← comet_send_in_char (ch % 256)
      if rc == 0
          then (do later ← next_deadline src; pure (true, later, src))
          else pure (false, deadline, src)

    -- What the loop does with a packet, the new deadline included.
    unfoldable pub take_packet : Bytes3 → Source → Cmd S (Bool × ℕ × Source)
    take_packet packet src = do
      deadline ← next_deadline src
      if packet.0 == rsp_out_char
          then pure (true, deadline, put src (shown packet.1))
          else if packet.0 == cmd_in_request
          then (let next = input_source_next_blocking src in forward next.1 deadline next.0)
          else pure (true, deadline, src)

    -- No packet came: stdin is polled.
    unfoldable pub poll_input : (deadline : ℕ) → Source → Cmd S (Bool × ℕ × Source)
    poll_input deadline src = do (src', c) ← stdin_poll_char src; forward c deadline src'

    -- The deadline of the round, and whether it has come.
    unfoldable pub check_time : (interactive : Bool) → (deadline : ℕ) → Source → Cmd S (ℕ × Bool)
    check_time interactive deadline src = do
      held ← (if interactive && not src.eof then next_deadline src else pure deadline)
      ms ← now
      pure (held, leb held ms)

    -- The rest of a round: a packet is handled, or stdin is polled.
    unfoldable pub round : (deadline : ℕ) → Source → Cmd S (Bool × ℕ × Source)
    round deadline src = do
      (rc, packet) ← comet_read_packet
      if equals rc 0 then take_packet packet src else poll_input deadline src

    -- `fuel` bounds the rounds.
    unfoldable pub io_loop :
        (fuel : ℕ) (interactive : Bool) (deadline : ℕ) → Source → Cmd S (ℤ × Source)
    io_loop zero interactive deadline src = λ s. polling
    io_loop (suc fuel) interactive deadline src =
        let again = io_loop fuel interactive in
        if src.exit_requested then pure (pos 0, src) else (do
          (held, late) ← check_time interactive deadline src
          if late then pure (pos 0, src) else (do
            (sent, later, src') ← round held src
            if sent then again later src' else pure (negsuc 0, src')))

    unfoldable pub run_io_loop : (fuel : ℕ) → Source → Cmd S (ℤ × Source)
    run_io_loop fuel src = do
      deadline ← next_deadline src
      io_loop fuel (is_interactive src) deadline src
