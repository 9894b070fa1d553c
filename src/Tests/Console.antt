-- ===== src/Tests/Console.antt =====
-- The loop of comet2_spi_run.c at the slave of Tests/Talk.antt, whose user hesitates and then types.
use ice40_ultraplus_examples.Base.{
  ℕ, zero, suc, ◌+◌, ◌≤◌, ◌≡◌, refl, List, [], ◌∷◌, arith, false, ℤ, pos,
}
use ice40_ultraplus_examples.Cmd.{Outcome, done, exited, polling}
use ice40_ultraplus_examples.Cmd.Returns.{Returns}
use ice40_ultraplus_examples.Bus.{retry}
use ice40_ultraplus_examples.Spi.{has_answer, poll, spi_read, spi_send, was_received}
use ice40_ultraplus_examples.Input.{Source}
use ice40_ultraplus_examples.Loader as Loader
use ice40_ultraplus_examples.Run.{
  is_positive, meet_end, current_timeout_ms, take_key, shown, is_interactive, poll_stdin,
  stdin_poll_char, next_deadline, forward, take_packet, poll_input, check_time, round, io_loop,
  run_io_loop,
}
use ice40_ultraplus_examples.Run.Sources.{inputs, text_inputs}
use ice40_ultraplus_examples.Run.Console.{Console}
use ice40_ultraplus_examples.Run.Loop.{EndedBy, run_io_loop-EndedBy}
use ice40_ultraplus_examples.Tests.Talk.{
  Talker, talking_bus, clock, talking_slave, quiet_source, two_answers,
}

-- stdin is found empty while there are answers left; each such poll uses one up.
abbrev pub ready_at : ℕ → Talker → ℤ × Talker
ready_at zero s = (pos 1, s)
ready_at (suc n) s = (pos 0, record s { left = n })

abbrev pub select_stdin : ℕ → Talker → ℤ × Talker
select_stdin usec s = ready_at s.left s

pub ready_at-le : (n : ℕ) (s : Talker) → s.left ≡ n → (ready_at n s).1.left ≤ n
ready_at-le zero s e = omega (arith, e)
ready_at-le (suc n) s e = omega arith

pub ready_at-time : (n : ℕ) (s : Talker) → s.time ≤ (ready_at n s).1.time
ready_at-time zero s = omega arith
ready_at-time (suc n) s = omega arith

pub ready_at-lt :
    (n : ℕ) (s : Talker) → is_positive (ready_at n s).0 ≡ false → (ready_at n s).1.left + 1 ≤ n
ready_at-lt zero s e = absurd (ground arith)
ready_at-lt (suc n) s e = omega arith

abbrev pub console : Console talking_bus clock select_stdin (λ s. Unit {0})
console = record {
  slave = talking_slave;
  Ready-select = λ n s r. tt;
  Later-select = λ n s. record { time = ready_at-time s.left s; talk = ready_at-le s.left s refl };
  empty-select = λ s e. ready_at-lt s.left s e;
}

run_io_loop-EndedBy_example :
    Returns
      (EndedBy console 1 1 1
        (omega arith)
        (omega arith)
        ((clock two_answers).0 + current_timeout_ms quiet_source 1 1)
        quiet_source
        (clock two_answers).1)
      (run_io_loop talking_bus clock select_stdin 1 1 4004 quiet_source two_answers)
unfolding inputs text_inputs
run_io_loop-EndedBy_example =
    run_io_loop-EndedBy console 1 1 1 (omega arith) (omega arith) 4004 quiet_source two_answers tt
      (omega arith)

abbrev printed : Outcome Talker (ℤ × Source) → List ℕ
printed (done out t) = out.1.echoed
printed (exited code t) = []
printed polling = []

-- Two letters are heard, and printed.
letters_printed :
    printed (run_io_loop talking_bus clock select_stdin 1 1 20 quiet_source two_answers)
    ≡ 0x41 ∷ 0x41 ∷ []
unfolding run_io_loop next_deadline io_loop check_time round take_packet shown poll_input
    stdin_poll_char poll_stdin take_key forward is_interactive Loader.comet_read_packet spi_read
    poll retry has_answer current_timeout_ms meet_end Loader.comet_send_in_char spi_send
    was_received
letters_printed = refl
