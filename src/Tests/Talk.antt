-- ===== src/Tests/Talk.antt =====
-- The capture loop at a concrete slave: it answers `left` times with an OUT packet, then never.
use ice40_ultraplus_examples.Base.{
  ℕ, zero, suc, ◌+◌, ◌/◌, ◌≤◌, ◌≡◌, refl, ap, List, [], ◌∷◌, map, arith, length, replicate,
  length-replicate, if◌then◌else◌, none, false, take, ℤ,
}
use ice40_ultraplus_examples.Cmd.{Outcome, done, exited, polling}
use ice40_ultraplus_examples.Cmd.Returns.{Returns, returns}
use ice40_ultraplus_examples.Bus.{Bus, retry}
use ice40_ultraplus_examples.Spi.{has_answer, poll, spi_read}
use ice40_ultraplus_examples.Input.{Source}
use ice40_ultraplus_examples.Loader.{
  Io, RxCapture, rx_capture_push, comet_read_packet, take_packet, io_loop, run_io_loop,
}
use ice40_ultraplus_examples.Loader.Capture.{Captured}
use ice40_ultraplus_examples.Loader.Slave.{Slave}
use ice40_ultraplus_examples.Loader.Loop.{Ended, run_io_loop-Ended}

-- The time in microseconds, and the answers left.
pub record Talker : Type 0 where
  pub time : ℕ
  pub left : ℕ

abbrev pub silence : ℕ → ℕ
silence x = 0x40

abbrev pub letters : List ℕ → List ℕ
letters [] = []
letters (x ∷ xs) = 0x20 ∷ map (λ y. 0x41) xs

-- The status, the opcode of an OUT packet, and a letter.
abbrev pub speak : List ℕ → List ℕ
speak [] = []
speak (x ∷ xs) = 0xc0 ∷ letters xs

abbrev pub reply : ℕ → List ℕ → List ℕ
reply zero b = map silence b
reply (suc n) b = speak b

abbrev pub fewer : ℕ → ℕ
fewer zero = zero
fewer (suc n) = n

abbrev pub talking_bus : Bus Talker
talking_bus = record {
  xfer = λ b s. done (reply s.left b) (record s { left = fewer s.left });
  usleep = λ n s. record s { time = s.time + n };
}

abbrev pub clock : Talker → ℕ × Talker
clock s = (s.time / 1000, s)

length-map : (f : ℕ → ℕ) (b : List ℕ) → length (map f b) ≡ length b
length-map f [] = refl
length-map f (x ∷ b) = ap suc (length-map f b)

pub length-reply : (n : ℕ) (b : List ℕ) → length (reply n b) ≡ length b
length-reply zero b = length-map silence b
length-reply (suc n) [] = refl
length-reply (suc n) (x ∷ []) = refl
length-reply (suc n) (x ∷ y ∷ b) = ap (λ k. suc (suc k)) (length-map (λ z. 0x41) b)

pub used_up : (n : ℕ) (b : List ℕ) → fewer n + (if has_answer (reply n b) then 1 else 0) ≤ n
unfolding has_answer
used_up zero [] = omega arith
used_up zero (x ∷ b) = omega arith
used_up (suc n) [] = omega arith
used_up (suc n) (x ∷ b) = omega arith

pub answers-reply :
    (b out : List ℕ) (s t : Talker)
    → talking_bus.xfer b s ≡ done out t
    → t.left + (if has_answer out then 1 else 0) ≤ s.left
answers-reply b out s t e =
    let same_out : reply s.left b ≡ out = cc e in
    let same_state : record s { left = fewer s.left } ≡ t = cc e in
    rw (← same_out, ← ap (λ (u : Talker). u.left) same_state) (used_up s.left b)

pub time-reply :
    (b out : List ℕ) (s t : Talker) → talking_bus.xfer b s ≡ done out t → s.time ≤ t.time
time-reply b out s t e =
    let same_state : record s { left = fewer s.left } ≡ t = cc e in
    rw (← ap (λ (u : Talker). u.time) same_state) (omega arith)

abbrev pub talking_slave : Slave talking_bus clock (λ s. Unit {0})
talking_slave = record {
  serves = record {
    answers = λ bytes s r some_bytes small. returns (length-reply s.left bytes, tt);
    rests = λ n s r. tt;
  };
  micros = λ s. s.time;
  answers = λ s. s.left;
  now_shown = λ s. refl;
  micros-now = λ s. refl;
  answers-now = λ s. refl;
  Ready-now = λ s r. tt;
  micros-usleep = λ n s. omega arith;
  answers-usleep = λ n s. omega arith;
  micros-xfer = λ b out s t e. time-reply b out s t e;
  answers-xfer = answers-reply;
}

abbrev no_capture : RxCapture
no_capture = record { data_bytes = replicate 256 0; used = 0; dropped = 0 }

no_capture-Captured : Captured no_capture []
no_capture-Captured = record {
  size = length-replicate {A = ℕ} 256 0;
  used = omega arith;
  held = refl;
  total = refl;
  full = λ some_dropped. absurd (omega arith);
}

abbrev pub quiet_source : Source
quiet_source = record {
  text = none;
  at = 0;
  eof = false;
  eof_sent = false;
  local_echo = false;
  echo_newline = false;
  line = replicate 1024 0;
  line_len = 0;
  line_pos = 0;
  raw_mode = false;
  exit_requested = false;
  stdin = [];
  echoed = [];
}

abbrev fresh_io : Io
fresh_io = record { capture = no_capture; src = quiet_source }

abbrev pub two_answers : Talker
two_answers = record { time = 0; left = 2 }

run_io_loop-Ended_example :
    Returns
      (Ended talking_slave (0 + 1) [] two_answers fresh_io)
      (run_io_loop talking_bus clock 1 3003 fresh_io two_answers)
run_io_loop-Ended_example =
    run_io_loop-Ended talking_slave 1 3003 fresh_io [] two_answers no_capture-Captured tt
      (omega arith)

abbrev summary : Outcome Talker (ℤ × Io) → List ℕ
summary (done out t) = take out.1.capture.used out.1.capture.data_bytes
summary (exited code t) = []
summary polling = []

-- Two letters are heard.
letters_heard : summary (run_io_loop talking_bus clock 1 20 fresh_io two_answers) ≡ 0x41 ∷ 0x41 ∷ []
unfolding run_io_loop io_loop comet_read_packet spi_read poll retry has_answer take_packet
    rx_capture_push
letters_heard = refl
