-- ===== src/Tests/Wire.antt =====
-- A slave that talks as that of Tests/Talk.antt, with a record of the bytes on the wire.
use ice40_ultraplus_examples.Base.{
  ℕ, zero, suc, ◌+◌, ◌*◌, ◌/◌, ◌<◌, ◌≤◌, ◌≡◌, refl, ap, List, [], ◌∷◌, ◌++◌, take, arith, true,
  false, pos, ℤ, length, map, get_or, sym, subst,
}
use ice40_ultraplus_examples.Cmd.{Cmd, done, pure}
use ice40_ultraplus_examples.Cmd.Returns.{returns}
use ice40_ultraplus_examples.Bus.{Bus, Heap}
use ice40_ultraplus_examples.Spi.Batch.{Taken}
use ice40_ultraplus_examples.Firmware.{Files}
use ice40_ultraplus_examples.Firmware.Wire.{Takes}
use ice40_ultraplus_examples.Terminal.{Process}
use ice40_ultraplus_examples.Loader.Slave.{Slave}
use ice40_ultraplus_examples.Run.Console.{Console}
use ice40_ultraplus_examples.Tests.Talk.{reply, fewer, length-reply, used_up}

-- The time in microseconds, the answers left, and the bytes on the wire.
pub record Wire : Type 0 where
  pub time : ℕ
  pub left : ℕ
  pub sent : List ℕ

abbrev pub wire_bus : Bus Wire
wire_bus = record {
  xfer = λ b s. done (reply s.left b) (record s { left = fewer s.left; sent = s.sent ++ b });
  usleep = λ n s. record s { time = s.time + n };
}

abbrev pub wire_clock : Wire → ℕ × Wire
wire_clock s = (s.time / 1000, s)

-- stdin is always there.
abbrev pub wire_select : ℕ → Wire → ℤ × Wire
wire_select usec s = (pos 1, s)

abbrev pub wire_heap : Heap Wire
wire_heap = record { malloc = λ n s. (true, s); free = λ s. s }

-- One file with one word.
abbrev pub wire_files : Files Wire
wire_files = record {
  fopen = λ path s. (true, s);
  seek_end = λ s. (pos 0, s);
  ftell = λ s. (pos 2, s);
  seek_start = λ s. (pos 0, s);
  fread = λ n s. (take n (0x34 ∷ 0x12 ∷ []), s);
  fclose = λ s. s;
}

-- What a transfer leaves.
pub record Sent (b out : List ℕ) (s t : Wire) : Type 0 where
  pub out_same : reply s.left b ≡ out
  pub left_same : fewer s.left ≡ t.left
  pub time_same : s.time ≡ t.time
  pub sent_same : s.sent ++ b ≡ t.sent

pub xfer-Sent : (b out : List ℕ) (s t : Wire) → wire_bus.xfer b s ≡ done out t → Sent b out s t
xfer-Sent b out s t e =
    let state : record s { left = fewer s.left; sent = s.sent ++ b } ≡ t = cc e in
    record {
      out_same = cc e;
      left_same = ap (λ (u : Wire). u.left) state;
      time_same = ap (λ (u : Wire). u.time) state;
      sent_same = ap (λ (u : Wire). u.sent) state;
    }

-- Each status that this slave shows has the bit of a packet that was taken.
get_or-map : (v : ℕ) (b : List ℕ) (i : ℕ) → i < length b → get_or (map (λ x. v) b) i 0 ≡ v
get_or-map v [] i h = absurd (omega arith)
get_or-map v (x ∷ b) zero h = refl
get_or-map v (x ∷ b) (suc i) h = get_or-map v b i (omega arith)

pub status-Taken : (n j : ℕ) (b : List ℕ) → j * 4 < length b → Taken (reply n b) j
status-Taken zero j b h = rw (get_or-map 0x40 b (j * 4) h) refl
status-Taken (suc n) zero [] h = absurd (omega arith)
status-Taken (suc n) zero (x ∷ b) h = refl
status-Taken (suc n) (suc j) [] h = absurd (omega arith)
status-Taken (suc n) (suc j) (x ∷ []) h = absurd (omega arith)
status-Taken (suc n) (suc j) (x ∷ y ∷ b) h =
    let at : suc j * 4 ≡ suc (suc (j * 4 + 2)) = omega arith in
    rw (at, get_or-map 0x41 b (j * 4 + 2) (omega arith)) refl

abbrev pub wire_slave : Slave wire_bus wire_clock (λ s. Unit {0})
wire_slave = record {
  serves = record {
    answers = λ bytes s r some_bytes small. returns (length-reply s.left bytes, tt);
    rests = λ n s r. tt;
  };
  micros = λ s. s.time;
  answers = λ s. s.left;
  now_shown = λ s. refl;
  micros-now = λ s. refl;
  answers-now = λ s. refl;
  Ready-now = λ s r. tt;
  micros-usleep = λ n s. omega arith;
  answers-usleep = λ n s. omega arith;
  micros-xfer = λ b out s t e. let same = (xfer-Sent b out s t e).time_same in omega (arith, same);
  answers-xfer = λ b out s t e.
      let sent = xfer-Sent b out s t e in rw (← sent.out_same, ← sent.left_same) (used_up s.left b);
}

abbrev pub wire_console : Console wire_bus wire_clock wire_select (λ s. Unit {0})
wire_console = record {
  slave = wire_slave;
  Ready-select = λ n s r. tt;
  Later-select = λ n s. record { time = omega arith; talk = omega arith };
  empty-select = λ s e. absurd (ground arith);
}

abbrev pub wire_takes : Takes wire_bus wire_heap (λ s. Unit {0}) (λ s. s.sent)
wire_takes = record {
  serves = wire_slave.serves;
  taken = λ bytes out s t j r e h.
      subst (λ o. Taken o j) (xfer-Sent bytes out s t e).out_same (status-Taken s.left j bytes h);
  shifted-xfer = λ bytes out s t e. sym (xfer-Sent bytes out s t e).sent_same;
  shifted-malloc = λ n s. refl;
  shifted-free = λ s. refl;
  quiet = record { after_malloc = λ n s r. tt; after_free = λ s r. tt };
  memory = λ n s. refl;
  shifted-usleep = λ n s. refl;
}

abbrev pub wire_init : Cmd Wire ℕ
wire_init = pure 0

abbrev pub power_on : Wire
power_on = record { time = 0; left = 3; sent = [] }

abbrev pub shell : Process Wire ℕ ℕ
shell = record {
  world = power_on;
  terminal = 7;
  guard = record { saved_term = 0; raw_mode = false; registered = false };
}

-- No answer comes from the heap.
pub no_answers : (s : Wire) → s.left ≤ s.left
no_answers s = omega arith
