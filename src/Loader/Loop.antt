-- ===== src/Loader/Loop.antt =====
-- The capture loop of comet2_spi_loader.c ends, and keeps the capture true, while time passes and
-- the FPGA has only so many answers to give.
use ice40_ultraplus_examples.Base.{
  ◌∷◌, Bool, ℕ, zero, suc, ◌+◌, ◌-◌, ◌*◌, ◌/◌, ◌≤◌, ◌<◌, ◌≡◌, refl, sym, subst, ◌⊎◌, inl, inr, true,
  false, List, [], ◌++◌, arith, ltb, not, length, Bool-cases, ℤ, pos, negsuc, append_assoc,
  append-nil,
}
use ice40_ultraplus_examples.Cmd.{done}
use ice40_ultraplus_examples.Cmd.Returns
use ice40_ultraplus_examples.Cmd.Returns.{Returns, returns}
use ice40_ultraplus_examples.Bus.{Bus}
use ice40_ultraplus_examples.Spi.{Bytes3}
use ice40_ultraplus_examples.Loader.{take_packet, comet_read_packet, Io, io_loop, run_io_loop}
use ice40_ultraplus_examples.Loader.Capture.{Captured}
use ice40_ultraplus_examples.Loader.Slave.{Slave, Later, comet_read_packet-Read}
use ice40_ultraplus_examples.Loader.Packets.{
  out_byte, out_bytes, Heard, over, silent, said, broken, take_packet-Taken,
}
use ice40_ultraplus_examples.Loader.Budget.{not_early, is_early, quiet_budget, answer_budget}

module _ {S : Type 0} {bus : Bus S} {now_ms : S → ℕ × S} {Ready : S → Type 0}
    (slave : Slave bus now_ms Ready) where
  open slave use {serves, micros, answers, micros-usleep, answers-usleep, micros-xfer, answers-xfer}

  -- How the loop ends: with 0 or -1, and with 0 not before `deadline`. It read `packets`, no more
  -- than the answers used up, and the capture holds the bytes of exactly these.
  pub record Ended (deadline : ℕ) (bytes : List ℕ) (s : S) (io : Io) (out : ℤ × Io) (t : S)
      : Type 0 where
    pub code : ((out.0 ≡ pos 0) × (deadline ≤ micros t / 1000)) ⊎ (out.0 ≡ negsuc 0)
    pub packets : List Bytes3
    pub heard : Heard bus now_ms s io packets t
    pub few : length packets + answers t ≤ answers s
    pub captured : Captured out.1.capture (bytes ++ out_bytes packets)

  now-Later : (s : S) → Later slave s (now_ms s).1
  now-Later s = record {
    time = omega (arith, slave.micros-now s);
    talk = omega (arith, slave.answers-now s);
  }

  stopped :
      (deadline : ℕ) (bytes : List ℕ) (s : S) (io : Io)
      → deadline ≤ micros (now_ms s).1 / 1000
      → Captured io.capture bytes
      → Ended deadline bytes s io (pos 0, io) (now_ms s).1
  unfolding out_bytes
  stopped deadline bytes s io late c = record {
    code = inl (refl, late);
    packets = [];
    heard = over;
    few = omega (arith, slave.answers-now s);
    captured = subst (Captured io.capture) (sym (append-nil bytes)) c;
  }

  no_sooner :
      {d d' m : ℕ} {rc : ℤ}
      → ((rc ≡ pos 0) × (d' ≤ m)) ⊎ (rc ≡ negsuc 0)
      → d ≤ d'
      → ((rc ≡ pos 0) × (d ≤ m)) ⊎ (rc ≡ negsuc 0)
  no_sooner (inl (zero_code, late)) before = inl (zero_code, omega arith)
  no_sooner (inr failed) before = inr failed

  -- A round with a packet, and the rest of the loop.
  Ended-said :
      {d d' : ℕ} {bytes : List ℕ} {s t w : S} {io : Io} {read : ℤ × Bytes3} {next : Bool × Io}
      {out : ℤ × Io} {u : S}
      → d ≤ d'
      → answers w + 1 ≤ answers s
      → comet_read_packet bus (now_ms s).1 ≡ done read t
      → read.0 ≡ pos 0
      → take_packet bus read.1 io (now_ms t).1 ≡ done next w
      → next.0 ≡ true
      → Ended d' (bytes ++ out_byte read.1) w next.1 out u
      → Ended d bytes s io out u
  unfolding out_bytes
  Ended-said {bytes} {read} {out} before few e ok e' go rest = record {
    code = no_sooner rest.code before;
    packets = read.1 ∷ rest.packets;
    heard = said e ok e' go rest.heard;
    few = omega (arith, few, rest.few);
    captured =
        subst (Captured out.1.capture)
          (append_assoc bytes (out_byte read.1) (out_bytes rest.packets)) rest.captured;
  }

  -- A round with a packet that ends the loop.
  Ended-broken :
      {d : ℕ} {bytes : List ℕ} {s t w : S} {io : Io} {read : ℤ × Bytes3} {next : Bool × Io}
      → answers w + 1 ≤ answers s
      → comet_read_packet bus (now_ms s).1 ≡ done read t
      → read.0 ≡ pos 0
      → take_packet bus read.1 io (now_ms t).1 ≡ done next w
      → next.0 ≡ false
      → Captured next.1.capture (bytes ++ out_byte read.1)
      → Ended d bytes s io (negsuc 0, next.1) w
  unfolding out_bytes
  Ended-broken {bytes} {read} {next} few e ok e' stop c = record {
    code = inr refl;
    packets = read.1 ∷ [];
    heard = broken e ok e' stop;
    few = omega (arith, few);
    captured =
        subst (λ k. Captured next.1.capture (bytes ++ k)) (sym (append-nil (out_byte read.1))) c;
  }

  -- A round that heard nothing.
  Ended-silent :
      {d : ℕ} {bytes : List ℕ} {s t : S} {io : Io} {read : ℤ × Bytes3} {out : ℤ × Io} {u : S}
      → answers t ≤ answers s
      → comet_read_packet bus (now_ms s).1 ≡ done read t
      → read.0 ≡ negsuc 0
      → Ended d bytes t io out u
      → Ended d bytes s io out u
  Ended-silent few e failed rest = record {
    code = rest.code;
    packets = rest.packets;
    heard = silent e failed rest.heard;
    few = omega (arith, few, rest.few);
    captured = rest.captured;
  }

  -- The clock in front of a round and the time behind its read.
  late_time :
      (s : S) (deadline : ℕ)
      → not (ltb (now_ms s).0 deadline) ≡ true
      → deadline ≤ micros (now_ms s).1 / 1000
  late_time s deadline late =
      omega (arith, not_early (now_ms s).0 deadline late, slave.now_shown s, slave.micros-now s)

  early_time :
      (s : S) (deadline : ℕ) → not (ltb (now_ms s).0 deadline) ≡ false → micros s / 1000 < deadline
  early_time s deadline early =
      omega (arith, is_early (now_ms s).0 deadline early, slave.now_shown s)

  read_later : (s t : S) → micros (now_ms s).1 < micros t → micros s < micros t
  read_later s t time = omega (arith, time, slave.micros-now s)

  module _ (idle : ℕ) where
    abbrev budget : S → (deadline : ℕ) → ℕ
    budget s deadline = answers s * (idle * 1000 + 1) + (deadline * 1000 - micros s)

    io_loop-Ended :
        (fuel deadline : ℕ) (io : Io) (bytes : List ℕ) (s : S)
        → Captured io.capture bytes
        → Ready s
        → deadline ≤ micros s / 1000 + idle
        → budget s deadline < fuel
        → Returns (Ended deadline bytes s io) (io_loop bus now_ms idle fuel deadline io s)
    unfolding io_loop
    io_loop-Ended zero deadline io bytes s c r near enough = absurd (omega arith)
    io_loop-Ended (suc fuel) deadline io bytes s c r near enough =
        let u = (now_ms s).1 in
        Returns.branch_at (not (ltb (now_ms s).0 deadline)) _ _ u
          (λ late. returns (stopped deadline bytes s io (late_time s deadline late) c))
          (λ early.
            Returns.bind (comet_read_packet-Read slave u (slave.Ready-now s r))
              λ out t e (time, found, ready). elim found [
                | inl (zero_code, fewer) ↦
                    let v = (now_ms t).1 in
                    let less : answers t + 1 ≤ answers s =
                      omega (arith, fewer, slave.answers-now s) in
                    let shown = slave.now_shown t in
                    let same = slave.micros-now t in
                    let asked = slave.answers-now t in
                    rw zero_code (
                      Returns.bind
                        (take_packet-Taken slave out.1 io bytes v c (slave.Ready-now t ready))
                        λ out' w e' taken.
                          let since = taken.later.time in
                          let kept : answers w + 1 ≤ answers s =
                            omega (arith, taken.later.talk, less, asked) in
                          elim (Bool-cases out'.0) [
                            | inl go ↦ rw go (
                                Returns.weaken
                                  (io_loop-Ended fuel ((now_ms t).0 + idle) out'.1
                                    (bytes ++ out_byte out.1) w taken.captured taken.ready
                                    (omega (arith, shown, same, since))
                                    (answer_budget (answers s) (answers w) idle deadline
                                      ((now_ms t).0 + idle) (micros s) (micros w) fuel kept
                                      (omega (arith, shown, same, since)) enough))
                                  λ o x ended.
                                    Ended-said (omega (arith, near, shown, read_later s t time))
                                      kept e zero_code e' go ended)
                            | inr stop ↦
                                rw stop
                                  (returns (Ended-broken kept e zero_code e' stop taken.captured))
                          ])
                | inr (failed, no_more) ↦ rw failed (
                    Returns.weaken
                      (io_loop-Ended fuel deadline io bytes t c ready
                        (omega (arith, near, read_later s t time))
                        (quiet_budget (answers s) (answers t) _ deadline (micros s) (micros t) fuel
                          (omega (arith, no_more, slave.answers-now s)) (read_later s t time)
                          (early_time s deadline early) enough))
                      λ out' w ended.
                        Ended-silent (omega (arith, no_more, slave.answers-now s)) e failed ended)
              ])

    -- With a ready slave that has only so many answers to give, and from a capture that holds
    -- `bytes`: `run_io_loop` returns 0 or -1 within more rounds than the idle time has
    -- microseconds, for each answer and once more. It returns 0 only when the idle time is over.
    -- The capture then holds `bytes` and the bytes of the OUT packets that the loop read, in
    -- order, cut at 256 with the rest counted.
    pub run_io_loop-Ended :
        (fuel : ℕ) (io : Io) (bytes : List ℕ) (s : S)
        → Captured io.capture bytes
        → Ready s
        → answers s * (idle * 1000 + 1) + idle * 1000 < fuel
        → Returns
            (Ended ((now_ms s).0 + idle) bytes (now_ms s).1 io)
            (run_io_loop bus now_ms idle fuel io s)
    unfolding run_io_loop
    run_io_loop-Ended fuel io bytes s c r enough =
        io_loop-Ended fuel ((now_ms s).0 + idle) io bytes (now_ms s).1 c (slave.Ready-now s r)
          (omega (arith, slave.now_shown s, slave.micros-now s))
          (rw (slave.answers-now s, slave.now_shown s, slave.micros-now s) (omega (arith, enough)))
