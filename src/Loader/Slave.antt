-- ===== src/Loader/Slave.antt =====
-- The peer of the capture loop of comet2_spi_loader.c: the passing time and the answers of the FPGA
-- through `spi_send` and `comet_read_packet`.
use ice40_ultraplus_examples.Base.{
  ℕ, ◌+◌, ◌/◌, ◌≤◌, ◌<◌, ◌≡◌, refl, ◌⊎◌, inl, inr, Bool, true, false, List, arith, if◌then◌else◌,
  Bool-cases, ◌==◌, pos, negsuc,
}
use ice40_ultraplus_examples.Cmd.{Cmd, done}
use ice40_ultraplus_examples.Cmd.Returns
use ice40_ultraplus_examples.Cmd.Returns.{Returns, returns}
use ice40_ultraplus_examples.Bus.{Bus}
use ice40_ultraplus_examples.Bus.Tries.{Serves, Refused, none_yet, one_more}
use ice40_ultraplus_examples.Spi.{Bytes3, has_answer, was_received, poll, spi_send, spi_read}
use ice40_ultraplus_examples.Spi.Send.{spi_send-Sent}
use ice40_ultraplus_examples.Spi.Read.{spi_read-Answered}
use ice40_ultraplus_examples.Loader.{comet_read_packet}

-- What the loop relies on. `micros` is the time: the clock shows it in whole milliseconds, `usleep`
-- takes at least what it is given, and nothing turns it back. `answers` is how often the FPGA will
-- still answer: a reply with the bit of an answer uses one up.
pub record Slave {S : Type 0} (bus : Bus S) (now_ms : S → ℕ × S) (Ready : S → Type 0) : Type 0 where
  pub serves : Serves bus Ready
  pub micros : S → ℕ
  pub answers : S → ℕ
  pub now_shown : (s : S) → (now_ms s).0 ≡ micros s / 1000
  pub micros-now : (s : S) → micros (now_ms s).1 ≡ micros s
  pub answers-now : (s : S) → answers (now_ms s).1 ≡ answers s
  pub Ready-now : (s : S) → Ready s → Ready (now_ms s).1
  pub micros-usleep : (n : ℕ) (s : S) → micros s + n ≤ micros (bus.usleep n s)
  pub answers-usleep : (n : ℕ) (s : S) → answers (bus.usleep n s) ≤ answers s
  pub micros-xfer : (b out : List ℕ) (s t : S) → bus.xfer b s ≡ done out t → micros s ≤ micros t
  pub answers-xfer :
      (b out : List ℕ) (s t : S)
      → bus.xfer b s ≡ done out t
      → answers t + (if has_answer out then 1 else 0) ≤ answers s

-- What the result code of a read says of the answers.
counted :
    (rc a b c : ℕ) (has : Bool)
    → ((rc ≡ 1) × (has ≡ true)) ⊎ (rc ≡ 0)
    → a + (if has then 1 else 0) ≤ b
    → b ≤ c
    → a + (if rc == 0 then 0 else 1) ≤ c
counted rc a b c has (inl (one, found)) h k = rw one (omega (arith, rw found at h))
counted rc a b c true (inr none_found) h k = rw none_found (omega arith)
counted rc a b c false (inr none_found) h k = rw none_found (omega arith)

module _ {S : Type 0} {bus : Bus S} {now_ms : S → ℕ × S} {Ready : S → Type 0}
    (slave : Slave bus now_ms Ready) where
  open slave use {serves, micros, answers, micros-usleep, answers-usleep, micros-xfer, answers-xfer}

  -- No earlier, and no more answers to come.
  pub record Later (s t : S) : Type 0 where
    pub time : micros s ≤ micros t
    pub talk : answers t ≤ answers s

  pub Later-refl : (s : S) → Later s s
  Later-refl s = record { time = omega arith; talk = omega arith }

  pub Later-trans : {s t u : S} → Later s t → Later t u → Later s u
  Later-trans p q = record {
    time = omega (arith, p.time, q.time);
    talk = omega (arith, p.talk, q.talk);
  }

  xfer-Later : (b out : List ℕ) (s t : S) → bus.xfer b s ≡ done out t → Later s t
  xfer-Later b out s t e = record {
    time = micros-xfer b out s t e;
    talk = omega (arith, answers-xfer b out s t e);
  }

  usleep-Later : (n : ℕ) (s : S) → Later s (bus.usleep n s)
  usleep-Later n s = record { time = omega (arith, micros-usleep n s); talk = answers-usleep n s }

  Refused-Later :
      (step : List ℕ → Cmd S (List ℕ)) (accept : List ℕ → Bool)
      (mono : (b out : List ℕ) (s t : S) → step b s ≡ done out t → Later s t) {b : List ℕ} {s : S}
      {n : ℕ} {b' : List ℕ} {t : S}
      → Refused step accept b s n b' t
      → Later s t
  Refused-Later step accept mono none_yet = Later-refl _
  Refused-Later step accept mono (one_more {b = c} {b' = c'} {t = u} {t' = u'} r e refused) =
      Later-trans (Refused-Later step accept mono r) (mono c c' u u' e)

  poll-Later : (b out : List ℕ) (s t : S) → poll bus b s ≡ done out t → Later s t
  unfolding poll
  poll-Later b out s t e = Later-trans (usleep-Later 2 s) (xfer-Later b out (bus.usleep 2 s) t e)

  pub spi_send-Later :
      (cmd : ℕ) (val : Bytes3) (s : S)
      → Ready s
      → Returns (λ out t. Later s t × Ready t) (spi_send bus cmd val s)
  spi_send-Later cmd val s r =
      Returns.weaken (spi_send-Sent serves cmd val s r) λ out t (sent, ready). (
        Later-trans (Refused-Later bus.xfer was_received xfer-Later sent.tried.before)
            (xfer-Later _ _ _ _ sent.tried.last),
        ready,
      )

  -- A read takes time, and what it reports as an answer is one.
  record Read (s : S) (rc : ℕ) (t : S) : Type 0 where
    time : micros s < micros t
    talk : answers t + (if rc == 0 then 0 else 1) ≤ answers s

  poll-last :
      (b out : List ℕ) (s t : S)
      → poll bus b s ≡ done out t
      → (micros s + 2 ≤ micros t) × (answers t + (if has_answer out then 1 else 0) ≤ answers s)
  unfolding poll
  poll-last b out s t e =
      let u = bus.usleep 2 s in
      (
        omega (arith, micros-usleep 2 s, micros-xfer b out u t e),
        omega (arith, answers-usleep 2 s, answers-xfer b out u t e),
      )

  spi_read-Read : (s : S) → Ready s → Returns (λ out t. Read s out.0 t × Ready t) (spi_read bus s)
  spi_read-Read s r = Returns.weaken (spi_read-Answered serves s r) λ out t (a, ready).
      let l = Refused-Later (poll bus) has_answer poll-Later a.tried.before in
      let (time, talk) = poll-last _ _ _ _ a.tried.last in
      (
        record {
          time = omega (arith, l.time, time);
          talk =
              counted out.0 _ _ _ _
                (elim a.outcome [
                  | inl (one, few, found) ↦ inl (one, found)
                  | inr (none_found, all) ↦ inr none_found
                ])
                talk l.talk;
        },
        ready,
      )

  pub comet_read_packet-Read :
      (s : S)
      → Ready s
      → Returns
          (λ out t.
            (micros s < micros t)
            × (((out.0 ≡ pos 0) × (answers t + 1 ≤ answers s))
                ⊎ ((out.0 ≡ negsuc 0) × (answers t ≤ answers s)))
            × Ready t)
          (comet_read_packet bus s)
  unfolding comet_read_packet
  comet_read_packet-Read s r = Returns.bind (spi_read-Read s r) λ out t e (read, ready).
      elim (Bool-cases (out.0 == 0)) [
        | inl z ↦ rw z (returns (read.time, inr (refl, omega (arith, rw z at read.talk)), ready))
        | inr z ↦ rw z (returns (read.time, inl (refl, omega (arith, rw z at read.talk)), ready))
      ]
