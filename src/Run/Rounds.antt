-- ===== src/Run/Rounds.antt =====
-- One round of the loop of comet2_spi_run.c.
use ice40_ultraplus_examples.Base.{
  ℕ, ◌+◌, ◌/◌, ◌≤◌, ◌<◌, ◌≡◌, refl, ap, ◌⊎◌, inl, inr, Bool, true, false, Option, none, some, List,
  [], arith, Bool-cases, ℤ, pos, negsuc,
}
use ice40_ultraplus_examples.Cmd.{done}
use ice40_ultraplus_examples.Cmd.Returns
use ice40_ultraplus_examples.Cmd.Returns.{Returns, returns}
use ice40_ultraplus_examples.Bus.{Bus}
use ice40_ultraplus_examples.Spi.{Bytes3}
use ice40_ultraplus_examples.Input.{Source}
use ice40_ultraplus_examples.Loader.{comet_read_packet}
use ice40_ultraplus_examples.Loader.Slave.{Later, Later-trans, comet_read_packet-Read}
use ice40_ultraplus_examples.Run.{forward, take_packet, poll_input, round}
use ice40_ultraplus_examples.Run.Sources.{inputs, Spent, Spent-refl, Found}
use ice40_ultraplus_examples.Run.Console.{Console, waiting, stdin_poll_char-Poll}
use ice40_ultraplus_examples.Run.Handled.{
  Handled, forward-Forwarded, Spent-forward, printed_bytes, take_packet-Handled,
}

-- What a round prints outside raw mode, by what it read.
unfoldable pub shown_by : Option Bytes3 → List ℕ
shown_by none = []
shown_by (some p) = printed_bytes p

module _ {S : Type 0} {bus : Bus S} {now_ms : S → ℕ × S} {select_stdin : ℕ → S → ℤ × S}
    {Ready : S → Type 0} (console : Console bus now_ms select_stdin Ready) (idle drain patience : ℕ)
    (a : idle ≤ patience) (b : drain ≤ patience) where
  open console use {slave}
  open slave use {micros, answers}

  abbrev pub HandledBy : Source → List ℕ → S → Bool × ℕ × Source → S → Type 0
  HandledBy = Handled console idle drain patience a b

  -- A round got on: an event or a character of the input is used up. Or it found nothing and only
  -- took time, which happens when no user is waited for.
  abbrev pub GotOn : (deadline : ℕ) → Source → S → Bool × ℕ × Source → S → Type 0
  GotOn deadline src s out t =
      (answers t + inputs out.2 + 1 ≤ answers s + inputs src)
      ⊎ ((out ≡ (true, deadline, src))
          × (waiting src ≡ false)
          × (micros s < micros t)
          × (answers t ≤ answers s))

  Found-Spent : (s t : Source) → Found s t → Spent s t
  Found-Spent s t f = record {
    text = f.text;
    raw_mode = f.raw_mode;
    fewer = omega (arith, f.fewer);
    quiet = f.quiet;
  }

  Handled-earlier :
      {src : Source} {bytes : List ℕ} {s t : S} {out : Bool × ℕ × Source} {w : S}
      → Later slave s t
      → HandledBy src bytes t out w
      → HandledBy src bytes s out w
  Handled-earlier since h = record {
    later = Later-trans slave since h.later;
    ready = h.ready;
    near = h.near;
    text = h.text;
    raw_mode = h.raw_mode;
    fewer = h.fewer;
    printed = h.printed;
  }

  -- A poll that found nothing.
  found_nothing :
      (deadline : ℕ) (src : Source) (s t : S)
      → Ready t
      → Later slave s t
      → micros s < micros t
      → deadline ≤ micros t / 1000 + patience
      → (waiting src ≡ true → answers t + 1 ≤ answers s)
      → HandledBy src [] s (true, deadline, src) t × GotOn deadline src s (true, deadline, src) t
  found_nothing deadline src s t r since time near wait = (
    Spent-forward console idle drain patience a b src src s (true, deadline, src) t (Spent-refl src)
        (record { later = since; ready = r; near = near; same = refl }),
    elim (Bool-cases (waiting src)) [
      | inl w ↦ inl (omega (arith, wait w))
      | inr none_waits ↦ inr (refl, none_waits, time, since.talk)
    ],
  )

  poll_input-GotOn :
      (deadline : ℕ) (src : Source) (s u : S)
      → Ready u
      → Later slave s u
      → micros s < micros u
      → deadline ≤ micros u / 1000 + patience
      → Returns
          (λ out t. HandledBy src [] s out t × GotOn deadline src s out t)
          (poll_input bus now_ms select_stdin idle drain deadline src u)
  unfolding poll_input forward
  poll_input-GotOn deadline src s u r since time near =
      Returns.bind (stdin_poll_char-Poll console src u r) λ out t e (later, ready, found).
        elim found [
          | inl f ↦
              Returns.weaken
                (forward-Forwarded console idle drain patience a b out.1 deadline out.0 t ready
                  (omega (arith, later.time)))
                λ next w fw.
                  let sofar = Later-trans slave since later in
                  (
                    Handled-earlier sofar (
                        Spent-forward console idle drain patience a b src out.0 t next w
                          (Found-Spent src out.0 f) fw),
                    inl (omega (arith, f.fewer, ap inputs fw.same, fw.later.talk, sofar.talk)),
                  )
          | inr (nothing, wait) ↦ rw nothing (
              returns (
                found_nothing deadline src s t ready (Later-trans slave since later)
                  (omega (arith, time, later.time)) (omega (arith, near, later.time))
                  λ w. omega (arith, wait w, since.talk)))
        ]

  -- What a round reads: a packet, or none, and what it does then.
  pub data Round (deadline : ℕ) (src : Source) (s : S) (out : Bool × ℕ × Source) (t : S)
      : Option Bytes3 → Type 0 where
    silent :
        {u : S} {read : ℤ × Bytes3} {r : Option Bytes3}
        → comet_read_packet bus s ≡ done read u
        → read.0 ≡ negsuc 0
        → poll_input bus now_ms select_stdin idle drain deadline src u ≡ done out t
        → r ≡ none
        → Round deadline src s out t r
    said :
        {u : S} {read : ℤ × Bytes3} {r : Option Bytes3}
        → comet_read_packet bus s ≡ done read u
        → read.0 ≡ pos 0
        → take_packet bus now_ms select_stdin idle drain read.1 src u ≡ done out t
        → r ≡ some read.1
        → Round deadline src s out t r

  pub record Rounded (deadline : ℕ) (src : Source) (s : S) (out : Bool × ℕ × Source) (t : S)
      : Type 0 where
    pub read : Option Bytes3
    pub is_round : Round deadline src s out t read
    pub handled : HandledBy src (shown_by read) s out t
    pub got_on : GotOn deadline src s out t

  pub round-Rounded :
      (deadline : ℕ) (src : Source) (s : S)
      → Ready s
      → deadline ≤ micros s / 1000 + patience
      → Returns (Rounded deadline src s) (round bus now_ms select_stdin idle drain deadline src s)
  unfolding round shown_by
  round-Rounded deadline src s r near =
      Returns.bind (comet_read_packet-Read slave s r) λ out u e (time, found, ready). elim found [
        | inl (ok, fewer) ↦ rw ok (
            Returns.weaken_with
              (take_packet-Handled console idle drain patience a b out.1 src u ready)
              λ next t e' h. record {
                read = some out.1;
                is_round = said e ok e' refl;
                handled =
                    Handled-earlier
                      (record { time = omega (arith, time); talk = omega (arith, fewer) }) h;
                got_on = inl (omega (arith, fewer, h.later.talk, h.fewer));
              })
        | inr (failed, same) ↦ rw failed (
            Returns.weaken_with
              (poll_input-GotOn deadline src s u ready
                (record { time = omega (arith, time); talk = omega (arith, same) }) time
                (omega (arith, near, time)))
              λ next t e' got. record {
                read = none;
                is_round = silent e failed e' refl;
                handled = got.0;
                got_on = got.1;
              })
      ]
