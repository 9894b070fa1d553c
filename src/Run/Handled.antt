-- ===== src/Run/Handled.antt =====
-- What the loop of comet2_spi_run.c does with a packet or a character, while time passes and both
-- the FPGA and the user at the terminal get on.
use ice40_ultraplus_examples.Base.{
  ℕ, ◌+◌, ◌/◌, ◌%◌, ◌≤◌, ◌≡◌, refl, sym, subst, ap, ◌∙◌, Bool, true, false, List, [], ◌∷◌, ◌++◌,
  map, arith, ◌==◌, append-nil, ℤ, pos, negsuc,
}
use ice40_ultraplus_examples.Cmd.Returns
use ice40_ultraplus_examples.Cmd.Returns.{Returns, returns}
use ice40_ultraplus_examples.Bus.{Bus}
use ice40_ultraplus_examples.Spi.{Bytes3}
use ice40_ultraplus_examples.Input.{Source, input_source_next_blocking}
use ice40_ultraplus_examples.Loader.{cmd_in_char, cmd_in_request, rsp_out_char}
use ice40_ultraplus_examples.Loader as Loader
use ice40_ultraplus_examples.Loader.Slave.{Later, Later-refl, Later-trans, spi_send-Later}
use ice40_ultraplus_examples.Loader.Packets.{out_byte}
use ice40_ultraplus_examples.Run.{current_timeout_ms, shown, next_deadline, forward, take_packet}
use ice40_ultraplus_examples.Run.Sources.{
  inputs, inputs-put, Spent, Spent-refl, input_source_next_blocking-Spent,
}
use ice40_ultraplus_examples.Run.Console.{Console, now-Later}

-- What a packet prints.
unfoldable pub printed_bytes : Bytes3 → List ℕ
printed_bytes p = map shown (out_byte p)

printed_bytes-out : (p : Bytes3) → p.0 == rsp_out_char ≡ true → printed_bytes p ≡ shown p.1 ∷ []
unfolding printed_bytes out_byte
printed_bytes-out p e = rw e

printed_bytes-other : (p : Bytes3) → p.0 == rsp_out_char ≡ false → printed_bytes p ≡ []
unfolding printed_bytes out_byte
printed_bytes-other p e = rw e

pub timeout-le :
    (src : Source) (idle drain patience : ℕ)
    → idle ≤ patience
    → drain ≤ patience
    → current_timeout_ms src idle drain ≤ patience
unfolding current_timeout_ms
timeout-le src idle drain patience a b = ground arith

module _ {S : Type 0} {bus : Bus S} {now_ms : S → ℕ × S} {select_stdin : ℕ → S → ℤ × S}
    {Ready : S → Type 0} (console : Console bus now_ms select_stdin Ready) where
  open console use {slave}
  open slave use {micros, answers}

  module _ (idle drain patience : ℕ) (a : idle ≤ patience) (b : drain ≤ patience) where
    -- A deadline is at most `patience` milliseconds ahead.
    abbrev pub Near : (deadline : ℕ) → S → Type 0
    Near deadline s = deadline ≤ micros s / 1000 + patience

    pub next_deadline-Near :
        (src : Source) (s : S)
        → Ready s
        → Returns
            (λ out t. Near out t × Later slave s t × Ready t)
            (next_deadline bus now_ms select_stdin idle drain src s)
    unfolding next_deadline
    next_deadline-Near src s r = returns (
      omega (arith, slave.now_shown s, slave.micros-now s, timeout-le src idle drain patience a b),
      now-Later console s,
      slave.Ready-now s r,
    )

    -- What handling a packet or a character leaves. `bytes` is what it prints outside raw mode.
    pub record Handled (src : Source) (bytes : List ℕ) (s : S) (out : Bool × ℕ × Source) (t : S)
        : Type 0 where
      pub later : Later slave s t
      pub ready : Ready t
      pub near : Near out.1 t
      pub text : out.2.text ≡ src.text
      pub raw_mode : out.2.raw_mode ≡ src.raw_mode
      pub fewer : inputs out.2 ≤ inputs src
      pub printed : src.raw_mode ≡ false → out.2.echoed ≡ src.echoed ++ bytes

    comet_send_in_char-Later :
        (ch : ℕ) (s : S)
        → Ready s
        → Returns (λ out t. Later slave s t × Ready t) (Loader.comet_send_in_char bus ch s)
    unfolding Loader.comet_send_in_char
    comet_send_in_char-Later ch s r =
        Returns.bind (spi_send-Later slave cmd_in_char (cmd_in_char, ch, 0) s r)
          λ out t e p. returns p

    pub record Forwarded (src : Source) (s : S) (out : Bool × ℕ × Source) (t : S) : Type 0 where
      pub later : Later slave s t
      pub ready : Ready t
      pub near : Near out.1 t
      pub same : out.2 ≡ src

    pub forward-Forwarded :
        (c : ℤ) (deadline : ℕ) (src : Source) (s : S)
        → Ready s
        → Near deadline s
        → Returns (Forwarded src s) (forward bus now_ms select_stdin idle drain c deadline src s)
    unfolding forward
    forward-Forwarded (negsuc n) deadline src s r near =
        returns (record { later = Later-refl slave s; ready = r; near = near; same = refl })
    forward-Forwarded (pos ch) deadline src s r near =
        Returns.bind (comet_send_in_char-Later (ch % 256) s r) λ rc t e (later, ready).
          Returns.branch_at (rc == 0) _ _ t
            (λ sent. Returns.bind (next_deadline-Near src t ready) λ d u e' (near', later', ready').
              returns (record {
                later = Later-trans slave later later';
                ready = ready';
                near = near';
                same = refl;
              }))
            (λ failed. returns (record {
              later = later;
              ready = ready;
              near = omega (arith, near, later.time);
              same = refl;
            }))

    pub Spent-forward :
        (src src' : Source) (s : S) (out : Bool × ℕ × Source) (t : S)
        → Spent src src'
        → Forwarded src' s out t
        → Handled src [] s out t
    Spent-forward src src' s out t spent f = record {
      later = f.later;
      ready = f.ready;
      near = f.near;
      text = ap (λ (k : Source). k.text) f.same ∙ spent.text;
      raw_mode = ap (λ (k : Source). k.raw_mode) f.same ∙ spent.raw_mode;
      fewer = subst (λ k. inputs k ≤ inputs src) (sym f.same) spent.fewer;
      printed = λ cooked.
          ap (λ (k : Source). k.echoed) f.same ∙ spent.quiet cooked ∙ sym (append-nil src.echoed);
    }

    unprinted :
        (p : Bytes3) (src : Source) (s : S) (out : Bool × ℕ × Source) (t : S)
        → p.0 == rsp_out_char ≡ false
        → Handled src [] s out t
        → Handled src (printed_bytes p) s out t
    unprinted p src s out t other h =
        subst (λ k. Handled src k s out t) (sym (printed_bytes-other p other)) h

    pub take_packet-Handled :
        (p : Bytes3) (src : Source) (s : S)
        → Ready s
        → Returns
            (Handled src (printed_bytes p) s)
            (take_packet bus now_ms select_stdin idle drain p src s)
    unfolding take_packet
    take_packet-Handled p src s r =
        Returns.bind (next_deadline-Near src s r) λ d t e (near, later, ready).
          let kept : Forwarded src s (true, d, src) t = record {
            later = later;
            ready = ready;
            near = near;
            same = refl;
          } in
          Returns.branch_at (p.0 == rsp_out_char) _ _ t
            (λ out_char. returns (record {
              later = later;
              ready = ready;
              near = near;
              text = refl;
              raw_mode = refl;
              fewer = omega (arith, inputs-put src (shown p.1));
              printed = λ cooked. rw (printed_bytes-out p out_char);
            }))
            (λ other.
              Returns.branch_at (p.0 == cmd_in_request) _ _ t
                (λ request.
                  let next = input_source_next_blocking src in
                  Returns.weaken (forward-Forwarded next.1 d next.0 t ready near) λ out u f.
                    unprinted p src s out u other (
                      Spent-forward src next.0 s out u (input_source_next_blocking-Spent src)
                        (record {
                          later = Later-trans slave later f.later;
                          ready = f.ready;
                          near = f.near;
                          same = f.same;
                        })))
                (λ ignored. returns (
                  unprinted p src s (true, d, src) t other
                    (Spent-forward src src s (true, d, src) t (Spent-refl src) kept))))
