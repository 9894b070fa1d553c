-- ===== src/Run/Clock.antt =====
-- The clock in front of a round of the loop of comet2_spi_run.c.
use ice40_ultraplus_examples.Base.{
  ℕ, ◌+◌, ◌/◌, ◌≤◌, ◌<◌, ◌≡◌, refl, Bool, true, false, arith, leb, ℤ,
}
use ice40_ultraplus_examples.Cmd.Returns
use ice40_ultraplus_examples.Cmd.Returns.{Returns, returns}
use ice40_ultraplus_examples.Bus.{Bus}
use ice40_ultraplus_examples.Input.{Source}
use ice40_ultraplus_examples.Loader.Slave.{Later, Later-refl, Later-trans}
use ice40_ultraplus_examples.Run.{is_interactive, current_timeout_ms, next_deadline, check_time}
use ice40_ultraplus_examples.Run.Console.{Console, waiting, now-Later}

leb-le : (a b : ℕ) → leb a b ≡ true → a ≤ b
leb-le a b h = ground arith

leb-lt : (a b : ℕ) → leb a b ≡ false → b < a
leb-lt a b h = ground arith

module _ {S : Type 0} {bus : Bus S} {now_ms : S → ℕ × S} {select_stdin : ℕ → S → ℤ × S}
    {Ready : S → Type 0} (console : Console bus now_ms select_stdin Ready) (idle drain patience : ℕ)
    (a : idle ≤ patience) (b : drain ≤ patience) where
  open console use {slave}
  open slave use {micros, answers}

  -- The clock in front of a round. A user who is waited for puts the deadline off.
  pub record Checked (deadline : ℕ) (src : Source) (s : S) (out : ℕ × Bool) (t : S) : Type 0 where
    pub later : Later slave s t
    pub ready : Ready t
    pub near : out.0 ≤ micros t / 1000 + patience
    pub kept : waiting src ≡ false → out.0 ≡ deadline
    pub early : out.1 ≡ false → micros t / 1000 < out.0
    pub late : out.1 ≡ true → waiting src ≡ true → idle ≡ 0

  held-Checked :
      (deadline held : ℕ) (src : Source) (s t : S)
      → Ready t
      → Later slave s t
      → held ≤ micros t / 1000 + patience
      → (waiting src ≡ false → held ≡ deadline)
      → (waiting src ≡ true → held ≡ micros t / 1000 + idle)
      → Checked deadline src s (held, leb held (now_ms t).0) (now_ms t).1
  held-Checked deadline held src s t ready later near kept moved =
      let shown = slave.now_shown t in
      let same = slave.micros-now t in
      record {
        later = Later-trans slave later (now-Later console t);
        ready = slave.Ready-now t ready;
        near = omega (arith, near, same);
        kept = kept;
        early = λ e. omega (arith, leb-lt held (now_ms t).0 e, shown, same);
        late = λ e w. omega (arith, leb-le held (now_ms t).0 e, shown, moved w);
      }

  pub not_waiting : {P : Type 0} (src : Source) → waiting src ≡ true → waiting src ≡ false → P
  not_waiting src w n = absurd (ground arith)

  waiting_timeout : (src : Source) → waiting src ≡ true → current_timeout_ms src idle drain ≡ idle
  unfolding current_timeout_ms
  waiting_timeout src w = ground arith

  pub check_time-Checked :
      (deadline : ℕ) (src : Source) (s : S)
      → Ready s
      → deadline ≤ micros s / 1000 + patience
      → Returns
          (Checked deadline src s)
          (check_time bus now_ms select_stdin idle drain (is_interactive src) deadline src s)
  unfolding check_time next_deadline
  check_time-Checked deadline src s r near =
      Returns.bind
        (Returns.branch_at
          {P = λ held t.
            Ready t
            × Later slave s t
            × (held ≤ micros t / 1000 + patience)
            × (waiting src ≡ false → held ≡ deadline)
            × (waiting src ≡ true → held ≡ micros t / 1000 + idle)}
          (waiting src) _ _ s
          (λ w. returns (
            slave.Ready-now s r,
            now-Later console s,
            omega (arith, a, slave.now_shown s, slave.micros-now s, waiting_timeout src w),
            (λ n. not_waiting src w n),
            (λ k. omega (arith, slave.now_shown s, slave.micros-now s, waiting_timeout src w)),
          ))
          (λ n. returns (r, Later-refl slave s, near, λ k. refl, λ k. not_waiting src k n)))
        λ held t e (ready, later, near', kept, moved).
          returns (held-Checked deadline held src s t ready later near' kept moved)
