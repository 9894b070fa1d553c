-- ===== src/Run/Loop.antt =====
-- The loop of comet2_spi_run.c ends within the budget of rounds that its peers give it.
use ice40_ultraplus_examples.Base.{
  ℕ, zero, suc, ◌+◌, ◌-◌, ◌*◌, ◌/◌, ◌≤◌, ◌<◌, ◌≡◌, refl, subst, inl, inr, Bool, true, false, arith,
  if◌then◌else◌, Bool-cases, ℤ, pos, negsuc,
}
use ice40_ultraplus_examples.Cmd.{Cmd, done, pure, ◌>>=◌}
use ice40_ultraplus_examples.Cmd.Returns
use ice40_ultraplus_examples.Cmd.Returns.{Returns, returns}
use ice40_ultraplus_examples.Bus.{Bus}
use ice40_ultraplus_examples.Input.{Source}
use native.Mathlib.Nat.{mul-le-mul_left}
use ice40_ultraplus_examples.Loader.Slave.{Later-refl}
use ice40_ultraplus_examples.Run.{
  is_interactive, current_timeout_ms, next_deadline, check_time, round, io_loop, run_io_loop,
}
use ice40_ultraplus_examples.Run.Sources.{inputs}
use ice40_ultraplus_examples.Run.Console.{Console, waiting}
use ice40_ultraplus_examples.Run.Handled.{timeout-le}
use ice40_ultraplus_examples.Run.Clock.{Checked, check_time-Checked}
use ice40_ultraplus_examples.Run.Ended.{
  late, asked, is_interactive-same, Ended, Over-late, Ended-now, Ended-broken, Ended-more,
}
use ice40_ultraplus_examples.Run.Rounds.{GotOn, round-Rounded}

-- The terms of the budget: `a` events for `k` rounds each, and the rounds until the deadline.
got_on_budget :
    (a a' k w w' fuel : ℕ)
    → a' + 1 ≤ a
    → w' ≤ k
    → a * (k + 1) + w < suc fuel
    → a' * (k + 1) + w' < fuel
got_on_budget a a' k w w' fuel fewer most enough = omega (arith, mul-le-mul_left (k + 1) fewer)

silent_budget : (a a' k w w' fuel : ℕ) → a' ≤ a → w' < w → a * k + w < suc fuel → a' * k + w' < fuel
silent_budget a a' k w w' fuel fewer less enough = omega (arith, mul-le-mul_left k fewer)

module _ {S : Type 0} {bus : Bus S} {now_ms : S → ℕ × S} {select_stdin : ℕ → S → ℤ × S}
    {Ready : S → Type 0} (console : Console bus now_ms select_stdin Ready) (idle drain patience : ℕ)
    (a : idle ≤ patience) (b : drain ≤ patience) where
  open console use {slave}
  open slave use {micros, answers}

  abbrev pub EndedBy : (deadline : ℕ) → Source → S → ℤ × Source → S → Type 0
  EndedBy = Ended console idle drain patience a b

  -- The rounds that are left.
  abbrev left_over : (deadline : ℕ) → Source → S → ℕ
  left_over deadline src s = if waiting src then patience * 1000 else deadline * 1000 - micros s

  abbrev budget : (deadline : ℕ) → Source → S → ℕ
  budget deadline src s =
      (answers s + inputs src) * (patience * 1000 + 1) + left_over deadline src s

  left_over-le :
      (deadline : ℕ) (src : Source) (s : S)
      → deadline ≤ micros s / 1000 + patience
      → left_over deadline src s ≤ patience * 1000
  left_over-le deadline src s near = ground arith

  left_over-lt :
      (deadline held : ℕ) (src : Source) (s t u : S)
      → waiting src ≡ false
      → held ≡ deadline
      → micros s ≤ micros t
      → micros t / 1000 < held
      → micros t < micros u
      → left_over held src u < left_over deadline src s
  left_over-lt deadline held src s t u none_waits same before early time =
      rw (none_waits, same) (omega (arith, before, rw same at early, time))

  round_budget :
      (fuel deadline : ℕ) (src : Source) (s t u : S) (held : ℕ) (next : Bool × ℕ × Source)
      → Checked console idle drain patience a b deadline src s (held, false) t
      → GotOn console idle drain patience a b held src t next u
      → next.1 ≤ micros u / 1000 + patience
      → budget deadline src s < suc fuel
      → budget next.1 next.2 u < fuel
  round_budget fuel deadline src s t u held next c (inl fewer) near enough =
      got_on_budget (answers s + inputs src) (answers u + inputs next.2) (patience * 1000)
        (left_over deadline src s) (left_over next.1 next.2 u) fuel
        (omega (arith, fewer, c.later.talk)) (left_over-le next.1 next.2 u near) enough
  round_budget fuel deadline src s t u held next c (inr (same, none_waits, time, talk)) near
        enough =
      rw same (
        silent_budget (answers s + inputs src) (answers u + inputs src) (patience * 1000 + 1)
          (left_over deadline src s) (left_over held src u) fuel (omega (arith, talk, c.later.talk))
          (left_over-lt deadline held src s t u none_waits (c.kept none_waits) c.later.time
            (c.early refl) time)
          enough)

  io_loop-Ended :
      (fuel deadline : ℕ) (src : Source) (s : S)
      → Ready s
      → deadline ≤ micros s / 1000 + patience
      → budget deadline src s < fuel
      → Returns
          (EndedBy deadline src s)
          (io_loop bus now_ms select_stdin idle drain fuel (is_interactive src) deadline src s)
  unfolding io_loop
  io_loop-Ended zero deadline src s r near enough = absurd (omega arith)
  io_loop-Ended (suc fuel) deadline src s r near enough =
      Returns.branch_at src.exit_requested _ _ s
        (λ ask.
          returns
            (Ended-now console idle drain patience a b (inl ask) (Later-refl slave s) (asked ask)))
        (λ stays.
          Returns.bind (check_time-Checked console idle drain patience a b deadline src s r near)
            λ (held, is_late) t e c.
              checked
                (λ next src' u r' near' same enough'.
                  subst
                    (λ k.
                      Returns (EndedBy next src' u)
                        (io_loop bus now_ms select_stdin idle drain fuel k next src' u))
                    same (io_loop-Ended fuel next src' u r' near' enough'))
                held is_late t e c)
    where
      checked :
          ((next : ℕ) (src' : Source) (u : S)
            → Ready u
            → next ≤ micros u / 1000 + patience
            → is_interactive src' ≡ is_interactive src
            → budget next src' u < fuel
            → Returns
                (EndedBy next src' u)
                (io_loop bus now_ms select_stdin idle drain fuel (is_interactive src) next src' u))
          → (held : ℕ) (is_late : Bool) (t : S)
          → check_time bus now_ms select_stdin idle drain (is_interactive src) deadline src s
            ≡ done (held, is_late) t
          → Checked console idle drain patience a b deadline src s (held, is_late) t
          → Returns (EndedBy deadline src s) (
              let c : Cmd S (ℤ × Source) = if is_late then pure (pos 0, src) else (do
                (sent, next, src') ← round bus now_ms select_stdin idle drain held src
                if sent
                    then io_loop bus now_ms select_stdin idle drain fuel
                        (is_interactive src)
                        next
                        src'
                    else pure (negsuc 0, src')) in
              c t)
      checked again held true t e c = returns (
          Ended-now console idle drain patience a b (Over-late console idle drain patience a b c)
            c.later (late e))
      checked again held false t e c =
          Returns.bind (round-Rounded console idle drain patience a b held src t c.ready c.near)
            λ out u e' rounded. elim (Bool-cases out.0) [
              | inl go ↦ rw go (
                  Returns.weaken
                    (again out.1 out.2 u rounded.handled.ready rounded.handled.near
                      (is_interactive-same src out.2 rounded.handled.text rounded.handled.raw_mode)
                      (round_budget fuel deadline src s t u held out c rounded.got_on
                        rounded.handled.near enough))
                    λ end w ended. Ended-more console idle drain patience a b e c rounded go ended)
              | inr stop ↦
                  rw stop (returns (Ended-broken console idle drain patience a b e c rounded stop))
            ]

  first_budget :
      (fuel deadline : ℕ) (src : Source) (s t : S)
      → answers t ≡ answers s
      → deadline ≤ micros t / 1000 + patience
      → (answers s + inputs src) * (patience * 1000 + 1) + patience * 1000 < fuel
      → budget deadline src t < fuel
  first_budget fuel deadline src s t same near enough =
      rw same (omega (arith, left_over-le deadline src t near, enough))

  -- With a clock that `usleep` moves, an FPGA that gives finitely many answers and a
  -- terminal that is found empty finitely often while the loop waits for its user, and with
  -- timeouts of at most `patience` milliseconds: `run_io_loop` returns, within more rounds than
  -- `patience` has microseconds, for each of these events and each character of the input, and
  -- once more. It returns -1, or 0, then the user has asked for the exit, or no user is waited
  -- for, or the idle timeout is 0. Its rounds are `reads`; outside raw mode it has printed the
  -- characters of the OUT packets among them, in order, and nothing else.
  pub run_io_loop-EndedBy :
      (fuel : ℕ) (src : Source) (s : S)
      → Ready s
      → (answers s + inputs src) * (patience * 1000 + 1) + patience * 1000 < fuel
      → Returns
          (EndedBy ((now_ms s).0 + current_timeout_ms src idle drain) src (now_ms s).1)
          (run_io_loop bus now_ms select_stdin idle drain fuel src s)
  unfolding run_io_loop next_deadline
  run_io_loop-EndedBy fuel src s r enough =
      let deadline = (now_ms s).0 + current_timeout_ms src idle drain in
      let near : deadline ≤ micros (now_ms s).1 / 1000 + patience =
        omega
          (arith, slave.now_shown s, slave.micros-now s, timeout-le src idle drain patience a b) in
      io_loop-Ended fuel deadline src (now_ms s).1 (slave.Ready-now s r) near
        (first_budget fuel deadline src s (now_ms s).1 (slave.answers-now s) near enough)
