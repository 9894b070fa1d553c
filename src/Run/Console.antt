-- ===== src/Run/Console.antt =====
-- The peers of the loop of comet2_spi_run.c, and what a poll of stdin finds.
use ice40_ultraplus_examples.Base.{
  ℕ, ◌+◌, ◌≤◌, ◌≡◌, refl, sym, subst, ◌⊎◌, inl, inr, Bool, true, false, Option, none, some, List,
  arith, not, ◌&&◌, if◌then◌else◌, ℤ, negsuc,
}
use ice40_ultraplus_examples.Cmd.{Cmd, pure}
use ice40_ultraplus_examples.Cmd.Returns
use ice40_ultraplus_examples.Cmd.Returns.{Returns, returns}
use ice40_ultraplus_examples.Bus.{Bus}
use ice40_ultraplus_examples.Input.{Source}
use ice40_ultraplus_examples.Loader.Slave.{Slave, Later, Later-refl}
use ice40_ultraplus_examples.Run.{
  is_interactive, is_positive, poll_stdin, poll_text, stdin_poll_char,
}
use ice40_ultraplus_examples.Run.Sources.{Found, take_key-Found, poll_text-Found}

-- What the loop relies on. The events of the slave are the answers that the FPGA will still give
-- and the polls of a raw terminal that will still find it empty: such a poll uses one up.
pub record Console {S : Type 0} (bus : Bus S) (now_ms : S → ℕ × S) (select_stdin : ℕ → S → ℤ × S)
    (Ready : S → Type 0) : Type 0 where
  pub slave : Slave bus now_ms Ready
  pub Ready-select : (n : ℕ) (s : S) → Ready s → Ready (select_stdin n s).1
  pub Later-select : (n : ℕ) (s : S) → Later slave s (select_stdin n s).1
  pub empty-select :
      (s : S)
      → is_positive (select_stdin 0 s).0 ≡ false
      → slave.answers (select_stdin 0 s).1 + 1 ≤ slave.answers s

-- The user at a raw terminal has not ended the input.
abbrev pub waiting : Source → Bool
waiting src = is_interactive src && not src.eof

waiting-raw_mode : (src : Source) → waiting src ≡ true → src.raw_mode ≡ true
unfolding is_interactive
waiting-raw_mode src w = ground arith

waiting-open : (src : Source) → src.eof ≡ true → waiting src ≡ true → ⊥
unfolding is_interactive
waiting-open src ended w = ground arith

waiting-text : (src : Source) (text : List ℕ) → src.text ≡ some text → waiting src ≡ true → ⊥
unfolding is_interactive
waiting-text src text e w = ground arith

module _ {S : Type 0} {bus : Bus S} {now_ms : S → ℕ × S} {select_stdin : ℕ → S → ℤ × S}
    {Ready : S → Type 0} (console : Console bus now_ms select_stdin Ready) where
  open console use {slave}
  open slave use {micros, answers}

  pub now-Later : (s : S) → Later slave s (now_ms s).1
  now-Later s = record {
    time = omega (arith, slave.micros-now s);
    talk = omega (arith, slave.answers-now s);
  }

  empty_wait :
      (n : ℕ) (s : S)
      → n ≡ 0
      → is_positive (select_stdin n s).0 ≡ false
      → answers (select_stdin n s).1 + 1 ≤ answers s
  empty_wait n s z =
      subst
        (λ k.
          is_positive (select_stdin k s).0 ≡ false → answers (select_stdin k s).1 + 1 ≤ answers s)
        (sym z) (console.empty-select s)

  -- A poll finds something, or nothing: then a user who is waited for uses up an event.
  abbrev pub Poll : Source → S → Source × ℤ → S → Type 0
  Poll src s out t =
      Later slave s t
      × Ready t
      × (Found src out.0
          ⊎ ((out ≡ (src, negsuc 0)) × (waiting src ≡ true → answers t + 1 ≤ answers s)))

  poll_stdin-Poll :
      (src : Source) (s : S)
      → src.text ≡ none
      → Ready s
      → Returns (Poll src s) (poll_stdin bus now_ms select_stdin src s)
  unfolding poll_stdin
  poll_stdin-Poll src s none_text r =
      Returns.branch_at src.eof _ _ s
        (λ ended.
          returns (Later-refl slave s, r, inr (refl, λ w. absurd (waiting-open src ended w))))
        (λ open_input.
          let usec = if src.raw_mode then 0 else 1000 in
          let t = (select_stdin usec s).1 in
          Returns.branch_at (is_positive (select_stdin usec s).0) _ _ t
            (λ found. returns (
              console.Later-select usec s,
              console.Ready-select usec s r,
              inl (take_key-Found src none_text open_input src.stdin refl),
            ))
            (λ empty. returns (
              console.Later-select usec s,
              console.Ready-select usec s r,
              inr (refl, λ w. empty_wait usec s (rw (waiting-raw_mode src w)) empty),
            )))

  -- `stdin_poll_char` over any source.
  pub stdin_poll_char-Poll :
      (src : Source) (s : S)
      → Ready s
      → Returns (Poll src s) (stdin_poll_char bus now_ms select_stdin src s)
  unfolding stdin_poll_char
  stdin_poll_char-Poll src s r = by_text src.text refl
    where
      by_text :
          (text : Option (List ℕ))
          → src.text ≡ text
          → Returns (Poll src s) (
              let c : Cmd S (Source × ℤ) = elim text [
                | some chars ↦ pure (poll_text chars src)
                | none ↦ poll_stdin bus now_ms select_stdin src
              ] in
              c s)
      by_text none e = poll_stdin-Poll src s e r
      by_text (some text) e = elim (poll_text-Found text src e) [
        | inl found ↦ returns (Later-refl slave s, r, inl found)
        | inr empty ↦
            rw empty
              (returns (Later-refl slave s, r, inr (refl, λ w. absurd (waiting-text src text e w))))
      ]
