-- ===== src/Riscv/Service.antt =====
-- One round of the firmware's main loop answers one command as a table of services says.
use ice40_ultraplus_examples.Base.{
  true, get_or, drop, ℕ, ◌*◌, ◌%◌, ◌^◌, ◌≡◌, refl, ◌∙◌, ap, sym, List, [], ◌∷◌, ◌++◌, arith,
  append-nil, ◌==◌, if◌then◌else◌, leb, bit_and, Bool-cases, ==→eq, inl, inr,
}
use ice40_ultraplus_examples.Cmd.{Outcome, done, and_then}
use ice40_ultraplus_examples.Cmd.Returns
use ice40_ultraplus_examples.Cmd.Returns.{Returns, returns}
use ice40_ultraplus_examples.Riscv.{
  Registers, Locals, fib, matrix_mult, matrix_total_size, shift_right_8, colours, set_led, gradient,
  take_element, matrix_command, dispatch, main_round,
}
use ice40_ultraplus_examples.Riscv.Arithmetic.{fib-fibonacci}
use ice40_ultraplus_examples.Riscv.Board.{Board, products, settle, service, signed_value, answer}
use ice40_ultraplus_examples.Riscv.Gradient.{soft_colours, colours-soft_colours}
use ice40_ultraplus_examples.Riscv.Results.{
  Wrote, nothing, light-Wrote, light_all-Wrote, write_result-Wrote, write_results-Wrote,
}

shift_right_8-signed_value : (read : ℕ) → shift_right_8 read ≡ signed_value read
unfolding signed_value
shift_right_8-signed_value read = ground arith

module _ {S : Type 0} {regs : Registers S} {rounds : ℕ} (b : Board regs rounds) where
  open b use {commands, written, lit}

  matrix_command-Wrote :
      (l : Locals) (value : ℕ) (s : S)
      → Returns
          (Wrote b s (settle (take_element l value)) (products (take_element l value)) [])
          (matrix_command regs rounds l value s)
  unfolding matrix_command products settle
  matrix_command-Wrote l value s =
      let m = take_element l value in
      elim (Bool-cases (leb (matrix_total_size * 2) m.mat_counter)) [
        | inl full ↦ rw full (
            Returns.bind (write_results-Wrote b (matrix_mult m.mat0 m.mat1 m.mat_result) s)
              λ out t e w.
                returns (record {
                  value = refl;
                  results = w.results;
                  colours = w.colours;
                  kept = w.kept;
                }))
        | inr more ↦ rw more (returns (nothing b refl refl refl))
      ]

  -- A command that writes something, and the rest of `dispatch`, which writes nothing more.
  then_keep :
      {r : Outcome S (Unit {0})} {l : Locals} {rs cs : List ℕ} (s : S)
      → Returns (Wrote b s tt rs cs) r
      → Returns (Wrote b s l rs cs) (and_then r λ x t. done l t)
  then_keep s r = Returns.bind r λ out t e w.
      returns (record { value = refl; results = w.results; colours = w.colours; kept = w.kept })

  set_led-Wrote :
      (v : ℕ) (s : S) → Returns (Wrote b s tt [] (bit_and v 0x7 ∷ [])) (set_led regs v s)
  unfolding set_led
  set_led-Wrote v s = returns (light-Wrote b (bit_and v 0x7) s)

  gradient-Wrote : (s : S) → Returns (Wrote b s tt [] soft_colours) (gradient regs s)
  unfolding gradient
  gradient-Wrote s = rw (← colours-soft_colours) (light_all-Wrote b (colours 7 1) s)

  dispatch-Wrote :
      (l : Locals) (operation value : ℕ) (s : S)
      → let (l', rs, cs) = service l operation value in
        Returns (Wrote b s l' rs cs) (dispatch regs rounds l operation value s)
  unfolding dispatch service
  dispatch-Wrote l operation value s = elim (Bool-cases (operation == 0x4)) [
    | inl e ↦ rw (==→eq operation 0x4 e) (then_keep s (set_led-Wrote value s))
    | inr no4 ↦ elim (Bool-cases (operation == 0x5)) [
      | inl e ↦ rw (==→eq operation 0x5 e) (then_keep s (gradient-Wrote s))
      | inr no5 ↦ elim (Bool-cases (operation == 0x6)) [
        | inl e ↦
            rw (==→eq operation 0x6 e, ← fib-fibonacci value)
              (then_keep s (write_result-Wrote b (fib value) s))
        | inr no6 ↦ elim (Bool-cases (operation == 0x7)) [
          | inl e ↦
              rw (==→eq operation 0x7 e)
                (then_keep s (write_result-Wrote b (value * value % 2 ^ 32) s))
          | inr no7 ↦ elim (Bool-cases (operation == 0x8)) [
            | inl e ↦ rw (==→eq operation 0x8 e) (matrix_command-Wrote l value s)
            | inr no8 ↦ rw (no4, no5, no6, no7, no8) (returns (nothing b refl refl refl))
          ]
        ]
      ]
    ]
  ]

  -- What is read of a waiting command, and what is left once it is acknowledged.
  read_word :
      (s : S)
      → b.waiting s ≡ true
      → let t = (regs.load_spi 0 s).1 in (regs.load_spi 1 t).0 ≡ get_or (commands s) 0 0
  read_word s command = sym (ap (λ c. get_or c 0 0) (b.presents s command))

  -- One round of the main loop returns. With no command waiting it writes nothing and changes no
  -- variable; otherwise it takes the command, writes exactly the results and the colours of the
  -- command's service, in order, each result while the write buffer is free, and leaves the
  -- variables as that service says.
  pub main_round-service :
      (l : Locals) (s : S)
      → let (l', rs, cs) =
          (if b.waiting s then answer l (get_or (commands s) 0 0) else (l, [], [])) in
        Returns
          (λ out t.
            (out ≡ l')
            × (written t ≡ written s ++ rs)
            × (lit t ≡ lit s ++ cs)
            × (commands t ≡ (if b.waiting s then drop 1 (commands s) else commands s)))
          (main_round regs rounds l s)
  unfolding main_round
  main_round-service l s =
      let t = (regs.load_spi 0 s).1 in
      let u = (regs.load_spi 1 t).1 in
      let v = regs.store_spi 2 1 u in
      let read = get_or (commands s) 0 0 in
      let same_written : written (regs.pass_rounds 16 v) ≡ written s =
        b.written-pass 16 v ∙ b.written-acknowledge u ∙ b.written-load 1 t ∙ b.written-load 0 s in
      let same_lit : lit (regs.pass_rounds 16 v) ≡ lit s =
        b.lit-pass 16 v ∙ b.lit-store 2 1 u ∙ b.lit-load 1 t ∙ b.lit-load 0 s in
      let taken : commands (regs.pass_rounds 16 v) ≡ drop 1 (commands s) =
        b.commands-acknowledge 16 u (omega arith)
        ∙ ap (λ c. drop 1 c) (b.commands-load 1 t ∙ b.commands-load 0 s) in
      elim (Bool-cases (b.waiting s)) [
        | inl command ↦
            rw (b.status_waiting s, command, read_word s command, shift_right_8-signed_value read)
              (Returns.weaken
                (dispatch-Wrote l (read % 256) (signed_value read) (regs.pass_rounds 16 v))
                λ out w x.
                  (x.value, x.results ∙ rw same_written, x.colours ∙ rw same_lit, x.kept ∙ taken))
        | inr idle ↦
            rw (b.status_waiting s, idle)
              (returns (
                refl,
                b.written-load 0 s ∙ sym (append-nil _),
                b.lit-load 0 s ∙ sym (append-nil _),
                b.commands-load 0 s,
              ))
      ]
