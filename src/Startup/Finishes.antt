-- ===== src/Startup/Finishes.antt =====
-- The two programs return once the firmware runs and their loop returns.
use ice40_ultraplus_examples.Base.{
  ℕ, ◌≡◌, refl, sym, ap, subst, branch, ◌∙◌, Bool, false, ℤ, pos, arith,
}
use ice40_ultraplus_examples.Cmd.{Cmd, done, Outcome, and_then}
use ice40_ultraplus_examples.Cmd.Returns.{Returns, returns}
use ice40_ultraplus_examples.Options.{RunOptions}
use ice40_ultraplus_examples.Terminal.{
  Tty, Process, at_world, lift, restore_terminal, setup_raw_mode, keep_saved, enter_raw,
}
use ice40_ultraplus_examples.Terminal.Restored.{
  Works, Guarded, Restored, restore_terminal-Restored, at_world-Guarded, setup_raw_mode-Guarded,
}
use ice40_ultraplus_examples.Startup.{run_firmware, run, start_up}

-- A command on the world returns, and so does what follows.
lift-Returns :
    {S T Attrs A B : Type 0} {P : A → S → Type 0} {Q : B → Process S T Attrs → Type 0} (m : Cmd S A)
    (k : A → Cmd (Process S T Attrs) B) (p : Process S T Attrs)
    → Returns P (m p.world)
    → ((x : A) (s : S) → m p.world ≡ done x s → P x s → Returns Q (k x (record p { world = s })))
    → Returns Q (and_then (lift m p) k)
unfolding lift
lift-Returns {S} {A} {P} {Q} m k p r next = after (m p.world) r next
  where
    after :
        (out : Outcome S A)
        → Returns P out
        → ((x : A) (s : S) → out ≡ done x s → P x s → Returns Q (k x (record p { world = s })))
        → Returns Q (and_then (at_world p out) k)
    after _ (returns {a} {s} h) next = next a s refl h

-- A command with a known outcome.
at-done :
    {S A : Type 0} {out : Outcome S A} {x : A} {s : S}
    → out ≡ done x s
    → Returns (λ y t. (y ≡ x) × (t ≡ s)) out
at-done e = rw e (returns (refl, refl))

module _ {S T Attrs L B : Type 0} {tty : Tty T Attrs} (works : Works tty) (keeps_signals : Bool)
    (spi_init : Cmd S ℕ) (load : RunOptions → Cmd S ℤ) (loop : RunOptions → Bool → Cmd S L)
    (report : L → ℕ × B) (silence : B) where
  open works use {attrs}

  -- How the program returns: with the report of its loop, and the terminal has the attributes `a`.
  pub record Closed (a : Attrs) (P : L → S → Type 0) (out : ℕ × B) (q : Process S T Attrs)
      : Type 0 where
    pub last : L
    pub looped : P last q.world
    pub result : out ≡ report last
    pub restored : Restored works a q

  restored_world : (p : Process S T Attrs) → (restore_terminal tty p).world ≡ p.world
  unfolding restore_terminal
  restored_world p =
      branch (λ (q : Process S T Attrs). q.world ≡ p.world) p.guard.raw_mode (λ on. refl)
        (λ off. refl)

  setup_world : (p : Process S T Attrs) → (setup_raw_mode tty keeps_signals p).world ≡ p.world
  unfolding setup_raw_mode keep_saved enter_raw
  setup_world p = ground arith

  run_firmware-Closed :
      {P : L → S → Type 0} (a : Attrs) (opts : RunOptions) (raw_mode : Bool) (q : Process S T Attrs)
      (s t : S)
      → Guarded works a q
      → q.world ≡ s
      → load opts s ≡ done (pos 0) t
      → Returns P (loop opts raw_mode t)
      → Returns
          (Closed a P)
          (run_firmware tty keeps_signals spi_init load loop report silence opts raw_mode q)
  unfolding run_firmware
  run_firmware-Closed {P} a opts raw_mode q s t g same loaded looped =
      lift-Returns _ _ q (at-done (ap (load opts) same ∙ loaded)) λ rc u e (zero_code, there).
        rw zero_code (
          lift-Returns {P = P} _ _ (record q { world = u })
            (subst (λ k. Returns P (loop opts raw_mode k)) (sym there) looped)
            λ out v e' holds. returns (record {
              last = out;
              looped = subst (P out) (sym (restored_world (record q { world = v }))) holds;
              result = refl;
              restored =
                  restore_terminal-Restored works a (record q { world = v })
                    (at_world-Guarded works a q v g);
            }))

  pub start_up-Closed :
      {P : L → S → Type 0} (opts : RunOptions) (p : Process S T Attrs) (s t : S)
      → p.guard.raw_mode ≡ false
      → spi_init p.world ≡ done 0 s
      → load opts s ≡ done (pos 0) t
      → Returns P
          (loop opts (setup_raw_mode tty keeps_signals (record p { world = s })).guard.raw_mode t)
      → Returns
          (Closed (attrs p.terminal) P)
          (start_up tty keeps_signals spi_init load loop report silence (pos 0) opts p)
  unfolding start_up run
  start_up-Closed {P} opts p s t cooked found loaded looped =
      lift-Returns _ _ p (at-done found) λ rc u e (zero_code, there).
        rw (zero_code, there)
          (run_firmware-Closed {P = P} (attrs p.terminal) opts _
            (setup_raw_mode tty keeps_signals (record p { world = s })) s t
            (setup_raw_mode-Guarded works keeps_signals (record p { world = s }) cooked)
            (setup_world (record p { world = s })) loaded looped)
