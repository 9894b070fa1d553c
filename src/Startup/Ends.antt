-- ===== src/Startup/Ends.antt =====
-- However the two programs end, the terminal is guarded until then.
use ice40_ultraplus_examples.Base.{
  ℕ, zero, suc, ◌≡◌, refl, Bool, false, ◌==◌, ℤ, pos, negsuc, equals,
}
use ice40_ultraplus_examples.Cmd.{Cmd}
use ice40_ultraplus_examples.Options.{RunOptions}
use ice40_ultraplus_examples.Terminal.{Tty, Process, setup_raw_mode}
use ice40_ultraplus_examples.Terminal.Restored.{
  Works, Guarded, restore_terminal-Restored, Restored-Guarded, at_world-Guarded,
  setup_raw_mode-Guarded, Ends, by_value, Ends-test, plain, lift-Ends,
}
use ice40_ultraplus_examples.Startup.{run_firmware, run, start_up}

module _ {S T Attrs L B : Type 0} {tty : Tty T Attrs} (works : Works tty) (keeps_signals : Bool)
    (spi_init : Cmd S ℕ) (load : RunOptions → Cmd S ℤ) (loop : RunOptions → Bool → Cmd S L)
    (report : L → ℕ × B) (silence : B) where
  open works use {attrs}

  run_firmware-Ends :
      (a : Attrs) (opts : RunOptions) (raw_mode : Bool) (p : Process S T Attrs)
      → Guarded works a p
      → Ends works
          (Guarded works a)
          (run_firmware tty keeps_signals spi_init load loop report silence opts raw_mode p)
  unfolding run_firmware
  run_firmware-Ends a opts raw_mode p g =
      lift-Ends works _ _ p (λ s. at_world-Guarded works a p s g)
        λ rc s.
          let q = record p { world = s } in
          Ends-test works (equals rc 0) _ _ q
            (lift-Ends works _ _ q (λ t. at_world-Guarded works a p t g)
              λ out t. by_value (
                Restored-Guarded works (
                  restore_terminal-Restored works a (record p { world = t })
                    (at_world-Guarded works a p t g))))
            (by_value (at_world-Guarded works a p s g))

  run-Ends :
      (opts : RunOptions) (p : Process S T Attrs)
      → p.guard.raw_mode ≡ false
      → Ends works
          (Guarded works (attrs p.terminal))
          (run tty keeps_signals spi_init load loop report silence opts p)
  unfolding run
  run-Ends opts p off =
      lift-Ends works _ _ p (λ s. plain off refl)
        λ rc s.
          let q = record p { world = s } in
          Ends-test works (rc == 0) _ _ q
            (run_firmware-Ends (attrs p.terminal) opts _ (setup_raw_mode tty keeps_signals q)
              (setup_raw_mode-Guarded works keeps_signals q off))
            (by_value (plain off refl))

  pub start_up-Ends :
      (rc : ℤ) (opts : RunOptions) (p : Process S T Attrs)
      → p.guard.raw_mode ≡ false
      → Ends works
          (Guarded works (attrs p.terminal))
          (start_up tty keeps_signals spi_init load loop report silence rc opts p)
  unfolding start_up
  start_up-Ends (pos zero) opts p off = run-Ends opts p off
  start_up-Ends (pos (suc n)) opts p off = by_value (plain off refl)
  start_up-Ends (negsuc n) opts p off = by_value (plain off refl)
