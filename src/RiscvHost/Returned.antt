-- ===== src/RiscvHost/Returned.antt =====
-- The program of riscv/host_server/main.c returns, whatever the FPGA answers.
use ice40_ultraplus_examples.Base.{
  ℕ, zero, suc, ◌≡◌, refl, Bool, true, false, List, [], ◌∷◌, length, ap, if◌then◌else◌,
}
use ice40_ultraplus_examples.Cmd.{Cmd}
use ice40_ultraplus_examples.Cmd.Returns
use ice40_ultraplus_examples.Cmd.Returns.{Returns, returns}
use ice40_ultraplus_examples.Bus.{Bus}
use ice40_ultraplus_examples.Bus.Tries.{Serves}
use ice40_ultraplus_examples.SpiHost.Keeps.{
  Keeps, spi_send-Keeps, spi_send24b-Keeps, spi_read-Keeps,
}
use ice40_ultraplus_examples.Firmware.{Files}
use ice40_ultraplus_examples.RiscvHost.Opened.{Opened, firmware_of, behind, main-run}
use ice40_ultraplus_examples.RiscvHost.{
  send_words, load, set_leds, ask, send_matrix, read_values, run_commands, run, main,
}

module _ {S : Type 0} {bus : Bus S} {Ready : S → Type 0} (serves : Serves bus Ready) where
  send_words-Keeps : (past : ℕ) (firmware : List ℕ) → Keeps Ready (send_words bus past firmware)
  unfolding send_words
  send_words-Keeps past [] s r = returns r
  send_words-Keeps past (a ∷ []) s r =
      Returns.bind (spi_send-Keeps serves _ _ _ (serves.rests 1000 s r)) λ out t e r'. returns r'
  send_words-Keeps past (a ∷ b ∷ more) s r =
      Returns.bind (spi_send-Keeps serves _ _ _ (serves.rests 1000 s r))
        λ out t e r'. send_words-Keeps past more t r'

  load-Keeps : (past : ℕ) (firmware : List ℕ) → Keeps Ready (load bus past firmware)
  unfolding load
  load-Keeps past firmware s r =
      Returns.bind (spi_send-Keeps serves _ _ _ (serves.rests 1000000 s r)) λ out t e r'.
        Returns.bind (send_words-Keeps past firmware t r') λ out' u e' r''.
          Returns.bind (spi_send-Keeps serves _ _ _ (serves.rests 2000000 u r''))
            λ out'' v e'' r'''. returns (serves.rests 1000000 v r''')

  set_leds-Keeps : (colours : List ℕ) → Keeps Ready (set_leds bus colours)
  unfolding set_leds
  set_leds-Keeps [] s r = returns r
  set_leds-Keeps (colour ∷ more) s r =
      Returns.bind (spi_send-Keeps serves _ _ s r)
        λ out t e r'. set_leds-Keeps more (bus.usleep 1000000 t) (serves.rests 1000000 t r')

  ask-Keeps : (cmd value : ℕ) → Keeps Ready (ask bus cmd value)
  unfolding ask
  ask-Keeps cmd value s r = Returns.bind (spi_send24b-Keeps serves _ _ s r) λ out t e r'.
      Returns.bind (spi_read-Keeps serves _ (serves.rests 1000000 t r'))
        λ out' u e' r''. returns (serves.rests 1000000 u r'')

  send_matrix-Keeps : (wait : ℕ) (elements : List ℕ) → Keeps Ready (send_matrix bus wait elements)
  unfolding send_matrix
  send_matrix-Keeps wait [] s r = returns r
  send_matrix-Keeps wait (x ∷ more) s r =
      Returns.bind (spi_send24b-Keeps serves _ _ s r)
        λ out t e r'. send_matrix-Keeps wait more (bus.usleep wait t) (serves.rests wait t r')

  read_values-length :
      (n : ℕ) (s : S)
      → Ready s
      → Returns (λ out t. (length out ≡ n) × Ready t) (read_values bus n s)
  unfolding read_values
  read_values-length zero s r = returns (refl, r)
  read_values-length (suc n) s r = Returns.bind (spi_read-Keeps serves s r) λ out t e r'.
      Returns.bind (read_values-length n t r') λ more u e' (len, r''). returns (ap suc len, r'')

  run_commands-length :
      (s : S) → Ready s → Returns (λ out t. (length out ≡ 6) × Ready t) (run_commands bus s)
  unfolding run_commands
  run_commands-length s r = Returns.bind (set_leds-Keeps _ s r) λ _ t e rt.
      Returns.bind (ask-Keeps _ _ t rt) λ square u e' ru.
        Returns.bind (ask-Keeps _ _ u ru) λ fibonacci v e'' rv.
          Returns.bind (send_matrix-Keeps _ _ v rv) λ _ w f rw'.
            Returns.bind (send_matrix-Keeps _ _ w rw') λ _ x f' rx.
              Returns.bind (read_values-length 4 x rx) λ product y f'' (len, ry).
                Returns.bind (spi_send24b-Keeps serves _ _ _ (serves.rests 1000000 y ry))
                  λ _ z g rz. returns (ap (λ k. suc (suc k)) len, serves.rests 8000000 z rz)

  run-Ready :
      (past : ℕ) (load_only : Bool) (firmware : List ℕ) (s : S)
      → Ready s
      → Returns
          (λ out t. (out.0 ≡ 0) × (length out.1 ≡ (if load_only then 0 else 6)) × Ready t)
          (run bus past load_only firmware s)
  unfolding run
  run-Ready past true firmware s r =
      Returns.bind (load-Keeps past firmware s r) λ out t e r'. returns (refl, refl, r')
  run-Ready past false firmware s r = Returns.bind (load-Keeps past firmware s r) λ out t e r'.
      Returns.bind (run_commands-length t r') λ values u e' (len, r''). returns (refl, len, r'')

  -- With the arguments understood, the file opened and the bus ready behind its read: the program
  -- returns with the bus ready and status 0, whatever `spi_init` returned and whether or not the
  -- FPGA took what was sent. It has read no value if it only loads, and six otherwise.
  pub main-Ready :
      (files : Files S) (spi_init : Cmd S ℕ) (past : ℕ) (arguments : List (List ℕ)) (s : S)
      (path : List ℕ) (load_only : Bool) (rc : ℕ) (u : S)
      → Opened bus files spi_init past arguments s path load_only rc u
      → Ready (behind bus files spi_init past path u)
      → Returns
          (λ out t. (out.0 ≡ 0) × (length out.1 ≡ (if load_only then 0 else 6)) × Ready t)
          (main bus files spi_init past arguments s)
  main-Ready files spi_init past arguments s path load_only rc u opened r =
      main-run bus files spi_init past arguments s path load_only rc u opened (
        run-Ready past load_only (firmware_of bus files spi_init past path u)
          (behind bus files spi_init past path u) r)
