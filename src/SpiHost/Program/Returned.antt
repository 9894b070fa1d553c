-- ===== src/SpiHost/Program/Returned.antt =====
-- The program of spi/spi_host/main.c returns, whatever the FPGA answers.
use ice40_ultraplus_examples.Base.{ℕ, zero, suc, ◌≡◌, refl, ap, length}
use ice40_ultraplus_examples.Cmd.{Cmd, done}
use ice40_ultraplus_examples.Cmd.Returns
use ice40_ultraplus_examples.Cmd.Returns.{Returns, returns}
use ice40_ultraplus_examples.Bus.{Bus}
use ice40_ultraplus_examples.Bus.Tries.{Serves}
use ice40_ultraplus_examples.SpiHost.Keeps.{
  Keeps, spi_send-Keeps, spi_send24b-Keeps, spi_read-Keeps,
}
use ice40_ultraplus_examples.SpiHost.Program.{read_pair, send_vector, read_vector, run, main}

module _ {S : Type 0} {bus : Bus S} {Ready : S → Type 0} (serves : Serves bus Ready) where
  read_pair-Keeps : Keeps Ready (read_pair bus)
  unfolding read_pair
  read_pair-Keeps s r = Returns.bind (spi_read-Keeps serves s r) λ out t e r'. returns r'

  send_vector-Keeps : (left i : ℕ) → Keeps Ready (send_vector bus left i)
  unfolding send_vector
  send_vector-Keeps zero i s r = returns r
  send_vector-Keeps (suc left) i s r =
      Returns.bind (spi_send24b-Keeps serves _ _ s r)
        λ out t e r'. send_vector-Keeps left (suc i) t r'

  read_vector-length :
      (left : ℕ) (s : S)
      → Ready s
      → Returns (λ out t. (length out ≡ left) × Ready t) (read_vector bus left s)
  unfolding read_vector
  read_vector-length zero s r = returns (refl, r)
  read_vector-length (suc left) s r = Returns.bind (read_pair-Keeps s r) λ out t e r'.
      Returns.bind (read_vector-length left t r') λ more u e' (len, r''). returns (ap suc len, r'')

  run-Ready :
      (s : S) → Ready s → Returns (λ out t. (out.0 ≡ 0) × (length out.1 ≡ 6) × Ready t) (run bus s)
  unfolding run
  run-Ready s r = Returns.bind (spi_send-Keeps serves _ _ s r) λ _ s₁ _ r₁.
      Returns.bind (spi_send-Keeps serves _ _ s₁ r₁) λ _ s₂ _ r₂.
        Returns.bind (spi_send-Keeps serves _ _ s₂ r₂) λ _ s₃ _ r₃.
          Returns.bind (read_pair-Keeps s₃ r₃) λ inverted s₄ _ r₄.
            Returns.bind (spi_send-Keeps serves _ _ s₄ r₄) λ _ s₅ _ r₅.
              Returns.bind (spi_send-Keeps serves _ _ s₅ r₅) λ _ s₆ _ r₆.
                Returns.bind (read_pair-Keeps s₆ r₆) λ led s₇ _ r₇.
                  Returns.bind (spi_send-Keeps serves _ _ _ (serves.rests 2000000 s₇ r₇))
                    λ _ s₈ _ r₈. Returns.bind (send_vector-Keeps 4 0 s₈ r₈) λ _ s₉ _ r₉.
                      Returns.bind (spi_send-Keeps serves _ _ _ (serves.rests 1000 s₉ r₉))
                        λ _ t _ rt.
                          Returns.bind (read_vector-length 4 t rt)
                            λ vector u _ (len, ru). returns (refl, ap (λ n. suc (suc n)) len, ru)

  -- With a bus that is ready behind `spi_init`, whatever that returned: the program of spi/spi_host
  -- returns with the bus ready, status 0 and six readings, whether or not the FPGA took what was
  -- sent.
  pub host_main-Ready :
      (spi_init : Cmd S ℕ) (s : S) (rc : ℕ) (t : S)
      → spi_init s ≡ done rc t
      → Ready t
      → Returns (λ out u. (out.0 ≡ 0) × (length out.1 ≡ 6) × Ready u) (main bus spi_init s)
  unfolding main
  host_main-Ready spi_init s rc t begun r = rw begun (run-Ready t r)
