-- ===== src/SpiHost/Keeps.antt =====
-- The packet functions of spi/spi_host return, and keep a ready bus ready.
use ice40_ultraplus_examples.Base.{ℕ}
use ice40_ultraplus_examples.Cmd.{Cmd}
use ice40_ultraplus_examples.Cmd.Returns
use ice40_ultraplus_examples.Cmd.Returns.{Returns}
use ice40_ultraplus_examples.Bus.{Bus}
use ice40_ultraplus_examples.Bus.Tries.{Serves}
use ice40_ultraplus_examples.Spi.{Bytes3, spi_send24b}
use ice40_ultraplus_examples.Spi.Send.{spi_send-Sent}
use ice40_ultraplus_examples.SpiHost.{spi_send, spi_read}
use ice40_ultraplus_examples.SpiHost.Read.{spi_read-Polled}

-- A command that returns with the bus ready.
abbrev pub Keeps : {S A : Type 0} (Ready : S → Type 0) → Cmd S A → Type 0
Keeps {S} Ready m = (s : S) → Ready s → Returns (λ out t. Ready t) (m s)

module _ {S : Type 0} {bus : Bus S} {Ready : S → Type 0} (serves : Serves bus Ready) where
  pub spi_send-Keeps : (cmd : ℕ) (val : Bytes3) → Keeps Ready (spi_send bus cmd val)
  spi_send-Keeps cmd val s r = Returns.weaken (spi_send-Sent serves cmd val s r) λ out t p. p.1

  pub spi_send24b-Keeps : (cmd value : ℕ) → Keeps Ready (spi_send24b bus cmd value)
  unfolding spi_send24b
  spi_send24b-Keeps cmd value s r = spi_send-Keeps _ _ s r

  pub spi_read-Keeps : Keeps Ready (spi_read bus)
  spi_read-Keeps s r = Returns.weaken (spi_read-Polled serves s r) λ out t p. p.1
