-- ===== src/Ftdi/Port.antt =====
-- The bus of the packet functions is the FTDI device: with a working engine behind it, it serves.
use ice40_ultraplus_examples.Base.{ℕ, ◌≡◌, ◌∙◌, []}
use ice40_ultraplus_examples.Cmd.Returns
use ice40_ultraplus_examples.Bus.{Bus}
use ice40_ultraplus_examples.Bus.Tries.{Serves}
use ice40_ultraplus_examples.Ftdi.{Device, xfer_spi}
use ice40_ultraplus_examples.Ftdi.Engine.{Engine}
use ice40_ultraplus_examples.Ftdi.Transfer.{xfer_spi-frame}

-- The bus that `spi_send` and `spi_read` use.
abbrev pub ftdi_bus : {S : Type 0} → Device S → (rounds : ℕ) → Bus S
ftdi_bus dev rounds = record { xfer = xfer_spi dev rounds; usleep = dev.usleep }

-- Over a working engine the FTDI bus answers every transfer of 1 to 65536 bytes, as long as no
-- bytes are pending between two transfers, which each transfer and each pause keeps.
ftdi_bus-Serves :
    {S : Type 0} {dev : Device S} {rounds : ℕ} (e : Engine dev rounds)
    → Serves (ftdi_bus dev rounds) (λ s. e.pending s ≡ [])
ftdi_bus-Serves e = record {
  answers = λ bytes s idle some_bytes small.
      Returns.weaken (xfer_spi-frame e bytes s idle some_bytes small)
        λ out t (x, len, wire, y). (len, y);
  rests = λ n s idle. e.pending-usleep n s ∙ idle;
}
