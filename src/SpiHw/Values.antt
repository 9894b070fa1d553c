-- ===== src/SpiHw/Values.antt =====
-- `spi_command_send_32`: the value arrives byte by byte, the lowest byte first.
use ice40_ultraplus_examples.Base.{
  ℕ, ◌+◌, ◌*◌, ◌/◌, ◌%◌, ◌^◌, ◌<◌, ◌≡◌, refl, List, [], ◌∷◌, ◌++◌, arith, length, get_or, replicate,
}
use ice40_ultraplus_examples.Cmd.{done}
use ice40_ultraplus_examples.Cmd.Returns
use ice40_ultraplus_examples.Cmd.Returns.{Returns, returns}
use ice40_ultraplus_examples.Bus.{Bus}
use ice40_ultraplus_examples.Bus.Tries.{Serves}
use ice40_ultraplus_examples.SpiHw.{spi_command_send, spi_command_send_32}
use ice40_ultraplus_examples.SpiHw.Resend.{spi_command_send_recv-Resent}

-- The 32-bit value in the bytes 1 to 4 of a packet, the lowest byte first.
unfoldable pub value_of : List ℕ → ℕ
value_of request =
    get_or request 1 0
    + 2 ^ 8 * get_or request 2 0
    + 2 ^ 16 * get_or request 3 0
    + 2 ^ 24 * get_or request 4 0

bytes-value :
    (v : ℕ)
    → v % 256
        + 2 ^ 8 * (v / 2 ^ 8 % 256)
        + 2 ^ 16 * (v / 2 ^ 16 % 256)
        + 2 ^ 24 * (v / 2 ^ 24 % 256)
      ≡ v % 2 ^ 32
bytes-value v = omega arith

module _ {S : Type 0} {bus : Bus S} {Ready : S → Type 0} (serves : Serves bus Ready)
    (log : S → List (List ℕ))
    (log-xfer : (b out : List ℕ) (s t : S)
      → bus.xfer b s ≡ done out t
      → log t ≡ log s ++ b ∷ []) where
  -- From a ready bus the call returns with the bus ready again. All that it transferred is one
  -- packet of eight bytes, 1 or more times: the command, and a value that is `val32b` modulo
  -- 2 ^ 32.
  pub spi_command_send_32-value_of :
      (cmd val32b : ℕ) (s : S)
      → Ready s
      → Returns
          (λ rc t.
            Ready t
            × ((rounds : ℕ) × (request : List ℕ) × (0 < rounds)
                × (log t ≡ log s ++ replicate rounds request)
                × (length request ≡ 8)
                × (get_or request 0 0 ≡ cmd)
                × (value_of request ≡ val32b % 2 ^ 32)))
          (spi_command_send_32 bus cmd val32b s)
  unfolding spi_command_send_32 spi_command_send value_of
  spi_command_send_32-value_of cmd val32b s r =
      Returns.bind (spi_command_send_recv-Resent serves log log-xfer cmd _ s r refl)
        λ out t e (resent, ready). returns (
          ready,
          (resent.rounds, _, resent.some_rounds, resent.same, refl, refl, bytes-value val32b),
        )
