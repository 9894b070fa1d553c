-- ===== src/Tests/Hosts.antt =====
-- The libraries of spi/spi_host and spi_hw/spi_host at a concrete bus.
use ice40_ultraplus_examples.Base.{
  ℕ, ◌≡◌, ◌<◌, ◌++◌, ◌%◌, ◌^◌, refl, List, [], ◌∷◌, length, get_or, replicate,
}
use ice40_ultraplus_examples.Cmd.{done}
use ice40_ultraplus_examples.Cmd.Returns.{Returns}
use ice40_ultraplus_examples.Bus.{retry}
use ice40_ultraplus_examples.SpiHw.{
  send_again, was_received, spi_command_send_recv, spi_command_send, spi_command_send_32,
}
use ice40_ultraplus_examples.SpiHw.Resend.{Resent, spi_command_send_recv-Resent}
use ice40_ultraplus_examples.SpiHw.Values.{value_of, spi_command_send_32-value_of}
use ice40_ultraplus_examples.Tests.Devices.{echo_bus, echo_bus-Serves, echo_bus-log}

abbrev param : List ℕ
param = 1 ∷ 0x40 ∷ 3 ∷ 4 ∷ 5 ∷ 6 ∷ 7 ∷ []

spi_command_send_recv-Resent_example :
    Returns
      (λ out t. Resent echo_bus-Serves (λ s. s) echo_bus-log (4 ∷ param) [] out t × Unit {0})
      (spi_command_send_recv echo_bus 4 param [])
spi_command_send_recv-Resent_example =
    spi_command_send_recv-Resent echo_bus-Serves (λ s. s) echo_bus-log 4 param [] tt refl

-- The third byte of the echo has the bit of an acknowledgement.
command_taken :
    spi_command_send_recv echo_bus 4 param [] ≡ done (0, 3 ∷ 4 ∷ 5 ∷ 6 ∷ 7 ∷ []) ((4 ∷ param) ∷ [])
unfolding spi_command_send_recv send_again retry was_received
command_taken = refl

value_taken :
    spi_command_send_32 echo_bus 6 0x04034001 []
    ≡ done 0 ((6 ∷ 1 ∷ 0x40 ∷ 3 ∷ 4 ∷ 0 ∷ 0 ∷ 0 ∷ []) ∷ [])
unfolding spi_command_send_32 spi_command_send spi_command_send_recv send_again retry was_received
value_taken = refl

spi_command_send_32-value_of_example :
    Returns
      (λ rc t.
        Unit {0}
        × ((rounds : ℕ) × (request : List ℕ) × (0 < rounds)
            × (t ≡ [] ++ replicate rounds request)
            × (length request ≡ 8)
            × (get_or request 0 0 ≡ 6)
            × (value_of request ≡ 0x04034001 % 2 ^ 32)))
      (spi_command_send_32 echo_bus 6 0x04034001 [])
spi_command_send_32-value_of_example =
    spi_command_send_32-value_of echo_bus-Serves (λ s. s) echo_bus-log 6 0x04034001 [] tt
