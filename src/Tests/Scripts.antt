-- ===== src/Tests/Scripts.antt =====
-- The programs of spi/spi_host and spi_hw/spi_host at a bus that echoes.
use ice40_ultraplus_examples.Base.{ℕ, ◌≡◌, refl, List, [], length}
use ice40_ultraplus_examples.Cmd.{Cmd, pure}
use ice40_ultraplus_examples.Cmd.Returns.{Returns}
use ice40_ultraplus_examples.SpiHw.Program as SpiHw
use ice40_ultraplus_examples.SpiHw.Program.Script.{Said, script, main-script}
use ice40_ultraplus_examples.Tests.Devices.{echo_bus, echo_bus-Serves, echo_bus-log}

abbrev no_init : Cmd (List (List ℕ)) ℕ
no_init = pure 0

main-script_example :
    Returns
      (λ out u.
        (out.0 ≡ 0)
        × (length out.1 ≡ 7)
        × Said echo_bus-Serves (λ s. s) echo_bus-log (λ n s. refl) script [] u)
      (SpiHw.main echo_bus no_init [])
main-script_example =
    main-script echo_bus-Serves (λ s. s) echo_bus-log (λ n s. refl) no_init [] 0 [] refl tt
