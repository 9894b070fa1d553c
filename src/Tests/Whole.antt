-- ===== src/Tests/Whole.antt =====
-- comet2_spi_run from start to end at the slave of Tests/Wire.antt.
use ice40_ultraplus_examples.Base.{[], ◌∷◌, replicate}
use ice40_ultraplus_examples.Cmd.Returns.{Returns}
use ice40_ultraplus_examples.Options.{run_defaults}
use ice40_ultraplus_examples.Input.{Source}
use ice40_ultraplus_examples.Run.Program.Whole.{source_of}
use ice40_ultraplus_examples.Tests.Startup.{small_tty-Works, no_number}
use ice40_ultraplus_examples.Tests.Wire.{
  Wire, wire_files, wire_console, wire_takes, wire_init, power_on, shell, no_answers,
}

abbrev typed : Source
typed =
    source_of small_tty-Works wire_files wire_console wire_takes (λ n s. no_answers s) no_answers
      wire_init no_number 0 5 4800000000 (replicate 1024 0) (0x61 ∷ []) run_defaults shell power_on
