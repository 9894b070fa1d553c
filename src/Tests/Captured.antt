-- ===== src/Tests/Captured.antt =====
-- comet2_spi_loader from start to end at the slave of Tests/Wire.antt.
use ice40_ultraplus_examples.Base.{refl, [], ◌∷◌, arith, false, replicate}
use ice40_ultraplus_examples.Cmd.Returns.{Returns}
use ice40_ultraplus_examples.Firmware.{read_firmware_file}
use ice40_ultraplus_examples.Options.{loader_defaults, loader_parse_args, parse_options}
use ice40_ultraplus_examples.Loader.{Io}
use ice40_ultraplus_examples.Loader.Settled.{Loaded}
use ice40_ultraplus_examples.Loader.Program.{main}
use ice40_ultraplus_examples.Loader.Program.Finishes.{Finished}
use ice40_ultraplus_examples.Loader.Program.Whole.{Given, io_of, loader_main-loads_and_finishes}
use ice40_ultraplus_examples.Tests.Startup.{small_tty, small_tty-Works, no_number}
use ice40_ultraplus_examples.Tests.Wire.{
  Wire, wire_bus, wire_clock, wire_heap, wire_files, wire_slave, wire_takes, wire_init, power_on,
  shell, no_answers,
}

all-Given :
    Given small_tty-Works wire_files wire_slave wire_takes
      (λ n s. no_answers s)
      no_answers
      wire_init
      no_number
      0
      5
      800004
      (replicate 1024 0)
      []
      []
      shell
      loader_defaults
      (0x34 ∷ 0x12 ∷ [])
      power_on
      power_on
unfolding loader_parse_args parse_options read_firmware_file
all-Given = record {
  parsed = refl;
  cooked = refl;
  found = refl;
  image = refl;
  ready = tt;
  well = omega arith;
  short = omega arith;
}

abbrev cleared_io : Io
cleared_io =
    io_of small_tty-Works wire_files wire_slave wire_takes (λ n s. no_answers s) no_answers
      wire_init no_number 0 5 800004 (replicate 1024 0) [] loader_defaults shell power_on

loader_main-loads_and_finishes_example :
    Returns
      (λ out q.
        (t : Wire) × Loaded (λ (u : Wire). u.sent) (0x34 ∷ 0x12 ∷ []) power_on t
        × Finished small_tty-Works wire_heap wire_files wire_slave wire_init no_number 0 5 800004
            (replicate 1024 0)
            []
            7
            loader_defaults
            cleared_io
            t
            out
            q)
      (main small_tty wire_bus wire_heap wire_files wire_clock wire_init no_number 0 5 800004
        (replicate 1024 0)
        []
        []
        false
        shell)
loader_main-loads_and_finishes_example =
    loader_main-loads_and_finishes small_tty-Works wire_files wire_slave wire_takes
      (λ n s. no_answers s) no_answers wire_init no_number 0 5 800004 (replicate 1024 0) [] []
      loader_defaults shell (0x34 ∷ 0x12 ∷ []) power_on power_on all-Given (omega arith)
