-- ===== src/Tests/Images.antt =====
-- The firmware loader at a concrete file and bus.
use ice40_ultraplus_examples.Base.{
  ℕ, suc, ◌+◌, ◌-◌, ◌≡◌, refl, true, false, some, List, [], ◌∷◌, ◌++◌, arith, take, pos,
}
use ice40_ultraplus_examples.Cmd.{done}
use ice40_ultraplus_examples.Cmd.Returns.{Returns}
use ice40_ultraplus_examples.Bus.{Heap}
use ice40_ultraplus_examples.Spi.{packet}
use ice40_ultraplus_examples.Firmware.{
  Files, read_firmware_file, drain_spi_output_until_quiet, send_firmware_legacy,
  send_firmware_burst, cmd_init, cmd_start_cpu,
}
use ice40_ultraplus_examples.Firmware.Image.{
  IsImage, Image, Accounts, held, read_firmware_file-Clean,
}
use ice40_ultraplus_examples.Firmware.Drain.{Drained, drain-Drained}
use ice40_ultraplus_examples.Firmware.Wire.{packets, send_firmware-packets}
use ice40_ultraplus_examples.Firmware.Load.{Mode, no_param, load_and_start_comet_firmware}
use ice40_ultraplus_examples.Firmware.Load.Sequence.{load-sequence}
use ice40_ultraplus_examples.Tests.Devices.{
  echo_bus, echo_bus-Serves, taking_bus, large_heap, taking_bus-Takes,
}

-- The streams that are open and the blocks given out.
record Ledger : Type 0 where
  streams : ℕ
  blocks : ℕ

abbrev ledger_heap : Heap Ledger
ledger_heap = record {
  malloc = λ n s. (true, record s { blocks = suc s.blocks });
  free = λ s. record s { blocks = s.blocks - 1 };
}

-- One file of four bytes.
abbrev file : List ℕ
file = 0x12 ∷ 0x34 ∷ 0x56 ∷ 0x78 ∷ []

abbrev ledger_files : Files Ledger
ledger_files = record {
  fopen = λ path s. (true, record s { streams = suc s.streams });
  seek_end = λ s. (pos 0, s);
  ftell = λ s. (pos 4, s);
  seek_start = λ s. (pos 0, s);
  fread = λ n s. (take n file, s);
  fclose = λ s. record s { streams = s.streams - 1 };
}

abbrev ledger_accounts : Accounts ledger_heap ledger_files
ledger_accounts = record {
  open_streams = λ s. s.streams;
  blocks = λ s. s.blocks;
  streams-fopen = λ path s. refl;
  streams-fclose = λ s n e. omega arith;
  streams-seek_end = λ s. refl;
  streams-ftell = λ s. refl;
  streams-seek_start = λ s. refl;
  streams-fread = λ n s. refl;
  streams-malloc = λ n s. refl;
  streams-free = λ s. refl;
  blocks-malloc = λ n s. refl;
  blocks-free = λ s n e. omega arith;
  blocks-fopen = λ path s. refl;
  blocks-fclose = λ s. refl;
  blocks-seek_end = λ s. refl;
  blocks-ftell = λ s. refl;
  blocks-seek_start = λ s. refl;
  blocks-fread = λ n s. refl;
}

read_firmware_file-Clean_example :
    Returns
      (λ out t. Image out × (t.streams ≡ 0) × (t.blocks ≡ 3 + held out))
      (read_firmware_file ledger_heap ledger_files [] (record { streams = 0; blocks = 3 }))
read_firmware_file-Clean_example =
    read_firmware_file-Clean ledger_accounts [] (record { streams = 0; blocks = 3 })

reads_the_file :
    read_firmware_file ledger_heap ledger_files [] (record { streams = 0; blocks = 3 })
    ≡ done (some file) (record { streams = 0; blocks = 4 })
unfolding read_firmware_file
reads_the_file = refl

drain-Drained_example :
    Returns
      (λ out t. Drained echo_bus 64 4 [] out t × Unit {0})
      (drain_spi_output_until_quiet echo_bus 64 4 [])
drain-Drained_example = drain-Drained echo_bus-Serves 64 4 [] tt

file-IsImage : IsImage file
file-IsImage = omega arith

send_firmware-packets_example :
    Returns
      (λ out t. (out.0 ≡ pos 0) × (t ≡ [] ++ packets file) × Unit {0})
      (send_firmware_legacy taking_bus 0 file 0 [])
    × Returns
        (λ out t. (out.0 ≡ pos 0) × (t ≡ [] ++ packets file) × Unit {0})
        (send_firmware_burst taking_bus large_heap 5 file 0 [])
send_firmware-packets_example =
    send_firmware-packets taking_bus-Takes 0 5 file 0 [] tt file-IsImage (omega arith)

packets_of_file : packets file ≡ 2 ∷ 0x12 ∷ 0x34 ∷ 0 ∷ 2 ∷ 0x56 ∷ 0x78 ∷ 0 ∷ []
unfolding packets
packets_of_file = refl

-- The same file, beside the bus that takes every packet.
abbrev files : Files (List ℕ)
files = record {
  fopen = λ path s. (true, s);
  seek_end = λ s. (pos 0, s);
  ftell = λ s. (pos 4, s);
  seek_start = λ s. (pos 0, s);
  fread = λ n s. (take n file, s);
  fclose = λ s. s;
}

abbrev plain_mode : Mode
plain_mode = record { use_burst = false; reload_safe = false; probe_reload = false }

load-sequence_example :
    Returns
      (λ out u.
        (out ≡ pos 0)
        × ((drained : List ℕ) × (u
              ≡ ([] ++ drained)
                ++ packet cmd_init no_param
                ++ packets file
                ++ packet cmd_start_cpu no_param))
        × Unit {0})
      (load_and_start_comet_firmware taking_bus large_heap files 0 5 plain_mode [] [])
unfolding read_firmware_file
load-sequence_example =
    load-sequence taking_bus-Takes files 0 5 plain_mode [] file [] [] refl tt file-IsImage
      (omega arith)
