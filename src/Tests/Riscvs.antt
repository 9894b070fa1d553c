-- ===== src/Tests/Riscvs.antt =====
-- riscv/host_server/main.c at a bus that takes every packet.
use ice40_ultraplus_examples.Base.{ℕ, ◌≡◌, refl, true, false, List, [], ◌∷◌, ◌++◌, pos}
use ice40_ultraplus_examples.Cmd.{Cmd, pure}
use ice40_ultraplus_examples.Cmd.Returns.{Returns}
use ice40_ultraplus_examples.Firmware.{Files}
use ice40_ultraplus_examples.RiscvHost.{load_only_text, default_path, take_arguments, main}
use ice40_ultraplus_examples.RiscvHost.Opened.{Opened}
use ice40_ultraplus_examples.RiscvHost.Wire.{loaded, main-loads}
use ice40_ultraplus_examples.Tests.Devices.{taking_bus, taking_bus-Takes}

-- A file of three bytes.
abbrev odd_file : Files (List ℕ)
odd_file = record {
  fopen = λ path s. (true, s);
  seek_end = λ s. (pos 0, s);
  ftell = λ s. (pos 0, s);
  seek_start = λ s. (pos 0, s);
  fread = λ n s. (1 ∷ 2 ∷ 3 ∷ [], s);
  fclose = λ s. s;
}

abbrev no_init : Cmd (List ℕ) ℕ
no_init = pure 1

loads : Opened taking_bus odd_file no_init 9 (load_only_text ∷ []) [] default_path true 1 []
unfolding take_arguments
loads = record { understood = refl; begun = refl; found = refl }

main-loads_example :
    Returns
      (λ out t. (out ≡ (0, [])) × (t ≡ [] ++ loaded 9 (1 ∷ 2 ∷ 3 ∷ [])) × Unit {0})
      (main taking_bus odd_file no_init 9 (load_only_text ∷ []) [])
main-loads_example =
    main-loads taking_bus-Takes odd_file no_init 9 (load_only_text ∷ []) [] default_path 1 [] loads
      tt

runs : Opened taking_bus odd_file no_init 9 [] [] default_path false 1 []
unfolding take_arguments
runs = record { understood = refl; begun = refl; found = refl }
