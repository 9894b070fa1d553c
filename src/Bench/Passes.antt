-- ===== src/Bench/Passes.antt =====
-- The tests of the test bench against the model of the CPU.
use ice40_ultraplus_examples.Base.{◌≡◌, refl, true}
use ice40_ultraplus_examples.Cmd.Returns.{Returns, returns}
use ice40_ultraplus_examples.Comet.Codes.{
  is_two_word_instruction, decode, uses_r_field, uses_x_field,
}
use ice40_ultraplus_examples.Comet.Words.{add16, sub16, indexed_addr}
use ice40_ultraplus_examples.Comet.Perform.{bad_field, perform}
use ice40_ultraplus_examples.Bench.{Bench}
use ice40_ultraplus_examples.Bench.Program.{run_tests}

-- The ten tests pass one behind the other, in whatever state the model of the CPU and the memory
-- are: none of them ends the process, and the last one leaves the error that it expects.
run_tests-pass : (b : Bench) → Returns (λ out c. c.tb.core.error_instruction ≡ true) (run_tests b)
unfolding run_tests is_two_word_instruction decode add16 sub16 indexed_addr bad_field perform
    uses_r_field uses_x_field
run_tests-pass b = returns refl
