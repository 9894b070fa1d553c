-- ===== src/RiscvHost/Opened.antt =====
-- The start of riscv/host_server/main.c, up to the firmware in the buffer.
use ice40_ultraplus_examples.Base.{ℕ, ◌≡◌, Bool, true, false, some, List}
use ice40_ultraplus_examples.Cmd.{Cmd, done}
use ice40_ultraplus_examples.Cmd.Returns.{Returns}
use ice40_ultraplus_examples.Bus.{Bus}
use ice40_ultraplus_examples.Firmware.{Files}
use ice40_ultraplus_examples.RiscvHost.{
  nb_elem_read, take_arguments, default_path, run, open_and_run, main,
}

module _ {S : Type 0} (bus : Bus S) (files : Files S) (spi_init : Cmd S ℕ) (past : ℕ) where
  -- The arguments are understood, `spi_init` returned something, and the file is opened: what is
  -- read of it, and the state behind that.
  pub record Opened (arguments : List (List ℕ)) (s : S) (path : List ℕ) (load_only : Bool) (rc : ℕ)
      (u : S) : Type 0 where
    pub understood : take_arguments arguments default_path false ≡ some (path, load_only)
    pub begun : spi_init s ≡ done rc u
    pub found : (files.fopen path u).0 ≡ true

  abbrev pub firmware_of : (path : List ℕ) → S → List ℕ
  firmware_of path u = (files.fread nb_elem_read (files.fopen path u).1).0

  abbrev pub behind : (path : List ℕ) → S → S
  behind path u = (files.fread nb_elem_read (files.fopen path u).1).1

  -- `main` goes on as `run` does.
  pub main-run :
      {P : ℕ × List ℕ → S → Type 0} (arguments : List (List ℕ)) (s : S) (path : List ℕ)
      (load_only : Bool) (rc : ℕ) (u : S)
      → Opened arguments s path load_only rc u
      → Returns P (run bus past load_only (firmware_of path u) (behind path u))
      → Returns P (main bus files spi_init past arguments s)
  unfolding main open_and_run
  main-run arguments s path load_only rc u opened next =
      rw (opened.understood, opened.begun, opened.found) next
