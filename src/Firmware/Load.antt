-- ===== src/Firmware/Load.antt =====
-- `load_and_start_comet_firmware` of comet2_spi_run.c and comet2_spi_loader.c: read the image,
-- drain the bus, SPI_INIT, the image, SPI_START_CPU.
pub mod Sequence
use ice40_ultraplus_examples.Base.{
  ℕ, Bool, Option, none, some, List, ◌||◌, ◌==◌, if◌then◌else◌, ℤ, pos, negsuc, equals,
}
use ice40_ultraplus_examples.Cmd.{Cmd, done, pure, ◌>>=◌, ◌>>◌}
use ice40_ultraplus_examples.Bus.{Bus, Heap, pause, give_back}
use ice40_ultraplus_examples.Spi.{Bytes3, spi_send}
use ice40_ultraplus_examples.Firmware.{
  Files, cmd_init, cmd_start_cpu, read_firmware_file, drain_spi_output_until_quiet, read_and_drop,
  send_firmware_legacy, send_firmware_burst,
}

-- How the image is sent: in bursts or not, after which drain. `past` is the byte behind the image in
-- memory and `fuel` the rounds of the burst loop.
pub record Mode : Type 0 where
  pub use_burst : Bool
  pub reload_safe : Bool
  pub probe_reload : Bool

abbrev pub no_param : Bytes3
no_param = (0, 0, 0)

module _ {S : Type 0} (bus : Bus S) (heap : Heap S) (files : Files S) (past fuel : ℕ)
    (mode : Mode) where
  -- The drain before SPI_INIT.
  unfoldable pub drain : Cmd S (Unit {0})
  drain =
      if mode.reload_safe || mode.probe_reload
      then (do report ← drain_spi_output_until_quiet bus 64 4; pure tt)
      else read_and_drop bus 10

  unfoldable pub send_firmware : List ℕ → ℕ → Cmd S (ℤ × ℕ)
  send_firmware firmware status =
      if mode.use_burst
      then send_firmware_burst bus heap fuel firmware status
      else send_firmware_legacy bus past firmware status

  -- After the image: the block is given back and the CPU is started.
  unfoldable pub start : Cmd S ℤ
  start = do
    give_back heap
    pause bus 20000
    (rc, status) ← spi_send bus cmd_start_cpu no_param
    if rc == 0 then (do pause bus 20000; pure (pos 0)) else pure (negsuc 0)

  -- `free(firmware); return -1;`
  abbrev pub free_and_fail : Cmd S ℤ
  free_and_fail = do give_back heap; pure (negsuc 0)

  unfoldable pub load_image : List ℕ → Cmd S ℤ
  unfolding drain send_firmware start
  load_image firmware = do
    drain
    pause bus 20000
    (rc, status) ← spi_send bus cmd_init no_param
    if rc == 0
        then (do
          (sent, status') ← send_firmware firmware status
          if equals sent 0 then start else free_and_fail)
        else free_and_fail

  abbrev load_result : Option (List ℕ) → Cmd S ℤ
  load_result none = pure (negsuc 0)
  load_result (some firmware) = load_image firmware

  unfoldable pub load_and_start_comet_firmware : (path : List ℕ) → Cmd S ℤ
  unfolding load_image
  load_and_start_comet_firmware path = do
    firmware ← read_firmware_file heap files path
    load_result firmware
