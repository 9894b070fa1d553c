-- ===== src/RiscvHost.antt =====
-- riscv/host_server/main.c, over the library of spi/spi_host: the firmware is sent to the RISC-V
-- CPU, which then runs a fixed list of commands. `sleep` is `usleep` with its time in seconds.
pub mod Opened
pub mod Wire
pub mod Returned
use ice40_ultraplus_examples.Base.{
  ℕ, zero, suc, ◌+◌, ◌*◌, ◌^◌, Bool, true, false, Option, none, some, List, [], ◌∷◌, ◌++◌, ◌&&◌,
  ◌||◌, ◌==◌, if◌then◌else◌,
}
use ice40_ultraplus_examples.Cmd.{Cmd, done, exited, pure, ◌>>=◌, ◌>>◌}
use ice40_ultraplus_examples.Bus.{Bus, pause}
use ice40_ultraplus_examples.Spi.{Bytes3}
use ice40_ultraplus_examples.SpiHost.{spi_send, spi_send24b, spi_read}
use ice40_ultraplus_examples.Firmware.{Files, cmd_init, cmd_send_firmware, cmd_start_cpu}

abbrev pub cmd_set_led : ℕ
cmd_set_led = 0x04

abbrev pub cmd_run_gradient : ℕ
cmd_run_gradient = 0x05

abbrev pub cmd_fibonacci : ℕ
cmd_fibonacci = 0x06

abbrev pub cmd_pow : ℕ
cmd_pow = 0x07

abbrev pub cmd_matrix_mult : ℕ
cmd_matrix_mult = 0x08

-- NB_ELEM_READ
abbrev pub nb_elem_read : ℕ
nb_elem_read = 2 ^ 14

-- `strcmp(a, b) == 0`
abbrev pub same_text : List ℕ → List ℕ → Bool
same_text [] [] = true
same_text [] (y ∷ ys) = false
same_text (x ∷ xs) [] = false
same_text (x ∷ xs) (y ∷ ys) = x == y && same_text xs ys

-- "-f"
abbrev pub short_firmware : List ℕ
short_firmware = 0x2d ∷ 0x66 ∷ []

-- "--firmware"
abbrev pub long_firmware : List ℕ
long_firmware = 0x2d ∷ 0x2d ∷ 0x66 ∷ 0x69 ∷ 0x72 ∷ 0x6d ∷ 0x77 ∷ 0x61 ∷ 0x72 ∷ 0x65 ∷ []

-- "--load-only"
abbrev pub load_only_text : List ℕ
load_only_text = 0x2d ∷ 0x2d ∷ 0x6c ∷ 0x6f ∷ 0x61 ∷ 0x64 ∷ 0x2d ∷ 0x6f ∷ 0x6e ∷ 0x6c ∷ 0x79 ∷ []

-- "./firmware/main"
abbrev pub default_path : List ℕ
default_path =
    0x2e ∷ 0x2f ∷ 0x66 ∷ 0x69 ∷ 0x72 ∷ 0x6d ∷ 0x77 ∷ 0x61 ∷ 0x72 ∷ 0x65 ∷ 0x2f ∷ 0x6d ∷ 0x61 ∷ 0x69
    ∷ 0x6e ∷ []

-- The arguments behind the program's name, from the `i`th on: the path and whether to load only,
-- or `none` for the usage message.
unfoldable pub take_arguments :
    List (List ℕ) → (firmware_path : List ℕ) (load_only : Bool) → Option (List ℕ × Bool)
take_arguments [] path load_only = some (path, load_only)
take_arguments (x ∷ []) path load_only =
    if same_text x load_only_text then some (path, true) else none
take_arguments (x ∷ y ∷ more) path load_only =
    let named = take_arguments more y load_only in
    let rest = take_arguments (y ∷ more) path true in
    if same_text x short_firmware || same_text x long_firmware
    then named
    else if same_text x load_only_text
    then rest
    else none

-- `data_read[0] + (data_read[1]<<8) + (data_read[2]<<16)`
abbrev pub data_value : Bytes3 → ℕ
data_value (a, b, c) = a + b * 2 ^ 8 + c * 2 ^ 16

module _ {S : Type 0} (bus : Bus S) where
  abbrev pub sleep : ℕ → Cmd S (Unit {0})
  sleep seconds = pause bus (seconds * 1000000)

  -- The loop over the firmware. `past` is the byte of the buffer behind what was read.
  unfoldable pub send_words : (past : ℕ) → List ℕ → Cmd S (Unit {0})
  send_words past [] = pure tt
  send_words past (a ∷ []) = do
    pause bus 1000
    sent ← spi_send bus cmd_send_firmware (a, past, 0)
    pure tt
  send_words past (a ∷ b ∷ more) = do
    pause bus 1000
    sent ← spi_send bus cmd_send_firmware (a, b, 0)
    send_words past more

  -- From SPI_INIT to the sleep behind SPI_START_CPU; no result is looked at.
  unfoldable pub load : (past : ℕ) → List ℕ → Cmd S (Unit {0})
  load past firmware = do
    sleep 1
    begun ← spi_send bus cmd_init (0, 0, 0)
    send_words past firmware
    sleep 2
    started ← spi_send bus cmd_start_cpu (0, 0, 0)
    sleep 1

  -- The colours, one after the other.
  unfoldable pub set_leds : List ℕ → Cmd S (Unit {0})
  set_leds [] = pure tt
  set_leds (colour ∷ more) = do
    sent ← spi_send bus cmd_set_led (colour, 0, 0)
    sleep 1
    set_leds more

  -- A command with an argument, and its result a second later.
  unfoldable pub ask : (cmd value : ℕ) → Cmd S ℕ
  ask cmd value = do
    sent ← spi_send24b bus cmd value
    sleep 1
    (rc, data_read, status) ← spi_read bus
    sleep 1
    pure (data_value data_read)

  -- The elements of a matrix.
  unfoldable pub send_matrix : (wait : ℕ) → List ℕ → Cmd S (Unit {0})
  send_matrix wait [] = pure tt
  send_matrix wait (x ∷ more) = do
    sent ← spi_send24b bus cmd_matrix_mult x
    pause bus wait
    send_matrix wait more

  unfoldable pub read_values : ℕ → Cmd S (List ℕ)
  read_values zero = pure []
  read_values (suc n) = do
    (rc, data_read, status) ← spi_read bus
    more ← read_values n
    pure (data_value data_read ∷ more)

  -- The commands: the values that are printed as read.
  unfoldable pub run_commands : Cmd S (List ℕ)
  run_commands = do
    set_leds (0x1 ∷ 0x2 ∷ 0x3 ∷ 0x7 ∷ [])
    square ← ask cmd_pow 125
    fibonacci ← ask cmd_fibonacci 20
    send_matrix 1000 (1 ∷ 2 ∷ 3 ∷ 1 ∷ [])
    send_matrix 10000 (10 ∷ 0 ∷ 5 ∷ 2 ∷ [])
    product ← read_values 4
    sleep 1
    sent ← spi_send24b bus cmd_run_gradient 0
    sleep 8
    pure (square ∷ fibonacci ∷ product)

  -- With a firmware in the buffer.
  unfoldable pub run : (past : ℕ) (load_only : Bool) → List ℕ → Cmd S (ℕ × List ℕ)
  run past load_only firmware = do
    load past firmware
    if load_only then pure (0, []) else (do values ← run_commands; pure (0, values))

  module _ (files : Files S) (spi_init : Cmd S ℕ) (past : ℕ) where
    -- The file stays open. Without it, the program leaves by `exit(1)`.
    unfoldable pub open_and_run : (path : List ℕ) (load_only : Bool) → Cmd S (ℕ × List ℕ)
    open_and_run path load_only s =
        let (found, t) = files.fopen path s in
        let (firmware, u) = files.fread nb_elem_read t in
        if found then run past load_only firmware u else exited 1 t

    abbrev with_arguments : Option (List ℕ × Bool) → Cmd S (ℕ × List ℕ)
    with_arguments none = pure (1, [])
    with_arguments (some (path, load_only)) = do ignored ← spi_init; open_and_run path load_only

    -- The exit status, and the values that were read.
    unfoldable pub main : (arguments : List (List ℕ)) → Cmd S (ℕ × List ℕ)
    main arguments = with_arguments (take_arguments arguments default_path false)
