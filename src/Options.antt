-- ===== src/Options.antt =====
-- The command lines of comet2_spi_run.c and comet2_spi_loader.c. `getopt_long` is the list of the
-- options that it returns, each with its `optarg`, and whether arguments are left behind them.
-- `strtoul` is a parameter: the value, and whether the whole text was read.
pub mod Bounds
use ice40_ultraplus_examples.Base.{
  ℕ, Bool, true, false, Option, none, some, List, [], ◌∷◌, not, ◌||◌, ◌&&◌, ltb, ◌==◌,
  if◌then◌else◌, ℤ, pos, negsuc,
}

pub record RunOptions : Type 0 where
  pub firmware_path : List ℕ
  pub input_text : Option (List ℕ)
  pub idle_timeout_ms : ℕ
  pub eof_drain_ms : ℕ
  pub use_burst : Bool
  pub probe_reload : Bool
  pub reload_safe : Bool
  pub local_echo : Bool
  pub echo_newline : Bool

-- "./spi_debug_firmware/comet2_inout_main.bin"
abbrev pub default_firmware_path : List ℕ
default_firmware_path =
    0x2e ∷ 0x2f ∷ 0x73 ∷ 0x70 ∷ 0x69 ∷ 0x5f ∷ 0x64 ∷ 0x65 ∷ 0x62 ∷ 0x75 ∷ 0x67 ∷ 0x5f ∷ 0x66 ∷ 0x69
    ∷ 0x72 ∷ 0x6d ∷ 0x77 ∷ 0x61 ∷ 0x72 ∷ 0x65 ∷ 0x2f ∷ 0x63 ∷ 0x6f ∷ 0x6d ∷ 0x65 ∷ 0x74 ∷ 0x32
    ∷ 0x5f ∷ 0x69 ∷ 0x6e ∷ 0x6f ∷ 0x75 ∷ 0x74 ∷ 0x5f ∷ 0x6d ∷ 0x61 ∷ 0x69 ∷ 0x6e ∷ 0x2e ∷ 0x62
    ∷ 0x69 ∷ 0x6e ∷ []

abbrev pub run_defaults : RunOptions
run_defaults = record {
  firmware_path = default_firmware_path;
  input_text = none;
  idle_timeout_ms = 5000;
  eof_drain_ms = 200;
  use_burst = false;
  probe_reload = false;
  reload_safe = false;
  local_echo = true;
  echo_newline = true;
}

-- The loader's `struct run_options` has no `eof_drain_ms`: the field stays as it is here.
abbrev pub loader_defaults : RunOptions
loader_defaults = record run_defaults { idle_timeout_ms = 200; echo_newline = false }

-- The loop goes on with changed options, or `parse_args` returns a code with the options as they
-- are then.
pub data Parsed : Type 0 where
  go_on : RunOptions → Parsed
  leave : ℤ → RunOptions → Parsed

abbrev pub max_timeout_ms : ℕ
max_timeout_ms = 600000

abbrev pub is_empty : List ℕ → Bool
is_empty [] = true
is_empty (c ∷ cs) = false

-- The options without an argument.
unfoldable pub set_flag : ℕ → RunOptions → Option RunOptions
set_flag ch o =
    if ch == 0x62
    then some (record o { use_burst = true })
    else if ch == 0x70
    then some (record o { probe_reload = true })
    else if ch == 0x72
    then some (record o { reload_safe = true })
    else if ch == 1000
    then some (record o { local_echo = true })
    else if ch == 1001
    then some (record o { local_echo = false })
    else if ch == 1002
    then some (record o { echo_newline = true })
    else if ch == 1003
    then some (record o { echo_newline = false })
    else none

module _ (strtoul : List ℕ → ℕ × Bool) where
  unfoldable pub set_idle : List ℕ → RunOptions → Parsed
  set_idle optarg o =
      let (value, whole) = strtoul optarg in
      if is_empty optarg || (not whole || (value == 0 || ltb max_timeout_ms value))
      then leave (negsuc 0) o
      else go_on (record o { idle_timeout_ms = value })

  unfoldable pub set_eof_drain : List ℕ → RunOptions → Parsed
  set_eof_drain optarg o =
      let (value, whole) = strtoul optarg in
      if is_empty optarg || (not whole || ltb max_timeout_ms value)
      then leave (negsuc 0) o
      else go_on (record o { eof_drain_ms = value })

  -- The options with an argument, -h and the default case. `drains` tells whether the option -e
  -- is in the option string.
  unfoldable pub set_value : (drains : Bool) → ℕ → List ℕ → RunOptions → Parsed
  set_value drains ch optarg o =
      if ch == 0x66
      then go_on (record o { firmware_path = optarg })
      else if ch == 0x69
      then go_on (record o { input_text = some optarg })
      else if ch == 0x74
      then set_idle optarg o
      else if drains && ch == 0x65
      then set_eof_drain optarg o
      else if ch == 0x68
      then leave (pos 1) o
      else leave (negsuc 0) o

  -- One round of the loop.
  unfoldable pub set_option : (drains : Bool) → ℕ × List ℕ → RunOptions → Parsed
  set_option drains given o = elim (set_flag given.0 o) [
    | some o' ↦ go_on o'
    | none ↦ set_value drains given.0 given.1 o
  ]

  unfoldable pub parse_options :
      (drains : Bool) → List (ℕ × List ℕ) → (left : Bool) → RunOptions → ℤ × RunOptions
  parse_options drains [] left o = if left then (negsuc 0, o) else (pos 0, o)
  parse_options drains (given ∷ more) left o = elim (set_option drains given o) [
    | go_on o' ↦ parse_options drains more left o'
    | leave rc o' ↦ (rc, o')
  ]

  -- `parse_args` of comet2_spi_run.c.
  unfoldable pub parse_args : List (ℕ × List ℕ) → (left : Bool) → ℤ × RunOptions
  parse_args given left = parse_options true given left run_defaults

  -- `parse_args` of comet2_spi_loader.c.
  unfoldable pub loader_parse_args : List (ℕ × List ℕ) → (left : Bool) → ℤ × RunOptions
  loader_parse_args given left = parse_options false given left loader_defaults
