-- ===== src/Firmware.antt =====
-- The firmware loader that comet2/host_server/comet2_spi_run.c and comet2_spi_loader.c share: the
-- image file is read and checked, stale answers are drained from the bus, and the image is sent
-- between SPI_INIT and SPI_START_CPU, one packet at a time or in bursts.
pub mod Image
pub mod Drain
pub mod Load
pub mod Wire
use ice40_ultraplus_examples.Base.{
  ℕ, zero, suc, ◌+◌, ◌-◌, ◌*◌, ◌/◌, ◌%◌, Bool, Option, none, some, List, [], ◌∷◌, ◌++◌, not, ◌&&◌,
  ◌||◌, ltb, leb, ◌==◌, if◌then◌else◌, get_or, length, take, drop, ℤ, pos, negsuc, equals,
  is_negative,
}
use ice40_ultraplus_examples.Cmd.{Cmd, done, polling, pure, ◌>>=◌, ◌>>◌}
use ice40_ultraplus_examples.Bus.{Bus, Heap, pause}
use ice40_ultraplus_examples.Spi.{spi_send, spi_read, spi_send_batch_packets}

abbrev pub cmd_init : ℕ
cmd_init = 0x01

abbrev pub cmd_send_firmware : ℕ
cmd_send_firmware = 0x02

abbrev pub cmd_start_cpu : ℕ
cmd_start_cpu = 0x03

-- MAX_FIRMWARE_BYTES
abbrev pub max_firmware_bytes : ℕ
max_firmware_bytes = 0xf000 * 2

abbrev pub burst_words : ℕ
burst_words = 8

-- The calls of the C library on the one `FILE` that is open. `fopen` tells whether it gave out a
-- stream, and `fread` gives the bytes that it stored.
pub record Files (S : Type 0) : Type 0 where
  pub fopen : List ℕ → S → Bool × S
  pub seek_end : S → ℤ × S
  pub ftell : S → ℤ × S
  pub seek_start : S → ℤ × S
  pub fread : ℕ → S → List ℕ × S
  pub fclose : S → S

module _ {S : Type 0} (heap : Heap S) (files : Files S) where
  -- `fclose(file); return NULL;`
  abbrev pub close_and_fail : Cmd S (Option (List ℕ))
  close_and_fail s = done none (files.fclose s)

  -- From the allocation on, with a size that passed the checks.
  unfoldable pub read_contents : ℕ → Cmd S (Option (List ℕ))
  read_contents file_size s =
      let (given, t) = heap.malloc file_size s in
      let (firmware, u) = files.fread file_size t in
      let v = files.fclose u in
      if given
      then if length firmware == file_size then done (some firmware) v else done none (heap.free v)
      else close_and_fail t

  -- The checks of the size that `ftell` gave.
  unfoldable pub check_size : ℤ → Cmd S (Option (List ℕ))
  check_size (negsuc n) s = close_and_fail s
  check_size (pos file_size) s =
      let (rewound, t) = files.seek_start s in
      if not (equals rewound 0)
      then close_and_fail t
      else if ltb max_firmware_bytes file_size
      then close_and_fail t
      else if file_size % 2 == 0
      then read_contents file_size t
      else close_and_fail t

  -- `none` is NULL, and the length of the image is `*firmware_size`.
  unfoldable pub read_firmware_file : List ℕ → Cmd S (Option (List ℕ))
  unfolding read_contents check_size
  read_firmware_file path s =
      let (opened, t) = files.fopen path s in
      let (sought, u) = files.seek_end t in
      let (file_size, v) = files.ftell u in
      if opened
      then if equals sought 0 then check_size file_size v else close_and_fail u
      else done none t

pub record DrainReport : Type 0 where
  pub reads : ℕ
  pub packets : ℕ
  pub quiet_reads : ℕ
  pub first_status : ℕ
  pub last_status : ℕ

abbrev pub no_report : DrainReport
no_report = record { reads = 0; packets = 0; quiet_reads = 0; first_status = 0; last_status = 0 }

-- One round of the drain: the report after a read that returned `rc` and `status`.
unfoldable pub count_read : DrainReport → ℕ → ℕ → DrainReport
count_read r rc status =
    if rc == 0
    then record r { quiet_reads = r.quiet_reads + 1; reads = r.reads + 1 }
    else record r {
      first_status = if r.packets == 0 then status else r.first_status;
      last_status = status;
      packets = r.packets + 1;
      quiet_reads = 0;
      reads = r.reads + 1;
    }

module _ {S : Type 0} (bus : Bus S) where
  -- `left` is `max_reads - reads`.
  unfoldable pub drain_loop : (quiet_goal left : ℕ) → DrainReport → Cmd S DrainReport
  unfolding count_read
  drain_loop quiet_goal zero r = pure r
  drain_loop quiet_goal (suc left) r =
      let round = (do
        (rc, val, status) ← spi_read bus
        drain_loop quiet_goal left (count_read r rc status)) in
      if ltb r.quiet_reads quiet_goal then round else pure r

  unfoldable pub drain_spi_output_until_quiet : (max_reads quiet_goal : ℕ) → Cmd S DrainReport
  unfolding drain_loop
  drain_spi_output_until_quiet max_reads quiet_goal = drain_loop quiet_goal max_reads no_report

  -- The drain of the default path: `n` reads whose answers are dropped.
  unfoldable pub read_and_drop : ℕ → Cmd S (Unit {0})
  read_and_drop zero = pure tt
  read_and_drop (suc n) = do answer ← spi_read bus; read_and_drop n

  -- One round of `send_firmware_legacy`, with what the rounds after it do.
  unfoldable pub send_word : ℕ → ℕ → (ℕ → Cmd S (ℤ × ℕ)) → Cmd S (ℤ × ℕ)
  send_word a b next = do
    (rc, status) ← spi_send bus cmd_send_firmware (a, b, 0)
    if rc == 0 then (do pause bus 50; next status) else pure (negsuc 0, status)

  -- The result code and `*spi_status`. `past` is the byte that stands behind the image in memory:
  -- the last round of an odd size would read it.
  unfoldable pub send_firmware_legacy : (past : ℕ) → List ℕ → ℕ → Cmd S (ℤ × ℕ)
  unfolding send_word
  send_firmware_legacy past [] status = pure (pos 0, status)
  send_firmware_legacy past (a ∷ []) status = send_word a past (λ st. pure (pos 0, st))
  send_firmware_legacy past (a ∷ b ∷ firmware) status =
      send_word a b (send_firmware_legacy past firmware)

-- The packets of the next `words` words.
unfoldable pub fill_batch : (words : ℕ) → List ℕ → List ℕ
fill_batch zero firmware = []
fill_batch (suc w) [] = []
fill_batch (suc w) (a ∷ []) = []
fill_batch (suc w) (a ∷ b ∷ firmware) = cmd_send_firmware ∷ a ∷ b ∷ 0 ∷ fill_batch w firmware

-- The words of the next batch, of the bytes that are left.
unfoldable pub batch_words : List ℕ → ℕ
batch_words rest = if ltb burst_words (length rest / 2) then burst_words else length rest / 2

-- `*last_status` after a call that may leave it alone.
abbrev pub updated : Option ℕ → ℕ → ℕ
updated none status = status
updated (some status') status = status'

module _ {S : Type 0} (bus : Bus S) (heap : Heap S) where
  -- The image from index `i` on. An odd size would never end, so the loop has fuel.
  unfoldable pub send_firmware_burst : (fuel : ℕ) → List ℕ → ℕ → Cmd S (ℤ × ℕ)
  unfolding fill_batch batch_words
  send_firmware_burst zero rest status = λ s. polling
  send_firmware_burst (suc fuel) [] status = pure (pos 0, status)
  send_firmware_burst (suc fuel) (a ∷ rest) status = do
    let words = batch_words (a ∷ rest)
    (rc, last) ← spi_send_batch_packets bus heap (fill_batch words (a ∷ rest)) words
    let more = send_firmware_burst fuel (drop (words * 2) (a ∷ rest)) (updated last status)
    if rc == 0 then more else pure (negsuc 0, updated last status)
