-- ===== src/Spi.antt =====
-- The packet functions of comet2/host_server/spi_lib.c over a bus: a command packet is sent until
-- the FPGA acknowledges it, an answer is polled, and a batch of packets goes out in one transfer.
pub mod Send
pub mod Read
pub mod Batch
use ice40_ultraplus_examples.Base.{
  ℕ, zero, suc, ◌+◌, ◌-◌, ◌*◌, ◌/◌, ◌%◌, ◌^◌, Option, none, some, Bool, List, [], ◌∷◌, not, ltb,
  ◌==◌, if◌then◌else◌, get_or, take, bit_and,
}
use ice40_ultraplus_examples.Cmd.{Cmd, pure, done, ◌>>=◌, ◌>>◌}
use ice40_ultraplus_examples.Bus.{Bus, Heap, give_back, pause, retry}

-- `uint8_t val[3]`
abbrev pub Bytes3 : Type 0
Bytes3 = ℕ × ℕ × ℕ

-- STATUS_FPGA_RECV_MASK and STATUS_FPGA_SEND_MASK
abbrev pub recv_mask : ℕ
recv_mask = 0x40

abbrev pub send_mask : ℕ
send_mask = 0x80

-- `(status & mask) != 0`
abbrev pub has_bit : ℕ → ℕ → Bool
has_bit mask status = not (bit_and status mask == 0)

-- The tests on the first byte of a reply.
unfoldable pub was_received : List ℕ → Bool
was_received buf = has_bit recv_mask (get_or buf 0 0)

unfoldable pub has_answer : List ℕ → Bool
has_answer buf = has_bit send_mask (get_or buf 0 0)

abbrev pub packet : ℕ → Bytes3 → List ℕ
packet cmd val = cmd ∷ val.0 ∷ val.1 ∷ val.2 ∷ []

abbrev pub nop_command : List ℕ
nop_command = 0 ∷ 0 ∷ 0 ∷ 0 ∷ []

abbrev pub send_limit : ℕ
send_limit = 100

abbrev pub read_limit : ℕ
read_limit = 50

module _ {S : Type 0} (bus : Bus S) where
  -- The result code and `*status`. A round transfers the buffer that the round before it received.
  unfoldable pub spi_send : ℕ → Bytes3 → Cmd S (ℕ × ℕ)
  spi_send cmd val = do
    (reply, retries) ← retry bus.xfer was_received send_limit send_limit (packet cmd val) 0
    pure (if ltb retries send_limit then 0 else 1, get_or reply 0 0)

  unfoldable pub spi_send3 : ℕ → ℕ → ℕ → ℕ → Cmd S (ℕ × ℕ)
  spi_send3 cmd val0 val1 val2 = spi_send cmd (val0, val1, val2)

  unfoldable pub spi_send24b : ℕ → ℕ → Cmd S (ℕ × ℕ)
  spi_send24b cmd val24b = spi_send cmd (val24b % 256, val24b / 2 ^ 8 % 256, val24b / 2 ^ 16 % 256)

  -- One round of `spi_read`.
  unfoldable pub poll : List ℕ → Cmd S (List ℕ)
  poll buf = do pause bus 2; bus.xfer buf

  -- The result code (1 if an answer came), `val` and `*status`.
  unfoldable pub spi_read : Cmd S (ℕ × Bytes3 × ℕ)
  unfolding poll
  spi_read = do
    (reply, retries) ← retry poll has_answer read_limit read_limit nop_command 0
    pure (
      if ltb retries read_limit then 1 else 0,
      (get_or reply 1 0, get_or reply 2 0, get_or reply 3 0),
      get_or reply 0 0,
    )

-- The check of every packet's status: the result code and `*last_status`. `left` is
-- `packet_count - i`.
unfoldable pub check_batch : (left i : ℕ) → List ℕ → ℕ × ℕ
check_batch zero i txrx = (0, get_or txrx ((i - 1) * 4) 0)
check_batch (suc left) i txrx =
    let status = get_or txrx (i * 4) 0 in
    let rest = check_batch left (i + 1) txrx in
    if bit_and status recv_mask == 0 then (1, status) else rest

-- The result code and `*last_status`; `none` stands for a `*last_status` that is left as it was.
unfoldable pub spi_send_batch_packets :
    {S : Type 0} (bus : Bus S) (heap : Heap S) → List ℕ → ℕ → Cmd S (ℕ × Option ℕ)
unfolding check_batch
spi_send_batch_packets bus heap packets packet_count s =
    let bytes = packet_count * 4 in
    let (given, t) = heap.malloc bytes s in
    let transfer = (do
      txrx ← bus.xfer (take bytes packets)
      give_back heap
      pure (let (rc, status) = check_batch packet_count 0 txrx in (rc, some status))) in
    if packet_count == 0 then done (0, some 0) s else if given then transfer t else done (1, none) t
