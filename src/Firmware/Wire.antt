-- ===== src/Firmware/Wire.antt =====
-- The bytes that the sending functions put on the bus, when the FPGA takes every packet at once:
-- both modes send the same packets, in the same order.
use ice40_ultraplus_examples.Base.{
  ℕ, zero, suc, ◌*◌, ◌%◌, ◌≤◌, ◌<◌, ◌≡◌, refl, sym, ap, ◌∙◌, true, List, [], ◌∷◌, ◌++◌, arith,
  length, drop, length-drop, append_assoc, append-nil, ℤ, pos, inl, inr,
}
use ice40_ultraplus_examples.Cmd.{Cmd, done}
use ice40_ultraplus_examples.Cmd.Returns
use ice40_ultraplus_examples.Cmd.Returns.{Returns, returns}
use ice40_ultraplus_examples.Bus.{Bus, Heap, retry}
use ice40_ultraplus_examples.Bus.Tries.{Serves}
use ice40_ultraplus_examples.Spi.{Bytes3, packet, was_received, spi_send}
use ice40_ultraplus_examples.Spi.Batch.{IsQuiet, Taken, batch-Verdict}
use ice40_ultraplus_examples.Firmware.{
  cmd_send_firmware, burst_words, send_word, send_firmware_legacy, fill_batch, batch_words, updated,
  send_firmware_burst,
}
use ice40_ultraplus_examples.Firmware.Image.{IsImage}
use ice40_ultraplus_examples.Spi.{spi_send_batch_packets}

-- The packets of an image, one for each 16-bit word.
unfoldable pub packets : List ℕ → List ℕ
packets [] = []
packets (a ∷ []) = []
packets (a ∷ b ∷ firmware) = cmd_send_firmware ∷ a ∷ b ∷ 0 ∷ packets firmware

-- A bus whose slave takes every packet of every transfer, the bytes shifted out to it so far, and a
-- heap that has room.
pub record Takes {S : Type 0} (bus : Bus S) (heap : Heap S) (Ready : S → Type 0)
    (shifted : S → List ℕ) : Type 0 where
  pub serves : Serves bus Ready
  pub taken :
      (bytes out : List ℕ) (s t : S) (j : ℕ)
      → Ready s
      → bus.xfer bytes s ≡ done out t
      → j * 4 < length bytes
      → Taken out j
  pub shifted-xfer :
      (bytes out : List ℕ) (s t : S)
      → bus.xfer bytes s ≡ done out t
      → shifted t ≡ shifted s ++ bytes
  pub shifted-malloc : (n : ℕ) (s : S) → shifted (heap.malloc n s).1 ≡ shifted s
  pub shifted-free : (s : S) → shifted (heap.free s) ≡ shifted s
  pub quiet : IsQuiet heap Ready
  pub memory : (n : ℕ) (s : S) → (heap.malloc n s).0 ≡ true
  pub shifted-usleep : (n : ℕ) (s : S) → shifted (bus.usleep n s) ≡ shifted s

-- A batch is a front part of the image's packets.
packets-fill_batch :
    (w n : ℕ) (firmware : List ℕ)
    → n ≡ w * 2
    → n ≤ length firmware
    → packets firmware ≡ fill_batch w firmware ++ packets (drop n firmware)
unfolding packets fill_batch
packets-fill_batch zero zero fw e h = refl
packets-fill_batch zero (suc n) fw e h = absurd (omega arith)
packets-fill_batch (suc w) zero fw e h = absurd (omega arith)
packets-fill_batch (suc w) (suc zero) fw e h = absurd (omega arith)
packets-fill_batch (suc w) (suc (suc n)) [] e h = absurd (omega arith)
packets-fill_batch (suc w) (suc (suc n)) (a ∷ []) e h = absurd (omega arith)
packets-fill_batch (suc w) (suc (suc n)) (a ∷ b ∷ fw) e h =
    ap (λ t. cmd_send_firmware ∷ a ∷ b ∷ 0 ∷ t)
      (packets-fill_batch w n fw (omega arith) (omega arith))

batch_words-bounds :
    (rest : List ℕ)
    → 2 ≤ length rest
    → (0 < batch_words rest)
      × (batch_words rest ≤ burst_words)
      × (batch_words rest * 2 ≤ length rest)
unfolding batch_words
batch_words-bounds rest h = ground arith

-- What a batch leaves is even again, and shorter.
drop_words :
    (w : ℕ) (rest : List ℕ)
    → 0 < w
    → w * 2 ≤ length rest
    → length rest % 2 ≡ 0
    → (length (drop (w * 2) rest) % 2 ≡ 0) × (length (drop (w * 2) rest) < length rest)
drop_words w rest some_words inside even =
    (omega (arith, length-drop (w * 2) rest), omega (arith, length-drop (w * 2) rest))

length-fill_batch :
    (w : ℕ) (firmware : List ℕ) → w * 2 ≤ length firmware → length (fill_batch w firmware) ≡ w * 4
unfolding fill_batch
length-fill_batch zero fw h = omega arith
length-fill_batch (suc w) [] h = absurd (omega arith)
length-fill_batch (suc w) (a ∷ []) h = absurd (omega arith)
length-fill_batch (suc w) (a ∷ b ∷ fw) h = omega (arith, length-fill_batch w fw)

module _ {S : Type 0} {bus : Bus S} {heap : Heap S} {Ready : S → Type 0} {shifted : S → List ℕ}
    (takes : Takes bus heap Ready shifted) where
  -- A packet that is taken at once is shifted out once.
  pub spi_send-once :
      (cmd : ℕ) (val : Bytes3) (s : S)
      → Ready s
      → Returns
          (λ out t. (out.0 ≡ 0) × (shifted t ≡ shifted s ++ (packet cmd val)) × Ready t)
          (spi_send bus cmd val s)
  unfolding spi_send retry was_received
  spi_send-once cmd val s r =
      let (out, t, e, ready) =
        Returns.value (takes.serves.answers (packet cmd val) s r (omega arith) (omega arith)) in
      rw (e, takes.taken (packet cmd val) out s t 0 r e (omega arith))
        (returns (refl, takes.shifted-xfer (packet cmd val) out s t e, ready.1))

  send_word-once :
      (a b : ℕ) (next : ℕ → Cmd S (ℤ × ℕ)) (s : S) (rest : List ℕ)
      → Ready s
      → ((status : ℕ) (t : S)
          → Ready t
          → Returns
              (λ out u. (out.0 ≡ pos 0) × (shifted u ≡ shifted t ++ rest) × Ready u)
              (next status t))
      → Returns
          (λ out u.
            (out.0 ≡ pos 0)
            × (shifted u ≡ shifted s ++ (cmd_send_firmware ∷ a ∷ b ∷ 0 ∷ rest))
            × Ready u)
          (send_word bus a b next s)
  unfolding send_word
  send_word-once a b next s rest r k =
      Returns.bind (spi_send-once cmd_send_firmware (a, b, 0) s r) λ out t e (z, w, r'). rw z (
        Returns.weaken (k out.1 (bus.usleep 50 t) (takes.serves.rests 50 t r'))
          λ out' u (z', w', r'').
            (z', w' ∙ rw (takes.shifted-usleep 50 t, w) (append_assoc (shifted s) _ rest), r''))

  legacy-packets :
      (past : ℕ) (firmware : List ℕ) (status : ℕ) (s : S)
      → Ready s
      → length firmware % 2 ≡ 0
      → Returns
          (λ out t. (out.0 ≡ pos 0) × (shifted t ≡ shifted s ++ (packets firmware)) × Ready t)
          (send_firmware_legacy bus past firmware status s)
  unfolding send_firmware_legacy packets
  legacy-packets past [] status s r even = returns (refl, sym (append-nil (shifted s)), r)
  legacy-packets past (a ∷ []) status s r even = absurd (omega arith)
  legacy-packets past (a ∷ b ∷ firmware) status s r even =
      send_word-once a b (send_firmware_legacy bus past firmware) s (packets firmware) r
        λ st t r'. legacy-packets past firmware st t r' (omega arith)

  batch-once :
      (bytes : List ℕ) (n : ℕ) (s : S)
      → Ready s
      → 0 < n
      → n ≤ burst_words
      → length bytes ≡ n * 4
      → Returns
          (λ out t. (out.0 ≡ 0) × (shifted t ≡ shifted s ++ bytes) × Ready t)
          (spi_send_batch_packets bus heap bytes n s)
  batch-once bytes n s r some_words few len =
      let t = (heap.malloc (n * 4) s).1 in
      Returns.weaken
        (batch-Verdict takes.serves takes.quiet bytes n s r some_words len (omega arith)
          (takes.memory (n * 4) s))
        λ out v (txrx, st, u, e, freed, last, verdict, r'). elim verdict [
          | inl (z, st', all) ↦ (
            z,
            rw (freed, takes.shifted-free u, takes.shifted-xfer bytes txrx t u e)
                (ap (λ k. k ++ bytes) (takes.shifted-malloc (n * 4) s)),
            r',
          )
          | inr (o, (j, lt, st', bad, before)) ↦
              let good =
                takes.taken bytes txrx t u j (takes.quiet.after_malloc (n * 4) s r) e
                  (omega arith) in
              absurd (ground arith)
        ]

  burst-packets :
      (fuel : ℕ) (firmware : List ℕ) (status : ℕ) (s : S)
      → Ready s
      → length firmware % 2 ≡ 0
      → length firmware < fuel
      → Returns
          (λ out t. (out.0 ≡ pos 0) × (shifted t ≡ shifted s ++ packets firmware) × Ready t)
          (send_firmware_burst bus heap fuel firmware status s)
  unfolding send_firmware_burst packets
  burst-packets zero fw status s r even enough = absurd (omega arith)
  burst-packets (suc fuel) [] status s r even enough =
      returns (refl, sym (append-nil (shifted s)), r)
  burst-packets (suc fuel) (a ∷ rest) status s r even enough =
      let fw = a ∷ rest in
      let w = batch_words fw in
      let n = w * 2 in
      let (some_words, few, inside) = batch_words-bounds fw (omega arith) in
      let front = packets-fill_batch w n fw refl inside in
      let (even', less) = drop_words w fw some_words inside even in
      Returns.bind
        (batch-once (fill_batch w fw) w s r some_words few (length-fill_batch w fw inside))
        λ out t e (z, wire, r'). rw z (
          Returns.weaken
            (burst-packets fuel (drop n fw) (updated out.1 status) t r' even' (omega arith))
            λ out' u (z', wire', r'').
              (z', wire' ∙ rw (wire, front) (append_assoc (shifted s) _ _), r''))

  -- Both ways to send an image, over a bus whose slave takes every packet: each returns 0 and shifts
  -- out exactly the packets of the image, in order. The burst loop ends within more rounds than the
  -- image has bytes.
  pub send_firmware-packets :
      (past fuel : ℕ) (firmware : List ℕ) (status : ℕ) (s : S)
      → Ready s
      → IsImage firmware
      → length firmware < fuel
      → Returns
          (λ out t. (out.0 ≡ pos 0) × (shifted t ≡ shifted s ++ packets firmware) × Ready t)
          (send_firmware_legacy bus past firmware status s)
        × Returns
            (λ out t. (out.0 ≡ pos 0) × (shifted t ≡ shifted s ++ packets firmware) × Ready t)
            (send_firmware_burst bus heap fuel firmware status s)
  send_firmware-packets past fuel firmware status s r image enough = (
    legacy-packets past firmware status s r image.even,
    burst-packets fuel firmware status s r image.even enough,
  )
