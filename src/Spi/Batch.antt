-- ===== src/Spi/Batch.antt =====
-- `spi_send_batch_packets`: the whole batch goes out in one transfer, and every status is checked.
use ice40_ultraplus_examples.Base.{
  ℕ, zero, suc, ◌+◌, ◌-◌, ◌*◌, ◌≤◌, ◌<◌, ◌≡◌, refl, ◌⊎◌, inl, inr, true, false, some, List, arith,
  length, get_or, subst, ==→eq, take, take-length, Bool-cases, ◌==◌, bit_and, ap,
}
use ice40_ultraplus_examples.Cmd.{done}
use ice40_ultraplus_examples.Cmd.Returns
use ice40_ultraplus_examples.Cmd.Returns.{Returns, returns}
use ice40_ultraplus_examples.Bus.{Bus, Heap}
use ice40_ultraplus_examples.Bus.Tries.{Serves}
use ice40_ultraplus_examples.Spi.{recv_mask, has_bit, check_batch, spi_send_batch_packets}

-- The status byte of packet `j` of a reply.
abbrev pub status_of : List ℕ → ℕ → ℕ
status_of txrx j = get_or txrx (j * 4) 0

-- Whether the FPGA took packet `j`.
abbrev pub Taken : List ℕ → ℕ → Type 0
Taken txrx j = has_bit recv_mask (status_of txrx j) ≡ true

-- The verdict on packets `i` to `n - 1`: all were taken, or packet `j` is the first that was not.
abbrev pub Verdict : List ℕ → (i n : ℕ) → ℕ × ℕ → Type 0
Verdict txrx i n out =
    ((out.0 ≡ 0) × (out.1 ≡ status_of txrx (n - 1)) × ((k : ℕ) → i ≤ k → k < n → Taken txrx k))
    ⊎ ((out.0 ≡ 1)
        × ((j : ℕ) × (j < n)
            × (out.1 ≡ status_of txrx j)
            × (has_bit recv_mask (status_of txrx j) ≡ false)
            × ((k : ℕ) → i ≤ k → k < j → Taken txrx k)))

-- A run of taken packets grows by one in front.
Taken-cons :
    (txrx : List ℕ) (i m : ℕ)
    → Taken txrx i
    → ((k : ℕ) → i + 1 ≤ k → k < m → Taken txrx k)
    → (k : ℕ) → i ≤ k
    → k < m
    → Taken txrx k
Taken-cons txrx i m here above k a b = elim (Bool-cases (i == k)) [
  | inl same ↦ subst (Taken txrx) (==→eq i k same) here
  | inr other ↦ above k (ground arith) b
]

check_batch-Verdict :
    (left i n : ℕ) (txrx : List ℕ) → i + left ≡ n → Verdict txrx i n (check_batch left i txrx)
unfolding check_batch
check_batch-Verdict zero i n txrx e =
    inl (refl, ap (λ k. status_of txrx (k - 1)) (omega arith), λ k a b. absurd (omega arith))
check_batch-Verdict (suc left) i n txrx e =
    elim (Bool-cases (bit_and (status_of txrx i) recv_mask == 0)) [
      | inl missed ↦
          rw missed (inr (refl, (i, omega arith, refl, rw missed, λ k a b. absurd (omega arith))))
      | inr taken ↦ rw taken (elim (check_batch-Verdict left (i + 1) n txrx (omega arith)) [
        | inl (z, st, all) ↦ inl (z, st, Taken-cons txrx i n (rw taken) all)
        | inr (o, (j, lt, st, bad, before)) ↦
            inr (o, (j, lt, st, bad, Taken-cons txrx i j (rw taken) before))
      ])
    ]

-- The heap leaves the bus alone.
pub record IsQuiet {S : Type 0} (heap : Heap S) (Ready : S → Type 0) : Type 0 where
  pub after_malloc : (n : ℕ) (s : S) → Ready s → Ready (heap.malloc n s).1
  pub after_free : (s : S) → Ready s → Ready (heap.free s)

module _ {S : Type 0} {bus : Bus S} {Ready : S → Type 0} (serves : Serves bus Ready) {heap : Heap S}
    (quiet : IsQuiet heap Ready) where
  -- A batch of `n` packets, at least one and at most 16384, for which memory is given out: it is
  -- transferred once and as a whole. The call reports success exactly if the FPGA took every
  -- packet, and otherwise the status of the first packet that it did not take.
  pub batch-Verdict :
      (packets : List ℕ) (n : ℕ) (s : S)
      → Ready s
      → 0 < n
      → length packets ≡ n * 4
      → length packets ≤ 65536
      → (heap.malloc (n * 4) s).0 ≡ true
      → Returns
          (λ out t.
            (txrx : List ℕ) × (status : ℕ) × (u : S) × (bus.xfer packets (heap.malloc (n * 4) s).1
              ≡ done txrx u)
            × (t ≡ heap.free u)
            × (out.1 ≡ some status)
            × Verdict txrx 0 n (out.0, status)
            × Ready t)
          (spi_send_batch_packets bus heap packets n s)
  unfolding spi_send_batch_packets
  batch-Verdict packets n s r some_packets len small memory =
      let t = (heap.malloc (n * 4) s).1 in
      let whole : take (n * 4) packets ≡ packets = rw (← len, take-length packets) in
      rw (nonzero, memory, whole)
        (Returns.bind
          (serves.answers packets t (quiet.after_malloc (n * 4) s r) (omega arith) small)
          λ txrx u e (same, r'). returns (
            txrx,
            (check_batch n 0 txrx).1,
            u,
            e,
            refl,
            refl,
            check_batch-Verdict n 0 n txrx (omega arith),
            quiet.after_free u r',
          ))
    where
      nonzero : (n == 0) ≡ false
      nonzero = ground arith
