-- ===== src/Ftdi/Transfer.antt =====
-- `xfer_spi` over a working engine: the frame that goes out, and the bytes that come back.
use ice40_ultraplus_examples.Base.{
  ℕ, zero, suc, ◌-◌, ◌/◌, ◌%◌, ◌≤◌, ◌<◌, ◌≡◌, refl, ap, ap₂, ◌∙◌, subst, List, [], ◌∷◌, ◌++◌, arith,
  length, append_assoc, le→ltb_false,
}
use ice40_ultraplus_examples.Cmd.{done}
use ice40_ultraplus_examples.Cmd.Returns
use ice40_ultraplus_examples.Cmd.Returns.{Returns, returns}
use ice40_ultraplus_examples.Ftdi.{
  Device, mc_exchange_bytes, mc_flush, send_byte, write_chunk, recv_byte, recv_bytes, xfer_spi,
}
use ice40_ultraplus_examples.Ftdi.Engine.{Engine}

-- The bytes of one transfer on the wire to the engine.
unfoldable pub frame : List ℕ → List ℕ
frame bytes =
    mc_exchange_bytes
    ∷ (length bytes - 1) % 256
    ∷ (length bytes - 1) / 256 % 256
    ∷ (bytes ++ mc_flush ∷ [])

module _ {S : Type 0} {dev : Device S} {rounds : ℕ} (e : Engine dev rounds) where
  open e use {put, sent, pending, wait}

  send_byte-done : (b : ℕ) (s : S) → send_byte dev b s ≡ done tt (put (b ∷ []) s)
  unfolding send_byte
  send_byte-done b s = rw (e.write_all (b ∷ []) s)

  write_chunk-done : (bytes : List ℕ) (s : S) → write_chunk dev bytes s ≡ done tt (put bytes s)
  unfolding write_chunk
  write_chunk-done bytes s = rw (e.write_all bytes s) (ground arith)

  Got : ℕ → List ℕ → S → ℕ → S → Type 0
  Got b bs s out t = (out ≡ b) × (pending t ≡ bs) × (sent t ≡ sent s)

  recv_byte-done :
      (k w : ℕ) (s : S) (b : ℕ) (bs : List ℕ)
      → pending s ≡ b ∷ bs
      → wait s ≡ w
      → w < k
      → Returns (Got b bs s) (recv_byte dev k s)
  unfolding recv_byte Got
  recv_byte-done zero w s b bs p q h = absurd (omega arith)
  recv_byte-done (suc k) zero s b bs p q h =
      let (t, r, p', q') = e.read_ready s b bs p q in rw r (returns (refl, p', q'))
  recv_byte-done (suc k) (suc w) s b bs p q h =
      let (junk, t, r, w', p', q') = e.read_early s w b bs p q in
      rw r (
        Returns.weaken (recv_byte-done k w (dev.usleep 100 t) b bs (p' ∙ p) w' (omega arith))
          λ out u (x, y, z). (x, y, z ∙ q'))

  -- What a read of `bs` leaves.
  Drained : List ℕ → S → List ℕ → S → Type 0
  Drained bs s out t = (out ≡ bs) × (pending t ≡ []) × (sent t ≡ sent s)

  recv_bytes-done :
      (bs : List ℕ) (s : S)
      → pending s ≡ bs
      → Returns (Drained bs s) (recv_bytes dev rounds (length bs) s)
  unfolding recv_bytes Got Drained
  recv_bytes-done [] s p = returns (refl, p, refl)
  recv_bytes-done (b ∷ bs) s p =
      Returns.bind (recv_byte-done rounds (wait s) s b bs p refl (e.wait-lt s)) λ out t r (x, y, z).
        Returns.bind (recv_bytes-done bs t y)
          λ outs u r' (x', y', z'). returns (ap₂ ◌∷◌ x x', y', z' ∙ z)

  -- `xfer_spi` of 1 to 65536 bytes on an idle engine returns, writes exactly the frame of these
  -- bytes, returns what the slave shifted out, which is as long, and leaves the engine idle.
  pub xfer_spi-frame :
      (bytes : List ℕ) (s : S)
      → pending s ≡ []
      → 0 < length bytes
      → length bytes ≤ 65536
      → Returns
          (λ out t.
            (out ≡ e.exchange s bytes)
            × (length out ≡ length bytes)
            × (sent t ≡ sent s ++ frame bytes)
            × (pending t ≡ []))
          (xfer_spi dev rounds bytes s)
  unfolding xfer_spi frame Drained
  xfer_spi-frame bytes s p some_bytes small =
      let lo = (length bytes - 1) % 256 in
      let hi = (length bytes - 1) / 256 % 256 in
      let t1 = put (mc_exchange_bytes ∷ []) s in
      let t2 = put (lo ∷ []) t1 in
      let t3 = put (hi ∷ []) t2 in
      let t4 = put bytes t3 in
      let t5 = put (mc_flush ∷ []) t4 in
      let ready : pending t5 ≡ e.exchange s bytes = e.answers bytes s p some_bytes small in
      rw
        (
          le→ltb_false (length bytes) 1 some_bytes,
          send_byte-done mc_exchange_bytes s,
          send_byte-done lo t1,
          send_byte-done hi t2,
          write_chunk-done bytes t3,
          send_byte-done mc_flush t4,
        )
        (Returns.weaken
          (subst (λ n. Returns (Drained (e.exchange s bytes) t5) (recv_bytes dev rounds n t5))
            (e.length-exchange s bytes) (recv_bytes-done (e.exchange s bytes) t5 ready))
          λ out t (x, y, z). (x, ap length x ∙ e.length-exchange s bytes, z ∙ sent_frame, y))
    where
      sent_frame :
          sent (
            put (mc_flush ∷ []) (
              put bytes (
                put
                  ((length bytes - 1) / 256 % 256 ∷ [])
                  (put ((length bytes - 1) % 256 ∷ []) (put (mc_exchange_bytes ∷ []) s)))))
          ≡ sent s
            ++ mc_exchange_bytes
              ∷ (length bytes - 1) % 256
              ∷ (length bytes - 1) / 256 % 256
              ∷ (bytes ++ mc_flush ∷ [])
      sent_frame = simp (e.sent-put, append_assoc)
