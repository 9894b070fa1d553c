-- ===== src/Spi/Send.antt =====
-- `spi_send` over a bus that answers.
use ice40_ultraplus_examples.Base.{
  ℕ, ◌<◌, ◌≡◌, refl, ◌⊎◌, inl, inr, true, false, List, [], ◌∷◌, ◌++◌, arith, length, get_or,
  Bool-cases, ◌==◌, ==→eq, append_assoc, length-append,
}
use ice40_ultraplus_examples.Cmd.{done}
use ice40_ultraplus_examples.Cmd.Returns
use ice40_ultraplus_examples.Cmd.Returns.{Returns, returns}
use ice40_ultraplus_examples.Bus.{Bus}
use ice40_ultraplus_examples.Bus.Tries.{
  Serves, Refused, none_yet, one_more, Refused-zero, Refused-first, Tried, retry-Tried, code_of,
}
use ice40_ultraplus_examples.Spi.{Bytes3, packet, was_received, send_limit, spi_send}

-- How a call of `spi_send` ended: after some refused rounds, with a last reply whose first byte is
-- the status. It reports success exactly if one of the first 99 replies was accepted.
pub record Sent {S : Type 0} (bus : Bus S) (bytes : List ℕ) (s : S) (out : ℕ × ℕ) (t : S)
    : Type 0 where
  pub reply : List ℕ
  pub rounds : ℕ
  pub tried : Tried bus.xfer was_received send_limit bytes s (reply, rounds) t
  pub status : out.1 ≡ get_or reply 0 0
  pub outcome :
      ((out.0 ≡ 0) × (rounds < send_limit) × (was_received reply ≡ true))
      ⊎ ((out.0 ≡ 1) × (rounds ≡ send_limit))

module _ {S : Type 0} {bus : Bus S} {Ready : S → Type 0} (serves : Serves bus Ready) where
  Good : List ℕ → S → Type 0
  Good b s = (length b ≡ 4) × Ready s

  xfer-Good : (b : List ℕ) (s : S) → Good b s → Returns Good (bus.xfer b s)
  unfolding Good
  xfer-Good b s (four, r) =
      Returns.weaken (serves.answers b s r (omega arith) (omega arith))
        λ out t (same, r'). (omega arith, r')

  -- From a ready bus `spi_send` returns with the bus ready again, as `Sent` describes.
  pub spi_send-Sent :
      (cmd : ℕ) (val : Bytes3) (s : S)
      → Ready s
      → Returns (λ out t. Sent bus (packet cmd val) s out t × Ready t) (spi_send bus cmd val s)
  unfolding spi_send Good
  spi_send-Sent cmd val s r =
      Returns.bind
        (retry-Tried bus.xfer was_received Good xfer-Good send_limit (packet cmd val) s (refl, r)
          (omega arith))
        λ (reply, n) t e (tried, good). returns (
          record {
            reply = reply;
            rounds = n;
            tried = tried;
            status = refl;
            outcome = code_of 0 1 n send_limit (was_received reply) tried.bound tried.stopped;
          },
          good.1,
        )

  -- Every buffer that the bus transfers is recorded, in order.
  module _ (log : S → List (List ℕ))
      (log-xfer : (b out : List ℕ) (s t : S)
        → bus.xfer b s ≡ done out t
        → log t ≡ log s ++ b ∷ []) where
    -- The buffers of the refused rounds, and the buffer of the next: each reply becomes the next
    -- request.
    log-Refused :
        {b : List ℕ} {s : S} {n : ℕ} {b' : List ℕ} {t : S}
        → Refused bus.xfer was_received b s n b' t
        → (mid : List (List ℕ)) × (log t ++ b' ∷ [] ≡ log s ++ b ∷ mid) × (length mid ≡ n)
    log-Refused none_yet = ([], refl, refl)
    log-Refused {b} {s} (one_more {n} {b = c} {b' = c'} {t = u} {t' = u'} r e refused) =
        let (mid, p, len) = log-Refused r in
        (
          mid ++ c' ∷ [],
          rw (log-xfer c c' u u' e) (rw p (append_assoc (log s) (b ∷ mid) (c' ∷ []))),
          omega (arith, length-append mid (c' ∷ [])),
        )

    module _ (cmd : ℕ) (val : Bytes3) (s u : S) (b : List ℕ)
        (first : bus.xfer (packet cmd val) s ≡ done b u) (refused : was_received b ≡ false)
        {out : ℕ × ℕ} {t : S} (sent : Sent bus (packet cmd val) s out t) where
      open sent.tried use {refused as n, last_buf, last_state, before, last, count, stopped}

      -- One round only would be the refused one.
      several : 0 < n
      several = elim (Bool-cases (n == 0)) [
        | inl z ↦
            let (same_buf, same_state) = Refused-zero _ _ before (==→eq n 0 z) in
            let again : bus.xfer (packet cmd val) s ≡ done sent.reply t =
              rw same_buf at (rw same_state at last) in
            let same_reply : sent.reply ≡ b = cc (again, first) in
            let no_reply : was_received sent.reply ≡ false = rw same_reply refused in
            absurd (ground (arith, ==→eq n 0 z))
        | inr nz ↦ ground arith
      ]

      resent : (more : List (List ℕ)) × (log t ≡ log s ++ packet cmd val ∷ b ∷ more)
      resent =
          let (b1, u1, k, e1, rest) = Refused-first _ _ before several in
          let (mid, p, len) = log-Refused rest in
          let same_reply : b1 ≡ b = cc (e1, first) in
          let same_state : u1 ≡ u = cc (e1, first) in
          (
            mid,
            rw
                (
                  log-xfer last_buf sent.reply last_state t last,
                  p,
                  same_reply,
                  same_state,
                  log-xfer (packet cmd val) b s u first,
                )
                (append_assoc (log s) (packet cmd val ∷ []) (b ∷ mid)),
          )

    -- If the first reply is refused, the second buffer on the bus is that reply, and not the packet.
    pub spi_send-resends_reply :
        (cmd : ℕ) (val : Bytes3) (s u : S) (b : List ℕ)
        → Ready s
        → bus.xfer (packet cmd val) s ≡ done b u
        → was_received b ≡ false
        → Returns
            (λ out t. (more : List (List ℕ)) × (log t ≡ log s ++ packet cmd val ∷ b ∷ more))
            (spi_send bus cmd val s)
    spi_send-resends_reply cmd val s u b r e refused =
        Returns.weaken (spi_send-Sent cmd val s r)
          λ out t (sent, ready). resent cmd val s u b e refused sent
