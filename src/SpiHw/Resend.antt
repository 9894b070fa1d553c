-- ===== src/SpiHw/Resend.antt =====
-- `spi_command_send_recv` over a bus that answers: every attempt sends the same packet.
use ice40_ultraplus_examples.Base.{
  ℕ, suc, ◌<◌, ◌≡◌, refl, ◌⊎◌, true, List, [], ◌∷◌, ◌++◌, arith, length, replicate, take, drop,
  append_assoc, append-nil, sym, take-all, zero, ap,
}
use ice40_ultraplus_examples.Cmd.{done}
use ice40_ultraplus_examples.Cmd.Returns
use ice40_ultraplus_examples.Cmd.Returns.{Returns, returns}
use ice40_ultraplus_examples.Bus.{Bus}
use ice40_ultraplus_examples.Bus.Tries.{Serves, Refused, none_yet, one_more, retry-Tried, code_of}
use ice40_ultraplus_examples.SpiHw.{max_retries, was_received, send_again, spi_command_send_recv}

module _ {S : Type 0} {bus : Bus S} {Ready : S → Type 0} (serves : Serves bus Ready)
    (log : S → List (List ℕ))
    (log-xfer : (b out : List ℕ) (s t : S)
      → bus.xfer b s ≡ done out t
      → log t ≡ log s ++ b ∷ []) where
  -- How a call ended: the same packet went out in every attempt, the answer is the bytes 3 to 7 of
  -- the last reply, and success means that an earlier attempt than the tenth was acknowledged.
  pub record Resent (request : List ℕ) (s : S) (out : ℕ × List ℕ) (t : S) : Type 0 where
    pub reply : List ℕ
    pub rounds : ℕ
    pub same : log t ≡ log s ++ replicate rounds request
    pub some_rounds : 0 < rounds
    pub answer : out.1 ≡ take 5 (drop 3 reply)
    pub outcome :
        ((out.0 ≡ 0) × (rounds < max_retries) × (was_received reply ≡ true))
        ⊎ ((out.0 ≡ 1) × (rounds ≡ max_retries))

  replicate-snoc : (n : ℕ) (b : List ℕ) → replicate n b ++ b ∷ [] ≡ replicate (suc n) b
  replicate-snoc zero b = refl
  replicate-snoc (suc n) b = ap (b ∷◌) (replicate-snoc n b)

  -- One transfer of `request` behind `n` of them.
  log-sent :
      (request b' : List ℕ) (n : ℕ) (s u u' : S)
      → log u ≡ log s ++ replicate n request
      → bus.xfer request u ≡ done b' u'
      → log u' ≡ log s ++ replicate (suc n) request
  log-sent request b' n s u u' p e =
      rw (log-xfer request b' u u' e, p, ← replicate-snoc n request)
        (append_assoc (log s) (replicate n request) (request ∷ []))

  log-Refused :
      (request : List ℕ) {b : List ℕ} {s : S} {n : ℕ} {b' : List ℕ} {t : S}
      → Refused (send_again bus request) was_received b s n b' t
      → log t ≡ log s ++ replicate n request
  unfolding send_again
  log-Refused request none_yet = sym (append-nil _)
  log-Refused request {s} (one_more {n} {b' = c} {t = u} {t' = u'} r e refused) =
      log-sent request c n s u u' (log-Refused request r) e

  request-total :
      (request b : List ℕ) (s : S)
      → length request ≡ 8
      → Ready s
      → Returns (λ out t. Ready t) (send_again bus request b s)
  unfolding send_again
  request-total request b s eight r =
      Returns.weaken (serves.answers request s r (omega arith) (omega arith)) λ out t h. h.1

  -- With a parameter of seven bytes and from a ready bus, the call returns with the bus ready
  -- again, as `Resent` describes: each of its 1 to 10 transfers sends the packet of the command.
  pub spi_command_send_recv-Resent :
      (cmd : ℕ) (send_param : List ℕ) (s : S)
      → Ready s
      → length send_param ≡ 7
      → Returns
          (λ out t. Resent (cmd ∷ send_param) s out t × Ready t)
          (spi_command_send_recv bus cmd send_param s)
  unfolding spi_command_send_recv send_again
  spi_command_send_recv-Resent cmd send_param s r seven =
      let request = cmd ∷ send_param in
      rw (take-all send_param 7 (omega arith)) (
        Returns.bind
          (retry-Tried (send_again bus request) was_received (λ b t. Ready t)
            (λ b t ready. request-total request b t (omega arith) ready) max_retries request s r
            (omega arith))
          λ (reply, n) t e (tried, ready). returns (
            record {
              reply = reply;
              rounds = n;
              same = rw tried.count (
                  log-sent request reply tried.refused s tried.last_state t
                    (log-Refused request tried.before) tried.last);
              some_rounds = omega (arith, tried.count);
              answer = refl;
              outcome = code_of 0 1 n max_retries (was_received reply) tried.bound tried.stopped;
            },
            ready,
          ))
