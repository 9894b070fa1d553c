-- ===== src/Loader/Packets.antt =====
-- What the capture loop of comet2_spi_loader.c does with one packet.
use ice40_ultraplus_examples.Base.{
  ℕ, ◌≡◌, negsuc, if◌then◌else◌, false, sym, subst, Bool, true, List, [], ◌∷◌, ◌++◌, ◌==◌, ℤ, pos,
  append-nil,
}
use ice40_ultraplus_examples.Cmd.{done}
use ice40_ultraplus_examples.Cmd.Returns
use ice40_ultraplus_examples.Cmd.Returns.{Returns, returns}
use ice40_ultraplus_examples.Bus.{Bus}
use ice40_ultraplus_examples.Spi.{Bytes3}
use ice40_ultraplus_examples.Input.{input_source_next}
use ice40_ultraplus_examples.Loader.{
  comet_read_packet, Io, rsp_out_char, cmd_in_request, cmd_in_char, comet_send_in_char, send_next,
  take_packet,
}
use ice40_ultraplus_examples.Loader.Capture.{Captured, rx_capture_push-Captured}
use ice40_ultraplus_examples.Loader.Slave.{Slave, Later, Later-refl, spi_send-Later}

-- The byte that a packet brings: OUT packets bring one.
unfoldable pub out_byte : Bytes3 → List ℕ
out_byte p = if p.0 == rsp_out_char then p.1 ∷ [] else []

unfoldable pub out_bytes : List Bytes3 → List ℕ
out_bytes [] = []
out_bytes (p ∷ ps) = out_byte p ++ out_bytes ps

-- The packets that the loop reads from a state to its end, in order. Each round looks at the
-- clock and reads; a packet is handled behind a second look at the clock.
pub data Heard {S : Type 0} (bus : Bus S) (now_ms : S → ℕ × S)
    : S → Io → List Bytes3 → S → Type 0 where
  over : {s : S} {io : Io} → Heard bus now_ms s io [] (now_ms s).1
  silent :
      {s t v : S} {io : Io} {ps : List Bytes3} {out : ℤ × Bytes3}
      → comet_read_packet bus (now_ms s).1 ≡ done out t
      → out.0 ≡ negsuc 0
      → Heard bus now_ms t io ps v
      → Heard bus now_ms s io ps v
  said :
      {s t w v : S} {ps : List Bytes3} {out : ℤ × Bytes3} {io : Io} {next : Bool × Io}
      → comet_read_packet bus (now_ms s).1 ≡ done out t
      → out.0 ≡ pos 0
      → take_packet bus out.1 io (now_ms t).1 ≡ done next w
      → next.0 ≡ true
      → Heard bus now_ms w next.1 ps v
      → Heard bus now_ms s io (out.1 ∷ ps) v
  broken :
      {s t w : S} {out : ℤ × Bytes3} {io : Io} {next : Bool × Io}
      → comet_read_packet bus (now_ms s).1 ≡ done out t
      → out.0 ≡ pos 0
      → take_packet bus out.1 io (now_ms t).1 ≡ done next w
      → next.0 ≡ false
      → Heard bus now_ms s io (out.1 ∷ []) w

module _ {S : Type 0} {bus : Bus S} {now_ms : S → ℕ × S} {Ready : S → Type 0}
    (slave : Slave bus now_ms Ready) where
  open slave use {serves, micros, answers, micros-usleep, answers-usleep, micros-xfer, answers-xfer}

  -- What the packet `p` leaves in the capture.
  pub record Taken (p : Bytes3) (bytes : List ℕ) (s : S) (out : Bool × Io) (t : S) : Type 0 where
    pub later : Later slave s t
    pub ready : Ready t
    pub captured : Captured out.1.capture (bytes ++ out_byte p)

  send_next-Later :
      (ch : ℤ) (s : S) → Ready s → Returns (λ out t. Later slave s t × Ready t) (send_next bus ch s)
  unfolding send_next comet_send_in_char
  send_next-Later (negsuc n) s r = returns (Later-refl slave s, r)
  send_next-Later (pos ch) s r =
      Returns.bind (spi_send-Later slave cmd_in_char _ s r) λ out t e p. returns p

  unheard :
      (p : Bytes3) (bytes : List ℕ) (s t : S) (go : Bool) (io : Io)
      → p.0 == rsp_out_char ≡ false
      → Captured io.capture bytes
      → Later slave s t
      → Ready t
      → Taken p bytes s (go, io) t
  unfolding out_byte
  unheard p bytes s t go io other c l r = record {
    later = l;
    ready = r;
    captured = rw other (subst (Captured io.capture) (sym (append-nil bytes)) c);
  }

  pub take_packet-Taken :
      (p : Bytes3) (io : Io) (bytes : List ℕ) (s : S)
      → Captured io.capture bytes
      → Ready s
      → Returns (Taken p bytes s) (take_packet bus p io s)
  unfolding take_packet out_byte
  take_packet-Taken p io bytes s c r =
      Returns.branch_at (p.0 == rsp_out_char) _ _ s
        (λ out_char. returns (record {
          later = Later-refl slave s;
          ready = r;
          captured = rw out_char (rx_capture_push-Captured io.capture bytes p.1 c);
        }))
        (λ other.
          Returns.branch_at (p.0 == cmd_in_request) _ _ s
            (λ request.
              Returns.bind (send_next-Later (input_source_next io.src).1 s r) λ rc t e (l, ready).
                returns (
                  unheard p bytes s t (rc == 0) (record io { src = (input_source_next io.src).0 })
                    other c l ready))
            (λ ignored. returns (unheard p bytes s s true io other c (Later-refl slave s) r)))
