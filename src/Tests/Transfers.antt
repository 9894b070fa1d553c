-- ===== src/Tests/Transfers.antt =====
-- The transfer and packet functions at concrete devices.
use ice40_ultraplus_examples.Base.{ℕ, ◌≡◌, refl, some, List, [], ◌∷◌, ◌++◌, arith, length}
use ice40_ultraplus_examples.Cmd.{done}
use ice40_ultraplus_examples.Cmd.Returns.{Returns}
use ice40_ultraplus_examples.Bus.{retry}
use ice40_ultraplus_examples.Ftdi.{xfer_spi}
use ice40_ultraplus_examples.Ftdi.Transfer.{frame, xfer_spi-frame}
use ice40_ultraplus_examples.Spi.{packet, was_received, spi_send, spi_read, spi_send_batch_packets}
use ice40_ultraplus_examples.Spi.Send.{Sent, spi_send-Sent, spi_send-resends_reply}
use ice40_ultraplus_examples.Spi.Read.{Answered, spi_read-Answered}
use ice40_ultraplus_examples.Spi.Batch.{Verdict, batch-Verdict}
use ice40_ultraplus_examples.Tests.Devices.{
  Loop, loop_device, loop_engine, start_state, echo_bus, echo_bus-Serves, echo_bus-log, taking_bus,
  large_heap, taking_bus-Takes,
}

abbrev IsIdle : Loop → Type 0
IsIdle s = loop_engine.pending s ≡ []

xfer_spi-frame_example :
    Returns
      (λ out t.
        (out ≡ 5 ∷ 6 ∷ [])
        × (length out ≡ 2)
        × (t.sent ≡ [] ++ frame (5 ∷ 6 ∷ []))
        × (t.pending ≡ []))
      (xfer_spi loop_device 1 (5 ∷ 6 ∷ []) start_state)
xfer_spi-frame_example =
    xfer_spi-frame loop_engine (5 ∷ 6 ∷ []) start_state refl (omega arith) (omega arith)

frame_bytes : frame (5 ∷ 6 ∷ []) ≡ 0x39 ∷ 1 ∷ 0 ∷ 5 ∷ 6 ∷ 0x87 ∷ []
unfolding frame
frame_bytes = refl

spi_send-Sent_example :
    Returns
      (λ out t. Sent echo_bus (packet 0x44 (1, 2, 3)) [] out t × Unit {0})
      (spi_send echo_bus 0x44 (1, 2, 3) [])
spi_send-Sent_example = spi_send-Sent echo_bus-Serves 0x44 (1, 2, 3) [] tt

-- The echo of a command with bit 6 is an acknowledgement.
send_taken : spi_send echo_bus 0x44 (1, 2, 3) [] ≡ done (0, 0x44) ((0x44 ∷ 1 ∷ 2 ∷ 3 ∷ []) ∷ [])
unfolding spi_send retry was_received
send_taken = refl

spi_send-resends_reply_example :
    Returns
      (λ out t.
        (more : List (List ℕ)) × (t ≡ [] ++ packet 0x01 (0, 0, 0) ∷ packet 0x01 (0, 0, 0) ∷ more))
      (spi_send echo_bus 0x01 (0, 0, 0) [])
unfolding was_received
spi_send-resends_reply_example =
    spi_send-resends_reply echo_bus-Serves (λ s. s) echo_bus-log 0x01 (0, 0, 0) []
      (packet 0x01 (0, 0, 0) ∷ []) (packet 0x01 (0, 0, 0)) tt refl refl

spi_read-Answered_example :
    Returns (λ out t. Answered echo_bus [] out t × Unit {0}) (spi_read echo_bus [])
spi_read-Answered_example = spi_read-Answered echo_bus-Serves [] tt

batch-Verdict_example :
    Returns
      (λ out t.
        (txrx : List ℕ) × (status : ℕ) × (u : List ℕ) × (taking_bus.xfer (2 ∷ 7 ∷ 8 ∷ 0 ∷ []) []
          ≡ done txrx u)
        × (t ≡ u)
        × (out.1 ≡ some status)
        × Verdict txrx 0 1 (out.0, status)
        × Unit {0})
      (spi_send_batch_packets taking_bus large_heap (2 ∷ 7 ∷ 8 ∷ 0 ∷ []) 1 [])
batch-Verdict_example =
    batch-Verdict taking_bus-Takes.serves taking_bus-Takes.quiet (2 ∷ 7 ∷ 8 ∷ 0 ∷ []) 1 [] tt
      (omega arith) refl (omega arith) refl
