-- ===== src/Firmware/Load/Sequence.antt =====
-- What a load puts on the bus.
use ice40_ultraplus_examples.Base.{
  ℕ, zero, suc, ◌<◌, ◌≡◌, refl, sym, ap, ◌∙◌, some, List, [], ◌++◌, length, ◌||◌, append_assoc,
  append-nil, pos,
}
use ice40_ultraplus_examples.Cmd.{done}
use ice40_ultraplus_examples.Cmd.Returns
use ice40_ultraplus_examples.Cmd.Returns.{Returns, returns}
use ice40_ultraplus_examples.Bus.{Bus, Heap}
use ice40_ultraplus_examples.Bus.Tries.{Serves}
use ice40_ultraplus_examples.Spi.{packet}
use ice40_ultraplus_examples.Spi.Read.{spi_read-Answered}
use ice40_ultraplus_examples.Firmware.{
  Files, cmd_init, cmd_start_cpu, read_firmware_file, read_and_drop,
}
use ice40_ultraplus_examples.Firmware.Image.{IsImage}
use ice40_ultraplus_examples.Firmware.Drain.{drain-Drained}
use ice40_ultraplus_examples.Firmware.Wire.{packets, Takes, spi_send-once, send_firmware-packets}
use ice40_ultraplus_examples.Firmware.Load.{
  Mode, no_param, drain, send_firmware, start, load_and_start_comet_firmware,
}

module _ {S : Type 0} {bus : Bus S} {heap : Heap S} {Ready : S → Type 0} {shifted : S → List ℕ}
    (takes : Takes bus heap Ready shifted) where
  -- Ready, with some bytes shifted out behind `base`.
  abbrev Since : List ℕ → S → Type 0
  Since base s = Ready s × ((more : List ℕ) × (shifted s ≡ base ++ more))

  Serves-Since : (base : List ℕ) → Serves bus (Since base)
  Serves-Since base = record {
    answers = λ bytes s (r, (more, e)) some_bytes small.
        let (out, t, x, (len, r')) =
          Returns.value (takes.serves.answers bytes s r some_bytes small) in
        rw x (
          returns (
            len,
            (
              r',
              (
                more ++ bytes,
                takes.shifted-xfer bytes out s t x ∙ rw e (append_assoc base more bytes),
              ),
            ),
          ));
    rests = λ n s (r, (more, e)). (takes.serves.rests n s r, (more, takes.shifted-usleep n s ∙ e));
  }

  read_and_drop-Since :
      (base : List ℕ) (n : ℕ) (s : S)
      → Since base s
      → Returns (λ out t. Since base t) (read_and_drop bus n s)
  unfolding read_and_drop
  read_and_drop-Since base zero s r = returns r
  read_and_drop-Since base (suc n) s r =
      Returns.bind (spi_read-Answered (Serves-Since base) s r)
        λ out t e (a, r'). read_and_drop-Since base n t r'

  module _ (files : Files S) (past fuel : ℕ) (mode : Mode) where
    drain-Since :
        (base : List ℕ) (s : S)
        → Since base s
        → Returns (λ out t. Since base t) (drain bus heap files past fuel mode s)
    unfolding drain
    drain-Since base s r =
        Returns.branch_at (mode.reload_safe || mode.probe_reload) _ _ s
          (λ quiet.
            Returns.bind (drain-Drained (Serves-Since base) 64 4 s r)
              λ out t e (drained, r'). returns r')
          λ plain. read_and_drop-Since base 10 s r

    send_firmware-packets_mode :
        (firmware : List ℕ) (status : ℕ) (s : S)
        → Ready s
        → IsImage firmware
        → length firmware < fuel
        → Returns
            (λ out t. (out.0 ≡ pos 0) × (shifted t ≡ shifted s ++ packets firmware) × Ready t)
            (send_firmware bus heap files past fuel mode firmware status s)
    unfolding send_firmware
    send_firmware-packets_mode firmware status s r image enough =
        let (legacy, burst) =
          send_firmware-packets takes past fuel firmware status s r image enough in
        Returns.branch_at mode.use_burst _ _ s (λ e. burst) (λ e. legacy)

    start-packet :
        (s : S)
        → Ready s
        → Returns
            (λ out t.
              (out ≡ pos 0) × (shifted t ≡ shifted s ++ packet cmd_start_cpu no_param) × Ready t)
            (start bus heap files past fuel mode s)
    unfolding start
    start-packet s r =
        let t = bus.usleep 20000 (heap.free s) in
        let r' = takes.serves.rests 20000 (heap.free s) (takes.quiet.after_free s r) in
        let same : shifted t ≡ shifted s =
          takes.shifted-usleep 20000 (heap.free s) ∙ takes.shifted-free s in
        Returns.bind (spi_send-once takes cmd_start_cpu no_param t r') λ out u e (z, wire, r'').
          rw z (
            returns (
              refl,
              takes.shifted-usleep 20000 u
                  ∙ wire
                  ∙ ap (λ k. k ++ packet cmd_start_cpu no_param) same,
              takes.serves.rests 20000 u r'',
            ))

    -- Once the image is read, a load over a bus whose slave takes every packet succeeds. Behind what
    -- the drain shifts out there are exactly SPI_INIT, the packets of the image and SPI_START_CPU,
    -- in this order, in every mode.
    pub load-sequence :
        (path firmware : List ℕ) (s t : S)
        → read_firmware_file heap files path s ≡ done (some firmware) t
        → Ready t
        → IsImage firmware
        → length firmware < fuel
        → Returns
            (λ out u.
              (out ≡ pos 0)
              × ((drained : List ℕ) × (shifted u
                    ≡ (shifted t ++ drained)
                      ++ packet cmd_init no_param
                      ++ packets firmware
                      ++ packet cmd_start_cpu no_param))
              × Ready u)
            (load_and_start_comet_firmware bus heap files past fuel mode path s)
    unfolding load_and_start_comet_firmware
    load-sequence path firmware s t e r image enough = rw e (
        Returns.bind (drain-Since (shifted t) t (r, ([], sym (append-nil (shifted t)))))
          λ x u eu (ru, (drained, wu)).
            let v = bus.usleep 20000 u in
            let wv = takes.shifted-usleep 20000 u ∙ wu in
            Returns.bind (spi_send-once takes cmd_init no_param v (takes.serves.rests 20000 u ru))
              λ out w ew (z, ww, rw'). rw z (
                Returns.bind (send_firmware-packets_mode firmware out.1 w rw' image enough)
                  λ out' a ea (z', wa, ra). rw z' (
                    Returns.weaken (start-packet a ra)
                      λ out'' b (zb, wb, rb). (zb, (drained, wb ∙ rw (wa, ww, wv)), rb))))
