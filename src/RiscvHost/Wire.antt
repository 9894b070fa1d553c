-- ===== src/RiscvHost/Wire.antt =====
-- What riscv/host_server/main.c puts on the bus to load a firmware.
use ice40_ultraplus_examples.Base.{
  ℕ, ◌≡◌, refl, sym, ap, ◌∙◌, true, List, [], ◌∷◌, ◌++◌, append_assoc, append-nil,
}
use ice40_ultraplus_examples.Cmd.{Cmd, done, and_then}
use ice40_ultraplus_examples.Cmd.Returns
use ice40_ultraplus_examples.Cmd.Returns.{Returns, returns}
use ice40_ultraplus_examples.Bus.{Bus, Heap}
use ice40_ultraplus_examples.Spi.{packet, spi_send}
use ice40_ultraplus_examples.Firmware.{Files, cmd_init, cmd_send_firmware, cmd_start_cpu}
use ice40_ultraplus_examples.Firmware.Wire.{packets, Takes, spi_send-once}
use ice40_ultraplus_examples.RiscvHost.{send_words, load, run, main}
use ice40_ultraplus_examples.RiscvHost.Opened.{Opened, firmware_of, behind, main-run}

-- The byte that fills the last word of a firmware of odd size.
unfoldable pub pad : (past : ℕ) → List ℕ → List ℕ
pad past [] = []
pad past (a ∷ []) = past ∷ []
pad past (a ∷ b ∷ firmware) = pad past firmware

-- What a load puts on the bus.
abbrev pub loaded : (past : ℕ) → List ℕ → List ℕ
loaded past firmware =
    packet cmd_init (0, 0, 0)
    ++ packets (firmware ++ pad past firmware)
    ++ packet cmd_start_cpu (0, 0, 0)

three : (a b c d : List ℕ) → a ++ b ++ c ++ d ≡ a ++ (b ++ c ++ d)
three a b c d = ap (λ k. k ++ d) (append_assoc a b c) ∙ append_assoc a (b ++ c) d

module _ {S : Type 0} {bus : Bus S} {heap : Heap S} {Ready : S → Type 0} {shifted : S → List ℕ}
    (takes : Takes bus heap Ready shifted) where
  -- What a command that returns shifts out.
  abbrev pub Shifts : {A : Type 0} → Cmd S A → List ℕ → Type 0
  Shifts m bytes =
      (s : S) → Ready s → Returns (λ out t. (shifted t ≡ shifted s ++ bytes) × Ready t) (m s)

  -- A packet behind a pause.
  packet-Shifts :
      {A : Type 0} (wait cmd a b : ℕ) (k : ℕ × ℕ → Cmd S A) (rest : List ℕ)
      → ((out : ℕ × ℕ) → Shifts (k out) rest)
      → Shifts
          (λ s. and_then (spi_send bus cmd (a, b, 0) (bus.usleep wait s)) k)
          (packet cmd (a, b, 0) ++ rest)
  packet-Shifts wait cmd a b k rest next s r =
      Returns.bind
        (spi_send-once takes cmd (a, b, 0) (bus.usleep wait s) (takes.serves.rests wait s r))
        λ out t e (taken, wire, r'). Returns.weaken (next out t r') λ out' u (w, r''). (
          w
              ∙ ap (λ k. k ++ rest)
                  (wire ∙ ap (λ k. k ++ packet cmd (a, b, 0)) (takes.shifted-usleep wait s))
              ∙ append_assoc (shifted s) (packet cmd (a, b, 0)) rest,
          r'',
        )

  nothing-Shifts : {A : Type 0} (a : A) → Shifts (λ s. done a s) []
  nothing-Shifts a s r = returns (sym (append-nil (shifted s)), r)

  send_words-Shifts :
      (past : ℕ) (firmware : List ℕ)
      → Shifts (send_words bus past firmware) (packets (firmware ++ pad past firmware))
  unfolding send_words packets pad
  send_words-Shifts past [] = nothing-Shifts tt
  send_words-Shifts past (a ∷ []) =
      packet-Shifts 1000 cmd_send_firmware a past _ [] (λ out. nothing-Shifts tt)
  send_words-Shifts past (a ∷ b ∷ more) =
      packet-Shifts 1000 cmd_send_firmware a b _ (packets (more ++ pad past more))
        (λ out. send_words-Shifts past more)

  load-Shifts :
      (past : ℕ) (firmware : List ℕ) → Shifts (load bus past firmware) (loaded past firmware)
  unfolding load
  load-Shifts past firmware s r =
      let u = bus.usleep 1000000 s in
      Returns.bind (spi_send-once takes cmd_init (0, 0, 0) u (takes.serves.rests 1000000 s r))
        λ out t e (taken, wire, rt).
          Returns.bind (send_words-Shifts past firmware t rt) λ _ v e' (words, rv).
            Returns.bind
              (spi_send-once takes cmd_start_cpu (0, 0, 0) (bus.usleep 2000000 v)
                (takes.serves.rests 2000000 v rv))
              λ out' w e'' (taken', wire', rw'). returns (
                takes.shifted-usleep 1000000 w
                    ∙ wire'
                    ∙ rw
                        (
                          takes.shifted-usleep 2000000 v,
                          words,
                          wire,
                          takes.shifted-usleep 1000000 s,
                        )
                        (three (shifted s) (packet cmd_init (0, 0, 0))
                          (packets (firmware ++ pad past firmware))
                          (packet cmd_start_cpu (0, 0, 0))),
                takes.serves.rests 1000000 w rw',
              )

  run-Shifts :
      (past : ℕ) (firmware : List ℕ) (s : S)
      → Ready s
      → Returns
          (λ out t. (out ≡ (0, [])) × (shifted t ≡ shifted s ++ loaded past firmware) × Ready t)
          (run bus past true firmware s)
  unfolding run
  run-Shifts past firmware s r =
      Returns.bind (load-Shifts past firmware s r) λ out t e (w, r'). returns (refl, w, r')

  -- Over a bus whose slave takes every packet, with the arguments understood and the file opened:
  -- if the program only loads, it returns 0. Behind the read of the file it shifts out exactly
  -- SPI_INIT, the packets of the firmware and SPI_START_CPU, in this order. The last word of a
  -- firmware of odd size is filled up by the byte of the buffer behind it.
  pub main-loads :
      (files : Files S) (spi_init : Cmd S ℕ) (past : ℕ) (arguments : List (List ℕ)) (s : S)
      (path : List ℕ) (rc : ℕ) (u : S)
      → Opened bus files spi_init past arguments s path true rc u
      → Ready (behind bus files spi_init past path u)
      → Returns
          (λ out t.
            (out ≡ (0, []))
            × (shifted t
                ≡ shifted (behind bus files spi_init past path u)
                  ++ loaded past (firmware_of bus files spi_init past path u))
            × Ready t)
          (main bus files spi_init past arguments s)
  main-loads files spi_init past arguments s path rc u opened r =
      main-run bus files spi_init past arguments s path true rc u opened (
        run-Shifts past (firmware_of bus files spi_init past path u)
          (behind bus files spi_init past path u) r)
