-- ===== src/Uart/Echo.antt =====
-- What the two UART programs send.
use ice40_ultraplus_examples.Base.{
  ℕ, zero, suc, ◌+◌, ◌%◌, ◌≤◌, ◌<◌, ◌≡◌, ◌⊎◌, inl, inr, length, refl, sym, ◌∙◌, true, false, List,
  [], ◌∷◌, ◌++◌, map, arith, ◌==◌, bit_and, append_assoc, append-nil,
}
use ice40_ultraplus_examples.Cmd.{Cmd}
use ice40_ultraplus_examples.Cmd.Returns
use ice40_ultraplus_examples.Cmd.Returns.{Returns, returns}
use ice40_ultraplus_examples.Uart.{
  Uart, uart_read_byte, uart_write_byte, wait_sent, echo_round, echo_rounds, uart_write_string,
  tx_round, tx_rounds,
}

-- A UART that works: the bytes that are still to be read, those that were sent, and how often the
-- transmitter will still show that it is busy, at most `most` times behind a byte. A byte that is
-- written while the transmitter is free is sent; of one that is written before, nothing is said,
-- since a full FIFO drops it.
pub record Works {S : Type 0} (uart : Uart S) (most : ℕ) : Type 0 where
  pub to_read : S → List ℕ
  pub sent : S → List ℕ
  pub busy : S → ℕ
  pub status-to_read : (s : S) → to_read (uart.read_status s).1 ≡ to_read s
  pub status-sent : (s : S) → sent (uart.read_status s).1 ≡ sent s
  pub status-busy : (s : S) → busy (uart.read_status s).1 ≤ busy s
  pub shows_busy :
      (s : S)
      → bit_and (uart.read_status s).0 2 == 0 ≡ false
      → busy (uart.read_status s).1 + 1 ≤ busy s
  pub shows_free :
      (s : S) → bit_and (uart.read_status s).0 2 == 0 ≡ true → busy (uart.read_status s).1 ≡ 0
  pub shows_byte :
      (s : S)
      → bit_and (uart.read_status s).0 1 == 0 ≡ false
      → to_read s
        ≡ (uart.read_data (uart.read_status s).1).0 % 256
          ∷ to_read (uart.read_data (uart.read_status s).1).1
  pub data-sent : (s : S) → sent (uart.read_data s).1 ≡ sent s
  pub data-busy : (s : S) → busy (uart.read_data s).1 ≤ busy s
  pub write-sent : (c : ℕ) (s : S) → busy s ≡ 0 → sent (uart.write_data c s) ≡ sent s ++ c ∷ []
  pub write-to_read : (c : ℕ) (s : S) → to_read (uart.write_data c s) ≡ to_read s
  pub write-busy : (c : ℕ) (s : S) → busy (uart.write_data c s) ≤ most

-- The text of the test, `n` times.
abbrev pub hellos : ℕ → List ℕ
hellos zero = []
hellos (suc n) = 0x48 ∷ 0x45 ∷ 0x4c ∷ 0x4c ∷ 0x4f ∷ 0x0d ∷ 0x0a ∷ hellos n

empty : (xs : List ℕ) → length xs ≤ 0 → xs ≡ []
empty [] h = refl
empty (x ∷ xs) h = absurd (omega arith)

byte_byte : (n : ℕ) → n % 256 % 256 ≡ n % 256
byte_byte n = omega arith

module _ {S : Type 0} {uart : Uart S} {most : ℕ} (works : Works uart most) (rounds : ℕ)
    (enough : most < rounds) where
  open works use {to_read, sent, busy}

  -- Time passed, and the rest is as before.
  record Waited (s t : S) : Type 0 where
    sent_same : sent t ≡ sent s
    read_same : to_read t ≡ to_read s
    calm : busy t ≤ busy s

  -- The wait ends, and the transmitter is free behind it.
  wait_sent-Waited :
      (n : ℕ) (s : S)
      → busy s < n
      → Returns (λ out t. Waited s t × (busy t ≡ 0)) (wait_sent uart n s)
  unfolding wait_sent
  wait_sent-Waited zero s h = absurd (omega arith)
  wait_sent-Waited (suc n) s h =
      let t = (uart.read_status s).1 in
      let seen : Waited s t = record {
        sent_same = works.status-sent s;
        read_same = works.status-to_read s;
        calm = works.status-busy s;
      } in
      Returns.branch_at (bit_and (uart.read_status s).0 2 == 0) _ _ t
        (λ free. returns (seen, works.shows_free s free))
        (λ in_use.
          Returns.weaken (wait_sent-Waited n t (omega (arith, works.shows_busy s in_use)))
            λ out u (waited, free). (
              record {
                sent_same = waited.sent_same ∙ seen.sent_same;
                read_same = waited.read_same ∙ seen.read_same;
                calm = omega (arith, waited.calm, seen.calm);
              },
              free,
            ))

  -- What was sent and what is still to be read make up the same list of bytes.
  abbrev pub Echoed : S → S → Type 0
  Echoed s t = (sent t ++ to_read t ≡ sent s ++ to_read s) × (busy t ≤ most)

  -- A byte was taken, or none was shown.
  abbrev Moved : S → S → Type 0
  Moved s t =
      (length (to_read t) + 1 ≤ length (to_read s))
      ⊎ ((bit_and (uart.read_status s).0 1 == 0 ≡ true) × (to_read t ≡ to_read s))

  echo_round-Echoed :
      (s : S) → busy s ≤ most → Returns (λ out t. Echoed s t × Moved s t) (echo_round uart rounds s)
  unfolding echo_round uart_read_byte uart_write_byte
  echo_round-Echoed s h =
      let t = (uart.read_status s).1 in
      Returns.branch_at (bit_and (uart.read_status s).0 1 == 0) _ _ t
        (λ none_there. returns (
          (
            rw (works.status-sent s, works.status-to_read s) refl,
            omega (arith, works.status-busy s, h),
          ),
          inr (none_there, works.status-to_read s),
        ))
        (λ there.
          let u = (uart.read_data t).1 in
          let c = (uart.read_data t).0 % 256 in
          Returns.bind
            (wait_sent-Waited rounds u
              (omega (arith, enough, h, works.data-busy t, works.status-busy s)))
            λ out v e (waited, free). returns (
              (
                rw
                    (
                      works.write-sent (c % 256) v free,
                      works.write-to_read,
                      waited.sent_same,
                      waited.read_same,
                      works.data-sent t,
                      works.status-sent s,
                      works.shows_byte s there,
                      byte_byte (uart.read_data t).0,
                    )
                    (append_assoc (sent s) (c ∷ []) (to_read u)),
                works.write-busy (c % 256) v,
              ),
              inl (
                  rw (works.write-to_read, waited.read_same, works.shows_byte s there)
                    (omega arith)),
            ))

  -- What a command that returns sends.
  abbrev pub Sends : Cmd S (Unit {0}) → List ℕ → Type 0
  Sends m bytes =
      (s : S)
      → busy s ≤ most
      → Returns (λ out t. (sent t ≡ sent s ++ bytes) × (busy t ≤ most)) (m s)

  uart_write_string-Sends :
      (text : List ℕ) → Sends (uart_write_string uart rounds text) (map (λ c. c % 256) text)
  unfolding uart_write_string uart_write_byte
  uart_write_string-Sends [] s h = returns (sym (append-nil (sent s)), h)
  uart_write_string-Sends (c ∷ cs) s h =
      Returns.bind (wait_sent-Waited rounds s (omega (arith, enough, h))) λ _ t e (waited, free).
        Returns.weaken
          (uart_write_string-Sends cs (uart.write_data (c % 256) t) (works.write-busy (c % 256) t))
          λ _ u (wire, calm). (
            wire
                ∙ rw (works.write-sent (c % 256) t free, waited.sent_same)
                    (append_assoc (sent s) (c % 256 ∷ []) (map (λ k. k % 256) cs)),
            calm,
          )

  -- With a working UART whose transmitter gets free within the bound of the wait: `n` rounds of the
  -- test program return, and send "HELLO", carriage return and newline `n` times.
  pub tx_rounds-hellos :
      (n : ℕ) (s : S)
      → busy s ≤ most
      → Returns
          (λ out t. (sent t ≡ sent s ++ hellos n) × (busy t ≤ most))
          (tx_rounds uart rounds n s)
  unfolding tx_rounds tx_round
  tx_rounds-hellos zero s h = returns (sym (append-nil (sent s)), h)
  tx_rounds-hellos (suc n) s h =
      Returns.bind
        (uart_write_string-Sends (0x48 ∷ 0x45 ∷ 0x4c ∷ 0x4c ∷ 0x4f ∷ 0x0d ∷ 0x0a ∷ []) s h)
        λ _ t e (wire, calm). Returns.weaken (tx_rounds-hellos n t calm) λ _ u (wire', calm'). (
          wire'
              ∙ rw wire (
                  append_assoc (sent s) (0x48 ∷ 0x45 ∷ 0x4c ∷ 0x4c ∷ 0x4f ∷ 0x0d ∷ 0x0a ∷ [])
                    (hellos n)),
          calm',
        )

  -- With a working UART whose transmitter gets free within the bound of the wait, and that shows
  -- a byte as long as one is to be read: any number of rounds of the echo program returns. As many
  -- rounds as there are bytes to be read send exactly these, in order, and so do more rounds.
  pub echo_rounds-all :
      ((s : S) → bit_and (uart.read_status s).0 1 == 0 ≡ true → to_read s ≡ [])
      → (n : ℕ) (s : S) → busy s ≤ most
      → length (to_read s) ≤ n
      → Returns
          (λ out t. (sent t ≡ sent s ++ to_read s) × (to_read t ≡ []))
          (echo_rounds uart rounds n s)
  unfolding echo_rounds
  echo_rounds-all shows zero s h all =
      let none_left = empty (to_read s) all in
      returns (rw none_left (sym (append-nil (sent s))), none_left)
  echo_rounds-all shows (suc n) s h all =
      Returns.bind (echo_round-Echoed s h) λ _ t e ((same, calm), moved).
        Returns.weaken (echo_rounds-all shows n t calm (left moved))
          λ _ u (wire, none_left). (wire ∙ same, none_left)
    where
      left : {t : S} → Moved s t → length (to_read t) ≤ n
      left {t} (inl taken) = omega (arith, taken, all)
      left {t} (inr (none_there, same)) = rw (same, shows s none_there) (omega arith)
