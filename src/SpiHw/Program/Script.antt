-- ===== src/SpiHw/Program/Script.antt =====
-- What spi_hw/spi_host/main.c puts on the bus.
use ice40_ultraplus_examples.Base.{
  ℕ, zero, suc, ◌*◌, ◌/◌, ◌%◌, ◌^◌, ◌<◌, ◌≡◌, refl, sym, subst, ap, ◌∙◌, List, [], ◌∷◌, ◌++◌,
  length, replicate, append_assoc, append-nil,
}
use ice40_ultraplus_examples.Cmd.{Cmd, done, and_then}
use ice40_ultraplus_examples.Cmd.Returns
use ice40_ultraplus_examples.Cmd.Returns.{Returns, returns}
use ice40_ultraplus_examples.Bus.{Bus}
use ice40_ultraplus_examples.Bus.Tries.{Serves}
use ice40_ultraplus_examples.SpiHw.{spi_command_send, spi_command_send_recv, spi_command_send_32}
use ice40_ultraplus_examples.SpiHw.Resend.{spi_command_send_recv-Resent}
use ice40_ultraplus_examples.SpiHw.Program.{
  spi_cmd_init, send_bit_inv, set_led, four, init_param, fetch_data, send_vector, read_vector, run,
  main,
}

-- Each request in turn, once or more often.
pub data Repeats : List (List ℕ) → List (List ℕ) → Type 0 where
  nothing : Repeats [] []
  often :
      {requests log : List (List ℕ)} (n : ℕ) (request : List ℕ)
      → 0 < n
      → Repeats requests log
      → Repeats (request ∷ requests) (replicate n request ++ log)

Repeats-append :
    {xs ys ls ms : List (List ℕ)} → Repeats xs ls → Repeats ys ms → Repeats (xs ++ ys) (ls ++ ms)
Repeats-append nothing q = q
Repeats-append {ys} {ms} (often {requests} {log} n request some_times p) q =
    subst (Repeats (request ∷ requests ++ ys)) (sym (append_assoc (replicate n request) log ms))
      (often n request some_times (Repeats-append p q))

-- The packets of the program, in order.
abbrev pub script : List (List ℕ)
script =
    (0x01 ∷ 0 ∷ 0 ∷ 0 ∷ 0 ∷ 0 ∷ 0 ∷ 0x11 ∷ [])
    ∷ (0x02 ∷ four 0x38 0xae 0x3b 0x48)
    ∷ (0x04 ∷ four 0x3 0 0 0)
    ∷ (0x04 ∷ four 0x4 0 0 0)
    ∷ (0x06 ∷ four 0x04 0x03 0x02 0x01)
    ∷ (0x06 ∷ four 0x08 0x06 0x04 0x02)
    ∷ (0x06 ∷ four 0x0c 0x09 0x06 0x03)
    ∷ (0x06 ∷ four 0x10 0x0c 0x08 0x04)
    ∷ (0x07 ∷ four 0 0 0 0)
    ∷ (0x07 ∷ four 0 0 0 0)
    ∷ (0x07 ∷ four 0 0 0 0)
    ∷ (0x07 ∷ four 0 0 0 0)
    ∷ []

module _ {S : Type 0} {bus : Bus S} {Ready : S → Type 0} (serves : Serves bus Ready)
    (log : S → List (List ℕ))
    (log-xfer : (b out : List ℕ) (s t : S) → bus.xfer b s ≡ done out t → log t ≡ log s ++ b ∷ [])
    (log-usleep : (n : ℕ) (s : S) → log (bus.usleep n s) ≡ log s) where
  -- What was transferred between two states.
  pub record Said (requests : List (List ℕ)) (s t : S) : Type 0 where
    pub ready : Ready t
    pub more : List (List ℕ)
    pub logged : log t ≡ log s ++ more
    pub repeats : Repeats requests more

  -- A command that returns a value with a property, and the requests that it makes.
  abbrev Says : {A : Type 0} → (A → Type 0) → Cmd S A → List (List ℕ) → Type 0
  Says P m requests = (s : S) → Ready s → Returns (λ out t. P out × Said requests s t) (m s)

  Said-trans : {xs ys : List (List ℕ)} {s t u : S} → Said xs s t → Said ys t u → Said (xs ++ ys) s u
  Said-trans {s} p q = record {
    ready = q.ready;
    more = p.more ++ q.more;
    logged = q.logged ∙ ap (λ k. k ++ q.more) p.logged ∙ append_assoc (log s) p.more q.more;
    repeats = Repeats-append p.repeats q.repeats;
  }

  Says-bind :
      {A B : Type 0} {P : A → Type 0} {Q : B → Type 0} {m : Cmd S A} (k : A → Cmd S B)
      {xs ys : List (List ℕ)}
      → Says P m xs
      → ((a : A) → P a → Says Q (k a) ys)
      → Says Q (λ s. and_then (m s) k) (xs ++ ys)
  Says-bind k first next s r = Returns.bind (first s r) λ out t e (p, said).
      Returns.weaken (next out p t said.ready) λ out' u (q, said'). (q, Said-trans said said')

  Says-pure : {A : Type 0} {P : A → Type 0} (a : A) → P a → Says P (λ s. done a s) []
  Says-pure a p s r =
      returns
        (p, record { ready = r; more = []; logged = sym (append-nil (log s)); repeats = nothing })

  Says-map :
      {A B : Type 0} {P : A → Type 0} {Q : B → Type 0} {m : Cmd S A} (f : A → B)
      {xs : List (List ℕ)}
      → Says P m xs
      → ((a : A) → P a → Q (f a))
      → Says Q (λ s. and_then (m s) (λ a t. done (f a) t)) xs
  Says-map f first next s r =
      Returns.bind (first s r) λ out t e (p, said). returns (next out p, said)

  Says-pause :
      {A : Type 0} {P : A → Type 0} (n : ℕ) (k : Cmd S A) {xs : List (List ℕ)}
      → Says P k xs
      → Says P (λ s. k (bus.usleep n s)) xs
  Says-pause n k says s r =
      Returns.weaken (says (bus.usleep n s) (serves.rests n s r)) λ out t (p, said). (
        p,
        record {
          ready = said.ready;
          more = said.more;
          logged = said.logged ∙ ap (λ l. l ++ said.more) (log-usleep n s);
          repeats = said.repeats;
        },
      )

  recv-Says :
      (cmd : ℕ) (param : List ℕ)
      → length param ≡ 7
      → Says (λ out. Unit {0}) (spi_command_send_recv bus cmd param) ((cmd ∷ param) ∷ [])
  recv-Says cmd param seven s r =
      Returns.weaken (spi_command_send_recv-Resent serves log log-xfer cmd param s r seven)
        λ out t (resent, ready). (
          tt,
          record {
            ready = ready;
            more = replicate resent.rounds (cmd ∷ param) ++ [];
            logged =
                resent.same
                ∙ ap (λ k. log s ++ k) (sym (append-nil (replicate resent.rounds (cmd ∷ param))));
            repeats = often resent.rounds (cmd ∷ param) resent.some_rounds nothing;
          },
        )

  fetch_data-Says :
      (cmd : ℕ) (param : List ℕ)
      → length param ≡ 7
      → Says (λ out. Unit {0}) (fetch_data bus cmd param) ((cmd ∷ param) ∷ [])
  unfolding fetch_data
  fetch_data-Says cmd param seven = Says-map (λ out. out.1) (recv-Says cmd param seven) λ out _. tt

  send-Says :
      (cmd : ℕ) (param : List ℕ)
      → length param ≡ 7
      → Says (λ out. Unit {0}) (spi_command_send bus cmd param) ((cmd ∷ param) ∷ [])
  unfolding spi_command_send
  send-Says cmd param seven = Says-map (λ out. out.0) (recv-Says cmd param seven) λ out _. tt

  -- The packet of a value.
  abbrev of_value : ℕ → List ℕ
  of_value v = 0x06 ∷ four (v % 256) (v / 2 ^ 8 % 256) (v / 2 ^ 16 % 256) (v / 2 ^ 24 % 256)

  abbrev vector : (left i : ℕ) → List (List ℕ)
  vector zero i = []
  vector (suc left) i = of_value (suc i * 0x01020304) ∷ vector left (suc i)

  send_vector-Says : (left i : ℕ) → Says (λ out. Unit {0}) (send_vector bus left i) (vector left i)
  unfolding send_vector spi_command_send_32
  send_vector-Says zero i = Says-pure tt tt
  send_vector-Says (suc left) i =
      Says-bind _ (send-Says _ _ refl) λ out _. send_vector-Says left (suc i)

  read_vector-Says :
      (left : ℕ)
      → Says
          (λ out. length out ≡ left)
          (read_vector bus left)
          (replicate left (0x07 ∷ four 0 0 0 0))
  unfolding read_vector
  read_vector-Says zero = Says-pure [] refl
  read_vector-Says (suc left) = Says-bind _ (fetch_data-Says _ _ refl) λ data_read _.
      Says-map (λ more. data_read ∷ more) (read_vector-Says left) λ more len. ap suc len

  run-Says : Says (λ out. (out.0 ≡ 0) × (length out.1 ≡ 7)) (run bus) script
  unfolding run
  run-Says = Says-bind _ (send-Says spi_cmd_init init_param refl) λ rc _.
      Says-bind _ (fetch_data-Says send_bit_inv (four 0x38 0xae 0x3b 0x48) refl) λ inverted _.
        Says-bind _ (fetch_data-Says set_led (four 0x3 0 0 0) refl) λ yellow _.
          Says-pause 2000000 _ (
            Says-bind _ (fetch_data-Says set_led (four 0x4 0 0 0) refl) λ blue _.
              Says-bind _ (send_vector-Says 4 0) λ _ _. Says-pause 5000 _ (
                Says-bind _ (read_vector-Says 4)
                  λ vector len. Says-pure _ (refl, ap (λ n. suc (suc (suc n))) len)))

  -- With a bus that is ready behind `spi_init`, whatever that returned: the program returns with
  -- the bus ready, status 0 and seven answers. All that it transferred since are the packets of its
  -- script, in order, each of them 1 or more times.
  pub main-script :
      (spi_init : Cmd S ℕ) (s : S) (rc : ℕ) (t : S)
      → spi_init s ≡ done rc t
      → Ready t
      → Returns (λ out u. (out.0 ≡ 0) × (length out.1 ≡ 7) × Said script t u) (main bus spi_init s)
  unfolding main
  main-script spi_init s rc t begun r =
      rw begun
        (Returns.weaken (run-Says t r) λ out u ((zero_code, len), said). (zero_code, len, said))
