-- ===== src/Tests/Devices.antt =====
-- Concrete devices: a loopback FTDI device, an echoing bus, a bus whose slave takes every packet.
use ice40_ultraplus_examples.Base.{
  ℕ, zero, suc, ◌*◌, ◌<◌, ◌≡◌, refl, Bool, true, false, List, [], ◌∷◌, ◌++◌, map, arith, length,
  get_or, ℤ, pos, if◌then◌else◌, ◌==◌,
}
use ice40_ultraplus_examples.Cmd.{done}
use ice40_ultraplus_examples.Cmd.Returns.{returns}
use ice40_ultraplus_examples.Ftdi.{Device, mc_flush}
use ice40_ultraplus_examples.Ftdi.Engine.{Engine}
use ice40_ultraplus_examples.Bus.{Bus, Heap}
use ice40_ultraplus_examples.Bus.Tries.{Serves}
use ice40_ultraplus_examples.Spi.Batch.{Taken}
use ice40_ultraplus_examples.Firmware.Wire.{Takes}

-- The engine gives back the chunk that stood before a flush.
pub record Loop : Type 0 where
  pub sent : List ℕ
  pub last : List ℕ
  pub pending : List ℕ

abbrev is_flush : List ℕ → Bool
is_flush [] = false
is_flush (b ∷ []) = b == mc_flush
is_flush (b ∷ c ∷ bs) = false

abbrev feed : List ℕ → Loop → Loop
feed bytes s = record {
  sent = s.sent ++ bytes;
  last = bytes;
  pending = if is_flush bytes then s.last else s.pending;
}

abbrev pull_from : List ℕ → Loop → ℤ × ℕ × Loop
pull_from [] s = (pos 0, 0, s)
pull_from (b ∷ bs) s = (pos 1, b, record s { pending = bs })

abbrev pub loop_device : Device Loop
loop_device = record {
  write_data = λ bytes s. (pos (length bytes), feed bytes s);
  read_data = λ s. pull_from s.pending s;
  usleep = λ n s. s;
}

pub pull_from-ready :
    (s : Loop) (b : ℕ) (bs pending : List ℕ)
    → pending ≡ b ∷ bs
    → (t : Loop) × (pull_from pending s ≡ (pos 1, b, t)) × (t.pending ≡ bs) × (t.sent ≡ s.sent)
pull_from-ready s b bs [] e = cc
pull_from-ready s b bs (x ∷ xs) e = (record s { pending = xs }, cc, cc, refl)

abbrev pub loop_engine : Engine loop_device 1
loop_engine = record {
  put = feed;
  sent = λ s. s.sent;
  write_all = λ bytes s. refl;
  sent-put = λ bytes s. refl;
  pending = λ s. s.pending;
  wait = λ s. 0;
  wait-lt = λ s. omega arith;
  read_early = λ s k b bs p w. absurd (omega arith);
  read_ready = λ s b bs p w. pull_from-ready s b bs s.pending p;
  pending-usleep = λ n s. refl;
  sent-usleep = λ n s. refl;
  exchange = λ s bytes. bytes;
  length-exchange = λ s bytes. refl;
  answers = λ bytes s p some_bytes small. refl;
}

abbrev pub start_state : Loop
start_state = record { sent = []; last = []; pending = [] }

-- The bus gives back what it is given, and remembers every buffer.
abbrev pub echo_bus : Bus (List (List ℕ))
echo_bus = record { xfer = λ b s. done b (s ++ b ∷ []); usleep = λ n s. s }

pub echo_bus-Serves : Serves echo_bus (λ s. Unit {0})
echo_bus-Serves = record {
  answers = λ bytes s r some_bytes small. returns (refl, tt);
  rests = λ n s r. tt;
}

pub echo_bus-log :
    (b out : List ℕ) (s t : List (List ℕ)) → echo_bus.xfer b s ≡ done out t → t ≡ s ++ b ∷ []
echo_bus-log b out s t e = cc

abbrev pub acknowledge : ℕ → ℕ
acknowledge x = 0xc0

-- A slave that takes every packet: each byte that it shifts out has the bit of an acknowledgement.
abbrev pub taking_bus : Bus (List ℕ)
taking_bus = record { xfer = λ b s. done (map acknowledge b) (s ++ b); usleep = λ n s. s }

abbrev pub large_heap : {S : Type 0} → Heap S
large_heap = record { malloc = λ n s. (true, s); free = λ s. s }

pub length-answers : (b : List ℕ) → length (map acknowledge b) ≡ length b
length-answers [] = refl
length-answers (x ∷ b) = omega (arith, length-answers b)

get_or-answers :
    (b : List ℕ) (i : ℕ) → i < length b → get_or (map acknowledge b) i 0 ≡ acknowledge 0
get_or-answers [] i h = absurd (omega arith)
get_or-answers (x ∷ b) zero h = refl
get_or-answers (x ∷ b) (suc i) h = get_or-answers b i (omega arith)

answers-Taken : (b out : List ℕ) (j : ℕ) → map acknowledge b ≡ out → j * 4 < length b → Taken out j
answers-Taken b out j e h = rw (← e, get_or-answers b (j * 4) h)

pub taking_bus-Takes : Takes taking_bus large_heap (λ s. Unit {0}) (λ s. s)
taking_bus-Takes = record {
  serves = record {
    answers = λ bytes s r some_bytes small. returns (length-answers bytes, tt);
    rests = λ n s r. tt;
  };
  taken = λ bytes out s t j r e h. answers-Taken bytes out j (cc e) h;
  shifted-xfer = λ bytes out s t e. cc e;
  shifted-malloc = λ n s. refl;
  shifted-free = λ s. refl;
  quiet = record { after_malloc = λ n s r. tt; after_free = λ s r. tt };
  memory = λ n s. refl;
  shifted-usleep = λ n s. refl;
}
