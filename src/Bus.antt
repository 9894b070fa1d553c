-- ===== src/Bus.antt =====
-- The SPI bus as the packet functions of the three spi_lib.c files use it: a full duplex transfer
-- of a buffer, and `usleep`. The do-while loop that those functions share is `retry`.
pub mod Tries
use ice40_ultraplus_examples.Base.{
  ℕ, zero, suc, ◌+◌, Bool, List, [], ◌∷◌, not, ◌&&◌, ltb, if◌then◌else◌, get_or,
}
use ice40_ultraplus_examples.Cmd.{Cmd, polling, pure, done, ◌>>=◌}

pub record Bus (S : Type 0) : Type 0 where
  pub xfer : List ℕ → Cmd S (List ℕ)
  pub usleep : ℕ → S → S

-- The C heap, as far as it shows: `malloc` tells whether it gave out a block.
pub record Heap (S : Type 0) : Type 0 where
  pub malloc : ℕ → S → Bool × S
  pub free : S → S

-- `free` as a command.
abbrev pub give_back : {S : Type 0} → Heap S → Cmd S (Unit {0})
give_back heap s = done tt (heap.free s)

-- A bus call as a command.
abbrev pub pause : {S : Type 0} → Bus S → ℕ → Cmd S (Unit {0})
pause bus n s = done tt (bus.usleep n s)

-- `step` does one round on the buffer. The loop keeps the buffer that a round leaves, and ends
-- when `accept` holds of it or `limit` rounds are made; the result is that buffer and `retries`.
-- `left` is `limit - retries`, so the first clause is never reached.
unfoldable pub retry :
    {S : Type 0} (step : List ℕ → Cmd S (List ℕ)) (accept : List ℕ → Bool) (limit left : ℕ)
    → List ℕ
    → (retries : ℕ) → Cmd S (List ℕ × ℕ)
retry step accept limit zero buf retries = λ s. polling
retry step accept limit (suc k) buf retries = do
  buf' ← step buf
  let again = retry step accept limit k buf' (retries + 1)
  if ltb (retries + 1) limit && not (accept buf') then again else pure (buf', retries + 1)
