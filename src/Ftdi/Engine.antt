-- ===== src/Ftdi/Engine.antt =====
-- What the host code relies on of libftdi and the MPSSE engine behind it: writes are taken whole,
-- the engine answers a transfer with as many bytes as were shifted out, and a byte that is there
-- is read after some polls, fewer than `rounds`.
use ice40_ultraplus_examples.Base.{
  ℕ, suc, ◌-◌, ◌/◌, ◌%◌, ◌≤◌, ◌<◌, ◌≡◌, List, [], ◌∷◌, ◌++◌, length, pos,
}
use ice40_ultraplus_examples.Ftdi.{Device, mc_exchange_bytes, mc_flush}

pub record Engine {S : Type 0} (dev : Device S) (rounds : ℕ) : Type 0 where
  -- The state after a write, and all bytes written so far.
  pub put : List ℕ → S → S
  pub sent : S → List ℕ
  pub write_all :
      (bytes : List ℕ) (s : S) → dev.write_data bytes s ≡ (pos (length bytes), put bytes s)
  pub sent-put : (bytes : List ℕ) (s : S) → sent (put bytes s) ≡ sent s ++ bytes
  -- The bytes that wait to be read, and the polls until the next one arrives.
  pub pending : S → List ℕ
  pub wait : S → ℕ
  pub wait-lt : (s : S) → wait s < rounds
  pub read_early :
      (s : S) (k b : ℕ) (bs : List ℕ)
      → pending s ≡ b ∷ bs
      → wait s ≡ suc k
      → (junk : ℕ) × (t : S) × (dev.read_data s ≡ (pos 0, junk, t))
        × (wait (dev.usleep 100 t) ≡ k)
        × (pending (dev.usleep 100 t) ≡ pending s)
        × (sent (dev.usleep 100 t) ≡ sent s)
  pub read_ready :
      (s : S) (b : ℕ) (bs : List ℕ)
      → pending s ≡ b ∷ bs
      → wait s ≡ 0
      → (t : S) × (dev.read_data s ≡ (pos 1, b, t)) × (pending t ≡ bs) × (sent t ≡ sent s)
  pub pending-usleep : (n : ℕ) (s : S) → pending (dev.usleep n s) ≡ pending s
  pub sent-usleep : (n : ℕ) (s : S) → sent (dev.usleep n s) ≡ sent s
  -- What the slave shifts out while `bytes` are shifted in.
  pub exchange : S → List ℕ → List ℕ
  pub length-exchange : (s : S) (bytes : List ℕ) → length (exchange s bytes) ≡ length bytes
  pub answers :
      (bytes : List ℕ) (s : S)
      → pending s ≡ []
      → 0 < length bytes
      → length bytes ≤ 65536
      → pending (
          put (mc_flush ∷ []) (
            put bytes (
              put
                ((length bytes - 1) / 256 % 256 ∷ [])
                (put ((length bytes - 1) % 256 ∷ []) (put (mc_exchange_bytes ∷ []) s)))))
        ≡ exchange s bytes
