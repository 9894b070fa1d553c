-- ===== src/Bus/Tries.antt =====
-- The rounds of `retry` as a relation, and the loop's total correctness over a bus that answers.
use ice40_ultraplus_examples.Base.{
  ℕ, zero, suc, ◌+◌, ◌≤◌, ◌<◌, ◌≡◌, refl, subst, not, ◌&&◌, ◌⊎◌, inl, inr, Bool, true, false, List,
  arith, ltb, if◌then◌else◌, length, Bool-cases,
}
use ice40_ultraplus_examples.Cmd.{Cmd, done}
use ice40_ultraplus_examples.Cmd.Returns
use ice40_ultraplus_examples.Cmd.Returns.{Returns, returns}
use ice40_ultraplus_examples.Bus.{Bus, retry}

-- What the packet functions rely on: from a state that is `Ready`, a transfer returns as many
-- bytes as it was given, and the bus is ready again; so it is after a pause.
pub record Serves {S : Type 0} (bus : Bus S) (Ready : S → Type 0) : Type 0 where
  pub answers :
      (bytes : List ℕ) (s : S)
      → Ready s
      → 0 < length bytes
      → length bytes ≤ 65536
      → Returns (λ out t. (length out ≡ length bytes) × Ready t) (bus.xfer bytes s)
  pub rests : (n : ℕ) (s : S) → Ready s → Ready (bus.usleep n s)

module _ {S : Type 0} (step : List ℕ → Cmd S (List ℕ)) (accept : List ℕ → Bool) where
  -- `n` rounds in a row, none of them accepted: each starts from the buffer that the one before
  -- it left.
  pub data Refused (buf : List ℕ) (s : S) : ℕ → List ℕ → S → Type 0 where
    none_yet : Refused buf s 0 buf s
    one_more :
        {n : ℕ} {b b' : List ℕ} {t t' : S}
        → Refused buf s n b t
        → step b t ≡ done b' t'
        → accept b' ≡ false
        → Refused buf s (suc n) b' t'

  pub Refused-zero :
      {buf : List ℕ} {s : S} {n : ℕ} {b : List ℕ} {t : S}
      → Refused buf s n b t
      → n ≡ 0
      → (b ≡ buf) × (t ≡ s)
  Refused-zero none_yet h = (refl, refl)
  Refused-zero (one_more before e r) h = absurd (omega arith)

  -- The first of several refused rounds, and those after it.
  pub Refused-first :
      {buf : List ℕ} {s : S} {n : ℕ} {b : List ℕ} {t : S}
      → Refused buf s n b t
      → 0 < n
      → (b' : List ℕ) × (t' : S) × (k : ℕ) × (step buf s ≡ done b' t') × Refused b' t' k b t
  Refused-first none_yet h = absurd (omega arith)
  Refused-first (one_more {b' = c} {t' = u} none_yet e r) h = (c, u, 0, e, none_yet)
  Refused-first (one_more (one_more before e r) e' r') h =
      let (b1, t1, k, first, rest) = Refused-first (one_more before e r) (omega arith) in
      (b1, t1, suc k, first, one_more rest e' r')

  -- The outcome of a loop of at most `limit` rounds: `n` rounds are refused, and the next one is
  -- accepted or is the last.
  pub record Tried (limit : ℕ) (buf : List ℕ) (s : S) (out : List ℕ × ℕ) (t : S) : Type 0 where
    pub refused : ℕ
    pub last_buf : List ℕ
    pub last_state : S
    pub before : Refused buf s refused last_buf last_state
    pub last : step last_buf last_state ≡ done out.0 t
    pub count : out.1 ≡ suc refused
    pub bound : out.1 ≤ limit
    pub stopped : (accept out.0 ≡ true) ⊎ (out.1 ≡ limit)

  module _ (Good : List ℕ → S → Type 0)
      (total : (b : List ℕ) (s : S) → Good b s → Returns Good (step b s)) where
    retry-Tried_from :
        (limit left n : ℕ) (buf b : List ℕ) (s t : S)
        → Good b t
        → Refused buf s n b t
        → n + left ≡ limit
        → 0 < left
        → Returns
            (λ out u. Tried limit buf s out u × Good out.0 u)
            (retry step accept limit left b n t)
    unfolding retry
    retry-Tried_from limit zero n buf b s t g r e h = absurd (omega arith)
    retry-Tried_from limit (suc left) n buf b s t g r e h =
        Returns.bind (total b t g) λ b' t' done_eq g'.
          elim (Bool-cases (ltb (n + 1) limit && not (accept b'))) [
            | inl go ↦ rw go (
                retry-Tried_from limit left (n + 1) buf b' s t' g'
                  (subst (λ k. Refused buf s k b' t') (omega arith)
                    (one_more r done_eq (ground arith)))
                  (omega arith) (ground arith))
            | inr stop ↦ rw stop (
                returns (
                  record {
                    refused = n;
                    last_buf = b;
                    last_state = t;
                    before = r;
                    last = done_eq;
                    count = omega arith;
                    bound = omega arith;
                    stopped = ground arith;
                  },
                  g',
                ))
          ]

    -- From a buffer and a state that are `Good`, a loop of at least one round returns.
    pub retry-Tried :
        (limit : ℕ) (buf : List ℕ) (s : S)
        → Good buf s
        → 0 < limit
        → Returns
            (λ out u. Tried limit buf s out u × Good out.0 u)
            (retry step accept limit limit buf 0 s)
    retry-Tried limit buf s g h =
        retry-Tried_from limit limit 0 buf buf s s g none_yet (omega arith) h

-- The result code of a loop: `won` if it ended before its limit, which needs an accepted reply.
pub code_of :
    (won lost n limit : ℕ) (accepted : Bool)
    → n ≤ limit
    → (accepted ≡ true) ⊎ (n ≡ limit)
    → (((if ltb n limit then won else lost) ≡ won) × (n < limit) × (accepted ≡ true))
      ⊎ (((if ltb n limit then won else lost) ≡ lost) × (n ≡ limit))
code_of won lost n limit accepted h k = ground arith
