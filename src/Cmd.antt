-- ===== src/Cmd.antt =====
-- Commands of the host programs: a state that the environment owns is passed through, and a
-- command returns a value, ends the process by `exit`, or has used up the rounds given to a loop
-- that polls.
pub mod Returns
use ice40_ultraplus_examples.Base.{ℕ}

pub data Outcome (S : Type 0) (A : Type 0) : Type 0 where
  done : A → S → Outcome S A
  exited : ℕ → S → Outcome S A
  polling : Outcome S A

abbrev pub Cmd : Type 0 → Type 0 → Type 0
Cmd S A = S → Outcome S A

abbrev pub pure : {S A : Type 0} → A → Cmd S A
pure a s = done a s

module _ {S A B : Type 0} where
  abbrev pub and_then : Outcome S A → (A → Cmd S B) → Outcome S B
  and_then (done a s) k = k a s
  and_then (exited c s) k = exited c s
  and_then polling k = polling

  infixl 5 ◌>>=◌ ◌>>◌
  abbrev pub ◌>>=◌ : Cmd S A → (A → Cmd S B) → Cmd S B
  m >>= k = λ s. and_then (m s) k

  abbrev pub ◌>>◌ : Cmd S A → Cmd S B → Cmd S B
  m >> n = m >>= λ _. n
