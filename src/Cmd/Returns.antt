-- ===== src/Cmd/Returns.antt =====
-- Total correctness of a command: it returns, and its value and final state satisfy a predicate.
use ice40_ultraplus_examples.Base.{◌≡◌, refl, Bool, true, false, if◌then◌else◌}
use ice40_ultraplus_examples.Cmd.{Outcome, done, Cmd, and_then}

pub data Returns {S A : Type 0} (P : A → S → Type 0) : Outcome S A → Type 0 where
  returns : {a : A} {s : S} → P a s → Returns P (done a s)

module _ {S A : Type 0} {P : A → S → Type 0} where
  -- A bind returns if its first part does and its second does from there.
  pub bind :
      {B : Type 0} {Q : B → S → Type 0} {r : Outcome S A} {k : A → Cmd S B}
      → Returns P r
      → ((a : A) (s : S) → r ≡ done a s → P a s → Returns Q (k a s))
      → Returns Q (and_then r k)
  bind (returns p) next = next _ _ refl p

  pub weaken :
      {Q : A → S → Type 0} {r : Outcome S A}
      → Returns P r
      → ((a : A) (s : S) → P a s → Q a s)
      → Returns Q r
  weaken (returns p) f = returns (f _ _ p)

  -- The same, where the outcome itself is used.
  pub weaken_with :
      {Q : A → S → Type 0} {r : Outcome S A}
      → Returns P r
      → ((a : A) (s : S) → r ≡ done a s → P a s → Q a s)
      → Returns Q r
  weaken_with (returns p) f = returns (f _ _ refl p)

  -- A test: each branch may use how it came out.
  pub branch :
      (b : Bool) {x y : Outcome S A}
      → (b ≡ true → Returns P x)
      → (b ≡ false → Returns P y)
      → Returns P (if b then x else y)
  branch true f g = f refl
  branch false f g = g refl

  -- A test between two commands.
  pub branch_at :
      (b : Bool) (f g : Cmd S A) (s : S)
      → (b ≡ true → Returns P (f s))
      → (b ≡ false → Returns P (g s))
      → Returns P ((if b then f else g) s)
  branch_at true f g s yes_case no_case = yes_case refl
  branch_at false f g s yes_case no_case = no_case refl

  -- Only a command that is done returns.
  pub value : {r : Outcome S A} → Returns P r → (a : A) × (s : S) × (r ≡ done a s) × P a s
  value (returns {a} {s} p) = (a, s, refl, p)
