-- ===== src/Comet/Devices.antt =====
-- The device registers at 0xf000 and above: no instruction but ST writes them.
use ice40_ultraplus_examples.Base.{
  ℕ, ◌/◌, ◌%◌, ◌^◌, ◌≤◌, ◌<◌, ◌≡◌, ◌≢◌, refl, false, ◌||◌, arith, branch, ltb, ◌==◌,
}
use ice40_ultraplus_examples.Comet.Codes.{
  Op, nop, st, push, pop, call, ret, svc, is_two_word_instruction, decode,
}
use ice40_ultraplus_examples.Comet.Words.{sub16, indexed_addr}
use ice40_ultraplus_examples.Comet.Perform.{bad_field}
use ice40_ultraplus_examples.Comet.Machine.{
  Machine, word_at, supervise, effect, obey, fetched, instruction, overflows, underflows, pushed,
}

below_devices :
    (sp : ℕ) → sp < 2 ^ 16 → (sp == 0 || sp / 4096 % 16 == 15) ≡ false → sub16 sp 1 < 0xf000
unfolding sub16
below_devices sp h room = ground arith

module _ (i : ℕ) (high : 0xf000 ≤ i) where
  -- The word at `i` is as it was.
  abbrev Keeps : Machine → Machine → Type 0
  Keeps m n = n.word i ≡ m.word i

  pushed-Keeps : (v : ℕ) (m : Machine) → m.sp < 2 ^ 16 → overflows m ≡ false → Keeps m (pushed v m)
  pushed-Keeps v m h room = ground (arith, below_devices m.sp h room)

  supervise-Keeps : (n : ℕ) (m : Machine) → m.sp < 2 ^ 16 → Keeps m (supervise n m)
  unfolding supervise
  supervise-Keeps n m h =
      branch (Keeps m) (n == 0) (λ e. refl)
        (λ e.
          branch (Keeps m) (ltb 0x0f n) (λ e'. refl)
            (λ e'. branch (Keeps m) (overflows m) (λ f. refl) (λ f. pushed-Keeps m.pr m h f)))

  effect-Keeps :
      (o : Op) (r x ea : ℕ) (m : Machine) → m.sp < 2 ^ 16 → o ≢ st → Keeps m (effect o r x ea m)
  unfolding effect
  effect-Keeps nop r x ea m h no_store = refl
  effect-Keeps st r x ea m h no_store = absurd (no_store refl)
  effect-Keeps push r x ea m h no_store =
      branch (Keeps m) (overflows m) (λ e. refl) (λ e. pushed-Keeps ea m h e)
  effect-Keeps pop r x ea m h no_store = branch (Keeps m) (underflows m) (λ e. refl) (λ e. refl)
  effect-Keeps call r x ea m h no_store =
      branch (Keeps m) (overflows m) (λ e. refl) (λ e. pushed-Keeps m.pr m h e)
  effect-Keeps ret r x ea m h no_store = branch (Keeps m) (underflows m) (λ e. refl) (λ e. refl)
  effect-Keeps svc r x ea m h no_store = supervise-Keeps (ea % 2 ^ 8) m h
  effect-Keeps _ r x ea m h no_store = refl

  obey-Keeps :
      (o : Op) (r x operand : ℕ) (m : Machine)
      → m.sp < 2 ^ 16
      → o ≢ st
      → Keeps m (obey o r x operand m)
  unfolding obey
  obey-Keeps o r x operand m h no_store =
      branch (Keeps m) (bad_field o r x) (λ e. refl)
        (λ e. effect-Keeps o r x (indexed_addr m.gr operand x) m h no_store)

-- An instruction that is no ST leaves each word from 0xf000 on as it was: the stack does not grow
-- into the device registers.
pub instruction-keeps_devices :
    (m : Machine) (i : ℕ)
    → m.sp < 2 ^ 16
    → 0xf000 ≤ i
    → decode (word_at m m.pr / 256 % 256) ≢ st
    → (instruction m).word i ≡ m.word i
unfolding instruction
instruction-keeps_devices m i h high no_store =
    let o = decode (word_at m m.pr / 256 % 256) in
    branch (λ (n : Machine). n.word i ≡ m.word i) (is_two_word_instruction o)
      (λ e. obey-Keeps i high o _ _ _ (fetched (fetched m)) h no_store)
      (λ e. obey-Keeps i high o _ _ 0 (fetched m) h no_store)
