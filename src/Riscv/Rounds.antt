-- ===== src/Riscv/Rounds.antt =====
-- Rounds of the firmware's main loop answer the commands one behind the other.
use ice40_ultraplus_examples.Base.{
  ℕ, zero, suc, ◌≡◌, refl, sym, ap, ◌∙◌, false, List, [], ◌∷◌, ◌++◌, append_assoc, append-nil,
  Bool-cases, inl, inr, get_or, take, drop,
}
use ice40_ultraplus_examples.Cmd.Returns
use ice40_ultraplus_examples.Cmd.Returns.{Returns, returns}
use ice40_ultraplus_examples.Riscv.{Registers, Locals, main_rounds}
use ice40_ultraplus_examples.Riscv.Board.{Board, answer, services}
use ice40_ultraplus_examples.Riscv.Service.{main_round-service}

take-nil : (n : ℕ) → take {A = ℕ} n [] ≡ []
take-nil zero = refl
take-nil (suc n) = refl

drop-nil : (n : ℕ) → drop {A = ℕ} n [] ≡ []
drop-nil zero = refl
drop-nil (suc n) = refl

module _ {S : Type 0} {regs : Registers S} {rounds : ℕ} (b : Board regs rounds) where
  open b use {commands, written, lit}

  -- Some commands were answered, and `left` are to come.
  abbrev pub Answered : Locals → S → (reads left : List ℕ) → Locals → S → Type 0
  Answered l s reads left out t =
      let (l', rs, cs) = services l reads in
      (out ≡ l') × (written t ≡ written s ++ rs) × (lit t ≡ lit s ++ cs) × (commands t ≡ left)

  Answered-none : (l : Locals) (s : S) → Answered l s [] (commands s) l s
  unfolding services
  Answered-none l s = (refl, sym (append-nil _), sym (append-nil _), refl)

  -- What a round did, once it is known whether a command was waiting.
  abbrev Did : Locals → S → Locals × List ℕ × List ℕ → (left : List ℕ) → Locals → S → Type 0
  Did l s (l', rs, cs) left m t =
      (m ≡ l') × (written t ≡ written s ++ rs) × (lit t ≡ lit s ++ cs) × (commands t ≡ left)

  after_command :
      (n : ℕ) (l m out : Locals) (s t u : S) (read : ℕ) (reads : List ℕ)
      → commands s ≡ read ∷ reads
      → Did l s (answer l read) reads m t
      → Answered m t (take n (commands t)) (drop n (commands t)) out u
      → Answered l s (take (suc n) (commands s)) (drop (suc n) (commands s)) out u
  unfolding services
  after_command n l m out s t u read reads first (e, w, c, k) later =
      let (l', rs, cs) = answer l read in
      let (e', w', c', k') = rw (e, k) at later in
      rw first (
        e',
        w' ∙ rw w (append_assoc (written s) rs (services l' (take n reads)).1),
        c' ∙ rw c (append_assoc (lit s) cs (services l' (take n reads)).2),
        k',
      )

  after_idle :
      (n : ℕ) (l m out : Locals) (s t u : S)
      → commands s ≡ []
      → Did l s (l, [], []) (commands s) m t
      → Answered m t (take n (commands t)) (drop n (commands t)) out u
      → Answered l s (take (suc n) (commands s)) (drop (suc n) (commands s)) out u
  unfolding services
  after_idle n l m out s t u none_left (e, w, c, k) later =
      let (e', w', c', k') = rw (e, k, none_left, take-nil n, drop-nil n) at later in
      rw none_left (
        e',
        w' ∙ ap (λ r. r ++ []) (w ∙ append-nil _),
        c' ∙ ap (λ r. r ++ []) (c ∙ append-nil _),
        k',
      )

  -- On a board that shows a command as long as one is to come: `n` rounds of the main loop return,
  -- and answer the first `n` commands, or all, one behind the other, each by its service.
  pub main_rounds-services :
      ((s : S) → b.waiting s ≡ false → commands s ≡ [])
      → (n : ℕ) (l : Locals) (s : S)
      → Returns
          (Answered l s (take n (commands s)) (drop n (commands s)))
          (main_rounds regs rounds n l s)
  unfolding main_rounds
  main_rounds-services shows zero l s = returns (Answered-none l s)
  main_rounds-services shows (suc n) l s =
      Returns.bind (main_round-service b l s) λ m t ran answered.
        Returns.weaken (main_rounds-services shows n m t) λ out u later.
          elim (Bool-cases (b.waiting s)) [
            | inl command ↦
                let first = b.presents s command in
                let did = rw (command, ap (λ c. get_or c 0 0) first) at answered in
                after_command n l m out s t u _ _ first did later
            | inr idle ↦
                let did = rw idle at answered in after_idle n l m out s t u (shows s idle) did later
          ]
