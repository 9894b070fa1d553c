-- ===== src/Riscv/Results.antt =====
-- What the firmware writes of results and colours, and that it waits for a free write buffer.
use ice40_ultraplus_examples.Base.{
  ℕ, zero, suc, ◌<◌, ◌≡◌, refl, ◌∙◌, ap, sym, List, [], ◌∷◌, ◌++◌, arith, append_assoc, append-nil,
}
use ice40_ultraplus_examples.Cmd.Returns
use ice40_ultraplus_examples.Cmd.Returns.{Returns, returns}
use ice40_ultraplus_examples.Riscv.{
  Registers, colours, light_all, wait_free, write_result, write_results,
}
use ice40_ultraplus_examples.Riscv.Board.{Board}

module _ {S : Type 0} {regs : Registers S} {rounds : ℕ} (b : Board regs rounds) where
  open b use {commands, written, lit}

  -- A command wrote these results and colours, left the commands to come, and returned `a`.
  pub record Wrote {A : Type 0} (s : S) (a : A) (rs cs : List ℕ) (out : A) (t : S) : Type 0 where
    pub value : out ≡ a
    pub results : written t ≡ written s ++ rs
    pub colours : lit t ≡ lit s ++ cs
    pub kept : commands t ≡ commands s

  -- Nothing was written.
  pub nothing :
      {A : Type 0} {a : A} {s t : S}
      → written t ≡ written s
      → lit t ≡ lit s
      → commands t ≡ commands s
      → Wrote s a [] [] a t
  nothing results colours kept = record {
    value = refl;
    results = results ∙ sym (append-nil _);
    colours = colours ∙ sym (append-nil _);
    kept = kept;
  }

  -- One command behind another that returns nothing.
  then_more :
      {A : Type 0} {s t u : S} {x : Unit {0}} {a out : A} {rs rs' cs cs' : List ℕ}
      → Wrote s tt rs cs x t
      → Wrote t a rs' cs' out u
      → Wrote s a (rs ++ rs') (cs ++ cs') out u
  then_more {s = s} {rs = rs} {rs' = rs'} {cs = cs} {cs' = cs'} w w' = record {
    value = w'.value;
    results = w'.results ∙ ap (λ l. l ++ rs') w.results ∙ append_assoc (written s) rs rs';
    colours = w'.colours ∙ ap (λ l. l ++ cs') w.colours ∙ append_assoc (lit s) cs cs';
    kept = w'.kept ∙ w.kept;
  }

  pub light-Wrote : (v : ℕ) (s : S) → Wrote s tt [] (v ∷ []) tt (regs.store_gpio v s)
  light-Wrote v s = record {
    value = refl;
    results = b.written-gpio v s ∙ sym (append-nil _);
    colours = b.lit-gpio v s;
    kept = b.commands-gpio v s;
  }

  pub light_all-Wrote : (vs : List ℕ) (s : S) → Returns (Wrote s tt [] vs) (light_all regs vs s)
  unfolding light_all
  light_all-Wrote [] s = returns (nothing refl refl refl)
  light_all-Wrote (v ∷ vs) s =
      Returns.weaken (light_all-Wrote vs (regs.store_gpio v s))
        λ out u w. then_more (light-Wrote v s) w

  load-Wrote : (i : ℕ) (s : S) → Wrote s tt [] [] tt (regs.load_spi i s).1
  load-Wrote i s = nothing (b.written-load i s) (b.lit-load i s) (b.commands-load i s)

  -- The wait ends, and the buffer is free behind it.
  wait_free-Wrote :
      (k n : ℕ) (s : S)
      → b.busy s ≡ n
      → n < k
      → Returns (λ out t. Wrote s tt [] [] out t × (b.busy t ≡ 0)) (wait_free regs k s)
  unfolding wait_free
  wait_free-Wrote zero n s e h = absurd (omega arith)
  wait_free-Wrote (suc k) zero s e h =
      let (free, still) = b.status_free s e in rw free (returns (load-Wrote 0 s, still))
  wait_free-Wrote (suc k) (suc n) s e h =
      let (busy, left) = b.status_busy s n e in
      rw busy (
        Returns.weaken (wait_free-Wrote k n (regs.load_spi 0 s).1 left (omega arith))
          λ out t (w, free). (then_more (load-Wrote 0 s) w, free))

  pub write_result-Wrote :
      (v : ℕ) (s : S) → Returns (Wrote s tt (v ∷ []) []) (write_result regs rounds v s)
  unfolding write_result
  write_result-Wrote v s =
      Returns.bind (wait_free-Wrote rounds (b.busy s) s refl (b.busy-lt s)) λ out t e (w, free).
        returns (
          then_more w (record {
            value = refl;
            results = b.written-result v t free;
            colours = b.lit-store 3 v t ∙ sym (append-nil _);
            kept = b.commands-result v t;
          }))

  pub write_results-Wrote :
      (vs : List ℕ) (s : S) → Returns (Wrote s tt vs []) (write_results regs rounds vs s)
  unfolding write_results
  write_results-Wrote [] s = returns (nothing refl refl refl)
  write_results-Wrote (v ∷ vs) s =
      Returns.bind (write_result-Wrote v s)
        λ out t e w. Returns.weaken (write_results-Wrote vs t) λ out' u w'. then_more w w'
