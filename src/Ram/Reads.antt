-- ===== src/Ram/Reads.antt =====
-- What the memory shows of its words, against a memory that is one array.
use ice40_ultraplus_examples.Base.{
  Bool, not, ℕ, zero, suc, ◌<◌, ◌≡◌, refl, ap, ◌∙◌, true, false, ◌&&◌, List, [], ◌∷◌, ltb,
  if◌then◌else◌, arith,
}
use ice40_ultraplus_examples.Ram.{
  Spram, RamInputs, Comet2Memory, bank_bits, bank_out, clock_registers, memory_posedge,
  memory_cycles,
}
use ice40_ultraplus_examples.Ram.Blocks.{SpramWorks, clock_block-dataout}
use ice40_ultraplus_examples.Ram.Contents.{
  Has16Bits, writes, wren_at, block_at, block_at-posedge, word_at, memory_posedge-word_at,
}

-- The reference: one array of words.
unfoldable pub flat_write : RamInputs → (ℕ → ℕ) → ℕ → ℕ
flat_write p f a = if ltb a 61440 && writes p a then p.wr_data else f a

unfoldable pub flat_cycles : List RamInputs → (ℕ → ℕ) → ℕ → ℕ
flat_cycles [] f = f
flat_cycles (p ∷ ps) f = flat_cycles ps (flat_write p f)

abbrev pub AllHave16Bits : List RamInputs → Type 0
AllHave16Bits [] = Unit
AllHave16Bits (p ∷ ps) = Has16Bits p × AllHave16Bits ps

-- Two values of a conditional that differ in the first branch.
then-only :
    {A : Type 0} (b : Bool) {x y : A} (z : A)
    → (b ≡ true → x ≡ y)
    → (if b then x else z) ≡ (if b then y else z)
then-only true z same = same refl
then-only false z same = refl

reset_off : (p q : RamInputs) → ((p.rd_req && not p.reset) && not q.reset) ≡ true → p.reset ≡ false
reset_off p q asked = ground arith

module _ {M : Type 0} {spram : Spram M} (works : SpramWorks spram) where
  open works use {cell}

  bank_out-block_at :
      (n : ℕ) (m : Comet2Memory M)
      → m.buf_bank ≡ n
      → bank_bits m.buf_rd_addr ≡ n
      → m.buf_rd_addr < 65536
      → bank_out spram m ≡ (if ltb m.buf_rd_addr 61440 then spram.dataout (block_at n m) else 0)
  unfolding bank_out block_at
  bank_out-block_at zero m e k h = ground arith
  bank_out-block_at (suc zero) m e k h = ground arith
  bank_out-block_at (suc (suc zero)) m e k h = ground arith
  bank_out-block_at (suc (suc (suc n))) m e k h = ground arith

  registers-asked :
      (p : RamInputs) (m : Comet2Memory M)
      → p.reset ≡ false
      → let m' = memory_posedge spram p m in
        (m'.buf_bank ≡ bank_bits p.rd_addr) × (m'.buf_rd_addr ≡ p.rd_addr)
  unfolding memory_posedge clock_registers
  registers-asked p m on = rw on (refl, refl)

  buf_rd_req-asked :
      (p : RamInputs) (m : Comet2Memory M)
      → (memory_posedge spram p m).buf_rd_req ≡ p.rd_req && not p.reset
  unfolding memory_posedge clock_registers
  buf_rd_req-asked p m = ground arith

  registers-shown :
      (p : RamInputs) (m : Comet2Memory M)
      → let m' = memory_posedge spram p m in
        let shows = m.buf_rd_req && not p.reset in
        (m'.data_valid ≡ shows) × (m'.rd_data ≡ (if shows then bank_out spram m else m.rd_data))
  unfolding memory_posedge clock_registers
  registers-shown p m = (ground arith, ground arith)

  -- The blocks show the word that was asked for, unless its block is written at the same edge.
  bank_out-word_at :
      (p : RamInputs) (m : Comet2Memory M)
      → p.reset ≡ false
      → p.rd_addr < 65536
      → wren_at (bank_bits p.rd_addr) p ≡ false
      → bank_out spram (memory_posedge spram p m) ≡ word_at works m p.rd_addr
  unfolding word_at
  bank_out-word_at p m on h free =
      let k = bank_bits p.rd_addr in
      let m' = memory_posedge spram p m in
      let (bank, addr) = registers-asked p m on in
      bank_out-block_at k m' bank (ap (λ a. bank_bits a) addr) (rw addr h)
      ∙ ap (λ a. if ltb a 61440 then spram.dataout (block_at k m') else 0) addr
      ∙ ap (λ v. if ltb p.rd_addr 61440 then v else 0)
          (ap spram.dataout (block_at-posedge works k p m)
            ∙ clock_block-dataout works (wren_at k p) p (block_at k m) free)

  -- What two edges show of the words before them.
  rd_data-word_at :
      (p q : RamInputs) (m : Comet2Memory M)
      → p.rd_addr < 65536
      → wren_at (bank_bits p.rd_addr) p ≡ false
      → let m' = memory_posedge spram p m in
        let asked = (p.rd_req && not p.reset) && not q.reset in
        ((memory_posedge spram q m').data_valid ≡ asked)
        × ((memory_posedge spram q m').rd_data
            ≡ (if asked then word_at works m p.rd_addr else m'.rd_data))
  rd_data-word_at p q m h free =
      let m' = memory_posedge spram p m in
      let (valid, shown) = registers-shown q m' in
      let req = ap (λ r. r && not q.reset) (buf_rd_req-asked p m) in
      (
        valid ∙ req,
        shown
            ∙ ap (λ b. if b then bank_out spram m' else m'.rd_data) req
            ∙ then-only _ _ λ asked. bank_out-word_at p m (reset_off p q asked) h free,
      )

  memory_cycles-word_at :
      (ps : List RamInputs) (m : Comet2Memory M)
      → AllHave16Bits ps
      → word_at works (memory_cycles spram ps m) ≡ flat_cycles ps (word_at works m)
  unfolding memory_cycles flat_cycles flat_write
  memory_cycles-word_at [] m tt = refl
  memory_cycles-word_at (p ∷ ps) m (here, rest) =
      memory_cycles-word_at ps (memory_posedge spram p m) rest
      ∙ ap (flat_cycles ps) λ i a. memory_posedge-word_at works p m a here i

  -- A memory whose blocks keep their promises, whatever they hold, and addresses of 16 bits. Behind
  -- any edges, two more, of which the first does not write the block of its read address:
  -- `data_valid` is on exactly if the first asked for a read and the reset was off at both, and
  -- `rd_data` is then what an array that took the writes holds there, which is 0 from 0xf000 on;
  -- else it is as it was between the two.
  pub reads-flat :
      (ps : List RamInputs) (p q : RamInputs) (m : Comet2Memory M)
      → AllHave16Bits ps
      → Has16Bits p
      → wren_at (bank_bits p.rd_addr) p ≡ false
      → let m' = memory_posedge spram p (memory_cycles spram ps m) in
        let asked = (p.rd_req && not p.reset) && not q.reset in
        ((memory_posedge spram q m').data_valid ≡ asked)
        × ((memory_posedge spram q m').rd_data
            ≡ (if asked then flat_cycles ps (word_at works m) p.rd_addr else m'.rd_data))
  reads-flat ps p q m small here free =
      rw (← memory_cycles-word_at ps m small)
        (rd_data-word_at p q (memory_cycles spram ps m) here.rd free)
