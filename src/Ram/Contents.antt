-- ===== src/Ram/Contents.antt =====
-- The words of the memory, and what an edge does to them.
use ice40_ultraplus_examples.Base.{
  ℕ, zero, suc, ◌<◌, ◌≡◌, refl, Bool, ◌&&◌, ltb, ltb→lt, ◌==◌, if◌then◌else◌, Bool-cases, inl, inr,
  arith,
}
use ice40_ultraplus_examples.Ram.{
  Spram, RamInputs, Comet2Memory, bank_bits, block_addr, ram_wren, ram_wren_3, clock_block,
  memory_posedge,
}
use ice40_ultraplus_examples.Ram.Blocks.{SpramWorks, clock_block-cell}

-- The block of a number, and whether an edge writes it.
unfoldable pub block_at : {M : Type 0} → ℕ → Comet2Memory M → M
block_at zero m = m.spram0
block_at (suc zero) m = m.spram1
block_at (suc (suc zero)) m = m.spram2
block_at (suc (suc (suc n))) m = m.spram3

unfoldable pub wren_at : ℕ → RamInputs → Bool
wren_at zero p = ram_wren 0 p
wren_at (suc zero) p = ram_wren 1 p
wren_at (suc (suc zero)) p = ram_wren 2 p
wren_at (suc (suc (suc n))) p = ram_wren_3 p

-- The address is in the memory and is the one that is written.
unfoldable pub writes : RamInputs → ℕ → Bool
writes p a = p.wr_req && (a == p.wr_addr)

-- The addresses of an edge have 16 bits.
pub record Has16Bits (p : RamInputs) : Type 0 where
  pub rd : p.rd_addr < 65536
  pub wr : p.wr_addr < 65536

wren_at-bank :
    (n : ℕ) (p : RamInputs) (a : ℕ)
    → bank_bits a ≡ n
    → a < 61440
    → p.wr_addr < 65536
    → (wren_at n p && (block_addr a == block_addr p.wr_addr)) ≡ writes p a
unfolding wren_at ram_wren ram_wren_3 writes
wren_at-bank zero p a k h w = ground arith
wren_at-bank (suc zero) p a k h w = ground arith
wren_at-bank (suc (suc zero)) p a k h w = ground arith
wren_at-bank (suc (suc (suc n))) p a k h w = ground arith

module _ {M : Type 0} {spram : Spram M} (works : SpramWorks spram) where
  open works use {cell}

  pub block_at-posedge :
      (n : ℕ) (p : RamInputs) (m : Comet2Memory M)
      → block_at n (memory_posedge spram p m) ≡ clock_block spram (wren_at n p) p (block_at n m)
  unfolding block_at wren_at memory_posedge
  block_at-posedge zero p m = refl
  block_at-posedge (suc zero) p m = refl
  block_at-posedge (suc (suc zero)) p m = refl
  block_at-posedge (suc (suc (suc n))) p m = refl

  -- The word at an address: 0 where no block is behind it.
  unfoldable pub word_at : Comet2Memory M → ℕ → ℕ
  word_at m a = if ltb a 61440 then cell (block_at (bank_bits a) m) (block_addr a) else 0

  pub memory_posedge-word_at :
      (p : RamInputs) (m : Comet2Memory M) (a : ℕ)
      → Has16Bits p
      → word_at (memory_posedge spram p m) a
        ≡ (if ltb a 61440 && writes p a then p.wr_data else word_at m a)
  unfolding word_at
  memory_posedge-word_at p m a small = elim (Bool-cases (ltb a 61440)) [
    | inl inside ↦
        rw
          (
            inside,
            block_at-posedge (bank_bits a) p m,
            clock_block-cell works (wren_at (bank_bits a) p) p (block_at (bank_bits a) m)
                (block_addr a),
            wren_at-bank (bank_bits a) p a refl (ltb→lt a 61440 inside) small.wr,
          )
          refl
    | inr outside ↦ rw outside refl
  ]
