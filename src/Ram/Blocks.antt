-- ===== src/Ram/Blocks.antt =====
-- What the vendor's block promises, and the word of the memory at an address.
use ice40_ultraplus_examples.Base.{ℕ, ◌<◌, ◌≡◌, Bool, true, false, ◌&&◌, ◌==◌, if◌then◌else◌, arith}
use ice40_ultraplus_examples.Ram.{Spram, RamInputs, block_addr, ram_addr, clock_block}

-- A write changes the cell at its address and no other; a read changes none, and DATAOUT is the cell
-- behind it. What DATAOUT is behind a write, nothing is said of.
pub record SpramWorks {M : Type 0} (spram : Spram M) : Type 0 where
  pub cell : M → ℕ → ℕ
  pub written :
      (a d : ℕ) (m : M) (b : ℕ)
      → a < 16384
      → cell (spram.clock a d true m) b ≡ (if b == a then d else cell m b)
  pub kept : (a d : ℕ) (m : M) (b : ℕ) → a < 16384 → cell (spram.clock a d false m) b ≡ cell m b
  pub shown : (a d : ℕ) (m : M) → a < 16384 → spram.dataout (spram.clock a d false m) ≡ cell m a

module _ {M : Type 0} {spram : Spram M} (works : SpramWorks spram) where
  open works use {cell, written, kept, shown}

  -- An edge of one block, at a cell.
  pub clock_block-cell :
      (wren : Bool) (p : RamInputs) (m : M) (b : ℕ)
      → cell (clock_block spram wren p m) b
        ≡ (if wren && (b == block_addr p.wr_addr) then p.wr_data else cell m b)
  unfolding clock_block ram_addr
  clock_block-cell true p m b = written (block_addr p.wr_addr) p.wr_data m b (omega arith)
  clock_block-cell false p m b = kept (block_addr p.rd_addr) p.wr_data m b (omega arith)

  pub clock_block-dataout :
      (wren : Bool) (p : RamInputs) (m : M)
      → wren ≡ false
      → spram.dataout (clock_block spram wren p m) ≡ cell m (block_addr p.rd_addr)
  unfolding clock_block ram_addr
  clock_block-dataout wren p m off = rw off (shown (block_addr p.rd_addr) p.wr_data m (omega arith))
