-- ===== src/Ram.antt =====
-- The main memory of the COMET II computer, comet2/comet2_cpu/comet2_memory.v: four blocks of the
-- FPGA's own RAM, and the registers behind them. The primitive SB_SPRAM256KA is the vendor's, so a
-- block is a parameter.
pub mod Blocks
pub mod Contents
pub mod Reads
use ice40_ultraplus_examples.Base.{
  ℕ, ◌/◌, ◌%◌, Bool, false, List, [], ◌∷◌, ◌&&◌, not, ◌==◌, if◌then◌else◌,
}

-- SB_SPRAM256KA as it is wired here: selected, powered, and all of a word written. `clock` is an
-- edge of CLOCK at ADDRESS, DATAIN and WREN; `dataout` is DATAOUT.
pub record Spram (M : Type 0) : Type 0 where
  pub clock : (address datain : ℕ) (wren : Bool) → M → M
  pub dataout : M → ℕ

-- The inputs of the module at an edge.
pub record RamInputs : Type 0 where
  pub reset : Bool
  pub rd_req : Bool
  pub rd_addr : ℕ
  pub wr_req : Bool
  pub wr_addr : ℕ
  pub wr_data : ℕ

pub record Comet2Memory (M : Type 0) : Type 0 where
  pub spram0 : M
  pub spram1 : M
  pub spram2 : M
  pub spram3 : M
  pub buf_rd_req : Bool
  pub buf_bank : ℕ
  pub buf_rd_addr : ℕ
  pub rd_data : ℕ
  pub data_valid : Bool

-- Bits 15 and 14 of an address, bits 13 and 12, and the bits from 13 on down.
abbrev pub bank_bits : ℕ → ℕ
bank_bits a = a / 16384 % 4

abbrev pub upper_bits : ℕ → ℕ
upper_bits a = a / 4096 % 4

abbrev pub block_addr : ℕ → ℕ
block_addr a = a % 16384

-- `ram_wren_0` to `ram_wren_2` are `ram_wren` of the block's number.
unfoldable pub ram_wren : ℕ → RamInputs → Bool
ram_wren n p = p.wr_req && (bank_bits p.wr_addr == n)

unfoldable pub ram_wren_3 : RamInputs → Bool
ram_wren_3 p = p.wr_req && (bank_bits p.wr_addr == 3) && not (upper_bits p.wr_addr == 3)

-- The address of a block: that of the write where the block is written.
unfoldable pub ram_addr : (wren : Bool) → RamInputs → ℕ
ram_addr wren p = if wren then block_addr p.wr_addr else block_addr p.rd_addr

module _ {M : Type 0} (spram : Spram M) where
  open spram use {clock, dataout}

  -- An edge of one block.
  unfoldable pub clock_block : (wren : Bool) → RamInputs → M → M
  clock_block wren p m = clock (ram_addr wren p) p.wr_data wren m

  -- What a read puts into `rd_data`.
  unfoldable pub bank_out : Comet2Memory M → ℕ
  bank_out m =
      if m.buf_bank == 0
      then dataout m.spram0
      else if m.buf_bank == 1
      then dataout m.spram1
      else if m.buf_bank == 2
      then dataout m.spram2
      else if not (upper_bits m.buf_rd_addr == 3)
      then dataout m.spram3
      else 0

  -- What an edge writes into the registers.
  unfoldable pub clock_registers : RamInputs → Comet2Memory M → Comet2Memory M
  clock_registers p m =
      if p.reset
      then record m { buf_rd_req = false; buf_rd_addr = 0; data_valid = false }
      else record m {
        buf_rd_req = p.rd_req;
        buf_bank = bank_bits p.rd_addr;
        buf_rd_addr = p.rd_addr;
        rd_data = if m.buf_rd_req then bank_out m else m.rd_data;
        data_valid = m.buf_rd_req;
      }

  -- An edge of `clk`: the registers take what the blocks showed before it.
  unfoldable pub memory_posedge : RamInputs → Comet2Memory M → Comet2Memory M
  memory_posedge p m = record (clock_registers p m) {
    spram0 = clock_block (ram_wren 0 p) p m.spram0;
    spram1 = clock_block (ram_wren 1 p) p m.spram1;
    spram2 = clock_block (ram_wren 2 p) p m.spram2;
    spram3 = clock_block (ram_wren_3 p) p m.spram3;
  }

  -- Edges one behind the other.
  unfoldable pub memory_cycles : List RamInputs → Comet2Memory M → Comet2Memory M
  memory_cycles [] m = m
  memory_cycles (p ∷ ps) m = memory_cycles ps (memory_posedge p m)
