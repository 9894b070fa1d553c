-- ===== src/Tests/Ram.antt =====
-- The main memory of the COMET II computer with blocks that are arrays.
use ice40_ultraplus_examples.Base.{
  ℕ, not, ◌&&◌, ◌≡◌, refl, true, false, [], ◌∷◌, ◌==◌, if◌then◌else◌, arith,
}
use ice40_ultraplus_examples.Ram.{
  Spram, RamInputs, Comet2Memory, bank_bits, memory_posedge, memory_cycles, ram_wren,
}
use ice40_ultraplus_examples.Ram.Blocks.{SpramWorks}
use ice40_ultraplus_examples.Ram.Contents.{Has16Bits, wren_at, word_at}
use ice40_ultraplus_examples.Ram.Reads.{flat_cycles, reads-flat}

-- An array and what it shows.
record Block : Type 0 where
  word : ℕ → ℕ
  shows : ℕ

abbrev array : Spram Block
array = record {
  clock = λ a d wren m.
      if wren
      then record { word = λ b. if b == a then d else m.word b; shows = m.shows }
      else record m { shows = m.word a };
  dataout = λ m. m.shows;
}

abbrev array-Works : SpramWorks array
array-Works = record {
  cell = λ m. m.word;
  written = λ a d m b small. refl;
  kept = λ a d m b small. refl;
  shown = λ a d m small. refl;
}

abbrev empty : Block
empty = record { word = λ a. 0; shows = 0 }

abbrev memory : Comet2Memory Block
memory = record {
  spram0 = empty;
  spram1 = empty;
  spram2 = empty;
  spram3 = empty;
  buf_rd_req = false;
  buf_bank = 0;
  buf_rd_addr = 0;
  rd_data = 0;
  data_valid = false;
}

abbrev idle : RamInputs
idle = record {
  reset = false;
  rd_req = false;
  rd_addr = 0;
  wr_req = false;
  wr_addr = 0;
  wr_data = 0;
}

-- 7 to an address of the second block.
abbrev store : RamInputs
store = record idle { wr_req = true; wr_addr = 0x4001; wr_data = 7 }

-- The read of it, at an edge that writes the first block.
abbrev ask : RamInputs
ask = record idle { rd_req = true; rd_addr = 0x4001; wr_req = true; wr_addr = 1; wr_data = 9 }

free : wren_at (bank_bits ask.rd_addr) ask ≡ false
unfolding wren_at ram_wren
free = refl

store-Has16Bits : Has16Bits store
store-Has16Bits = record { rd = omega arith; wr = omega arith }

ask-Has16Bits : Has16Bits ask
ask-Has16Bits = record { rd = omega arith; wr = omega arith }

reads-flat_example :
    let m' = memory_posedge array ask (memory_cycles array (store ∷ []) memory) in
    ((memory_posedge array idle m').data_valid ≡ (true && not false) && not false)
    × ((memory_posedge array idle m').rd_data ≡ (
        if (true && not false) && not false
        then flat_cycles (store ∷ []) (word_at array-Works memory) 0x4001
        else m'.rd_data))
reads-flat_example =
    reads-flat array-Works (store ∷ []) ask idle memory (store-Has16Bits, tt) ask-Has16Bits free
