-- ===== src/Timer.antt =====
-- The timer of the COMET II computer, comet2/timer_mm.v: one rising edge of the clock at a time.
pub mod Fires
use ice40_ultraplus_examples.Base.{
  ℕ, ◌+◌, ◌*◌, ◌/◌, ◌%◌, ◌^◌, Bool, true, false, leb, ◌==◌, if◌then◌else◌,
}

-- The inputs of the module at an edge.
pub record TimerInputs : Type 0 where
  pub reset : Bool
  pub rd_req : Bool
  pub rd_addr : ℕ
  pub wr_req : Bool
  pub wr_addr : ℕ
  pub wr_data : ℕ

pub record Timer : Type 0 where
  pub counter_reg : ℕ
  pub compare_reg : ℕ
  pub enable_reg : Bool
  pub periodic_reg : Bool
  pub fired_reg : Bool
  pub rd_data : ℕ
  pub data_valid : Bool

abbrev pub timer_reset : Timer
timer_reset = record {
  counter_reg = 0;
  compare_reg = 0;
  enable_reg = false;
  periodic_reg = false;
  fired_reg = false;
  rd_data = 0;
  data_valid = false;
}

abbrev bit_of : Bool → ℕ
bit_of b = if b then 1 else 0

abbrev has_bit_at : ℕ → ℕ → Bool
has_bit_at n k = n / 2 ^ k % 2 == 1

-- The upper half of one word and the lower half of the other.
abbrev halves : ℕ → ℕ → ℕ
halves upper lower = upper / 65536 % 65536 * 65536 + lower % 65536

-- What an edge makes of the counter of an enabled timer.
unfoldable pub count_edge : Timer → Timer
count_edge t =
    if leb t.compare_reg t.counter_reg
    then (if t.periodic_reg
        then record t { fired_reg = true; counter_reg = 0 }
        else record t { fired_reg = true; enable_reg = false })
    else record t { counter_reg = (t.counter_reg + 1) % 2 ^ 32 }

unfoldable pub timer_word : ℕ → Timer → ℕ
timer_word addr t =
    if addr == 0x0
    then bit_of t.fired_reg * 4 + bit_of t.periodic_reg * 2 + bit_of t.enable_reg
    else if addr == 0x4
    then t.counter_reg
    else if addr == 0x8
    then t.compare_reg
    else if addr == 0x14
    then bit_of t.periodic_reg * 2 + bit_of t.enable_reg
    else 0

-- A write over `next`, what the edge has made of `t` so far.
unfoldable pub timer_write : (addr data_word : ℕ) (t next : Timer) → Timer
timer_write addr data_word t next =
    if addr == 0x4
    then record next { counter_reg = data_word }
    else if addr == 0xC
    then record next { counter_reg = halves data_word t.counter_reg }
    else if addr == 0x8
    then record next { compare_reg = data_word }
    else if addr == 0x10
    then record next { compare_reg = halves data_word t.compare_reg }
    else if addr == 0x14
    then record next {
      enable_reg = has_bit_at data_word 0;
      periodic_reg = has_bit_at data_word 1;
      fired_reg = if has_bit_at data_word 2 then false else next.fired_reg;
      counter_reg = if has_bit_at data_word 3 then 0 else next.counter_reg;
    }
    else next

-- What an edge makes of the registers for the reader.
unfoldable pub timer_read : TimerInputs → (t next : Timer) → Timer
timer_read p t next = record next {
  rd_data = if p.rd_req then timer_word p.rd_addr t else t.rd_data;
  data_valid = p.rd_req;
}

unfoldable pub timer_posedge : TimerInputs → Timer → Timer
timer_posedge p t =
    if p.reset
    then timer_reset
    else let next = timer_read p t (if t.enable_reg then count_edge t else t) in
      if p.wr_req then timer_write p.wr_addr p.wr_data t next else next
