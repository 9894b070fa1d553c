-- ===== src/Tests/Timer.antt =====
-- The timer of the COMET II computer at a compare value of 2.
use ice40_ultraplus_examples.Base.{
  ◌+◌, ◌%◌, refl, true, false, [], ◌∷◌, leb, ltb, min, ◌||◌, if◌then◌else◌, arith,
}
use ice40_ultraplus_examples.Timer.{TimerInputs, Timer, timer_reset}
use ice40_ultraplus_examples.Timer.Fires.{IsQuiet, Counts, timer_cycles, timer_cycles-fires}

abbrev idle : TimerInputs
idle = record {
  reset = false;
  rd_req = true;
  rd_addr = 4;
  wr_req = false;
  wr_addr = 0;
  wr_data = 0;
}

abbrev ticking : Timer
ticking = record timer_reset { compare_reg = 2; enable_reg = true; periodic_reg = true }

quiet : IsQuiet idle
quiet = record { reset_off = refl; unwritten = refl }

ticking-Counts : Counts ticking 0 2 true true false
ticking-Counts = record {
  counter = refl;
  compare = refl;
  enable = refl;
  periodic = refl;
  fired = refl;
}

timer_cycles-fires_example :
    Counts
      (timer_cycles (idle ∷ idle ∷ idle ∷ idle ∷ []) ticking)
      (if true then (0 + 4) % (2 + 1) else min (0 + 4) 2)
      2
      (true || leb (0 + 4) 2)
      true
      (false || ltb 2 (0 + 4))
timer_cycles-fires_example =
    timer_cycles-fires (idle ∷ idle ∷ idle ∷ idle ∷ []) ticking 0 2 true false
      (quiet, (quiet, (quiet, (quiet, tt)))) (omega arith) (omega arith) ticking-Counts
