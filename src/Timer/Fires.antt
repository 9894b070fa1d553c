-- ===== src/Timer/Fires.antt =====
-- When a timer that nobody writes to fires.
use native.Mathlib.Nat.{mod-eq_of_lt, add-mod_right}
use ice40_ultraplus_examples.Base.{
  length, ℕ, suc, ◌+◌, ◌%◌, ◌^◌, ◌<◌, ◌≤◌, ◌≡◌, refl, sym, ap, ◌∙◌, Bool, true, false, List, [],
  ◌∷◌, leb, ltb, ◌||◌, if◌then◌else◌, arith, min, Bool-cases, inl, inr,
}
use ice40_ultraplus_examples.Timer.{TimerInputs, Timer, count_edge, timer_read, timer_posedge}

-- Neither a reset nor a write.
pub record IsQuiet (p : TimerInputs) : Type 0 where
  pub reset_off : p.reset ≡ false
  pub unwritten : p.wr_req ≡ false

-- The registers that count.
pub record Counts (t : Timer) (c m : ℕ) (on per f : Bool) : Type 0 where
  pub counter : t.counter_reg ≡ c
  pub compare : t.compare_reg ≡ m
  pub enable : t.enable_reg ≡ on
  pub periodic : t.periodic_reg ≡ per
  pub fired : t.fired_reg ≡ f

-- One edge below the compare value, one at it, and one with the timer off.
timer_posedge-below :
    (p : TimerInputs) (t : Timer) (c m : ℕ) (per f : Bool)
    → IsQuiet p
    → m < 2 ^ 32
    → c < m
    → Counts t c m true per f
    → Counts (timer_posedge p t) (c + 1) m true per f
unfolding timer_posedge timer_read count_edge
timer_posedge-below p t c m per f q small below h = record {
  counter = ground arith;
  compare = ground arith;
  enable = ground arith;
  periodic = ground arith;
  fired = ground arith;
}

timer_posedge-at :
    (p : TimerInputs) (t : Timer) (m : ℕ) (per f : Bool)
    → IsQuiet p
    → Counts t m m true per f
    → Counts (timer_posedge p t) (if per then 0 else m) m per per true
unfolding timer_posedge timer_read count_edge
timer_posedge-at p t m per f q h = record {
  counter = ground arith;
  compare = ground arith;
  enable = ground arith;
  periodic = ground arith;
  fired = ground arith;
}

timer_posedge-off :
    (p : TimerInputs) (t : Timer) (c m : ℕ) (per f : Bool)
    → IsQuiet p
    → Counts t c m false per f
    → Counts (timer_posedge p t) c m false per f
unfolding timer_posedge timer_read
timer_posedge-off p t c m per f q h = record {
  counter = ground arith;
  compare = ground arith;
  enable = ground arith;
  periodic = ground arith;
  fired = ground arith;
}

Counts-moved :
    {t : Timer} {c c' m : ℕ} {on on' per f f' : Bool}
    → Counts t c m on per f
    → c ≡ c'
    → on ≡ on'
    → f ≡ f'
    → Counts t c' m on' per f'
Counts-moved h e on_same f_same = record {
  counter = h.counter ∙ e;
  compare = h.compare;
  enable = h.enable ∙ on_same;
  periodic = h.periodic;
  fired = h.fired ∙ f_same;
}

unfoldable pub timer_cycles : List TimerInputs → Timer → Timer
timer_cycles [] t = t
timer_cycles (p ∷ ps) t = timer_cycles ps (timer_posedge p t)

abbrev pub AllQuiet : List TimerInputs → Type 0
AllQuiet [] = Unit
AllQuiet (p ∷ ps) = IsQuiet p × AllQuiet ps

timer_cycles-off :
    (ps : List TimerInputs) (t : Timer) (c m : ℕ) (per f : Bool)
    → AllQuiet ps
    → Counts t c m false per f
    → Counts (timer_cycles ps t) c m false per f
unfolding timer_cycles
timer_cycles-off [] t c m per f q h = h
timer_cycles-off (p ∷ ps) t c m per f (q, qs) h =
    timer_cycles-off ps (timer_posedge p t) c m per f qs (timer_posedge-off p t c m per f q h)

timer_cycles-once :
    (ps : List TimerInputs) (t : Timer) (c m : ℕ) (f : Bool)
    → AllQuiet ps
    → m < 2 ^ 32
    → c ≤ m
    → Counts t c m true false f
    → let n = length ps in
      Counts (timer_cycles ps t) (min (c + n) m) m (leb (c + n) m) false (f || ltb m (c + n))
unfolding timer_cycles
timer_cycles-once [] t c m f q small le h =
    Counts-moved h (ground arith) (ground arith) (ground arith)
timer_cycles-once (p ∷ ps) t c m f (q, qs) small le h = elim (Bool-cases (ltb c m)) [
  | inl below ↦
      Counts-moved
        (timer_cycles-once ps (timer_posedge p t) (c + 1) m f qs small (ground arith)
          (timer_posedge-below p t c m false f q small (ground arith) h))
        (ground arith) (ground arith) (ground arith)
  | inr reached ↦
      Counts-moved
        (timer_cycles-off ps (timer_posedge p t) m m false true qs
          (timer_posedge-at p t m false f q (Counts-moved h (ground arith) refl refl)))
        (ground arith) (ground arith) (ground arith)
]

within : (c m : ℕ) → c ≤ m → c ≡ c % (m + 1)
within c m h = sym (mod-eq_of_lt (omega arith))

around : (c m n : ℕ) → c ≡ m → (0 + n) % (m + 1) ≡ (c + suc n) % (m + 1)
around c m n e =
    let zero_left : 0 + n ≡ n = omega arith in
    ap (λ k. k % (m + 1)) zero_left
    ∙ sym (add-mod_right n (m + 1))
    ∙ ap (λ k. k % (m + 1)) (omega (arith, e))

timer_cycles-again :
    (ps : List TimerInputs) (t : Timer) (c m : ℕ) (f : Bool)
    → AllQuiet ps
    → m < 2 ^ 32
    → c ≤ m
    → Counts t c m true true f
    → let n = length ps in
      Counts (timer_cycles ps t) ((c + n) % (m + 1)) m true true (f || ltb m (c + n))
unfolding timer_cycles
timer_cycles-again [] t c m f q small le h =
    Counts-moved h (omega arith ∙ within (c + 0) m (omega arith)) refl (ground arith)
timer_cycles-again (p ∷ ps) t c m f (q, qs) small le h = elim (Bool-cases (ltb c m)) [
  | inl below ↦
      Counts-moved
        (timer_cycles-again ps (timer_posedge p t) (c + 1) m f qs small (ground arith)
          (timer_posedge-below p t c m true f q small (ground arith) h))
        (ap (λ k. k % (m + 1)) (omega arith)) refl (ground arith)
  | inr reached ↦
      Counts-moved
        (timer_cycles-again ps (timer_posedge p t) 0 m true qs small (omega arith)
          (timer_posedge-at p t m true f q (Counts-moved h (ground arith) refl refl)))
        (around c m (length ps) (ground arith)) refl (ground arith)
]

-- A timer that is on, with its counter up to the compare value, over edges without a reset or a
-- write, whatever is read. It has fired as soon as there are more edges than the counter was below
-- the compare value, or had fired before. A periodic timer stays on and its counter goes around; any
-- other stops at the compare value and is off from the edge on at which it fires.
pub timer_cycles-fires :
    (ps : List TimerInputs) (t : Timer) (c m : ℕ) (per f : Bool)
    → AllQuiet ps
    → m < 2 ^ 32
    → c ≤ m
    → Counts t c m true per f
    → let n = length ps in
      Counts
        (timer_cycles ps t)
        (if per then (c + n) % (m + 1) else min (c + n) m)
        m
        (per || leb (c + n) m)
        per
        (f || ltb m (c + n))
timer_cycles-fires ps t c m true f q small le h = timer_cycles-again ps t c m f q small le h
timer_cycles-fires ps t c m false f q small le h = timer_cycles-once ps t c m f q small le h
