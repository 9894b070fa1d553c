-- ===== src/Bench/Runs.antt =====
-- Several ticks in a row, and the CPU as the machine of the instruction set.
use ice40_ultraplus_examples.Base.{
  ℕ, zero, suc, ◌+◌, ◌≤◌, ◌≡◌, refl, sym, subst, ap, ◌∙◌, Bool, true, false, arith, if◌then◌else◌,
}
use native.Mathlib.Nat.{zero-add, suc-add}
use ice40_ultraplus_examples.Comet.Codes.{st_fetch_req}
use ice40_ultraplus_examples.Comet.Registers.{Cpu}
use ice40_ultraplus_examples.Comet.Machine.{Machine}
use ice40_ultraplus_examples.Bench.{Memory, Vcomet2Cpu, Bench, note_read}
use ice40_ultraplus_examples.Bench.Ticks.{advance, written}

unfoldable pub advances : ℕ → Bench → Bench
advances zero b = b
advances (suc n) b = advances n (advance false b)

-- What the instruction set sees of registers and memory.
abbrev pub machine_of : Cpu → (ℕ → ℕ) → Machine
machine_of c word = record {
  gr = c.gr;
  pr = c.pr;
  sp = c.sp;
  fr_of = c.fr_of;
  sf = c.sf;
  zf = c.zf;
  faulted = c.error_instruction;
  word = word;
}

abbrev pub view : Bench → Machine
view b = machine_of b.tb.core b.mem.word

-- The CPU is about to fetch an instruction.
abbrev pub IsIdle : Bench → Type 0
IsIdle b = b.tb.core.state ≡ st_fetch_req

-- With at least `least` and at most `limit` ticks the CPU is about to fetch again, as the machine
-- `m`.
pub record Reaches (least limit : ℕ) (b : Bench) (m : Machine) : Type 0 where
  pub ticks : ℕ
  pub many : least ≤ ticks
  pub few : ticks ≤ limit
  pub idle : IsIdle (advances ticks b)
  pub same : view (advances ticks b) ≡ m

-- One tick earlier.
pub later :
    {least limit : ℕ} {b : Bench} {m : Machine}
    → Reaches least limit (advance false b) m
    → Reaches (suc least) (suc limit) b m
unfolding advances
later r = record {
  ticks = suc r.ticks;
  many = omega (arith, r.many);
  few = omega (arith, r.few);
  idle = r.idle;
  same = r.same;
}

-- The bench behind a tick that leaves the registers `c`.
abbrev pub settled : Vcomet2Cpu → Cpu → Memory → Bench
settled tb c mem =
    let tb' = record tb { core = c } in record { tb = tb'; mem = note_read tb' (written tb' mem) }

-- A test that the CPU and the machine make alike.
pub either :
    (tb : Vcomet2Cpu) (mem : Memory) {least limit : ℕ} (t : Bool) {c d : Cpu} {m n : Machine}
    → Reaches least limit (settled tb c mem) m
    → Reaches least limit (settled tb d mem) n
    → Reaches least limit (settled tb (if t then c else d) mem) (if t then m else n)
either tb mem true r s = r
either tb mem false r s = s

-- Wider bounds.
pub within :
    {least limit l k : ℕ} {b : Bench} {m : Machine}
    → l ≤ least
    → limit ≤ k
    → Reaches least limit b m
    → Reaches l k b m
within low high r = record {
  ticks = r.ticks;
  many = omega (arith, low, r.many);
  few = omega (arith, high, r.few);
  idle = r.idle;
  same = r.same;
}

pub advances-add : (m n : ℕ) (b : Bench) → advances (m + n) b ≡ advances n (advances m b)
unfolding advances
advances-add zero n b = rw zero-add refl
advances-add (suc m) n b = rw suc-add (advances-add m n (advance false b))

-- One run behind another.
pub and_on :
    {l l' k k' : ℕ} {b : Bench} {m n : Machine}
    → Reaches l l' b m
    → ((c : Bench) → IsIdle c → view c ≡ m → Reaches k k' c n)
    → Reaches (l + k) (l' + k') b n
and_on {b} r next =
    let s = next (advances r.ticks b) r.idle r.same in
    let e = advances-add r.ticks s.ticks b in
    record {
      ticks = r.ticks + s.ticks;
      many = omega (arith, r.many, s.many);
      few = omega (arith, r.few, s.few);
      idle = subst IsIdle (sym e) s.idle;
      same = ap view e ∙ s.same;
    }
