-- ===== src/Riscv/Gradient.antt =====
-- The colours of `gradient`, each by its position in the run.
use ice40_ultraplus_examples.Base.{
  ℕ, zero, suc, ◌+◌, ◌*◌, ◌/◌, ◌%◌, ◌<◌, ◌≤◌, ◌≡◌, refl, sym, ap, ap₂, ◌∙◌, List, [], ◌∷◌, ◌++◌,
  map, ltb, if◌then◌else◌, arith,
}
use ice40_ultraplus_examples.Riscv.{ticks, ramps, colours}

unfoldable pub range : (start n : ℕ) → List ℕ
range start zero = []
range start (suc n) = start ∷ range (start + 1) n

-- The colour at position `p`: each of the colours 1 to 7 has 256 steps of 256 ticks, and is on in as
-- many ticks as there were steps before.
abbrev pub shade : ℕ → ℕ
shade p = if ltb (p % 256) (p / 256 % 256) then p / 65536 + 1 else 0

unfoldable pub shades : (start n : ℕ) → List ℕ
shades start n = map shade (range start n)

abbrev pub soft_colours : List ℕ
soft_colours = shades 0 (7 * 65536)

shades-same : {a b m n : ℕ} → a ≡ b → m ≡ n → shades a m ≡ shades b n
shades-same e f = ap₂ (λ a m. shades a m) e f

shades-suc : (start n : ℕ) → shades start (suc n) ≡ shade start ∷ shades (start + 1) n
unfolding shades range
shades-suc start n = refl

shades-zero : (start : ℕ) → shades start 0 ≡ []
unfolding shades range
shades-zero start = refl

shades-add : (start m n : ℕ) → shades start (m + n) ≡ shades start m ++ shades (start + m) n
shades-add start zero n =
    shades-same {a = start} (omega arith) (omega arith)
    ∙ ap (λ l. l ++ shades (start + 0) n) (sym (shades-zero start))
shades-add start (suc m) n =
    shades-same {a = start} refl (omega arith)
    ∙ shades-suc start (m + n)
    ∙ ap (λ l. shade start ∷ l)
        (shades-add (start + 1) m n
          ∙ ap (λ l. shades (start + 1) m ++ l) (shades-same {m = n} (omega arith) refl))
    ∙ ap (λ l. l ++ shades (start + suc m) n) (sym (shades-suc start m))

-- The colour at tick `j` of step `i` of a colour.
shade-at :
    (c i j : ℕ)
    → i < 256
    → j < 256
    → shade (c * 65536 + i * 256 + j) ≡ (if ltb j i then c + 1 else 0)
shade-at c i j hi hj =
    let tick : (c * 65536 + i * 256 + j) % 256 ≡ j = omega arith in
    let step : (c * 65536 + i * 256 + j) / 256 % 256 ≡ i = omega arith in
    let colour : (c * 65536 + i * 256 + j) / 65536 ≡ c = omega arith in rw (tick, step, colour) refl

ticks-shades :
    (c i left j : ℕ)
    → i < 256
    → j + left ≤ 256
    → ticks (c + 1) i left j ≡ shades (c * 65536 + i * 256 + j) left
unfolding ticks
ticks-shades c i zero j hi h = sym (shades-zero (c * 65536 + i * 256 + j))
ticks-shades c i (suc left) j hi h =
    ap₂ ◌∷◌ (sym (shade-at c i j hi (omega arith)))
      (ticks-shades c i left (j + 1) hi (omega arith) ∙ shades-same {m = left} (omega arith) refl)
    ∙ sym (shades-suc (c * 65536 + i * 256 + j) left)

ramps-shades :
    (c left i : ℕ)
    → i + left ≤ 256
    → ramps (c + 1) left i ≡ shades (c * 65536 + i * 256) (left * 256)
unfolding ramps
ramps-shades c zero i h = sym (shades-zero (c * 65536 + i * 256))
ramps-shades c (suc left) i h =
    ap₂ ◌++◌
      (ticks-shades c i 256 0 (omega arith) (omega arith)
        ∙ shades-same {b = c * 65536 + i * 256} {m = 256} (omega arith) refl)
      (ramps-shades c left (i + 1) (omega arith)
        ∙ shades-same {b = c * 65536 + i * 256 + 256} {m = left * 256} (omega arith) refl)
    ∙ sym (shades-add (c * 65536 + i * 256) 256 (left * 256))
    ∙ shades-same {a = c * 65536 + i * 256} refl (omega arith)

colours-shades : (left c : ℕ) → colours left (c + 1) ≡ shades (c * 65536) (left * 65536)
unfolding colours
colours-shades zero c = sym (shades-zero (c * 65536))
colours-shades (suc left) c =
    ap₂ ◌++◌
      (ramps-shades c 256 0 (omega arith)
        ∙ shades-same {b = c * 65536} {n = 65536} (omega arith) (omega arith))
      (colours-shades left (c + 1)
        ∙ shades-same {b = c * 65536 + 65536} {m = left * 65536} (omega arith) refl)
    ∙ sym (shades-add (c * 65536) 65536 (left * 65536))
    ∙ shades-same {a = c * 65536} refl (omega arith)

pub colours-soft_colours : colours 7 1 ≡ soft_colours
colours-soft_colours = colours-shades 7 0
