-- ===== src/Riscv/Matrices.antt =====
-- The matrix command as a protocol: eight elements in, four results out.
use ice40_ultraplus_examples.Base.{
  false, take, ap, map, ℕ, ◌+◌, ◌*◌, ◌%◌, ◌^◌, ◌<◌, ◌≡◌, refl, sym, subst, append-nil, ◌∙◌, List,
  [], ◌∷◌, ◌++◌, arith, length,
}
use ice40_ultraplus_examples.Cmd.Returns
use ice40_ultraplus_examples.Cmd.Returns.{Returns}
use ice40_ultraplus_examples.Riscv.{Registers, main_rounds, Locals, matrix_total_size, take_element}
use ice40_ultraplus_examples.Riscv.Arithmetic.{matrix_mult-product}
use ice40_ultraplus_examples.Riscv.Board.{Board, products, settle, service, services, signed_value}
use ice40_ultraplus_examples.Riscv.Rounds.{main_rounds-services}

-- Between two commands the counter is below eight, and the arrays have four elements: no access of
-- an array is out of bounds.
pub record IsReady (l : Locals) : Type 0 where
  pub counter : l.mat_counter < matrix_total_size * 2
  pub size0 : length l.mat0 ≡ matrix_total_size
  pub size1 : length l.mat1 ≡ matrix_total_size
  pub size_result : length l.mat_result ≡ matrix_total_size

four : (xs : List ℕ) → length xs ≡ 4 → (a b c d : ℕ) × (xs ≡ a ∷ b ∷ c ∷ d ∷ [])
four [] h = absurd (omega arith)
four (a ∷ []) h = absurd (omega arith)
four (a ∷ b ∷ []) h = absurd (omega arith)
four (a ∷ b ∷ c ∷ []) h = absurd (omega arith)
four (a ∷ b ∷ c ∷ d ∷ []) h = (a, b, c, d, refl)
four (a ∷ b ∷ c ∷ d ∷ x ∷ xs) h = absurd (omega arith)

-- The services of matrix commands in a row, with all results.
unfoldable matrix_commands : Locals → List ℕ → Locals × List ℕ
matrix_commands l [] = (l, [])
matrix_commands l (value ∷ values) =
    let (l', rs, cs) = service l 0x8 value in
    let (l'', more) = matrix_commands l' values in (l'', rs ++ more)

-- What eight elements give.
abbrev Multiplies : (a b c d e f g h : ℕ) → Locals → Type 0
Multiplies a b c d e f g h l =
    ((matrix_commands l (a ∷ b ∷ c ∷ d ∷ e ∷ f ∷ g ∷ h ∷ [])).1
      ≡ (a * e + b * g) % 2 ^ 32
        ∷ (a * f + b * h) % 2 ^ 32
        ∷ (c * e + d * g) % 2 ^ 32
        ∷ (c * f + d * h) % 2 ^ 32
        ∷ [])
    × ((matrix_commands l (a ∷ b ∷ c ∷ d ∷ e ∷ f ∷ g ∷ [])).1 ≡ [])
    × ((matrix_commands l (a ∷ b ∷ c ∷ d ∷ e ∷ f ∷ g ∷ h ∷ [])).0.mat_counter ≡ 0)

known-Multiplies :
    (a b c d e f g h p0 p1 p2 p3 q0 q1 q2 q3 r0 r1 r2 r3 : ℕ)
    → Multiplies a b c d e f g h (record {
      mat_counter = 0;
      mat0 = p0 ∷ p1 ∷ p2 ∷ p3 ∷ [];
      mat1 = q0 ∷ q1 ∷ q2 ∷ q3 ∷ [];
      mat_result = r0 ∷ r1 ∷ r2 ∷ r3 ∷ [];
    })
unfolding matrix_commands service settle products take_element
known-Multiplies a b c d e f g h p0 p1 p2 p3 q0 q1 q2 q3 r0 r1 r2 r3 =
    (append-nil _ ∙ matrix_mult-product a b c d e f g h r0 r1 r2 r3, refl, refl)

matrix_commands-product :
    (a b c d e f g h : ℕ) (l : Locals)
    → IsReady l
    → l.mat_counter ≡ 0
    → let (l', results) = matrix_commands l (a ∷ b ∷ c ∷ d ∷ e ∷ f ∷ g ∷ h ∷ []) in
      (results
        ≡ (a * e + b * g) % 2 ^ 32
          ∷ (a * f + b * h) % 2 ^ 32
          ∷ (c * e + d * g) % 2 ^ 32
          ∷ (c * f + d * h) % 2 ^ 32
          ∷ [])
      × ((matrix_commands l (a ∷ b ∷ c ∷ d ∷ e ∷ f ∷ g ∷ [])).1 ≡ [])
      × (l'.mat_counter ≡ 0)
matrix_commands-product a b c d e f g h l v z =
    let (p0, p1, p2, p3, p) = four l.mat0 v.size0 in
    let (q0, q1, q2, q3, q) = four l.mat1 v.size1 in
    let (r0, r1, r2, r3, r) = four l.mat_result v.size_result in
    let known : l ≡ record {
      mat_counter = 0;
      mat0 = p0 ∷ p1 ∷ p2 ∷ p3 ∷ [];
      mat1 = q0 ∷ q1 ∷ q2 ∷ q3 ∷ [];
      mat_result = r0 ∷ r1 ∷ r2 ∷ r3 ∷ [];
    } =
      (λ i. record { mat_counter = z i; mat0 = p i; mat1 = q i; mat_result = r i }) in
    subst (Multiplies a b c d e f g h) (sym known)
      (known-Multiplies a b c d e f g h p0 p1 p2 p3 q0 q1 q2 q3 r0 r1 r2 r3)

-- A matrix command on the bus, and the value that it brings.
abbrev pub matrix_word : ℕ → ℕ
matrix_word v = v * 256 + 0x8

abbrev pub element : ℕ → ℕ
element v = signed_value (matrix_word v)

services-matrix :
    (l : Locals) (vs : List ℕ)
    → let run = matrix_commands l (map element vs) in
      services l (map matrix_word vs) ≡ (run.0, run.1, [])
unfolding services matrix_commands service
services-matrix l [] = refl
services-matrix l (v ∷ vs) =
    let operation : matrix_word v % 256 ≡ 0x8 = omega arith in
    rw (operation, services-matrix (service l 0x8 (element v)).0 vs) refl

-- Eight matrix commands with the elements of two matrices, row by row, wait in front of others, on a
-- board that shows a command as long as one is to come, and the counter is 0. Eight rounds of the
-- main loop return, take these commands, write the four entries of the product modulo 2 ^ 32 behind
-- what was written, light nothing, and leave the counter at 0. Seven rounds return and write nothing.
pub main_rounds-product :
    {S : Type 0} {regs : Registers S} {rounds : ℕ} (board : Board regs rounds)
    → ((s : S) → board.waiting s ≡ false → board.commands s ≡ [])
    → (a b c d e f g h : ℕ) (more : List ℕ) (l : Locals) (s : S) → IsReady l
    → l.mat_counter ≡ 0
    → board.commands s ≡ map matrix_word (a ∷ b ∷ c ∷ d ∷ e ∷ f ∷ g ∷ h ∷ []) ++ more
    → Returns
        (λ out t.
          (board.written t
            ≡ board.written s
              ++ (element a * element e + element b * element g) % 2 ^ 32
                ∷ (element a * element f + element b * element h) % 2 ^ 32
                ∷ (element c * element e + element d * element g) % 2 ^ 32
                ∷ (element c * element f + element d * element h) % 2 ^ 32
                ∷ [])
          × (board.lit t ≡ board.lit s)
          × (board.commands t ≡ more)
          × (out.mat_counter ≡ 0))
        (main_rounds regs rounds 8 l s)
      × Returns (λ out t. board.written t ≡ board.written s) (main_rounds regs rounds 7 l s)
main_rounds-product board shows a b c d e f g h more l s v z there =
    let vs = a ∷ b ∷ c ∷ d ∷ e ∷ f ∷ g ∷ h ∷ [] in
    let (results, none_yet, counter) =
      matrix_commands-product (element a) (element b) (element c) (element d) (element e)
        (element f) (element g) (element h) l v z in
    (
      Returns.weaken (main_rounds-services board shows 8 l s) λ out t answered.
          let (e8, w8, c8, k8) = rw (there, services-matrix l vs) at answered in
          (
            w8 ∙ ap (λ r. board.written s ++ r) results,
            c8 ∙ append-nil _,
            k8,
            ap (λ (m : Locals). m.mat_counter) e8 ∙ counter,
          ),
      Returns.weaken (main_rounds-services board shows 7 l s) λ out t answered.
          let (e7, w7, c7, k7) = rw (there, services-matrix l (take 7 vs)) at answered in
          w7 ∙ ap (λ r. board.written s ++ r) none_yet ∙ append-nil _,
    )
