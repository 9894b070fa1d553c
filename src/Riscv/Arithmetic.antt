-- ===== src/Riscv/Arithmetic.antt =====
-- `fib` and `matrix_mult` compute what their names say, modulo 2 ^ 32.
use ice40_ultraplus_examples.Base.{ℕ, zero, suc, ◌+◌, ◌*◌, ◌%◌, ◌^◌, ◌≡◌, refl, [], ◌∷◌, arith}
use ice40_ultraplus_examples.Riscv.{fib, matrix_mult}

-- The Fibonacci numbers.
unfoldable pub fibonacci : ℕ → ℕ
fibonacci zero = 0
fibonacci (suc zero) = 1
fibonacci (suc (suc n)) = fibonacci n + fibonacci (suc n)

-- `fib` is the Fibonacci number modulo 2 ^ 32, at every argument.
pub fib-fibonacci : (n : ℕ) → fib n ≡ fibonacci n % 2 ^ 32
unfolding fib fibonacci
fib-fibonacci zero = refl
fib-fibonacci (suc zero) = refl
fib-fibonacci (suc (suc zero)) = refl
fib-fibonacci (suc (suc (suc n))) =
    omega (arith, fib-fibonacci (suc n), fib-fibonacci (suc (suc n)))

-- `matrix_mult` is the product of two by two matrices, entry by entry modulo 2 ^ 32, whatever the
-- result array held.
pub matrix_mult-product :
    (a b c d e f g h w x y z : ℕ)
    → matrix_mult (a ∷ b ∷ c ∷ d ∷ []) (e ∷ f ∷ g ∷ h ∷ []) (w ∷ x ∷ y ∷ z ∷ [])
      ≡ (a * e + b * g) % 2 ^ 32
        ∷ (a * f + b * h) % 2 ^ 32
        ∷ (c * e + d * g) % 2 ^ 32
        ∷ (c * f + d * h) % 2 ^ 32
        ∷ []
unfolding matrix_mult
matrix_mult-product a b c d e f g h w x y z = ground arith
