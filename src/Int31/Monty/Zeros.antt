-- ===== src/Int31/Monty/Zeros.antt =====
-- The number 0, as `br_i31_zero` leaves it.
use bearssl.Common.{ℕ, zero, suc, ◌≡◌, refl, arith, All, replicate}
use bearssl.Int31.Value.{IsWord, value}

pub zeros-IsWord : (n : ℕ) → All IsWord (replicate n 0)
zeros-IsWord zero = tt
zeros-IsWord (suc n) = (omega arith, zeros-IsWord n)

pub zeros-value : (n : ℕ) → value (replicate n 0) ≡ 0
zeros-value zero = refl
zeros-value (suc n) = omega (arith, zeros-value n)
