-- ===== src/Int31/Value.antt =====
-- The number that 31-bit words stand for.
use bearssl.Common.{ℕ, zero, suc, ◌+◌, ◌*◌, ◌^◌, ◌<◌, ◌≡◌, arith, List, [], ◌∷◌, ◌++◌, length, All}

-- A word is below 2 ^ 31.
abbrev pub IsWord : ℕ → Type 0
IsWord w = w < 2 ^ 31

abbrev pub value : List ℕ → ℕ
value [] = 0
value (w ∷ ws) = w + 2 ^ 31 * value ws

-- 2 ^ (31 n), word by word
abbrev pub radix : ℕ → ℕ
radix zero = 1
radix (suc n) = 2 ^ 31 * radix n

pub value-lt : (ws : List ℕ) → All IsWord ws → value ws < radix (length ws)
value-lt [] h = omega arith
value-lt (w ∷ ws) h = omega (arith, value-lt ws h.1)

pub value-append : (xs ys : List ℕ) → value (xs ++ ys) ≡ value xs + radix (length xs) * value ys
value-append [] ys = omega arith
value-append (x ∷ xs) ys = omega (arith, value-append xs ys)
