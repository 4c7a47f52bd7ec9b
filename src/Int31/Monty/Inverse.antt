-- ===== src/Int31/Monty/Inverse.antt =====
-- `br_i31_ninv31` computes an inverse by Newton's iteration.
use bearssl.Common.{
  ℕ, ◌+◌, ◌*◌, ◌/◌, ◌%◌, ◌^◌, ◌<◌, ◌≡◌, ap, ◌∙◌, arith, u32, sub32, neg32, bit_and, ltb, Bool-cases,
  inl, inr,
}
use bearssl.Common.BitLaws.{bit_and_mask}
use bearssl.Ct.{mux}
use bearssl.Ct.Select.{mux_lem}
use bearssl.Int31.Monty.{newton, ninv31}

same_rest : (u k v j : ℕ) → u + 2 ^ 32 * k ≡ v + 2 ^ 32 * j → u32 u ≡ u32 v
same_rest u k v j e = omega (arith, e)

-- A factor may be wrapped before the product is.
wraps : (a x b s : ℕ) → a * x ≡ b * s → u32 (u32 a * x) ≡ u32 (u32 b * s)
wraps a x b s e =
    let left : a * x ≡ (2 ^ 32 * (a / 2 ^ 32) + u32 a) * x =
      ap (λ (t : ℕ). t * x) {x = a} {y = 2 ^ 32 * (a / 2 ^ 32) + u32 a} (omega arith) in
    let right : b * s ≡ (2 ^ 32 * (b / 2 ^ 32) + u32 b) * s =
      ap (λ (t : ℕ). t * s) {x = b} {y = 2 ^ 32 * (b / 2 ^ 32) + u32 b} (omega arith) in
    same_rest (u32 a * x) (a / 2 ^ 32 * x) (u32 b * s) (b / 2 ^ 32 * s)
      (omega (arith, left, right, e))

-- The product after a line, in terms of the one before.
newton_product : (x y : ℕ) → let p = u32 (y * x) in u32 (newton x y * x) ≡ u32 (p * sub32 2 p)
unfolding newton
newton_product x y = let s = sub32 2 (u32 (y * x)) in wraps (y * s) x (y * x) s (omega arith)

-- `p (2 - p)` for a `p` that is 1 more than a multiple of `k`.
square_step :
    (k p t : ℕ)
    → p ≡ 1 + k * t
    → p < 2 ^ 32
    → (j : ℕ) × (p * sub32 2 p + k * k * (t * t) ≡ 1 + 2 ^ 32 * j)
square_step k p t e h =
    let square : p * p ≡ (1 + k * t) * (1 + k * t) = ap (λ (n : ℕ). n * n) e in
    elim (Bool-cases (ltb 2 p)) [
      | inl big ↦
          let sum : p * (sub32 2 p + p) ≡ p * (2 + 2 ^ 32) =
            ap (λ (n : ℕ). p * n) {x = sub32 2 p + p} {y = 2 + 2 ^ 32} (ground (arith, big, h)) in
          (p, omega (arith, square, sum, e))
      | inr small ↦
          let sum : p * (sub32 2 p + p) ≡ p * 2 =
            ap (λ (n : ℕ). p * n) {x = sub32 2 p + p} {y = 2} (ground (arith, small, h)) in
          (0, omega (arith, square, sum, e))
    ]

-- Each line doubles the number of right bits.
line1 : (x y : ℕ) → u32 (y * x) % 2 ^ 2 ≡ 1 → u32 (newton x y * x) % 2 ^ 4 ≡ 1
line1 x y h =
    let p = u32 (y * x) in
    let (j, e) = square_step (2 ^ 2) p (p / 2 ^ 2) (omega arith) (omega arith) in
    omega (arith, newton_product x y, e)

line2 : (x y : ℕ) → u32 (y * x) % 2 ^ 4 ≡ 1 → u32 (newton x y * x) % 2 ^ 8 ≡ 1
line2 x y h =
    let p = u32 (y * x) in
    let (j, e) = square_step (2 ^ 4) p (p / 2 ^ 4) (omega arith) (omega arith) in
    omega (arith, newton_product x y, e)

line3 : (x y : ℕ) → u32 (y * x) % 2 ^ 8 ≡ 1 → u32 (newton x y * x) % 2 ^ 16 ≡ 1
line3 x y h =
    let p = u32 (y * x) in
    let (j, e) = square_step (2 ^ 8) p (p / 2 ^ 8) (omega arith) (omega arith) in
    omega (arith, newton_product x y, e)

line4 : (x y : ℕ) → u32 (y * x) % 2 ^ 16 ≡ 1 → u32 (newton x y * x) % 2 ^ 32 ≡ 1
line4 x y h =
    let p = u32 (y * x) in
    let (j, e) = square_step (2 ^ 16) p (p / 2 ^ 16) (omega arith) (omega arith) in
    omega (arith, newton_product x y, e)

start : (x : ℕ) → x < 2 ^ 32 → x % 2 ≡ 1 → u32 (sub32 2 x * x) % 2 ^ 2 ≡ 1
start x h odd = let (j, e) = square_step 2 x (x / 2) (omega arith) h in omega (arith, e)

negated :
    (y x : ℕ) → y < 2 ^ 32 → u32 (y * x) % 2 ^ 32 ≡ 1 → (x * (neg32 y % 2 ^ 31) + 1) % 2 ^ 31 ≡ 0
negated y x h e =
    let sum : x * (neg32 y % 2 ^ 31 + y) ≡ x * (2 ^ 31 * ((neg32 y % 2 ^ 31 + y) / 2 ^ 31)) =
      ap (λ (n : ℕ). x * n) {x = neg32 y % 2 ^ 31 + y}
        {y = 2 ^ 31 * ((neg32 y % 2 ^ 31 + y) / 2 ^ 31)} (omega arith) in
    omega (arith, sum, e)

-- For an odd word `br_i31_ninv31` returns the opposite of its inverse modulo 2^31.
pub ninv31_lem :
    (x : ℕ) → x < 2 ^ 32 → x % 2 ≡ 1 → ((x * ninv31 x + 1) % 2 ^ 31 ≡ 0) × (ninv31 x < 2 ^ 31)
unfolding ninv31
ninv31_lem x h odd =
    let y1 = newton x (sub32 2 x) in
    let y2 = newton x y1 in
    let y3 = newton x y2 in
    let y = newton x y3 in
    let right = line4 x y3 (line3 x y2 (line2 x y1 (line1 x (sub32 2 x) (start x h odd)))) in
    let small : y < 2 ^ 32 = unfold newton in omega arith in
    let ctl : bit_and x 1 ≡ 1 = bit_and_mask 1 x ∙ odd in
    let chosen : mux (bit_and x 1) (neg32 y) 0 ≡ neg32 y =
      ap (λ c. mux c (neg32 y) 0) ctl
      ∙ mux_lem 1 (neg32 y) 0 (omega arith) (omega arith) (omega arith) in
    rw (chosen, bit_and_mask 31 (neg32 y)) (negated y x small right, omega arith)
