-- ===== src/Int31/Monty/Rows.antt =====
-- The loops of `br_i31_montymul` on the numbers that the words stand for.
use bearssl.Common.{
  ℕ, zero, suc, ◌+◌, ◌-◌, ◌*◌, ◌/◌, ◌%◌, ◌^◌, ◌≤◌, ◌≡◌, refl, ap, ◌∙◌, arith, List, [], ◌∷◌, length,
  All, u32, u64, bit_and,
}
use native.Mathlib.Nat.{mul-le-mul}
use bearssl.Common.BitLaws.{bit_and_mask}
use bearssl.Int31.Value.{IsWord, value, radix}
use bearssl.Int31.Monty.{mul31_lo, mont_row}

product-le : (x y : ℕ) → IsWord x → IsWord y → x * y ≤ (2 ^ 31 - 1) * (2 ^ 31 - 1)
product-le x y hx hy =
    mul-le-mul {n₁ = x} {m₁ = y} {n₂ = 2 ^ 31 - 1} {m₂ = 2 ^ 31 - 1} (omega arith) (omega arith)

-- The words and the carry of a row make up the sum.
pub record Row (n total : ℕ) (row : List ℕ × ℕ) : Type 0 where
  pub sum : value row.0 + radix n * row.1 ≡ total
  pub size : length row.0 ≡ n
  pub words : All IsWord row.0
  pub carry : row.1 ≤ 2 ^ 32 - 2

pub mont_row-Row :
    (n xu f : ℕ) (d y m : List ℕ) (r : ℕ)
    → length d ≡ n
    → length y ≡ n
    → length m ≡ n
    → IsWord xu
    → IsWord f
    → All IsWord d
    → All IsWord y
    → All IsWord m
    → r ≤ 2 ^ 32 - 2
    → Row n (value d + xu * value y + f * value m + r) (mont_row xu f d y m r)
unfolding mont_row
mont_row-Row zero xu f [] y m r ld ly lm hx hf hd hy hm hr = record {
  sum = nothing y m ly lm;
  size = refl;
  words = tt;
  carry = hr;
}
  where
    nothing :
        (y m : List ℕ)
        → length y ≡ 0
        → length m ≡ 0
        → 0 + 1 * r ≡ 0 + xu * value y + f * value m + r
    nothing [] [] a b = omega arith
    nothing (x ∷ y) m a b = absurd (omega arith)
    nothing [] (x ∷ m) a b = absurd (omega arith)
mont_row-Row zero xu f (x ∷ d) y m r ld ly lm hx hf hd hy hm hr = absurd (omega arith)
mont_row-Row (suc n) xu f [] y m r ld ly lm hx hf hd hy hm hr = absurd (omega arith)
mont_row-Row (suc n) xu f (dw ∷ d) [] m r ld ly lm hx hf hd hy hm hr = absurd (omega arith)
mont_row-Row (suc n) xu f (dw ∷ d) (yw ∷ y) [] r ld ly lm hx hf hd hy hm hr = absurd (omega arith)
mont_row-Row (suc n) xu f (dw ∷ d) (yw ∷ y) (mw ∷ m) r ld ly lm hx hf hd hy hm hr =
    let s = dw + xu * yw + f * mw + r in
    let p = product-le xu yw hx hy.0 in
    let q = product-le f mw hf hm.0 in
    let plain : u64 s ≡ s = omega (arith, p, q, hd.0, hr) in
    let low : bit_and (u32 s) 0x7fffffff ≡ s % 2 ^ 31 = bit_and_mask 31 (u32 s) ∙ omega arith in
    let ih =
      mont_row-Row n xu f d y m (s / 2 ^ 31) (omega arith) (omega arith) (omega arith) hx hf hd.1
        hy.1 hm.1 (omega (arith, p, q, hd.0, hr)) in
    rw (plain, low)
      (record {
        sum = omega (arith, ih.sum);
        size = omega (arith, ih.size);
        words = (omega arith, ih.words);
        carry = ih.carry;
      })

-- The factor makes the first word vanish.
pub first_word :
    (d0 xu y0 m0 m0i g : ℕ)
    → IsWord d0
    → IsWord xu
    → IsWord y0
    → m0 * m0i + 1 ≡ 2 ^ 31 * g
    → let f = mul31_lo (u32 (d0 + mul31_lo xu y0)) m0i in
      ((d0 + xu * y0 + f * m0) % 2 ^ 31 ≡ 0) × IsWord f
first_word d0 xu y0 m0 m0i g hd hx hy e =
    let s = d0 + xu * y0 % 2 ^ 31 in
    let inner : u32 (d0 + mul31_lo xu y0) ≡ s =
      ap (λ t. u32 (d0 + t)) (bit_and_mask 31 (u32 (xu * y0))) ∙ omega (arith, hd) in
    let f = s * m0i % 2 ^ 31 in
    let outer : mul31_lo (u32 (d0 + mul31_lo xu y0)) m0i ≡ f =
      ap (λ t. mul31_lo t m0i) inner ∙ bit_and_mask 31 (u32 (s * m0i)) ∙ omega arith in
    let left : s * m0i * m0 ≡ (f + 2 ^ 31 * (s * m0i / 2 ^ 31)) * m0 =
      ap (λ (t : ℕ). t * m0) {x = s * m0i} {y = f + 2 ^ 31 * (s * m0i / 2 ^ 31)} (omega arith) in
    let right : s * (m0 * m0i + 1) ≡ s * (2 ^ 31 * g) = ap (λ (t : ℕ). s * t) e in
    rw outer (vanish s f m0 (s * m0i / 2 ^ 31) g m0i left right (omega arith), omega arith)
  where
    vanish :
        (s f m0 k g m0i : ℕ)
        → s * m0i * m0 ≡ (f + 2 ^ 31 * k) * m0
        → s * (m0 * m0i + 1) ≡ s * (2 ^ 31 * g)
        → s % 2 ^ 31 ≡ (d0 + xu * y0) % 2 ^ 31
        → (d0 + xu * y0 + f * m0) % 2 ^ 31 ≡ 0
    vanish s f m0 k g m0i left right same = omega (arith, left, right, same)
