-- ===== src/Int31/Monty/Loop.antt =====
-- The outer loop of `br_i31_montymul` over all the words of `x`.
use bearssl.Common.{
  ℕ, suc, ◌+◌, ◌-◌, ◌*◌, ◌^◌, ◌≤◌, ◌<◌, ◌≡◌, arith, List, [], ◌∷◌, length, get_or, All, u32,
}
use native.Mathlib.Nat.{mul-le-mul}
use bearssl.Int31.Value.{IsWord, value, radix}
use bearssl.Int31.Monty.{mul31_lo, mont_turn, mont_loop}
use bearssl.Int31.Monty.Laws.{turn_sum}

-- What the loop leaves: the product over the radix, up to a multiple of the modulus, and below
-- twice the modulus.
pub record Divided (n k total top : ℕ) (d : List ℕ × ℕ) : Type 0 where
  pub rest : ℕ
  pub sum : radix k * (value d.0 + radix n * d.1) ≡ total + rest * top
  pub below : value d.0 + radix n * d.1 < 2 * top
  pub size : length d.0 ≡ n
  pub words : All IsWord d.0
  pub high : d.1 < 2

turn_below :
    (next before xu f y m : ℕ)
    → 2 ^ 31 * next ≡ before + xu * y + f * m
    → before < 2 * m
    → IsWord xu
    → IsWord f
    → y ≤ m
    → next < 2 * m
turn_below next before xu f y m e h hx hf hy =
    let p = mul-le-mul {n₁ = xu} {m₁ = y} {n₂ = 2 ^ 31 - 1} {m₂ = m} (omega arith) hy in
    let q = mul-le-mul {n₁ = f} {m₁ = m} {n₂ = 2 ^ 31 - 1} {m₂ = m} (omega arith) (omega arith) in
    omega (arith, e, h, p, q)

pub mont_loop-Divided :
    (n m0i g dh : ℕ) (x d y m : List ℕ)
    → length d ≡ suc n
    → length y ≡ suc n
    → length m ≡ suc n
    → All IsWord x
    → All IsWord d
    → All IsWord y
    → All IsWord m
    → get_or m 0 0 * m0i + 1 ≡ 2 ^ 31 * g
    → dh < 2
    → value y ≤ value m
    → value d + radix (suc n) * dh < 2 * value m
    → Divided
        (suc n)
        (length x)
        (value d + radix (suc n) * dh + value x * value y)
        (value m)
        (mont_loop x m0i d y m dh)
unfolding mont_loop
mont_loop-Divided n m0i g dh [] d y m ld ly lm hx hd hy hm e h hym below = record {
  rest = 0;
  sum = omega arith;
  below = below;
  size = ld;
  words = hd;
  high = h;
}
mont_loop-Divided n m0i g dh (xu ∷ x) d y m ld ly lm hx hd hy hm e h hym below =
    let t = turn_sum n xu m0i g dh d y m ld ly lm hx.0 hd hy hm e h in
    let turn = mont_turn xu m0i d y m dh in
    let small =
      turn_below (value turn.0 + radix (suc n) * turn.1) (value d + radix (suc n) * dh) xu _
        (value y) (value m) t.0 below hx.0 t.4 hym in
    let ih =
      mont_loop-Divided n m0i g turn.1 x turn.0 y m t.1 ly lm hx.1 t.2 hy hm e t.3 hym small in
    let f = mul31_lo (u32 (get_or d 0 0 + mul31_lo xu (get_or y 0 0))) m0i in
    record {
      rest = f + 2 ^ 31 * ih.rest;
      sum = omega (arith, t.0, ih.sum);
      below = ih.below;
      size = ih.size;
      words = ih.words;
      high = ih.high;
    }
