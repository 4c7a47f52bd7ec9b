-- ===== src/Int31/Monty/Back.antt =====
-- `br_i31_from_monty`: its turns are those of `br_i31_montymul` with a factor 0.
use bearssl.Common.{
  ℕ, zero, suc, ◌+◌, ◌-◌, ◌*◌, ◌^◌, ◌<◌, ◌≡◌, refl, sym, ap, ◌∙◌, arith, List, [], ◌∷◌, ◌++◌, drop,
  length, All, get_or, replicate, length-replicate, u32, u64, ◌>>>◌, bit_and,
}
use native.Mathlib.Nat.{mul-le-mul}
use bearssl.Common.BitLaws.{bit_and_mask}
use bearssl.Int31.Value.{IsWord, value, radix, value-lt}
use bearssl.Int31.Monty.{mul31_lo, mont_row, mont_turn, fmont_row, fmont_turn, fmont_loop}
use bearssl.Int31.Monty.Laws.{turn_sum}
use bearssl.Int31.Monty.Zeros.{zeros-IsWord, zeros-value}

fmont_row-mont_row :
    (f : ℕ) (x m : List ℕ) (cc : ℕ)
    → fmont_row f x m cc ≡ mont_row 0 f x (replicate (length x) 0) m cc
unfolding fmont_row mont_row
fmont_row-mont_row f (xw ∷ x) (mw ∷ m) c =
    let plain : xw + 0 * 0 + f * mw + c ≡ xw + f * mw + c = omega arith in
    rw (fmont_row-mont_row f x m (u64 (xw + f * mw + c) >>> 31), plain) refl
fmont_row-mont_row f (xw ∷ x) [] cc = refl
fmont_row-mont_row f [] [] cc = refl
fmont_row-mont_row f [] (mw ∷ m) cc = refl

first-IsWord : (ws : List ℕ) → All IsWord ws → IsWord (get_or ws 0 0)
first-IsWord [] h = omega arith
first-IsWord (w ∷ ws) h = h.0

-- With no high bit, the word that is stored is the whole carry.
fmont_turn-mont_turn :
    (m0i : ℕ) (x m : List ℕ)
    → (mont_turn 0 m0i x (replicate (length x) 0) m 0).1 ≡ 0
    → get_or x 0 0 < 2 ^ 31
    → fmont_turn m0i x m ≡ (mont_turn 0 m0i x (replicate (length x) 0) m 0).0
unfolding fmont_turn mont_turn
fmont_turn-mont_turn m0i x m high small =
    let f = mul31_lo (get_or x 0 0) m0i in
    let none : mul31_lo 0 (get_or (replicate (length x) 0) 0 0) ≡ 0 =
      bit_and_mask 31 (u32 (0 * get_or (replicate (length x) 0) 0 0)) ∙ omega arith in
    let zs : List ℕ = replicate (length x) 0 in
    let factor : mul31_lo (u32 (get_or x 0 0 + mul31_lo 0 (get_or zs 0 0))) m0i ≡ f =
      ap (λ t. mul31_lo (u32 (get_or x 0 0 + t)) m0i) none
      ∙ ap (λ t. mul31_lo t m0i) {x = u32 (get_or x 0 0 + 0)} {y = get_or x 0 0}
          (omega (arith, small)) in
    let c = (mont_row 0 f x zs m 0).1 in
    let no_high : u64 (0 + c) >>> 31 ≡ 0 =
      sym (ap (λ t. u64 (0 + (mont_row 0 t x zs m 0).1) >>> 31) factor) ∙ high in
    let word : bit_and (u32 (u64 (0 + c))) 0x7fffffff ≡ u32 c =
      bit_and_mask 31 (u32 (u64 (0 + c))) ∙ omega (arith, no_high) in
    ap (λ (t : List ℕ × ℕ). drop 1 (t.0 ++ (u32 t.1 ∷ []))) (fmont_row-mont_row f x m 0)
    ∙ ap (λ t. drop 1 ((mont_row 0 f x zs m 0).0 ++ (t ∷ []))) (sym word)
    ∙ ap
        (λ t. drop 1 (
          (mont_row 0 t x zs m 0).0
          ++ (bit_and (u32 (u64 (0 + (mont_row 0 t x zs m 0).1))) 0x7fffffff ∷ [])))
        (sym factor)

no_overflow :
    (r v high x f m : ℕ) → 2 ^ 31 * (v + r * high) ≡ x + f * m → x < r → m < r → IsWord f → high ≡ 0
no_overflow r v zero x f m e hx hm hf = refl
no_overflow r v (suc high) x f m e hx hm hf =
    let p = mul-le-mul {n₁ = f} {m₁ = m} {n₂ = 2 ^ 31 - 1} {m₂ = r} (omega arith) (omega arith) in
    absurd (omega (arith, e, p))

-- What the turns leave.
pub record Shifted (n k x top : ℕ) (out : List ℕ) : Type 0 where
  pub rest : ℕ
  pub sum : radix k * value out ≡ x + rest * top
  pub small : rest < radix k
  pub size : length out ≡ n
  pub words : All IsWord out

pub fmont_loop-Shifted :
    (n m0i g k : ℕ) (x m : List ℕ)
    → length x ≡ suc n
    → length m ≡ suc n
    → All IsWord x
    → All IsWord m
    → get_or m 0 0 * m0i + 1 ≡ 2 ^ 31 * g
    → Shifted (suc n) k (value x) (value m) (fmont_loop k m0i x m)
unfolding fmont_loop
fmont_loop-Shifted n m0i g zero x m lx lm hx hm e = record {
  rest = 0;
  sum = omega arith;
  small = omega arith;
  size = lx;
  words = hx;
}
fmont_loop-Shifted n m0i g (suc k) x m lx lm hx hm e =
    let zs : List ℕ = replicate (length x) 0 in
    let t =
      turn_sum n 0 m0i g 0 x zs m lx (length-replicate (length x) 0 ∙ lx) lm (omega arith) hx
        (zeros-IsWord (length x)) hm e (omega arith) in
    let turn = mont_turn 0 m0i x zs m 0 in
    let f = mul31_lo (u32 (get_or x 0 0 + mul31_lo 0 (get_or zs 0 0))) m0i in
    let none = zeros-value (length x) in
    let x_lt : value x < radix (suc n) = rw lx at (value-lt x hx) in
    let m_lt : value m < radix (suc n) = rw lm at (value-lt m hm) in
    let high =
      no_overflow (radix (suc n)) (value turn.0) turn.1 (value x) f (value m)
        (omega (arith, t.0, none)) x_lt m_lt t.4 in
    let no_high : radix (suc n) * turn.1 ≡ 0 =
      ap (λ (h : ℕ). radix (suc n) * h) high ∙ omega arith in
    let ih = fmont_loop-Shifted n m0i g k turn.0 m t.1 lm t.2 hm e in
    rw (fmont_turn-mont_turn m0i x m high (first-IsWord x hx)) (record {
      rest = f + 2 ^ 31 * ih.rest;
      sum = omega (arith, t.0, ih.sum, none, no_high);
      small = omega (arith, ih.small, t.4);
      size = ih.size;
      words = ih.words;
    })
