-- ===== src/Symcipher/Poly1305/Product.antt =====
-- The multiplication in `poly1305_inner` and the carries after it, modulo 2^130 - 5.
use bearssl.Common.{ℕ, ◌+◌, ◌-◌, ◌*◌, ◌/◌, ◌%◌, ◌^◌, ◌≤◌, ◌≡◌, ◌∙◌, arith, u32, u64}
use native.Mathlib.Nat.{mul-le-mul}
use bearssl.Symcipher.Poly1305.{Limbs, mask26, mul_limbs, carry_limbs}
use bearssl.Symcipher.Poly1305.Words.{prime, limbs_value, IsAcc, IsBelow, mask26-mod}

-- The product of two bounded words does not wrap.
word_product : (x y m n : ℕ) → x ≤ m → y ≤ n → x * y ≤ m * n
word_product x y m n h k = mul-le-mul {n₁ = x} {m₁ = y} {n₂ = m} {m₂ = n} h k

-- What `mul_limbs` computes when nothing wraps.
pub mul_plain : Limbs → Limbs → Limbs
mul_plain a r = record {
  l0 = a.l0 * r.l0 + a.l1 * (r.l4 * 5) + a.l2 * (r.l3 * 5) + a.l3 * (r.l2 * 5) + a.l4 * (r.l1 * 5);
  l1 = a.l0 * r.l1 + a.l1 * r.l0 + a.l2 * (r.l4 * 5) + a.l3 * (r.l3 * 5) + a.l4 * (r.l2 * 5);
  l2 = a.l0 * r.l2 + a.l1 * r.l1 + a.l2 * r.l0 + a.l3 * (r.l4 * 5) + a.l4 * (r.l3 * 5);
  l3 = a.l0 * r.l3 + a.l1 * r.l2 + a.l2 * r.l1 + a.l3 * r.l0 + a.l4 * (r.l4 * 5);
  l4 = a.l0 * r.l4 + a.l1 * r.l3 + a.l2 * r.l2 + a.l3 * r.l1 + a.l4 * r.l0;
}

-- The high part of the product, which counts five times.
pub wrapped : Limbs → Limbs → ℕ
wrapped a r =
    a.l1 * r.l4
    + a.l2 * r.l3
    + a.l3 * r.l2
    + a.l4 * r.l1
    + 2 ^ 26 * (a.l2 * r.l4 + a.l3 * r.l3 + a.l4 * r.l2)
    + 2 ^ 52 * (a.l3 * r.l4 + a.l4 * r.l3)
    + 2 ^ 78 * (a.l4 * r.l4)

pub product :
    (a r : Limbs)
    → limbs_value (mul_plain a r) + prime * wrapped a r ≡ limbs_value a * limbs_value r
unfolding mul_plain wrapped
product a r = omega arith

-- Four sums of five terms.
sum_below : (a b c d e n : ℕ) → a ≤ n → b ≤ n → c ≤ n → d ≤ n → e ≤ n → a + b + c + d + e ≤ 5 * n
sum_below a b c d e n ha hb hc hd he = omega arith

-- The greatest product of two words.
abbrev most : ℕ
most = (2 ^ 27 + 2 ^ 6) * 2 ^ 26

small_term : (x y : ℕ) → x ≤ 2 ^ 27 + 2 ^ 6 → y ≤ 2 ^ 26 → x * y ≤ most
small_term x y h k = word_product x y (2 ^ 27 + 2 ^ 6) (2 ^ 26) h k

five_term : (x y : ℕ) → x ≤ 2 ^ 27 + 2 ^ 6 → y ≤ 2 ^ 26 → x * (y * 5) ≤ 5 * most
five_term x y h k = omega (arith, small_term x y h k)

-- Nothing wraps in `mul_limbs`, and the words stay below what `carry_limbs` can take.
pub mul_limbs_lem :
    (a r : Limbs)
    → IsBelow (2 ^ 27 + 2 ^ 6) a
    → IsBelow (2 ^ 26) r
    → (mul_limbs a r ≡ mul_plain a r)
      × IsBelow (25 * most) (mul_plain a r)
      × ((mul_plain a r).l4 ≤ 5 * most)
unfolding mul_limbs mul_plain
mul_limbs_lem a r ha hr =
    let b0 = ha.below0 in
    let b1 = ha.below1 in
    let b2 = ha.below2 in
    let b3 = ha.below3 in
    let b4 = ha.below4 in
    let c0 = hr.below0 in
    let c1 = hr.below1 in
    let c2 = hr.below2 in
    let c3 = hr.below3 in
    let c4 = hr.below4 in
    let u1 : u32 (r.l1 * 5) ≡ r.l1 * 5 = omega (arith, c1) in
    let u2 : u32 (r.l2 * 5) ≡ r.l2 * 5 = omega (arith, c2) in
    let u3 : u32 (r.l3 * 5) ≡ r.l3 * 5 = omega (arith, c3) in
    let u4 : u32 (r.l4 * 5) ≡ r.l4 * 5 = omega (arith, c4) in
    let w0 : a.l0 * r.l0
          + a.l1 * (r.l4 * 5)
          + a.l2 * (r.l3 * 5)
          + a.l3 * (r.l2 * 5)
          + a.l4 * (r.l1 * 5)
        ≤ 25 * most =
      omega (
        arith,
        small_term a.l0 r.l0 b0 c0,
        small_term a.l1 r.l4 b1 c4,
        small_term a.l2 r.l3 b2 c3,
        small_term a.l3 r.l2 b3 c2,
        small_term a.l4 r.l1 b4 c1,
      ) in
    let w1 : a.l0 * r.l1 + a.l1 * r.l0 + a.l2 * (r.l4 * 5) + a.l3 * (r.l3 * 5) + a.l4 * (r.l2 * 5)
        ≤ 25 * most =
      omega (
        arith,
        small_term a.l0 r.l1 b0 c1,
        small_term a.l1 r.l0 b1 c0,
        small_term a.l2 r.l4 b2 c4,
        small_term a.l3 r.l3 b3 c3,
        small_term a.l4 r.l2 b4 c2,
      ) in
    let w2 : a.l0 * r.l2 + a.l1 * r.l1 + a.l2 * r.l0 + a.l3 * (r.l4 * 5) + a.l4 * (r.l3 * 5)
        ≤ 25 * most =
      omega (
        arith,
        small_term a.l0 r.l2 b0 c2,
        small_term a.l1 r.l1 b1 c1,
        small_term a.l2 r.l0 b2 c0,
        small_term a.l3 r.l4 b3 c4,
        small_term a.l4 r.l3 b4 c3,
      ) in
    let w3 : a.l0 * r.l3 + a.l1 * r.l2 + a.l2 * r.l1 + a.l3 * r.l0 + a.l4 * (r.l4 * 5) ≤ 25 * most =
      omega (
        arith,
        small_term a.l0 r.l3 b0 c3,
        small_term a.l1 r.l2 b1 c2,
        small_term a.l2 r.l1 b2 c1,
        small_term a.l3 r.l0 b3 c0,
        small_term a.l4 r.l4 b4 c4,
      ) in
    let w4 : a.l0 * r.l4 + a.l1 * r.l3 + a.l2 * r.l2 + a.l3 * r.l1 + a.l4 * r.l0 ≤ 5 * most =
      omega (
        arith,
        small_term a.l0 r.l4 b0 c4,
        small_term a.l1 r.l3 b1 c3,
        small_term a.l2 r.l2 b2 c2,
        small_term a.l3 r.l1 b3 c1,
        small_term a.l4 r.l0 b4 c0,
      ) in
    let no_wrap : (x : ℕ) → x ≤ 25 * most → u64 x ≡ x = λ x h. omega (arith, h) in
    (
      rw (u1, u2, u3, u4)
          (limbs_path (no_wrap _ w0) (no_wrap _ w1) (no_wrap _ w2) (no_wrap _ w3)
            (no_wrap _ (omega (arith, w4)))),
      record { below0 = w0; below1 = w1; below2 = w2; below3 = w3; below4 = omega (arith, w4) },
      w4,
    )
  where
    limbs_path :
        {x0 x1 x2 x3 x4 y0 y1 y2 y3 y4 : ℕ}
        → x0 ≡ y0
        → x1 ≡ y1
        → x2 ≡ y2
        → x3 ≡ y3
        → x4 ≡ y4
        → Path Limbs
            (record { l0 = x0; l1 = x1; l2 = x2; l3 = x3; l4 = x4 })
            (record { l0 = y0; l1 = y1; l2 = y2; l3 = y3; l4 = y4 })
    limbs_path e0 e1 e2 e3 e4 =
        λ i. record { l0 = e0 i; l1 = e1 i; l2 = e2 i; l3 = e3 i; l4 = e4 i }

-- The partial reduction keeps the number modulo the prime.
pub carry_limbs_lem :
    (w : Limbs)
    → IsBelow (25 * most) w
    → w.l4 ≤ 5 * most
    → (k : ℕ) × (limbs_value (carry_limbs w) + prime * k ≡ limbs_value w) × IsAcc (carry_limbs w)
unfolding carry_limbs
carry_limbs_lem w h h4 =
    let w1 = w.l1 + w.l0 / 2 ^ 26 in
    let w2 = w.l2 + w1 / 2 ^ 26 in
    let w3 = w.l3 + w2 / 2 ^ 26 in
    let w4 = w.l4 + w3 / 2 ^ 26 in
    let c = w4 / 2 ^ 26 in
    let e1 : u64 w1 ≡ w1 = omega (arith, h.below0, h.below1) in
    let e2 : u64 w2 ≡ w2 = omega (arith, h.below0, h.below1, h.below2) in
    let e3 : u64 w3 ≡ w3 = omega (arith, h.below0, h.below1, h.below2, h.below3) in
    let e4 : u64 w4 ≡ w4 = omega (arith, h.below0, h.below1, h.below2, h.below3, h4) in
    let m0 : mask26 (u32 w.l0) ≡ w.l0 % 2 ^ 26 = mask26-mod _ ∙ omega arith in
    let m1 : mask26 (u32 w1) ≡ w1 % 2 ^ 26 = mask26-mod _ ∙ omega arith in
    let m2 : mask26 (u32 w2) ≡ w2 % 2 ^ 26 = mask26-mod _ ∙ omega arith in
    let m3 : mask26 (u32 w3) ≡ w3 % 2 ^ 26 = mask26-mod _ ∙ omega arith in
    let m4 : mask26 (u32 w4) ≡ w4 % 2 ^ 26 = mask26-mod _ ∙ omega arith in
    let c_small : c * 5 ≤ 2 ^ 32 - 2 ^ 27 =
      omega (arith, h.below0, h.below1, h.below2, h.below3, h4) in
    let a0 = w.l0 % 2 ^ 26 + c * 5 in
    let ea : u32 (w.l0 % 2 ^ 26 + u32 (u32 c * 5)) ≡ a0 = omega (arith, c_small) in
    let top : mask26 a0 ≡ a0 % 2 ^ 26 = mask26-mod _ in
    rw (e1, e2, e3, e4, m0, m1, m2, m3, m4, ea, top)
      (
        c,
        omega (arith, c_small),
        record {
          small0 = omega arith;
          small1 = omega (arith, c_small);
          small2 = omega arith;
          small3 = omega arith;
          small4 = omega arith;
        },
      )
