-- ===== src/Symcipher/Poly1305/Final.antt =====
-- The end of `br_poly1305_ctmul_run`: the last reduction and the tag.
use bearssl.Common.{
  ℕ, ◌+◌, ◌-◌, ◌*◌, ◌/◌, ◌%◌, ◌^◌, ◌≤◌, ◌<◌, ◌≡◌, ◌⊎◌, refl, ap₂, ◌∙◌, arith, List, drop, IsU32,
  u32, bit_and, ltb, ◌==◌, ◌&&◌, if◌then◌else◌, Bool, true, false, Bool-cases, inl, inr,
}
use bearssl.Codec.{dec32le}
use bearssl.Ct.{gt, eq, mux}
use bearssl.Ct.Compare.{bit, eq_lem, gt_lem}
use bearssl.Ct.Select.{mux_lem}
use bearssl.Symcipher.Poly1305.{Limbs, carry_final, select_final, tag_words}
use bearssl.Symcipher.Poly1305.Words.{prime, limbs_value, IsAcc, mask26-mod}

-- Words of 26 bits.
pub record IsReduced (a : Limbs) : Type 0 where
  pub word0 : a.l0 < 2 ^ 26
  pub word1 : a.l1 < 2 ^ 26
  pub word2 : a.l2 < 2 ^ 26
  pub word3 : a.l3 < 2 ^ 26
  pub word4 : a.l4 < 2 ^ 26

pub carry_final_cases :
    (a : Limbs)
    → IsAcc a
    → ((limbs_value a < 2 ^ 130 → limbs_value (carry_final a) ≡ limbs_value a)
        × (2 ^ 130 ≤ limbs_value a → limbs_value (carry_final a) + 2 ^ 130 ≡ limbs_value a + 1))
      × IsReduced (carry_final a)
unfolding carry_final
carry_final_cases a h =
    let x1 = a.l1 in
    let x2 = a.l2 + x1 / 2 ^ 26 in
    let x3 = a.l3 + x2 / 2 ^ 26 in
    let x4 = a.l4 + x3 / 2 ^ 26 in
    let x0 = a.l0 + x4 / 2 ^ 26 in
    let x5 = x1 % 2 ^ 26 + x0 / 2 ^ 26 in
    let e1 : u32 (a.l1 + 0) ≡ x1 = omega (arith, h.small1) in
    let e2 : u32 x2 ≡ x2 = omega (arith, h.small1, h.small2) in
    let e3 : u32 x3 ≡ x3 = omega (arith, h.small1, h.small2, h.small3) in
    let e4 : u32 x4 ≡ x4 = omega (arith, h.small1, h.small2, h.small3, h.small4) in
    let e0 : u32 x0 ≡ x0 = omega (arith, h.small0, h.small1, h.small2, h.small3, h.small4) in
    let e5 : u32 x5 ≡ x5 = omega (arith, h.small0, h.small1, h.small2, h.small3, h.small4) in
    rw
      (
        e1,
        e2,
        e3,
        e4,
        e0,
        mask26-mod x1,
        e5,
        mask26-mod x0,
        mask26-mod x5,
        mask26-mod x2,
        mask26-mod x3,
        mask26-mod x4,
      )
      (
        (
          λ small. omega (arith, small, h.small0, h.small1, h.small2, h.small3, h.small4),
          λ large. omega (arith, large, h.small0, h.small1, h.small2, h.small3, h.small4),
        ),
        record {
          word0 = omega arith;
          word1 = omega arith;
          word2 = omega arith;
          word3 = omega arith;
          word4 = omega arith;
        },
      )

-- The carry loop after the blocks, on words within the bounds that these leave, keeps an accumulator
-- below 2^130. Out of a greater one it takes 2^130 and adds 1, which is not the same modulo
-- 2^130 - 5. Its words have 26 bits in both cases.
pub carry_final_lem :
    (a : Limbs)
    → IsAcc a
    → (limbs_value (carry_final a)
        ≡ (if ltb (limbs_value a) (2 ^ 130) then limbs_value a else limbs_value a + 1 - 2 ^ 130))
      × IsReduced (carry_final a)
carry_final_lem a h =
    let cases = carry_final_cases a h in
    (
      elim (Bool-cases (ltb (limbs_value a) (2 ^ 130))) [
        | inl e ↦ rw e (cases.0.0 (ground (arith, e)))
        | inr e ↦ rw e (omega (arith, cases.0.1 (ground (arith, e))))
      ],
      cases.1,
    )

and_flags : (a b : Bool) → bit_and (bit a) (bit b) ≡ bit (a && b)
and_flags true true = refl
and_flags true false = refl
and_flags false true = refl
and_flags false false = refl

-- The five comparisons together.
abbrev at_least : Limbs → Bool
at_least a =
    ((((ltb 0x03FFFFFA a.l0) && (a.l1 == 0x03FFFFFF)) && (a.l2 == 0x03FFFFFF))
      && (a.l3 == 0x03FFFFFF))
    && (a.l4 == 0x03FFFFFF)

at_least_view :
    (a : Limbs)
    → IsReduced a
    → ((at_least a ≡ true) × (prime ≤ limbs_value a))
      ⊎ ((at_least a ≡ false) × (limbs_value a < prime))
at_least_view a h = ground (arith, h.word0, h.word1, h.word2, h.word3, h.word4)

control :
    (a : Limbs)
    → IsReduced a
    → bit_and
        (bit_and
          (bit_and (bit_and (gt a.l0 0x03FFFFFA) (eq a.l1 0x03FFFFFF)) (eq a.l2 0x03FFFFFF))
          (eq a.l3 0x03FFFFFF))
        (eq a.l4 0x03FFFFFF)
      ≡ bit (at_least a)
control a h =
    ap₂ bit_and
      (ap₂ bit_and
          (ap₂ bit_and
              (ap₂ bit_and (gt_lem a.l0 0x03FFFFFA (omega (arith, h.word0)) (omega arith))
                  (eq_lem a.l1 0x03FFFFFF (omega (arith, h.word1)) (omega arith))
                ∙ and_flags _ _)
              (eq_lem a.l2 0x03FFFFFF (omega (arith, h.word2)) (omega arith))
            ∙ and_flags _ _)
          (eq_lem a.l3 0x03FFFFFF (omega (arith, h.word3)) (omega arith))
        ∙ and_flags _ _)
      (eq_lem a.l4 0x03FFFFFF (omega (arith, h.word4)) (omega arith))
    ∙ and_flags _ _

select_word : (b : Bool) (x y : ℕ) → IsU32 x → IsU32 y → mux (bit b) x y ≡ (if b then x else y)
select_word true x y hx hy = mux_lem 1 x y (omega arith) hx hy
select_word false x y hx hy = mux_lem 0 x y (omega arith) hx hy

-- The selection reduces an accumulator below 2^130 modulo the prime.
pub select_final_lem :
    (a : Limbs)
    → IsReduced a
    → (limbs_value (select_final a) ≡ limbs_value a % prime) × IsReduced (select_final a)
unfolding select_final
select_final_lem a h =
    let t0 = a.l0 + 5 in
    let t1 = a.l1 + t0 / 2 ^ 26 in
    let t2 = a.l2 + t1 / 2 ^ 26 in
    let t3 = a.l3 + t2 / 2 ^ 26 in
    let t4 = a.l4 + t3 / 2 ^ 26 in
    let e0 : u32 t0 ≡ t0 = omega (arith, h.word0) in
    let e1 : u32 t1 ≡ t1 = omega (arith, h.word0, h.word1) in
    let e2 : u32 t2 ≡ t2 = omega (arith, h.word0, h.word1, h.word2) in
    let e3 : u32 t3 ≡ t3 = omega (arith, h.word0, h.word1, h.word2, h.word3) in
    let e4 : u32 t4 ≡ t4 = omega (arith, h.word0, h.word1, h.word2, h.word3, h.word4) in
    let s0 = select_word (at_least a) (t0 % 2 ^ 26) a.l0 (omega arith) (omega (arith, h.word0)) in
    let s1 = select_word (at_least a) (t1 % 2 ^ 26) a.l1 (omega arith) (omega (arith, h.word1)) in
    let s2 = select_word (at_least a) (t2 % 2 ^ 26) a.l2 (omega arith) (omega (arith, h.word2)) in
    let s3 = select_word (at_least a) (t3 % 2 ^ 26) a.l3 (omega arith) (omega (arith, h.word3)) in
    let s4 = select_word (at_least a) (t4 % 2 ^ 26) a.l4 (omega arith) (omega (arith, h.word4)) in
    rw
      (
        control a h,
        e0,
        e1,
        e2,
        e3,
        e4,
        mask26-mod t0,
        mask26-mod t1,
        mask26-mod t2,
        mask26-mod t3,
        mask26-mod t4,
        s0,
        s1,
        s2,
        s3,
        s4,
      )
      (elim (at_least_view a h) [
        | inl large ↦ rw large.0 (
          omega (arith, large.1, h.word0, h.word1, h.word2, h.word3, h.word4),
          record {
            word0 = omega arith;
            word1 = omega arith;
            word2 = omega arith;
            word3 = omega arith;
            word4 = omega arith;
          },
        )
        | inr small ↦ rw small.0 (omega (arith, small.1), h)
      ])

-- The four words of the tag make up the sum with the second half of the key, modulo 2^128.
pub tag_words_lem :
    (a : Limbs) (pkey : List ℕ)
    → IsReduced a
    → let s0 = dec32le (drop 16 pkey) in
      let s1 = dec32le (drop 20 pkey) in
      let s2 = dec32le (drop 24 pkey) in
      let s3 = dec32le (drop 28 pkey) in
      let t = tag_words a pkey in
      IsU32 s0
      → IsU32 s1
      → IsU32 s2
      → IsU32 s3
      → (t.0 + 2 ^ 32 * t.1 + 2 ^ 64 * t.2 + 2 ^ 96 * t.3
          ≡ (limbs_value a + (s0 + 2 ^ 32 * s1 + 2 ^ 64 * s2 + 2 ^ 96 * s3)) % 2 ^ 128)
        × IsU32 t.0
        × IsU32 t.1
        × IsU32 t.2
        × IsU32 t.3
unfolding tag_words
tag_words_lem a pkey h k0 k1 k2 k3 = (
  omega (arith, h.word0, h.word1, h.word2, h.word3, h.word4, k0, k1, k2, k3),
  omega arith,
  omega arith,
  omega arith,
  omega arith,
)
