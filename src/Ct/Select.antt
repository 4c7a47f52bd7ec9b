-- ===== src/Ct/Select.antt =====
-- The multiplexer of src/inner.h, and what is built on it: `MIN`, `MAX` and `BIT_LENGTH`.
use bearssl.Common.{
  ℕ, zero, suc, ◌+◌, ◌-◌, ◌*◌, ◌/◌, ◌^◌, ◌≤◌, ◌<◌, min, max, bit_xor, ◌≡◌, ap, ◌∙◌, arith, Bool,
  true, not, ltb, ◌==◌, if◌then◌else◌, Bool-cases, inl, inr, IsU32, u32,
}
use bearssl.Common.Bits.{zero-bit_and}
use bearssl.Common.BitLaws.{mask-bit_and, bit_xor_cancel, bit_xor_comm, bit_xor-zero, bit_xor-lt}
use bearssl.Ct.{mux, gt, ct_min, ct_max, bit_length}
use bearssl.Ct.Compare.{bit, gt_lem, neq_lem}
use bearssl.Common.Powers.{pow-add}
use native.Mathlib.Nat.{
  add-zero, div-le_self, one-le-pow, pow-suc, mul-le-mul_right, div-mul-le_self,
}

pub zero-mux : (x y : ℕ) → mux 0 x y ≡ y
unfolding mux
zero-mux x y = ap (λ t. bit_xor y t) (zero-bit_and (bit_xor x y)) ∙ bit_xor-zero y

-- `MUX` returns `x` on 1 and `y` on 0.
pub mux_lem :
    (ctl x y : ℕ) → ctl < 2 → IsU32 x → IsU32 y → mux ctl x y ≡ (if ctl == 1 then x else y)
unfolding mux
mux_lem zero x y h hx hy = zero-mux x y
mux_lem (suc zero) x y h hx hy = ground (
  arith,
  mask-bit_and 32 (bit_xor x y),
  bit_xor-lt 32 x y hx hy,
  bit_xor_comm y (bit_xor x y),
  bit_xor_cancel x y,
)
mux_lem (suc (suc ctl)) x y h hx hy = absurd (omega arith)

-- `MIN` and `MAX` are the minimum and the maximum.
pub ct_min-max : (x y : ℕ) → IsU32 x → IsU32 y → (ct_min x y ≡ min x y) × (ct_max x y ≡ max x y)
unfolding ct_min ct_max
ct_min-max x y hx hy = (
  ground (arith, gt_lem x y hx hy, mux_lem (gt x y) y x),
  ground (arith, gt_lem x y hx hy, mux_lem (gt x y) x y),
)

-- `k` is the least number of bits that hold `x`.
pub record IsLength (x k : ℕ) : Type 0 where
  pub fits : x < 2 ^ k
  pub least : 2 ^ k ≤ 2 * x + 1

even_pow : (k m : ℕ) → 2 ^ k ≤ 2 * m + 1 → 1 ≤ m → 2 ^ k ≤ 2 * m
even_pow zero m h p = omega arith
even_pow (suc k) m h p = omega (arith, pow-suc 2 k)

quotient_pos : (p x : ℕ) → 1 ≤ p → p ≤ x → 1 ≤ x / p
quotient_pos p x h le = grind arith

ltb→le : (s x : ℕ) → ltb (2 ^ s - 1) x ≡ true → 2 ^ s ≤ x
ltb→le s x e = ground arith

-- What was shifted out counts in full.
IsLength-shift : (s x k : ℕ) → 2 ^ s ≤ x → IsLength (x / 2 ^ s) k → IsLength x (k + s)
IsLength-shift s x k h l =
    let one : 1 ≤ x / 2 ^ s = quotient_pos (2 ^ s) x (one-le-pow s 2 (omega arith)) h in
    let top : 2 ^ k * 2 ^ s ≤ 2 * (x / 2 ^ s) * 2 ^ s =
      mul-le-mul_right (2 ^ s) (even_pow k (x / 2 ^ s) l.least one) in
    record {
      fits = grind (arith, pow-add 2 k s, one-le-pow s 2);
      least = omega (arith, pow-add 2 k s, div-mul-le_self x (2 ^ s));
    }

-- One step of `BIT_LENGTH`: the value that goes on, and the count that it adds.
abbrev shorten : ℕ → ℕ → ℕ
shorten s x = if ltb (2 ^ s - 1) x then x / 2 ^ s else x

abbrev gain : ℕ → ℕ → ℕ
gain s x = if ltb (2 ^ s - 1) x then s else 0

step_lem : (s x k : ℕ) → IsLength (shorten s x) k → IsLength x (k + gain s x)
step_lem s x k h = elim (Bool-cases (ltb (2 ^ s - 1) x)) [
  | inl e ↦ rw e (IsLength-shift s x k (ltb→le s x e) (rw e at h))
  | inr e ↦ rw (e, add-zero) (rw e at h)
]

small-IsLength : (y : ℕ) → y < 4 → IsLength y (bit (not (y == 0)) + bit (ltb 1 y))
small-IsLength zero h = omega arith
small-IsLength (suc zero) h = omega arith
small-IsLength (suc (suc zero)) h = omega arith
small-IsLength (suc (suc (suc zero))) h = omega arith
small-IsLength (suc (suc (suc (suc y)))) h = absurd (omega arith)

mux_step :
    (s x : ℕ) → IsU32 (2 ^ s - 1) → IsU32 x → mux (gt x (2 ^ s - 1)) (x / 2 ^ s) x ≡ shorten s x
mux_step s x hs hx = ground (
  arith,
  gt_lem x (2 ^ s - 1) hx hs,
  mux_lem (gt x (2 ^ s - 1)) (x / 2 ^ s) x,
  div-le_self x (2 ^ s),
)

sums :
    (b0 b1 b2 b3 b4 b5 : Bool)
    → u32 (
        u32 (
          u32 (u32 (u32 (bit b0 + bit b5 * 2 ^ 4) + bit b4 * 2 ^ 3) + bit b3 * 2 ^ 2)
          + bit b2 * 2 ^ 1)
        + bit b1)
      ≡ bit b0
        + bit b1
        + (if b2 then 2 else 0)
        + (if b3 then 4 else 0)
        + (if b4 then 8 else 0)
        + (if b5 then 16 else 0)
sums b0 b1 b2 b3 b4 b5 = ground arith

module _ (x : ℕ) (h : IsU32 x) where
  abbrev x1 : ℕ
  x1 = shorten 16 x

  abbrev x2 : ℕ
  x2 = shorten 8 x1

  abbrev x3 : ℕ
  x3 = shorten 4 x2

  abbrev x4 : ℕ
  x4 = shorten 2 x3

  small1 : x1 < 2 ^ 16
  small1 = ground arith

  small2 : x2 < 2 ^ 8
  small2 = ground (arith, small1)

  small3 : x3 < 16
  small3 = ground (arith, small2)

  small4 : x4 < 4
  small4 = ground (arith, small3)

  nonzero4 : (x4 == 0) ≡ (x == 0)
  nonzero4 = ground (arith, small3)

  bit_length_sum :
      bit_length x
      ≡ bit (not (x == 0)) + bit (ltb 1 x4) + gain 2 x3 + gain 4 x2 + gain 8 x1 + gain 16 x
  unfolding bit_length
  bit_length_sum =
      rw
        (
          mux_step 16 x (omega arith) h,
          mux_step 8 x1 (omega arith) (omega (arith, small1)),
          mux_step 4 x2 (omega arith) (omega (arith, small2)),
          mux_step 2 x3 (omega arith) (omega (arith, small3)),
          gt_lem x 65535 h (omega arith),
          gt_lem x1 255 (omega (arith, small1)) (omega arith),
          gt_lem x2 15 (omega (arith, small2)) (omega arith),
          gt_lem x3 3 (omega (arith, small3)) (omega arith),
          gt_lem x4 1 (omega (arith, small4)) (omega arith),
          neq_lem x 0 h (omega arith),
        )
        (sums (not (x == 0)) (ltb 1 x4) (ltb 3 x3) (ltb 15 x2) (ltb 255 x1) (ltb 65535 x))

-- `BIT_LENGTH` returns the least number of bits that hold the word.
pub bit_length_lem : (x : ℕ) → IsU32 x → IsLength x (bit_length x)
bit_length_lem x h = rw (bit_length_sum x h) (
    step_lem 16 x _ (
      step_lem 8 (x1 x h) _ (
        step_lem 4 (x2 x h) _
          (step_lem 2 (x3 x h) _ (rw (← nonzero4 x h) (small-IsLength (x4 x h) (small4 x h)))))))
