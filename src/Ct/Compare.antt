-- ===== src/Ct/Compare.antt =====
-- The comparisons of src/inner.h against the order of the numbers.
use bearssl.Common.{
  ℕ, ◌+◌, ◌-◌, ◌/◌, ◌%◌, ◌^◌, ◌<◌, min, bit_and, bit_or, bit_xor, ◌≡◌, ap, ◌∙◌, arith, Bool, ltb,
  leb, not, ◌&&◌, ◌||◌, ◌==◌, if◌then◌else◌, IsU32, sub32, neg32, not32,
}
use bearssl.Common.BitLaws.{
  bit_xor-shr, bit_or-shr, bit_and-shr, bit_xor-lt, bit_or-lt, bit_xor_bits, bit_or_bits,
  bit_and_bits, bit_xor-eq-zero, bit_xor_self, bit_or-zero,
}
use bearssl.Common.Bits.{zero-bit_or}
use bearssl.Ct.{ct_not, neq, eq, gt, ge, lt, le, cmp, eq0, gt0, ge0, lt0, le0}

-- The value 1 or 0 of a test, as the source returns it.
abbrev pub bit : Bool → ℕ
bit b = if b then 1 else 0

-- `NOT` of a bit.
pub ct_not_lem : (b : ℕ) → b < 2 → ct_not b ≡ 1 - b
unfolding ct_not
ct_not_lem b h = omega (arith, bit_xor_bits b 1 h (omega arith))

pub gt_lem : (x y : ℕ) → IsU32 x → IsU32 y → gt x y ≡ bit (ltb y x)
unfolding gt
gt_lem x y hx hy = ground (
  arith,
  bit_xor-shr 31 z (bit_and (bit_xor x y) (bit_xor x z)),
  bit_and-shr 31 (bit_xor x y) (bit_xor x z),
  bit_xor-shr 31 x y,
  bit_xor-shr 31 x z,
  bit_xor_bits (x / 2 ^ 31) (y / 2 ^ 31) (omega arith) (omega arith),
  bit_xor_bits (x / 2 ^ 31) (z / 2 ^ 31) (omega arith) (omega arith),
  bit_and_bits ((x / 2 ^ 31 + y / 2 ^ 31) % 2) ((x / 2 ^ 31 + z / 2 ^ 31) % 2) (omega arith)
      (omega arith),
  bit_xor_bits (z / 2 ^ 31) (min ((x / 2 ^ 31 + y / 2 ^ 31) % 2) ((x / 2 ^ 31 + z / 2 ^ 31) % 2))
      (omega arith) (omega arith),
)
  where
    z : ℕ
    z = sub32 y x

-- The top bit of `q | -q` says whether `q` is not 0.
nonzero_bit : (q : ℕ) → IsU32 q → bit_or q (neg32 q) / 2 ^ 31 ≡ bit (not (q == 0))
nonzero_bit q h = ground (
  arith,
  bit_or-shr 31 q (neg32 q),
  bit_or_bits (q / 2 ^ 31) (neg32 q / 2 ^ 31) (omega arith) (omega arith),
)

xor_test : (x y : ℕ) → (bit_xor x y == 0) ≡ (x == y)
xor_test x y = ground (arith, bit_xor-eq-zero x y, bit_xor_self x)

pub neq_lem : (x y : ℕ) → IsU32 x → IsU32 y → neq x y ≡ bit (not (x == y))
unfolding neq
neq_lem x y hx hy =
    nonzero_bit (bit_xor x y) (bit_xor-lt 32 x y hx hy) ∙ ap (λ t. bit (not t)) (xor_test x y)

pub eq_lem : (x y : ℕ) → IsU32 x → IsU32 y → eq x y ≡ bit (x == y)
unfolding eq neq
eq_lem x y hx hy = ground (
  arith,
  neq_lem x y hx hy,
  bit_xor_bits 0 1 (omega arith) (omega arith),
  bit_xor_bits 1 1 (omega arith) (omega arith),
)

-- Each comparison returns 1 exactly when the relation holds between the two words, and 0 else.
pub compare_lem :
    (x y : ℕ)
    → IsU32 x
    → IsU32 y
    → (eq x y ≡ bit (x == y))
      × (neq x y ≡ bit (not (x == y)))
      × (gt x y ≡ bit (ltb y x))
      × (ge x y ≡ bit (leb y x))
      × (lt x y ≡ bit (ltb x y))
      × (le x y ≡ bit (leb x y))
unfolding ge lt le
compare_lem x y hx hy = (
  eq_lem x y hx hy,
  neq_lem x y hx hy,
  gt_lem x y hx hy,
  ground (arith, gt_lem y x hy hx, ct_not_lem (gt y x)),
  gt_lem y x hy hx,
  ground (arith, gt_lem x y hx hy, ct_not_lem (gt x y)),
)

-- `CMP` returns -1, 0 or 1 (as bit patterns) for less, equal and greater.
pub cmp_lem :
    (x y : ℕ)
    → IsU32 x
    → IsU32 y
    → cmp x y ≡ (if ltb x y then 2 ^ 32 - 1 else if x == y then 0 else 1)
unfolding cmp
cmp_lem x y hx hy =
    ground
      (arith, gt_lem x y hx hy, gt_lem y x hy hx, zero-bit_or (2 ^ 32 - 1), bit_or-zero (gt x y))

-- The sign tests, of an `int32_t` as its bit pattern: negative from 2 ^ 31 on.
pub sign_lem :
    (q : ℕ)
    → IsU32 q
    → (eq0 q ≡ bit (q == 0))
      × (gt0 q ≡ bit (ltb 0 q && ltb q (2 ^ 31)))
      × (ge0 q ≡ bit (ltb q (2 ^ 31)))
      × (lt0 q ≡ bit (leb (2 ^ 31) q))
      × (le0 q ≡ bit ((q == 0) || leb (2 ^ 31) q))
unfolding eq0 gt0 ge0 lt0 le0
sign_lem q h = (
  ground (arith, nonzero_bit q h, bit_or-lt 32 q (neg32 q) h (omega arith)),
  ground (
    arith,
    bit_and-shr 31 (not32 q) (neg32 q),
    bit_and_bits (not32 q / 2 ^ 31) (neg32 q / 2 ^ 31) (omega arith) (omega arith),
  ),
  ground arith,
  ground arith,
  ground (
    arith,
    bit_or-shr 31 q (not32 (neg32 q)),
    bit_or_bits (q / 2 ^ 31) (not32 (neg32 q) / 2 ^ 31) (omega arith) (omega arith),
  ),
)
