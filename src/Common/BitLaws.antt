-- ===== src/Common/BitLaws.antt =====
-- Laws of `&`, `|` and `^` at every width: shifts, masks, fields, bounds, and `^` undone.
use bearssl.Common.Bits.{bit_or_step, bit_and_step, bit_xor_step}
use bearssl.Common.Bits.{zero-bit_or, zero-bit_and, zero-bit_xor}
use Prim.Native.Nat.{ℕ, zero, suc, ◌+◌, ◌-◌, ◌*◌, ◌/◌, ◌%◌, ◌^◌, ◌≤◌, ◌<◌, min, max}
use Prim.Native.Nat.{bit_and, bit_or, bit_xor}
use mathlib.Core.Path.{◌≡◌, refl, ap, ◌∙◌, sym}
use native.Mathlib.Nat.{pow-suc, pow-succ', one-le-pow, div-div-eq-div-mul, div-one}
use native.Mathlib.Omega.{arith}

-- The laws below go from `a / 2` to `a`: induction on a bound.
bit_or-zero_fuel : (n a : ℕ) → a ≤ n → bit_or a 0 ≡ a
bit_or-zero_fuel zero zero h = refl
bit_or-zero_fuel zero (suc a) h = absurd (omega arith)
bit_or-zero_fuel (suc n) a h =
    omega (arith, bit_or_step a 0, bit_or-zero_fuel n (a / 2) (omega arith))

pub bit_or-zero : (a : ℕ) → bit_or a 0 ≡ a
bit_or-zero a = bit_or-zero_fuel a a (omega arith)

bit_xor-zero_fuel : (n a : ℕ) → a ≤ n → bit_xor a 0 ≡ a
bit_xor-zero_fuel zero zero h = refl
bit_xor-zero_fuel zero (suc a) h = absurd (omega arith)
bit_xor-zero_fuel (suc n) a h =
    omega (arith, bit_xor_step a 0, bit_xor-zero_fuel n (a / 2) (omega arith))

pub bit_xor-zero : (a : ℕ) → bit_xor a 0 ≡ a
bit_xor-zero a = bit_xor-zero_fuel a a (omega arith)

bit_and-zero_fuel : (n a : ℕ) → a ≤ n → bit_and a 0 ≡ 0
bit_and-zero_fuel zero zero h = refl
bit_and-zero_fuel zero (suc a) h = absurd (omega arith)
bit_and-zero_fuel (suc n) a h =
    omega (arith, bit_and_step a 0, bit_and-zero_fuel n (a / 2) (omega arith))

pub bit_and-zero : (a : ℕ) → bit_and a 0 ≡ 0
bit_and-zero a = bit_and-zero_fuel a a (omega arith)

mul-pow-double : (hi k : ℕ) → hi * 2 ^ suc k ≡ 2 * (hi * 2 ^ k)
mul-pow-double hi k = omega (arith, ap (λ (t : ℕ). hi * t) (pow-suc 2 k))

-- `(hi << k) | lo` is a sum when `lo` fits `k` bits, on either side.
pub bit_or_fields : (hi lo k : ℕ) → lo < 2 ^ k → bit_or (hi * 2 ^ k) lo ≡ hi * 2 ^ k + lo
bit_or_fields hi lo zero fits = ground (arith, bit_or-zero hi)
bit_or_fields hi lo (suc k) fits = ground (
  arith,
  bit_or_step (hi * 2 ^ suc k) lo,
  mul-pow-double hi k,
  bit_or_fields hi (lo / 2) k (omega arith),
)

pub bit_or_fields_low : (hi lo k : ℕ) → lo < 2 ^ k → bit_or lo (hi * 2 ^ k) ≡ hi * 2 ^ k + lo
bit_or_fields_low hi lo zero fits = ground (arith, zero-bit_or hi)
bit_or_fields_low hi lo (suc k) fits = ground (
  arith,
  bit_or_step lo (hi * 2 ^ suc k),
  mul-pow-double hi k,
  bit_or_fields_low hi (lo / 2) k (omega arith),
)

and_fields : (hi lo k : ℕ) → lo < 2 ^ k → bit_and (hi * 2 ^ k + lo) (2 ^ k - 1) ≡ lo
and_fields hi lo zero fits = omega (arith, bit_and-zero (hi * 1 + lo))
and_fields hi lo (suc k) fits = ground (
  arith,
  bit_and_step (hi * 2 ^ suc k + lo) (2 ^ suc k - 1),
  mul-pow-double hi k,
  pow-suc 2 k,
  and_fields hi (lo / 2) k (omega arith),
)

fields_and : (hi lo k : ℕ) → lo < 2 ^ k → bit_and (2 ^ k - 1) (hi * 2 ^ k + lo) ≡ lo
fields_and hi lo zero fits = omega (arith, zero-bit_and (hi * 1 + lo))
fields_and hi lo (suc k) fits = ground (
  arith,
  bit_and_step (2 ^ suc k - 1) (hi * 2 ^ suc k + lo),
  mul-pow-double hi k,
  pow-suc 2 k,
  fields_and hi (lo / 2) k (omega arith),
)

-- A mask of `k` low bits is the remainder by `2 ^ k`, on either side.
pub bit_and_mask : (k a : ℕ) → bit_and a (2 ^ k - 1) ≡ a % 2 ^ k
bit_and_mask k a = ground (arith, one-le-pow k 2, and_fields (a / 2 ^ k) (a % 2 ^ k) k)

pub mask-bit_and : (k a : ℕ) → bit_and (2 ^ k - 1) a ≡ a % 2 ^ k
mask-bit_and k a = ground (arith, one-le-pow k 2, fields_and (a / 2 ^ k) (a % 2 ^ k) k)

-- `^` undoes itself.
bit_xor_cancel_fuel : (n a b : ℕ) → a ≤ n → b ≤ n → bit_xor (bit_xor a b) b ≡ a
bit_xor_cancel_fuel zero zero zero p q = refl
bit_xor_cancel_fuel zero (suc a) b p q = absurd (omega arith)
bit_xor_cancel_fuel zero zero (suc b) p q = absurd (omega arith)
bit_xor_cancel_fuel (suc n) a b p q = ground (
  arith,
  bit_xor_step a b,
  bit_xor_step (bit_xor a b) b,
  bit_xor_cancel_fuel n (a / 2) (b / 2) (omega arith) (omega arith),
)

pub bit_xor_cancel : (a b : ℕ) → bit_xor (bit_xor a b) b ≡ a
bit_xor_cancel a b = bit_xor_cancel_fuel (a + b) a b (omega arith) (omega arith)

bit_xor_comm_fuel : (n a b : ℕ) → a ≤ n → b ≤ n → bit_xor a b ≡ bit_xor b a
bit_xor_comm_fuel zero zero zero p q = refl
bit_xor_comm_fuel zero (suc a) b p q = absurd (omega arith)
bit_xor_comm_fuel zero zero (suc b) p q = absurd (omega arith)
bit_xor_comm_fuel (suc n) a b p q = ground (
  arith,
  bit_xor_step a b,
  bit_xor_step b a,
  bit_xor_comm_fuel n (a / 2) (b / 2) (omega arith) (omega arith),
)

pub bit_xor_comm : (a b : ℕ) → bit_xor a b ≡ bit_xor b a
bit_xor_comm a b = bit_xor_comm_fuel (a + b) a b (omega arith) (omega arith)

pub bit_xor_self : (a : ℕ) → bit_xor a a ≡ 0
bit_xor_self a = ap (λ t. bit_xor t a) (sym (zero-bit_xor a)) ∙ bit_xor_cancel 0 a

-- Two words with no differing bit are one.
pub bit_xor-eq-zero : (a b : ℕ) → bit_xor a b ≡ 0 → a ≡ b
bit_xor-eq-zero a b h = ground (arith, bit_xor_cancel a b, zero-bit_xor b)

div-pow-suc : (k a : ℕ) → a / 2 ^ suc k ≡ (a / 2) / 2 ^ k
div-pow-suc k a = ap (λ t. a / t) (pow-succ' 2 k) ∙ sym (div-div-eq-div-mul a 2 (2 ^ k))

-- A right shift distributes over the operations.
pub bit_xor-shr : (k a b : ℕ) → bit_xor a b / 2 ^ k ≡ bit_xor (a / 2 ^ k) (b / 2 ^ k)
bit_xor-shr zero a b = simp div-one
bit_xor-shr (suc k) a b = ground (
  arith,
  div-pow-suc k (bit_xor a b),
  div-pow-suc k a,
  div-pow-suc k b,
  bit_xor_step a b,
  bit_xor-shr k (a / 2) (b / 2),
)

pub bit_or-shr : (k a b : ℕ) → bit_or a b / 2 ^ k ≡ bit_or (a / 2 ^ k) (b / 2 ^ k)
bit_or-shr zero a b = simp div-one
bit_or-shr (suc k) a b = ground (
  arith,
  div-pow-suc k (bit_or a b),
  div-pow-suc k a,
  div-pow-suc k b,
  bit_or_step a b,
  bit_or-shr k (a / 2) (b / 2),
)

pub bit_and-shr : (k a b : ℕ) → bit_and a b / 2 ^ k ≡ bit_and (a / 2 ^ k) (b / 2 ^ k)
bit_and-shr zero a b = simp div-one
bit_and-shr (suc k) a b = ground (
  arith,
  div-pow-suc k (bit_and a b),
  div-pow-suc k a,
  div-pow-suc k b,
  bit_and_step a b,
  bit_and-shr k (a / 2) (b / 2),
)

-- The operations stay within the width of their operands.
pub bit_xor-lt : (k a b : ℕ) → a < 2 ^ k → b < 2 ^ k → bit_xor a b < 2 ^ k
bit_xor-lt zero zero zero p q = omega arith
bit_xor-lt zero (suc a) b p q = absurd (omega arith)
bit_xor-lt zero zero (suc b) p q = absurd (omega arith)
bit_xor-lt (suc k) a b p q = omega (
  arith,
  bit_xor_step a b,
  pow-suc 2 k,
  bit_xor-lt k (a / 2) (b / 2) (omega (arith, pow-suc 2 k)) (omega (arith, pow-suc 2 k)),
)

pub bit_or-lt : (k a b : ℕ) → a < 2 ^ k → b < 2 ^ k → bit_or a b < 2 ^ k
bit_or-lt zero zero zero p q = omega arith
bit_or-lt zero (suc a) b p q = absurd (omega arith)
bit_or-lt zero zero (suc b) p q = absurd (omega arith)
bit_or-lt (suc k) a b p q = omega (
  arith,
  bit_or_step a b,
  pow-suc 2 k,
  bit_or-lt k (a / 2) (b / 2) (omega (arith, pow-suc 2 k)) (omega (arith, pow-suc 2 k)),
)

-- The operations on single bits.
pub bit_xor_bits : (a b : ℕ) → a < 2 → b < 2 → bit_xor a b ≡ (a + b) % 2
bit_xor_bits zero b p q = omega (arith, zero-bit_xor b)
bit_xor_bits (suc zero) b p q = omega (arith, bit_xor_step 1 b, zero-bit_xor (b / 2))
bit_xor_bits (suc (suc a)) b p q = absurd (omega arith)

pub bit_or_bits : (a b : ℕ) → a < 2 → b < 2 → bit_or a b ≡ max a b
bit_or_bits zero b p q = omega (arith, zero-bit_or b)
bit_or_bits (suc zero) b p q = omega (arith, bit_or_step 1 b, zero-bit_or (b / 2))
bit_or_bits (suc (suc a)) b p q = absurd (omega arith)

pub bit_and_bits : (a b : ℕ) → a < 2 → b < 2 → bit_and a b ≡ min a b
bit_and_bits zero b p q = omega (arith, zero-bit_and b)
bit_and_bits (suc zero) b p q = omega (arith, bit_and_step 1 b, zero-bit_and (b / 2))
bit_and_bits (suc (suc a)) b p q = absurd (omega arith)

-- No bit is set in either operand when none is in their union.
bit_or-eq-zero_fuel : (n a b : ℕ) → a ≤ n → b ≤ n → bit_or a b ≡ 0 → (a ≡ 0) × (b ≡ 0)
bit_or-eq-zero_fuel zero a b p q e = (omega arith, omega arith)
bit_or-eq-zero_fuel (suc n) a b p q e =
    let halves =
      bit_or-eq-zero_fuel n (a / 2) (b / 2) (omega arith) (omega arith)
        (omega (arith, bit_or_step a b)) in
    (omega (arith, bit_or_step a b, halves.0), omega (arith, bit_or_step a b, halves.1))

pub bit_or-eq-zero : (a b : ℕ) → bit_or a b ≡ 0 → (a ≡ 0) × (b ≡ 0)
bit_or-eq-zero a b e = bit_or-eq-zero_fuel (a + b) a b (omega arith) (omega arith) e

-- An intersection stays within the second operand.
pub bit_and-lt : (k a b : ℕ) → b < 2 ^ k → bit_and a b < 2 ^ k
bit_and-lt zero a zero q = omega (arith, bit_and-zero a)
bit_and-lt zero a (suc b) q = absurd (omega arith)
bit_and-lt (suc k) a b q = omega (
  arith,
  bit_and_step a b,
  pow-suc 2 k,
  bit_and-lt k (a / 2) (b / 2) (omega (arith, pow-suc 2 k)),
)
