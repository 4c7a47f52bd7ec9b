-- ===== src/Common/Bits.antt =====
-- One binary digit of `&`, `|` and `^`, from the recursion on digits that the operations stand for.
use Prim.Native.Nat.{
  ℕ, zero, suc, ◌+◌, ◌-◌, ◌*◌, ◌/◌, ◌%◌, ◌≤◌, ◌<◌, min, max, digits, bitwise, differ, bit_and,
  bit_or, bit_xor, bit_and-bitwise, bit_or-bitwise, bit_xor-bitwise,
}
use mathlib.Core.Path.{◌≡◌, refl, ap, ◌∙◌}
use native.Mathlib.Omega.{arith}

module _ (z : ℕ → ℕ) (f : ℕ → ℕ → ℕ) where
  -- A recursion with enough fuel does not change when it gets more.
  one_more : (n a b : ℕ) → a ≤ n → digits z f (suc n) a b ≡ digits z f n a b
  one_more zero zero b p = refl
  one_more (suc n) zero b p = refl
  one_more zero (suc a) b p = absurd (omega arith)
  one_more (suc n) (suc a) b p =
      ap (λ t. t * 2 + f (suc a % 2) (b % 2)) (one_more n (suc a / 2) (b / 2) (omega arith))

  many_more : (k n a b : ℕ) → a ≤ n → digits z f (k + n) a b ≡ digits z f n a b
  many_more zero n a b p = ap (λ (t : ℕ). digits z f t a b) {x = 0 + n} {y = n} (omega arith)
  many_more (suc k) n a b p =
      ap (λ (t : ℕ). digits z f t a b) {x = suc k + n} {y = suc (k + n)} (omega arith)
      ∙ one_more (k + n) a b (omega arith)
      ∙ many_more k n a b p

  -- The lowest digit of an operation that `bitwise` describes.
  lowest_digit :
      (op : ℕ → ℕ → ℕ)
      → ((x y : ℕ) → op x y ≡ bitwise z f x y)
      → ((y : ℕ) → z y ≡ z (y / 2) * 2 + f 0 (y % 2))
      → (x y : ℕ) → op x y ≡ op (x / 2) (y / 2) * 2 + f (x % 2) (y % 2)
  lowest_digit op is at_zero zero y = omega (arith, is 0 y, is 0 (y / 2), at_zero y)
  lowest_digit op is at_zero (suc x) y =
      let half = suc x / 2 in
      let spare = many_more (x - half) half half (y / 2) (omega arith) in
      let fuel =
        ap (λ (t : ℕ). digits z f t half (y / 2)) {x = x} {y = x - half + half} (omega arith) in
      omega (arith, is (suc x) y, is half (y / 2), fuel, spare)

-- the exclusive or of two digits as a remainder
pub differ-mod : (a b : ℕ) → a < 2 → b < 2 → differ a b ≡ (a + b) % 2
differ-mod zero zero p q = refl
differ-mod zero (suc zero) p q = refl
differ-mod (suc zero) zero p q = refl
differ-mod (suc zero) (suc zero) p q = refl
differ-mod a (suc (suc b)) p q = absurd (omega arith)
differ-mod (suc (suc a)) zero p q = absurd (omega arith)
differ-mod (suc (suc a)) (suc zero) p q = absurd (omega arith)

pub zero-bit_xor : (b : ℕ) → bit_xor 0 b ≡ b
zero-bit_xor b = bit_xor-bitwise 0 b

pub zero-bit_or : (b : ℕ) → bit_or 0 b ≡ b
zero-bit_or b = bit_or-bitwise 0 b

pub zero-bit_and : (b : ℕ) → bit_and 0 b ≡ 0
zero-bit_and b = bit_and-bitwise 0 b

pub bit_xor_step : (a b : ℕ) → bit_xor a b ≡ bit_xor (a / 2) (b / 2) * 2 + (a % 2 + b % 2) % 2
bit_xor_step a b = omega (
  arith,
  lowest_digit (λ y. y) differ bit_xor bit_xor-bitwise (λ y. omega (arith, differ-mod 0 (y % 2))) a
      b,
  differ-mod (a % 2) (b % 2) (omega arith) (omega arith),
)

pub bit_and_step : (a b : ℕ) → bit_and a b ≡ bit_and (a / 2) (b / 2) * 2 + min (a % 2) (b % 2)
bit_and_step a b = lowest_digit (λ y. 0) min bit_and bit_and-bitwise (λ y. omega arith) a b

pub bit_or_step : (a b : ℕ) → bit_or a b ≡ bit_or (a / 2) (b / 2) * 2 + max (a % 2) (b % 2)
bit_or_step a b = lowest_digit (λ y. y) max bit_or bit_or-bitwise (λ y. omega arith) a b
