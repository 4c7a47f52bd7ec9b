-- ===== src/Common/Powers.antt =====
-- Powers of a variable exponent, and products under bounds.
use Prim.Native.Nat.{ℕ, zero, suc, ◌+◌, ◌*◌, ◌^◌}
use mathlib.Core.Path.{◌≡◌, ap, ◌∙◌, sym}
use native.Mathlib.Nat.{pow-zero, pow-suc, mul_assoc}
use native.Mathlib.Omega.{arith}

pub pow-add : (b m n : ℕ) → b ^ (m + n) ≡ b ^ m * b ^ n
pow-add b m zero =
    ap (λ t. b ^ t) {x = m + zero} {y = m} (omega arith)
    ∙ omega (arith, ap (λ (t : ℕ). b ^ m * t) (pow-zero b))
pow-add b m (suc n) =
    ap (λ t. b ^ t) {x = m + suc n} {y = suc (m + n)} (omega arith)
    ∙ pow-suc b (m + n)
    ∙ ap (λ t. t * b) (pow-add b m n)
    ∙ mul_assoc (b ^ m) (b ^ n) b
    ∙ ap (λ t. b ^ m * t) (sym (pow-suc b n))
