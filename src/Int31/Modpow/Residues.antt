-- ===== src/Int31/Modpow/Residues.antt =====
-- Residues modulo an odd number: a power of two cancels.
use bearssl.Common.{ℕ, zero, suc, ◌+◌, ◌*◌, ◌/◌, ◌%◌, ◌^◌, ◌≡◌, sym, ap, ◌∙◌, arith}
use native.Mathlib.Nat.{add-mul-mod_self_right, mod-add-div}
use bearssl.Int31.Value.{radix}

-- `i` is an inverse of `c` modulo `m`.
pub record Inverse (m c : ℕ) : Type 0 where
  pub i : ℕ
  pub q : ℕ
  pub inverse : c * i ≡ 1 + q * m

product-Inverse : (m c d : ℕ) → Inverse m c → Inverse m d → Inverse m (c * d)
product-Inverse m c d r s = record {
  i = r.i * s.i;
  q = r.q + s.q + r.q * s.q * m;
  inverse =
      omega (
        arith,
        ap (λ (t : ℕ). t * (d * s.i)) r.inverse,
        ap (λ (t : ℕ). (1 + r.q * m) * t) s.inverse,
      );
}

pub radix-Inverse : (m n : ℕ) → Inverse m (2 ^ 31) → Inverse m (radix n)
radix-Inverse m zero h = record { i = 1; q = 0; inverse = omega arith }
radix-Inverse m (suc n) h = product-Inverse m (2 ^ 31) (radix n) h (radix-Inverse m n h)

-- Equal residues stay equal under a factor.
pub times_residue : (a b c m : ℕ) → a % m ≡ b % m → (a * c) % m ≡ (b * c) % m
times_residue a b c m h = reduce_left a ∙ ap (λ (t : ℕ). (t * c) % m) h ∙ sym (reduce_left b)
  where
    reduce_left : (x : ℕ) → (x * c) % m ≡ (x % m * c) % m
    reduce_left x =
        ap (λ (t : ℕ). t % m) {x = x * c} {y = x % m * c + x / m * c * m}
          (omega (arith, ap (λ (t : ℕ). t * c) (mod-add-div x m)))
        ∙ add-mul-mod_self_right (x % m * c) (x / m * c) m

pub cancel : (a b c m : ℕ) → Inverse m c → (a * c) % m ≡ (b * c) % m → a % m ≡ b % m
cancel a b c m r h =
    sym (add-mul-mod_self_right a (a * r.q) m)
    ∙ ap (λ (t : ℕ). t % m) (spread a)
    ∙ times_residue (a * c) (b * c) r.i m h
    ∙ ap (λ (t : ℕ). t % m) (sym (spread b))
    ∙ add-mul-mod_self_right b (b * r.q) m
  where
    spread : (x : ℕ) → x + x * r.q * m ≡ x * c * r.i
    spread x = omega (arith, ap (λ (t : ℕ). x * t) r.inverse)
