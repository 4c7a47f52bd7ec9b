-- ===== src/Int31/Modpow/Laws.antt =====
-- The loop of `br_i31_modpow` against modular exponentiation.
use bearssl.Common.{
  ℕ, zero, suc, ◌+◌, ◌-◌, ◌*◌, ◌/◌, ◌%◌, ◌^◌, ◌<◌, ◌≡◌, sym, ap, ap₂, ◌∙◌, arith, List, [], ◌∷◌,
  length, All, get_or, if◌then◌else◌, ◌==◌, bit_and, ◌>>>◌,
}
use native.Mathlib.Nat.{pow-zero, pow-suc}
use bearssl.Common.BitLaws.{bit_and-lt}
use bearssl.Ct.{mux}
use bearssl.Ct.Select.{mux_lem}
use bearssl.Int31.{Int31, word_count}
use bearssl.Int31.Value.{IsWord, value, radix}
use bearssl.Int31.Monty.{ninv31, montymul}
use bearssl.Int31.Monty.Inverse.{ninv31_lem}
use bearssl.Int31.Monty.Product.{IsModulus, Fits, montymul-value}
use bearssl.Int31.Modpow.{ccopy, exponent_bit, modpow_loop}
use bearssl.Int31.Modpow.Residues.{Inverse, radix-Inverse, times_residue, cancel}

-- The number that the `n` bits of the exponent from bit `k` on stand for.
abbrev pub exponent : ℕ → ℕ → List ℕ → ℕ
exponent zero k e = 0
exponent (suc n) k e = exponent_bit e k + 2 * exponent n (k + 1) e

ccopy_lem :
    (ctl : ℕ) (d s : List ℕ)
    → ctl < 2
    → length d ≡ length s
    → All IsWord d
    → All IsWord s
    → ccopy ctl d s ≡ (if ctl == 1 then s else d)
unfolding ccopy
ccopy_lem ctl [] [] h e hd hs = ground arith
ccopy_lem ctl [] (x ∷ s) h e hd hs = absurd (omega arith)
ccopy_lem ctl (y ∷ d) [] h e hd hs = absurd (omega arith)
ccopy_lem zero (y ∷ d) (x ∷ s) h e hd hs =
    ap₂ (λ a b. a ∷ b) (mux_lem 0 x y h (omega (arith, hs.0)) (omega (arith, hd.0)))
      (ccopy_lem 0 d s h (omega arith) hd.1 hs.1)
ccopy_lem (suc zero) (y ∷ d) (x ∷ s) h e hd hs =
    ap₂ (λ a b. a ∷ b) (mux_lem 1 x y h (omega (arith, hs.0)) (omega (arith, hd.0)))
      (ccopy_lem 1 d s h (omega arith) hd.1 hs.1)
ccopy_lem (suc (suc ctl)) (y ∷ d) (x ∷ s) h e hd hs = absurd (omega arith)

-- 2 ^ 31 has an inverse modulo an odd number.
word-Inverse : (ws : List ℕ) → All IsWord ws → get_or ws 0 0 % 2 ≡ 1 → Inverse (value ws) (2 ^ 31)
word-Inverse [] h odd = absurd (omega arith)
word-Inverse (w ∷ ws) h odd =
    let inv = ninv31_lem w (omega (arith, h.0)) odd in
    let i = (w * ninv31 w + 1) / 2 ^ 31 in
    record { i = i + value ws * ninv31 w; q = ninv31 w; inverse = omega (arith, inv.0) }

-- The words of a number below the modulus, congruent to `a`.
pub record Stands (m : Int31) (a : ℕ) (x : Int31) : Type 0 where
  pub fits : Fits m x
  pub below : value x.words < value m.words
  pub residue : value x.words % value m.words ≡ a % value m.words

-- A product in which `t` is in Montgomery form.
montymul-Stands :
    (m x t : Int31) (a b : ℕ)
    → IsModulus m
    → Stands m a x
    → Stands m (b * radix (word_count m.header)) t
    → Stands m (a * b) (montymul x t m (ninv31 (get_or m.words 0 0)))
montymul-Stands m x t a b hm hx ht =
    let r = montymul-value x t m hm hx.fits ht.fits (omega (arith, ht.below)) in
    let w = radix (word_count m.header) in
    let top = value m.words in
    record {
      fits = r.2;
      below = r.0;
      residue =
          cancel _ (a * b) w top
            (radix-Inverse top (word_count m.header) (word-Inverse m.words hm.words hm.odd))
            (r.1
              ∙ times_residue (value x.words) a (value t.words) top hx.residue
              ∙ ap (λ (t : ℕ). t % top) {x = a * value t.words} {y = value t.words * a}
                  (omega arith)
              ∙ times_residue (value t.words) (b * w) a top ht.residue
              ∙ ap (λ (t : ℕ). t % top) {x = b * w * a} {y = a * b * w} (omega arith));
    }

-- The same words under another name of the residue, and any header.
moved :
    {m : Int31} {a b header : ℕ} (x : Int31)
    → b ≡ a
    → Stands m a x
    → Stands m b (record { header = header; words = x.words })
moved x e h = rw e (record {
  fits = record { size = h.fits.size; words = h.fits.words };
  below = h.below;
  residue = h.residue;
})

first-pow : (g : ℕ) → g ^ 1 ≡ g
first-pow g = pow-suc g 0 ∙ omega (arith, ap (λ (t : ℕ). t * g) (pow-zero g))

exponent_bit-lt : (e : List ℕ) (k : ℕ) → exponent_bit e k < 2
unfolding exponent_bit
exponent_bit-lt e k =
    bit_and-lt 1 (get_or e (length e - 1 - (k >>> 3)) 0 >>> bit_and k 7) 1 (omega arith)

square-pow : (g c e : ℕ) → g ^ (c + 2 * e) ≡ g ^ c * (g * g) ^ e
square-pow g c zero =
    ap (λ (t : ℕ). g ^ t) {x = c + 2 * 0} {y = c} (omega arith)
    ∙ omega (arith, ap (λ (t : ℕ). g ^ c * t) (pow-zero (g * g)))
square-pow g c (suc e) =
    ap (λ (t : ℕ). g ^ t) {x = c + 2 * suc e} {y = suc (suc (c + 2 * e))} (omega arith)
    ∙ pow-suc g (suc (c + 2 * e))
    ∙ ap (λ (t : ℕ). t * g) (pow-suc g (c + 2 * e))
    ∙ omega (
      arith,
      ap (λ (t : ℕ). t * (g * g)) (square-pow g c e),
      ap (λ (t : ℕ). g ^ c * t) (pow-suc (g * g) e),
    )

-- What the conditional copy leaves.
copied-Stands :
    (m x t : Int31) (a g ctl header : ℕ)
    → ctl < 2
    → Stands m a x
    → Stands m (a * g) t
    → Stands m (a * g ^ ctl) (record { header = header; words = ccopy ctl x.words t.words })
copied-Stands m x t a g ctl header h hx ht =
    let same : length x.words ≡ length t.words = hx.fits.size ∙ sym ht.fits.size in
    rw (ccopy_lem ctl x.words t.words h same hx.fits.words ht.fits.words) (pick ctl h)
  where
    pick :
        (ctl : ℕ)
        → ctl < 2
        → Stands m
            (a * g ^ ctl)
            (record { header = header; words = if ctl == 1 then t.words else x.words })
    pick zero h = moved x (omega (arith, ap (λ (t : ℕ). a * t) (pow-zero g))) hx
    pick (suc zero) h = moved t (ap (λ (t : ℕ). a * t) (first-pow g)) ht
    pick (suc (suc ctl)) h = absurd (omega arith)

-- `br_i31_modpow` from the loop on: with `t1` holding `g` in Montgomery form and `x` holding `a`,
-- both below the odd modulus, `n` turns from bit `k` on leave `a` times `g` to the power of the
-- number that these bits of the exponent make up, modulo `m` and below it.
pub modpow_loop-Stands :
    (m : Int31) (n k : ℕ) (e : List ℕ) (x t1 : Int31) (a g : ℕ)
    → IsModulus m
    → Stands m a x
    → Stands m (g * radix (word_count m.header)) t1
    → Stands m (a * g ^ exponent n k e) (modpow_loop n k e m (ninv31 (get_or m.words 0 0)) x t1)
unfolding modpow_loop
modpow_loop-Stands m zero k e x t1 a g hm hx ht =
    moved x (omega (arith, ap (λ (t : ℕ). a * t) (pow-zero g))) hx
modpow_loop-Stands m (suc n) k e x t1 a g hm hx ht =
    let m0i = ninv31 (get_or m.words 0 0) in
    let ctl = exponent_bit e k in
    let t2 = montymul x t1 m m0i in
    let w = radix (word_count m.header) in
    let copied =
      copied-Stands m x t2 a g ctl (mux ctl t2.header x.header) (exponent_bit-lt e k) hx
        (montymul-Stands m x t1 a g hm hx ht) in
    let square : Stands m (g * g * w) (montymul t1 t1 m m0i) =
      moved (montymul t1 t1 m m0i) (omega arith) (montymul-Stands m t1 t1 (g * w) g hm ht ht) in
    let ih =
      modpow_loop-Stands m n (k + 1) e
        (record { header = mux ctl t2.header x.header; words = ccopy ctl x.words t2.words })
        (montymul t1 t1 m m0i) (a * g ^ ctl) (g * g) hm copied square in
    moved
      (modpow_loop n (k + 1) e m m0i
        (record { header = mux ctl t2.header x.header; words = ccopy ctl x.words t2.words })
        (montymul t1 t1 m m0i))
      (omega (arith, ap (λ (t : ℕ). a * t) (square-pow g ctl (exponent n (k + 1) e)))) ih
