-- ===== src/Int31/Modpow/Exponent.antt =====
-- The bits that `br_i31_modpow` takes from the exponent's bytes, and the exponent as a number.
use bearssl.Common.{
  ℕ, zero, suc, ◌+◌, ◌-◌, ◌*◌, ◌/◌, ◌%◌, ◌^◌, ◌≤◌, ◌<◌, ◌≡◌, refl, ap, ◌∙◌, arith, List, [], ◌∷◌,
  length, All, get_or, bit_and, ◌>>>◌, IsByte,
}
use native.Mathlib.Nat.{pow-suc}
use bearssl.Common.BitLaws.{bit_and_mask}
use bearssl.Int31.{Int31, word_count}
use bearssl.Int31.Value.{radix, value}
use bearssl.Int31.Monty.{ninv31}
use bearssl.Int31.Monty.Product.{IsModulus}
use bearssl.Int31.Modpow.{exponent_bit, modpow_loop, modpow_turns, modpow_main}
use bearssl.Int31.Modpow.Laws.{Stands, exponent, modpow_loop-Stands}

-- The number that bytes stand for, the most significant first.
abbrev pub be_value : List ℕ → ℕ
be_value [] = 0
be_value (b ∷ bs) = be_value bs + 2 ^ (8 * length bs) * b

exponent-add :
    (n l k : ℕ) (e : List ℕ) → exponent (n + l) k e ≡ exponent n k e + 2 ^ n * exponent l (k + n) e
exponent-add zero l k e =
    ap (λ t. exponent t k e) {x = 0 + l} {y = l} (omega arith)
    ∙ omega (arith, ap (λ t. exponent l t e) {x = k + 0} {y = k} (omega arith))
exponent-add (suc n) l k e =
    ap (λ t. exponent t k e) {x = suc n + l} {y = suc (n + l)} (omega arith)
    ∙ omega (
      arith,
      exponent-add n l (k + 1) e,
      ap (λ (t : ℕ). 2 ^ n * exponent l t e) {x = k + 1 + n} {y = k + suc n} (omega arith),
      ap (λ (t : ℕ). t * exponent l (k + suc n) e) (pow-suc 2 n),
    )

-- The bits of the bytes after the first do not depend on it.
bit_rest : (b k : ℕ) (bs : List ℕ) → k < 8 * length bs → exponent_bit (b ∷ bs) k ≡ exponent_bit bs k
unfolding exponent_bit
bit_rest b k bs h =
    ap (λ t. bit_and (get_or (b ∷ bs) t 0 >>> bit_and k 7) 1) {x = length (b ∷ bs) - 1 - (k >>> 3)}
      {y = suc (length bs - 1 - (k >>> 3))} (omega arith)

rest : (b n k : ℕ) (bs : List ℕ) → k + n ≤ 8 * length bs → exponent n k (b ∷ bs) ≡ exponent n k bs
rest b zero k bs h = refl
rest b (suc n) k bs h =
    omega (arith, bit_rest b k bs (omega arith), rest b n (k + 1) bs (omega arith))

-- bit `i` of the first byte
first_bit :
    (b i : ℕ) (bs : List ℕ) (k : ℕ)
    → k ≡ 8 * length bs + i
    → i < 8
    → exponent_bit (b ∷ bs) k ≡ b / 2 ^ i % 2
unfolding exponent_bit
first_bit b i bs k e h =
    ap (λ t. bit_and (get_or (b ∷ bs) t 0 >>> bit_and k 7) 1) {x = length (b ∷ bs) - 1 - (k >>> 3)}
      {y = 0} (omega arith)
    ∙ ap (λ t. bit_and (b >>> t) 1) {x = bit_and k 7} {y = i} (bit_and_mask 3 k ∙ omega arith)
    ∙ bit_and_mask 1 (b >>> i)

first_byte : (b : ℕ) (bs : List ℕ) → IsByte b → exponent 8 (8 * length bs) (b ∷ bs) ≡ b
first_byte b bs h = omega (
  arith,
  first_bit b 0 bs (8 * length bs) (omega arith) (omega arith),
  first_bit b 1 bs (8 * length bs + 1) refl (omega arith),
  first_bit b 2 bs (8 * length bs + 1 + 1) (omega arith) (omega arith),
  first_bit b 3 bs (8 * length bs + 1 + 1 + 1) (omega arith) (omega arith),
  first_bit b 4 bs (8 * length bs + 1 + 1 + 1 + 1) (omega arith) (omega arith),
  first_bit b 5 bs (8 * length bs + 1 + 1 + 1 + 1 + 1) (omega arith) (omega arith),
  first_bit b 6 bs (8 * length bs + 1 + 1 + 1 + 1 + 1 + 1) (omega arith) (omega arith),
  first_bit b 7 bs (8 * length bs + 1 + 1 + 1 + 1 + 1 + 1 + 1) (omega arith) (omega arith),
)

-- All the bits make up the number.
exponent-be_value : (e : List ℕ) → All IsByte e → exponent (8 * length e) 0 e ≡ be_value e
exponent-be_value [] h = refl
exponent-be_value (b ∷ bs) h =
    ap (λ t. exponent t 0 (b ∷ bs)) {x = 8 * length (b ∷ bs)} {y = 8 * length bs + 8} (omega arith)
    ∙ exponent-add (8 * length bs) 8 0 (b ∷ bs)
    ∙ omega (
      arith,
      rest b (8 * length bs) 0 bs (omega arith),
      exponent-be_value bs h.1,
      ap (λ (t : ℕ). 2 ^ (8 * length bs) * exponent 8 t (b ∷ bs)) {x = 0 + 8 * length bs}
          {y = 8 * length bs} (omega arith),
      ap (λ (t : ℕ). 2 ^ (8 * length bs) * t) (first_byte b bs h.0),
    )

-- The loop of `br_i31_modpow` over all the bits of the exponent's bytes, with the inverse that
-- `br_i31_ninv31` gives and an odd modulus `m` with the words that its header announces (below
-- 2 ^ 32 - 63): from the number 1 in `x` and `g` in Montgomery form in `t1`, both with as many
-- words and below `m`, it leaves `g` to the power of the exponent modulo `m`, below `m`.
pub modpow_loop-value :
    (m : Int31) (e : List ℕ) (x t1 : Int31) (g : ℕ)
    → IsModulus m
    → All IsByte e
    → Stands m 1 x
    → Stands m (g * radix (word_count m.header)) t1
    → let r = modpow_loop (8 * length e) 0 e m (ninv31 (get_or m.words 0 0)) x t1 in
      (value r.words < value m.words)
      × (value r.words % value m.words ≡ g ^ be_value e % value m.words)
modpow_loop-value m e x t1 g hm he hx ht =
    let r = modpow_loop-Stands m (8 * length e) 0 e x t1 1 g hm hx ht in
    (
      r.below,
      r.residue
          ∙ ap (λ (t : ℕ). t % value m.words) {x = 1 * g ^ exponent (8 * length e) 0 e}
              {y = g ^ be_value e} (omega arith ∙ ap (λ (t : ℕ). g ^ t) (exponent-be_value e he)),
    )

-- Below 2 ^ 29 bytes the source's count is that of all the bits.
pub modpow_main-loop :
    (e : List ℕ) (m x t1 : Int31) (m0i : ℕ)
    → length e < 2 ^ 29
    → modpow_main e m m0i x t1 ≡ modpow_loop (8 * length e) 0 e m m0i x t1
unfolding modpow_main
modpow_main-loop e m x t1 m0i h =
    ap (λ n. modpow_loop n 0 e m m0i x t1) {x = modpow_turns e} {y = 8 * length e} (omega arith)
