-- ===== src/Int31/Monty/Product.antt =====
-- `br_i31_montymul` against modular multiplication.
use bearssl.Common.{
  ℕ, suc, ◌+◌, ◌-◌, ◌*◌, ◌/◌, ◌%◌, ◌^◌, ◌≤◌, ◌<◌, ◌≡◌, sym, ap, ◌∙◌, arith, List, [], ◌∷◌, length,
  All, get_or, replicate, length-replicate,
}
use native.Mathlib.Nat.{add-mul-mod_self_right}
use bearssl.Int31.{Int31, loop_words, word_count}
use bearssl.Int31.AddSub.{SameShape}
use bearssl.Int31.Value.{IsWord, value, radix}
use bearssl.Int31.Monty.{ninv31, mont_loop, montymul}
use bearssl.Int31.Monty.Inverse.{ninv31_lem}
use bearssl.Int31.Monty.Zeros.{zeros-IsWord, zeros-value}
use bearssl.Int31.Monty.Loop.{mont_loop-Divided}
use bearssl.Int31.Monty.Reduce.{final_sub, length-sub}

-- An odd modulus, with the words that its header announces.
pub record IsModulus (m : Int31) : Type 0 where
  pub header : m.header + 63 < 2 ^ 32
  pub size : length m.words ≡ word_count m.header
  pub words : All IsWord m.words
  pub odd : get_or m.words 0 0 % 2 ≡ 1

-- An operand that goes with it.
pub record Fits (m x : Int31) : Type 0 where
  pub size : length x.words ≡ word_count m.header
  pub words : All IsWord x.words

-- The loops of `br_i31_sub` and of the callers agree on the number of words.
pub same_count : (h : ℕ) → h + 63 < 2 ^ 32 → loop_words h ≡ word_count h
same_count h small = omega arith

pub odd-pos : (ws : List ℕ) → get_or ws 0 0 % 2 ≡ 1 → 0 < value ws
odd-pos [] h = absurd (omega arith)
odd-pos (w ∷ ws) h = omega arith

-- One equation for the residues.
pub residue :
    (r times total top k x rest : ℕ)
    → total ≡ r + times * top
    → k * total ≡ x + rest * top
    → (r * k) % top ≡ x % top
residue r times total top k x rest e f =
    sym (add-mul-mod_self_right (r * k) (times * k) top)
    ∙ ap (λ (t : ℕ). t % top) (scaled)
    ∙ add-mul-mod_self_right x rest top
  where
    scaled : r * k + times * k * top ≡ x + rest * top
    scaled = omega (arith, ap (λ (t : ℕ). k * t) e, f)

pub first_small : (ws : List ℕ) → All IsWord ws → get_or ws 0 0 < 2 ^ 32
first_small [] h = omega arith
first_small (w ∷ ws) h = omega (arith, h.0)

montymul_lem :
    (n : ℕ) (x y m : Int31)
    → IsModulus m
    → Fits m x
    → Fits m y
    → value y.words ≤ value m.words
    → word_count m.header ≡ suc n
    → let r = montymul x y m (ninv31 (get_or m.words 0 0)) in
      (value r.words < value m.words)
      × ((value r.words * radix (suc n)) % value m.words
          ≡ (value x.words * value y.words) % value m.words)
      × Fits m r
unfolding montymul
montymul_lem n x y m hm hx hy le e =
    let m0 = get_or m.words 0 0 in
    let loop =
      mont_loop x.words (ninv31 m0) (replicate (word_count m.header) 0) y.words m.words 0 in
    let d : Int31 = record { header = m.header; words = loop.0 } in
    let none : value (replicate (word_count m.header) 0) ≡ 0 = zeros-value (word_count m.header) in
    let inv = ninv31_lem m0 (first_small m.words hm.words) hm.odd in
    let start : value (replicate (word_count m.header) 0) + radix (suc n) * 0 < 2 * value m.words =
      omega (arith, none, odd-pos m.words hm.odd) in
    let q = (m0 * ninv31 m0 + 1) / 2 ^ 31 in
    let r =
      mont_loop-Divided n (ninv31 m0) q 0 x.words (replicate (word_count m.header) 0) y.words
        m.words (length-replicate (word_count m.header) 0 ∙ e) (hy.size ∙ e) (hm.size ∙ e) hx.words
        (zeros-IsWord (word_count m.header)) hy.words hm.words (omega (arith, inv.0)) (omega arith)
        le start in
    let count : loop_words m.header ≡ suc n = same_count m.header hm.header ∙ e in
    let shape : SameShape d m = record {
      words_a = r.size ∙ sym count;
      words_b = hm.size ∙ e ∙ sym count;
      small_a = r.words;
      small_b = hm.words;
    } in
    let last = final_sub d m loop.1 shape r.high (rw count r.below) in
    let width : radix (length x.words) ≡ radix (suc n) = ap radix (hx.size ∙ e) in
    let zero_start : value (replicate (word_count m.header) 0)
          + radix (suc n) * 0
          + value x.words * value y.words
        ≡ value x.words * value y.words =
      omega (arith, none) in
    (
      last.below,
      residue _ last.times (value loop.0 + radix (suc n) * loop.1) (value m.words) (radix (suc n))
          (value x.words * value y.words) r.rest
          (ap (λ t. value loop.0 + radix t * loop.1) (sym count) ∙ last.sum)
          (rw (width, zero_start) at r.sum),
      record { size = length-sub d m _ ∙ r.size ∙ sym e; words = last.words },
    )

-- The word count of a modulus is a successor.
pub nonempty : (ws : List ℕ) → get_or ws 0 0 % 2 ≡ 1 → length ws ≡ suc (length ws - 1)
nonempty [] h = absurd (omega arith)
nonempty (w ∷ ws) h = omega arith

-- `br_i31_montymul`, with the inverse that `br_i31_ninv31` gives, on an odd modulus `m` with the
-- words that its header announces (below 2 ^ 32 - 63) and on operands with as many words, `y` at
-- most `m`: the result is below `m` with as many words, and times the radix it is the product modulo `m`.
pub montymul-value :
    (x y m : Int31)
    → IsModulus m
    → Fits m x
    → Fits m y
    → value y.words ≤ value m.words
    → let r = montymul x y m (ninv31 (get_or m.words 0 0)) in
      (value r.words < value m.words)
      × ((value r.words * radix (word_count m.header)) % value m.words
          ≡ (value x.words * value y.words) % value m.words)
      × Fits m r
montymul-value x y m hm hx hy le =
    let e = sym hm.size ∙ nonempty m.words hm.odd in
    let r = montymul_lem (length m.words - 1) x y m hm hx hy le e in (r.0, rw e r.1, r.2)
