-- ===== src/Int31/Monty/Return.antt =====
-- `br_i31_from_monty` against the division by the radix.
use bearssl.Common.{
  ℕ, suc, ◌+◌, ◌-◌, ◌*◌, ◌/◌, ◌%◌, ◌^◌, ◌≤◌, ◌<◌, ◌≡◌, sym, ap, ◌∙◌, arith, length, get_or, bit_or,
  Bool-cases, ltb, inl, inr,
}
use native.Mathlib.Nat.{mul-le-mul}
use bearssl.Common.Bits.{zero-bit_or}
use bearssl.Ct.{neq, ct_not}
use bearssl.Ct.Compare.{neq_lem}
use bearssl.Int31.{Int31, sub, loop_words, word_count}
use bearssl.Int31.AddSub.{SameShape}
use bearssl.Int31.Value.{value, radix, value-lt}
use bearssl.Int31.Monty.{ninv31, fmont_loop, from_monty}
use bearssl.Int31.Monty.Inverse.{ninv31_lem}
use bearssl.Int31.Monty.Back.{fmont_loop-Shifted}
use bearssl.Int31.Monty.Reduce.{final_sub, length-sub}
use bearssl.Int31.Monty.Product.{
  IsModulus, Fits, same_count, odd-pos, residue, nonempty, first_small,
}

-- The turns leave at most the modulus.
at_most : (r out x rest top : ℕ) → r * out ≡ x + rest * top → rest < r → x < r → out ≤ top
at_most r out x rest top e hr hx = elim (Bool-cases (ltb top out)) [
  | inl h ↦ absurd (too_big (ground (arith, h)))
  | inr h ↦ ground (arith, h)
]
  where
    too_big : top < out → ⊥
    too_big h =
        let p = mul-le-mul {n₁ = r} {m₁ = suc top} {n₂ = r} {m₂ = out} (omega arith) h in
        let q =
          mul-le-mul {n₁ = suc rest} {m₁ = top} {n₂ = r} {m₂ = top} (omega arith) (omega arith) in
        omega (arith, e, p, q)

from_monty_lem :
    (n : ℕ) (x m : Int31)
    → IsModulus m
    → Fits m x
    → x.header ≡ m.header
    → word_count m.header ≡ suc n
    → let r = from_monty x m (ninv31 (get_or m.words 0 0)) in
      (value r.words < value m.words)
      × ((value r.words * radix (suc n)) % value m.words ≡ value x.words % value m.words)
      × Fits m r
unfolding from_monty
from_monty_lem n x m hm hx same e =
    let m0 = get_or m.words 0 0 in
    let k = word_count m.header in
    let d = record x { words = fmont_loop k (ninv31 m0) x.words m.words } in
    let inv = ninv31_lem m0 (first_small m.words hm.words) hm.odd in
    let r =
      fmont_loop-Shifted n (ninv31 m0) ((m0 * ninv31 m0 + 1) / 2 ^ 31) k x.words m.words
        (hx.size ∙ e) (hm.size ∙ e) hx.words hm.words (omega (arith, inv.0)) in
    let width : radix k ≡ radix (suc n) = ap radix e in
    let sum : radix (suc n) * value d.words ≡ value x.words + r.rest * value m.words =
      sym (ap (λ (t : ℕ). t * value d.words) width) ∙ r.sum in
    let rest_lt : r.rest < radix (suc n) = omega (arith, width, r.small) in
    let x_lt : value x.words < radix (suc n) = rw (hx.size ∙ e) at (value-lt x.words hx.words) in
    let le =
      at_most (radix (suc n)) (value d.words) (value x.words) r.rest (value m.words) sum rest_lt
        x_lt in
    let count : loop_words x.header ≡ suc n =
      ap loop_words same ∙ same_count m.header hm.header ∙ e in
    let shape : SameShape d m = record {
      words_a = r.size ∙ sym count;
      words_b = hm.size ∙ e ∙ sym count;
      small_a = r.words;
      small_b = hm.words;
    } in
    let ctl : bit_or (neq 0 0) (ct_not (sub d m 0).1) ≡ ct_not (sub d m 0).1 =
      ap (λ t. bit_or t (ct_not (sub d m 0).1)) (neq_lem 0 0 (omega arith) (omega arith))
      ∙ zero-bit_or (ct_not (sub d m 0).1) in
    let none : radix (loop_words x.header) * 0 ≡ 0 = omega arith in
    let last =
      rw ctl at
        (final_sub d m 0 shape (omega arith) (omega (arith, le, none, odd-pos m.words hm.odd))) in
    (
      last.below,
      residue _ last.times (value d.words) (value m.words) (radix (suc n)) (value x.words) r.rest
          (omega (arith, last.sum, none)) sum,
      record { size = length-sub d m _ ∙ r.size ∙ sym e; words = last.words },
    )

-- `br_i31_from_monty`, with the inverse that `br_i31_ninv31` gives, on an odd modulus `m` with the
-- words that its header announces (below 2 ^ 32 - 63) and on any number `x` with the same header
-- and as many words: the result is below `m`
-- with as many words, and times the radix it is `x` modulo `m`.
pub from_monty-value :
    (x m : Int31)
    → IsModulus m
    → Fits m x
    → x.header ≡ m.header
    → let r = from_monty x m (ninv31 (get_or m.words 0 0)) in
      (value r.words < value m.words)
      × ((value r.words * radix (word_count m.header)) % value m.words
          ≡ value x.words % value m.words)
      × Fits m r
from_monty-value x m hm hx same =
    let e = sym hm.size ∙ nonempty m.words hm.odd in
    let r = from_monty_lem (length m.words - 1) x m hm hx same e in (r.0, rw e r.1, r.2)
