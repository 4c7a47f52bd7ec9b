-- ===== src/Int31/Monty/Reduce.antt =====
-- The two subtractions that end `br_i31_montymul` and `br_i31_from_monty`.
use bearssl.Common.{
  ℕ, zero, suc, ◌+◌, ◌-◌, ◌*◌, ◌<◌, ◌≡◌, refl, sym, ap, ◌∙◌, arith, List, [], ◌∷◌, length, All, ltb,
  bit_or, if◌then◌else◌, ◌>>>◌, sub32, bit_and, Bool, true, false, ◌==◌,
}
use bearssl.Ct.{neq, ct_not}
use bearssl.Ct.{mux}
use bearssl.Ct.Select.{zero-mux}
use bearssl.Ct.Compare.{bit, neq_lem, ct_not_lem}
use bearssl.Common.BitLaws.{bit_or_bits}
use bearssl.Int31.{Int31, sub_words, sub, loop_words}
use bearssl.Int31.AddSub.{SameShape, sub-value}
use bearssl.Int31.Value.{IsWord, value, radix, value-lt}

-- With `ctl` 0 the words stay, and the borrow is that of the subtraction.
sub_words_test :
    (n : ℕ) (a b : List ℕ) (c : ℕ)
    → All IsWord a
    → sub_words n a b 0 c ≡ (a, (sub_words n a b 1 c).1)
unfolding sub_words
sub_words_test zero a b c h = refl
sub_words_test (suc n) [] b c h = refl
sub_words_test (suc n) (aw ∷ a) [] c h = refl
sub_words_test (suc n) (aw ∷ a) (bw ∷ b) c h =
    let naw = sub32 (sub32 aw bw) c in
    let ih = sub_words_test n a b (naw >>> 31) h.1 in
    let keep : mux 0 (bit_and naw 0x7fffffff) aw ≡ aw = zero-mux (bit_and naw 0x7fffffff) aw in
    rw (keep, ih) refl

-- What the conditional subtraction makes of the number `value w + radix n * dh`, below twice `top`.
reduced :
    (r w top big high borrow : ℕ)
    → w < big
    → w + big * high < 2 * top
    → top < big
    → high < 2
    → borrow < 2
    → r + top ≡ w + big * borrow
    → borrow ≡ (if ltb w top then 1 else 0)
    → let result = if (if ltb 0 high then true else borrow == 0) then r else w in
      (result < top)
      × (w + big * high
          ≡ result + top * (if (if ltb 0 high then true else borrow == 0) then 1 else 0))
reduced r w top big zero borrow hw h ht hh hb e b = ground arith
reduced r w top big (suc zero) borrow hw h ht hh hb e b = ground arith
reduced r w top big (suc (suc high)) borrow hw h ht hh hb e b = absurd (omega arith)

-- The words are those of a number below `top` that differs from `total` by a multiple of `top`.
pub record Reduced (total top : ℕ) (ws : List ℕ) : Type 0 where
  pub below : value ws < top
  pub times : ℕ
  pub sum : total ≡ value ws + times * top
  pub words : All IsWord ws

-- the control bit of the last subtraction
last_bit :
    (high borrow : ℕ)
    → high < 2
    → borrow < 2
    → bit_or (neq high 0) (ct_not borrow) ≡ bit (if ltb 0 high then true else borrow == 0)
last_bit zero borrow hh hb = ground (
  arith,
  neq_lem 0 0 (omega arith) (omega arith),
  ct_not_lem borrow hb,
  bit_or_bits 0 (1 - borrow) (omega arith) (omega arith),
)
last_bit (suc zero) borrow hh hb = ground (
  arith,
  neq_lem 1 0 (omega arith) (omega arith),
  ct_not_lem borrow hb,
  bit_or_bits 1 (1 - borrow) (omega arith) (omega arith),
)
last_bit (suc (suc high)) borrow hh hb = absurd (omega arith)

length-sub_words : (n : ℕ) (a b : List ℕ) (ctl c : ℕ) → length (sub_words n a b ctl c).0 ≡ length a
unfolding sub_words
length-sub_words zero a b ctl c = refl
length-sub_words (suc n) [] b ctl c = refl
length-sub_words (suc n) (aw ∷ a) [] ctl c = refl
length-sub_words (suc n) (aw ∷ a) (bw ∷ b) ctl c =
    ap suc (length-sub_words n a b ctl (sub32 (sub32 aw bw) c >>> 31))

pub length-sub : (a b : Int31) (ctl : ℕ) → length (sub a b ctl).0.words ≡ length a.words
unfolding sub
length-sub a b ctl = length-sub_words (loop_words a.header) a.words b.words ctl 0

sub-test : (d m : Int31) → All IsWord d.words → sub d m 0 ≡ (d, (sub d m 1).1)
unfolding sub
sub-test d m h = rw (sub_words_test (loop_words d.header) d.words m.words 0 h) refl

borrow-lt : (b : Bool) → (if b then 1 else 0) < 2
borrow-lt true = omega arith
borrow-lt false = omega arith

-- `d`, with its high bit, is less than `m` once `m` is subtracted unless it is below `m`.
pub final_sub :
    (d m : Int31) (high : ℕ)
    → SameShape d m
    → high < 2
    → value d.words + radix (loop_words d.header) * high < 2 * value m.words
    → Reduced
        (value d.words + radix (loop_words d.header) * high)
        (value m.words)
        (sub d m (bit_or (neq high 0) (ct_not (sub d m 0).1))).0.words
final_sub d m high shape hh below =
    let diff = sub-value d m shape in
    let borrow = (sub d m 1).1 in
    let small : borrow < 2 = rw diff.1 (borrow-lt (ltb (value d.words) (value m.words))) in
    let ctl : bit_or (neq high 0) (ct_not (sub d m 0).1)
        ≡ bit (if ltb 0 high then true else borrow == 0) =
      ap (λ t. bit_or (neq high 0) (ct_not t.1)) (sub-test d m shape.small_a)
      ∙ last_bit high borrow hh small in
    let top : value m.words < radix (loop_words d.header) =
      rw (sym shape.words_b) (value-lt m.words shape.small_b) in
    let size : value d.words < radix (loop_words d.header) =
      rw (sym shape.words_a) (value-lt d.words shape.small_a) in
    rw ctl (
      select (if ltb 0 high then true else borrow == 0) (
        reduced (value (sub d m 1).0.words) (value d.words) (value m.words)
          (radix (loop_words d.header)) high borrow size below top hh small (omega (arith, diff.0))
          diff.1))
  where
    select :
        (b : Bool)
        → (let result = if b then value (sub d m 1).0.words else value d.words in
            (result < value m.words)
            × (value d.words + radix (loop_words d.header) * high
                ≡ result + value m.words * (if b then 1 else 0)))
        → Reduced
            (value d.words + radix (loop_words d.header) * high)
            (value m.words)
            (sub d m (bit b)).0.words
    select true (h, e) = record {
      below = h;
      times = 1;
      sum = omega (arith, e);
      words = (sub-value d m shape).2;
    }
    select false (h, e) =
        rw (sub-test d m shape.small_a)
          (record { below = h; times = 0; sum = omega (arith, e); words = shape.small_a })
