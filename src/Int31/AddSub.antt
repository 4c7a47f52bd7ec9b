-- ===== src/Int31/AddSub.antt =====
-- `br_i31_add` and `br_i31_sub` on the numbers that the words stand for.
use bearssl.Common.{
  ℕ, zero, suc, ◌+◌, ◌*◌, ◌/◌, ◌%◌, ◌^◌, ◌<◌, ◌≡◌, arith, List, [], ◌∷◌, length, All, u32, sub32,
  bit_and, ◌==◌, ltb, if◌then◌else◌,
}
use bearssl.Common.BitLaws.{bit_and_mask}
use bearssl.Ct.{mux}
use bearssl.Ct.Select.{mux_lem}
use bearssl.Int31.{Int31, add_words, sub_words, add, sub, loop_words}
use bearssl.Int31.Value.{IsWord, value, radix, value-lt}

-- one word of either loop, with `ctl` 0 or 1
mux_word :
    (ctl naw aw : ℕ)
    → ctl < 2
    → naw < 2 ^ 32
    → IsWord aw
    → mux ctl (bit_and naw 0x7fffffff) aw ≡ (if ctl == 1 then naw % 2 ^ 31 else aw)
mux_word ctl naw aw h small is_word =
    ground (arith, bit_and_mask 31 naw, mux_lem ctl (bit_and naw 0x7fffffff) aw)

-- What a loop over `n` words leaves: as many words, and a carry bit.
abbrev Sound : ℕ → List ℕ × ℕ → Type 0
Sound n r = (r.1 < 2) × (length r.0 ≡ n) × All IsWord r.0

add_words_lem :
    (n : ℕ) (a b : List ℕ) (c : ℕ)
    → length a ≡ n
    → length b ≡ n
    → All IsWord a
    → All IsWord b
    → c < 2
    → (value (add_words n a b 1 c).0 + radix n * (add_words n a b 1 c).1 ≡ value a + value b + c)
      × Sound n (add_words n a b 1 c)
unfolding add_words
add_words_lem zero [] [] c la lb ha hb hc = (omega arith, omega arith)
add_words_lem zero (x ∷ a) b c la lb ha hb hc = absurd (omega arith)
add_words_lem zero [] (x ∷ b) c la lb ha hb hc = absurd (omega arith)
add_words_lem (suc n) [] b c la lb ha hb hc = absurd (omega arith)
add_words_lem (suc n) (aw ∷ a) [] c la lb ha hb hc = absurd (omega arith)
add_words_lem (suc n) (aw ∷ a) (bw ∷ b) c la lb ha hb hc =
    let naw = u32 (aw + bw + c) in
    let word = mux_word 1 naw aw (omega arith) (omega arith) ha.0 in
    let ih =
      add_words_lem n a b (naw / 2 ^ 31) (omega arith) (omega arith) ha.1 hb.1 (omega arith) in
    rw word (omega arith, (omega arith, omega arith, (omega arith, ih.1.2)))

sub_words_lem :
    (n : ℕ) (a b : List ℕ) (c : ℕ)
    → length a ≡ n
    → length b ≡ n
    → All IsWord a
    → All IsWord b
    → c < 2
    → (value (sub_words n a b 1 c).0 + value b + c ≡ value a + radix n * (sub_words n a b 1 c).1)
      × Sound n (sub_words n a b 1 c)
unfolding sub_words
sub_words_lem zero [] [] c la lb ha hb hc = (omega arith, omega arith)
sub_words_lem zero (x ∷ a) b c la lb ha hb hc = absurd (omega arith)
sub_words_lem zero [] (x ∷ b) c la lb ha hb hc = absurd (omega arith)
sub_words_lem (suc n) [] b c la lb ha hb hc = absurd (omega arith)
sub_words_lem (suc n) (aw ∷ a) [] c la lb ha hb hc = absurd (omega arith)
sub_words_lem (suc n) (aw ∷ a) (bw ∷ b) c la lb ha hb hc =
    let naw = sub32 (sub32 aw bw) c in
    let word = mux_word 1 naw aw (omega arith) (omega arith) ha.0 in
    let ih =
      sub_words_lem n a b (naw / 2 ^ 31) (omega arith) (omega arith) ha.1 hb.1 (omega arith) in
    rw word (omega arith, (omega arith, omega arith, (omega arith, ih.1.2)))

-- A result below the radix determines the borrow.
borrow_bit :
    (r x y top c : ℕ) → r < top → c < 2 → r + y ≡ x + top * c → c ≡ (if ltb x y then 1 else 0)
borrow_bit r x y top zero h hc e = ground arith
borrow_bit r x y top (suc zero) h hc e = ground arith
borrow_bit r x y top (suc (suc c)) h hc e = absurd (omega arith)

-- Both operands have the words that the header announces.
pub record SameShape (a b : Int31) : Type 0 where
  pub words_a : length a.words ≡ loop_words a.header
  pub words_b : length b.words ≡ loop_words a.header
  pub small_a : All IsWord a.words
  pub small_b : All IsWord b.words

-- `br_i31_add` with `ctl` 1 adds the numbers: the words hold the sum below the radix, and the
-- returned carry is what is beyond.
pub add-value :
    (a b : Int31)
    → SameShape a b
    → (value (add a b 1).0.words + radix (loop_words a.header) * (add a b 1).1
        ≡ value a.words + value b.words)
      × ((add a b 1).1 < 2)
      × All IsWord (add a b 1).0.words
unfolding add
add-value a b shape =
    let r =
      add_words_lem (loop_words a.header) a.words b.words 0 shape.words_a shape.words_b
        shape.small_a shape.small_b (omega arith) in
    (omega arith, r.1.0, r.1.2)

-- `br_i31_sub` with `ctl` 1 subtracts: the words hold the difference, and the returned borrow is 1
-- exactly when `a` is below `b`; then the radix was added.
pub sub-value :
    (a b : Int31)
    → SameShape a b
    → (value (sub a b 1).0.words + value b.words
        ≡ value a.words + radix (loop_words a.header) * (sub a b 1).1)
      × ((sub a b 1).1 ≡ (if ltb (value a.words) (value b.words) then 1 else 0))
      × All IsWord (sub a b 1).0.words
unfolding sub
sub-value a b shape =
    let r =
      sub_words_lem (loop_words a.header) a.words b.words 0 shape.words_a shape.words_b
        shape.small_a shape.small_b (omega arith) in
    let words = (sub_words (loop_words a.header) a.words b.words 1 0).0 in
    let below : value words < radix (loop_words a.header) = rw r.1.1 at (value-lt words r.1.2) in
    (
      omega arith,
      borrow_bit (value words) (value a.words) (value b.words) (radix (loop_words a.header)) _ below
          r.1.0 (omega arith),
      r.1.2,
    )
