-- ===== src/Int31.antt =====
-- The big integers of src/int/i31_*.c: 31-bit words, least significant first, behind a header
-- word. A record keeps the header `x[0]` apart from the words `x[1]`, `x[2]`, ...
pub mod Value
pub mod AddSub
pub mod Mul
pub mod Zero
pub mod Monty
pub mod Modpow
pub mod Decode
mod Tests
use bearssl.Common.{
  ℕ, zero, suc, ◌+◌, ◌-◌, ◌*◌, ◌/◌, ◌%◌, ◌^◌, List, [], ◌∷◌, ◌>>>◌, ◌<<<◌, u32, u64, sub32, neg32,
  not32, bit_and, bit_or, drop, ◌++◌, take,
}
use bearssl.Ct.{mux}

pub record Int31 : Type 0 where
  pub header : ℕ
  pub words : List ℕ

-- The loop of `br_i31_add` over `n` words, with the carry.
pub add_words : ℕ → List ℕ → List ℕ → ℕ → ℕ → List ℕ × ℕ
add_words (suc n) (aw ∷ a) (bw ∷ b) ctl cc =
    let naw = u32 (aw + bw + cc) in
    let (rest, carry) = add_words n a b ctl (naw >>> 31) in
    (mux ctl (bit_and naw 0x7fffffff) aw ∷ rest, carry)
add_words (suc n) (aw ∷ a) [] ctl cc = (aw ∷ a, cc)
add_words (suc n) [] b ctl cc = ([], cc)
add_words zero a b ctl cc = (a, cc)

-- The loop of `br_i31_sub`, with the borrow.
pub sub_words : ℕ → List ℕ → List ℕ → ℕ → ℕ → List ℕ × ℕ
sub_words (suc n) (aw ∷ a) (bw ∷ b) ctl cc =
    let naw = sub32 (sub32 aw bw) cc in
    let (rest, borrow) = sub_words n a b ctl (naw >>> 31) in
    (mux ctl (bit_and naw 0x7fffffff) aw ∷ rest, borrow)
sub_words (suc n) (aw ∷ a) [] ctl cc = (aw ∷ a, cc)
sub_words (suc n) [] b ctl cc = ([], cc)
sub_words zero a b ctl cc = (a, cc)

-- `u` runs from 1 to `(a[0] + 63) >> 5`, exclusive.
abbrev pub loop_words : ℕ → ℕ
loop_words header = (u32 (header + 63) >>> 5) - 1

-- `br_i31_add` and `br_i31_sub`: `a` after the call, and the returned carry or borrow.
pub add : Int31 → Int31 → ℕ → Int31 × ℕ
unfolding add_words
add a b ctl =
    let (words, cc) = add_words (loop_words a.header) a.words b.words ctl 0 in
    (record a { words = words }, cc)

pub sub : Int31 → Int31 → ℕ → Int31 × ℕ
unfolding sub_words
sub a b ctl =
    let (words, cc) = sub_words (loop_words a.header) a.words b.words ctl 0 in
    (record a { words = words }, cc)

-- The word count `(x[0] + 31) >> 5`.
abbrev pub word_count : ℕ → ℕ
word_count header = u32 (header + 31) >>> 5

-- The loop of `br_i31_iszero`, which joins the words from the top one down.
pub or_words : ℕ → List ℕ → ℕ
or_words (suc n) (w ∷ ws) = bit_or (or_words n ws) w
or_words (suc n) [] = 0
or_words zero ws = 0

-- `br_i31_iszero`
pub iszero : Int31 → ℕ
unfolding or_words
iszero x = let z = or_words (word_count x.header) x.words in not32 (bit_or z (neg32 z)) >>> 31

-- The inner loop of `br_i31_mulacc` over `a`, and the carry that it stores behind the last word.
pub mulacc_row : ℕ → List ℕ → List ℕ → ℕ → List ℕ
mulacc_row f (aw ∷ a) (dw ∷ d) cc =
    let z = u64 (dw + f * aw + cc) in bit_and (u32 z) 0x7fffffff ∷ mulacc_row f a d (z >>> 31)
mulacc_row f (aw ∷ a) [] cc = []
mulacc_row f [] (dw ∷ d) cc = u32 cc ∷ d
mulacc_row f [] [] cc = []

-- The outer loop over `b`: each row starts one word further on.
pub mulacc_rows : List ℕ → List ℕ → List ℕ → List ℕ
mulacc_rows a (f ∷ b) d = elim (mulacc_row f a d 0) [ [] ↦ [] | w ∷ d' ↦ w ∷ mulacc_rows a b d' ]
mulacc_rows a [] d = d

-- `br_i31_mulacc`: `d` after the call.
pub mulacc : Int31 → Int31 → Int31 → Int31
unfolding mulacc_row mulacc_rows
mulacc d a b = record {
  header = u32 (a.header + b.header);
  words =
      mulacc_rows (take (word_count a.header) a.words) (take (word_count b.header) b.words) d.words;
}
