-- ===== src/Int31/Mul.antt =====
-- `br_i31_mulacc` on the numbers that the words stand for.
use bearssl.Common.{
  ◌%◌, ◌<◌, if◌then◌else◌, leb, ℕ, suc, ◌+◌, ◌-◌, ◌*◌, ◌/◌, ◌^◌, ◌≤◌, ◌≡◌, refl, ap, sym, ◌∙◌,
  arith, List, [], ◌∷◌, ◌++◌, length, take, drop, length-take, length-drop, take-append-drop,
  take-append_at, drop-append_at, length-take_all, ap₂, All, u32, u64, bit_and,
}
use native.Mathlib.Nat.{mul-le-mul}
use bearssl.Common.BitLaws.{bit_and_mask}
use bearssl.Int31.{Int31, mulacc_row, mulacc_rows, mulacc, word_count}
use bearssl.Int31.Value.{IsWord, value}

-- One step of the inner loop: the word stored and the carry make up the sum, and nothing wraps.
row_step :
    (f aw dw c : ℕ)
    → IsWord f
    → IsWord aw
    → IsWord dw
    → IsWord c
    → let z = u64 (dw + f * aw + c) in
      (bit_and (u32 z) 0x7fffffff + 2 ^ 31 * (z / 2 ^ 31) ≡ dw + f * aw + c)
      × IsWord (z / 2 ^ 31)
      × IsWord (bit_and (u32 z) 0x7fffffff)
row_step f aw dw c hf ha hd hc =
    let p : f * aw ≤ (2 ^ 31 - 1) * (2 ^ 31 - 1) =
      mul-le-mul {n₁ = f} {m₁ = aw} {n₂ = 2 ^ 31 - 1} {m₂ = 2 ^ 31 - 1} (omega arith)
        (omega arith) in
    let mask = bit_and_mask 31 (u32 (u64 (dw + f * aw + c))) in
    (omega (arith, mask), omega arith, omega (arith, mask))

-- A row over `a` on top of as many words of `d`: the next word of `d` is overwritten by the carry,
-- and the rest is kept.
record Row (f : ℕ) (a low rest out : List ℕ) (c : ℕ) : Type 0 where
  row : List ℕ
  shape : out ≡ row ++ rest
  size : length row ≡ suc (length a)
  total : value row ≡ value low + f * value a + c
  words : All IsWord row

mulacc_row-Row :
    (f : ℕ) (a low : List ℕ) (g : ℕ) (rest : List ℕ) (c : ℕ)
    → length low ≡ length a
    → IsWord f
    → All IsWord a
    → All IsWord low
    → IsWord c
    → Row f a low rest (mulacc_row f a (low ++ (g ∷ rest)) c) c
unfolding mulacc_row
mulacc_row-Row f [] [] g rest c e hf ha hl hc = record {
  row = u32 c ∷ [];
  shape = refl;
  size = refl;
  total = omega arith;
  words = (omega arith, tt);
}
mulacc_row-Row f [] (x ∷ low) g rest c e hf ha hl hc = absurd (omega arith)
mulacc_row-Row f (aw ∷ a) [] g rest c e hf ha hl hc = absurd (omega arith)
mulacc_row-Row f (aw ∷ a) (dw ∷ low) g rest c e hf ha hl hc =
    let z = u64 (dw + f * aw + c) in
    let step = row_step f aw dw c hf ha.0 hl.0 hc in
    let ih = mulacc_row-Row f a low g rest (z / 2 ^ 31) (omega arith) hf ha.1 hl.1 step.1 in
    record {
      row = bit_and (u32 z) 0x7fffffff ∷ ih.row;
      shape = ap (λ t. bit_and (u32 z) 0x7fffffff ∷ t) ih.shape;
      size = ap suc ih.size;
      total = omega (arith, step.0, ih.total);
      words = (step.2, ih.words);
    }

-- The whole product on top of `low`, with `extra` words behind.
record Rows (a b low extra out : List ℕ) : Type 0 where
  digits : List ℕ
  shape : out ≡ digits ++ extra
  size : length digits ≡ length a + length b
  total : value digits ≡ value low + value a * value b
  words : All IsWord digits

mulacc_rows-Rows :
    (a b low room extra : List ℕ)
    → length low ≡ length a
    → length room ≡ length b
    → All IsWord a
    → All IsWord b
    → All IsWord low
    → Rows a b low extra (mulacc_rows a b (low ++ (room ++ extra)))
unfolding mulacc_rows
mulacc_rows-Rows a [] low [] extra el er ha hb hl = record {
  digits = low;
  shape = refl;
  size = omega arith;
  total = omega arith;
  words = hl;
}
mulacc_rows-Rows a [] low (g ∷ room) extra el er ha hb hl = absurd (omega arith)
mulacc_rows-Rows a (f ∷ b) low [] extra el er ha hb hl = absurd (omega arith)
mulacc_rows-Rows a (f ∷ b) low (g ∷ room) extra el er ha hb hl =
    go first.row first.shape first.size first.total first.words
      (λ t e h. mulacc_rows-Rows a b t room extra e (omega arith) ha hb.1 h)
  where
    first : Row f a low (room ++ extra) (mulacc_row f a (low ++ (g ∷ (room ++ extra))) 0) 0
    first = mulacc_row-Row f a low g (room ++ extra) 0 el hb.0 ha hl (omega arith)

    go :
        (row : List ℕ)
        → mulacc_row f a (low ++ (g ∷ (room ++ extra))) 0 ≡ row ++ (room ++ extra)
        → length row ≡ suc (length a)
        → value row ≡ value low + f * value a + 0
        → All IsWord row
        → ((t : List ℕ)
            → length t ≡ length a
            → All IsWord t
            → Rows a b t extra (mulacc_rows a b (t ++ (room ++ extra))))
        → Rows a (f ∷ b) low extra (mulacc_rows a (f ∷ b) (low ++ (g ∷ (room ++ extra))))
    go [] shape size total words rec = absurd (omega arith)
    go (w ∷ t) shape size total words rec =
        let ih = rec t (omega arith) words.1 in
        record {
          digits = w ∷ ih.digits;
          shape = rw (shape, mulacc_rows) (ap (λ r. w ∷ r) ih.shape);
          size = omega (arith, ih.size);
          total = omega (arith, ih.total);
          words = (words.0, ih.words);
        }

-- The bit length that a header announces: it stands as 32 * (k / 31) + k % 31.
abbrev pub announced : ℕ → ℕ
announced h = 31 * (h / 32) + h % 32

announced_sum :
    (x y : ℕ)
    → x + y < 2 ^ 32
    → announced (u32 (x + y)) + (if leb 32 (x % 32 + y % 32) then 1 else 0)
      ≡ announced x + announced y
announced_sum x y h = ground arith

-- `br_i31_mulacc` adds the product of `a` and `b` to the number in the first words of `d`, as
-- many as `a` has. The result takes as many words as `a` and `b` together, whatever the upper
-- ones held; the words behind are kept. With headers whose sum fits in a word, the bit length
-- that the result announces is the sum of those that `a` and `b` announce, or one less, when the
-- parts that count the bits of an incomplete word make up 32 or more.
pub mulacc-value :
    (d a b : Int31)
    → length a.words ≡ word_count a.header
    → length b.words ≡ word_count b.header
    → length a.words + length b.words ≤ length d.words
    → All IsWord a.words
    → All IsWord b.words
    → All IsWord (take (length a.words) d.words)
    → a.header + b.header < 2 ^ 32
    → (value (take (length a.words + length b.words) (mulacc d a b).words)
        ≡ value (take (length a.words) d.words) + value a.words * value b.words)
      × (drop (length a.words + length b.words) (mulacc d a b).words
          ≡ drop (length b.words) (drop (length a.words) d.words))
      × (announced (mulacc d a b).header + (if leb 32 (a.header % 32 + b.header % 32) then 1 else 0)
          ≡ announced a.header + announced b.header)
unfolding mulacc
mulacc-value d a b ca cb room_d ha hb hl plain =
    let r =
      mulacc_rows-Rows a.words b.words low room extra (omega (arith, length-take la d.words))
        (omega (arith, length-take lb (drop la d.words), length-drop la d.words)) ha hb hl in
    (
      ap (λ t. value (take (la + lb) t)) (same ∙ r.shape)
          ∙ ap value (take-append_at (la + lb) r.digits extra r.size)
          ∙ r.total,
      ap (drop (la + lb)) (same ∙ r.shape) ∙ drop-append_at (la + lb) r.digits extra r.size,
      announced_sum a.header b.header plain,
    )
  where
    la : ℕ
    la = length a.words

    lb : ℕ
    lb = length b.words

    low : List ℕ
    low = take la d.words

    room : List ℕ
    room = take lb (drop la d.words)

    extra : List ℕ
    extra = drop lb (drop la d.words)

    whole : d.words ≡ low ++ (room ++ extra)
    whole =
        sym (take-append-drop la d.words)
        ∙ ap (λ t. low ++ t) (sym (take-append-drop lb (drop la d.words)))

    same :
        mulacc_rows
          (take (word_count a.header) a.words)
          (take (word_count b.header) b.words)
          d.words
        ≡ mulacc_rows a.words b.words (low ++ (room ++ extra))
    same =
        ap₂ (λ x y. mulacc_rows x y d.words) (length-take_all (word_count a.header) a.words ca)
          (length-take_all (word_count b.header) b.words cb)
        ∙ ap (mulacc_rows a.words b.words) whole
