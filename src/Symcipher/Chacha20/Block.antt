-- ===== src/Symcipher/Chacha20/Block.antt =====
-- The block function of RFC 7539 on a matrix of four rows, and the code's one against it.
use bearssl.Common.{ℕ, zero, suc, ◌+◌, ◌≡◌, refl, ap, ◌∙◌, List, [], ◌∷◌, length, bit_xor, u32}
use bearssl.Codec.{range_enc32le, range_enc, enc32le}
use bearssl.Hash.Sha1.{rotl}
use bearssl.Symcipher.Chacha20.{quarter, qround, rounds, sum_words, key_stream}

-- Four words: a row, or a column.
abbrev pub Quad : Type 0
Quad = ℕ × ℕ × ℕ × ℕ

abbrev Matrix : Type 0
Matrix = Quad × Quad × Quad × Quad

-- a += b; d ^= a; d <<<= s.
abbrev mix : ℕ → ℕ → ℕ → ℕ → ℕ × ℕ
mix s a b d = (u32 (a + b), rotl (bit_xor d (u32 (a + b))) s)

-- The quarter round of RFC 7539, section 2.1: two double steps.
abbrev half_round : ℕ → ℕ → Quad → Quad
half_round s t (a, b, c, d) =
    let ad = mix s a b d in let cb = mix t c ad.1 b in (ad.0, cb.1, cb.0, ad.1)

abbrev quarter_round : Quad → Quad
quarter_round q = half_round 8 7 (half_round 16 12 q)

abbrev transpose : Matrix → Matrix
transpose ((a0, a1, a2, a3), (b0, b1, b2, b3), (c0, c1, c2, c3), (d0, d1, d2, d3)) =
    ((a0, b0, c0, d0), (a1, b1, c1, d1), (a2, b2, c2, d2), (a3, b3, c3, d3))

abbrev turn : Quad → Quad
turn (a, b, c, d) = (b, c, d, a)

-- The quarter round on the four columns.
abbrev column_round : Matrix → Matrix
column_round m =
    let t = transpose m in
    transpose (quarter_round t.0, quarter_round t.1, quarter_round t.2, quarter_round t.3)

-- The diagonals are the columns once row `i` is turned left by `i` places.
abbrev diagonal_round : Matrix → Matrix
diagonal_round m =
    let r = column_round (m.0, turn m.1, turn (turn m.2), turn (turn (turn m.3))) in
    (r.0, turn (turn (turn r.1)), turn (turn r.2), turn r.3)

abbrev double_rounds : ℕ → Matrix → Matrix
double_rounds zero m = m
double_rounds (suc n) m = double_rounds n (diagonal_round (column_round m))

abbrev row_words : Quad → List ℕ → List ℕ
row_words (a, b, c, d) rest = a ∷ b ∷ c ∷ d ∷ rest

abbrev words_of : Matrix → List ℕ
words_of (a, b, c, d) = row_words a (row_words b (row_words c (row_words d [])))

abbrev add_quad : Quad → Quad → Quad
add_quad (a, b, c, d) (w, x, y, z) = (u32 (a + w), u32 (b + x), u32 (c + y), u32 (d + z))

abbrev add_matrix : Matrix → Matrix → Matrix
add_matrix (a, b, c, d) (w, x, y, z) = (add_quad a w, add_quad b x, add_quad c y, add_quad d z)

-- The constants, the key in two rows, and the counter with the nonce (section 2.3): ten double
-- rounds, then the start is added.
pub block_words : Quad → Quad → ℕ → ℕ × ℕ × ℕ → List ℕ
block_words k0 k1 cc (n0, n1, n2) =
    let start : Matrix =
      ((0x61707865, 0x3320646e, 0x79622d32, 0x6b206574), k0, k1, (cc, n0, n1, n2)) in
    words_of (add_matrix (double_rounds 10 start) start)

double_round :
    (a b c d : Quad)
    → rounds 1 (words_of (a, b, c, d)) ≡ words_of (diagonal_round (column_round (a, b, c, d)))
unfolding rounds qround quarter
double_round (a0, a1, a2, a3) (b0, b1, b2, b3) (c0, c1, c2, c3) (d0, d1, d2, d3) = refl

all_rounds : (n : ℕ) (m : Matrix) → rounds n (words_of m) ≡ words_of (double_rounds n m)
unfolding rounds
all_rounds zero m = refl
all_rounds (suc n) (a, b, c, d) =
    ap (rounds n) (double_round a b c d) ∙ all_rounds n (diagonal_round (column_round (a, b, c, d)))

sums : (m s : Matrix) → sum_words 0 (words_of s) (words_of m) ≡ words_of (add_matrix m s)
unfolding sum_words
sums ((a0, a1, a2, a3), (b0, b1, b2, b3), (c0, c1, c2, c3), (d0, d1, d2, d3))
      ((e0, e1, e2, e3), (f0, f1, f2, f3), (g0, g1, g2, g3), (h0, h1, h2, h3)) =
    refl

pub key_stream-block :
    (k0 k1 : Quad) (cc : ℕ) (n0 n1 n2 : ℕ)
    → key_stream (row_words k0 (row_words k1 [])) (n0 ∷ n1 ∷ n2 ∷ []) cc
      ≡ range_enc32le (block_words k0 k1 cc (n0, n1, n2))
unfolding key_stream block_words
key_stream-block k0 k1 cc n0 n1 n2 =
    let start : Matrix =
      ((0x61707865, 0x3320646e, 0x79622d32, 0x6b206574), k0, k1, (cc, n0, n1, n2)) in
    ap (λ t. range_enc32le (sum_words 0 (words_of start) t)) (all_rounds 10 start)
    ∙ ap range_enc32le (sums (double_rounds 10 start) start)

length-words : (m : Matrix) → length (range_enc32le (words_of m)) ≡ 64
unfolding range_enc32le range_enc enc32le
length-words ((a0, a1, a2, a3), (b0, b1, b2, b3), (c0, c1, c2, c3), (d0, d1, d2, d3)) = refl

pub length-block :
    (k0 k1 : Quad) (cc : ℕ) (n : ℕ × ℕ × ℕ) → length (range_enc32le (block_words k0 k1 cc n)) ≡ 64
unfolding block_words
length-block k0 k1 cc (n0, n1, n2) = length-words _
