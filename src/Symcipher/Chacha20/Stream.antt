-- ===== src/Symcipher/Chacha20/Stream.antt =====
-- `br_chacha20_ct_run` against the counter mode of RFC 7539.
use bearssl.Common.{
  ℕ, zero, suc, ◌+◌, ◌/◌, ◌^◌, ◌≤◌, ◌<◌, ◌≡◌, refl, sym, ap, ap₂, ◌∙◌, arith, List, [], ◌∷◌, ◌++◌,
  length, take, drop, ltb, inl, inr, Bool-cases, u32, bit_xor, length-drop,
}
use bearssl.Codec.{dec32le, range_enc32le, range_dec32le, range_dec}
use bearssl.Prf.{xor_into}
use bearssl.Symcipher.Chacha20.{key_stream, chacha20_loop, chacha20_ct_run}
use bearssl.Symcipher.Chacha20.Laws.{loop_step, piece_len}
use bearssl.Symcipher.Chacha20.Block.{Quad, block_words, length-block, key_stream-block}

-- The little-endian word `k` of some bytes.
abbrev word : ℕ → List ℕ → ℕ
word zero xs = dec32le xs
word (suc k) xs = word k (drop 4 xs)

abbrev words : ℕ → List ℕ → Quad
words k xs = (word k xs, word (k + 1) xs, word (k + 2) xs, word (k + 3) xs)

-- The block function of RFC 7539: 64 bytes from a key of 32 bytes, a nonce of 12 bytes, and a counter.
pub chacha_block : List ℕ → List ℕ → ℕ → List ℕ
chacha_block key iv cc =
    range_enc32le (block_words (words 0 key) (words 4 key) cc (word 0 iv, word 1 iv, word 2 iv))

-- The key stream: `n` blocks, with the counter going up modulo 2^32.
pub chacha_stream : ℕ → List ℕ → List ℕ → ℕ → List ℕ
chacha_stream zero key iv cc = []
chacha_stream (suc n) key iv cc = chacha_block key iv cc ++ chacha_stream n key iv (u32 (cc + 1))

block_lem :
    (key iv : List ℕ) (cc : ℕ)
    → key_stream (range_dec32le 8 key) (range_dec32le 3 iv) cc ≡ chacha_block key iv cc
unfolding chacha_block range_dec32le range_dec
block_lem key iv cc =
    key_stream-block (words 0 key) (words 4 key) cc (word 0 iv) (word 1 iv) (word 2 iv)

length-chacha_block : (key iv : List ℕ) (cc : ℕ) → length (chacha_block key iv cc) ≡ 64
unfolding chacha_block
length-chacha_block key iv cc = length-block _ _ cc _

xor_into-append :
    (d s t : List ℕ)
    → xor_into d (s ++ t) ≡ xor_into (take (length s) d) s ++ xor_into (drop (length s) d) t
unfolding xor_into
xor_into-append [] [] t = refl
xor_into-append [] (y ∷ s) t = refl
xor_into-append (b ∷ d) [] t = refl
xor_into-append (b ∷ d) (y ∷ s) t = ap (λ z. bit_xor b y ∷ z) (xor_into-append d s t)

-- All is taken, and nothing is left.
take_over : (k : ℕ) (d : List ℕ) → length d ≤ k → (take k d ≡ d) × (drop k d ≡ [])
take_over zero [] h = (refl, refl)
take_over (suc k) [] h = (refl, refl)
take_over zero (x ∷ d) h = absurd (omega arith)
take_over (suc k) (x ∷ d) h = let ih = take_over k d (omega arith) in (ap (λ t. x ∷ t) ih.0, ih.1)

piece_lem :
    (d : List ℕ)
    → (take (piece_len (length d)) d ≡ take 64 d) × (drop (piece_len (length d)) d ≡ drop 64 d)
piece_lem d = elim (Bool-cases (ltb (length d) 64)) [
  | inl e ↦
      let here = take_over (length d) d (omega arith) in
      let over = take_over 64 d (ground (arith, e)) in
      rw e (here.0 ∙ sym over.0, here.1 ∙ sym over.1)
  | inr e ↦ rw e (refl, refl)
]

loop_stream :
    (fuel : ℕ) (key iv : List ℕ) (cc n : ℕ) (d : List ℕ)
    → length d ≤ fuel
    → n ≡ (length d + 63) / 64
    → cc < 2 ^ 32
    → chacha20_loop fuel (range_dec32le 8 key) (range_dec32le 3 iv) cc d
      ≡ (xor_into d (chacha_stream n key iv cc), u32 (cc + n))
unfolding chacha_stream
loop_stream zero key iv cc n [] h e small =
    unfold chacha20_loop xor_into in ap₂ (λ (a : List ℕ) (b : ℕ). (a, b)) refl (omega arith)
loop_stream zero key iv cc n (x ∷ d) h e small = absurd (omega arith)
loop_stream (suc fuel) key iv cc n [] h e small =
    unfold chacha20_loop xor_into in ap₂ (λ (a : List ℕ) (b : ℕ). (a, b)) refl (omega arith)
loop_stream (suc fuel) key iv cc zero (x ∷ d) h e small = absurd (omega arith)
loop_stream (suc fuel) key iv cc (suc n) (x ∷ d) h e small =
    let kw = range_dec32le 8 key in
    let ivw = range_dec32le 3 iv in
    let buf : List ℕ = x ∷ d in
    let later = u32 (cc + 1) in
    let piece = piece_lem buf in
    let left = length-drop 64 buf in
    let s = chacha_block key iv cc in
    let st = chacha_stream n key iv later in
    let ih =
      loop_stream fuel key iv later n (drop 64 buf) (omega (arith, left, h))
        (omega (arith, left, e)) (omega arith) in
    let whole : xor_into buf (s ++ st) ≡ xor_into (take 64 buf) s ++ xor_into (drop 64 buf) st =
      xor_into-append buf s st
      ∙ ap (λ k. xor_into (take k buf) s ++ xor_into (drop k buf) st)
          (length-chacha_block key iv cc) in
    loop_step fuel kw ivw cc buf (omega arith)
    ∙ ap₂
        (λ (a b : List ℕ). (
          xor_into a (key_stream kw ivw cc) ++ (chacha20_loop fuel kw ivw later b).0,
          (chacha20_loop fuel kw ivw later b).1,
        ))
        piece.0 piece.1
    ∙ ap₂ (λ (a : List ℕ) (b : List ℕ × ℕ). (xor_into (take 64 buf) a ++ b.0, b.1))
        (block_lem key iv cc) ih
    ∙ ap₂ (λ (a : List ℕ) (b : ℕ). (a, b)) (sym whole) (omega arith)

-- `br_chacha20_ct_run` is the ChaCha20 of RFC 7539: the data is xored with the key stream, one
-- block of 64 bytes for each 64 bytes begun, made from the key and the nonce with the counter
-- going up from the given one (below 2^32); the counter after the last block, modulo 2^32, is
-- returned. The block function is described on a matrix: ten rounds on its columns and its
-- diagonals. Data may have any length.
pub chacha20_ct_run_lem :
    (key iv : List ℕ) (cc : ℕ) (d : List ℕ)
    → cc < 2 ^ 32
    → let n = (length d + 63) / 64 in
      chacha20_ct_run key iv cc d ≡ (xor_into d (chacha_stream n key iv cc), u32 (cc + n))
unfolding chacha20_ct_run
chacha20_ct_run_lem key iv cc d small =
    loop_stream (length d) key iv cc ((length d + 63) / 64) d (omega arith) refl small
