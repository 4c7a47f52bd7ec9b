-- ===== src/Int31/Decode.antt =====
-- Decoding: src/int/i31_decode.c and i31_bitlen.c.
pub mod Laws
use bearssl.Common.{
  ℕ, zero, suc, ◌+◌, ◌-◌, ◌*◌, ◌/◌, ◌%◌, ◌^◌, List, [], ◌∷◌, length, get_or, ◌>>>◌, ◌<<<◌, u32,
  bit_and, bit_or, leb, ◌==◌, if◌then◌else◌,
}
use bearssl.Ct.{eq, mux, bit_length}
use bearssl.Int31.{Int31}

-- The loop of `br_i31_decode` on the `u` bytes that are left, the last one first, and the word that
-- may follow it: the words that are stored.
unfoldable pub decode_loop : ℕ → List ℕ → ℕ → ℕ → List ℕ
decode_loop zero buf acc acc_len = if acc_len == 0 then [] else acc ∷ []
decode_loop (suc u) buf acc acc_len =
    let b = get_or buf u 0 in
    let joined = bit_or acc (u32 (b <<< acc_len)) in
    let full = leb 31 (acc_len + 8) in
    let rest =
      decode_loop u buf (if full then b >>> (8 - (acc_len + 8 - 31)) else joined)
        (if full then acc_len + 8 - 31 else acc_len + 8) in
    if full then bit_and joined 0x7fffffff ∷ rest else rest

-- The loop of `br_i31_bit_length` over the `n` lower words, from the top one down.
unfoldable pub bit_length_loop : ℕ → List ℕ → ℕ → ℕ → ℕ
bit_length_loop zero x tw twk = u32 (u32 (twk <<< 5) + bit_length tw)
bit_length_loop (suc n) x tw twk =
    let c = eq tw 0 in bit_length_loop n x (mux c (get_or x n 0) tw) (mux c (u32 n) twk)

-- `br_i31_bit_length` on words without a header.
unfoldable pub words_bit_length : List ℕ → ℕ
words_bit_length x = bit_length_loop (length x) x 0 0

-- `br_i31_decode`
unfoldable pub decode : List ℕ → Int31
decode src =
    let words = decode_loop (length src) src 0 0 in
    record { header = words_bit_length words; words = words }
