-- ===== src/Symcipher/Chacha20.antt =====
-- ChaCha20: src/symcipher/chacha20_ct.c.
pub mod Laws
pub mod Block
pub mod Stream
use bearssl.Common.{
  ℕ, zero, suc, ◌+◌, ◌-◌, ◌*◌, ◌/◌, ◌%◌, ◌^◌, ltb, ◌==◌, if◌then◌else◌, List, [], ◌∷◌, ◌++◌, length,
  get_or, set, take, drop, bit_xor, u32,
}
use bearssl.Codec.{range_enc32le, range_dec32le}
use bearssl.Hash.Sha1.{rotl}
use bearssl.Prf.{xor_into}

-- `br_chacha20_run`: from the key, the IV, the counter and the data to the data and the counter.
abbrev pub Chacha : Type 0
Chacha = List ℕ → List ℕ → ℕ → List ℕ → List ℕ × ℕ

-- the constants `CW`
abbrev pub cw : List ℕ
cw = 0x61707865 ∷ 0x3320646e ∷ 0x79622d32 ∷ 0x6b206574 ∷ []

-- QROUND on the four values of the state.
unfoldable pub quarter : ℕ → ℕ → ℕ → ℕ → ℕ × ℕ × ℕ × ℕ
quarter a0 b0 c0 d0 =
    let a1 = u32 (a0 + b0) in
    let d1 = rotl (bit_xor d0 a1) 16 in
    let c1 = u32 (c0 + d1) in
    let b1 = rotl (bit_xor b0 c1) 12 in
    let a2 = u32 (a1 + b1) in
    let d2 = rotl (bit_xor d1 a2) 8 in
    let c2 = u32 (c1 + d2) in let b2 = rotl (bit_xor b1 c2) 7 in (a2, b2, c2, d2)

unfoldable pub qround : ℕ → ℕ → ℕ → ℕ → List ℕ → List ℕ
qround a b c d state =
    let (w, x, y, z) =
      quarter (get_or state a 0) (get_or state b 0) (get_or state c 0) (get_or state d 0) in
    set (set (set (set state a w) b x) c y) d z

-- The loop of ten double rounds.
unfoldable pub rounds : ℕ → List ℕ → List ℕ
rounds zero state = state
rounds (suc n) state =
    let columns = qround 3 7 11 15 (qround 2 6 10 14 (qround 1 5 9 13 (qround 0 4 8 12 state))) in
    rounds n (qround 3 4 9 14 (qround 2 7 8 13 (qround 1 6 11 12 (qround 0 5 10 15 columns))))

-- The words that the state started from are added to it, from position `u` on.
unfoldable pub sum_words : ℕ → List ℕ → List ℕ → List ℕ
sum_words u [] state = []
sum_words u (w ∷ ws) state = u32 (get_or state u 0 + w) ∷ sum_words (u + 1) ws state

-- The 64 bytes of `tmp`.
unfoldable pub key_stream : List ℕ → List ℕ → ℕ → List ℕ
key_stream kw ivw cc =
    let start = cw ++ (kw ++ (cc ∷ ivw)) in range_enc32le (sum_words 0 start (rounds 10 start))

-- The loop of `br_chacha20_ct_run` on fuel.
unfoldable pub chacha20_loop : ℕ → List ℕ → List ℕ → ℕ → List ℕ → List ℕ × ℕ
chacha20_loop zero kw ivw cc buf = (buf, cc)
chacha20_loop (suc fuel) kw ivw cc buf =
    let len = length buf in
    let clen = if ltb len 64 then len else 64 in
    let rest = chacha20_loop fuel kw ivw (u32 (cc + 1)) (drop clen buf) in
    if len == 0
    then (buf, cc)
    else (xor_into (take clen buf) (key_stream kw ivw cc) ++ rest.0, rest.1)

-- `br_chacha20_ct_run`. As much fuel as bytes.
unfoldable pub chacha20_ct_run : Chacha
chacha20_ct_run key iv cc buf =
    chacha20_loop (length buf) (range_dec32le 8 key) (range_dec32le 3 iv) cc buf
