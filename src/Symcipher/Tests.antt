-- ===== src/Symcipher/Tests.antt =====
-- The ciphers at concrete inputs, those of RFC 7539 among them.
use bearssl.Common.{
  ◌-◌, if◌then◌else◌, ℕ, ◌+◌, ◌^◌, ◌≡◌, refl, arith, ltb, List, [], ◌∷◌, ◌++◌, replicate, take,
  true,
}
use bearssl.Codec.{range_enc32le, range_enc, enc32le, enc64le, range_dec32le, range_dec, dec32le}
use bearssl.Ct.{gt, eq, mux, ct_not}
use bearssl.Prf.{xor_into}
use bearssl.Symcipher.Chacha20.{
  chacha20_ct_run, chacha20_loop, key_stream, rounds, qround, quarter, sum_words,
}
use bearssl.Symcipher.Poly1305.{
  Limbs, poly1305_ctmul_run, poly1305_tag, poly1305_acc, poly1305_inner, inner_loop, add_block,
  mul_limbs, carry_limbs, decode_r, carry_final, select_final, tag_words,
}
use bearssl.Symcipher.Poly1305.Words.{limbs_value, le_value, IsAcc}
use bearssl.Symcipher.Poly1305.Inner.{horner}
use bearssl.Symcipher.Poly1305.Final.{IsReduced, carry_final_lem}
use bearssl.Symcipher.Poly1305.Laws.{mac_value}
use bearssl.Symcipher.Chacha20.Stream.{chacha_stream, chacha20_ct_run_lem}

-- RFC 7539, 2.8.2
abbrev key : List ℕ
key =
    128 ∷ 129 ∷ 130 ∷ 131 ∷ 132 ∷ 133 ∷ 134 ∷ 135 ∷ 136 ∷ 137 ∷ 138 ∷ 139 ∷ 140 ∷ 141 ∷ 142 ∷ 143
    ∷ 144 ∷ 145 ∷ 146 ∷ 147 ∷ 148 ∷ 149 ∷ 150 ∷ 151 ∷ 152 ∷ 153 ∷ 154 ∷ 155 ∷ 156 ∷ 157 ∷ 158 ∷ 159
    ∷ []

abbrev nonce : List ℕ
nonce = 7 ∷ 0 ∷ 0 ∷ 0 ∷ 64 ∷ 65 ∷ 66 ∷ 67 ∷ 68 ∷ 69 ∷ 70 ∷ 71 ∷ []

abbrev aad : List ℕ
aad = 80 ∷ 81 ∷ 82 ∷ 83 ∷ 192 ∷ 193 ∷ 194 ∷ 195 ∷ 196 ∷ 197 ∷ 198 ∷ 199 ∷ []

abbrev text : List ℕ
text =
    76 ∷ 97 ∷ 100 ∷ 105 ∷ 101 ∷ 115 ∷ 32 ∷ 97 ∷ 110 ∷ 100 ∷ 32 ∷ 71 ∷ 101 ∷ 110 ∷ 116 ∷ 108 ∷ 101
    ∷ 109 ∷ 101 ∷ 110 ∷ 32 ∷ 111 ∷ 102 ∷ 32 ∷ 116 ∷ 104 ∷ 101 ∷ 32 ∷ 99 ∷ 108 ∷ 97 ∷ 115 ∷ 115 ∷ 32
    ∷ 111 ∷ 102 ∷ 32 ∷ 39 ∷ 57 ∷ 57 ∷ 58 ∷ 32 ∷ 73 ∷ 102 ∷ 32 ∷ 73 ∷ 32 ∷ 99 ∷ 111 ∷ 117 ∷ 108 ∷ 100
    ∷ 32 ∷ 111 ∷ 102 ∷ 102 ∷ 101 ∷ 114 ∷ 32 ∷ 121 ∷ 111 ∷ 117 ∷ 32 ∷ 111 ∷ 110 ∷ 108 ∷ 121 ∷ 32
    ∷ 111 ∷ 110 ∷ 101 ∷ 32 ∷ 116 ∷ 105 ∷ 112 ∷ 32 ∷ 102 ∷ 111 ∷ 114 ∷ 32 ∷ 116 ∷ 104 ∷ 101 ∷ 32
    ∷ 102 ∷ 117 ∷ 116 ∷ 117 ∷ 114 ∷ 101 ∷ 44 ∷ 32 ∷ 115 ∷ 117 ∷ 110 ∷ 115 ∷ 99 ∷ 114 ∷ 101 ∷ 101
    ∷ 110 ∷ 32 ∷ 119 ∷ 111 ∷ 117 ∷ 108 ∷ 100 ∷ 32 ∷ 98 ∷ 101 ∷ 32 ∷ 105 ∷ 116 ∷ 46 ∷ []

abbrev sealed_start : List ℕ
sealed_start = take 4 (poly1305_ctmul_run chacha20_ct_run key nonce text aad true).0

abbrev sealed_tag : List ℕ
sealed_tag = (poly1305_ctmul_run chacha20_ct_run key nonce text aad true).1

text_test :
    sealed_start ++ sealed_tag
    ≡ 211 ∷ 26 ∷ 141 ∷ 52 ∷ 26 ∷ 225 ∷ 11 ∷ 89 ∷ 79 ∷ 9 ∷ 226 ∷ 106 ∷ 126 ∷ 144 ∷ 46 ∷ 203 ∷ 208
      ∷ 96 ∷ 6 ∷ 145 ∷ []
unfolding chacha20_ct_run chacha20_loop key_stream rounds qround quarter sum_words
    poly1305_ctmul_run poly1305_tag poly1305_acc poly1305_inner inner_loop add_block mul_limbs
    carry_limbs decode_r carry_final select_final tag_words range_enc32le range_enc enc32le enc64le
    range_dec32le range_dec dec32le xor_into gt eq mux ct_not
text_test = refl

-- With `r = 5`, this block and the footer leave an accumulator above 2^130. The sum is 7 modulo the
-- prime, and the tag is 3.
abbrev five : List ℕ
five = 5 ∷ replicate 31 0

abbrev crafted : List ℕ
crafted =
    131 ∷ 235 ∷ 81 ∷ 184 ∷ 30 ∷ 133 ∷ 235 ∷ 81 ∷ 232 ∷ 81 ∷ 184 ∷ 30 ∷ 133 ∷ 235 ∷ 81 ∷ 184 ∷ []

crafted_test :
    (le_value (poly1305_tag five [] crafted) ≡ 3)
    × (mac_value (limbs_value (decode_r five)) [] crafted ≡ 7)
unfolding poly1305_tag poly1305_acc poly1305_inner inner_loop add_block mul_limbs carry_limbs
    decode_r carry_final select_final tag_words enc32le enc64le dec32le gt eq mux ct_not le_value
    mac_value horner
crafted_test = (refl, refl)

-- The accumulator of the crafted block.
abbrev full : Limbs
full = record { l0 = 2; l1 = 0x4000000; l2 = 0x3FFFFFF; l3 = 0x3FFFFFF; l4 = 0x3FFFFFF }

full-IsAcc : IsAcc full
full-IsAcc = record {
  small0 = omega arith;
  small1 = omega arith;
  small2 = omega arith;
  small3 = omega arith;
  small4 = omega arith;
}

carry_final_lem_example :
    (limbs_value (carry_final full) ≡ (
      if ltb (limbs_value full) (2 ^ 130)
      then limbs_value full
      else limbs_value full + 1 - 2 ^ 130))
    × IsReduced (carry_final full)
carry_final_lem_example = carry_final_lem full full-IsAcc

-- Twenty bytes under the key of the tests.
abbrev twenty : List ℕ
twenty = replicate 20 3

chacha20_ct_run_lem_example :
    chacha20_ct_run key nonce 0xffffffff (replicate 70 9)
    ≡ (xor_into (replicate 70 9) (chacha_stream 2 key nonce 0xffffffff), 1)
chacha20_ct_run_lem_example =
    chacha20_ct_run_lem key nonce 0xffffffff (replicate 70 9) (omega arith)
