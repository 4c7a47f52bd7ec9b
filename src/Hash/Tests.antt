-- ===== src/Hash/Tests.antt =====
-- The hash functions of src/hash/ at concrete inputs.
use bearssl.Common.{ℕ, ◌≡◌, refl, List, [], ◌∷◌, replicate, take}
use bearssl.Codec.{
  range_enc32le, range_dec32le, enc32le, dec32le, enc64le, range_enc32be, range_enc, enc32be,
  range_dec32be, range_dec, dec32be, enc64be,
}
use bearssl.Hmac.Laws.{IsHash}
use bearssl.Hash.Sha1.{
  sha1_iv, sha1_round, sha1_expand, sha1_step, sha1_loop, sha1_init, sha1_update, sha1_out,
  sha1_class,
}
use bearssl.Hash.Sha1.Laws.{sha1_of, sha1-IsHash}
use bearssl.Hash.Md5.{
  md5_iv, md5_round, md5_step, md5_loop, md5_init, md5_update, md5_out, md5_class,
}
use bearssl.Hash.Md5.Laws.{md5_of, md5-IsHash}
use bearssl.Hash.Sha2small.{
  sha2small_init, sha2small_update, sha2small_out, sha256_iv, sha2small_class, sha224_iv,
  sha224_desc, sha256_desc,
}
use bearssl.Hash.Sha2small.Round.{sha2small_round, expand, sha2_steps, sha2_step}
use bearssl.Hash.Blocks.{update_loop, blocks_update, final_values}
use bearssl.Hash.Blocks.Update.{Holds}
use bearssl.Hash.Sha2small.Laws.{sha_of, sha2small-IsHash}

abbrev abc : List ℕ
abc = 0x61 ∷ 0x62 ∷ 0x63 ∷ []

-- The first word of FIPS 180-4's example.
abbrev abc_hash : List ℕ
abc_hash = sha2small_out (sha2small_update (sha2small_init sha256_iv (replicate 64 0)) abc) 1

abc_test : abc_hash ≡ 0xBA ∷ 0x78 ∷ 0x16 ∷ 0xBF ∷ []
unfolding sha2small_out blocks_update final_values update_loop sha2small_round range_enc32be
    range_enc enc32be expand sha2_steps sha2_step range_dec32be range_dec dec32be enc64be
abc_test = refl

sha2small-IsHash_example :
    IsHash
      (sha2small_class sha224_iv 7 sha224_desc (replicate 64 0))
      (sha_of sha224_iv 7)
      (Holds sha2small_round sha224_iv)
    × IsHash
        (sha2small_class sha256_iv 8 sha256_desc (replicate 64 0))
        (sha_of sha256_iv 8)
        (Holds sha2small_round sha256_iv)
sha2small-IsHash_example = sha2small-IsHash (replicate 64 0) refl

-- The beginning of FIPS 180-4's example for SHA-1, and of RFC 1321's for MD5.
abbrev abc_sha1 : List ℕ
abc_sha1 = take 4 (sha1_out (sha1_update (sha1_init (replicate 64 0)) abc))

abc_sha1_test : abc_sha1 ≡ 0xA9 ∷ 0x99 ∷ 0x3E ∷ 0x36 ∷ []
unfolding sha1_out blocks_update final_values update_loop sha1_round range_enc32be range_enc enc32be
    sha1_expand sha1_loop sha1_step range_dec32be range_dec dec32be enc64be
abc_sha1_test = refl

abbrev abc_md5 : List ℕ
abc_md5 = take 4 (md5_out (md5_update (md5_init (replicate 64 0)) abc))

abc_md5_test : abc_md5 ≡ 0x90 ∷ 0x01 ∷ 0x50 ∷ 0x98 ∷ []
unfolding md5_out blocks_update final_values update_loop md5_round range_enc32le range_enc enc32le
    md5_loop md5_step range_dec32le range_dec dec32le enc64le
abc_md5_test = refl

sha1-IsHash_example : IsHash (sha1_class (replicate 64 0)) sha1_of (Holds sha1_round sha1_iv)
sha1-IsHash_example = sha1-IsHash (replicate 64 0) refl

md5-IsHash_example : IsHash (md5_class (replicate 64 0)) md5_of (Holds md5_round md5_iv)
md5-IsHash_example = md5-IsHash (replicate 64 0) refl
