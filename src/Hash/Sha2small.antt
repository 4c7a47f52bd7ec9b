-- ===== src/Hash/Sha2small.antt =====
-- SHA-224 and SHA-256: src/hash/sha2small.c.
pub mod Round
pub mod Laws
use bearssl.Common.{
  ℕ, zero, suc, ◌+◌, ◌-◌, ◌*◌, ◌%◌, ◌^◌, ltb, ◌==◌, if◌then◌else◌, List, [], ◌∷◌, ◌++◌, length,
  take, drop, replicate, u64, ◌<<<◌, bit_and,
}
use bearssl.Codec.{enc64be, range_enc32be, range_dec32be}
use bearssl.Hash.Blocks.{Context, blocks_update, final_values}
use bearssl.Hash.Sha2small.Round.{sha2small_round}
use bearssl.Hmac.{HashClass}

-- `sha2small_update`
abbrev pub sha2small_update : Context → List ℕ → Context
sha2small_update = blocks_update sha2small_round

-- `sha2small_out`
unfoldable pub sha2small_out : Context → ℕ → List ℕ
sha2small_out ctx num =
    let bits = enc64be (u64 (ctx.count <<< 3)) in
    range_enc32be (take num (final_values sha2small_round ctx bits))

-- `br_sha224_state` and `br_sha224_set_state`: the saved bytes.
unfoldable pub sha2small_state : Context → List ℕ
sha2small_state ctx = range_enc32be (take 8 ctx.val)

unfoldable pub sha2small_set_state : Context → List ℕ → ℕ → Context
sha2small_set_state ctx stb count = record ctx { val = range_dec32be 8 stb; count = count }

-- `br_sha224_IV` and `br_sha256_IV`
abbrev pub sha224_iv : List ℕ
sha224_iv =
    0xC1059ED8 ∷ 0x367CD507 ∷ 0x3070DD17 ∷ 0xF70E5939 ∷ 0xFFC00B31 ∷ 0x68581511 ∷ 0x64F98FA7
    ∷ 0xBEFA4FA4 ∷ []

abbrev pub sha256_iv : List ℕ
sha256_iv =
    0x6A09E667 ∷ 0xBB67AE85 ∷ 0x3C6EF372 ∷ 0xA54FF53A ∷ 0x510E527F ∷ 0x9B05688C ∷ 0x1F83D9AB
    ∷ 0x5BE0CD19 ∷ []

-- `br_sha224_init` and `br_sha256_init`; the buffer keeps what was in it.
abbrev pub sha2small_init : List ℕ → List ℕ → Context
sha2small_init iv unset = record { buf = unset; count = 0; val = iv }

-- The vtables `br_sha224_vtable` and `br_sha256_vtable`; `unset` is the content of a fresh buffer.
abbrev pub sha2small_class : List ℕ → ℕ → ℕ → List ℕ → HashClass
sha2small_class iv num desc unset = record {
  Context = Context;
  State = List ℕ;
  desc = desc;
  start = sha2small_init iv unset;
  inject = sha2small_update;
  out = λ ctx. sha2small_out ctx num;
  state = sha2small_state;
  set_state = sha2small_set_state;
}

-- Their descriptors: identifier, output size, state size, block size, and the padding flags.
abbrev pub sha224_desc : ℕ
sha224_desc = 3 + (28 <<< 8) + (32 <<< 15) + (6 <<< 23) + (1 <<< 28) + (1 <<< 30)

abbrev pub sha256_desc : ℕ
sha256_desc = 4 + (32 <<< 8) + (32 <<< 15) + (6 <<< 23) + (1 <<< 28) + (1 <<< 30)
