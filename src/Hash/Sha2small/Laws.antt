-- ===== src/Hash/Sha2small/Laws.antt =====
-- The contract of src/hash/sha2small.c as a hash function.
use bearssl.Common.{
  ℕ, ◌*◌, ◌≤◌, ◌≡◌, refl, ap, ◌∙◌, arith, List, length, take, length-take, length-take_all, All,
  IsU32,
}
use bearssl.Codec.{enc64be, range_enc32be, range_dec32be}
use bearssl.Codec.RoundTrip.{length-enc64, decoded32, length-range_enc32}
use bearssl.Hmac.Laws.{IsHash}
use bearssl.Hash.Blocks.{Context}
use bearssl.Hash.Blocks.Spec.{values_of, IsRound}
use bearssl.Hash.Blocks.Update.{Holds, blocks_update-Holds}
use bearssl.Hash.Blocks.Laws.{
  final_values_lem, fresh, restored_lem, context_words, length-values_of,
}
use bearssl.Hash.Sha2small.{
  sha2small_out, sha2small_state, sha2small_set_state, sha2small_init, sha2small_class, sha224_iv,
  sha256_iv, sha224_desc, sha256_desc,
}
use bearssl.Hash.Sha2small.Round.{sha2small_round, round-words, length-round}

-- The hash of a whole message.
abbrev pub sha_of : List ℕ → ℕ → List ℕ → List ℕ
sha_of iv num m = range_enc32be (take num (values_of sha2small_round enc64be iv m))

sha2small_round-IsRound : IsRound 8 sha2small_round
sha2small_round-IsRound = record { length_values = length-round; word_values = round-words }

out_lem :
    (iv : List ℕ) (num : ℕ) (ctx : Context) (m : List ℕ)
    → Holds sha2small_round iv ctx m
    → sha2small_out ctx num ≡ sha_of iv num m
unfolding sha2small_out
out_lem iv num ctx m s =
    ap (λ v. range_enc32be (take num v))
      (final_values_lem sha2small_round enc64be (λ x. (length-enc64 x).1) iv ctx m s)

module _ (iv : List ℕ) (eight : length iv ≡ 8) (words : All IsU32 iv) where
  restored :
      (unset : List ℕ) (ctx : Context) (m : List ℕ)
      → length unset ≡ 64
      → Holds sha2small_round iv ctx m
      → length m ≡ 64
      → Holds sha2small_round iv
          (sha2small_set_state (sha2small_init iv unset) (sha2small_state ctx) 64)
          m
  unfolding sha2small_set_state sha2small_state
  restored unset ctx m size s e =
      let good = context_words sha2small_round 8 iv ctx m sha2small_round-IsRound eight words s in
      let back : range_dec32be 8 (range_enc32be (take 8 ctx.val)) ≡ ctx.val =
        ap (λ v. range_dec32be 8 (range_enc32be v)) (length-take_all 8 ctx.val good.0)
        ∙ (decoded32 8 ctx.val good.0 good.1).1 in
      restored_lem sha2small_round unset size iv ctx m _ s e back

  size_lem : (num : ℕ) (m : List ℕ) → num ≤ 8 → length (sha_of iv num m) ≡ 4 * num
  size_lem num m h =
      let values = values_of sha2small_round enc64be iv m in
      (length-range_enc32 (take num values)).1
      ∙ omega (
        arith,
        length-take num values,
        length-values_of sha2small_round enc64be 8 iv m sha2small_round-IsRound eight words,
      )

-- With any content of a fresh buffer, SHA-224 and SHA-256 of the library are hash functions as
-- inc/bearssl_hash.h documents them: what a context gives out is the hash of FIPS 180-4's padded
-- message, for any message taken in any pieces, and a state saved after a block can be restored.
pub sha2small-IsHash :
    (unset : List ℕ)
    → length unset ≡ 64
    → IsHash
        (sha2small_class sha224_iv 7 sha224_desc unset)
        (sha_of sha224_iv 7)
        (Holds sha2small_round sha224_iv)
      × IsHash
          (sha2small_class sha256_iv 8 sha256_desc unset)
          (sha_of sha256_iv 8)
          (Holds sha2small_round sha256_iv)
sha2small-IsHash unset size = (
  record {
    start_holds = fresh sha2small_round unset size sha224_iv;
    inject_holds = blocks_update-Holds sha2small_round sha224_iv;
    out_holds = out_lem sha224_iv 7;
    restored = λ ctx m s e. restored sha224_iv refl words224 unset ctx m size s e;
    size = λ m. size_lem sha224_iv refl words224 7 m (omega arith);
    fits = omega arith;
  },
  record {
    start_holds = fresh sha2small_round unset size sha256_iv;
    inject_holds = blocks_update-Holds sha2small_round sha256_iv;
    out_holds = out_lem sha256_iv 8;
    restored = λ ctx m s e. restored sha256_iv refl words256 unset ctx m size s e;
    size = λ m. size_lem sha256_iv refl words256 8 m (omega arith);
    fits = omega arith;
  },
)
  where
    words224 : All IsU32 sha224_iv
    words224 = (
      omega arith,
      (
        omega arith,
        (
          omega arith,
          (omega arith, (omega arith, (omega arith, (omega arith, (omega arith, tt))))),
        ),
      ),
    )

    words256 : All IsU32 sha256_iv
    words256 = (
      omega arith,
      (
        omega arith,
        (
          omega arith,
          (omega arith, (omega arith, (omega arith, (omega arith, (omega arith, tt))))),
        ),
      ),
    )
