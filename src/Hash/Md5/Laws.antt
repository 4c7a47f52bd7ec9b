-- ===== src/Hash/Md5/Laws.antt =====
-- The contract of src/hash/md5.c as a hash function.
use bearssl.Common.{ℕ, ◌*◌, ◌≡◌, refl, ap, ◌∙◌, arith, List, length, All, IsU32}
use bearssl.Codec.{enc64le, range_enc32le}
use bearssl.Codec.RoundTrip.{length-enc64, decoded32, length-range_enc32}
use bearssl.Hmac.Laws.{IsHash}
use bearssl.Hash.Blocks.{Context}
use bearssl.Hash.Blocks.Spec.{values_of, IsRound}
use bearssl.Hash.Blocks.Update.{Holds, blocks_update-Holds}
use bearssl.Hash.Blocks.Laws.{
  final_values_lem, fresh, restored_lem, context_words, length-values_of,
}
use bearssl.Hash.Md5.{
  md5_round, md5_round-words, md5_iv, md5_init, md5_out, md5_state, md5_set_state, md5_class,
}

-- The hash of a whole message.
abbrev pub md5_of : List ℕ → List ℕ
md5_of m = range_enc32le (values_of md5_round enc64le md5_iv m)

md5_round-IsRound : IsRound 4 md5_round
md5_round-IsRound = record {
  length_values = λ buf val. (md5_round-words buf val).0;
  word_values = λ buf val. (md5_round-words buf val).1;
}

words : All IsU32 md5_iv
words = (omega arith, (omega arith, (omega arith, (omega arith, tt))))

out_lem : (ctx : Context) (m : List ℕ) → Holds md5_round md5_iv ctx m → md5_out ctx ≡ md5_of m
unfolding md5_out
out_lem ctx m s =
    ap range_enc32le (final_values_lem md5_round enc64le (λ x. (length-enc64 x).0) md5_iv ctx m s)

restored :
    (unset : List ℕ) (ctx : Context) (m : List ℕ)
    → length unset ≡ 64
    → Holds md5_round md5_iv ctx m
    → length m ≡ 64
    → Holds md5_round md5_iv (md5_set_state (md5_init unset) (md5_state ctx) 64) m
unfolding md5_set_state md5_state
restored unset ctx m size s e =
    let good = context_words md5_round 4 md5_iv ctx m md5_round-IsRound refl words s in
    restored_lem md5_round unset size md5_iv ctx m _ s e (decoded32 4 ctx.val good.0 good.1).0

size_lem : (m : List ℕ) → length (md5_of m) ≡ 16
size_lem m =
    (length-range_enc32 (values_of md5_round enc64le md5_iv m)).0
    ∙ ap (λ (n : ℕ). 4 * n)
        (length-values_of md5_round enc64le 4 md5_iv m md5_round-IsRound refl words)

-- With any content of a fresh buffer, MD5 of the library is a hash function as inc/bearssl_hash.h
-- documents it: what a context gives out is the hash of the padded message, for any message taken in
-- any pieces, and a state saved after a block can be restored.
pub md5-IsHash :
    (unset : List ℕ) → length unset ≡ 64 → IsHash (md5_class unset) md5_of (Holds md5_round md5_iv)
md5-IsHash unset size = record {
  start_holds = fresh md5_round unset size md5_iv;
  inject_holds = blocks_update-Holds md5_round md5_iv;
  out_holds = out_lem;
  restored = λ ctx m s e. restored unset ctx m size s e;
  size = size_lem;
  fits = omega arith;
}
