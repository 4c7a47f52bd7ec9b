-- ===== src/Hash/Sha1/Laws.antt =====
-- The contract of src/hash/sha1.c as a hash function.
use bearssl.Common.{ℕ, ◌*◌, ◌≡◌, refl, ap, ◌∙◌, arith, List, length, All, IsU32}
use bearssl.Codec.{enc64be, range_enc32be}
use bearssl.Codec.RoundTrip.{length-enc64, decoded32, length-range_enc32}
use bearssl.Hmac.Laws.{IsHash}
use bearssl.Hash.Blocks.{Context}
use bearssl.Hash.Blocks.Spec.{values_of, IsRound}
use bearssl.Hash.Blocks.Update.{Holds, blocks_update-Holds}
use bearssl.Hash.Blocks.Laws.{
  final_values_lem, fresh, restored_lem, context_words, length-values_of,
}
use bearssl.Hash.Sha1.{
  sha1_round, sha1_round-words, sha1_iv, sha1_init, sha1_out, sha1_state, sha1_set_state,
  sha1_class,
}

-- The hash of a whole message.
abbrev pub sha1_of : List ℕ → List ℕ
sha1_of m = range_enc32be (values_of sha1_round enc64be sha1_iv m)

sha1_round-IsRound : IsRound 5 sha1_round
sha1_round-IsRound = record {
  length_values = λ buf val. (sha1_round-words buf val).0;
  word_values = λ buf val. (sha1_round-words buf val).1;
}

words : All IsU32 sha1_iv
words = (omega arith, (omega arith, (omega arith, (omega arith, (omega arith, tt)))))

out_lem : (ctx : Context) (m : List ℕ) → Holds sha1_round sha1_iv ctx m → sha1_out ctx ≡ sha1_of m
unfolding sha1_out
out_lem ctx m s =
    ap range_enc32be (final_values_lem sha1_round enc64be (λ x. (length-enc64 x).1) sha1_iv ctx m s)

restored :
    (unset : List ℕ) (ctx : Context) (m : List ℕ)
    → length unset ≡ 64
    → Holds sha1_round sha1_iv ctx m
    → length m ≡ 64
    → Holds sha1_round sha1_iv (sha1_set_state (sha1_init unset) (sha1_state ctx) 64) m
unfolding sha1_set_state sha1_state
restored unset ctx m size s e =
    let good = context_words sha1_round 5 sha1_iv ctx m sha1_round-IsRound refl words s in
    restored_lem sha1_round unset size sha1_iv ctx m _ s e (decoded32 5 ctx.val good.0 good.1).1

size_lem : (m : List ℕ) → length (sha1_of m) ≡ 20
size_lem m =
    (length-range_enc32 (values_of sha1_round enc64be sha1_iv m)).1
    ∙ ap (λ (n : ℕ). 4 * n)
        (length-values_of sha1_round enc64be 5 sha1_iv m sha1_round-IsRound refl words)

-- With any content of a fresh buffer, SHA-1 of the library is a hash function as inc/bearssl_hash.h
-- documents it: what a context gives out is the hash of the padded message, for any message taken in
-- any pieces, and a state saved after a block can be restored.
pub sha1-IsHash :
    (unset : List ℕ)
    → length unset ≡ 64
    → IsHash (sha1_class unset) sha1_of (Holds sha1_round sha1_iv)
sha1-IsHash unset size = record {
  start_holds = fresh sha1_round unset size sha1_iv;
  inject_holds = blocks_update-Holds sha1_round sha1_iv;
  out_holds = out_lem;
  restored = λ ctx m s e. restored unset ctx m size s e;
  size = size_lem;
  fits = omega arith;
}
