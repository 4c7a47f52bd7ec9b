-- ===== src/Int31/Tests.antt =====
-- Runs of the 31-bit integers, and their theorems at concrete numbers.
use bearssl.Common.{List, ℕ, ◌+◌, ◌*◌, ◌≡◌, ◌<◌, refl, arith, [], ◌∷◌, take, drop, All}
use bearssl.Int31.{Int31, sub, mulacc}
use bearssl.Int31.Value.{IsWord, value, radix}
use bearssl.Int31.AddSub.{SameShape, sub-value}
use bearssl.Int31.Mul.{announced, mulacc-value}
use bearssl.Common.{◌%◌, ◌^◌}
use bearssl.Ct.{mux, neq, ct_not}
use bearssl.Int31.{sub_words}
use bearssl.Int31.Monty.{newton, ninv31, mont_row, mont_turn, mont_loop, montymul, from_monty}
use bearssl.Int31.Monty.Product.{IsModulus, Fits, montymul-value}
use bearssl.Int31.Monty.Return.{from_monty-value}
use bearssl.Int31.Modpow.{exponent_bit, ccopy, modpow_loop}
use bearssl.Int31.Modpow.Exponent.{modpow_loop-value}
use bearssl.Int31.Decode.{decode_loop, decode}
use bearssl.Int31.Decode.Laws.{decode-value}

-- two words each: the header counts 32 for a full word
abbrev small : Int31
small = record { header = 64; words = 5 ∷ 7 ∷ [] }

abbrev large : Int31
large = record { header = 64; words = 0x7fff_ffff ∷ 0x7fff_fffe ∷ [] }

abbrev room : Int31
room = record { header = 64; words = 1 ∷ 2 ∷ 99 ∷ 98 ∷ 97 ∷ [] }

shapes : SameShape large small
shapes = record { words_a = refl; words_b = refl; small_a = omega arith; small_b = omega arith }

shapes' : SameShape small large
shapes' = record { words_a = refl; words_b = refl; small_a = omega arith; small_b = omega arith }

mulacc_runs : (mulacc room small small).words ≡ 26 ∷ 72 ∷ 49 ∷ 0 ∷ 97 ∷ []
unfolding mulacc
mulacc_runs = refl

sub-value_example :
    (value (sub small large 1).0.words + value large.words
      ≡ value small.words + radix 2 * (sub small large 1).1)
    × ((sub small large 1).1 ≡ 1)
    × All IsWord (sub small large 1).0.words
sub-value_example = sub-value small large shapes'

-- Two numbers of 16 bits each announce one word for their product, of two.
announced_runs :
    ((mulacc room (record small { header = 16 }) (record small { header = 16 })).header ≡ 32)
    × (announced 32 ≡ 31)
unfolding mulacc
announced_runs = (refl, refl)

mulacc-value_example :
    (value (take 4 (mulacc room small large).words)
      ≡ value (1 ∷ 2 ∷ []) + value small.words * value large.words)
    × (drop 4 (mulacc room small large).words ≡ 97 ∷ [])
    × (announced (mulacc room small large).header + 0 ≡ announced 64 + announced 64)
mulacc-value_example =
    mulacc-value room small large refl refl (omega arith) (omega arith) (omega arith) (omega arith)
      (omega arith)

-- A modulus of two words, and an operand below it.
abbrev modulus : Int31
modulus = small

modulus-IsModulus : IsModulus modulus
modulus-IsModulus = record { header = omega arith; size = refl; words = omega arith; odd = refl }

abbrev lower : Int31
lower = record { header = 64; words = 9 ∷ 6 ∷ [] }

montymul-value_example :
    let r = montymul large lower modulus (ninv31 5) in
    (value r.words < value modulus.words)
    × ((value r.words * radix 2) % value modulus.words
        ≡ (value large.words * value lower.words) % value modulus.words)
    × Fits modulus r
montymul-value_example =
    montymul-value large lower modulus modulus-IsModulus
      (record { size = refl; words = omega arith }) (record { size = refl; words = omega arith })
      (omega arith)

from_monty-value_example :
    let r = from_monty large modulus (ninv31 5) in
    (value r.words < value modulus.words)
    × ((value r.words * radix 2) % value modulus.words ≡ value large.words % value modulus.words)
    × Fits modulus r
from_monty-value_example =
    from_monty-value large modulus modulus-IsModulus (record { size = refl; words = omega arith })
      refl

-- modulo 13, with 2 in Montgomery form
abbrev thirteen : Int31
thirteen = record { header = 4; words = 13 ∷ [] }

abbrev one : Int31
one = record { header = 4; words = 1 ∷ [] }

abbrev two_monty : Int31
two_monty = record { header = 4; words = 9 ∷ [] }

montymul_runs : (montymul one two_monty thirteen (ninv31 13)).words ≡ 2 ∷ []
unfolding montymul ninv31 newton mont_loop mont_turn mont_row sub sub_words neq ct_not mux
montymul_runs = refl

modpow_runs : (modpow_loop 8 0 (10 ∷ []) thirteen (ninv31 13) one two_monty).words ≡ 10 ∷ []
unfolding modpow_loop exponent_bit ccopy montymul ninv31 newton mont_loop mont_turn mont_row sub
    sub_words neq ct_not mux
modpow_runs = refl

modpow_loop-value_example :
    let r = modpow_loop 16 0 (1 ∷ 0 ∷ []) thirteen (ninv31 13) one two_monty in
    (value r.words < 13) × (value r.words % 13 ≡ 2 ^ 256 % 13)
modpow_loop-value_example =
    modpow_loop-value thirteen (1 ∷ 0 ∷ []) one two_monty 2
      (record { header = omega arith; size = refl; words = omega arith; odd = refl }) (omega arith)
      (record {
        fits = record { size = refl; words = omega arith };
        below = omega arith;
        residue = refl;
      })
      (record {
        fits = record { size = refl; words = omega arith };
        below = omega arith;
        residue = refl;
      })

-- A number of five bytes, with its top bit in the second word.
abbrev five_bytes : List ℕ
five_bytes = 1 ∷ 0xff ∷ 2 ∷ 3 ∷ 4 ∷ []

decode_runs : (decode five_bytes).words ≡ 0x7f020304 ∷ 3 ∷ []
unfolding decode decode_loop
decode_runs = refl

decode-value_example :
    (value (decode five_bytes).words ≡ 0x01ff020304) × All IsWord (decode five_bytes).words
decode-value_example = decode-value five_bytes (omega arith)
