-- ===== src/Rsa/Tests.antt =====
-- Runs of the RSA formats, and their theorems at concrete messages.
use bearssl.Common.{
  ℕ, ◌^◌, ◌≡◌, ◌<◌, refl, arith, true, Bool, Option, none, some, List, [], ◌∷◌, length, ◌++◌,
  replicate, take, IsU32, All, zero, suc,
}
use bearssl.Rsa.{sig_pad, sig_unpad, unpad_rest, check_pad2, pad2, ff_run, ssl_decrypt}
use bearssl.Rsa.Secret.{IsEncoded, ssl_decrypt_only_encoded}
use bearssl.Ct.{eq, neq}
use bearssl.Rsa.Padding.{formatted}
use bearssl.Rsa.Unpad.{unpad-pad}
use bearssl.Rsa.Sound.{unpad_only_formatted}

abbrev oid : List ℕ
oid = 3 ∷ 0x2b ∷ 0x0e ∷ 0x03 ∷ []

abbrev hash : List ℕ
hash = 1 ∷ 2 ∷ 3 ∷ 4 ∷ []

abbrev short_oid : Option (List ℕ)
short_oid = some oid

-- the padding for a modulus of 32 bytes
abbrev padded : List ℕ
padded = formatted short_oid 4 true hash

pad_runs : sig_pad short_oid hash 256 ≡ some padded
unfolding sig_pad pad2
pad_runs = refl

unpad_runs : sig_unpad padded short_oid 4 ≡ some hash
unfolding sig_unpad unpad_rest check_pad2 pad2 ff_run
unpad_runs = refl

too_short : sig_pad short_oid hash 200 ≡ none
unfolding sig_pad
too_short = refl

unpad-pad_example : sig_unpad padded short_oid 4 ≡ some hash
unpad-pad_example = unpad-pad short_oid hash 256 padded (refl, omega arith) (omega arith) pad_runs

length-padded : length padded < 2 ^ 62
unfolding pad2
length-padded = omega arith

unpad_only_formatted_example :
    (c : ℕ) × (w : Bool) × (padded ≡ formatted short_oid c w hash) × (length hash ≡ 4)
unpad_only_formatted_example =
    unpad_only_formatted padded short_oid 4 hash (refl, omega arith) length-padded (omega arith)
      unpad_runs

-- ten bytes of padding, and a secret of 48 bytes
abbrev secret : List ℕ
secret = replicate 48 7

abbrev encoded : List ℕ
encoded = 0x00 ∷ 0x02 ∷ (replicate 10 9 ++ (0x00 ∷ secret))

-- a private-key operation with this result
abbrev core : List ℕ → ℕ × List ℕ
core d = (1, encoded)

decrypt_runs : (ssl_decrypt core 488 encoded).0 ≡ 1
unfolding ssl_decrypt eq neq
decrypt_runs = refl

words_of : (n a : ℕ) → IsU32 a → All IsU32 (replicate n a)
words_of zero a h = tt
words_of (suc n) a h = (h, words_of n a h)

words_follow : (n a : ℕ) → IsU32 a → (xs : List ℕ) → All IsU32 xs → All IsU32 (replicate n a ++ xs)
words_follow zero a h xs rest = rest
words_follow (suc n) a h xs rest = (h, words_follow n a h xs rest)

secret_words : All IsU32 (replicate 48 7)
secret_words = words_of 48 7 (omega arith)

encoded_words : All IsU32 encoded
encoded_words = (
  omega arith,
  (omega arith, words_follow 10 9 (omega arith) (0x00 ∷ secret) (omega arith, secret_words)),
)

ssl_decrypt_only_encoded_example :
    ((core encoded).0 ≡ 1) × IsEncoded encoded (take 48 (ssl_decrypt core 488 encoded).1)
ssl_decrypt_only_encoded_example =
    ssl_decrypt_only_encoded core 488 encoded (omega arith) encoded_words refl decrypt_runs
