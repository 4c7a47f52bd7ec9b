-- ===== src/Prf/Tests.antt =====
-- The pseudorandom functions on the small hash function of the HMAC tests, and on the library's own.
use bearssl.Common.{ℕ, ◌≤◌, ◌≡◌, refl, arith, some, replicate, List, [], ◌∷◌, ◌++◌, length, take}
use bearssl.Hmac.Tests.{toy, toy_hash, Same, toy-IsHash}
use bearssl.Hmac.{HashClass}
use bearssl.Hash.Blocks.Update.{Holds}
use bearssl.Hash.Md5.{md5_iv, md5_round, md5_class}
use bearssl.Hash.Md5.Laws.{md5_of, md5-IsHash}
use bearssl.Hash.Sha1.{sha1_iv, sha1_round, sha1_class}
use bearssl.Hash.Sha1.Laws.{sha1_of, sha1-IsHash}
use bearssl.Hash.Sha2small.{sha256_iv, sha256_desc, sha2small_class}
use bearssl.Hash.Sha2small.Round.{sha2small_round}
use bearssl.Hash.Sha2small.Laws.{sha_of, sha2small-IsHash}
use bearssl.Prf.{xor_into, label_bytes, phash, tls12_prf, tls10_prf}
use bearssl.Prf.Laws.{p_hash, phash_lem, tls12_prf_lem, tls10_prf_lem}

abbrev secret : List ℕ
secret = 1 ∷ 2 ∷ 3 ∷ []

abbrev label : List ℕ
label = 97 ∷ 98 ∷ 0 ∷ []

abbrev seed : List ℕ
seed = 40 ∷ 41 ∷ []

phash_lem_example :
    phash toy (5 ∷ 6 ∷ 7 ∷ 8 ∷ 9 ∷ []) secret label seed
    ≡ some (
        xor_into
          (5 ∷ 6 ∷ 7 ∷ 8 ∷ 9 ∷ [])
          (p_hash toy toy_hash secret (label_bytes label ++ seed) 5))
phash_lem_example =
    phash_lem toy toy_hash Same toy-IsHash (omega arith) (5 ∷ 6 ∷ 7 ∷ 8 ∷ 9 ∷ []) secret label seed

-- The library's own hash functions.
abbrev unset : List ℕ
unset = replicate 64 0

abbrev sha256 : HashClass
sha256 = sha2small_class sha256_iv 8 sha256_desc unset

abbrev md5 : HashClass
md5 = md5_class unset

abbrev sha1 : HashClass
sha1 = sha1_class unset

tls12_prf_lem_example :
    (tls12_prf sha256 12 secret label seed
      ≡ some (take 12 (p_hash sha256 (sha_of sha256_iv 8) secret (label_bytes label ++ seed) 12)))
    × (12 ≤ length (p_hash sha256 (sha_of sha256_iv 8) secret (label_bytes label ++ seed) 12))
tls12_prf_lem_example =
    tls12_prf_lem sha256 (sha_of sha256_iv 8) (Holds sha2small_round sha256_iv)
      (sha2small-IsHash unset refl).1 (omega arith) 12 secret label seed

tls10_prf_lem_example :
    tls10_prf md5 sha1 12 secret label seed
    ≡ some (
        xor_into
          (take 12 (p_hash md5 md5_of (1 ∷ 2 ∷ []) (label_bytes label ++ seed) 12))
          (p_hash sha1 sha1_of (2 ∷ 3 ∷ []) (label_bytes label ++ seed) 12))
tls10_prf_lem_example =
    tls10_prf_lem md5 sha1 md5_of sha1_of (Holds md5_round md5_iv) (Holds sha1_round sha1_iv)
      (md5-IsHash unset refl) (sha1-IsHash unset refl) (omega arith) (omega arith) 12 secret label
      seed
