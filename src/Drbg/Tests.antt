-- ===== src/Drbg/Tests.antt =====
-- The generator on the small hash function of the HMAC tests.
use bearssl.Common.{ℕ, ◌+◌, ◌<◌, ◌≤◌, ◌≡◌, arith, some, [], ◌∷◌, length, take}
use bearssl.Hmac.{digest_size}
use bearssl.Hmac.Tests.{toy, toy_hash, Same, toy-IsHash}
use bearssl.Drbg.{Drbg, drbg_update, generate}
use bearssl.Drbg.Laws.{value_after, blocks}
use bearssl.Drbg.Generate.{generate_lem}

abbrev seeded : Drbg
seeded = record { k = 1 ∷ 2 ∷ 3 ∷ 4 ∷ []; v = 5 ∷ 6 ∷ 7 ∷ 8 ∷ [] }

generate_lem_example :
    (n : ℕ) × (10 ≤ length (blocks toy toy_hash seeded.k seeded.v n))
    × (length (blocks toy toy_hash seeded.k seeded.v n) < 10 + digest_size toy)
    × (generate toy seeded 10
        ≡ some (
          take 10 (blocks toy toy_hash seeded.k seeded.v n),
          drbg_update toy
              (record { k = seeded.k; v = value_after toy toy_hash seeded.k seeded.v n })
              [],
        ))
generate_lem_example = generate_lem toy toy_hash Same toy-IsHash (omega arith) seeded 10
