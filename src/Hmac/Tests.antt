-- ===== src/Hmac/Tests.antt =====
-- HMAC on a small hash function: four bytes of output, blocks of eight bytes.
use bearssl.Common.{ℕ, ◌%◌, ◌≡◌, refl, arith, ap, List, [], ◌∷◌, ◌++◌, length, get_or, take}
use bearssl.Hmac.{HashClass, key_init, hmac_init, hmac_out}
use bearssl.Hmac.Laws.{IsHash, hmac_of, hmac_updates, chosen_len, hmac_lem}

abbrev pub toy_hash : List ℕ → List ℕ
toy_hash m = length m % 256 ∷ get_or m 0 0 ∷ get_or m 9 0 ∷ get_or m 12 0 ∷ []

-- BR_HASHDESC_OUT(4) and BR_HASHDESC_LBLEN(3)
abbrev pub toy : HashClass
toy = record {
  Context = List ℕ;
  State = List ℕ;
  desc = 25166848;
  start = [];
  inject = λ c d. c ++ d;
  out = toy_hash;
  state = λ c. c;
  set_state = λ c s n. s;
}

abbrev pub Same : List ℕ → List ℕ → Type 0
Same c m = c ≡ m

pub toy-IsHash : IsHash toy toy_hash Same
toy-IsHash = record {
  start_holds = refl;
  inject_holds = λ c m d e. ap (λ t. t ++ d) e;
  out_holds = λ c m e. ap toy_hash e;
  restored = λ c m e n. e;
  size = λ m. refl;
  fits = omega arith;
}

hmac_lem_example :
    hmac_out toy (
      hmac_updates toy
        (hmac_init toy (key_init toy (1 ∷ 2 ∷ 3 ∷ [])) 2)
        ((7 ∷ []) ∷ (8 ∷ 9 ∷ []) ∷ []))
    ≡ take (chosen_len toy 2) (hmac_of toy toy_hash (1 ∷ 2 ∷ 3 ∷ []) (7 ∷ 8 ∷ 9 ∷ []))
hmac_lem_example =
    hmac_lem toy toy_hash Same toy-IsHash (1 ∷ 2 ∷ 3 ∷ []) 2 ((7 ∷ []) ∷ (8 ∷ 9 ∷ []) ∷ [])
