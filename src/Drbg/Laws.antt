-- ===== src/Drbg/Laws.antt =====
-- What src/rand/hmac_drbg.c computes: HMAC_DRBG of NIST SP 800-90A.
use bearssl.Common.{ℕ, zero, suc, ◌≡◌, refl, ◌==◌, if◌then◌else◌, List, [], ◌∷◌, ◌++◌, length}
use bearssl.Hmac.{HashClass}
use bearssl.Hmac.Laws.{IsHash, hmac_of}
use bearssl.Hmac.Mac.{mac_one, mac_three}
use bearssl.Drbg.{Drbg, drbg_update}

module _ (dig : HashClass) (hash : List ℕ → List ℕ) where
  -- HMAC_DRBG_Update
  unfoldable pub update_of : Drbg → List ℕ → Drbg
  update_of ctx seed =
      let mac = hmac_of dig hash in
      let k1 = mac ctx.k (ctx.v ++ (0x00 ∷ seed)) in
      let v1 = mac k1 ctx.v in
      let k2 = mac k1 (v1 ++ (0x01 ∷ seed)) in
      if length seed == 0 then record { k = k1; v = v1 } else record { k = k2; v = mac k2 v1 }

  -- `V` after some blocks, and the blocks one after the other.
  unfoldable pub value_after : List ℕ → List ℕ → ℕ → List ℕ
  value_after key v zero = v
  value_after key v (suc n) = value_after key (hmac_of dig hash key v) n

  unfoldable pub blocks : List ℕ → List ℕ → ℕ → List ℕ
  blocks key v zero = []
  blocks key v (suc n) = let v' = hmac_of dig hash key v in v' ++ blocks key v' n

  module _ (Holds : dig.Context → List ℕ → Type 0) (law : IsHash dig hash Holds) where
    -- With a hash function as documented, `br_hmac_drbg_update` is HMAC_DRBG_Update of SP 800-90A
    -- on every state and seed, the empty seed included.
    pub drbg_update_lem :
        (ctx : Drbg) (seed : List ℕ) → drbg_update dig ctx seed ≡ update_of ctx seed
    unfolding drbg_update update_of
    drbg_update_lem ctx seed = simp (mac_three dig hash Holds law, mac_one dig hash Holds law) refl
