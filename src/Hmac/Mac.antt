-- ===== src/Hmac/Mac.antt =====
-- HMAC of one, two and three pieces of data, without a chosen output length.
use bearssl.Common.{ℕ, ◌≡◌, ap, ◌∙◌, List, [], ◌∷◌, ◌++◌}
use bearssl.Hmac.{HashClass, key_init, hmac_init, hmac_update, hmac_out}
use bearssl.Hmac.Laws.{IsHash, hmac_of, hmac_updates, hmac_full, append_nil}

module _ (dig : HashClass) (hash : List ℕ → List ℕ) (Holds : dig.Context → List ℕ → Type 0)
    (law : IsHash dig hash Holds) where
  pub mac_one :
      (key a : List ℕ)
      → hmac_out dig (hmac_update dig (hmac_init dig (key_init dig key) 0) a)
        ≡ hmac_of dig hash key a
  unfolding hmac_updates
  mac_one key a =
      hmac_full dig hash Holds law key (a ∷ []) ∙ ap (hmac_of dig hash key) (append_nil a)

  pub mac_two :
      (key a b : List ℕ)
      → hmac_out dig (hmac_update dig (hmac_update dig (hmac_init dig (key_init dig key) 0) a) b)
        ≡ hmac_of dig hash key (a ++ b)
  unfolding hmac_updates
  mac_two key a b =
      hmac_full dig hash Holds law key (a ∷ b ∷ [])
      ∙ ap (λ t. hmac_of dig hash key (a ++ t)) (append_nil b)

  pub mac_three :
      (key a b c : List ℕ)
      → hmac_out dig (
          hmac_update dig
            (hmac_update dig (hmac_update dig (hmac_init dig (key_init dig key) 0) a) b)
            c)
        ≡ hmac_of dig hash key (a ++ (b ++ c))
  unfolding hmac_updates
  mac_three key a b c =
      hmac_full dig hash Holds law key (a ∷ b ∷ c ∷ [])
      ∙ ap (λ t. hmac_of dig hash key (a ++ (b ++ t))) (append_nil c)
