-- ===== src/Engine/Keys/Mirror.antt =====
-- The two peers of a session take matching keys, from parts of the key block that do not overlap.
use bearssl.Common.{
  ℕ, zero, suc, ◌+◌, ◌*◌, ◌≡◌, refl, sym, ap, ◌∙◌, arith, Bool, true, false, not, List, [], ◌∷◌,
  ◌++◌, length, drop, drop-drop, take-append-drop,
}
use bearssl.Engine.Keys.{
  Session, slice, cbc_first, cbc_second, cbc_in_keys, cbc_out_keys, gcm_in_keys, gcm_out_keys,
  chapol_in_keys, chapol_out_keys,
}

-- A slice, and what follows it.
split_at :
    (kb : List ℕ) (off len next : ℕ)
    → off + len ≡ next
    → drop off kb ≡ slice kb off len ++ drop next kb
split_at kb off len next e =
    sym (take-append-drop len (drop off kb))
    ∙ ap (λ t. slice kb off len ++ t) (drop-drop off len kb ∙ ap (λ (k : ℕ). drop k kb) e)

drop_all : (n : ℕ) (xs : List ℕ) → length xs ≡ n → drop n xs ≡ []
drop_all zero [] e = refl
drop_all (suc n) [] e = refl
drop_all zero (x ∷ xs) e = absurd (omega arith)
drop_all (suc n) (x ∷ xs) e = drop_all n xs (omega arith)

-- The key block of RFC 5246 is, in this order, the MAC keys, the cipher keys and the IVs of the
-- client and of the server. The first and the second choice of the code are the client's and the
-- server's parts of it, for any lengths, when the block has twice their sum.
pub cbc_key_block_lem :
    (kb : List ℕ) (mac key iv : ℕ)
    → length kb ≡ (mac + key + iv) * 2
    → let client = cbc_first kb mac key iv in
      let server = cbc_second kb mac key iv in
      kb
      ≡ client.mac_key
        ++ (server.mac_key
            ++ (client.cipher_key ++ (server.cipher_key ++ (client.iv ++ (server.iv ++ [])))))
unfolding cbc_first cbc_second
cbc_key_block_lem kb mac key iv e =
    split_at kb 0 mac mac (omega arith)
    ∙ ap (λ t. slice kb 0 mac ++ t)
        (split_at kb mac mac (mac * 2) (omega arith)
          ∙ ap (λ t. slice kb mac mac ++ t)
              (split_at kb (mac * 2) key (mac * 2 + key) (omega arith)
                ∙ ap (λ t. slice kb (mac * 2) key ++ t)
                    (split_at kb (mac * 2 + key) key ((mac + key) * 2) (omega arith)
                      ∙ ap (λ t. slice kb (mac * 2 + key) key ++ t)
                          (split_at kb ((mac + key) * 2) iv ((mac + key) * 2 + iv) (omega arith)
                            ∙ ap (λ t. slice kb ((mac + key) * 2) iv ++ t)
                                (split_at kb ((mac + key) * 2 + iv) iv (length kb) (omega arith)
                                  ∙ ap (λ t. slice kb ((mac + key) * 2 + iv) iv ++ t)
                                      (drop_all (length kb) kb refl))))))

-- Two peers of one session, one of which is the client, compute matching keys for every protection:
-- what one encrypts with is what the other decrypts with.
pub mirrored_cbc :
    (s : Session) (is_client : Bool) (prf_id mac_out_len block_size cipher_key_len : ℕ)
    → cbc_in_keys s (not is_client) prf_id mac_out_len block_size cipher_key_len
      ≡ cbc_out_keys s is_client prf_id mac_out_len block_size cipher_key_len
unfolding cbc_in_keys cbc_out_keys
mirrored_cbc s true prf_id mac_out_len block_size cipher_key_len = refl
mirrored_cbc s false prf_id mac_out_len block_size cipher_key_len = refl

pub mirrored_gcm :
    (s : Session) (is_client : Bool) (prf_id cipher_key_len : ℕ)
    → gcm_in_keys s (not is_client) prf_id cipher_key_len
      ≡ gcm_out_keys s is_client prf_id cipher_key_len
unfolding gcm_in_keys gcm_out_keys
mirrored_gcm s true prf_id cipher_key_len = refl
mirrored_gcm s false prf_id cipher_key_len = refl

pub mirrored_chapol :
    (s : Session) (is_client : Bool) (prf_id : ℕ)
    → chapol_in_keys s (not is_client) prf_id ≡ chapol_out_keys s is_client prf_id
unfolding chapol_in_keys chapol_out_keys
mirrored_chapol s true prf_id = refl
mirrored_chapol s false prf_id = refl
