-- ===== src/Drbg.antt =====
-- The deterministic generator HMAC_DRBG of src/rand/hmac_drbg.c.
pub mod Laws
pub mod Generate
mod Tests
use bearssl.Common.{
  ℕ, zero, suc, ◌+◌, ◌-◌, ◌==◌, ltb, if◌then◌else◌, Option, none, some, List, [], ◌∷◌, ◌++◌, length,
  take, replicate,
}
use bearssl.Hmac.{HashClass, KeyContext, digest_size, key_init, hmac_init, hmac_update, hmac_out}

-- `br_hmac_drbg_context`; the hash function is a parameter of the operations.
pub record Drbg : Type 0 where
  pub k : List ℕ
  pub v : List ℕ

module _ (dig : HashClass) where
  -- `br_hmac_drbg_update`
  pub drbg_update : Drbg → List ℕ → Drbg
  drbg_update ctx seed =
      let start = hmac_init dig (key_init dig ctx.k) 0 in
      let k1 =
        hmac_out dig
          (hmac_update dig (hmac_update dig (hmac_update dig start ctx.v) (0x00 ∷ [])) seed) in
      let keyed1 = hmac_init dig (key_init dig k1) 0 in
      let v1 = hmac_out dig (hmac_update dig keyed1 ctx.v) in
      let k2 =
        hmac_out dig
          (hmac_update dig (hmac_update dig (hmac_update dig keyed1 v1) (0x01 ∷ [])) seed) in
      let v2 = hmac_out dig (hmac_update dig (hmac_init dig (key_init dig k2) 0) v1) in
      if length seed == 0 then record { k = k1; v = v1 } else record { k = k2; v = v2 }

  -- `br_hmac_drbg_init`
  pub drbg_init : List ℕ → Drbg
  unfolding drbg_update
  drbg_init seed =
      let hlen = digest_size dig in
      drbg_update (record { k = replicate hlen 0x00; v = replicate hlen 0x01 }) seed

  prepend : List ℕ → Option (List ℕ × List ℕ) → Option (List ℕ × List ℕ)
  prepend out none = none
  prepend out (some (rest, v)) = some (out ++ rest, v)

  -- The loop of `br_hmac_drbg_generate`, on fuel: the bytes, and `V` after it.
  pub generate_loop : ℕ → KeyContext dig → List ℕ → ℕ → Option (List ℕ × List ℕ)
  unfolding prepend
  generate_loop zero kc v len = if len == 0 then some ([], v) else none
  generate_loop (suc fuel) kc v len =
      let hlen = digest_size dig in
      let v' = hmac_out dig (hmac_update dig (hmac_init dig kc 0) v) in
      let clen = if ltb len hlen then len else hlen in
      let rest = generate_loop fuel kc v' (len - clen) in
      if len == 0 then some ([], v) else prepend (take clen v') rest

  -- What `br_hmac_drbg_generate` does after the loop.
  pub after_generate : KeyContext dig → Option (List ℕ × List ℕ) → Option (List ℕ × Drbg)
  after_generate kc none = none
  after_generate kc (some (out, v)) =
      let k' =
        hmac_out dig (hmac_update dig (hmac_update dig (hmac_init dig kc 0) v) (0x00 ∷ [])) in
      let v' = hmac_out dig (hmac_update dig (hmac_init dig (key_init dig k') 0) v) in
      some (out, record { k = k'; v = v' })

  -- `br_hmac_drbg_generate`: the bytes, and the generator after the call. As much fuel as bytes.
  pub generate : Drbg → ℕ → Option (List ℕ × Drbg)
  unfolding generate_loop after_generate
  generate ctx len =
      let kc = key_init dig ctx.k in after_generate kc (generate_loop len kc ctx.v len)
