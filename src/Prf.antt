-- ===== src/Prf.antt =====
-- The TLS pseudorandom functions: src/ssl/prf.c, prf_md5sha1.c, prf_sha256.c and prf_sha384.c.
pub mod Laws
mod Tests
use bearssl.Common.{
  ℕ, zero, suc, ◌+◌, ◌-◌, ◌/◌, ◌^◌, ◌==◌, if◌then◌else◌, Option, none, some, List, [], ◌∷◌, ◌++◌,
  length, take, drop, replicate, bit_xor, ◌>>>◌,
}
use bearssl.Hmac.{HashClass, KeyContext, digest_size, key_init, hmac_init, hmac_update, hmac_out}

-- `buf[u] ^= tmp[u]`, up to the end of the shorter one.
unfoldable pub xor_into : List ℕ → List ℕ → List ℕ
xor_into [] tmp = []
xor_into (b ∷ buf) [] = b ∷ buf
xor_into (b ∷ buf) (t ∷ tmp) = bit_xor b t ∷ xor_into buf tmp

-- `label[0 .. label_len)`: up to the zero that ends the string.
pub label_bytes : List ℕ → List ℕ
label_bytes [] = []
label_bytes (b ∷ bs) = let rest = label_bytes bs in if b == 0 then [] else b ∷ rest

pub join_rest : List ℕ → Option (List ℕ) → Option (List ℕ)
join_rest done none = none
join_rest done (some rest) = some (done ++ rest)

module _ (dig : HashClass) where
  -- The loop of `br_tls_phash`, on fuel.
  pub phash_loop : ℕ → KeyContext dig → List ℕ → List ℕ → List ℕ → List ℕ → Option (List ℕ)
  unfolding join_rest
  phash_loop zero kc label seed a buf = none
  phash_loop (suc fuel) kc label seed a buf =
      let hlen = digest_size dig in
      let tmp =
        hmac_out dig
          (hmac_update dig (hmac_update dig (hmac_update dig (hmac_init dig kc 0) a) label) seed) in
      let done = xor_into (take hlen buf) tmp in
      let rest = drop hlen buf in
      let a' = hmac_out dig (hmac_update dig (hmac_init dig kc 0) a) in
      let more = phash_loop fuel kc label seed a' rest in
      if length rest == 0 then some done else join_rest done more

  -- `br_tls_phash`: `dst` after the call. As much fuel as bytes.
  pub phash : List ℕ → List ℕ → List ℕ → List ℕ → Option (List ℕ)
  unfolding phash_loop
  phash dst secret label_z seed =
      let label = label_bytes label_z in
      let kc = key_init dig secret in
      let a = hmac_out dig (hmac_update dig (hmac_update dig (hmac_init dig kc 0) label) seed) in
      if length dst == 0 then some dst else phash_loop (length dst) kc label seed a dst

  -- `br_tls12_sha256_prf` and `br_tls12_sha384_prf`
  pub tls12_prf : ℕ → List ℕ → List ℕ → List ℕ → Option (List ℕ)
  unfolding phash
  tls12_prf len secret label seed = phash (replicate len 0) secret label seed

module _ (md5 sha1 : HashClass) where
  second_half : List ℕ → List ℕ → List ℕ → Option (List ℕ) → Option (List ℕ)
  second_half secret label seed none = none
  second_half secret label seed (some dst) = phash sha1 dst secret label seed

  -- `br_tls10_prf`
  pub tls10_prf : ℕ → List ℕ → List ℕ → List ℕ → Option (List ℕ)
  unfolding second_half
  tls10_prf len secret label seed =
      let slen = (length secret + 1) >>> 1 in
      second_half (drop (length secret - slen) secret) label seed
        (phash md5 (replicate len 0) (take slen secret) label seed)
