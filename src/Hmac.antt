-- ===== src/Hmac.antt =====
-- HMAC of src/mac/hmac.c, over a hash function that is a `br_hash_class`.
pub mod Laws
pub mod Mac
pub mod Tests
use bearssl.Common.{
  ℕ, ◌+◌, ◌-◌, ◌*◌, ◌/◌, ◌%◌, ◌^◌, ◌&&◌, ltb, if◌then◌else◌, List, [], ◌∷◌, ◌++◌, length, take,
  replicate, map, bit_and, bit_xor, ◌>>>◌, ◌<<<◌,
}

-- The methods of a hash function. A context that `init` sets up does not depend on what it was.
pub record HashClass : Type 1 where
  pub Context : Type 0
  pub State : Type 0
  pub desc : ℕ
  pub start : Context
  pub inject : Context → List ℕ → Context
  pub out : Context → List ℕ
  pub state : Context → State
  pub set_state : Context → State → ℕ → Context

module _ (dig : HashClass) where
  -- `block_size`, with BR_HASHDESC_LBLEN_OFF and BR_HASHDESC_LBLEN_MASK
  abbrev pub block_size : ℕ
  block_size = 1 <<< bit_and (dig.desc >>> 23) 0x0f

  -- `br_digest_size` of src/inner.h
  abbrev pub digest_size : ℕ
  digest_size = bit_and (dig.desc >>> 8) 0x7f

  -- `br_hmac_key_context`
  pub record KeyContext : Type 0 where
    pub ksi : dig.State
    pub kso : dig.State

  -- `br_hmac_context`
  pub record HmacContext : Type 0 where
    pub running : dig.Context
    pub outer : dig.State
    pub out_len : ℕ

  -- `process_key`: the saved state.
  pub process_key : List ℕ → ℕ → dig.State
  process_key key bb =
      let tmp = map (λ b. bit_xor b bb) key ++ replicate (block_size - length key) bb in
      dig.state (dig.inject dig.start tmp)

  -- The key that `br_hmac_key_init` uses: a long one is hashed.
  pub short_key : List ℕ → List ℕ
  short_key key =
      if ltb block_size (length key)
      then take digest_size (dig.out (dig.inject dig.start key))
      else key

  -- `br_hmac_key_init`
  pub key_init : List ℕ → KeyContext
  key_init key =
      let k = short_key key in record { ksi = process_key k 0x36; kso = process_key k 0x5c }

  -- `br_hmac_init`
  pub hmac_init : KeyContext → ℕ → HmacContext
  hmac_init kc out_len =
      let hlen = digest_size in
      record {
        running = dig.set_state dig.start kc.ksi block_size;
        outer = kc.kso;
        out_len = (if ltb 0 out_len && ltb out_len hlen then out_len else hlen);
      }

  -- `br_hmac_update`
  pub hmac_update : HmacContext → List ℕ → HmacContext
  hmac_update ctx data' = record ctx { running = dig.inject ctx.running data' }

  -- `br_hmac_out`: the bytes written.
  pub hmac_out : HmacContext → List ℕ
  hmac_out ctx =
      let tmp = dig.out ctx.running in
      let hc = dig.set_state dig.start ctx.outer block_size in
      take ctx.out_len (dig.out (dig.inject hc (take digest_size tmp)))
