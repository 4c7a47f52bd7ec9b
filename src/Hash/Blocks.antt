-- ===== src/Hash/Blocks.antt =====
-- What the hash functions of src/hash/ with blocks of 64 bytes share: the buffering of the update
-- functions, and the end of the out functions. `round` is the compression function.
pub mod Spec
pub mod Update
pub mod Laws
use bearssl.Common.{
  ℕ, zero, suc, ◌+◌, ◌-◌, ◌*◌, ◌%◌, ◌^◌, ltb, ◌==◌, if◌then◌else◌, List, [], ◌∷◌, ◌++◌, length,
  take, drop, replicate, u64,
}

-- The fields of `br_sha224_context`, `br_sha1_context` and `br_md5_context`.
pub record Context : Type 0 where
  pub buf : List ℕ
  pub count : ℕ
  pub val : List ℕ

-- `memcpy(buf + ptr, bytes, n)`
abbrev pub overlay : List ℕ → ℕ → List ℕ → List ℕ
overlay buf ptr bytes = take ptr buf ++ (bytes ++ drop (ptr + length bytes) buf)

module _ (round : List ℕ → List ℕ → List ℕ) where
  -- The loop of the update functions on fuel: the buffer and the values.
  unfoldable pub update_loop : ℕ → ℕ → List ℕ → List ℕ → List ℕ → List ℕ × List ℕ
  update_loop zero ptr buf val data' = (buf, val)
  update_loop (suc fuel) ptr buf val data' =
      let len = length data' in
      let clen = if ltb len (64 - ptr) then len else 64 - ptr in
      let buf' = overlay buf ptr (take clen data') in
      let full = ptr + clen == 64 in
      let rest =
        update_loop fuel (if full then 0 else ptr + clen) buf'
          (if full then round buf' val else val) (drop clen data') in
      if len == 0 then (buf, val) else rest

  -- An update function, with as much fuel as bytes.
  unfoldable pub blocks_update : Context → List ℕ → Context
  blocks_update ctx data' =
      let loop = update_loop (length data') (ctx.count % 64) ctx.buf ctx.val data' in
      record { buf = loop.0; count = u64 (ctx.count + length data'); val = loop.1 }

  -- An out function up to the encoding of the values; `bits` is the encoded length.
  unfoldable pub final_values : Context → List ℕ → List ℕ
  final_values ctx bits =
      let ptr0 = ctx.count % 64 in
      let ptr = ptr0 + 1 in
      let buf0 = take ptr0 ctx.buf ++ (0x80 ∷ []) in
      if ltb 56 ptr
      then round (replicate 56 0 ++ bits) (round (buf0 ++ replicate (64 - ptr) 0) ctx.val)
      else round (buf0 ++ (replicate (56 - ptr) 0 ++ bits)) ctx.val
