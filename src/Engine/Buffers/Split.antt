-- ===== src/Engine/Buffers/Split.antt =====
-- How `br_ssl_engine_set_buffer` splits one buffer in full-duplex mode.
use bearssl.Common.{
  ℕ, ◌+◌, ◌-◌, ◌*◌, ◌^◌, ◌≤◌, ◌<◌, ◌≡◌, ◌≢◌, ◌⊎◌, refl, arith, true, ltb, if◌then◌else◌, ne→==,
  le→ltb,
}
use bearssl.Engine.State.{size_sub, size_add, null, RecordLayer, Engine}
use bearssl.Engine.Buffers.{
  max_in_overhead, max_out_overhead, output_part, fail, make_ready_in, make_ready_out, start_clear,
  reset_state, with_frag_log, with_buffers, set_buffers_bidi, set_buffer,
}

output_part_cases :
    (len : ℕ) → (output_part len ≡ (if ltb len 17306 then 597 else size_sub len 16709))
unfolding output_part
output_part_cases len = refl

output_part_le :
    (len : ℕ) → 1434 ≤ len → len < 2 ^ 63 → (output_part len ≤ len) × (597 ≤ output_part len)
unfolding output_part
output_part_le len h small = ground arith

module _ (R : RecordLayer) where
  -- The buffers that the setup leaves in place, whether it fails or not.
  with_buffers_kept :
      (rc : Engine R) (ibuf ilen obuf olen : ℕ)
      → let rc' = with_buffers R rc ibuf ilen obuf olen in
        (rc'.ibuf ≡ ibuf) × (rc'.ibuf_len ≡ ilen) × (rc'.obuf ≡ obuf) × (rc'.obuf_len ≡ olen)
  unfolding with_buffers fail start_clear with_frag_log make_ready_in make_ready_out
  with_buffers_kept rc ibuf ilen obuf olen = ground arith

  -- The two parts, as addresses and lengths.
  set_buffer_parts :
      (rc : Engine R) (buf len : ℕ)
      → buf ≢ null
      → size_add buf (output_part len) ≢ null
      → 512 + max_in_overhead + 512 + max_out_overhead ≤ len
      → let rc' = set_buffer R rc buf len true in
        (rc'.ibuf ≡ buf)
        × (rc'.ibuf_len ≡ size_sub len (output_part len))
        × (rc'.obuf ≡ size_add buf (output_part len))
        × (rc'.obuf_len ≡ output_part len)
  unfolding set_buffer set_buffers_bidi
  set_buffer_parts rc buf len hb ho big =
      rw (ne→== buf null hb, le→ltb len 1434 big, ne→== (size_add buf (output_part len)) null ho)
        (with_buffers_kept (reset_state R rc) buf (size_sub len (output_part len))
          (size_add buf (output_part len)) (output_part len))

  -- In full-duplex mode `br_ssl_engine_set_buffer`, on a buffer of 1434 bytes or more at an
  -- address that is not 0, where the address plus twice the length is below 2^63, puts the input
  -- part at the start of the buffer, of all but `w` bytes, and the output part, of `w` bytes, at
  -- offset `w`, where `w` is 597 for a buffer of fewer than 17306 bytes, and leaves 16709 bytes
  -- to the input for a longer one. For a buffer of fewer than 33418 bytes the two parts overlap,
  -- and for one of more the output part runs past the end of the buffer. They are side by side
  -- only at 33418 bytes.
  pub set_buffer_split :
      (rc : Engine R) (buf len : ℕ)
      → buf ≢ null
      → 512 + max_in_overhead + 512 + max_out_overhead ≤ len
      → buf + 2 * len < 2 ^ 63
      → let rc' = set_buffer R rc buf len true in
        let w = if ltb len 17306 then 597 else len - 16709 in
        ((rc'.ibuf ≡ buf) × (rc'.ibuf_len ≡ len - w) × (rc'.obuf ≡ buf + w) × (rc'.obuf_len ≡ w))
        × (((len < 33418) × (rc'.ibuf ≤ rc'.obuf) × (rc'.obuf < rc'.ibuf + rc'.ibuf_len))
            ⊎ ((len ≡ 33418)
                × (rc'.obuf ≡ rc'.ibuf + rc'.ibuf_len)
                × (rc'.obuf + rc'.obuf_len ≡ buf + len))
            ⊎ ((33418 < len) × (buf + len < rc'.obuf + rc'.obuf_len)))
  set_buffer_split rc buf len hb big small =
      let bounds = output_part_le len big (omega arith) in
      let parts = set_buffer_parts rc buf len hb (omega (arith, bounds)) big in
      (
        ground (arith, parts, output_part_cases len, bounds),
        ground (arith, parts, output_part_cases len, bounds),
      )
