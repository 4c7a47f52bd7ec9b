-- ===== src/Record/Chapol.antt =====
-- ChaCha20+Poly1305 records: src/ssl/ssl_rec_chapol.c.
pub mod Laws
use bearssl.Common.{
  ℕ, zero, suc, ◌+◌, ◌-◌, ◌%◌, ◌/◌, ◌^◌, Bool, true, false, ◌&&◌, ltb, leb, ◌==◌, if◌then◌else◌,
  Option, none, some, List, [], ◌∷◌, ◌++◌, get_or, set, take, length, bit_xor, u8, u64, ◌>>>◌,
}
use bearssl.Codec.{enc16be, enc64be}
use bearssl.Engine.State.{Memory, size_add, size_sub, RecordLayer}
use bearssl.Engine.Buffers.{write_bytes}
use bearssl.Record.Bytes.{read_bytes, differ_loop, put_header}

-- `br_sslrec_chapol_context`, without the implementations that it points to.
pub record ChapolContext : Type 0 where
  pub seq : ℕ
  pub key : List ℕ
  pub iv : List ℕ

-- `br_poly1305_run` with the ChaCha20 that it is given: from key, nonce, data, additional data and
-- the direction to the data after the call and the tag.
abbrev pub Poly : Type 0
Poly = List ℕ → List ℕ → List ℕ → List ℕ → Bool → List ℕ × List ℕ

-- `gen_chapol_init`
pub gen_chapol_init : List ℕ → List ℕ → ChapolContext
gen_chapol_init key iv = record { seq = 0; key = take 32 key; iv = take 12 iv }

-- The loop that xors the sequence number into the nonce, from its last byte on.
unfoldable pub mask_nonce : ℕ → ℕ → List ℕ → ℕ → List ℕ
mask_nonce zero u nonce seq = nonce
mask_nonce (suc n) u nonce seq =
    mask_nonce n (u + 1) (set nonce (11 - u) (bit_xor (get_or nonce (11 - u) 0) (u8 seq)))
      (seq >>> 8)

-- The additional data: sequence number, type, version and length.
unfoldable pub record_header : ℕ → ℕ → ℕ → ℕ → List ℕ
record_header seq record_type version len =
    enc64be seq ++ (u8 record_type ∷ (enc16be version ++ enc16be len))

module _ (ipoly : Poly) where
  -- `gen_chapol_process`: the context, the data and the tag after the call.
  unfoldable pub gen_chapol_process :
      ChapolContext → ℕ → ℕ → List ℕ → Bool → ChapolContext × List ℕ × List ℕ
  gen_chapol_process ctx record_type version data' encrypt =
      let header = record_header ctx.seq record_type version (length data') in
      let nonce = mask_nonce 8 0 ctx.iv ctx.seq in
      let (out, tag) = ipoly ctx.key nonce data' header encrypt in
      (record ctx { seq = u64 (ctx.seq + 1) }, out, tag)

  -- `chapol_check_length`
  unfoldable pub chapol_check_length : ChapolContext → ℕ → Bool
  chapol_check_length ctx rlen = leb 16 rlen && leb rlen (16384 + 16)

  -- `chapol_decrypt`
  unfoldable pub chapol_decrypt :
      ChapolContext → ℕ → ℕ → ℕ → ℕ → Memory → Option (ℕ × ℕ) × ChapolContext × Memory
  chapol_decrypt ctx record_type version buf data_len m =
      let len = size_sub data_len 16 in
      let (ctx', out, tag) =
        gen_chapol_process ctx record_type version (read_bytes m buf len) false in
      let m' = write_bytes m buf out in
      let bad = differ_loop 0 tag (read_bytes m' (buf + len) 16) in
      ((if bad == 0 then some (buf, len) else none), ctx', m')

  -- `chapol_max_plaintext`
  unfoldable pub chapol_max_plaintext : ChapolContext → ℕ → ℕ → ℕ × ℕ
  chapol_max_plaintext ctx start end =
      let len = size_sub (size_sub end start) 16 in
      (start, size_add start (if ltb 16384 len then 16384 else len))

  -- `chapol_encrypt`
  unfoldable pub chapol_encrypt :
      ChapolContext → ℕ → ℕ → ℕ → ℕ → Memory → ℕ × ℕ × ChapolContext × Memory
  chapol_encrypt ctx record_type version data' len m =
      let (ctx', out, tag) =
        gen_chapol_process ctx record_type version (read_bytes m data' len) true in
      let m1 = write_bytes (write_bytes m data' out) (data' + len) tag in
      let buf = size_sub data' 5 in
      (buf, size_add len 21, ctx', put_header m1 buf record_type version (size_add len 16))

  -- `br_sslrec_in_chapol_vtable` and `br_sslrec_out_chapol_vtable`
  abbrev pub chapol_layer : Type 0 → RecordLayer
  chapol_layer Cpu = record {
    In = ChapolContext;
    Out = ChapolContext;
    Cpu = Cpu;
    check_length = chapol_check_length;
    decrypt = chapol_decrypt;
    max_plaintext = chapol_max_plaintext;
    encrypt = chapol_encrypt;
  }
