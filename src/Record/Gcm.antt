-- ===== src/Record/Gcm.antt =====
-- GCM records: src/ssl/ssl_rec_gcm.c.
pub mod Laws
use bearssl.Common.{
  ℕ, ◌+◌, ◌-◌, ◌%◌, ◌/◌, ◌^◌, Bool, ◌&&◌, ltb, leb, ◌==◌, if◌then◌else◌, Option, none, some, List,
  [], ◌∷◌, ◌++◌, take, length, replicate, u64, ◌<<<◌,
}
use bearssl.Codec.{enc64be}
use bearssl.Engine.State.{Memory, size_add, size_sub, RecordLayer}
use bearssl.Engine.Buffers.{write_bytes}
use bearssl.Prf.{xor_into}
use bearssl.Record.Bytes.{read_bytes, differ_loop, put_header}
use bearssl.Record.Chapol.{record_header}

-- What the code calls: a block cipher in CTR mode (`br_block_ctr_class`), which turns a key into a
-- context, and runs on an IV, a counter and data; and `br_ghash`, from `y`, `h` and data to `y`.
pub record GcmCalls : Type 1 where
  pub Keyed : Type 0
  pub ctr_init : List ℕ → Keyed
  pub ctr_run : Keyed → List ℕ → ℕ → List ℕ → List ℕ
  pub ghash : List ℕ → List ℕ → List ℕ → List ℕ

-- `br_sslrec_gcm_context`
pub record GcmContext (Keyed : Type 0) : Type 0 where
  pub seq : ℕ
  pub bc : Keyed
  pub iv : List ℕ
  pub h : List ℕ

module _ (I : GcmCalls) where
  -- `gen_gcm_init`
  pub gen_gcm_init : List ℕ → List ℕ → GcmContext I.Keyed
  gen_gcm_init key iv =
      let bc = I.ctr_init key in
      record {
        seq = 0;
        bc = bc;
        iv = take 4 iv;
        h = I.ctr_run bc (replicate 12 0) 0 (replicate 16 0);
      }

  -- `gcm_check_length`
  unfoldable pub gcm_check_length : GcmContext I.Keyed → ℕ → Bool
  gcm_check_length ctx rlen = leb 24 rlen && leb rlen (16384 + 24)

  -- `do_tag`: the context and the tag.
  unfoldable pub do_tag : GcmContext I.Keyed → ℕ → ℕ → List ℕ → GcmContext I.Keyed × List ℕ
  do_tag ctx record_type version data' =
      let len = length data' in
      let header = record_header ctx.seq record_type version len in
      let footer = enc64be (u64 (13 <<< 3)) ++ enc64be (u64 (len <<< 3)) in
      let tag1 = I.ghash (replicate 16 0) ctx.h header in
      let tag2 = I.ghash tag1 ctx.h data' in
      (record ctx { seq = u64 (ctx.seq + 1) }, I.ghash tag2 ctx.h footer)

  -- `do_ctr`: the data, and the block at `xortag`.
  unfoldable pub do_ctr : GcmContext I.Keyed → List ℕ → List ℕ → List ℕ → List ℕ × List ℕ
  do_ctr ctx nonce data' xortag =
      let iv = take 4 ctx.iv ++ take 8 nonce in
      (I.ctr_run ctx.bc iv 2 data', I.ctr_run ctx.bc iv 1 xortag)

  -- `gcm_decrypt`
  unfoldable pub gcm_decrypt :
      GcmContext I.Keyed → ℕ → ℕ → ℕ → ℕ → Memory → Option (ℕ × ℕ) × GcmContext I.Keyed × Memory
  gcm_decrypt ctx record_type version data' data_len m =
      let buf = data' + 8 in
      let len = size_sub data_len 24 in
      let (ctx', tag) = do_tag ctx record_type version (read_bytes m buf len) in
      let (out, xored) = do_ctr ctx' (read_bytes m data' 8) (read_bytes m buf len) tag in
      let m' = write_bytes m buf out in
      let bad = differ_loop 0 xored (read_bytes m' (buf + len) 16) in
      ((if bad == 0 then some (buf, len) else none), ctx', m')

  -- `gcm_max_plaintext`
  unfoldable pub gcm_max_plaintext : GcmContext I.Keyed → ℕ → ℕ → ℕ × ℕ
  gcm_max_plaintext ctx start0 end =
      let start = size_add start0 8 in
      let len = size_sub (size_sub end start) 16 in
      (start, size_add start (if ltb 16384 len then 16384 else len))

  -- `gcm_encrypt`
  unfoldable pub gcm_encrypt :
      GcmContext I.Keyed → ℕ → ℕ → ℕ → ℕ → Memory → ℕ × ℕ × GcmContext I.Keyed × Memory
  gcm_encrypt ctx record_type version buf len m =
      let m1 = write_bytes m (size_sub buf 8) (enc64be ctx.seq) in
      let (out, tmp) =
        do_ctr ctx (read_bytes m1 (size_sub buf 8) 8) (read_bytes m1 buf len) (replicate 16 0) in
      let m2 = write_bytes m1 buf out in
      let (ctx', tag) = do_tag ctx record_type version (read_bytes m2 buf len) in
      let m3 = write_bytes m2 (buf + len) tag in
      let m4 = write_bytes m3 (buf + len) (xor_into (read_bytes m3 (buf + len) 16) tmp) in
      let len' = size_add len 24 in
      let start = size_sub buf 13 in
      (start, size_add len' 5, ctx', put_header m4 start record_type version len')

  -- `br_sslrec_in_gcm_vtable` and `br_sslrec_out_gcm_vtable`
  abbrev pub gcm_layer : Type 0 → RecordLayer
  gcm_layer Cpu = record {
    In = GcmContext I.Keyed;
    Out = GcmContext I.Keyed;
    Cpu = Cpu;
    check_length = gcm_check_length;
    decrypt = gcm_decrypt;
    max_plaintext = gcm_max_plaintext;
    encrypt = gcm_encrypt;
  }
