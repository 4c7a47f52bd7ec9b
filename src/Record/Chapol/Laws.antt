-- ===== src/Record/Chapol/Laws.antt =====
-- What is encrypted is decrypted, and the protection is a layer as the engine expects.
use bearssl.Common.{
  ℕ, ◌+◌, ◌-◌, ◌^◌, ◌≤◌, ◌<◌, ◌≡◌, refl, sym, ap, ◌∙◌, arith, Bool, true, false, some, List, length,
  All, IsByte, u64,
}
use bearssl.Engine.State.{Memory, size_add, size_sub}
use bearssl.Engine.Buffers.{write_bytes}
use bearssl.Engine.Receive.Ack.{HoldsBytes}
use bearssl.Engine.Run.Steps.{IsLayer}
use bearssl.Record.Bytes.{
  read_bytes, length-read_bytes, read_bytes-IsByte, write_bytes-lt, read-write, read-write_below,
  read-write_above, differ_loop_same, differ_loop-zero, read-put_header, put_header-lt, accepts,
}
use bearssl.Record.Chapol.{
  ChapolContext, Poly, gen_chapol_process, chapol_check_length, chapol_decrypt,
  chapol_max_plaintext, chapol_encrypt, chapol_layer, record_header, mask_nonce,
}

-- What is documented of the encryption with authentication in inc/bearssl_block.h: data keeps its
-- length, a tag has 16 bytes, and decryption gives the data back with the same tag.
pub record IsPoly (ipoly : Poly) : Type 0 where
  pub length_data :
      (key nonce d aad : List ℕ) (e : Bool) → length (ipoly key nonce d aad e).0 ≡ length d
  pub length_tag : (key nonce d aad : List ℕ) (e : Bool) → length (ipoly key nonce d aad e).1 ≡ 16
  pub data_bytes :
      (key nonce d aad : List ℕ) (e : Bool) → All IsByte d → All IsByte (ipoly key nonce d aad e).0
  pub tag_bytes : (key nonce d aad : List ℕ) (e : Bool) → All IsByte (ipoly key nonce d aad e).1
  pub undone :
      (key nonce d aad : List ℕ)
      → All IsByte d
      → ipoly key nonce (ipoly key nonce d aad true).0 aad false
        ≡ (d, (ipoly key nonce d aad true).1)

module _ (ipoly : Poly) (law : IsPoly ipoly) where
  -- `gen_chapol_process` as a function of the two sequence numbers, for lengths that agree.
  process_undone :
      (ctx : ChapolContext) (type version : ℕ) (d : List ℕ)
      → All IsByte d
      → gen_chapol_process ipoly ctx type version
          (gen_chapol_process ipoly ctx type version d true).1
          false
        ≡ (
          record ctx { seq = u64 (ctx.seq + 1) },
          d,
          (gen_chapol_process ipoly ctx type version d true).2,
        )
  unfolding gen_chapol_process
  process_undone ctx type version d hd =
      let nonce = mask_nonce 8 0 ctx.iv ctx.seq in
      let aad = record_header ctx.seq type version (length d) in
      let c = (ipoly ctx.key nonce d aad true).0 in
      let same =
        ap (record_header ctx.seq type version) (law.length_data ctx.key nonce d aad true) in
      rw (same, law.undone ctx.key nonce d aad hd) refl

  process-length :
      (ctx : ChapolContext) (type version : ℕ) (d : List ℕ) (e : Bool)
      → (length (gen_chapol_process ipoly ctx type version d e).1 ≡ length d)
        × (length (gen_chapol_process ipoly ctx type version d e).2 ≡ 16)
  unfolding gen_chapol_process
  process-length ctx type version d e = (law.length_data _ _ d _ e, law.length_tag _ _ d _ e)

  process-IsByte :
      (ctx : ChapolContext) (type version : ℕ) (d : List ℕ) (e : Bool)
      → All IsByte d
      → All IsByte (gen_chapol_process ipoly ctx type version d e).1
        × All IsByte (gen_chapol_process ipoly ctx type version d e).2
  unfolding gen_chapol_process
  process-IsByte ctx type version d e hd = (law.data_bytes _ _ d _ e hd, law.tag_bytes _ _ d _ e)

  -- Where the encrypted data and the tag are in memory.
  sealed :
      (ctx : ChapolContext) (type version addr n : ℕ) (m : Memory)
      → 5 ≤ addr
      → addr + n < 2 ^ 63
      → let made = gen_chapol_process ipoly ctx type version (read_bytes m addr n) true in
        let m' = (chapol_encrypt ipoly ctx type version addr n m).3 in
        (read_bytes m' addr n ≡ made.1) × (read_bytes m' (addr + n) 16 ≡ made.2)
  unfolding chapol_encrypt
  sealed ctx type version addr n m low small =
      let d = read_bytes m addr n in
      let made = gen_chapol_process ipoly ctx type version d true in
      let sizes = process-length ctx type version d true in
      let n_long = sizes.0 ∙ length-read_bytes m addr n in
      let m1 = write_bytes m addr made.1 in
      (
        read-put_header _ (size_sub addr 5) type version (size_add n 16) addr n (omega arith)
            ∙ read-write_below m1 (addr + n) made.2 addr n (omega arith)
            ∙ read-write m addr n made.1 n_long,
        read-put_header _ (size_sub addr 5) type version (size_add n 16) (addr + n) 16 (omega arith)
            ∙ read-write m1 (addr + n) 16 made.2 sizes.1,
      )

  opened :
      (ctx : ChapolContext) (type version addr len n : ℕ) (m : Memory) (d : List ℕ)
      → size_sub len 16 ≡ n
      → length d ≡ n
      → All IsByte d
      → read_bytes m addr n ≡ (gen_chapol_process ipoly ctx type version d true).1
      → read_bytes m (addr + n) 16 ≡ (gen_chapol_process ipoly ctx type version d true).2
      → let (plain, ctx', m') = chapol_decrypt ipoly ctx type version addr len m in
        (plain ≡ some (addr, n))
        × (ctx' ≡ record ctx { seq = u64 (ctx.seq + 1) })
        × (read_bytes m' addr n ≡ d)
  unfolding chapol_decrypt
  opened ctx type version addr len n m d size long hd data_there tag_there =
      let made = gen_chapol_process ipoly ctx type version d true in
      let tag_kept = read-write_above m addr d (addr + n) 16 (omega arith) ∙ tag_there in
      rw (size, data_there, process_undone ctx type version d hd, tag_kept, differ_loop_same made.2)
        (refl, refl, read-write m addr n d long)

  -- With encryption as documented, memory that holds bytes, and room for the header in front of the
  -- data, which ends below 2^63: a record that `chapol_encrypt` makes of `n` bytes is decrypted by
  -- `chapol_decrypt` with a context
  -- of the same key, nonce and sequence number: it gives those bytes, at their place, and both
  -- contexts are then equal again, ready for the next record.
  pub chapol_decrypt-encrypt :
      (ctx : ChapolContext) (type version addr n : ℕ) (m : Memory)
      → 5 ≤ addr
      → addr + n < 2 ^ 63
      → HoldsBytes m
      → let (buf, len, ctx1, m1) = chapol_encrypt ipoly ctx type version addr n m in
        let (plain, ctx2, m2) = chapol_decrypt ipoly ctx type version (buf + 5) (len - 5) m1 in
        (plain ≡ some (addr, n)) × (ctx2 ≡ ctx1) × (read_bytes m2 addr n ≡ read_bytes m addr n)
  unfolding chapol_encrypt gen_chapol_process
  chapol_decrypt-encrypt ctx type version addr n m low small bytes =
      let d = read_bytes m addr n in
      let there = sealed ctx type version addr n m low small in
      let at : size_sub addr 5 + 5 ≡ addr = omega arith in
      rw at (
        opened ctx type version addr (size_add n 21 - 5) n _ d (omega arith)
          (length-read_bytes m addr n) (read_bytes-IsByte m addr n bytes) there.0 there.1)

  -- With encryption as documented, `chapol_decrypt` of a record of an accepted length that ends below
  -- 2^63 yields plaintext only if the 16 bytes behind
  -- the data are the tag that is computed for it, and then the plaintext is all but those bytes.
  pub chapol_decrypt_authentic :
      (ctx : ChapolContext) (type version addr len : ℕ) (m : Memory) (p n : ℕ)
      → chapol_check_length ipoly ctx len ≡ true
      → addr + len < 2 ^ 63
      → (chapol_decrypt ipoly ctx type version addr len m).0 ≡ some (p, n)
      → (p ≡ addr)
        × (n + 16 ≡ len)
        × (read_bytes m (addr + n) 16
            ≡ (gen_chapol_process ipoly ctx type version (read_bytes m addr n) false).2)
  unfolding chapol_decrypt chapol_check_length
  chapol_decrypt_authentic ctx type version addr len m p n accepted small e =
      let k = size_sub len 16 in
      let made = gen_chapol_process ipoly ctx type version (read_bytes m addr k) false in
      let sizes = process-length ctx type version (read_bytes m addr k) false in
      let long : len ≡ k + 16 = ground (arith, accepted) in
      let result = accepts _ addr k p n e in
      let tags =
        differ_loop-zero 0 made.2 (read_bytes (write_bytes m addr made.1) (addr + k) 16)
          (sizes.1 ∙ sym (length-read_bytes _ (addr + k) 16)) result.0 in
      (
        result.1,
        omega (arith, result.2),
        rw result.2 (
            sym (
              read-write_above m addr made.1 (addr + k) 16
                (omega (arith, sizes.0, length-read_bytes m addr k)))
            ∙ sym tags.1),
      )

  decrypt-bytes :
      (ctx : ChapolContext) (type version addr len : ℕ) (m : Memory)
      → HoldsBytes m
      → HoldsBytes (chapol_decrypt ipoly ctx type version addr len m).2
  unfolding chapol_decrypt
  decrypt-bytes ctx type version addr len m h =
      write_bytes-lt m addr _ h
        (process-IsByte ctx type version (read_bytes m addr (size_sub len 16)) false
          (read_bytes-IsByte m addr (size_sub len 16) h)).0

  encrypt-bytes :
      (ctx : ChapolContext) (type version addr len : ℕ) (m : Memory)
      → HoldsBytes m
      → HoldsBytes (chapol_encrypt ipoly ctx type version addr len m).3
  unfolding chapol_encrypt
  encrypt-bytes ctx type version addr len m h =
      let made =
        process-IsByte ctx type version (read_bytes m addr len) true
          (read_bytes-IsByte m addr len h) in
      put_header-lt _ (size_sub addr 5) type version (size_add len 16)
        (write_bytes-lt _ (addr + len) _ (write_bytes-lt m addr _ h made.0) made.1)

  -- With encryption as documented, ChaCha20+Poly1305 records are all that the engine asks of a
  -- record protection: decryption in place, room for at least one byte of plaintext, records that
  -- fit the output buffer, and nothing but bytes written.
  pub chapol-IsLayer : (Cpu : Type 0) → IsLayer (chapol_layer ipoly Cpu)
  unfolding chapol_check_length chapol_max_plaintext chapol_encrypt
  chapol-IsLayer Cpu = record {
    in_place = λ ctx type version addr len m p n accepted short wrap e.
        let shape = chapol_decrypt_authentic ctx type version addr len m p n accepted wrap e in
        (omega (arith, shape.0), omega (arith, shape.0, shape.1));
    protects = record {
      area = λ ctx len room small. (omega arith, ground arith, ground arith);
      fits =
          λ ctx type version obuf len n m room wrap h. (ground arith, ground arith, ground arith);
    };
    writes_bytes = record { by_decrypt = decrypt-bytes; by_encrypt = encrypt-bytes };
  }
