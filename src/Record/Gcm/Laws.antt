-- ===== src/Record/Gcm/Laws.antt =====
-- What is encrypted is decrypted, and the protection is a layer as the engine expects.
use bearssl.Common.{
  ℕ, zero, suc, ◌+◌, ◌-◌, ◌^◌, ◌≤◌, ◌<◌, ◌≡◌, refl, sym, ap, ap₂, ◌∙◌, arith, true, some, List, [],
  ◌∷◌, ◌++◌, length, length-replicate, replicate, take, All, IsByte,
}
use bearssl.Common.BitLaws.{bit_xor_cancel, bit_xor-lt}
use bearssl.Codec.{enc64be}
use bearssl.Engine.State.{Memory, size_add, size_sub}
use bearssl.Engine.Buffers.{write_bytes}
use bearssl.Engine.Receive.Ack.{HoldsBytes}
use bearssl.Engine.Run.Steps.{IsLayer}
use bearssl.Prf.{xor_into}
use bearssl.Record.Bytes.{
  read_bytes, length-read_bytes, read_bytes-IsByte, write_bytes-lt, read-write, read-write_below,
  read-write_above, differ_loop_same, differ_loop-zero, read-put_header, put_header-lt, accepts,
}
use bearssl.Record.Gcm.{
  GcmCalls, GcmContext, do_tag, do_ctr, gcm_check_length, gcm_decrypt, gcm_max_plaintext,
  gcm_encrypt, gcm_layer,
}

-- What is documented of the calls in inc/bearssl_block.h and inc/bearssl_hash.h: the CTR mode xors
-- the data with a key stream that does not depend on it, and GHASH gives 16 bytes.
pub record IsGcm (I : GcmCalls) : Type 0 where
  pub length_ctr :
      (k : I.Keyed) (iv : List ℕ) (c : ℕ) (d : List ℕ) → length (I.ctr_run k iv c d) ≡ length d
  pub ctr_bytes :
      (k : I.Keyed) (iv : List ℕ) (c : ℕ) (d : List ℕ)
      → All IsByte d
      → All IsByte (I.ctr_run k iv c d)
  pub stream :
      (k : I.Keyed) (iv : List ℕ) (c : ℕ) (d : List ℕ)
      → I.ctr_run k iv c d ≡ xor_into d (I.ctr_run k iv c (replicate (length d) 0))
  pub length_hash : (y h d : List ℕ) → length (I.ghash y h d) ≡ 16
  pub hash_bytes : (y h d : List ℕ) → All IsByte (I.ghash y h d)

xor_into_twice : (d s : List ℕ) → length d ≡ length s → xor_into (xor_into d s) s ≡ d
unfolding xor_into
xor_into_twice [] s e = refl
xor_into_twice (x ∷ d) [] e = refl
xor_into_twice (x ∷ d) (y ∷ s) e =
    ap₂ (λ a t. a ∷ t) (bit_xor_cancel x y) (xor_into_twice d s (omega arith))

length-xor_into : (d s : List ℕ) → length (xor_into d s) ≡ length d
unfolding xor_into
length-xor_into [] s = refl
length-xor_into (x ∷ d) [] = refl
length-xor_into (x ∷ d) (y ∷ s) = ap suc (length-xor_into d s)

xor_into-IsByte : (d s : List ℕ) → All IsByte d → All IsByte s → All IsByte (xor_into d s)
unfolding xor_into
xor_into-IsByte [] s hd hs = tt
xor_into-IsByte (x ∷ d) [] hd hs = hd
xor_into-IsByte (x ∷ d) (y ∷ s) hd hs = (bit_xor-lt 8 x y hd.0 hs.0, xor_into-IsByte d s hd.1 hs.1)

All-replicate : (n b : ℕ) → b < 256 → All IsByte (replicate n b)
All-replicate zero b h = tt
All-replicate (suc n) b h = (h, All-replicate n b h)

nonce_written : (m : Memory) (p x : ℕ) → read_bytes (write_bytes m p (enc64be x)) p 8 ≡ enc64be x
unfolding enc64be
nonce_written m p x = read-write m p 8 (enc64be x) refl

enc64be-IsByte : (x : ℕ) → All IsByte (enc64be x)
unfolding enc64be
enc64be-IsByte x = (
  omega arith,
  (
    omega arith,
    (omega arith, (omega arith, (omega arith, (omega arith, (omega arith, (omega arith, tt)))))),
  ),
)

module _ (I : GcmCalls) (law : IsGcm I) where
  -- Running twice with one key stream changes nothing.
  ctr_twice :
      (k : I.Keyed) (iv : List ℕ) (c : ℕ) (d : List ℕ) → I.ctr_run k iv c (I.ctr_run k iv c d) ≡ d
  ctr_twice k iv c d =
      let s = I.ctr_run k iv c (replicate (length d) 0) in
      let s_length =
        law.length_ctr k iv c (replicate (length d) 0) ∙ length-replicate (length d) 0 in
      law.stream k iv c (I.ctr_run k iv c d)
      ∙ ap₂ (λ a (n : ℕ). xor_into a (I.ctr_run k iv c (replicate n 0))) (law.stream k iv c d)
          (law.length_ctr k iv c d)
      ∙ xor_into_twice d s (sym s_length)

  do_ctr_twice :
      (ctx : GcmContext I.Keyed) (nonce d tag : List ℕ)
      → length tag ≡ 16
      → do_ctr I ctx nonce (do_ctr I ctx nonce d (replicate 16 0)).0 tag
        ≡ (d, xor_into tag (do_ctr I ctx nonce d (replicate 16 0)).1)
  unfolding do_ctr
  do_ctr_twice ctx nonce d tag e =
      let iv = take 4 ctx.iv ++ take 8 nonce in
      ap₂ (λ a b. (a, b)) (ctr_twice ctx.bc iv 2 d)
        (law.stream ctx.bc iv 1 tag
          ∙ ap (λ (n : ℕ). xor_into tag (I.ctr_run ctx.bc iv 1 (replicate n 0))) e)

  sizes :
      (ctx : GcmContext I.Keyed) (type version : ℕ) (nonce d x : List ℕ)
      → (length (do_tag I ctx type version d).1 ≡ 16)
        × (length (do_ctr I ctx nonce d x).0 ≡ length d)
        × (length (do_ctr I ctx nonce d x).1 ≡ length x)
  unfolding do_tag do_ctr
  sizes ctx type version nonce d x =
      (law.length_hash _ _ _, law.length_ctr _ _ _ d, law.length_ctr _ _ _ x)

  tag-IsByte :
      (ctx : GcmContext I.Keyed) (type version : ℕ) (d : List ℕ)
      → All IsByte (do_tag I ctx type version d).1
  unfolding do_tag
  tag-IsByte ctx type version d = law.hash_bytes _ _ _

  ctr-IsByte :
      (ctx : GcmContext I.Keyed) (nonce d x : List ℕ)
      → All IsByte d
      → All IsByte x
      → All IsByte (do_ctr I ctx nonce d x).0 × All IsByte (do_ctr I ctx nonce d x).1
  unfolding do_ctr
  ctr-IsByte ctx nonce d x hd hx = (law.ctr_bytes _ _ _ d hd, law.ctr_bytes _ _ _ x hx)

  -- The parts of a record in memory: explicit nonce, encrypted data, and tag.
  sealed :
      (ctx : GcmContext I.Keyed) (type version buf n : ℕ) (m : Memory)
      → 13 ≤ buf
      → buf + n < 2 ^ 63
      → let nonce = enc64be ctx.seq in
        let made = do_ctr I ctx nonce (read_bytes m buf n) (replicate 16 0) in
        let tag = (do_tag I ctx type version made.0).1 in
        let m' = (gcm_encrypt I ctx type version buf n m).3 in
        (read_bytes m' (buf - 8) 8 ≡ nonce)
        × (read_bytes m' buf n ≡ made.0)
        × (read_bytes m' (buf + n) 16 ≡ xor_into tag made.1)
        × ((gcm_encrypt I ctx type version buf n m).2 ≡ (do_tag I ctx type version made.0).0)
  unfolding gcm_encrypt
  sealed ctx type version buf n m low small =
      let nonce = enc64be ctx.seq in
      let made = do_ctr I ctx nonce (read_bytes m buf n) (replicate 16 0) in
      let tag = (do_tag I ctx type version made.0).1 in
      let size = sizes ctx type version nonce (read_bytes m buf n) (replicate 16 0) in
      let tag_size = (sizes ctx type version nonce made.0 (replicate 16 0)).0 in
      let out_size = size.1 ∙ length-read_bytes m buf n in
      let at : size_sub buf 8 ≡ buf - 8 = omega arith in
      let m1 = write_bytes m (buf - 8) nonce in
      let m2 = write_bytes m1 buf made.0 in
      let m3 = write_bytes m2 (buf + n) tag in
      let body = xor_into tag made.1 in
      let body_size = length-xor_into tag made.1 ∙ tag_size in
      let start = size_sub buf 13 in
      let plain_kept : read_bytes m1 buf n ≡ read_bytes m buf n =
        read-write_above m (buf - 8) nonce buf n (unfold enc64be in omega arith) in
      let out_there = read-write m1 buf n made.0 out_size in
      let tag_there = read-write m2 (buf + n) 16 tag tag_size in
      rw (at, nonce_written m (buf - 8) ctx.seq, plain_kept, out_there, tag_there)
        (
          read-put_header _ start type version _ (buf - 8) 8 (omega arith)
              ∙ read-write_below m3 (buf + n) body (buf - 8) 8 (omega arith)
              ∙ read-write_below m2 (buf + n) tag (buf - 8) 8 (omega arith)
              ∙ read-write_below m1 buf made.0 (buf - 8) 8 (omega arith)
              ∙ nonce_written m (buf - 8) ctx.seq,
          read-put_header _ start type version _ buf n (omega arith)
              ∙ read-write_below m3 (buf + n) body buf n (omega arith)
              ∙ read-write_below m2 (buf + n) tag buf n (omega arith)
              ∙ out_there,
          read-put_header _ start type version _ (buf + n) 16 (omega arith)
              ∙ read-write m3 (buf + n) 16 body body_size,
          refl,
        )

  opened :
      (ctx : GcmContext I.Keyed) (type version addr len n : ℕ) (m : Memory) (nonce d : List ℕ)
      → size_sub len 24 ≡ n
      → length d ≡ n
      → read_bytes m addr 8 ≡ nonce
      → read_bytes m (addr + 8) n ≡ (do_ctr I ctx nonce d (replicate 16 0)).0
      → read_bytes m (addr + 8 + n) 16
        ≡ xor_into
            (do_tag I ctx type version (do_ctr I ctx nonce d (replicate 16 0)).0).1
            (do_ctr I ctx nonce d (replicate 16 0)).1
      → let (plain, ctx', m') = gcm_decrypt I ctx type version addr len m in
        (plain ≡ some (addr + 8, n))
        × (ctx' ≡ (do_tag I ctx type version (do_ctr I ctx nonce d (replicate 16 0)).0).0)
        × (read_bytes m' (addr + 8) n ≡ d)
  unfolding gcm_decrypt do_tag do_ctr
  opened ctx type version addr len n m nonce d size long nonce_there data_there tag_there =
      let made = do_ctr I ctx nonce d (replicate 16 0) in
      let tag = (do_tag I ctx type version made.0).1 in
      let back = do_ctr_twice ctx nonce d tag (sizes ctx type version nonce made.0 made.1).0 in
      let kept = read-write_above m (addr + 8) d (addr + 8 + n) 16 (omega arith) ∙ tag_there in
      rw
        (
          size,
          nonce_there,
          data_there,
          ap (λ (p : List ℕ × List ℕ). p.0) back,
          ap (λ (p : List ℕ × List ℕ). p.1) back,
          kept,
          differ_loop_same (xor_into tag made.1),
        )
        (refl, refl, read-write m (addr + 8) n d long)

  -- With CTR mode and GHASH as documented, and room for the header and the nonce in front of the data,
  -- which ends below 2^63: a record that `gcm_encrypt` makes of `n` bytes is decrypted by `gcm_decrypt` with a context of
  -- the same key, IV and sequence number, behind the explicit nonce: it gives those bytes, at their
  -- place, and both contexts are then equal again, ready for the next record.
  pub gcm_decrypt-encrypt :
      (ctx : GcmContext I.Keyed) (type version addr n : ℕ) (m : Memory)
      → 13 ≤ addr
      → addr + n < 2 ^ 63
      → let (buf, len, ctx1, m1) = gcm_encrypt I ctx type version addr n m in
        let (plain, ctx2, m2) = gcm_decrypt I ctx type version (buf + 5) (len - 5) m1 in
        (plain ≡ some (addr, n)) × (ctx2 ≡ ctx1) × (read_bytes m2 addr n ≡ read_bytes m addr n)
  unfolding gcm_encrypt
  gcm_decrypt-encrypt ctx type version addr n m low small =
      let d = read_bytes m addr n in
      let there = sealed ctx type version addr n m low small in
      let at : size_sub addr 13 + 5 ≡ addr - 8 = omega arith in
      let back : addr - 8 + 8 ≡ addr = omega arith in
      let result =
        opened ctx type version (addr - 8) (size_add (size_add n 24) 5 - 5) n _ (enc64be ctx.seq) d
          (omega arith) (length-read_bytes m addr n) there.0 (rw back there.1) (rw back there.2) in
      rw (at, there.3) (rw back at result)

  -- With CTR mode and GHASH as documented, `gcm_decrypt` of a record of an accepted length that ends
  -- below 2^63 yields plaintext only if the 16 bytes behind the
  -- data are the encrypted tag that is computed for it; the plaintext lies behind the nonce.
  pub gcm_decrypt_authentic :
      (ctx : GcmContext I.Keyed) (type version addr len : ℕ) (m : Memory) (p n : ℕ)
      → gcm_check_length I ctx len ≡ true
      → addr + len < 2 ^ 63
      → (gcm_decrypt I ctx type version addr len m).0 ≡ some (p, n)
      → let data' = read_bytes m (addr + 8) n in
        let tagged = do_tag I ctx type version data' in
        (p ≡ addr + 8)
        × (n + 24 ≡ len)
        × (read_bytes m (addr + 8 + n) 16
            ≡ (do_ctr I tagged.0 (read_bytes m addr 8) data' tagged.1).1)
  unfolding gcm_decrypt gcm_check_length
  gcm_decrypt_authentic ctx type version addr len m p n accepted small e =
      let k = size_sub len 24 in
      let buf = addr + 8 in
      let data' = read_bytes m buf k in
      let tagged = do_tag I ctx type version data' in
      let made = do_ctr I tagged.0 (read_bytes m addr 8) data' tagged.1 in
      let tag_size = (sizes ctx type version [] data' []).0 in
      let size = sizes tagged.0 type version (read_bytes m addr 8) data' tagged.1 in
      let long : len ≡ k + 24 = ground (arith, accepted) in
      let result = accepts _ buf k p n e in
      let tags =
        differ_loop-zero 0 made.1 (read_bytes (write_bytes m buf made.0) (buf + k) 16)
          (size.2 ∙ tag_size ∙ sym (length-read_bytes _ (buf + k) 16)) result.0 in
      (
        result.1,
        omega (arith, result.2),
        rw result.2 (
            sym (
              read-write_above m buf made.0 (buf + k) 16
                (omega (arith, size.1, length-read_bytes m buf k)))
            ∙ sym tags.1),
      )

  decrypt-bytes :
      (ctx : GcmContext I.Keyed) (type version addr len : ℕ) (m : Memory)
      → HoldsBytes m
      → HoldsBytes (gcm_decrypt I ctx type version addr len m).2
  unfolding gcm_decrypt
  decrypt-bytes ctx type version addr len m h =
      let k = size_sub len 24 in
      write_bytes-lt m (addr + 8) _ h
        (ctr-IsByte _ (read_bytes m addr 8) _ _ (read_bytes-IsByte m (addr + 8) k h)
          (tag-IsByte ctx type version (read_bytes m (addr + 8) k))).0

  encrypt-bytes :
      (ctx : GcmContext I.Keyed) (type version buf len : ℕ) (m : Memory)
      → HoldsBytes m
      → HoldsBytes (gcm_encrypt I ctx type version buf len m).3
  unfolding gcm_encrypt
  encrypt-bytes ctx type version buf len m h =
      let m1_bytes = write_bytes-lt m (size_sub buf 8) _ h (enc64be-IsByte ctx.seq) in
      let made = ctr-IsByte ctx _ _ (replicate 16 0) (read_bytes-IsByte _ buf len m1_bytes) zeros in
      let m2_bytes = write_bytes-lt _ buf _ m1_bytes made.0 in
      let m3_bytes = write_bytes-lt _ (buf + len) _ m2_bytes (tag-IsByte ctx type version _) in
      put_header-lt _ (size_sub buf 13) type version (size_add len 24) (
        write_bytes-lt _ (buf + len) _ m3_bytes
          (xor_into-IsByte _ _ (read_bytes-IsByte _ (buf + len) 16 m3_bytes) made.1))
    where
      zero_byte : 0 < 256
      zero_byte = omega arith

      zeros : All IsByte (replicate 16 0)
      zeros = All-replicate 16 0 zero_byte

  -- With CTR mode and GHASH as documented, GCM records are all that the engine asks of a record
  -- protection: decryption in place, room for at least one byte of plaintext, records that fit the
  -- output buffer, and nothing but bytes written.
  pub gcm-IsLayer : (Cpu : Type 0) → IsLayer (gcm_layer I Cpu)
  unfolding gcm_check_length gcm_max_plaintext gcm_encrypt
  gcm-IsLayer Cpu = record {
    in_place = λ ctx type version addr len m p n accepted short wrap e.
        let shape = gcm_decrypt_authentic ctx type version addr len m p n accepted wrap e in
        (omega (arith, shape.0), omega (arith, shape.0, shape.1));
    protects = record {
      area = λ ctx len room small. (omega arith, ground arith, ground arith);
      fits =
          λ ctx type version obuf len n m room wrap h. (ground arith, ground arith, ground arith);
    };
    writes_bytes = record { by_decrypt = decrypt-bytes; by_encrypt = encrypt-bytes };
  }
