-- ===== src/Symcipher/Poly1305.antt =====
-- Poly1305 with 32-bit multiplications, and the encryption over it and ChaCha20:
-- src/symcipher/poly1305_ctmul.c.
pub mod Words
pub mod Product
pub mod Inner
pub mod Final
pub mod Laws
pub mod Run
use bearssl.Common.{
  ℕ, zero, suc, ◌+◌, ◌-◌, ◌*◌, ◌/◌, ◌%◌, ◌^◌, ltb, ◌==◌, if◌then◌else◌, Bool, List, [], ◌∷◌, ◌++◌,
  length, take, drop, replicate, bit_and, bit_or, u32, u64, ◌>>>◌, ◌<<<◌,
}
use bearssl.Codec.{dec32le, enc32le, enc64le}
use bearssl.Ct.{gt, eq, mux}
use bearssl.Record.Chapol.{Poly}
use bearssl.Symcipher.Chacha20.{Chacha}

-- The five words of `acc` and of `r`.
pub record Limbs : Type 0 where
  pub l0 : ℕ
  pub l1 : ℕ
  pub l2 : ℕ
  pub l3 : ℕ
  pub l4 : ℕ

abbrev pub mask26 : ℕ → ℕ
mask26 x = bit_and x 0x3FFFFFF

-- The next block is decoded and added to the accumulator.
unfoldable pub add_block : Limbs → List ℕ → Limbs
add_block a buf = record {
  l0 = u32 (a.l0 + mask26 (dec32le buf));
  l1 = u32 (a.l1 + mask26 (dec32le (drop 3 buf) >>> 2));
  l2 = u32 (a.l2 + mask26 (dec32le (drop 6 buf) >>> 4));
  l3 = u32 (a.l3 + mask26 (dec32le (drop 9 buf) >>> 6));
  l4 = u32 (a.l4 + bit_or (dec32le (drop 12 buf) >>> 8) 0x01000000);
}

-- The multiplication: `w0` to `w4`. `M` does not wrap, the sums are made on 64 bits.
unfoldable pub mul_limbs : Limbs → Limbs → Limbs
mul_limbs a r =
    let u1 = u32 (r.l1 * 5) in
    let u2 = u32 (r.l2 * 5) in
    let u3 = u32 (r.l3 * 5) in
    let u4 = u32 (r.l4 * 5) in
    record {
      l0 = u64 (a.l0 * r.l0 + a.l1 * u4 + a.l2 * u3 + a.l3 * u2 + a.l4 * u1);
      l1 = u64 (a.l0 * r.l1 + a.l1 * r.l0 + a.l2 * u4 + a.l3 * u3 + a.l4 * u2);
      l2 = u64 (a.l0 * r.l2 + a.l1 * r.l1 + a.l2 * r.l0 + a.l3 * u4 + a.l4 * u3);
      l3 = u64 (a.l0 * r.l3 + a.l1 * r.l2 + a.l2 * r.l1 + a.l3 * r.l0 + a.l4 * u4);
      l4 = u64 (a.l0 * r.l4 + a.l1 * r.l3 + a.l2 * r.l2 + a.l3 * r.l1 + a.l4 * r.l0);
    }

-- The partial reduction that follows it.
unfoldable pub carry_limbs : Limbs → Limbs
carry_limbs w =
    let w1 = u64 (w.l1 + (w.l0 >>> 26)) in
    let w2 = u64 (w.l2 + (w1 >>> 26)) in
    let w3 = u64 (w.l3 + (w2 >>> 26)) in
    let w4 = u64 (w.l4 + (w3 >>> 26)) in
    let c = w4 >>> 26 in
    let a0 = u32 (mask26 (u32 w.l0) + u32 (u32 c * 5)) in
    record {
      l0 = mask26 a0;
      l1 = u32 (mask26 (u32 w1) + (a0 >>> 26));
      l2 = mask26 (u32 w2);
      l3 = mask26 (u32 w3);
      l4 = mask26 (u32 w4);
    }

-- The loop of `poly1305_inner` on fuel. A partial block is padded with zeros.
unfoldable pub inner_loop : ℕ → Limbs → Limbs → List ℕ → Limbs
inner_loop zero acc r buf = acc
inner_loop (suc fuel) acc r buf =
    let len = length buf in
    let block = if ltb len 16 then buf ++ replicate (16 - len) 0 else buf in
    let rest =
      inner_loop fuel (carry_limbs (mul_limbs (add_block acc block) r)) r (drop 16 block) in
    if len == 0 then acc else rest

-- `poly1305_inner`. As much fuel as bytes.
unfoldable pub poly1305_inner : Limbs → Limbs → List ℕ → Limbs
poly1305_inner acc r data' = inner_loop (length data') acc r data'

-- `r` from the first half of `pkey`, clamped.
unfoldable pub decode_r : List ℕ → Limbs
decode_r pkey = record {
  l0 = bit_and (dec32le pkey) 0x03FFFFFF;
  l1 = bit_and (dec32le (drop 3 pkey) >>> 2) 0x03FFFF03;
  l2 = bit_and (dec32le (drop 6 pkey) >>> 4) 0x03FFC0FF;
  l3 = bit_and (dec32le (drop 9 pkey) >>> 6) 0x03F03FFF;
  l4 = bit_and (dec32le (drop 12 pkey) >>> 8) 0x000FFFFF;
}

-- The carry loop of the final reduction: the words 1, 2, 3, 4, 0 and 1 again.
unfoldable pub carry_final : Limbs → Limbs
carry_final a =
    let x1 = u32 (a.l1 + 0) in
    let x2 = u32 (a.l2 + (x1 >>> 26)) in
    let x3 = u32 (a.l3 + (x2 >>> 26)) in
    let x4 = u32 (a.l4 + (x3 >>> 26)) in
    let x0 = u32 (a.l0 + (x4 >>> 26)) in
    let x1' = u32 (mask26 x1 + (x0 >>> 26)) in
    record { l0 = mask26 x0; l1 = mask26 x1'; l2 = mask26 x2; l3 = mask26 x3; l4 = mask26 x4 }

-- The selection between `acc` and `acc - p`.
unfoldable pub select_final : Limbs → Limbs
select_final a =
    let ctl1 = bit_and (gt a.l0 0x03FFFFFA) (eq a.l1 0x03FFFFFF) in
    let ctl2 = bit_and ctl1 (eq a.l2 0x03FFFFFF) in
    let ctl3 = bit_and ctl2 (eq a.l3 0x03FFFFFF) in
    let ctl = bit_and ctl3 (eq a.l4 0x03FFFFFF) in
    let t0 = u32 (a.l0 + 5) in
    let t1 = u32 (a.l1 + (t0 >>> 26)) in
    let t2 = u32 (a.l2 + (t1 >>> 26)) in
    let t3 = u32 (a.l3 + (t2 >>> 26)) in
    let t4 = u32 (a.l4 + (t3 >>> 26)) in
    record {
      l0 = mux ctl (mask26 t0) a.l0;
      l1 = mux ctl (mask26 t1) a.l1;
      l2 = mux ctl (mask26 t2) a.l2;
      l3 = mux ctl (mask26 t3) a.l3;
      l4 = mux ctl (mask26 t4) a.l4;
    }

-- The four words of the tag: the accumulator plus `s`, the second half of `pkey`.
unfoldable pub tag_words : Limbs → List ℕ → ℕ × ℕ × ℕ × ℕ
tag_words a pkey =
    let w0 = u64 (a.l0 + (a.l1 <<< 26) + dec32le (drop 16 pkey)) in
    let w1 = u64 ((w0 >>> 32) + (a.l2 <<< 20) + dec32le (drop 20 pkey)) in
    let w2 = u64 ((w1 >>> 32) + (a.l3 <<< 14) + dec32le (drop 24 pkey)) in
    let hi = u32 (u32 (w2 >>> 32) + u32 (a.l4 <<< 8) + dec32le (drop 28 pkey)) in
    (u32 w0, u32 w1, u32 w2, hi)

-- The accumulator after the AAD, the ciphertext and the footer with the lengths.
unfoldable pub poly1305_acc : List ℕ → List ℕ → List ℕ → Limbs
poly1305_acc pkey aad data' =
    let r = decode_r pkey in
    let foot = enc64le (u64 (length aad)) ++ enc64le (u64 (length data')) in
    let acc0 : Limbs = record { l0 = 0; l1 = 0; l2 = 0; l3 = 0; l4 = 0 } in
    poly1305_inner (poly1305_inner (poly1305_inner acc0 r aad) r data') r foot

-- The authentication tag for a key, the AAD and the ciphertext.
unfoldable pub poly1305_tag : List ℕ → List ℕ → List ℕ → List ℕ
poly1305_tag pkey aad data' =
    let (t0, t1, t2, t3) =
      tag_words (select_final (carry_final (poly1305_acc pkey aad data'))) pkey in
    enc32le t0 ++ (enc32le t1 ++ (enc32le t2 ++ enc32le t3))

-- `br_poly1305_ctmul_run`: the data and the tag after the call.
unfoldable pub poly1305_ctmul_run : Chacha → Poly
poly1305_ctmul_run ichacha key iv data' aad encrypt =
    let pkey = (ichacha key iv 0 (replicate 32 0)).0 in
    let other = (ichacha key iv 1 data').0 in
    if encrypt then (other, poly1305_tag pkey aad other) else (other, poly1305_tag pkey aad data')
