-- ===== src/Hash/Sha1.antt =====
-- SHA-1: src/hash/sha1.c.
pub mod Laws
use bearssl.Common.{
  ℕ, zero, suc, ◌+◌, ◌-◌, ◌*◌, ◌/◌, ◌%◌, ◌^◌, ◌<◌, ◌≡◌, refl, arith, List, [], ◌∷◌, ◌++◌, length,
  get_or, take, drop, map, All, IsU32, bit_and, bit_or, bit_xor, u32, u64, ◌>>>◌, ◌<<<◌,
}
use bearssl.Codec.{enc64be, range_enc32be, range_dec32be}
use bearssl.Hmac.{HashClass}
use bearssl.Hash.Blocks.{Context, blocks_update, final_values}

-- The macros F, G, H and ROTL; I is G.
abbrev pub sha1_f : ℕ → ℕ → ℕ → ℕ
sha1_f b c d = bit_xor (bit_and (bit_xor c d) b) d

abbrev pub sha1_g : ℕ → ℕ → ℕ → ℕ
sha1_g b c d = bit_xor (bit_xor b c) d

abbrev pub sha1_h : ℕ → ℕ → ℕ → ℕ
sha1_h b c d = bit_or (bit_and d c) (bit_and (bit_or d c) b)

abbrev pub rotl : ℕ → ℕ → ℕ
rotl x n = bit_or (u32 (x <<< n)) (x >>> (32 - n))

-- `br_sha1_IV`
abbrev pub sha1_iv : List ℕ
sha1_iv = 0x67452301 ∷ 0xEFCDAB89 ∷ 0x98BADCFE ∷ 0x10325476 ∷ 0xC3D2E1F0 ∷ []

-- The variables `a` to `e`.
pub record Sha1Vars : Type 0 where
  pub a : ℕ
  pub b : ℕ
  pub c : ℕ
  pub d : ℕ
  pub e : ℕ

-- The loop that extends `m` from `i` on, for `n` rounds.
unfoldable pub sha1_expand : ℕ → ℕ → List ℕ → List ℕ
sha1_expand zero i m = m
sha1_expand (suc n) i m =
    let x =
      bit_xor (bit_xor (bit_xor (get_or m (i - 3) 0) (get_or m (i - 8) 0)) (get_or m (i - 14) 0))
        (get_or m (i - 16) 0) in
    sha1_expand n (i + 1) (m ++ (rotl x 1 ∷ []))

-- One step, with the names moved on by one for the next.
unfoldable pub sha1_step : (ℕ → ℕ → ℕ → ℕ) → ℕ → Sha1Vars → ℕ → Sha1Vars
sha1_step f k v m = record {
  a = u32 (v.e + (rotl v.a 5 + f v.b v.c v.d + k + m));
  b = v.a;
  c = rotl v.b 30;
  d = v.c;
  e = v.d;
}

-- One of the four loops, over its twenty words.
unfoldable pub sha1_loop : (ℕ → ℕ → ℕ → ℕ) → ℕ → List ℕ → Sha1Vars → Sha1Vars
sha1_loop f k [] v = v
sha1_loop f k (m ∷ ms) v = sha1_loop f k ms (sha1_step f k v m)

-- `br_sha1_round`: `val` after the call.
unfoldable pub sha1_round : List ℕ → List ℕ → List ℕ
sha1_round buf val =
    let start : Sha1Vars = record {
      a = get_or val 0 0;
      b = get_or val 1 0;
      c = get_or val 2 0;
      d = get_or val 3 0;
      e = get_or val 4 0;
    } in
    let m = sha1_expand 64 16 (range_dec32be 16 buf) in
    let v1 = sha1_loop sha1_f 0x5A827999 (take 20 m) start in
    let v2 = sha1_loop sha1_g 0x6ED9EBA1 (take 20 (drop 20 m)) v1 in
    let v3 = sha1_loop sha1_h 0x8F1BBCDC (take 20 (drop 40 m)) v2 in
    let v = sha1_loop sha1_g 0xCA62C1D6 (take 20 (drop 60 m)) v3 in
    u32 (start.a + v.a)
    ∷ u32 (start.b + v.b)
    ∷ u32 (start.c + v.c)
    ∷ u32 (start.d + v.d)
    ∷ u32 (start.e + v.e)
    ∷ []

-- The result is five words.
pub sha1_round-words :
    (buf val : List ℕ) → (length (sha1_round buf val) ≡ 5) × All IsU32 (sha1_round buf val)
unfolding sha1_round
sha1_round-words buf val =
    (refl, (omega arith, (omega arith, (omega arith, (omega arith, (omega arith, tt))))))

-- `br_sha1_init`; the buffer keeps what was in it.
abbrev pub sha1_init : List ℕ → Context
sha1_init unset = record { buf = unset; count = 0; val = sha1_iv }

-- `br_sha1_update`
abbrev pub sha1_update : Context → List ℕ → Context
sha1_update = blocks_update sha1_round

-- `br_sha1_out`
unfoldable pub sha1_out : Context → List ℕ
sha1_out ctx = range_enc32be (final_values sha1_round ctx (enc64be (u64 (ctx.count <<< 3))))

-- `br_sha1_state` and `br_sha1_set_state`: the saved bytes.
unfoldable pub sha1_state : Context → List ℕ
sha1_state ctx = range_enc32be ctx.val

unfoldable pub sha1_set_state : Context → List ℕ → ℕ → Context
sha1_set_state ctx stb count = record ctx { val = range_dec32be 5 stb; count = count }

-- The descriptor of `br_sha1_vtable`, and the vtable; `unset` is the content of a fresh buffer.
abbrev pub sha1_desc : ℕ
sha1_desc = 2 + (20 <<< 8) + (20 <<< 15) + (6 <<< 23) + (1 <<< 28) + (1 <<< 30)

abbrev pub sha1_class : List ℕ → HashClass
sha1_class unset = record {
  Context = Context;
  State = List ℕ;
  desc = sha1_desc;
  start = sha1_init unset;
  inject = sha1_update;
  out = sha1_out;
  state = sha1_state;
  set_state = sha1_set_state;
}
