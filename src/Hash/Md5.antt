-- ===== src/Hash/Md5.antt =====
-- MD5: src/hash/md5.c.
pub mod Laws
use bearssl.Common.{
  ℕ, zero, suc, ◌+◌, ◌-◌, ◌*◌, ◌/◌, ◌%◌, ◌^◌, ◌<◌, ◌≡◌, refl, arith, List, [], ◌∷◌, ◌++◌, length,
  get_or, take, drop, map, All, IsU32, bit_and, bit_or, bit_xor, u32, u64, ◌>>>◌, ◌<<<◌,
}
use bearssl.Codec.{enc64le, range_enc32le, range_dec32le}
use bearssl.Hmac.{HashClass}
use bearssl.Hash.Blocks.{Context, blocks_update, final_values}
use bearssl.Hash.Sha1.{rotl}

-- The macros F, G, H and I; ROTL is that of SHA-1.
abbrev pub md5_f : ℕ → ℕ → ℕ → ℕ
md5_f b c d = bit_xor (bit_and (bit_xor c d) b) d

abbrev pub md5_g : ℕ → ℕ → ℕ → ℕ
md5_g b c d = bit_xor (bit_and (bit_xor c b) d) c

abbrev pub md5_h : ℕ → ℕ → ℕ → ℕ
md5_h b c d = bit_xor (bit_xor b c) d

abbrev pub md5_i : ℕ → ℕ → ℕ → ℕ
md5_i b c d = bit_xor c (bit_or b (bit_xor d 0xFFFFFFFF))

-- `br_md5_IV`, and the tables `K` and `MP`
abbrev pub md5_iv : List ℕ
md5_iv = 0x67452301 ∷ 0xEFCDAB89 ∷ 0x98BADCFE ∷ 0x10325476 ∷ []

abbrev pub md5_k : List ℕ
md5_k =
    0xD76AA478 ∷ 0xE8C7B756 ∷ 0x242070DB ∷ 0xC1BDCEEE ∷ 0xF57C0FAF ∷ 0x4787C62A ∷ 0xA8304613
    ∷ 0xFD469501 ∷ 0x698098D8 ∷ 0x8B44F7AF ∷ 0xFFFF5BB1 ∷ 0x895CD7BE ∷ 0x6B901122 ∷ 0xFD987193
    ∷ 0xA679438E ∷ 0x49B40821 ∷ 0xF61E2562 ∷ 0xC040B340 ∷ 0x265E5A51 ∷ 0xE9B6C7AA ∷ 0xD62F105D
    ∷ 0x02441453 ∷ 0xD8A1E681 ∷ 0xE7D3FBC8 ∷ 0x21E1CDE6 ∷ 0xC33707D6 ∷ 0xF4D50D87 ∷ 0x455A14ED
    ∷ 0xA9E3E905 ∷ 0xFCEFA3F8 ∷ 0x676F02D9 ∷ 0x8D2A4C8A ∷ 0xFFFA3942 ∷ 0x8771F681 ∷ 0x6D9D6122
    ∷ 0xFDE5380C ∷ 0xA4BEEA44 ∷ 0x4BDECFA9 ∷ 0xF6BB4B60 ∷ 0xBEBFBC70 ∷ 0x289B7EC6 ∷ 0xEAA127FA
    ∷ 0xD4EF3085 ∷ 0x04881D05 ∷ 0xD9D4D039 ∷ 0xE6DB99E5 ∷ 0x1FA27CF8 ∷ 0xC4AC5665 ∷ 0xF4292244
    ∷ 0x432AFF97 ∷ 0xAB9423A7 ∷ 0xFC93A039 ∷ 0x655B59C3 ∷ 0x8F0CCC92 ∷ 0xFFEFF47D ∷ 0x85845DD1
    ∷ 0x6FA87E4F ∷ 0xFE2CE6E0 ∷ 0xA3014314 ∷ 0x4E0811A1 ∷ 0xF7537E82 ∷ 0xBD3AF235 ∷ 0x2AD7D2BB
    ∷ 0xEB86D391 ∷ []

abbrev pub md5_mp : List ℕ
md5_mp =
    1 ∷ 6 ∷ 11 ∷ 0 ∷ 5 ∷ 10 ∷ 15 ∷ 4 ∷ 9 ∷ 14 ∷ 3 ∷ 8 ∷ 13 ∷ 2 ∷ 7 ∷ 12 ∷ 5 ∷ 8 ∷ 11 ∷ 14 ∷ 1 ∷ 4
    ∷ 7 ∷ 10 ∷ 13 ∷ 0 ∷ 3 ∷ 6 ∷ 9 ∷ 12 ∷ 15 ∷ 2 ∷ 0 ∷ 7 ∷ 14 ∷ 5 ∷ 12 ∷ 3 ∷ 10 ∷ 1 ∷ 8 ∷ 15 ∷ 6 ∷ 13
    ∷ 4 ∷ 11 ∷ 2 ∷ 9 ∷ []

-- The variables `a` to `d`.
pub record Md5Vars : Type 0 where
  pub a : ℕ
  pub b : ℕ
  pub c : ℕ
  pub d : ℕ

-- One step with a shift, a constant and a word; the names are moved on by one for the next.
unfoldable pub md5_step : (ℕ → ℕ → ℕ → ℕ) → ℕ → ℕ → ℕ → Md5Vars → Md5Vars
md5_step f s k m v = record {
  a = v.d;
  b = u32 (v.b + rotl (u32 (v.a + f v.b v.c v.d + m + k)) s);
  c = v.b;
  d = v.c;
}

-- One of the four loops: four steps a turn, with the shifts in order.
unfoldable pub md5_loop : (ℕ → ℕ → ℕ → ℕ) → List ℕ → List ℕ → List ℕ → Md5Vars → Md5Vars
md5_loop f [] ks ms v = v
md5_loop f (s ∷ ss) [] ms v = v
md5_loop f (s ∷ ss) (k ∷ ks) [] v = v
md5_loop f (s ∷ ss) (k ∷ ks) (m ∷ ms) v = md5_loop f ss ks ms (md5_step f s k m v)

abbrev pub four_turns : ℕ → ℕ → ℕ → ℕ → List ℕ
four_turns a b c d = let turn : List ℕ = a ∷ b ∷ c ∷ d ∷ [] in turn ++ (turn ++ (turn ++ turn))

-- `br_md5_round`: `val` after the call.
unfoldable pub md5_round : List ℕ → List ℕ → List ℕ
md5_round buf val =
    let start : Md5Vars = record {
      a = get_or val 0 0;
      b = get_or val 1 0;
      c = get_or val 2 0;
      d = get_or val 3 0;
    } in
    let m = range_dec32le 16 buf in
    let mixed = map (λ p. get_or m p 0) md5_mp in
    let v1 = md5_loop md5_f (four_turns 7 12 17 22) (take 16 md5_k) m start in
    let v2 = md5_loop md5_g (four_turns 5 9 14 20) (take 16 (drop 16 md5_k)) (take 16 mixed) v1 in
    let v3 =
      md5_loop md5_h (four_turns 4 11 16 23) (take 16 (drop 32 md5_k)) (take 16 (drop 16 mixed))
        v2 in
    let v =
      md5_loop md5_i (four_turns 6 10 15 21) (take 16 (drop 48 md5_k)) (take 16 (drop 32 mixed))
        v3 in
    u32 (start.a + v.a) ∷ u32 (start.b + v.b) ∷ u32 (start.c + v.c) ∷ u32 (start.d + v.d) ∷ []

-- The result is four words.
pub md5_round-words :
    (buf val : List ℕ) → (length (md5_round buf val) ≡ 4) × All IsU32 (md5_round buf val)
unfolding md5_round
md5_round-words buf val = (refl, (omega arith, (omega arith, (omega arith, (omega arith, tt)))))

-- `br_md5_init`; the buffer keeps what was in it.
abbrev pub md5_init : List ℕ → Context
md5_init unset = record { buf = unset; count = 0; val = md5_iv }

-- `br_md5_update`
abbrev pub md5_update : Context → List ℕ → Context
md5_update = blocks_update md5_round

-- `br_md5_out`
unfoldable pub md5_out : Context → List ℕ
md5_out ctx = range_enc32le (final_values md5_round ctx (enc64le (u64 (ctx.count <<< 3))))

-- `br_md5_state` and `br_md5_set_state`: the saved bytes.
unfoldable pub md5_state : Context → List ℕ
md5_state ctx = range_enc32le ctx.val

unfoldable pub md5_set_state : Context → List ℕ → ℕ → Context
md5_set_state ctx stb count = record ctx { val = range_dec32le 4 stb; count = count }

-- The descriptor of `br_md5_vtable`, and the vtable; `unset` is the content of a fresh buffer.
abbrev pub md5_desc : ℕ
md5_desc = 1 + (16 <<< 8) + (16 <<< 15) + (6 <<< 23) + (1 <<< 28)

abbrev pub md5_class : List ℕ → HashClass
md5_class unset = record {
  Context = Context;
  State = List ℕ;
  desc = md5_desc;
  start = md5_init unset;
  inject = md5_update;
  out = md5_out;
  state = md5_state;
  set_state = md5_set_state;
}
