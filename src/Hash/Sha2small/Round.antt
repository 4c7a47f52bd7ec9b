-- ===== src/Hash/Sha2small/Round.antt =====
-- The compression function `br_sha2small_round` of src/hash/sha2small.c.
use bearssl.Common.{
  ℕ, zero, suc, ◌+◌, ◌-◌, ◌≡◌, refl, arith, List, [], ◌∷◌, ◌++◌, length, get_or, All, IsU32,
  bit_and, bit_or, bit_xor, u32, ◌>>>◌, ◌<<<◌,
}
use bearssl.Codec.{range_dec32be}

abbrev pub ch : ℕ → ℕ → ℕ → ℕ
ch x y z = bit_xor (bit_and (bit_xor y z) x) z

abbrev pub maj : ℕ → ℕ → ℕ → ℕ
maj x y z = bit_or (bit_and y z) (bit_and (bit_or y z) x)

abbrev pub rotr : ℕ → ℕ → ℕ
rotr x n = bit_or (u32 (x <<< (32 - n))) (x >>> n)

abbrev pub bsg2_0 : ℕ → ℕ
bsg2_0 x = bit_xor (bit_xor (rotr x 2) (rotr x 13)) (rotr x 22)

abbrev pub bsg2_1 : ℕ → ℕ
bsg2_1 x = bit_xor (bit_xor (rotr x 6) (rotr x 11)) (rotr x 25)

abbrev pub ssg2_0 : ℕ → ℕ
ssg2_0 x = bit_xor (bit_xor (rotr x 7) (rotr x 18)) (x >>> 3)

abbrev pub ssg2_1 : ℕ → ℕ
ssg2_1 x = bit_xor (bit_xor (rotr x 17) (rotr x 19)) (x >>> 10)

-- the constants `K`
abbrev pub k_words : List ℕ
k_words =
    0x428A2F98 ∷ 0x71374491 ∷ 0xB5C0FBCF ∷ 0xE9B5DBA5 ∷ 0x3956C25B ∷ 0x59F111F1 ∷ 0x923F82A4
    ∷ 0xAB1C5ED5 ∷ 0xD807AA98 ∷ 0x12835B01 ∷ 0x243185BE ∷ 0x550C7DC3 ∷ 0x72BE5D74 ∷ 0x80DEB1FE
    ∷ 0x9BDC06A7 ∷ 0xC19BF174 ∷ 0xE49B69C1 ∷ 0xEFBE4786 ∷ 0x0FC19DC6 ∷ 0x240CA1CC ∷ 0x2DE92C6F
    ∷ 0x4A7484AA ∷ 0x5CB0A9DC ∷ 0x76F988DA ∷ 0x983E5152 ∷ 0xA831C66D ∷ 0xB00327C8 ∷ 0xBF597FC7
    ∷ 0xC6E00BF3 ∷ 0xD5A79147 ∷ 0x06CA6351 ∷ 0x14292967 ∷ 0x27B70A85 ∷ 0x2E1B2138 ∷ 0x4D2C6DFC
    ∷ 0x53380D13 ∷ 0x650A7354 ∷ 0x766A0ABB ∷ 0x81C2C92E ∷ 0x92722C85 ∷ 0xA2BFE8A1 ∷ 0xA81A664B
    ∷ 0xC24B8B70 ∷ 0xC76C51A3 ∷ 0xD192E819 ∷ 0xD6990624 ∷ 0xF40E3585 ∷ 0x106AA070 ∷ 0x19A4C116
    ∷ 0x1E376C08 ∷ 0x2748774C ∷ 0x34B0BCB5 ∷ 0x391C0CB3 ∷ 0x4ED8AA4A ∷ 0x5B9CCA4F ∷ 0x682E6FF3
    ∷ 0x748F82EE ∷ 0x78A5636F ∷ 0x84C87814 ∷ 0x8CC70208 ∷ 0x90BEFFFA ∷ 0xA4506CEB ∷ 0xBEF9A3F7
    ∷ 0xC67178F2 ∷ []

-- The loop that extends `w` from `i` on, for `n` rounds.
unfoldable pub expand : ℕ → ℕ → List ℕ → List ℕ
expand zero i w = w
expand (suc n) i w =
    let x = u32 (
      ssg2_1 (get_or w (i - 2) 0)
      + get_or w (i - 7) 0
      + ssg2_0 (get_or w (i - 15) 0)
      + get_or w (i - 16) 0) in
    expand n (i + 1) (w ++ (x ∷ []))

-- The variables `a` to `h`.
pub record Vars : Type 0 where
  pub a : ℕ
  pub b : ℕ
  pub c : ℕ
  pub d : ℕ
  pub e : ℕ
  pub f : ℕ
  pub g : ℕ
  pub h : ℕ

-- SHA2_STEP, with the names moved on by one for the next step.
unfoldable pub sha2_step : Vars → ℕ → ℕ → Vars
sha2_step v k w =
    let t1 = u32 (v.h + bsg2_1 v.e + ch v.e v.f v.g + k + w) in
    let t2 = u32 (bsg2_0 v.a + maj v.a v.b v.c) in
    record {
      a = u32 (t1 + t2);
      b = v.a;
      c = v.b;
      d = v.c;
      e = u32 (v.d + t1);
      f = v.e;
      g = v.f;
      h = v.g;
    }

-- The 64 steps.
unfoldable pub sha2_steps : List ℕ → List ℕ → Vars → Vars
sha2_steps [] w v = v
sha2_steps (k ∷ ks) [] v = v
sha2_steps (k ∷ ks) (w ∷ ws) v = sha2_steps ks ws (sha2_step v k w)

-- `br_sha2small_round`: `val` after the call.
unfoldable pub sha2small_round : List ℕ → List ℕ → List ℕ
sha2small_round buf val =
    let w = expand 48 16 (range_dec32be 16 buf) in
    let start : Vars = record {
      a = get_or val 0 0;
      b = get_or val 1 0;
      c = get_or val 2 0;
      d = get_or val 3 0;
      e = get_or val 4 0;
      f = get_or val 5 0;
      g = get_or val 6 0;
      h = get_or val 7 0;
    } in
    let v = sha2_steps k_words w start in
    u32 (start.a + v.a)
    ∷ u32 (start.b + v.b)
    ∷ u32 (start.c + v.c)
    ∷ u32 (start.d + v.d)
    ∷ u32 (start.e + v.e)
    ∷ u32 (start.f + v.f)
    ∷ u32 (start.g + v.g)
    ∷ u32 (start.h + v.h)
    ∷ []

-- The result is eight words.
pub round-words : (buf val : List ℕ) → All IsU32 (sha2small_round buf val)
unfolding sha2small_round
round-words buf val = (
  omega arith,
  (
    omega arith,
    (omega arith, (omega arith, (omega arith, (omega arith, (omega arith, (omega arith, tt)))))),
  ),
)

pub length-round : (buf val : List ℕ) → length (sha2small_round buf val) ≡ 8
unfolding sha2small_round
length-round buf val = refl
