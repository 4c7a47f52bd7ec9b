-- ===== src/Symcipher/Poly1305/Words.antt =====
-- The numbers that five words stand for, and the next block in them.
use bearssl.Common.{
  ℕ, ◌+◌, ◌-◌, ◌*◌, ◌/◌, ◌%◌, ◌^◌, ◌≤◌, ◌<◌, ◌≡◌, ap, ◌∙◌, arith, List, [], ◌∷◌, ◌++◌, All, IsByte,
  bit_or,
}
use bearssl.Common.BitLaws.{bit_and_mask, bit_or_fields_low}
use bearssl.Codec.{dec32le}
use bearssl.Codec.RoundTrip.{dec32le_sum}
use bearssl.Symcipher.Poly1305.{Limbs, mask26, add_block}

-- The prime of Poly1305.
abbrev pub prime : ℕ
prime = 2 ^ 130 - 5

-- The number that words of 26 bits stand for.
abbrev pub limbs_value : Limbs → ℕ
limbs_value a = a.l0 + 2 ^ 26 * a.l1 + 2 ^ 52 * a.l2 + 2 ^ 78 * a.l3 + 2 ^ 104 * a.l4

-- The number of a string of bytes, least significant first.
unfoldable pub le_value : List ℕ → ℕ
le_value [] = 0
le_value (b ∷ bs) = b + 256 * le_value bs

-- An accumulator between two blocks: only the second word may be slightly above 26 bits.
pub record IsAcc (a : Limbs) : Type 0 where
  pub small0 : a.l0 < 2 ^ 26
  pub small1 : a.l1 < 2 ^ 26 + 2 ^ 6
  pub small2 : a.l2 < 2 ^ 26
  pub small3 : a.l3 < 2 ^ 26
  pub small4 : a.l4 < 2 ^ 26

-- Words that a multiplication can take.
pub record IsBelow (bound : ℕ) (a : Limbs) : Type 0 where
  pub below0 : a.l0 ≤ bound
  pub below1 : a.l1 ≤ bound
  pub below2 : a.l2 ≤ bound
  pub below3 : a.l3 ≤ bound
  pub below4 : a.l4 ≤ bound

pub mask26-mod : (x : ℕ) → mask26 x ≡ x % 2 ^ 26
mask26-mod x = bit_and_mask 26 x

-- Four bytes in a row, shifted and masked.
field :
    (a b c d k : ℕ) (r : List ℕ)
    → a < 256
    → b < 256
    → c < 256
    → mask26 (dec32le (a ∷ b ∷ c ∷ d ∷ r) / k)
      ≡ (d * 2 ^ 24 + c * 2 ^ 16 + b * 2 ^ 8 + a) / k % 2 ^ 26
field a b c d k r ha hb hc =
    mask26-mod (dec32le (a ∷ b ∷ c ∷ d ∷ r) / k)
    ∙ ap (λ x. x / k % 2 ^ 26) (dec32le_sum a b c d r ha hb hc)

-- A block of 16 bytes adds its number and the high bit.
pub add_block_lem :
    (a : Limbs) (b0 b1 b2 b3 b4 b5 b6 b7 b8 b9 b10 b11 b12 b13 b14 b15 : ℕ) (r : List ℕ)
    → let block =
        b0 ∷ b1 ∷ b2 ∷ b3 ∷ b4 ∷ b5 ∷ b6 ∷ b7 ∷ b8 ∷ b9 ∷ b10 ∷ b11 ∷ b12 ∷ b13 ∷ b14 ∷ b15 ∷ [] in
      IsAcc a
      → All IsByte block
      → (limbs_value (add_block a (block ++ r)) ≡ limbs_value a + le_value block + 2 ^ 128)
        × IsBelow (2 ^ 27 + 2 ^ 6) (add_block a (block ++ r))
unfolding add_block le_value
add_block_lem a b0 b1 b2 b3 b4 b5 b6 b7 b8 b9 b10 b11 b12 b13 b14 b15 r acc
      (
        h0,
        (
          h1,
          (
            h2,
            (h3, (h4, (h5, (h6, (h7, (h8, (h9, (h10, (h11, (h12, (h13, (h14, (h15, _))))))))))))),
          ),
        ),
      ) =
    let f0 : mask26 (dec32le (b0 ∷ b1 ∷ b2 ∷ b3 ∷ r0))
        ≡ b0 + 2 ^ 8 * b1 + 2 ^ 16 * b2 + 2 ^ 24 * (b3 % 4) =
      mask26-mod _ ∙ ap (λ x. x % 2 ^ 26) (dec32le_sum b0 b1 b2 b3 r0 h0 h1 h2) ∙ omega arith in
    let f1 : mask26 (dec32le (b3 ∷ b4 ∷ b5 ∷ b6 ∷ r1) / 2 ^ 2)
        ≡ b3 / 4 + 2 ^ 6 * b4 + 2 ^ 14 * b5 + 2 ^ 22 * (b6 % 16) =
      field b3 b4 b5 b6 (2 ^ 2) r1 h3 h4 h5 ∙ omega arith in
    let f2 : mask26 (dec32le (b6 ∷ b7 ∷ b8 ∷ b9 ∷ r2) / 2 ^ 4)
        ≡ b6 / 16 + 2 ^ 4 * b7 + 2 ^ 12 * b8 + 2 ^ 20 * (b9 % 64) =
      field b6 b7 b8 b9 (2 ^ 4) r2 h6 h7 h8 ∙ omega arith in
    let f3 : mask26 (dec32le (b9 ∷ b10 ∷ b11 ∷ b12 ∷ r3) / 2 ^ 6)
        ≡ b9 / 64 + 2 ^ 2 * b10 + 2 ^ 10 * b11 + 2 ^ 18 * b12 =
      field b9 b10 b11 b12 (2 ^ 6) r3 h9 h10 h11 ∙ omega arith in
    let f4 : bit_or (dec32le (b12 ∷ b13 ∷ b14 ∷ b15 ∷ r) / 2 ^ 8) (1 * 2 ^ 24)
        ≡ 2 ^ 24 + (b13 + 2 ^ 8 * b14 + 2 ^ 16 * b15) =
      ap (λ x. bit_or (x / 2 ^ 8) (1 * 2 ^ 24)) (dec32le_sum b12 b13 b14 b15 r h12 h13 h14)
      ∙ bit_or_fields_low 1 _ 24 (omega arith)
      ∙ omega arith in
    (
      omega (arith, f0, f1, f2, f3, f4, acc.small0, acc.small1, acc.small2, acc.small3, acc.small4),
      record {
        below0 = omega (arith, f0, acc.small0);
        below1 = omega (arith, f1, acc.small1);
        below2 = omega (arith, f2, acc.small2);
        below3 = omega (arith, f3, acc.small3);
        below4 = omega (arith, f4, acc.small4);
      },
    )
  where
    r3 : List ℕ
    r3 = b13 ∷ b14 ∷ b15 ∷ r

    r2 : List ℕ
    r2 = b10 ∷ b11 ∷ b12 ∷ r3

    r1 : List ℕ
    r1 = b7 ∷ b8 ∷ b9 ∷ r2

    r0 : List ℕ
    r0 = b4 ∷ b5 ∷ b6 ∷ r1
