-- ===== src/Codec/RoundTrip.antt =====
-- Decoding gives back what was encoded, for one value and for a range.
use bearssl.Common.{
  ℕ, ◌+◌, ◌*◌, ◌/◌, ◌%◌, ◌^◌, ◌<◌, bit_or, ◌≡◌, refl, ap, ap₂, ◌∙◌, sym, arith, List, [], ◌∷◌, ◌++◌,
  length, drop, drop-append, All,
}
use mathlib.Core.List.{append_assoc}
use bearssl.Common.BitLaws.{bit_or_fields, bit_or_fields_low}
use bearssl.Codec.{
  enc16le, enc16be, dec16le, dec16be, enc32le, enc32be, dec32le, dec32be, enc64le, enc64be, dec64le,
  dec64be, range_enc, range_dec, range_enc16le, range_enc16be, range_enc32le, range_enc32be,
  range_enc64le, range_enc64be, range_dec16le, range_dec16be, range_dec32le, range_dec32be,
  range_dec64le, range_dec64be,
}

-- Each decoder as a sum of bytes.
pub dec16be_sum : (a b : ℕ) (r : List ℕ) → b < 256 → dec16be (a ∷ b ∷ r) ≡ a * 256 + b
unfolding dec16be
dec16be_sum a b r h = bit_or_fields a b 8 h

dec16le_sum : (a b : ℕ) (r : List ℕ) → a < 256 → dec16le (a ∷ b ∷ r) ≡ b * 256 + a
unfolding dec16le
dec16le_sum a b r h = bit_or_fields_low b a 8 h

-- Bytes into one word, most significant first.
abbrev join : ℕ → ℕ → ℕ → ℕ → ℕ
join a b c d = a * 2 ^ 24 + b * 2 ^ 16 + c * 2 ^ 8 + d

or_chain :
    (a b c d : ℕ)
    → b < 256
    → c < 256
    → d < 256
    → bit_or (bit_or (bit_or (a * 2 ^ 24) (b * 2 ^ 16)) (c * 2 ^ 8)) d ≡ join a b c d
or_chain a b c d hb hc hd = ground (
  arith,
  bit_or_fields a (b * 2 ^ 16) 24,
  bit_or_fields (a * 2 ^ 8 + b) (c * 2 ^ 8) 16,
  bit_or_fields (a * 2 ^ 16 + b * 2 ^ 8 + c) d 8,
)

or_chain_low :
    (a b c d : ℕ)
    → b < 256
    → c < 256
    → d < 256
    → bit_or (bit_or (bit_or d (c * 2 ^ 8)) (b * 2 ^ 16)) (a * 2 ^ 24) ≡ join a b c d
or_chain_low a b c d hb hc hd = ground (
  arith,
  bit_or_fields_low c d 8,
  bit_or_fields_low b (c * 2 ^ 8 + d) 16,
  bit_or_fields_low a (b * 2 ^ 16 + (c * 2 ^ 8 + d)) 24,
)

-- Four bytes of a word make up the word.
bytes_of_word :
    (x : ℕ)
    → x < 2 ^ 32
    → join (x / 2 ^ 24 % 256) (x / 2 ^ 16 % 256) (x / 2 ^ 8 % 256) (x % 256) ≡ x
bytes_of_word x h = omega arith

-- A 16-bit value is decoded as it was encoded, whatever bytes follow, in both byte orders.
pub dec16-enc16 :
    (x : ℕ) (r : List ℕ)
    → x < 2 ^ 16
    → (dec16le (enc16le x ++ r) ≡ x) × (dec16be (enc16be x ++ r) ≡ x)
unfolding enc16le enc16be
dec16-enc16 x r h = (
  dec16le_sum (x % 256) (x / 256 % 256) r (omega arith) ∙ omega arith,
  dec16be_sum (x / 256 % 256) (x % 256) r (omega arith) ∙ omega arith,
)

-- A 32-bit value is decoded as it was encoded, whatever bytes follow, in both byte orders.
pub dec32-enc32 :
    (x : ℕ) (r : List ℕ)
    → x < 2 ^ 32
    → (dec32le (enc32le x ++ r) ≡ x) × (dec32be (enc32be x ++ r) ≡ x)
unfolding enc32le enc32be dec32le dec32be
dec32-enc32 x r h = (
  or_chain_low (x / 2 ^ 24 % 256) (x / 2 ^ 16 % 256) (x / 2 ^ 8 % 256) (x % 256) (omega arith)
        (omega arith) (omega arith)
      ∙ bytes_of_word x h,
  or_chain (x / 2 ^ 24 % 256) (x / 2 ^ 16 % 256) (x / 2 ^ 8 % 256) (x % 256) (omega arith)
        (omega arith) (omega arith)
      ∙ bytes_of_word x h,
)

halves64 : (x : ℕ) → x < 2 ^ 64 → x / 2 ^ 32 % 2 ^ 32 * 2 ^ 32 + x % 2 ^ 32 ≡ x
halves64 x h = omega arith

-- A 64-bit value is decoded as it was encoded, whatever bytes follow, in both byte orders.
pub dec64-enc64 :
    (x : ℕ) (r : List ℕ)
    → x < 2 ^ 64
    → (dec64le (enc64le x ++ r) ≡ x) × (dec64be (enc64be x ++ r) ≡ x)
unfolding enc64le enc64be dec64le dec64be
dec64-enc64 x r h = (
  ap₂ bit_or (dec32-enc32 lo (enc32le hi ++ r) (omega arith)).0
        (ap (λ (t : ℕ). t * 2 ^ 32) (dec32-enc32 hi r (omega arith)).0)
      ∙ bit_or_fields_low hi lo 32 (omega arith)
      ∙ halves64 x h,
  ap₂ bit_or (ap (λ (t : ℕ). t * 2 ^ 32) (dec32-enc32 hi (enc32be lo ++ r) (omega arith)).1)
        (dec32-enc32 lo r (omega arith)).1
      ∙ bit_or_fields hi lo 32 (omega arith)
      ∙ halves64 x h,
)
  where
    lo : ℕ
    lo = x % 2 ^ 32

    hi : ℕ
    hi = x / 2 ^ 32 % 2 ^ 32

module _ (enc : ℕ → List ℕ) (dec : List ℕ → ℕ) (size bound : ℕ)
    (round : (x : ℕ) (r : List ℕ) → x < bound → dec (enc x ++ r) ≡ x)
    (sized : (x : ℕ) → length (enc x) ≡ size) where
  range_round :
      (vs : List ℕ) (r : List ℕ)
      → All (λ v. v < bound) vs
      → range_dec dec size (length vs) (range_enc enc vs ++ r) ≡ vs
  unfolding range_dec range_enc
  range_round [] r h = refl
  range_round (v ∷ vs) r h =
      ap₂ ◌∷◌
        (ap dec (append_assoc (enc v) (range_enc enc vs) r) ∙ round v (range_enc enc vs ++ r) h.0)
        (ap (range_dec dec size (length vs)) (
            ap (drop size) (append_assoc (enc v) (range_enc enc vs) r)
            ∙ ap (λ n. drop n (enc v ++ (range_enc enc vs ++ r))) (sym (sized v))
            ∙ drop-append (enc v) (range_enc enc vs ++ r))
          ∙ range_round vs r h.1)

-- The range decoders undo the range encoders, at each width and in both byte orders.
pub range_dec-range_enc :
    (v2 v4 v8 : List ℕ) (r : List ℕ)
    → All (λ v. v < 2 ^ 16) v2
    → All (λ v. v < 2 ^ 32) v4
    → All (λ v. v < 2 ^ 64) v8
    → (range_dec16le (length v2) (range_enc16le v2 ++ r) ≡ v2)
      × (range_dec16be (length v2) (range_enc16be v2 ++ r) ≡ v2)
      × (range_dec32le (length v4) (range_enc32le v4 ++ r) ≡ v4)
      × (range_dec32be (length v4) (range_enc32be v4 ++ r) ≡ v4)
      × (range_dec64le (length v8) (range_enc64le v8 ++ r) ≡ v8)
      × (range_dec64be (length v8) (range_enc64be v8 ++ r) ≡ v8)
unfolding range_enc16le range_enc16be range_enc32le range_enc32be range_enc64le range_enc64be
    range_dec16le range_dec16be range_dec32le range_dec32be range_dec64le range_dec64be enc16le
    enc16be enc64le enc64be
range_dec-range_enc v2 v4 v8 r h2 h4 h8 = (
  range_round enc16le dec16le 2 _ (λ x t h. (dec16-enc16 x t h).0) (λ x. refl) v2 r h2,
  range_round enc16be dec16be 2 _ (λ x t h. (dec16-enc16 x t h).1) (λ x. refl) v2 r h2,
  range_round enc32le dec32le 4 _ (λ x t h. (dec32-enc32 x t h).0) (λ x. refl) v4 r h4,
  range_round enc32be dec32be 4 _ (λ x t h. (dec32-enc32 x t h).1) (λ x. refl) v4 r h4,
  range_round enc64le dec64le 8 _ (λ x t h. (dec64-enc64 x t h).0) (λ x. refl) v8 r h8,
  range_round enc64be dec64be 8 _ (λ x t h. (dec64-enc64 x t h).1) (λ x. refl) v8 r h8,
)

-- The range encoders write four bytes for a word.
pub length-range_enc32 :
    (vs : List ℕ)
    → (length (range_enc32le vs) ≡ 4 * length vs) × (length (range_enc32be vs) ≡ 4 * length vs)
unfolding range_enc32le range_enc32be range_enc enc32le enc32be
length-range_enc32 [] = (omega arith, omega arith)
length-range_enc32 (v ∷ vs) =
    let rest = length-range_enc32 vs in (omega (arith, rest.0), omega (arith, rest.1))

pub length-enc64 : (x : ℕ) → (length (enc64le x) ≡ 8) × (length (enc64be x) ≡ 8)
unfolding enc64le enc64be
length-enc64 x = (refl, refl)

append_nil : (a : List ℕ) → a ++ [] ≡ a
append_nil [] = refl
append_nil (x ∷ a) = ap (λ t. x ∷ t) (append_nil a)

-- A range of words is decoded as it was encoded, with nothing behind it.
pub decoded32 :
    (n : ℕ) (vs : List ℕ)
    → length vs ≡ n
    → All (λ v. v < 2 ^ 32) vs
    → (range_dec32le n (range_enc32le vs) ≡ vs) × (range_dec32be n (range_enc32be vs) ≡ vs)
decoded32 n vs e h =
    let back = range_dec-range_enc [] vs [] [] tt h tt in
    (
      ap₂ (λ k xs. range_dec32le k xs) (sym e) (sym (append_nil (range_enc32le vs))) ∙ back.2,
      ap₂ (λ k xs. range_dec32be k xs) (sym e) (sym (append_nil (range_enc32be vs))) ∙ back.3,
    )

-- The range encoder writes bytes.
pub range_enc32le-IsByte : (vs : List ℕ) → All (λ b. b < 256) (range_enc32le vs)
unfolding range_enc32le range_enc enc32le
range_enc32le-IsByte [] = tt
range_enc32le-IsByte (v ∷ vs) =
    (omega arith, (omega arith, (omega arith, (omega arith, range_enc32le-IsByte vs))))

pub dec32le_sum :
    (a b c d : ℕ) (r : List ℕ)
    → a < 256
    → b < 256
    → c < 256
    → dec32le (a ∷ b ∷ c ∷ d ∷ r) ≡ d * 2 ^ 24 + c * 2 ^ 16 + b * 2 ^ 8 + a
unfolding dec32le
dec32le_sum a b c d r ha hb hc = or_chain_low d c b a hc hb ha
