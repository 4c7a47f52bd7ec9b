-- ===== src/Int31/Decode/Laws.antt =====
-- `br_i31_decode` against the number that the bytes stand for.
use bearssl.Common.{
  ℕ, zero, suc, ◌+◌, ◌-◌, ◌*◌, ◌/◌, ◌%◌, ◌^◌, ◌≤◌, ◌<◌, ◌≡◌, refl, sym, ap, ◌∙◌, arith, List, [],
  ◌∷◌, length, All, get_or, IsByte, ◌>>>◌, u32, bit_and, bit_or, leb, ltb, false, ◌==◌, Bool-cases,
  inl, inr,
}
use native.Mathlib.Nat.{mul-le-mul, mod-add-div, mod-lt, pow-le-pow_right}
use bearssl.Common.BitLaws.{bit_and_mask, bit_or_fields_low}
use bearssl.Common.Powers.{pow-add}
use bearssl.Int31.Value.{IsWord, value}
use bearssl.Int31.Decode.{decode_loop, decode}
use bearssl.Int31.Modpow.Exponent.{be_value}

-- A byte that fills the word: what is stored and what is kept make up what there was.
full_word :
    (acc b p q : ℕ)
    → p * q ≡ 2 ^ 31
    → acc < p
    → 0 < q
    → (b % q * p + acc < 2 ^ 31)
      × ((b * p) % 2 ^ 32 ≡ (b / q % 2 * q + b % q) * p)
      × (b % q * p + acc + 2 ^ 31 * (b / q) ≡ acc + p * b)
full_word acc b p q e h pos =
    let d = b / q in
    let split = ap (λ (t : ℕ). t * p) (mod-add-div b q) in
    let scaled = ap (λ (t : ℕ). t * d) e in
    let parity = ap (λ (t : ℕ). t * (d % 2)) e in
    let r_lt : suc (b % q) ≤ q = mod-lt b pos in
    let top = mul-le-mul {n₁ = suc (b % q)} {m₁ = p} {n₂ = q} {m₂ = p} r_lt (omega arith) in
    (
      omega (arith, top, e, h),
      omega (arith, split, scaled, parity, top, e, h),
      omega (arith, split, scaled),
    )

-- The number that the first `u` bytes stand for.
abbrev low_value : ℕ → List ℕ → ℕ
low_value zero buf = 0
low_value (suc u) buf = get_or buf u 0 + 256 * low_value u buf

low_value-cons :
    (u b : ℕ) (bs : List ℕ) → low_value (suc u) (b ∷ bs) ≡ low_value u bs + 2 ^ (8 * u) * b
low_value-cons zero b bs = omega (arith, ap (λ (t : ℕ). t * b) {x = 2 ^ (8 * 0)} {y = 1} refl)
low_value-cons (suc u) b bs =
    let power : 2 ^ (8 * suc u) ≡ 256 * 2 ^ (8 * u) =
      ap (λ (t : ℕ). 2 ^ t) {x = 8 * suc u} {y = 8 + 8 * u} (omega arith) ∙ pow-add 2 8 (8 * u) in
    omega (arith, low_value-cons u b bs, ap (λ (t : ℕ). t * b) power)

low_value-be_value : (bs : List ℕ) → low_value (length bs) bs ≡ be_value bs
low_value-be_value [] = refl
low_value-be_value (b ∷ bs) = omega (arith, low_value-cons (length bs) b bs, low_value-be_value bs)

byte-lt : (u : ℕ) (bs : List ℕ) → All IsByte bs → get_or bs u 0 < 256
byte-lt u [] h = omega arith
byte-lt zero (b ∷ bs) h = h.0
byte-lt (suc u) (b ∷ bs) h = byte-lt u bs h.1

-- A byte that leaves room: the joined word.
joined_short :
    (acc b a : ℕ)
    → a < 23
    → acc < 2 ^ a
    → b < 256
    → (bit_or acc (u32 (b * 2 ^ a)) ≡ acc + 2 ^ a * b) × (acc + 2 ^ a * b < 2 ^ (a + 8))
joined_short acc b a ha h hb =
    let p = pow-le-pow_right {n = 2} (omega arith) {i = a} {j = 22} (omega arith) in
    let fits = mul-le-mul {n₁ = b} {m₁ = 2 ^ a} {n₂ = 255} {m₂ = 2 ^ 22} (omega arith) p in
    let plain : u32 (b * 2 ^ a) ≡ b * 2 ^ a = omega (arith, fits) in
    let room =
      mul-le-mul {n₁ = suc b} {m₁ = 2 ^ a} {n₂ = 256} {m₂ = 2 ^ a} (omega arith) (omega arith) in
    (
      ap (λ t. bit_or acc t) plain ∙ bit_or_fields_low b acc a h ∙ omega arith,
      omega (arith, room, h, pow-add 2 a 8),
    )

quotient_below : (b q s : ℕ) → b < s * q → b / q < s
quotient_below b q s h = elim (Bool-cases (ltb (b / q) s)) [
  | inl e ↦ ground (arith, e)
  | inr e ↦ absurd (
      omega (
        arith,
        h,
        mod-add-div b q,
        mul-le-mul {n₁ = s} {m₁ = q} {n₂ = b / q} {m₂ = q} (ground (arith, e)) (omega arith),
      ))
]

-- One that fills it.
joined_full :
    (acc b a : ℕ)
    → 23 ≤ a
    → a < 31
    → acc < 2 ^ a
    → b < 256
    → let w = bit_and (bit_or acc (u32 (b * 2 ^ a))) 0x7fffffff in
      let kept = b >>> (8 - (a + 8 - 31)) in
      (w + 2 ^ 31 * kept ≡ acc + 2 ^ a * b) × IsWord w × (kept < 2 ^ (a + 8 - 31))
joined_full acc b a lo hi h hb =
    let q = 2 ^ (31 - a) in
    let e : 2 ^ a * q ≡ 2 ^ 31 =
      sym (pow-add 2 a (31 - a))
      ∙ ap (λ (t : ℕ). 2 ^ t) {x = a + (31 - a)} {y = 31} (omega arith) in
    let pos : 0 < q = pow-le-pow_right {n = 2} (omega arith) {i = 0} {j = 31 - a} (omega arith) in
    let w = full_word acc b (2 ^ a) q e h pos in
    let join : bit_or acc (u32 (b * 2 ^ a)) ≡ (b / q % 2 * q + b % q) * 2 ^ a + acc =
      ap (λ t. bit_or acc t) w.1 ∙ bit_or_fields_low (b / q % 2 * q + b % q) acc a h in
    let word : bit_and (bit_or acc (u32 (b * 2 ^ a))) 0x7fffffff ≡ b % q * 2 ^ a + acc =
      ap (λ t. bit_and t 0x7fffffff) join
      ∙ bit_and_mask 31 ((b / q % 2 * q + b % q) * 2 ^ a + acc)
      ∙ omega (arith, w.0, ap (λ (t : ℕ). t * (b / q % 2)) e) in
    let shift : b >>> (8 - (a + 8 - 31)) ≡ b / q =
      ap (λ (t : ℕ). b / 2 ^ t) {x = 8 - (a + 8 - 31)} {y = 31 - a} (omega arith) in
    let size : 2 ^ (a + 8 - 31) * q ≡ 256 =
      sym (pow-add 2 (a + 8 - 31) (31 - a))
      ∙ ap (λ (t : ℕ). 2 ^ t) {x = a + 8 - 31 + (31 - a)} {y = 8} (omega arith) in
    rw (word, shift) (w.2, w.0, quotient_below b q (2 ^ (a + 8 - 31)) (omega (arith, hb, size)))

decode_loop-value :
    (u : ℕ) (buf : List ℕ) (acc a : ℕ)
    → All IsByte buf
    → a < 31
    → acc < 2 ^ a
    → (value (decode_loop u buf acc a) ≡ acc + 2 ^ a * low_value u buf)
      × All IsWord (decode_loop u buf acc a)
unfolding decode_loop
decode_loop-value zero buf acc zero hb ha h = (omega (arith, h), tt)
decode_loop-value zero buf acc (suc a) hb ha h =
    let p = pow-le-pow_right {n = 2} (omega arith) {i = suc a} {j = 30} (omega arith) in
    let more : (suc a == 0) ≡ false = ground arith in
    rw more (omega arith, (omega (arith, h, p), tt))
decode_loop-value (suc u) buf acc a hb ha h =
    let b = get_or buf u 0 in
    elim (Bool-cases (leb 31 (a + 8))) [
      | inl e ↦
          let w = joined_full acc b a (ground (arith, e)) ha h (byte-lt u buf hb) in
          let ih =
            decode_loop-value u buf (b >>> (8 - (a + 8 - 31))) (a + 8 - 31) hb (omega arith) w.2 in
          let power : 2 ^ 31 * 2 ^ (a + 8 - 31) ≡ 2 ^ a * 256 =
            sym (pow-add 2 31 (a + 8 - 31))
            ∙ ap (λ (t : ℕ). 2 ^ t) {x = 31 + (a + 8 - 31)} {y = a + 8} (ground (arith, e))
            ∙ pow-add 2 a 8 in
          rw e (omega (arith, w.0, ih.0, ap (λ (t : ℕ). t * low_value u buf) power), (w.1, ih.1))
      | inr e ↦
          let w = joined_short acc b a (ground (arith, e)) h (byte-lt u buf hb) in
          let ih =
            decode_loop-value u buf (bit_or acc (u32 (b * 2 ^ a))) (a + 8) hb (ground (arith, e))
              (rw w.0 w.1) in
          rw e (omega (arith, w.0, ih.0, ap (λ (t : ℕ). t * low_value u buf) (pow-add 2 a 8)), ih.1)
    ]

-- `br_i31_decode` makes words of 31 bits, which stand for the number that the bytes stand for, the
-- most significant first.
pub decode-value :
    (src : List ℕ)
    → All IsByte src
    → (value (decode src).words ≡ be_value src) × All IsWord (decode src).words
unfolding decode
decode-value src h =
    let r = decode_loop-value (length src) src 0 0 h (omega arith) (omega arith) in
    (omega (arith, r.0, low_value-be_value src), r.1)
