-- ===== src/Int31/Zero.antt =====
-- `br_i31_iszero` against the value of the number.
use bearssl.Common.{
  ℕ, zero, suc, ◌^◌, ◌<◌, ◌≡◌, refl, ap, ◌∙◌, arith, ◌==◌, eq→==, ne→==, inl, inr, Bool-cases,
  ==_iff, List, [], ◌∷◌, length, All,
}
use bearssl.Common.BitLaws.{bit_or-lt, bit_or-eq-zero}
use bearssl.Ct.{eq0}
use bearssl.Ct.Compare.{bit, sign_lem}
use bearssl.Int31.{Int31, or_words, word_count, iszero}
use bearssl.Int31.Value.{IsWord, value}

or_words-lt : (n : ℕ) (ws : List ℕ) → All IsWord ws → or_words n ws < 2 ^ 31
unfolding or_words
or_words-lt zero ws h = omega arith
or_words-lt (suc n) [] h = omega arith
or_words-lt (suc n) (w ∷ ws) h = bit_or-lt 31 (or_words n ws) w (or_words-lt n ws h.1) h.0

-- The union of the words is zero when the number is, and only then.
or_words_zero : (ws : List ℕ) (n : ℕ) → length ws ≡ n → value ws ≡ 0 → or_words n ws ≡ 0
unfolding or_words
or_words_zero [] zero e h = refl
or_words_zero [] (suc n) e h = refl
or_words_zero (w ∷ ws) zero e h = absurd (omega arith)
or_words_zero (w ∷ ws) (suc n) e h =
    let rest = or_words_zero ws n (omega arith) (omega arith) in
    let word : w ≡ 0 = omega arith in rw (rest, word) refl

zero-or_words : (ws : List ℕ) (n : ℕ) → length ws ≡ n → or_words n ws ≡ 0 → value ws ≡ 0
unfolding or_words
zero-or_words [] n e h = refl
zero-or_words (w ∷ ws) zero e h = absurd (omega arith)
zero-or_words (w ∷ ws) (suc n) e h =
    let parts = bit_or-eq-zero (or_words n ws) w h in
    let rest = zero-or_words ws n (omega arith) parts.0 in omega (arith, parts.1)

-- For a number of as many words as its header announces, `br_i31_iszero` returns 1 when the value
-- is zero and 0 otherwise.
pub iszero-value :
    (x : Int31)
    → All IsWord x.words
    → length x.words ≡ word_count x.header
    → iszero x ≡ bit (value x.words == 0)
unfolding iszero eq0
iszero-value x words size =
    let z = or_words (word_count x.header) x.words in
    let z_lt = or_words-lt (word_count x.header) x.words words in
    (sign_lem z (omega arith)).0 ∙ ap bit same
  where
    same : (or_words (word_count x.header) x.words == 0) ≡ (value x.words == 0)
    same = elim (Bool-cases (value x.words == 0)) [
      | inl e ↦ rw e (eq→== _ 0 (or_words_zero x.words _ size ((==_iff _ 0).0 e)))
      | inr e ↦ rw e (
          ne→== _ 0 (λ (h : or_words (word_count x.header) x.words ≡ 0).
            absurd (ground (arith, zero-or_words x.words _ size h))))
    ]
