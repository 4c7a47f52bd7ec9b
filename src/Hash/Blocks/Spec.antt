-- ===== src/Hash/Blocks/Spec.antt =====
-- The hash of a whole message as the standards compose it: the padded message in blocks of 64 bytes,
-- through the compression function `round`; `enc` encodes the length.
use bearssl.Common.{
  ℕ, zero, suc, ◌+◌, ◌-◌, ◌*◌, ◌/◌, ◌%◌, ◌≤◌, ◌≡◌, refl, ap, ap₂, ◌∙◌, arith, List, [], ◌∷◌, ◌++◌,
  length, take, drop, replicate, All, IsU32, u64, length-drop,
}

-- The padding: a byte 0x80, as few zeros as reach 8 bytes short of a block, and the length in bits.
unfoldable pub padding : (ℕ → List ℕ) → ℕ → List ℕ
padding enc n = 0x80 ∷ (replicate ((119 - n % 64) % 64) 0 ++ enc (u64 (8 * n)))

pub take_front : (n : ℕ) (a b : List ℕ) → n ≤ length a → take n (a ++ b) ≡ take n a
take_front zero a b h = refl
take_front (suc n) [] b h = absurd (omega arith)
take_front (suc n) (x ∷ a) b h = ap (λ t. x ∷ t) (take_front n a b (omega arith))

pub drop_front : (n : ℕ) (a b : List ℕ) → n ≤ length a → drop n (a ++ b) ≡ drop n a ++ b
drop_front zero a b h = refl
drop_front (suc n) [] b h = absurd (omega arith)
drop_front (suc n) (x ∷ a) b h = drop_front n a b (omega arith)

pub zero_add : (n : ℕ) → 0 + n ≡ n
zero_add n = omega arith

pub suc_add : (m n : ℕ) → suc m + n ≡ suc (m + n)
suc_add m n = omega arith

-- Values that a compression function can have: a number of words.
pub record IsRound (width : ℕ) (round : List ℕ → List ℕ → List ℕ) : Type 0 where
  pub length_values : (buf val : List ℕ) → length (round buf val) ≡ width
  pub word_values : (buf val : List ℕ) → All IsU32 (round buf val)

module _ (round : List ℕ → List ℕ → List ℕ) where
  -- `q` blocks from the front.
  unfoldable pub compress : ℕ → List ℕ → List ℕ → List ℕ
  compress zero v xs = v
  compress (suc q) v xs = compress q (round (take 64 xs) v) (drop 64 xs)

  -- The values for the message.
  unfoldable pub values_of : (ℕ → List ℕ) → List ℕ → List ℕ → List ℕ
  values_of enc iv m =
      let padded = m ++ padding enc (length m) in compress (length padded / 64) iv padded

  -- Blocks after blocks.
  pub compress-append :
      (q p : ℕ) (v a b : List ℕ)
      → length a ≡ 64 * q
      → compress (q + p) v (a ++ b) ≡ compress p (compress q v a) b
  unfolding compress
  compress-append zero p v [] b e = ap (λ k. compress k v b) (zero_add p)
  compress-append zero p v (x ∷ a) b e = absurd (omega arith)
  compress-append (suc q) p v a b e =
      ap (λ k. compress k v (a ++ b)) (suc_add q p)
      ∙ ap₂ (λ x y. compress (q + p) (round x v) y) (take_front 64 a b (omega arith))
          (drop_front 64 a b (omega arith))
      ∙ compress-append q p (round (take 64 a) v) (drop 64 a) b (omega (arith, length-drop 64 a))

  pub compress-words :
      (width q : ℕ) (v xs : List ℕ)
      → IsRound width round
      → length v ≡ width
      → All IsU32 v
      → (length (compress q v xs) ≡ width) × All IsU32 (compress q v xs)
  unfolding compress
  compress-words width zero v xs law e h = (e, h)
  compress-words width (suc q) v xs law e h =
      compress-words width q (round (take 64 xs) v) (drop 64 xs) law
        (law.length_values (take 64 xs) v) (law.word_values (take 64 xs) v)
