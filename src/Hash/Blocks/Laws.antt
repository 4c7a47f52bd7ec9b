-- ===== src/Hash/Blocks/Laws.antt =====
-- What the out functions and the saved states of the hash functions with blocks of 64 bytes give.
use bearssl.Common.{
  ℕ, zero, suc, ◌+◌, ◌-◌, ◌*◌, ◌/◌, ◌%◌, ◌^◌, ◌≤◌, ◌<◌, ◌≡◌, refl, sym, ap, ap₂, ◌∙◌, arith, List,
  [], ◌∷◌, ◌++◌, length, take, replicate, ltb, if◌then◌else◌, length-append, length-replicate,
  length-take_all, inl, inr, Bool-cases, u64, All, IsU32,
}
use bearssl.Hmac.Laws.{append_assoc}
use bearssl.Hash.Blocks.{Context, final_values}
use bearssl.Hash.Blocks.Spec.{
  compress, compress-append, compress-words, padding, values_of, IsRound, zero_add, suc_add,
}
use bearssl.Hash.Blocks.Update.{Buffered, length-Buffered, remainder, Holds}

no_tail : (xs : List ℕ) → length xs ≡ 0 → [] ≡ xs
no_tail [] e = refl
no_tail (x ∷ xs) e = absurd (omega arith)

module _ (round : List ℕ → List ℕ → List ℕ) (enc : ℕ → List ℕ)
    (eight_enc : (x : ℕ) → length (enc x) ≡ 8) where
  -- The bytes after the tail that complete the last block, or the last two.
  filled :
      (iv done tail rest : List ℕ) (q p : ℕ)
      → length done ≡ 64 * q
      → length tail + length rest ≡ 64 * p
      → compress round (length ((done ++ tail) ++ rest) / 64) iv ((done ++ tail) ++ rest)
        ≡ compress round p (compress round q iv done) (tail ++ rest)
  filled iv done tail rest q p e f =
      ap₂ (λ n xs. compress round n iv xs) count (append_assoc done tail rest)
      ∙ compress-append round q p iv done (tail ++ rest) e
    where
      count : length ((done ++ tail) ++ rest) / 64 ≡ q + p
      count = omega (arith, length-append (done ++ tail) rest, length-append done tail, e, f)

  replicate-add : (a b : ℕ) → replicate {A = ℕ} (a + b) 0 ≡ replicate a 0 ++ replicate b 0
  replicate-add zero b = ap (λ n. replicate {A = ℕ} n 0) (zero_add b)
  replicate-add (suc a) b =
      ap (λ n. replicate {A = ℕ} n 0) (suc_add a b) ∙ ap (λ t. 0 ∷ t) (replicate-add a b)

  one_block : (v xs : List ℕ) → length xs ≡ 64 → compress round 1 v xs ≡ round xs v
  unfolding compress
  one_block v xs e = ap (λ t. round t v) (length-take_all 64 xs e)

  -- The bytes that `sha2small_out` builds after the tail are the padding.
  last_block :
      (v tail bits : List ℕ) (t : ℕ)
      → length tail ≡ t
      → length bits ≡ 8
      → t < 56
      → compress round 1 v (tail ++ (0x80 ∷ (replicate (55 - t) 0 ++ bits)))
        ≡ round ((tail ++ (0x80 ∷ [])) ++ (replicate (56 - (t + 1)) 0 ++ bits)) v
  last_block v tail bits t e eb h =
      one_block v _ size
      ∙ ap (λ xs. round xs v)
          (sym (append_assoc tail (0x80 ∷ []) (replicate (55 - t) 0 ++ bits))
            ∙ ap (λ n. (tail ++ (0x80 ∷ [])) ++ (replicate n 0 ++ bits)) count)
    where
      size : length (tail ++ (0x80 ∷ (replicate (55 - t) 0 ++ bits))) ≡ 64
      size = omega (
        arith,
        length-append tail (0x80 ∷ (replicate (55 - t) 0 ++ bits)),
        length-append (replicate (55 - t) 0) bits,
        length-replicate {A = ℕ} (55 - t) 0,
      )

      count : 55 - t ≡ 56 - (t + 1)
      count = omega arith

  last_blocks :
      (v tail bits : List ℕ) (t : ℕ)
      → length tail ≡ t
      → length bits ≡ 8
      → 56 ≤ t
      → t < 64
      → compress round 2 v (tail ++ (0x80 ∷ (replicate (119 - t) 0 ++ bits)))
        ≡ round
            (replicate 56 0 ++ bits)
            (round ((tail ++ (0x80 ∷ [])) ++ replicate (64 - (t + 1)) 0) v)
  last_blocks v tail bits t e eb h1 h2 =
      ap (λ xs. compress round 2 v xs) split
      ∙ compress-append round 1 1 v first (replicate 56 0 ++ bits) size
      ∙ ap (λ w. compress round 1 w (replicate 56 0 ++ bits)) (one_block v first size)
      ∙ one_block _ (replicate 56 0 ++ bits)
          (omega (arith, eb, length-append (replicate 56 0) bits))
    where
      zeros : List ℕ
      zeros = replicate (64 - (t + 1)) 0

      first : List ℕ
      first = (tail ++ (0x80 ∷ [])) ++ zeros

      count : 119 - t ≡ 64 - (t + 1) + 56
      count = omega arith

      split : tail ++ (0x80 ∷ (replicate (119 - t) 0 ++ bits)) ≡ first ++ (replicate 56 0 ++ bits)
      split =
          ap (λ n. tail ++ (0x80 ∷ (replicate n 0 ++ bits))) count
          ∙ ap (λ z. tail ++ (0x80 ∷ (z ++ bits))) (replicate-add (64 - (t + 1)) 56)
          ∙ ap (λ z. tail ++ (0x80 ∷ z)) (append_assoc zeros (replicate 56 0) bits)
          ∙ sym (append_assoc tail (0x80 ∷ []) (zeros ++ (replicate 56 0 ++ bits)))
          ∙ sym (append_assoc (tail ++ (0x80 ∷ [])) zeros (replicate 56 0 ++ bits))

      size : length first ≡ 64
      size = omega (
        arith,
        length-append (tail ++ (0x80 ∷ [])) zeros,
        length-append tail (0x80 ∷ []),
        length-replicate {A = ℕ} (64 - (t + 1)) 0,
      )

  -- `sha2small_out` before the encoding.
  out_values :
      (iv buf val m : List ℕ) (s : Buffered round iv buf val m) (bits : List ℕ) (t : ℕ)
      → length m % 64 ≡ t
      → bits ≡ enc (u64 (8 * length m))
      → (if ltb 56 (t + 1)
          then round
              (replicate 56 0 ++ bits)
              (round ((take t buf ++ (0x80 ∷ [])) ++ replicate (64 - (t + 1)) 0) val)
          else round ((take t buf ++ (0x80 ∷ [])) ++ (replicate (56 - (t + 1)) 0 ++ bits)) val)
        ≡ compress round
            (length (m ++ padding enc (length m)) / 64)
            iv
            (m ++ padding enc (length m))
  unfolding padding
  out_values iv buf val m s bits t e eb =
      let tail_len : length s.tail ≡ t =
        sym (remainder round s.blocks _ _ (length-Buffered round iv buf val m s) s.short) ∙ e in
      let eight : length bits ≡ 8 = ap length eb ∙ eight_enc _ in
      let tail_held : take t buf ≡ s.tail = ap (λ n. take n buf) (sym tail_len) ∙ s.held in
      let pad : (k : ℕ)
          → (119 - t) % 64 ≡ k
          → padding enc (length m) ≡ 0x80 ∷ (replicate k 0 ++ bits) =
        λ k ek.
          ap₂ (λ z b. 0x80 ∷ (replicate ((119 - z) % 64) 0 ++ b)) e (sym eb)
          ∙ ap (λ z. 0x80 ∷ (replicate z 0 ++ bits)) ek in
      let blocks : (p k : ℕ)
          → (119 - t) % 64 ≡ k
          → t + (9 + k) ≡ 64 * p
          → compress round (length (m ++ padding enc (length m)) / 64) iv
              (m ++ padding enc (length m))
            ≡ compress round p val (s.tail ++ (0x80 ∷ (replicate k 0 ++ bits))) =
        λ p k ek count.
          ap₂ (λ a b. compress round (length (a ++ b) / 64) iv (a ++ b)) (sym s.parts) (pad k ek)
          ∙ filled iv s.done s.tail (0x80 ∷ (replicate k 0 ++ bits)) s.blocks p s.whole (
              omega (
                arith,
                tail_len,
                count,
                eight,
                length-append (replicate k 0) bits,
                length-replicate {A = ℕ} k 0,
              ))
          ∙ ap (λ v. compress round p v (s.tail ++ (0x80 ∷ (replicate k 0 ++ bits))))
              (sym s.values) in
      elim (Bool-cases (ltb 56 (t + 1))) [
        | inl h ↦
            let much : 56 ≤ t = ground (arith, h) in
            rw (h, tail_held)
              (sym (
                blocks 2 (119 - t) (omega (arith, much)) (omega (arith, much, tail_len, s.short))
                ∙ last_blocks val s.tail bits t tail_len eight much
                    (omega (arith, tail_len, s.short))))
        | inr h ↦
            let few : t < 56 = ground (arith, h) in
            rw (h, tail_held)
              (sym (
                blocks 1 (55 - t) (omega (arith, few)) (omega (arith, few))
                ∙ last_block val s.tail bits t tail_len eight few))
      ]

  bits_lem : (c n : ℕ) → c ≡ u64 n → u64 (c * 2 ^ 3) ≡ u64 (8 * n)
  bits_lem c n h = omega arith

  -- The values that an out function encodes are those of the padded message.
  pub final_values_lem :
      (iv : List ℕ) (ctx : Context) (m : List ℕ)
      → Holds round iv ctx m
      → final_values round ctx (enc (u64 (ctx.count * 2 ^ 3))) ≡ values_of round enc iv m
  unfolding final_values values_of
  final_values_lem iv ctx m s =
      out_values iv ctx.buf ctx.val m s.buffered (enc (u64 (ctx.count * 2 ^ 3))) (ctx.count % 64)
        (omega (arith, s.counted)) (ap enc (bits_lem ctx.count (length m) s.counted))

-- A fresh context, and one restored after one block, with any content of the buffer.
module _ (round : List ℕ → List ℕ → List ℕ) (unset : List ℕ) (size : length unset ≡ 64) where
  pub fresh : (iv : List ℕ) → Holds round iv (record { buf = unset; count = 0; val = iv }) []
  unfolding compress
  fresh iv = record {
    counted = refl;
    buffered = record {
      blocks = 0;
      done = [];
      tail = [];
      parts = refl;
      whole = refl;
      short = omega arith;
      values = refl;
      size = size;
      held = refl;
    };
  }

  pub restored_lem :
      (iv : List ℕ) (ctx : Context) (m val : List ℕ)
      → Holds round iv ctx m
      → length m ≡ 64
      → val ≡ ctx.val
      → Holds round iv (record { buf = unset; count = 64; val = val }) m
  restored_lem iv ctx m val s e same =
      let b = s.buffered in
      let many = length-Buffered round iv ctx.buf ctx.val m b in
      let none : length b.tail ≡ 0 = omega (arith, many, b.short, e) in
      record {
        counted = omega (arith, e);
        buffered = record {
          blocks = b.blocks;
          done = b.done;
          tail = b.tail;
          parts = b.parts;
          whole = b.whole;
          short = b.short;
          values = same ∙ b.values;
          size = size;
          held = rw none (no_tail b.tail none);
        };
      }

-- The values of a context and of a message are words.
pub context_words :
    (round : List ℕ → List ℕ → List ℕ) (width : ℕ) (iv : List ℕ) (ctx : Context) (m : List ℕ)
    → IsRound width round
    → length iv ≡ width
    → All IsU32 iv
    → Holds round iv ctx m
    → (length ctx.val ≡ width) × All IsU32 ctx.val
context_words round width iv ctx m law e words s =
    let b = s.buffered in rw b.values (compress-words round width b.blocks iv b.done law e words)

pub length-values_of :
    (round : List ℕ → List ℕ → List ℕ) (enc : ℕ → List ℕ) (width : ℕ) (iv m : List ℕ)
    → IsRound width round
    → length iv ≡ width
    → All IsU32 iv
    → length (values_of round enc iv m) ≡ width
unfolding values_of
length-values_of round enc width iv m law e words =
    let padded = m ++ padding enc (length m) in
    (compress-words round width (length padded / 64) iv padded law e words).0
