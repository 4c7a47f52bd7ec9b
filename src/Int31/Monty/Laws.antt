-- ===== src/Int31/Monty/Laws.antt =====
-- The outer loop of `br_i31_montymul`: what a turn does to the number in `d`, and its bound.
use bearssl.Common.{
  length-append, ℕ, suc, ◌+◌, ◌*◌, ◌/◌, ◌%◌, ◌^◌, ◌<◌, ◌≡◌, ap, ◌∙◌, arith, List, [], ◌∷◌, ◌++◌,
  length, get_or, drop, All, u32, u64, bit_and,
}
use bearssl.Common.BitLaws.{bit_and_mask}
use bearssl.Int31.Value.{IsWord, value, radix, value-append}
use bearssl.Int31.Monty.{mul31_lo, mont_row, mont_turn}
use bearssl.Int31.Monty.Rows.{Row, mont_row-Row, first_word}

All-push : (t : List ℕ) (lo : ℕ) → All IsWord t → IsWord lo → All IsWord (t ++ (lo ∷ []))
All-push [] lo h k = (k, tt)
All-push (x ∷ t) lo h k = (h.0, All-push t lo h.1 k)

-- What stays when a row has dropped its first word, which is 0.
dropped :
    (n total dh : ℕ) (row : List ℕ × ℕ)
    → Row (suc n) total row
    → total % 2 ^ 31 ≡ 0
    → dh < 2
    → let zh = u64 (dh + row.1) in
      let after = drop 1 (row.0 ++ (bit_and (u32 zh) 0x7fffffff ∷ [])) in
      (2 ^ 31 * (value after + radix (suc n) * (zh / 2 ^ 31)) ≡ total + radix (suc n) * dh)
      × (length after ≡ suc n)
      × All IsWord after
      × (zh / 2 ^ 31 < 2)
dropped n total dh ([], c) r e h = absurd (omega (arith, r.size))
dropped n total dh (z0 ∷ t, c) r e h =
    let zh = dh + c in
    let lo = zh % 2 ^ 31 in
    let plain : u64 zh ≡ zh = omega (arith, r.carry) in
    let low : bit_and (u32 zh) 0x7fffffff ≡ lo =
      bit_and_mask 31 (u32 zh) ∙ omega (arith, r.carry) in
    let nil : z0 ≡ 0 = omega (arith, r.sum, r.words.0) in
    let split : radix n * zh ≡ radix n * (lo + 2 ^ 31 * (zh / 2 ^ 31)) =
      ap (λ (x : ℕ). radix n * x) {x = zh} {y = lo + 2 ^ 31 * (zh / 2 ^ 31)} (omega arith) in
    let size : length t ≡ n = omega (arith, r.size) in
    let joined : value (t ++ (lo ∷ [])) ≡ value t + radix n * lo =
      value-append t (lo ∷ []) ∙ rw size (omega arith) in
    rw (plain, low)
      (
        omega (arith, joined, split, nil, r.sum),
        (length-append t (lo ∷ [])) ∙ omega (arith, size),
        All-push t lo r.words.1 (omega arith),
        omega (arith, r.carry),
      )

-- A turn divides by the radix, exactly.
pub turn_sum :
    (n xu m0i g dh : ℕ) (d y m : List ℕ)
    → length d ≡ suc n
    → length y ≡ suc n
    → length m ≡ suc n
    → IsWord xu
    → All IsWord d
    → All IsWord y
    → All IsWord m
    → get_or m 0 0 * m0i + 1 ≡ 2 ^ 31 * g
    → dh < 2
    → let f = mul31_lo (u32 (get_or d 0 0 + mul31_lo xu (get_or y 0 0))) m0i in
      let turn = mont_turn xu m0i d y m dh in
      (2 ^ 31 * (value turn.0 + radix (suc n) * turn.1)
        ≡ value d + radix (suc n) * dh + xu * value y + f * value m)
      × (length turn.0 ≡ suc n)
      × All IsWord turn.0
      × (turn.1 < 2)
      × IsWord f
unfolding mont_turn
turn_sum n xu m0i g dh [] y m ld ly lm hx hd hy hm e h = absurd (omega (arith, ld))
turn_sum n xu m0i g dh (d0 ∷ d) [] m ld ly lm hx hd hy hm e h = absurd (omega (arith, ly))
turn_sum n xu m0i g dh (d0 ∷ d) (y0 ∷ y) [] ld ly lm hx hd hy hm e h = absurd (omega (arith, lm))
turn_sum n xu m0i g dh (d0 ∷ d) (y0 ∷ y) (m0 ∷ m) ld ly lm hx hd hy hm e h =
    let first = first_word d0 xu y0 m0 m0i g hd.0 hx hy.0 e in
    let f = mul31_lo (u32 (d0 + mul31_lo xu y0)) m0i in
    let row =
      mont_row-Row (suc n) xu f (d0 ∷ d) (y0 ∷ y) (m0 ∷ m) 0 ld ly lm hx first.1 hd hy hm
        (omega arith) in
    let r =
      dropped n _ dh (mont_row xu f (d0 ∷ d) (y0 ∷ y) (m0 ∷ m) 0) row (omega (arith, first.0)) h in
    (omega (arith, r.0), r.1, r.2, r.3, first.1)
