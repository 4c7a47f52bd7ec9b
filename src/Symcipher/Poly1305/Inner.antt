-- ===== src/Symcipher/Poly1305/Inner.antt =====
-- The loop of `poly1305_inner` evaluates a polynomial.
use bearssl.Common.{
  ℕ, zero, suc, ◌+◌, ◌-◌, ◌*◌, ◌/◌, ◌%◌, ◌^◌, ◌≤◌, ◌<◌, ◌≡◌, refl, sym, ap, ap₂, ◌∙◌, arith, List,
  [], ◌∷◌, ◌++◌, length, take, drop, replicate, get_or, All, IsByte, ltb, ◌==◌, if◌then◌else◌,
  Bool-cases, inl, inr, length-append, length-replicate,
}
use bearssl.Symcipher.Poly1305.{
  Limbs, add_block, mul_limbs, carry_limbs, inner_loop, poly1305_inner,
}
use bearssl.Symcipher.Poly1305.Words.{prime, limbs_value, le_value, IsAcc, IsBelow, add_block_lem}
use bearssl.Symcipher.Poly1305.Product.{mul_limbs_lem, carry_limbs_lem, product, mul_plain, wrapped}

-- The first `n` bytes, one by one.
front : ℕ → List ℕ → List ℕ
front zero bs = []
front (suc n) bs = get_or bs 0 0 ∷ front n (drop 1 bs)

front-append-drop : (n : ℕ) (bs : List ℕ) → n ≤ length bs → bs ≡ front n bs ++ drop n bs
unfolding front
front-append-drop zero bs h = refl
front-append-drop (suc n) [] h = absurd (omega arith)
front-append-drop (suc n) (b ∷ bs) h = ap (λ t. b ∷ t) (front-append-drop n bs (omega arith))

front-IsByte : (n : ℕ) (bs : List ℕ) → All IsByte bs → All IsByte (front n bs)
unfolding front
front-IsByte zero bs h = tt
front-IsByte (suc n) [] h = (omega arith, front-IsByte n [] tt)
front-IsByte (suc n) (b ∷ bs) h = (h.0, front-IsByte n bs h.1)

front-take : (n : ℕ) (bs : List ℕ) → n ≤ length bs → front n bs ≡ take n bs
unfolding front
front-take zero bs h = refl
front-take (suc n) [] h = absurd (omega arith)
front-take (suc n) (b ∷ bs) h = ap (λ t. b ∷ t) (front-take n bs (omega arith))

add_block_front :
    (a : Limbs) (bs : List ℕ)
    → IsAcc a
    → All IsByte bs
    → 16 ≤ length bs
    → (limbs_value (add_block a bs) ≡ limbs_value a + le_value (take 16 bs) + 2 ^ 128)
      × IsBelow (2 ^ 27 + 2 ^ 6) (add_block a bs)
add_block_front a bs ha hb size =
    let added : (limbs_value (add_block a (front 16 bs ++ drop 16 bs))
          ≡ limbs_value a + le_value (front 16 bs) + 2 ^ 128)
        × IsBelow (2 ^ 27 + 2 ^ 6) (add_block a (front 16 bs ++ drop 16 bs)) =
      unfold front in
      add_block_lem a _ _ _ _ _ _ _ _ _ _ _ _ _ _ _ _ (drop 16 bs) ha (front-IsByte 16 bs hb) in
    let same = ap (add_block a) (front-append-drop 16 bs size) in
    rw same
      (added.0 ∙ ap (λ x. limbs_value a + le_value x + 2 ^ 128) (front-take 16 bs size), added.1)

-- A factor may be reduced first.
reduced :
    (v n r out k : ℕ) → out + prime * k ≡ (v + n) * r → out % prime ≡ (v % prime + n) * r % prime
reduced v n r out k e =
    let split : v * r ≡ (prime * (v / prime) + v % prime) * r =
      ap (λ (t : ℕ). t * r) {x = v} {y = prime * (v / prime) + v % prime} (omega arith) in
    let whole : (v % prime + n) * r + prime * (v / prime * r) ≡ out + prime * k =
      omega (arith, split, e) in
    multiples out k ((v % prime + n) * r) (v / prime * r) (omega (arith, whole))
  where
    multiples : (a k b j : ℕ) → a + prime * k ≡ b + prime * j → a % prime ≡ b % prime
    multiples a k b j h = omega (arith, h)

-- One turn of the loop on a whole block: Horner's rule modulo the prime.
turn :
    (a r : Limbs) (bs : List ℕ)
    → IsAcc a
    → IsBelow (2 ^ 26) r
    → All IsByte bs
    → 16 ≤ length bs
    → let out = carry_limbs (mul_limbs (add_block a bs) r) in
      (limbs_value out % prime
        ≡ (limbs_value a % prime + (le_value (take 16 bs) + 2 ^ 128)) * limbs_value r % prime)
      × IsAcc out
turn a r bs ha hr hb size =
    let added = add_block_front a bs ha hb size in
    let multiplied = mul_limbs_lem (add_block a bs) r added.1 hr in
    let (k, carried, acc) =
      carry_limbs_lem (mul_plain (add_block a bs) r) multiplied.1 multiplied.2 in
    let n = le_value (take 16 bs) + 2 ^ 128 in
    let total : limbs_value (carry_limbs (mul_plain (add_block a bs) r))
          + prime * (k + wrapped (add_block a bs) r)
        ≡ (limbs_value a + n) * limbs_value r =
      omega (arith, carried, product (add_block a bs) r)
      ∙ ap (λ (t : ℕ). t * limbs_value r) (added.0 ∙ omega arith) in
    rw multiplied.0
      (reduced (limbs_value a) n (limbs_value r) _ (k + wrapped (add_block a bs) r) total, acc)

-- Poly1305 of RFC 7539 over blocks that are padded with zeros: Horner's rule with one factor `r`.
unfoldable pub horner : ℕ → ℕ → ℕ → List ℕ → ℕ
horner zero h r bs = h
horner (suc fuel) h r bs =
    let rest = horner fuel ((h + (le_value (take 16 bs) + 2 ^ 128)) * r % prime) r (drop 16 bs) in
    if length bs == 0 then h else rest

le_value-zeros : (n : ℕ) → le_value (replicate n 0) ≡ 0
unfolding le_value
le_value-zeros zero = refl
le_value-zeros (suc n) = omega (arith, le_value-zeros n)

le_value-padded : (bs : List ℕ) (n : ℕ) → le_value (bs ++ replicate n 0) ≡ le_value bs
unfolding le_value
le_value-padded [] n = le_value-zeros n
le_value-padded (b ∷ bs) n = omega (arith, le_value-padded bs n)

padded-IsByte : (bs : List ℕ) (n : ℕ) → All IsByte bs → All IsByte (bs ++ replicate n 0)
padded-IsByte [] zero h = tt
padded-IsByte [] (suc n) h = (omega arith, padded-IsByte [] n tt)
padded-IsByte (b ∷ bs) n h = (h.0, padded-IsByte bs n h.1)

dropped-IsByte : (n : ℕ) (bs : List ℕ) → All IsByte bs → All IsByte (drop n bs)
dropped-IsByte zero bs h = h
dropped-IsByte (suc n) [] h = tt
dropped-IsByte (suc n) (b ∷ bs) h = dropped-IsByte n bs h.1

drop_all : (n : ℕ) (bs : List ℕ) → length bs ≤ n → drop n bs ≡ []
drop_all zero [] h = refl
drop_all zero (b ∷ bs) h = absurd (omega arith)
drop_all (suc n) [] h = refl
drop_all (suc n) (b ∷ bs) h = drop_all n bs (omega arith)

take_all : (n : ℕ) (bs : List ℕ) → length bs ≤ n → take n bs ≡ bs
take_all zero [] h = refl
take_all zero (b ∷ bs) h = absurd (omega arith)
take_all (suc n) [] h = refl
take_all (suc n) (b ∷ bs) h = ap (λ t. b ∷ t) (take_all n bs (omega arith))

-- The block that the loop makes of its data: the same number, and nothing is skipped.
abbrev block_of : List ℕ → List ℕ
block_of buf = if ltb (length buf) 16 then buf ++ replicate (16 - length buf) 0 else buf

block_lem :
    (buf : List ℕ)
    → All IsByte buf
    → (le_value (take 16 (block_of buf)) ≡ le_value (take 16 buf))
      × (drop 16 (block_of buf) ≡ drop 16 buf)
      × (16 ≤ length (block_of buf))
      × All IsByte (block_of buf)
block_lem buf h = elim (Bool-cases (ltb (length buf) 16)) [
  | inl e ↦
      let short : length buf < 16 = ground (arith, e) in
      let n = 16 - length buf in
      let size : length (buf ++ replicate n 0) ≡ 16 =
        omega (arith, length-append buf (replicate n 0), length-replicate {A = ℕ} n 0, short) in
      rw e (
        ap le_value (take_all 16 (buf ++ replicate n 0) (omega (arith, size)))
            ∙ le_value-padded buf n
            ∙ ap le_value (sym (take_all 16 buf (omega (arith, short)))),
        drop_all 16 (buf ++ replicate n 0) (omega (arith, size))
            ∙ sym (drop_all 16 buf (omega (arith, short))),
        omega (arith, size),
        padded-IsByte buf n h,
      )
  | inr e ↦ rw e (refl, refl, ground (arith, e), h)
]

inner_loop_lem :
    (fuel : ℕ) (acc r : Limbs) (buf : List ℕ) (h : ℕ)
    → IsAcc acc
    → IsBelow (2 ^ 26) r
    → All IsByte buf
    → limbs_value acc % prime ≡ h
    → (limbs_value (inner_loop fuel acc r buf) % prime ≡ horner fuel h (limbs_value r) buf)
      × IsAcc (inner_loop fuel acc r buf)
unfolding inner_loop horner
inner_loop_lem zero acc r buf h ha hr hb e = (e, ha)
inner_loop_lem (suc fuel) acc r buf h ha hr hb e = elim (Bool-cases (length buf == 0)) [
  | inl none ↦ rw none (e, ha)
  | inr some ↦
      let block = block_lem buf hb in
      let one = turn acc r (block_of buf) ha hr block.3 block.2 in
      let next : limbs_value (carry_limbs (mul_limbs (add_block acc (block_of buf)) r)) % prime
          ≡ (h + (le_value (take 16 buf) + 2 ^ 128)) * limbs_value r % prime =
        one.0 ∙ ap₂ (λ x y. (x + (y + 2 ^ 128)) * limbs_value r % prime) e block.0 in
      rw (some, block.1)
        (inner_loop_lem fuel _ r (drop 16 buf) _ one.1 hr (dropped-IsByte 16 buf hb) next)
]

-- `poly1305_inner` evaluates the polynomial of the blocks at `r` modulo 2^130 - 5, and no step wraps.
pub poly1305_inner_lem :
    (acc r : Limbs) (data' : List ℕ)
    → IsAcc acc
    → IsBelow (2 ^ 26) r
    → All IsByte data'
    → (limbs_value (poly1305_inner acc r data') % prime
        ≡ horner (length data') (limbs_value acc % prime) (limbs_value r) data')
      × IsAcc (poly1305_inner acc r data')
unfolding poly1305_inner
poly1305_inner_lem acc r data' ha hr hb = inner_loop_lem (length data') acc r data' _ ha hr hb refl
