-- ===== src/Drbg/Generate.antt =====
-- The bytes of `br_hmac_drbg_generate`, and the state that it leaves.
use bearssl.Common.{
  ℕ, zero, suc, ◌+◌, ◌-◌, ◌≤◌, ◌<◌, ◌≡◌, refl, sym, ap, ◌∙◌, arith, inl, inr, Bool-cases, ne→==,
  ltb, if◌then◌else◌, Option, some, List, [], ◌∷◌, ◌++◌, length, take, length-append,
  length-take_all,
}
use bearssl.Hmac.{HashClass, digest_size, key_init}
use bearssl.Hmac.Laws.{IsHash, hmac_of, length-hmac_of}
use bearssl.Hmac.Mac.{mac_one, mac_two}
use bearssl.Drbg.{Drbg, drbg_update, generate_loop, after_generate, generate, prepend}
use bearssl.Drbg.Laws.{value_after, blocks, update_of, drbg_update_lem}

take_both : (n : ℕ) (xs ys : List ℕ) → take n (xs ++ ys) ≡ take n xs ++ take (n - length xs) ys
take_both n [] ys = ap (λ (k : ℕ). take k ys) {x = n} {y = n - 0} (omega arith) ∙ none_taken n
  where
    none_taken : (m : ℕ) → take (m - 0) ys ≡ take m [] ++ take (m - 0) ys
    none_taken zero = refl
    none_taken (suc m) = refl
take_both zero (x ∷ xs) ys =
    ap (λ (k : ℕ). take k ys) {x = 0} {y = 0 - length (x ∷ xs)} (omega arith)
take_both (suc n) (x ∷ xs) ys =
    ap (λ t. x ∷ t)
      (take_both n xs ys
        ∙ ap (λ (k : ℕ). take n xs ++ take k ys) {x = n - length xs} {y = suc n - length (x ∷ xs)}
            (omega arith))

take_enough : (n : ℕ) (xs : List ℕ) → length xs ≤ n → take n xs ≡ xs
take_enough zero [] h = refl
take_enough (suc n) [] h = refl
take_enough zero (x ∷ xs) h = absurd (omega arith)
take_enough (suc n) (x ∷ xs) h = ap (λ t. x ∷ t) (take_enough n xs (omega arith))

-- One turn of the loop: a block, cut to what is wanted.
take_block :
    (n h : ℕ) (xs ys : List ℕ)
    → length xs ≡ h
    → take (if ltb n h then n else h) xs ++ take (n - (if ltb n h then n else h)) ys
      ≡ take n (xs ++ ys)
take_block n h xs ys e = elim (Bool-cases (ltb n h)) [
  | inl less ↦ rw less (
      ap (λ (k : ℕ). take n xs ++ take k ys) {x = n - n} {y = n - length xs} (ground arith)
      ∙ sym (take_both n xs ys))
  | inr more ↦
      let le : length xs ≤ n = ground arith in
      rw more (
        ap (λ a. a ++ take (n - h) ys) (length-take_all h xs e ∙ sym (take_enough n xs le))
        ∙ ap (λ (k : ℕ). take n xs ++ take k ys) {x = n - h} {y = n - length xs} (omega arith)
        ∙ sym (take_both n xs ys))
]

-- The blocks stop with the one that completes the output.
no_spare :
    (l h n rest : ℕ)
    → (n ≡ 0 → rest ≡ 0)
    → (suc l - (if ltb (suc l) h then suc l else h) ≡ 0 → n ≡ 0)
    → rest < suc l - (if ltb (suc l) h then suc l else h) + h
    → h + rest < suc l + h
no_spare l h n rest none last room = elim (Bool-cases (ltb (suc l) h)) [
  | inl e ↦ omega (arith, none (last (ground (arith, e))))
  | inr e ↦ ground (arith, e, room)
]

module _ (dig : HashClass) (hash : List ℕ → List ℕ) (Holds : dig.Context → List ℕ → Type 0)
    (law : IsHash dig hash Holds) (some_output : 0 < digest_size dig) where
  -- What the loop leaves: enough blocks, and the last value.
  abbrev Generated : List ℕ → List ℕ → ℕ → Option (List ℕ × List ℕ) → Type 0
  Generated key v len result =
      (n : ℕ) × (len ≤ length (blocks dig hash key v n))
      × (length (blocks dig hash key v n) < len + digest_size dig)
      × (len ≡ 0 → n ≡ 0)
      × (result ≡ some (take len (blocks dig hash key v n), value_after dig hash key v n))

  generate_loop_lem :
      (fuel : ℕ) (key v : List ℕ) (len : ℕ)
      → len ≤ fuel
      → Generated key v len (generate_loop dig fuel (key_init dig key) v len)
  unfolding generate_loop blocks value_after prepend
  generate_loop_lem zero key v zero h = (0, omega arith, omega arith, λ e. refl, refl)
  generate_loop_lem zero key v (suc l) h = absurd (omega arith)
  generate_loop_lem (suc fuel) key v zero h = (0, omega arith, omega arith, λ e. refl, refl)
  generate_loop_lem (suc fuel) key v (suc l) h =
      let hlen = digest_size dig in
      let v' = hmac_of dig hash key v in
      let clen = if ltb (suc l) hlen then suc l else hlen in
      let ih = generate_loop_lem fuel key v' (suc l - clen) (ground arith) in
      (
        suc ih.0,
        ground (
          arith,
          ih.1,
          length-append v' (blocks dig hash key v' ih.0),
          length-hmac_of dig hash Holds law key v,
        ),
        rw (length-append v' (blocks dig hash key v' ih.0), length-hmac_of dig hash Holds law key v)
            (no_spare l hlen ih.0 (length (blocks dig hash key v' ih.0))
              (λ e. ap (λ n. length (blocks dig hash key v' n)) e) ih.3 ih.2),
        λ e. absurd (omega (arith, e)),
        rw (mac_one dig hash Holds law key v, ih.4, ne→== (suc l) 0 (omega arith))
            (ap (λ (t : List ℕ). some (t, value_after dig hash key v' ih.0))
              (take_block (suc l) hlen v' (blocks dig hash key v' ih.0)
                (length-hmac_of dig hash Holds law key v))),
      )

  -- With a hash function as documented, whose output is not empty, `br_hmac_drbg_generate` returns,
  -- for any length. It gives the first bytes of the blocks `V1 V2 ...`, each of which is the HMAC of
  -- the one before, as many bytes as asked for, and makes no block that it does not need. The state that its inlined update leaves is that of
  -- `br_hmac_drbg_update` with an empty seed on the last block.
  pub generate_lem :
      (ctx : Drbg) (len : ℕ)
      → (n : ℕ) × (len ≤ length (blocks dig hash ctx.k ctx.v n))
        × (length (blocks dig hash ctx.k ctx.v n) < len + digest_size dig)
        × (generate dig ctx len
            ≡ some (
              take len (blocks dig hash ctx.k ctx.v n),
              drbg_update dig (record { k = ctx.k; v = value_after dig hash ctx.k ctx.v n }) [],
            ))
  unfolding generate after_generate update_of
  generate_lem ctx len =
      let looped = generate_loop_lem len ctx.k ctx.v len (omega arith) in
      (
        looped.0,
        looped.1,
        looped.2,
        rw
            (
              looped.4,
              drbg_update_lem dig hash Holds law
                  (record { k = ctx.k; v = value_after dig hash ctx.k ctx.v looped.0 }) [],
            )
            (simp (mac_two dig hash Holds law, mac_one dig hash Holds law) refl),
      )
