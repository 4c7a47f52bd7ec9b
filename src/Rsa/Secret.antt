-- ===== src/Rsa/Secret.antt =====
-- `br_rsa_ssl_decrypt` against the encoding of a premaster secret (PKCS#1 v1.5, type 2).
use bearssl.Common.{
  ℕ, zero, suc, ◌+◌, ◌-◌, ◌≤◌, ◌<◌, ◌≡◌, ◌≢◌, refl, sym, ap, ap₂, ◌∙◌, arith, not, ◌||◌, ltb, ◌==◌,
  inl, inr, Bool-cases, List, [], ◌∷◌, ◌++◌, length, get_or, take, drop, All, bit_and, min, IsU32,
  length-drop, take-append-drop, take-append_at, length-take_all,
}
use bearssl.Common.BitLaws.{bit_and_bits}
use bearssl.Ct.{eq, neq}
use bearssl.Ct.Compare.{bit, eq_lem, neq_lem}
use bearssl.Rsa.{all_nonzero, modulus_bytes, ssl_decrypt}

abbrev IsNonzero : ℕ → Type 0
IsNonzero b = b ≢ 0

-- A premaster secret of 48 bytes behind two fixed bytes, bytes that are not zero, and a zero.
pub record IsEncoded (em secret : List ℕ) : Type 0 where
  pub padding : List ℕ
  pub nonzero : All IsNonzero padding
  pub parts : em ≡ 0x00 ∷ 0x02 ∷ (padding ++ (0x00 ∷ secret))
  pub size : length secret ≡ 48

and_eq : (x c k : ℕ) → x < 2 → IsU32 c → IsU32 k → bit_and x (eq c k) ≡ min x (bit (c == k))
and_eq x c k hx hc hk =
    ground (arith, eq_lem c k hc hk, bit_and_bits x (eq c k) hx (ground (arith, eq_lem c k hc hk)))

and_neq : (x c k : ℕ) → x < 2 → IsU32 c → IsU32 k → bit_and x (neq c k) ≡ min x (bit (not (c == k)))
and_neq x c k hx hc hk =
    ground
      (arith, neq_lem c k hc hk, bit_and_bits x (neq c k) hx (ground (arith, neq_lem c k hc hk)))

all_nonzero-lt : (n : ℕ) (bs : List ℕ) (x : ℕ) → x < 2 → All IsU32 bs → all_nonzero n bs x < 2
unfolding all_nonzero
all_nonzero-lt zero bs x hx h = hx
all_nonzero-lt (suc n) [] x hx h = hx
all_nonzero-lt (suc n) (b ∷ bs) x hx h =
    all_nonzero-lt n bs (bit_and x (neq b 0)) (omega (arith, and_neq x b 0 hx h.0 (omega arith)))
      h.1

all_nonzero_lem :
    (n : ℕ) (bs : List ℕ) (x : ℕ)
    → x < 2
    → All IsU32 bs
    → all_nonzero n bs x ≡ 1
    → (x ≡ 1) × All IsNonzero (take n bs)
unfolding all_nonzero
all_nonzero_lem zero bs x hx h e = (e, tt)
all_nonzero_lem (suc n) [] x hx h e = (e, tt)
all_nonzero_lem (suc n) (b ∷ bs) x hx h e =
    let step = and_neq x b 0 hx h.0 (omega arith) in
    let rest = all_nonzero_lem n bs (bit_and x (neq b 0)) (omega (arith, step)) h.1 e in
    (omega (arith, step, rest.0), (ground (arith, step, rest.0), rest.1))

drop_at : (n : ℕ) (xs : List ℕ) → n < length xs → drop n xs ≡ get_or xs n 0 ∷ drop (suc n) xs
drop_at n [] h = absurd (omega arith)
drop_at zero (x ∷ xs) h = refl
drop_at (suc n) (x ∷ xs) h = drop_at n xs (omega arith)

get_or-IsU32 : (n : ℕ) (xs : List ℕ) → All IsU32 xs → IsU32 (get_or xs n 0)
get_or-IsU32 n [] h = omega arith
get_or-IsU32 zero (x ∷ xs) h = h.0
get_or-IsU32 (suc n) (x ∷ xs) h = get_or-IsU32 n xs h.1

-- The bytes behind the two fixed ones, cut at the zero.
cut :
    (n : ℕ) (r : List ℕ)
    → length r ≡ n + 49
    → get_or r n 0 ≡ 0
    → r ≡ take n r ++ (0x00 ∷ drop (suc n) r)
cut n r size at_zero =
    sym (take-append-drop n r)
    ∙ ap (λ t. take n r ++ t) (drop_at n r (omega arith) ∙ ap (λ b. b ∷ drop (suc n) r) at_zero)

-- The checks on the decrypted bytes.
checked : ℕ → ℕ → ℕ → ℕ → List ℕ → ℕ
checked x0 a b n r =
    bit_and (all_nonzero n r (bit_and (bit_and x0 (eq a 0x00)) (eq b 0x02)))
      (eq (get_or r n 0) 0x00)

checked_lem :
    (x0 a b n : ℕ) (r : List ℕ)
    → x0 < 2
    → IsU32 a
    → IsU32 b
    → All IsU32 r
    → checked x0 a b n r ≡ 1
    → (a ≡ 0) × (b ≡ 2) × All IsNonzero (take n r) × (get_or r n 0 ≡ 0) × (x0 ≡ 1)
unfolding checked
checked_lem x0 a b n r h0 ha hb hr e =
    let one = and_eq x0 a 0 h0 ha (omega arith) in
    let two = and_eq (bit_and x0 (eq a 0)) b 2 (omega (arith, one)) hb (omega arith) in
    let x2 = bit_and (bit_and x0 (eq a 0)) (eq b 2) in
    let x2_lt : x2 < 2 = omega (arith, one, two) in
    let last =
      and_eq (all_nonzero n r x2) (get_or r n 0) 0 (all_nonzero-lt n r x2 x2_lt hr)
        (get_or-IsU32 n r hr) (omega arith) in
    let middle =
      all_nonzero_lem n r x2 x2_lt hr (omega (arith, last, e, all_nonzero-lt n r x2 x2_lt hr)) in
    (
      ground (arith, one, two, middle.0),
      ground (arith, one, two, middle.0),
      middle.1,
      ground (arith, last, e, all_nonzero-lt n r x2 x2_lt hr),
      ground (arith, one, two, middle.0),
    )

-- The secret that the code moves to the front.
moved : List ℕ → ℕ → List ℕ
moved em len = take 48 (drop (len - 48) em) ++ drop 48 em

encoded :
    (x0 : ℕ) (em : List ℕ) (len : ℕ)
    → length em ≡ len
    → 59 ≤ len
    → x0 < 2
    → All IsU32 em
    → bit_and
        (all_nonzero
          (len - 49 - 2)
          (drop 2 em)
          (bit_and (bit_and x0 (eq (get_or em 0 0) 0x00)) (eq (get_or em 1 0) 0x02)))
        (eq (get_or em (len - 49) 0) 0x00)
      ≡ 1
    → (x0 ≡ 1) × IsEncoded em (drop (len - 48) em) × (take 48 (moved em len) ≡ drop (len - 48) em)
unfolding checked moved
encoded x0 [] len size long h0 words e = absurd (omega arith)
encoded x0 (a ∷ []) len size long h0 words e = absurd (omega arith)
encoded x0 (a ∷ b ∷ r) len size long h0 words e =
    let at : len - 49 ≡ suc (suc n) = omega arith in
    let from : len - 48 ≡ suc (suc (suc n)) = omega arith in
    let skipped : len - 49 - 2 ≡ n = omega arith in
    let tests = checked_lem x0 a b n r h0 words.0 words.1.0 words.1.1 (rw (skipped, at) at e) in
    let secret_size : length (drop (suc n) r) ≡ 48 = omega (arith, length-drop (suc n) r) in
    let shape = cut n r (omega arith) tests.3 in
    (
      tests.4,
      rw from (record {
        padding = take n r;
        nonzero = tests.2;
        parts = ap₂ (λ (p : ℕ × ℕ) t. p.0 ∷ p.1 ∷ t) (ap₂ (λ s t. (s, t)) tests.0 tests.1) shape;
        size = secret_size;
      }),
      rw (from, length-take_all 48 (drop (suc n) r) secret_size)
          (take-append_at 48 (drop (suc n) r) _ secret_size),
    )
  where
    n : ℕ
    n = len - 51

-- If `br_rsa_ssl_decrypt` returns 1, then the private-key operation succeeded, the decrypted bytes
-- are a premaster secret in the encoding of PKCS#1 v1.5, and the first 48 bytes of the data are now
-- that secret. The operation returns 0 or 1 and leaves as many bytes as it was given.
pub ssl_decrypt_only_encoded :
    (core : List ℕ → ℕ × List ℕ) (n_bitlen : ℕ) (data' : List ℕ)
    → (core data').0 < 2
    → All IsU32 (core data').1
    → length (core data').1 ≡ length data'
    → (ssl_decrypt core n_bitlen data').0 ≡ 1
    → ((core data').0 ≡ 1) × IsEncoded (core data').1 (take 48 (ssl_decrypt core n_bitlen data').1)
unfolding ssl_decrypt moved
ssl_decrypt_only_encoded core n_bitlen data' bit_result words size e =
    elim (Bool-cases (ltb (length data') 59 || not (length data' == modulus_bytes n_bitlen))) [
      | inl bad ↦ absurd (omega (arith, rw bad at e))
      | inr good ↦
          let found =
            encoded (core data').0 (core data').1 (length data') size (ground arith) bit_result
              words (rw good at e) in
          rw (good, found.2) (found.0, found.1)
    ]
