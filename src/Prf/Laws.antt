-- ===== src/Prf/Laws.antt =====
-- What the pseudorandom functions compute: P_hash and PRF of RFC 2246 and RFC 5246.
use bearssl.Common.{
  ℕ, zero, suc, ◌+◌, ◌-◌, ◌≤◌, ◌<◌, ◌≡◌, refl, sym, ap, ap₂, ◌∙◌, arith, inl, inr, Bool-cases, ◌==◌,
  ==_iff, some, List, [], ◌∷◌, ◌++◌, length, take, drop, replicate, bit_xor, length-append,
  length-drop, length-take, length-replicate, ◌>>>◌,
}
use bearssl.Common.Bits.{zero-bit_xor}
use bearssl.Hmac.{HashClass, digest_size, key_init}
use bearssl.Hmac.Laws.{IsHash, hmac_of, length-hmac_of, append_nil}
use bearssl.Hmac.Mac.{mac_one, mac_two, mac_three}
use bearssl.Prf.{
  xor_into, label_bytes, phash_loop, phash, tls12_prf, tls10_prf, second_half, join_rest,
}

-- `n` blocks of P_hash from `A(i)` on.
pub p_blocks : HashClass → (List ℕ → List ℕ) → List ℕ → List ℕ → List ℕ → ℕ → List ℕ
p_blocks dig hash secret seed a zero = []
p_blocks dig hash secret seed a (suc n) =
    hmac_of dig hash secret (a ++ seed)
    ++ p_blocks dig hash secret seed (hmac_of dig hash secret a) n

-- P_hash(secret, seed), to at least `n` bytes.
pub p_hash : HashClass → (List ℕ → List ℕ) → List ℕ → List ℕ → ℕ → List ℕ
p_hash dig hash secret seed n = p_blocks dig hash secret seed (hmac_of dig hash secret seed) n

xor_into-append :
    (buf t s : List ℕ)
    → xor_into buf (t ++ s) ≡ xor_into (take (length t) buf) t ++ xor_into (drop (length t) buf) s
unfolding xor_into
xor_into-append [] [] s = refl
xor_into-append [] (t ∷ ts) s = refl
xor_into-append (b ∷ buf) [] s = refl
xor_into-append (b ∷ buf) (t ∷ ts) s = ap (λ r. bit_xor b t ∷ r) (xor_into-append buf ts s)

xor_into-none : (buf s : List ℕ) → length buf ≡ 0 → xor_into buf s ≡ []
unfolding xor_into
xor_into-none [] s e = refl
xor_into-none (b ∷ buf) s e = absurd (omega arith)

pub xor_into-replicate : (n : ℕ) (s : List ℕ) → n ≤ length s → xor_into (replicate n 0) s ≡ take n s
unfolding xor_into
xor_into-replicate zero s h = refl
xor_into-replicate (suc n) [] h = absurd (omega arith)
xor_into-replicate (suc n) (x ∷ s) h =
    ap₂ (λ y t. y ∷ t) (zero-bit_xor x) (xor_into-replicate n s (omega arith))

module _ (dig : HashClass) (hash : List ℕ → List ℕ) (Holds : dig.Context → List ℕ → Type 0)
    (law : IsHash dig hash Holds) (some_output : 0 < digest_size dig) where
  -- One turn: the block, and what the rest of the loop does with the rest of the buffer.
  loop_step :
      (secret seed a buf : List ℕ) (n : ℕ)
      → xor_into buf (p_blocks dig hash secret seed a (suc n))
        ≡ xor_into (take (digest_size dig) buf) (hmac_of dig hash secret (a ++ seed))
          ++ xor_into
              (drop (digest_size dig) buf)
              (p_blocks dig hash secret seed (hmac_of dig hash secret a) n)
  unfolding p_blocks
  loop_step secret seed a buf n = rw (sym (length-hmac_of dig hash Holds law secret (a ++ seed))) (
      xor_into-append buf (hmac_of dig hash secret (a ++ seed))
        (p_blocks dig hash secret seed (hmac_of dig hash secret a) n))

  phash_loop_lem :
      (fuel : ℕ) (secret label seed a buf : List ℕ)
      → length buf ≤ fuel
      → 0 < length buf
      → phash_loop dig fuel (key_init dig secret) label seed a buf
        ≡ some (xor_into buf (p_blocks dig hash secret (label ++ seed) a fuel))
  unfolding phash_loop join_rest
  phash_loop_lem zero secret label seed a buf le pos = absurd (omega arith)
  phash_loop_lem (suc fuel) secret label seed a buf le pos =
      elim (Bool-cases (length (drop (digest_size dig) buf) == 0)) [
        | inl e ↦
            rw
              (
                e,
                mac_three dig hash Holds law secret a label seed,
                loop_step secret (label ++ seed) a buf fuel,
              )
              (ap some (
                sym (
                  ap
                    (λ t.
                      xor_into (take (digest_size dig) buf)
                        (hmac_of dig hash secret (a ++ (label ++ seed)))
                      ++ t)
                    (xor_into-none (drop (digest_size dig) buf) _ ((==_iff _ 0).0 e))
                  ∙ append_nil _)))
        | inr e ↦
            let shorter = length-drop (digest_size dig) buf in
            rw
              (
                e,
                mac_three dig hash Holds law secret a label seed,
                mac_one dig hash Holds law secret a,
                loop_step secret (label ++ seed) a buf fuel,
                phash_loop_lem fuel secret label seed (hmac_of dig hash secret a)
                    (drop (digest_size dig) buf) (omega arith) (ground arith),
              )
              refl
      ]

  -- With a hash function as documented, whose output is not empty, `br_tls_phash` returns and xors
  -- P_hash(secret, label + seed) of RFC 5246 into the buffer, for any length.
  pub phash_lem :
      (dst secret label seed : List ℕ)
      → phash dig dst secret label seed
        ≡ some (xor_into dst (p_hash dig hash secret (label_bytes label ++ seed) (length dst)))
  unfolding phash p_hash
  phash_lem dst secret label seed = elim (Bool-cases (length dst == 0)) [
    | inl e ↦ rw e (ap some (nothing dst ((==_iff (length dst) 0).0 e)))
    | inr e ↦
        rw (e, mac_two dig hash Holds law secret (label_bytes label) seed)
          (phash_loop_lem (length dst) secret (label_bytes label) seed _ dst (omega arith)
            (ground arith))
  ]
    where
      nothing :
          (d : List ℕ)
          → length d ≡ 0
          → d ≡ xor_into d (p_hash dig hash secret (label_bytes label ++ seed) (length d))
      nothing [] h = sym (xor_into-none [] _ refl)
      nothing (x ∷ d) h = absurd (omega arith)

  p_blocks-length :
      (secret seed a : List ℕ) (n : ℕ) → n ≤ length (p_blocks dig hash secret seed a n)
  unfolding p_blocks
  p_blocks-length secret seed a zero = omega arith
  p_blocks-length secret seed a (suc n) = omega (
    arith,
    length-append (hmac_of dig hash secret (a ++ seed))
        (p_blocks dig hash secret seed (hmac_of dig hash secret a) n),
    length-hmac_of dig hash Holds law secret (a ++ seed),
    p_blocks-length secret seed (hmac_of dig hash secret a) n,
  )

  -- With such a hash function, the TLS 1.2 functions return the first bytes of
  -- P_hash(secret, label + seed), as many as asked for.
  pub tls12_prf_lem :
      (len : ℕ) (secret label seed : List ℕ)
      → (tls12_prf dig len secret label seed
          ≡ some (take len (p_hash dig hash secret (label_bytes label ++ seed) len)))
        × (len ≤ length (p_hash dig hash secret (label_bytes label ++ seed) len))
  unfolding tls12_prf p_hash
  tls12_prf_lem len secret label seed =
      let start = hmac_of dig hash secret (label_bytes label ++ seed) in
      let enough = p_blocks-length secret (label_bytes label ++ seed) start len in
      (
        phash_lem (replicate len 0) secret label seed
            ∙ ap
                (λ n. some (
                  xor_into (replicate len 0)
                    (p_blocks dig hash secret (label_bytes label ++ seed) start n)))
                (length-replicate len 0)
            ∙ ap some (xor_into-replicate len _ enough),
        enough,
      )

module _ (md5 sha1 : HashClass) (h1 h2 : List ℕ → List ℕ) (Holds1 : md5.Context → List ℕ → Type 0)
    (Holds2 : sha1.Context → List ℕ → Type 0) (law1 : IsHash md5 h1 Holds1)
    (law2 : IsHash sha1 h2 Holds2) (some1 : 0 < digest_size md5)
    (some2 : 0 < digest_size sha1) where
  -- With MD5 and SHA-1 as documented, `br_tls10_prf` is the PRF of RFC 2246: the bytes of P_MD5 of
  -- the first half of the secret xored with those of P_SHA-1 of the second half; the halves share
  -- the middle byte of a secret of odd length.
  pub tls10_prf_lem :
      (len : ℕ) (secret label seed : List ℕ)
      → let half = (length secret + 1) >>> 1 in
        tls10_prf md5 sha1 len secret label seed
        ≡ some (
            xor_into
              (take len (p_hash md5 h1 (take half secret) (label_bytes label ++ seed) len))
              (p_hash sha1 h2 (drop (length secret - half) secret) (label_bytes label ++ seed) len))
  unfolding tls10_prf second_half tls12_prf
  tls10_prf_lem len secret label seed =
      let half = (length secret + 1) >>> 1 in
      let first = tls12_prf_lem md5 h1 Holds1 law1 some1 len (take half secret) label seed in
      let cut = take len (p_hash md5 h1 (take half secret) (label_bytes label ++ seed) len) in
      let size : length cut ≡ len =
        length-take len (p_hash md5 h1 (take half secret) (label_bytes label ++ seed) len)
        ∙ omega (arith, first.1) in
      rw first.0 (
        phash_lem sha1 h2 Holds2 law2 some2 cut (drop (length secret - half) secret) label seed
        ∙ ap
            (λ n. some (
              xor_into cut (
                p_hash sha1 h2 (drop (length secret - half) secret) (label_bytes label ++ seed) n)))
            size)
