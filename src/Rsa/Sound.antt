-- ===== src/Rsa/Sound.antt =====
-- `br_rsa_pkcs1_sig_unpad` accepts nothing but messages of the format.
use bearssl.Common.{
  ℕ, ◌+◌, ◌-◌, ◌^◌, ◌<◌, ◌≡◌, sym, ap, ap₂, ◌∙◌, arith, Bool, true, false, inl, inr, ltb, ◌==◌,
  Bool-cases, ==_iff, ne→==, Option, none, some, List, [], ◌∷◌, ◌++◌, length, get_or, take, drop,
  replicate, length-drop, take-append-drop,
}
use mathlib.Core.List.{append_assoc}
use bearssl.Rsa.{same_bytes, size_sub, pad1, ff_run, pad2, check_pad2, unpad_rest, sig_unpad}
use bearssl.Rsa.Padding.{same_bytes-eq, ff_run-split, middle, formatted, IsOid, last_bytes}
use bearssl.Rsa.Unpad.{some_inj}

-- What is returned is the end of the message, behind the bytes that were compared.
Matches : Option (List ℕ) → ℕ → List ℕ → List ℕ → Type 0
Matches oid hash_len rest h =
    (w : Bool) × (rest ≡ middle oid w hash_len ++ h) × (length h ≡ hash_len)

returned :
    (front mid r : List ℕ) (n : ℕ)
    → length r ≡ n
    → take n (drop (length (front ++ (mid ++ r)) - n) (front ++ (mid ++ r))) ≡ r
returned front mid r n e =
    ap (λ s. take n (drop (length s - n) s)) (sym (append_assoc front mid r))
    ∙ last_bytes n (front ++ mid) r e

rest_none :
    (front rest : List ℕ) (hash_len : ℕ) (h : List ℕ)
    → unpad_rest (front ++ rest) rest none hash_len ≡ some h
    → Matches none hash_len rest h
unfolding Matches unpad_rest
rest_none front [] hash_len h e = absurd (cc (rw (ne→== 0 (hash_len + 1) (omega arith)) at e))
rest_none front (b ∷ r) hash_len h e = elim (Bool-cases (length (b ∷ r) == hash_len + 1)) [
  | inr other ↦ absurd (cc (rw other at e))
  | inl same ↦ elim (Bool-cases (b == 0x00)) [
    | inr other ↦ absurd (cc (rw (same, other) at e))
    | inl zero_byte ↦
        let size : length r ≡ hash_len =
          omega (arith, (==_iff (length (b ∷ r)) (hash_len + 1)).0 same) in
        let out : r ≡ h =
          sym (returned front (b ∷ []) r hash_len size) ∙ some_inj (rw (same, zero_byte) at e) in
        (false, ap₂ ◌∷◌ ((==_iff b 0x00).0 zero_byte) out, ap length (sym out) ∙ size)
  ]
]

check_pad2-Matches :
    (w : Bool) (n : ℕ) (front rest oid : List ℕ) (hash_len : ℕ) (h : List ℕ)
    → length rest ≡ n + hash_len
    → check_pad2 w n (front ++ rest) rest oid hash_len ≡ some h
    → Matches (some oid) hash_len rest h
unfolding Matches check_pad2
check_pad2-Matches w n front rest oid hash_len h size e =
    elim (Bool-cases (same_bytes (pad2 w oid hash_len) (take n rest))) [
      | inr other ↦ absurd (cc (rw other at e))
      | inl same ↦
          let start : pad2 w oid hash_len ≡ take n rest = same_bytes-eq _ _ same in
          let whole : take n rest ++ drop n rest ≡ rest = take-append-drop n rest in
          let left : length (drop n rest) ≡ hash_len = omega (arith, length-drop n rest) in
          let out : drop n rest ≡ h =
            sym (returned front (take n rest) (drop n rest) hash_len left)
            ∙ ap (λ s. take hash_len (drop (length (front ++ s) - hash_len) (front ++ s))) whole
            ∙ some_inj (rw same at e) in
          (w, sym whole ∙ ap₂ ◌++◌ (sym start) out, ap length (sym out) ∙ left)
    ]

rest_some :
    (front rest oid : List ℕ) (hash_len : ℕ) (h : List ℕ)
    → get_or oid 0 0 < 256
    → length rest < 2 ^ 62
    → hash_len < 2 ^ 62
    → unpad_rest (front ++ rest) rest (some oid) hash_len ≡ some h
    → Matches (some oid) hash_len rest h
unfolding unpad_rest
rest_some front rest oid hash_len h is_byte small small' e =
    elim (Bool-cases (size_sub (length rest) hash_len == get_or oid 0 0 + 9)) [
      | inl plain ↦
          check_pad2-Matches false (get_or oid 0 0 + 9) front rest oid hash_len h
            (size 9 plain (omega arith)) (rw plain at e)
      | inr other ↦ elim (Bool-cases (size_sub (length rest) hash_len == get_or oid 0 0 + 9 + 2)) [
        | inl nulled ↦
            check_pad2-Matches true (size_sub (length rest) hash_len) front rest oid hash_len h
              (exact nulled) (rw (other, nulled) at e)
        | inr neither ↦ absurd (cc (rw (other, neither) at e))
      ]
    ]
  where
    size :
        (k : ℕ)
        → (size_sub (length rest) hash_len == get_or oid 0 0 + k) ≡ true
        → k < 300
        → length rest ≡ get_or oid 0 0 + k + hash_len
    size k t lt = omega (arith, (==_iff (size_sub (length rest) hash_len) (get_or oid 0 0 + k)).0 t)

    exact :
        (size_sub (length rest) hash_len == get_or oid 0 0 + 9 + 2) ≡ true
        → length rest ≡ size_sub (length rest) hash_len + hash_len
    exact t = omega (arith, (==_iff (size_sub (length rest) hash_len) (get_or oid 0 0 + 9 + 2)).0 t)

rest-Matches :
    (oid : Option (List ℕ)) (front rest : List ℕ) (hash_len : ℕ) (h : List ℕ)
    → IsOid oid
    → length rest < 2 ^ 62
    → hash_len < 2 ^ 62
    → unpad_rest (front ++ rest) rest oid hash_len ≡ some h
    → Matches oid hash_len rest h
rest-Matches none front rest hash_len h is_oid small small' e = rest_none front rest hash_len h e
rest-Matches (some oid) front rest hash_len h is_oid small small' e =
    rest_some front rest oid hash_len h is_oid.1 small small' e

-- The message, split where the source looks: the fixed start, the skipped bytes, the rest.
whole_message :
    (sig : List ℕ)
    → take 10 sig ≡ pad1
    → let tail = drop 10 sig in
      sig ≡ (pad1 ++ replicate (ff_run tail) 0xff) ++ drop (ff_run tail) tail
whole_message sig start =
    let tail = drop 10 sig in
    sym (take-append-drop 10 sig)
    ∙ ap₂ ◌++◌ start (ff_run-split tail)
    ∙ sym (append_assoc pad1 (replicate (ff_run tail) 0xff) (drop (ff_run tail) tail))

-- `br_rsa_pkcs1_sig_unpad` accepts a message only if it is 00 01, then at least eight bytes FF, and
-- then exactly the bytes that stand before the hash value, with or without the NULL parameters, and
-- a hash value of the expected length, which is what is returned. So nothing can be hidden in
-- the message.
pub unpad_only_formatted :
    (sig : List ℕ) (oid : Option (List ℕ)) (hash_len : ℕ) (h : List ℕ)
    → IsOid oid
    → length sig < 2 ^ 62
    → hash_len < 2 ^ 62
    → sig_unpad sig oid hash_len ≡ some h
    → (c : ℕ) × (w : Bool) × (sig ≡ formatted oid c w h) × (length h ≡ hash_len)
unfolding Matches sig_unpad
unpad_only_formatted sig oid hash_len h is_oid small small' e =
    elim (Bool-cases (ltb (length sig) 11)) [
      | inl short ↦ absurd (cc (rw short at e))
      | inr enough ↦ elim (Bool-cases (same_bytes (take 10 sig) pad1)) [
        | inr other ↦ absurd (cc (rw (enough, other) at e))
        | inl same ↦
            let start = same_bytes-eq (take 10 sig) pad1 same in
            let run = rw (enough, same) at e in
            finish start (
              ap (λ s. unpad_rest s (drop n tail) oid hash_len) (sym (whole_message sig start))
              ∙ run)
      ]
    ]
  where
    tail : List ℕ
    tail = drop 10 sig

    n : ℕ
    n = ff_run tail

    finish :
        take 10 sig ≡ pad1
        → unpad_rest ((pad1 ++ replicate n 0xff) ++ drop n tail) (drop n tail) oid hash_len ≡ some h
        → (c : ℕ) × (w : Bool) × (sig ≡ formatted oid c w h) × (length h ≡ hash_len)
    finish start run =
        let (w, form, size) =
          rest-Matches oid (pad1 ++ replicate n 0xff) (drop n tail) hash_len h is_oid
            (omega (arith, length-drop n tail, length-drop 10 sig)) small' run in
        (
          n,
          w,
          whole_message sig start
              ∙ append_assoc pad1 (replicate n 0xff) (drop n tail)
              ∙ ap (λ t. pad1 ++ (replicate n 0xff ++ t))
                  (form ∙ ap (λ k. middle oid w k ++ h) (sym size)),
          size,
        )
