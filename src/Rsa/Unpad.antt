-- ===== src/Rsa/Unpad.antt =====
-- What `br_rsa_pkcs1_sig_unpad` accepts, exactly, and that it undoes `br_rsa_pkcs1_sig_pad`.
use bearssl.Common.{
  ℕ, suc, ◌+◌, ◌-◌, ◌^◌, ◌≤◌, ◌<◌, ◌≡◌, refl, sym, ap, ap₂, ◌∙◌, arith, Bool, true, false, inl, inr,
  ltb, if◌then◌else◌, Bool-cases, eq→==, ne→==, le→ltb, Option, none, some, List, [], ◌∷◌, ◌++◌,
  length, get_or, take, drop, replicate, length-append, length-replicate, take-append_at,
  drop-append_at, u8,
}
use mathlib.Core.List.{append_assoc}
use bearssl.Rsa.{
  size_sub, modulus_bytes, sig_pad, pad1, ff_run, pad2, check_pad2, unpad_rest, sig_unpad,
}
use bearssl.Rsa.Padding.{
  same_bytes_self, ff_run-replicate, formatted, IsOid, last_bytes, length-pad2,
}

accepts_none :
    (front h : List ℕ) → unpad_rest (front ++ (0x00 ∷ h)) (0x00 ∷ h) none (length h) ≡ some h
unfolding unpad_rest
accepts_none front h = rw (eq→== (length (0x00 ∷ h)) (length h + 1) (omega arith)) (
    ap some (
      ap (λ s. take (length h) (drop (length s - length h) s))
        (sym (append_assoc front (0x00 ∷ []) h))
      ∙ last_bytes (length h) (front ++ (0x00 ∷ [])) h refl))

check_pad2-accepts :
    (w : Bool) (n : ℕ) (oid front h : List ℕ)
    → n ≡ length (pad2 w oid (length h))
    → check_pad2 w n
        (front ++ (pad2 w oid (length h) ++ h))
        (pad2 w oid (length h) ++ h)
        oid
        (length h)
      ≡ some h
unfolding check_pad2
check_pad2-accepts w n oid front h e =
    rw (take-append_at n (pad2 w oid (length h)) h (sym e), same_bytes_self (pad2 w oid (length h)))
      (ap some (
        ap (λ s. take (length h) (drop (length s - length h) s))
          (sym (append_assoc front (pad2 w oid (length h)) h))
        ∙ last_bytes (length h) (front ++ pad2 w oid (length h)) h refl))

zlen_of :
    (w : Bool) (oid h : List ℕ)
    → IsOid (some oid)
    → length h < 2 ^ 62
    → size_sub (length (pad2 w oid (length h) ++ h)) (length h)
      ≡ get_or oid 0 0 + (if w then 11 else 9)
zlen_of w oid h is_oid small = omega (
  arith,
  length-append (pad2 w oid (length h)) h,
  length-pad2 w oid (length h) is_oid.0,
  small_if w,
)
  where
    small_if : (b : Bool) → (if b then 11 else 9) ≤ 11
    small_if true = omega arith
    small_if false = omega arith

accepts_some :
    (w : Bool) (oid front h : List ℕ)
    → IsOid (some oid)
    → length h < 2 ^ 62
    → unpad_rest
        (front ++ (pad2 w oid (length h) ++ h))
        (pad2 w oid (length h) ++ h)
        (some oid)
        (length h)
      ≡ some h
unfolding unpad_rest
accepts_some false oid front h is_oid small =
    rw
      (eq→== (size_sub (length (pad2 false oid (length h) ++ h)) (length h)) (get_or oid 0 0 + 9)
        (zlen_of false oid h is_oid small))
      (check_pad2-accepts false _ oid front h (sym (length-pad2 false oid (length h) is_oid.0)))
accepts_some true oid front h is_oid small =
    rw
      (
        ne→== (size_sub (length (pad2 true oid (length h) ++ h)) (length h)) (get_or oid 0 0 + 9)
            (omega (arith, zlen_of true oid h is_oid small)),
        eq→== (size_sub (length (pad2 true oid (length h) ++ h)) (length h))
            (get_or oid 0 0 + 9 + 2) (omega (arith, zlen_of true oid h is_oid small)),
      )
      (check_pad2-accepts true _ oid front h
        (zlen_of true oid h is_oid small ∙ sym (length-pad2 true oid (length h) is_oid.0)))

-- The first eleven bytes and the skipped 0xff lead to the rest of the message.
unpad_enters :
    (oid : Option (List ℕ)) (c : ℕ) (x : List ℕ) (hash_len : ℕ)
    → 1 ≤ length x
    → ff_run (replicate c 0xff ++ x) ≡ c
    → sig_unpad (pad1 ++ (replicate c 0xff ++ x)) oid hash_len
      ≡ unpad_rest ((pad1 ++ replicate c 0xff) ++ x) x oid hash_len
unfolding sig_unpad
unpad_enters oid c x hash_len some_bytes run = rw (
  le→ltb (length (pad1 ++ (replicate c 0xff ++ x))) 11
      (omega (arith, length-append (replicate c 0xff) x)),
  run,
  drop-append_at c (replicate c 0xff) x (length-replicate c 0xff),
)

pub unpad_accepts :
    (oid : Option (List ℕ)) (c : ℕ) (w : Bool) (h : List ℕ)
    → IsOid oid
    → length h < 2 ^ 62
    → sig_unpad (formatted oid c w h) oid (length h) ≡ some h
unpad_accepts none c w h is_oid small =
    unpad_enters none c (0x00 ∷ h) (length h) (omega arith) (ff_run-replicate c 0 h (omega arith))
    ∙ accepts_none (pad1 ++ replicate c 0xff) h
unpad_accepts (some oid) c w h is_oid small =
    unpad_enters (some oid) c (pad2 w oid (length h) ++ h) (length h)
      (omega (
        arith,
        length-append (pad2 w oid (length h)) h,
        length-pad2 w oid (length h) is_oid.0,
        nine w,
      ))
      (unfold pad2 in ff_run-replicate c 0 _ (omega arith))
    ∙ accepts_some w oid (pad1 ++ replicate c 0xff) h is_oid small
  where
    nine : (b : Bool) → 9 ≤ (if b then 11 else 9)
    nine true = omega arith
    nine false = omega arith

pub some_inj : {x y : List ℕ} → some x ≡ some y → x ≡ y
some_inj h = cc

-- At least eight bytes 0xff, as the other side writes them.
eight_ff :
    (n : ℕ) (rest : List ℕ)
    → 8 ≤ n
    → 0x00 ∷ 0x01 ∷ (replicate n 0xff ++ rest) ≡ pad1 ++ (replicate (n - 8) 0xff ++ rest)
eight_ff n rest h =
    ap (λ k. 0x00 ∷ 0x01 ∷ (replicate k 0xff ++ rest)) {x = n}
      {y = suc (suc (suc (suc (suc (suc (suc (suc (n - 8))))))))} (omega arith)

-- The bytes of `pad2` with the hash value, as `br_rsa_pkcs1_sig_pad` writes them.
pad2-append :
    (oid h : List ℕ)
    → let x3 = get_or oid 0 0 in
      0x00
        ∷ 0x30
        ∷ u8 (x3 + length h + 8)
        ∷ 0x30
        ∷ u8 (x3 + 4)
        ∷ 0x06
        ∷ (take (x3 + 1) oid ++ (0x05 ∷ 0x00 ∷ 0x04 ∷ u8 (length h) ∷ h))
      ≡ pad2 true oid (length h) ++ h
unfolding pad2
pad2-append oid h =
    ap₂ (λ a b. 0x00 ∷ 0x30 ∷ a ∷ 0x30 ∷ u8 (get_or oid 0 0 + 4) ∷ 0x06 ∷ b) (omega arith)
      (sym
        (append_assoc (take (get_or oid 0 0 + 1) oid) (0x05 ∷ 0x00 ∷ 0x04 ∷ u8 (length h) ∷ []) h))

-- Padding produces a message of the format, if it produces one.
pad-formatted :
    (oid : Option (List ℕ)) (h : List ℕ) (n_bitlen : ℕ) (x : List ℕ)
    → sig_pad oid h n_bitlen ≡ some x
    → (c : ℕ) × (x ≡ formatted oid c true h)
unfolding sig_pad
pad-formatted none h n_bitlen x e =
    elim (Bool-cases (ltb (modulus_bytes n_bitlen) (length h + 11))) [
      | inl short ↦ absurd (cc (rw short at e))
      | inr enough ↦ (
        modulus_bytes n_bitlen - length h - 3 - 8,
        sym (some_inj (rw enough at e)) ∙ eight_ff _ (0x00 ∷ h) (room enough),
      )
    ]
  where
    room :
        ltb (modulus_bytes n_bitlen) (length h + 11) ≡ false
        → 8 ≤ modulus_bytes n_bitlen - length h - 3
    room f = ground arith
pad-formatted (some oid) h n_bitlen x e =
    elim (Bool-cases (ltb (modulus_bytes n_bitlen) (get_or oid 0 0 + length h + 21))) [
      | inl short ↦ absurd (cc (rw short at e))
      | inr enough ↦ (
        modulus_bytes n_bitlen - get_or oid 0 0 - length h - 11 - 2 - 8,
        sym (some_inj (rw enough at e))
            ∙ eight_ff _ _ (room enough)
            ∙ ap
                (λ t.
                  pad1
                  ++ (replicate (modulus_bytes n_bitlen - get_or oid 0 0 - length h - 11 - 2 - 8)
                        0xff
                      ++ t))
                (pad2-append oid h),
      )
    ]
  where
    room :
        ltb (modulus_bytes n_bitlen) (get_or oid 0 0 + length h + 21) ≡ false
        → 8 ≤ modulus_bytes n_bitlen - get_or oid 0 0 - length h - 11 - 2
    room f = ground arith

-- Unpadding what padding produced gives the hash value back.
pub unpad-pad :
    (oid : Option (List ℕ)) (h : List ℕ) (n_bitlen : ℕ) (x : List ℕ)
    → IsOid oid
    → length h < 2 ^ 62
    → sig_pad oid h n_bitlen ≡ some x
    → sig_unpad x oid (length h) ≡ some h
unpad-pad oid h n_bitlen x is_oid small e =
    let (c, form) = pad-formatted oid h n_bitlen x e in
    ap (λ t. sig_unpad t oid (length h)) form ∙ unpad_accepts oid c true h is_oid small
