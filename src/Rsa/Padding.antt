-- ===== src/Rsa/Padding.antt =====
-- What PKCS#1 unpadding accepts, exactly, and that it undoes the padding.
use bearssl.Common.{
  ℕ, zero, suc, ◌+◌, ◌-◌, ◌<◌, ◌≡◌, ◌≢◌, refl, ap, ap₂, ◌∙◌, arith, Bool, true, false, inl, inr,
  ◌==◌, if◌then◌else◌, Bool-cases, ==_iff, Option, none, some, List, [], ◌∷◌, ◌++◌, length, get_or,
  take, drop, replicate, length-append, length-take, drop-append_at, length-take_all, u8,
}
use bearssl.Rsa.{same_bytes, pad1, ff_run, null_params, pad2}

pub same_bytes-eq : (xs ys : List ℕ) → same_bytes xs ys ≡ true → xs ≡ ys
same_bytes-eq [] [] h = refl
same_bytes-eq [] (y ∷ ys) h = cc
same_bytes-eq (x ∷ xs) [] h = cc
same_bytes-eq (x ∷ xs) (y ∷ ys) h = ground (arith, same_bytes-eq xs ys)

pub same_bytes_self : (xs : List ℕ) → same_bytes xs xs ≡ true
same_bytes_self [] = refl
same_bytes_self (x ∷ xs) = ground (arith, same_bytes_self xs)

-- The 0xff bytes passed, and what follows them.
pub ff_run-split : (xs : List ℕ) → xs ≡ replicate (ff_run xs) 0xff ++ drop (ff_run xs) xs
unfolding ff_run
ff_run-split [] = refl
ff_run-split (x ∷ xs) = elim (Bool-cases (x == 0xff)) [
  | inl e ↦ rw e (ap₂ ◌∷◌ ((==_iff x 0xff).0 e) (ff_run-split xs))
  | inr e ↦ rw e refl
]

pub ff_run-replicate :
    (c b : ℕ) (xs : List ℕ) → b ≢ 0xff → ff_run (replicate c 0xff ++ (b ∷ xs)) ≡ c
unfolding ff_run
ff_run-replicate zero b xs h = ground arith
ff_run-replicate (suc c) b xs h = ap suc (ff_run-replicate c b xs h)

-- The accepted formats, `c` bytes 0xff beyond the first eight: the bytes before the hash value.
abbrev pub middle : Option (List ℕ) → Bool → ℕ → List ℕ
middle none w hash_len = 0x00 ∷ []
middle (some oid) w hash_len = pad2 w oid hash_len

abbrev pub formatted : Option (List ℕ) → ℕ → Bool → List ℕ → List ℕ
formatted oid c w hash = pad1 ++ (replicate c 0xff ++ (middle oid w (length hash) ++ hash))

-- An OID as the source passes it: the length byte, then as many bytes.
abbrev pub IsOid : Option (List ℕ) → Type 0
IsOid none = Unit
IsOid (some oid) = (length oid ≡ get_or oid 0 0 + 1) × (get_or oid 0 0 < 256)

-- The last bytes of a list.
pub last_bytes :
    (n : ℕ) (xs ys : List ℕ) → length ys ≡ n → take n (drop (length (xs ++ ys) - n) (xs ++ ys)) ≡ ys
last_bytes n xs ys e =
    ap (take n) (drop-append_at (length (xs ++ ys) - n) xs ys (omega (arith, length-append xs ys)))
    ∙ length-take_all n ys e

pub length-pad2 :
    (w : Bool) (oid : List ℕ) (hash_len : ℕ)
    → length oid ≡ get_or oid 0 0 + 1
    → length (pad2 w oid hash_len) ≡ get_or oid 0 0 + (if w then 11 else 9)
unfolding pad2
length-pad2 w oid hash_len e = omega (
  arith,
  length-append (take (get_or oid 0 0 + 1) oid) (null_params w ++ (0x04 ∷ u8 hash_len ∷ [])),
  length-take (get_or oid 0 0 + 1) oid,
  length-append (null_params w) (0x04 ∷ u8 hash_len ∷ []),
  params w,
)
  where
    params : (b : Bool) → length (null_params b) + 9 ≡ (if b then 11 else 9)
    params true = refl
    params false = refl
