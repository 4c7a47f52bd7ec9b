-- ===== src/Rsa.antt =====
-- RSA message formats: PKCS#1 v1.5 signature padding (src/rsa/rsa_pkcs1_sig_pad.c and
-- rsa_pkcs1_sig_unpad.c) and the decryption of a TLS premaster secret (rsa_ssl_decrypt.c).
pub mod Padding
pub mod Unpad
pub mod Sound
pub mod Secret
mod Tests
use bearssl.Common.{
  ℕ, zero, suc, ◌+◌, ◌-◌, ◌*◌, ◌/◌, ◌%◌, ◌^◌, Bool, true, false, not, ◌&&◌, ◌||◌, ltb, ◌==◌,
  if◌then◌else◌, Option, none, some, List, [], ◌∷◌, ◌++◌, length, get_or, take, drop, replicate, u8,
  u32, ◌>>>◌, bit_and,
}
use bearssl.Ct.{eq, neq}

-- `memcmp(a, b, n) == 0`, on the two areas.
abbrev pub same_bytes : List ℕ → List ℕ → Bool
same_bytes [] [] = true
same_bytes [] (y ∷ ys) = false
same_bytes (x ∷ xs) [] = false
same_bytes (x ∷ xs) (y ∷ ys) = x == y && same_bytes xs ys

-- size_t subtraction
abbrev pub size_sub : ℕ → ℕ → ℕ
size_sub a b = (a + 2 ^ 64 - b) % 2 ^ 64

abbrev pub modulus_bytes : ℕ → ℕ
modulus_bytes n_bitlen = u32 (n_bitlen + 7) >>> 3

-- `br_rsa_pkcs1_sig_pad`. The OID is its length byte and its bytes, or NULL; `none` is the
-- returned 0, and otherwise the bytes are those written to `x`.
pub sig_pad : Option (List ℕ) → List ℕ → ℕ → Option (List ℕ)
sig_pad none hash n_bitlen =
    let xlen = modulus_bytes n_bitlen in
    let hash_len = length hash in
    let u = xlen - hash_len in
    if ltb xlen (hash_len + 11)
    then none
    else some (0x00 ∷ 0x01 ∷ (replicate (u - 3) 0xff ++ (0x00 ∷ hash)))
sig_pad (some oid) hash n_bitlen =
    let xlen = modulus_bytes n_bitlen in
    let hash_len = length hash in
    let x3 = get_or oid 0 0 in
    let u = xlen - x3 - hash_len - 11 in
    if ltb xlen (x3 + hash_len + 21)
    then none
    else some (
        0x00
        ∷ 0x01
        ∷ (replicate (u - 2) 0xff
            ++ (0x00
                ∷ 0x30
                ∷ u8 (x3 + hash_len + 8)
                ∷ 0x30
                ∷ u8 (x3 + 4)
                ∷ 0x06
                ∷ (take (x3 + 1) oid ++ (0x05 ∷ 0x00 ∷ 0x04 ∷ u8 hash_len ∷ hash)))))

-- `pad1`
abbrev pub pad1 : List ℕ
pad1 = 0x00 ∷ 0x01 ∷ 0xff ∷ 0xff ∷ 0xff ∷ 0xff ∷ 0xff ∷ 0xff ∷ 0xff ∷ 0xff ∷ []

-- The loop that skips 0xff bytes: how many it passes.
pub ff_run : List ℕ → ℕ
ff_run [] = 0
ff_run (b ∷ bs) = let rest = ff_run bs in if b == 0xff then suc rest else 0

-- `pad2`: the bytes between the last 0xff and the hash value, without and with the NULL.
-- The source's buffer has 43 bytes, which an OID of up to 32 bytes fits, as documented; here the list
-- has any length.
abbrev pub null_params : Bool → List ℕ
null_params false = []
null_params true = 0x05 ∷ 0x00 ∷ []

pub pad2 : Bool → List ℕ → ℕ → List ℕ
pad2 with_null oid hash_len =
    let x3 = get_or oid 0 0 in
    let x2 = if with_null then x3 + 4 else x3 + 2 in
    0x00
    ∷ 0x30
    ∷ u8 (x2 + hash_len + 4)
    ∷ 0x30
    ∷ u8 x2
    ∷ 0x06
    ∷ (take (x3 + 1) oid ++ (null_params with_null ++ (0x04 ∷ u8 hash_len ∷ [])))

-- The comparison of `pad2` with the bytes at `sig + u`, and the copy of the hash value.
pub check_pad2 : Bool → ℕ → List ℕ → List ℕ → List ℕ → ℕ → Option (List ℕ)
check_pad2 with_null pad_len sig rest oid hash_len =
    if same_bytes (pad2 with_null oid hash_len) (take pad_len rest)
    then some (take hash_len (drop (length sig - hash_len) sig))
    else none

-- `br_rsa_pkcs1_sig_unpad`: the hash value, or `none` for the returned 0.
pub unpad_rest : List ℕ → List ℕ → Option (List ℕ) → ℕ → Option (List ℕ)
unpad_rest sig rest none hash_len =
    if not (length rest == hash_len + 1) || not (get_or rest 0 0 == 0x00)
    then none
    else some (take hash_len (drop (length sig - hash_len) sig))
unpad_rest sig rest (some oid) hash_len =
    let pad_len = get_or oid 0 0 + 9 in
    let zlen = size_sub (length rest) hash_len in
    if zlen == pad_len
    then check_pad2 false pad_len sig rest oid hash_len
    else if zlen == pad_len + 2
    then check_pad2 true zlen sig rest oid hash_len
    else none

pub sig_unpad : List ℕ → Option (List ℕ) → ℕ → Option (List ℕ)
sig_unpad sig oid hash_len =
    if ltb (length sig) 11
    then none
    else if not (same_bytes (take 10 sig) pad1)
    then none
    else (let tail = drop 10 sig in unpad_rest sig (drop (ff_run tail) tail) oid hash_len)

-- The loop of `br_rsa_ssl_decrypt` over `data[2 .. len - 49)`.
pub all_nonzero : ℕ → List ℕ → ℕ → ℕ
all_nonzero zero data' x = x
all_nonzero (suc n) [] x = x
all_nonzero (suc n) (b ∷ bs) x = all_nonzero n bs (bit_and x (neq b 0))

-- `br_rsa_ssl_decrypt`; `core` is the private-key operation, on the data in place. The result is
-- the returned word with the data after the call.
pub ssl_decrypt : (List ℕ → ℕ × List ℕ) → ℕ → List ℕ → ℕ × List ℕ
unfolding all_nonzero
ssl_decrypt core n_bitlen data0 =
    let len = length data0 in
    if ltb len 59 || not (len == modulus_bytes n_bitlen)
    then (0, data0)
    else (let (x0, em) = core data0 in
        let x1 = bit_and x0 (eq (get_or em 0 0) 0x00) in
        let x2 = bit_and x1 (eq (get_or em 1 0) 0x02) in
        let x3 = all_nonzero (len - 49 - 2) (drop 2 em) x2 in
        let x = bit_and x3 (eq (get_or em (len - 49) 0) 0x00) in
        (x, take 48 (drop (len - 48) em) ++ drop 48 em))
