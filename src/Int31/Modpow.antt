-- ===== src/Int31/Modpow.antt =====
-- Modular exponentiation: the loop of `br_i31_modpow` in src/int/i31_modpow.c, which runs once the
-- base stands in `t1` in Montgomery form, and `br_ccopy` of src/codec/ccopy.c.
pub mod Residues
pub mod Laws
pub mod Exponent
use bearssl.Common.{
  ℕ, zero, suc, ◌+◌, ◌-◌, ◌/◌, ◌%◌, ◌^◌, List, [], ◌∷◌, length, get_or, ◌>>>◌, ◌<<<◌, bit_and, u32,
}
use bearssl.Ct.{mux}
use bearssl.Int31.{Int31}
use bearssl.Int31.Monty.{montymul}

-- `br_ccopy`, word by word: MUX takes every byte of a word from the same side.
unfoldable pub ccopy : ℕ → List ℕ → List ℕ → List ℕ
ccopy ctl (y ∷ d) (x ∷ s) = mux ctl x y ∷ ccopy ctl d s
ccopy ctl (y ∷ d) [] = y ∷ d
ccopy ctl [] s = []

-- Bit `k` of the exponent, an unsigned big-endian number.
unfoldable pub exponent_bit : List ℕ → ℕ → ℕ
exponent_bit e k = bit_and (get_or e (length e - 1 - (k >>> 3)) 0 >>> bit_and k 7) 1

-- The loop, `n` turns from `k` on: `x` after it. `modpow_main` gives it the count of the source.
unfoldable pub modpow_loop : ℕ → ℕ → List ℕ → Int31 → ℕ → Int31 → Int31 → Int31
modpow_loop zero k e m m0i x t1 = x
modpow_loop (suc n) k e m m0i x t1 =
    let ctl = exponent_bit e k in
    let t2 = montymul x t1 m m0i in
    let copied : Int31 = record {
      header = mux ctl t2.header x.header;
      words = ccopy ctl x.words t2.words;
    } in
    modpow_loop n (k + 1) e m m0i copied (montymul t1 t1 m m0i)

-- The count `(uint32_t)elen << 3`, which wraps around for an exponent of 2 ^ 29 bytes or more.
abbrev pub modpow_turns : List ℕ → ℕ
modpow_turns e = u32 (u32 (length e) <<< 3)

unfoldable pub modpow_main : List ℕ → Int31 → ℕ → Int31 → Int31 → Int31
modpow_main e m m0i x t1 = modpow_loop (modpow_turns e) 0 e m m0i x t1
