-- ===== src/Int31/Monty.antt =====
-- Montgomery multiplication: src/int/i31_ninv31.c, i31_montmul.c and i31_fmont.c.
pub mod Inverse
pub mod Zeros
pub mod Rows
pub mod Laws
pub mod Loop
pub mod Reduce
pub mod Product
pub mod Back
pub mod Return
use bearssl.Common.{
  ℕ, zero, suc, ◌+◌, ◌-◌, ◌*◌, ◌/◌, ◌%◌, ◌^◌, List, [], ◌∷◌, ◌++◌, get_or, drop, replicate, ◌>>>◌,
  u32, u64, sub32, neg32, bit_and, bit_or,
}
use bearssl.Ct.{mux, neq, ct_not}
use bearssl.Int31.{Int31, sub, word_count}

-- MUL31_lo of src/inner.h
abbrev pub mul31_lo : ℕ → ℕ → ℕ
mul31_lo x y = bit_and (u32 (x * y)) 0x7fffffff

-- One line `y *= 2 - y * x`.
unfoldable pub newton : ℕ → ℕ → ℕ
newton x y = u32 (y * sub32 2 (u32 (y * x)))

-- `br_i31_ninv31`
unfoldable pub ninv31 : ℕ → ℕ
ninv31 x =
    let y = newton x (newton x (newton x (newton x (sub32 2 x)))) in
    bit_and (mux (bit_and x 1) (neg32 y) 0) 0x7fffffff

-- The inner loops of `br_i31_montymul`, of which the first is the second, unrolled: the words that
-- are stored in `d[0]`, `d[1]`, ..., and the carry.
unfoldable pub mont_row : ℕ → ℕ → List ℕ → List ℕ → List ℕ → ℕ → List ℕ × ℕ
mont_row xu f (dw ∷ d) (yw ∷ y) (mw ∷ m) r =
    let z = u64 (dw + xu * yw + f * mw + r) in
    let rest = mont_row xu f d y m (z >>> 31) in (bit_and (u32 z) 0x7fffffff ∷ rest.0, rest.1)
mont_row xu f (dw ∷ d) (yw ∷ y) [] r = ([], r)
mont_row xu f (dw ∷ d) [] m r = ([], r)
mont_row xu f [] y m r = ([], r)

-- One turn of the outer loop. What it stores in `d[0]` is not kept.
unfoldable pub mont_turn : ℕ → ℕ → List ℕ → List ℕ → List ℕ → ℕ → List ℕ × ℕ
mont_turn xu m0i d y m dh =
    let f = mul31_lo (u32 (get_or d 0 0 + mul31_lo xu (get_or y 0 0))) m0i in
    let row = mont_row xu f d y m 0 in
    let zh = u64 (dh + row.1) in (drop 1 (row.0 ++ (bit_and (u32 zh) 0x7fffffff ∷ [])), zh >>> 31)

-- The outer loop, over the words of `x`.
unfoldable pub mont_loop : List ℕ → ℕ → List ℕ → List ℕ → List ℕ → ℕ → List ℕ × ℕ
mont_loop [] m0i d y m dh = (d, dh)
mont_loop (xu ∷ x) m0i d y m dh =
    let turn = mont_turn xu m0i d y m dh in mont_loop x m0i turn.0 y m turn.1

-- `br_i31_montymul`: `d` after the call, on operands with the words that `m` announces.
unfoldable pub montymul : Int31 → Int31 → Int31 → ℕ → Int31
montymul x y m m0i =
    let loop = mont_loop x.words m0i (replicate (word_count m.header) 0) y.words m.words 0 in
    let d : Int31 = record { header = m.header; words = loop.0 } in
    (sub d m (bit_or (neq loop.1 0) (ct_not (sub d m 0).1))).0

-- The inner loop of `br_i31_from_monty`.
unfoldable pub fmont_row : ℕ → List ℕ → List ℕ → ℕ → List ℕ × ℕ
fmont_row f (xw ∷ x) (mw ∷ m) cc =
    let z = u64 (xw + f * mw + cc) in
    let rest = fmont_row f x m (z >>> 31) in (bit_and (u32 z) 0x7fffffff ∷ rest.0, rest.1)
fmont_row f (xw ∷ x) [] cc = ([], cc)
fmont_row f [] m cc = ([], cc)

-- One turn of its outer loop, which drops the first word.
unfoldable pub fmont_turn : ℕ → List ℕ → List ℕ → List ℕ
fmont_turn m0i x m =
    let row = fmont_row (mul31_lo (get_or x 0 0) m0i) x m 0 in drop 1 (row.0 ++ (u32 row.1 ∷ []))

unfoldable pub fmont_loop : ℕ → ℕ → List ℕ → List ℕ → List ℕ
fmont_loop zero m0i x m = x
fmont_loop (suc n) m0i x m = fmont_loop n m0i (fmont_turn m0i x m) m

-- `br_i31_from_monty`: `x` after the call.
unfoldable pub from_monty : Int31 → Int31 → ℕ → Int31
from_monty x m m0i =
    let d = record x { words = fmont_loop (word_count m.header) m0i x.words m.words } in
    (sub d m (ct_not (sub d m 0).1)).0
