-- ===== src/Ct.antt =====
-- The constant-time primitives of src/inner.h, on `uint32_t` words. A `ctl` bit is 0 or 1.
pub mod Compare
pub mod Select
mod Tests
use bearssl.Common.{ℕ, ◌+◌, ◌*◌, ◌/◌, ◌%◌, ◌^◌, bit_and, bit_or, bit_xor}
use bearssl.Common.{◌<<<◌, ◌>>>◌, u32, sub32, neg32, not32}

-- `NOT`
unfoldable pub ct_not : ℕ → ℕ
ct_not ctl = bit_xor ctl 1

-- `MUX`
unfoldable pub mux : ℕ → ℕ → ℕ → ℕ
mux ctl x y = bit_xor y (bit_and (neg32 ctl) (bit_xor x y))

-- `NEQ`
unfoldable pub neq : ℕ → ℕ → ℕ
neq x y = let q = bit_xor x y in bit_or q (neg32 q) >>> 31

-- `EQ`
unfoldable pub eq : ℕ → ℕ → ℕ
unfolding ct_not
eq x y = let q = bit_xor x y in ct_not (bit_or q (neg32 q) >>> 31)

-- `GT`
unfoldable pub gt : ℕ → ℕ → ℕ
gt x y = let z = sub32 y x in bit_xor z (bit_and (bit_xor x y) (bit_xor x z)) >>> 31

-- `GE`, `LT` and `LE`
pub ge : ℕ → ℕ → ℕ
ge x y = ct_not (gt y x)

pub lt : ℕ → ℕ → ℕ
lt x y = gt y x

pub le : ℕ → ℕ → ℕ
le x y = ct_not (gt x y)

-- `CMP`, an `int32_t` as its bit pattern: -1 is 2 ^ 32 - 1.
pub cmp : ℕ → ℕ → ℕ
cmp x y = bit_or (gt x y) (neg32 (gt y x))

-- `EQ0`, `GT0`, `GE0`, `LT0` and `LE0`, of an `int32_t` as its bit pattern.
unfoldable pub eq0 : ℕ → ℕ
eq0 q = not32 (bit_or q (neg32 q)) >>> 31

pub gt0 : ℕ → ℕ
gt0 q = bit_and (not32 q) (neg32 q) >>> 31

pub ge0 : ℕ → ℕ
ge0 x = not32 x >>> 31

pub lt0 : ℕ → ℕ
lt0 x = x >>> 31

pub le0 : ℕ → ℕ
le0 q = bit_or q (not32 (neg32 q)) >>> 31

-- `BIT_LENGTH`: one step halves the range, with `c` for "x exceeds the low half".
pub bit_length : ℕ → ℕ
bit_length x =
    let k0 = neq x 0 in
    let c1 = gt x 0xffff in
    let x1 = mux c1 (x >>> 16) x in
    let k1 = u32 (k0 + (c1 <<< 4)) in
    let c2 = gt x1 0x00ff in
    let x2 = mux c2 (x1 >>> 8) x1 in
    let k2 = u32 (k1 + (c2 <<< 3)) in
    let c3 = gt x2 0x000f in
    let x3 = mux c3 (x2 >>> 4) x2 in
    let k3 = u32 (k2 + (c3 <<< 2)) in
    let c4 = gt x3 0x0003 in
    let x4 = mux c4 (x3 >>> 2) x3 in let k4 = u32 (k3 + (c4 <<< 1)) in u32 (k4 + gt x4 0x0001)

-- `MIN` and `MAX`
pub ct_min : ℕ → ℕ → ℕ
ct_min x y = mux (gt x y) y x

pub ct_max : ℕ → ℕ → ℕ
ct_max x y = mux (gt x y) x y
