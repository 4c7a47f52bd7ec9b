-- ===== src/Codec.antt =====
-- The integer codecs: the inline functions of src/inner.h, and the `br_range_*` loops of
-- src/codec/. A buffer is a list of bytes; an encoder returns the bytes that it writes, and a
-- read past the end of the list (undefined in C) gives 0.
pub mod RoundTrip
mod Tests
use bearssl.Common.{ℕ, zero, suc, ◌+◌, ◌*◌, ◌/◌, ◌%◌, ◌^◌, bit_or}
use bearssl.Common.{List, [], ◌∷◌, ◌++◌, get_or, drop, ◌<<<◌, ◌>>>◌, u8, u32, u64}

abbrev pub byte_at : List ℕ → ℕ → ℕ
byte_at buf i = get_or buf i 0

-- `br_enc16le` and `br_enc16be`
pub enc16le : ℕ → List ℕ
enc16le x = u8 x ∷ u8 (x >>> 8) ∷ []

unfoldable pub enc16be : ℕ → List ℕ
enc16be x = u8 (x >>> 8) ∷ u8 x ∷ []

-- `br_dec16le` and `br_dec16be`
pub dec16le : List ℕ → ℕ
dec16le buf = bit_or (byte_at buf 0) (byte_at buf 1 <<< 8)

unfoldable pub dec16be : List ℕ → ℕ
dec16be buf = bit_or (byte_at buf 0 <<< 8) (byte_at buf 1)

-- `br_enc32le` and `br_enc32be`
unfoldable pub enc32le : ℕ → List ℕ
enc32le x = u8 x ∷ u8 (x >>> 8) ∷ u8 (x >>> 16) ∷ u8 (x >>> 24) ∷ []

unfoldable pub enc32be : ℕ → List ℕ
enc32be x = u8 (x >>> 24) ∷ u8 (x >>> 16) ∷ u8 (x >>> 8) ∷ u8 x ∷ []

-- `br_dec32le` and `br_dec32be`
unfoldable pub dec32le : List ℕ → ℕ
dec32le buf =
    bit_or (bit_or (bit_or (byte_at buf 0) (byte_at buf 1 <<< 8)) (byte_at buf 2 <<< 16))
      (byte_at buf 3 <<< 24)

unfoldable pub dec32be : List ℕ → ℕ
dec32be buf =
    bit_or (bit_or (bit_or (byte_at buf 0 <<< 24) (byte_at buf 1 <<< 16)) (byte_at buf 2 <<< 8))
      (byte_at buf 3)

-- `br_enc64le` and `br_enc64be`: the two halves.
unfoldable pub enc64le : ℕ → List ℕ
unfolding enc32le
enc64le x = enc32le (u32 x) ++ enc32le (u32 (x >>> 32))

unfoldable pub enc64be : ℕ → List ℕ
unfolding enc32be
enc64be x = enc32be (u32 (x >>> 32)) ++ enc32be (u32 x)

-- `br_dec64le` and `br_dec64be`
pub dec64le : List ℕ → ℕ
dec64le buf = bit_or (dec32le buf) (dec32le (drop 4 buf) <<< 32)

pub dec64be : List ℕ → ℕ
dec64be buf = bit_or (dec32be buf <<< 32) (dec32be (drop 4 buf))

-- The loop of the `br_range_enc*` functions: one value after the other.
unfoldable pub range_enc : (ℕ → List ℕ) → List ℕ → List ℕ
range_enc enc [] = []
range_enc enc (v ∷ vs) = enc v ++ range_enc enc vs

-- The loop of the `br_range_dec*` functions, over `num` values of `size` bytes.
unfoldable pub range_dec : (List ℕ → ℕ) → ℕ → ℕ → List ℕ → List ℕ
range_dec dec size zero src = []
range_dec dec size (suc num) src = dec src ∷ range_dec dec size num (drop size src)

-- `br_range_enc16le` to `br_range_enc64be`
pub range_enc16le : List ℕ → List ℕ
range_enc16le vs = range_enc enc16le vs

pub range_enc16be : List ℕ → List ℕ
range_enc16be vs = range_enc enc16be vs

unfoldable pub range_enc32le : List ℕ → List ℕ
unfolding range_enc enc32le
range_enc32le vs = range_enc enc32le vs

unfoldable pub range_enc32be : List ℕ → List ℕ
range_enc32be vs = range_enc enc32be vs

pub range_enc64le : List ℕ → List ℕ
range_enc64le vs = range_enc enc64le vs

pub range_enc64be : List ℕ → List ℕ
range_enc64be vs = range_enc enc64be vs

-- `br_range_dec16le` to `br_range_dec64be`
pub range_dec16le : ℕ → List ℕ → List ℕ
range_dec16le num src = range_dec dec16le 2 num src

pub range_dec16be : ℕ → List ℕ → List ℕ
range_dec16be num src = range_dec dec16be 2 num src

unfoldable pub range_dec32le : ℕ → List ℕ → List ℕ
unfolding range_dec dec32le
range_dec32le num src = range_dec dec32le 4 num src

unfoldable pub range_dec32be : ℕ → List ℕ → List ℕ
range_dec32be num src = range_dec dec32be 4 num src

pub range_dec64le : ℕ → List ℕ → List ℕ
range_dec64le num src = range_dec dec64le 8 num src

pub range_dec64be : ℕ → List ℕ → List ℕ
range_dec64be num src = range_dec dec64be 8 num src
