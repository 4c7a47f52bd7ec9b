-- ===== src/Codec/Tests.antt =====
-- Runs of the codecs, and their theorems at concrete values.
use bearssl.Common.{ℕ, ◌≡◌, refl, arith, List, [], ◌∷◌, ◌++◌}
use bearssl.Codec.{
  enc32be, dec32le, range_enc16le, range_enc16be, range_enc32le, range_enc32be, range_enc64le,
  range_enc64be, range_dec16le, range_dec16be, range_dec32le, range_dec32be, range_dec64le,
  range_dec64be,
}
use bearssl.Codec.RoundTrip.{range_dec-range_enc}

orders : (enc32be 0x0102_0304 ≡ 1 ∷ 2 ∷ 3 ∷ 4 ∷ []) × (dec32le (1 ∷ 2 ∷ 3 ∷ 4 ∷ []) ≡ 0x0403_0201)
unfolding enc32be dec32le
orders = (refl, refl)

abbrev two : List ℕ
two = 0xfe01 ∷ 7 ∷ []

range_dec-range_enc_example :
    (range_dec16le 2 (range_enc16le two ++ []) ≡ two)
    × (range_dec16be 2 (range_enc16be two ++ []) ≡ two)
    × (range_dec32le 2 (range_enc32le two ++ []) ≡ two)
    × (range_dec32be 2 (range_enc32be two ++ []) ≡ two)
    × (range_dec64le 2 (range_enc64le two ++ []) ≡ two)
    × (range_dec64be 2 (range_enc64be two ++ []) ≡ two)
range_dec-range_enc_example =
    range_dec-range_enc two two two [] (omega arith) (omega arith) (omega arith)
