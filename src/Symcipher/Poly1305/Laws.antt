-- ===== src/Symcipher/Poly1305/Laws.antt =====
-- The tag that `br_poly1305_ctmul_run` computes, against RFC 7539.
use bearssl.Common.{ℕ, List, ◌++◌, length, u64}
use bearssl.Codec.{enc64le}
use bearssl.Symcipher.Poly1305.Inner.{horner}

-- The accumulator of RFC 7539: AAD, ciphertext and lengths in a row.
unfoldable pub mac_value : ℕ → List ℕ → List ℕ → ℕ
mac_value r aad d =
    let foot = enc64le (u64 (length aad)) ++ enc64le (u64 (length d)) in
    let h1 = horner (length aad) 0 r aad in
    let h2 = horner (length d) h1 r d in horner (length foot) h2 r foot
