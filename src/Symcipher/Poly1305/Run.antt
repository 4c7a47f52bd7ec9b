-- ===== src/Symcipher/Poly1305/Run.antt =====
-- `br_poly1305_ctmul_run` against what the record protection asks of it.
use bearssl.Common.{
  if◌then◌else◌, ℕ, ◌≡◌, refl, ap, arith, List, length, replicate, All, IsByte, true, false, Bool,
}
use bearssl.Codec.{enc32le}
use bearssl.Record.Chapol.Laws.{IsPoly}
use bearssl.Symcipher.Chacha20.{Chacha}
use bearssl.Symcipher.Chacha20.Laws.{IsChacha}
use bearssl.Symcipher.Poly1305.{poly1305_tag, poly1305_ctmul_run}

tag-bytes :
    (pkey aad d : List ℕ)
    → (length (poly1305_tag pkey aad d) ≡ 16) × All IsByte (poly1305_tag pkey aad d)
unfolding poly1305_tag enc32le
tag-bytes pkey aad d = (
  refl,
  (
    omega arith,
    (
      omega arith,
      (
        omega arith,
        (
          omega arith,
          (
            omega arith,
            (
              omega arith,
              (
                omega arith,
                (
                  omega arith,
                  (
                    omega arith,
                    (
                      omega arith,
                      (
                        omega arith,
                        (
                          omega arith,
                          (omega arith, (omega arith, (omega arith, (omega arith, tt)))),
                        ),
                      ),
                    ),
                  ),
                ),
              ),
            ),
          ),
        ),
      ),
    ),
  ),
)

run_shape :
    (ichacha : Chacha) (law : IsChacha ichacha) (key iv d aad : List ℕ) (e : Bool)
    → let made = poly1305_ctmul_run ichacha key iv d aad e in
      (length made.0 ≡ length d)
      × (length made.1 ≡ 16)
      × (All IsByte d → All IsByte made.0)
      × All IsByte made.1
unfolding poly1305_ctmul_run
run_shape ichacha law key iv d aad true =
    let tag = tag-bytes (ichacha key iv 0 (replicate 32 0)).0 aad (ichacha key iv 1 d).0 in
    (law.length_run key iv 1 d, tag.0, law.run_bytes key iv 1 d, tag.1)
run_shape ichacha law key iv d aad false =
    let tag = tag-bytes (ichacha key iv 0 (replicate 32 0)).0 aad d in
    (law.length_run key iv 1 d, tag.0, law.run_bytes key iv 1 d, tag.1)

-- Over a ChaCha20 implementation that undoes itself, `br_poly1305_ctmul_run` has what the record
-- protection asks of it: data keeps its length, the tag has 16 bytes, and
-- decryption gives back the data and computes the same tag.
pub poly1305_ctmul_run-IsPoly :
    (ichacha : Chacha) → IsChacha ichacha → IsPoly (poly1305_ctmul_run ichacha)
unfolding poly1305_ctmul_run
poly1305_ctmul_run-IsPoly ichacha law = record {
  length_data = λ key iv d aad e. (run_shape ichacha law key iv d aad e).0;
  length_tag = λ key iv d aad e. (run_shape ichacha law key iv d aad e).1;
  data_bytes = λ key iv d aad e. (run_shape ichacha law key iv d aad e).2;
  tag_bytes = λ key iv d aad e. (run_shape ichacha law key iv d aad e).3;
  undone = λ key iv d aad h.
      ap (λ x. (x, poly1305_tag (ichacha key iv 0 (replicate 32 0)).0 aad (ichacha key iv 1 d).0))
        (law.run_twice key iv 1 d);
}

-- The one-time key, from the block with counter 0, and the ciphertext: what encryption makes, or
-- what decryption is given.
abbrev pub one_time_key : Chacha → List ℕ → List ℕ → List ℕ
one_time_key ichacha key iv = (ichacha key iv 0 (replicate 32 0)).0

abbrev pub ciphertext : Chacha → List ℕ → List ℕ → List ℕ → Bool → List ℕ
ciphertext ichacha key iv d encrypt = if encrypt then (ichacha key iv 1 d).0 else d
