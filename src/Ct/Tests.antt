-- ===== src/Ct/Tests.antt =====
-- Runs of the constant-time primitives, and their theorems at concrete words.
use bearssl.Common.{◌≡◌, refl, arith}
use bearssl.Ct.{mux, neq, eq, gt, ge, lt, le, bit_length}
use bearssl.Ct.Compare.{compare_lem}

bit_length_runs : (bit_length 0 ≡ 0) × (bit_length 0x1234 ≡ 13) × (bit_length 0xffff_ffff ≡ 32)
unfolding bit_length neq gt mux
bit_length_runs = (refl, refl, refl)

compare_lem_example :
    (eq 3 0xffff_ffff ≡ 0)
    × (neq 3 0xffff_ffff ≡ 1)
    × (gt 3 0xffff_ffff ≡ 0)
    × (ge 3 0xffff_ffff ≡ 0)
    × (lt 3 0xffff_ffff ≡ 1)
    × (le 3 0xffff_ffff ≡ 1)
compare_lem_example = compare_lem 3 0xffff_ffff (omega arith) (omega arith)
