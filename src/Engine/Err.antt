-- ===== src/Engine/Err.antt =====
-- The error codes `BR_ERR_*` of inc/bearssl_ssl.h that the record management sets.
use Prim.Native.Nat.{ℕ}

abbrev pub no_error : ℕ
no_error = 0

abbrev pub bad_param : ℕ
bad_param = 1

abbrev pub unsupported_version : ℕ
unsupported_version = 3

abbrev pub bad_version : ℕ
bad_version = 4

abbrev pub bad_length : ℕ
bad_length = 5

abbrev pub too_large : ℕ
too_large = 6

abbrev pub bad_mac : ℕ
bad_mac = 7

abbrev pub unexpected : ℕ
unexpected = 10
