-- ===== src/Engine/Keys.antt =====
-- Keys of a session: the master secret, the key block, and the switches to a new protection, of
-- src/ssl/ssl_engine.c.
pub mod Mirror
use bearssl.Common.{
  ℕ, ◌+◌, ◌*◌, Bool, true, false, leb, ◌==◌, if◌then◌else◌, Option, none, some, List, [], ◌∷◌, ◌++◌,
  take, drop,
}
use bearssl.Engine.State.{RecordLayer, Engine, protected}
use bearssl.Engine.Run.{switch_in, switch_out}

abbrev pub tls11 : ℕ
tls11 = 0x302

abbrev pub tls12 : ℕ
tls12 = 0x303

-- `br_tls_prf_impl`: from the output length, the secret, the label and the seed to the output.
abbrev pub PrfImpl : Type 0
PrfImpl = ℕ → List ℕ → List ℕ → List ℕ → List ℕ

-- The fields of the engine that the keys are computed from.
pub record Session : Type 0 where
  pub version : ℕ
  pub prf10 : PrfImpl
  pub prf_sha256 : PrfImpl
  pub prf_sha384 : PrfImpl
  pub client_random : List ℕ
  pub server_random : List ℕ
  pub master_secret : List ℕ

-- "master secret" and "key expansion"
abbrev pub label_master : List ℕ
label_master = 109 ∷ 97 ∷ 115 ∷ 116 ∷ 101 ∷ 114 ∷ 32 ∷ 115 ∷ 101 ∷ 99 ∷ 114 ∷ 101 ∷ 116 ∷ 0 ∷ []

abbrev pub label_expansion : List ℕ
label_expansion = 107 ∷ 101 ∷ 121 ∷ 32 ∷ 101 ∷ 120 ∷ 112 ∷ 97 ∷ 110 ∷ 115 ∷ 105 ∷ 111 ∷ 110 ∷ 0 ∷ []

-- `br_ssl_engine_get_PRF`; br_sha384_ID is 5.
unfoldable pub get_prf : Session → ℕ → PrfImpl
get_prf s prf_id =
    if leb tls12 s.version then if prf_id == 5 then s.prf_sha384 else s.prf_sha256 else s.prf10

-- `br_ssl_engine_compute_master`
pub compute_master : Session → ℕ → List ℕ → Session
compute_master s prf_id pms =
    let seed = take 32 s.client_random ++ take 32 s.server_random in
    record s { master_secret = get_prf s prf_id 48 pms label_master seed }

-- `compute_key_block`
pub compute_key_block : Session → ℕ → ℕ → List ℕ
compute_key_block s prf_id half_len =
    let seed = take 32 s.server_random ++ take 32 s.client_random in
    get_prf s prf_id (half_len * 2) (take 48 s.master_secret) label_expansion seed

-- `len` bytes at an offset of the key block
abbrev pub slice : List ℕ → ℕ → ℕ → List ℕ
slice kb off len = take len (drop off kb)

-- What the `init` of a protection is given.
pub record Keys : Type 0 where
  pub mac_key : List ℕ
  pub cipher_key : List ℕ
  pub iv : List ℕ

-- The length of the IV in the key block, for CBC.
unfoldable pub cbc_iv_len : Session → ℕ → ℕ
cbc_iv_len s block_size = if leb tls11 s.version then 0 else block_size

-- The two choices of `br_ssl_engine_switch_cbc_in` and `br_ssl_engine_switch_cbc_out`; an empty IV
-- stands for NULL.
unfoldable pub cbc_first : List ℕ → ℕ → ℕ → ℕ → Keys
cbc_first kb mac_key_len cipher_key_len iv_len = record {
  mac_key = slice kb 0 mac_key_len;
  cipher_key = slice kb (mac_key_len * 2) cipher_key_len;
  iv = slice kb ((mac_key_len + cipher_key_len) * 2) iv_len;
}

unfoldable pub cbc_second : List ℕ → ℕ → ℕ → ℕ → Keys
cbc_second kb mac_key_len cipher_key_len iv_len = record {
  mac_key = slice kb mac_key_len mac_key_len;
  cipher_key = slice kb (mac_key_len * 2 + cipher_key_len) cipher_key_len;
  iv = slice kb ((mac_key_len + cipher_key_len) * 2 + iv_len) iv_len;
}

-- The keys that `br_ssl_engine_switch_cbc_in` computes.
unfoldable pub cbc_in_keys : Session → Bool → ℕ → ℕ → ℕ → ℕ → Keys
cbc_in_keys s is_client prf_id mac_out_len block_size cipher_key_len =
    let iv_len = cbc_iv_len s block_size in
    let kb = compute_key_block s prf_id (mac_out_len + cipher_key_len + iv_len) in
    if is_client
    then cbc_second kb mac_out_len cipher_key_len iv_len
    else cbc_first kb mac_out_len cipher_key_len iv_len

-- The keys that `br_ssl_engine_switch_cbc_out` computes.
unfoldable pub cbc_out_keys : Session → Bool → ℕ → ℕ → ℕ → ℕ → Keys
cbc_out_keys s is_client prf_id mac_out_len block_size cipher_key_len =
    let iv_len = cbc_iv_len s block_size in
    let kb = compute_key_block s prf_id (mac_out_len + cipher_key_len + iv_len) in
    if is_client
    then cbc_first kb mac_out_len cipher_key_len iv_len
    else cbc_second kb mac_out_len cipher_key_len iv_len

-- The choices for GCM, and the keys of `br_ssl_engine_switch_gcm_in` and `_out`.
unfoldable pub gcm_first : List ℕ → ℕ → Keys
gcm_first kb cipher_key_len = record {
  mac_key = [];
  cipher_key = slice kb 0 cipher_key_len;
  iv = slice kb (cipher_key_len * 2) 4;
}

unfoldable pub gcm_second : List ℕ → ℕ → Keys
gcm_second kb cipher_key_len = record {
  mac_key = [];
  cipher_key = slice kb cipher_key_len cipher_key_len;
  iv = slice kb (cipher_key_len * 2 + 4) 4;
}

unfoldable pub gcm_in_keys : Session → Bool → ℕ → ℕ → Keys
gcm_in_keys s is_client prf_id cipher_key_len =
    let kb = compute_key_block s prf_id (cipher_key_len + 4) in
    if is_client then gcm_second kb cipher_key_len else gcm_first kb cipher_key_len

unfoldable pub gcm_out_keys : Session → Bool → ℕ → ℕ → Keys
gcm_out_keys s is_client prf_id cipher_key_len =
    let kb = compute_key_block s prf_id (cipher_key_len + 4) in
    if is_client then gcm_first kb cipher_key_len else gcm_second kb cipher_key_len

-- The same for ChaCha20+Poly1305.
unfoldable pub chapol_first : List ℕ → Keys
chapol_first kb = record { mac_key = []; cipher_key = slice kb 0 32; iv = slice kb 64 12 }

unfoldable pub chapol_second : List ℕ → Keys
chapol_second kb = record { mac_key = []; cipher_key = slice kb 32 32; iv = slice kb 76 12 }

unfoldable pub chapol_in_keys : Session → Bool → ℕ → Keys
chapol_in_keys s is_client prf_id =
    let kb = compute_key_block s prf_id 44 in
    if is_client then chapol_second kb else chapol_first kb

unfoldable pub chapol_out_keys : Session → Bool → ℕ → Keys
chapol_out_keys s is_client prf_id =
    let kb = compute_key_block s prf_id 44 in
    if is_client then chapol_first kb else chapol_second kb

module _ (R : RecordLayer) (init_in : Keys → R.In) (init_out : Keys → R.Out) where
  -- `br_ssl_engine_switch_cbc_in` and `br_ssl_engine_switch_cbc_out`; `init_in` and `init_out` are
  -- the `init` methods of the protection.
  pub switch_cbc_in : Engine R → Session → Bool → ℕ → ℕ → ℕ → ℕ → Engine R
  switch_cbc_in rc s is_client prf_id mac_out_len block_size cipher_key_len =
      switch_in R rc
        (init_in (cbc_in_keys s is_client prf_id mac_out_len block_size cipher_key_len))

  pub switch_cbc_out : Engine R → Session → Bool → ℕ → ℕ → ℕ → ℕ → Engine R
  switch_cbc_out rc s is_client prf_id mac_out_len block_size cipher_key_len =
      switch_out R rc
        (init_out (cbc_out_keys s is_client prf_id mac_out_len block_size cipher_key_len))

  -- `br_ssl_engine_switch_gcm_in` and `br_ssl_engine_switch_gcm_out`
  pub switch_gcm_in : Engine R → Session → Bool → ℕ → ℕ → Engine R
  switch_gcm_in rc s is_client prf_id cipher_key_len =
      switch_in R rc (init_in (gcm_in_keys s is_client prf_id cipher_key_len))

  pub switch_gcm_out : Engine R → Session → Bool → ℕ → ℕ → Engine R
  switch_gcm_out rc s is_client prf_id cipher_key_len =
      switch_out R rc (init_out (gcm_out_keys s is_client prf_id cipher_key_len))

  -- `br_ssl_engine_switch_chapol_in` and `br_ssl_engine_switch_chapol_out`
  pub switch_chapol_in : Engine R → Session → Bool → ℕ → Engine R
  switch_chapol_in rc s is_client prf_id =
      switch_in R rc (init_in (chapol_in_keys s is_client prf_id))

  pub switch_chapol_out : Engine R → Session → Bool → ℕ → Engine R
  switch_chapol_out rc s is_client prf_id =
      switch_out R rc (init_out (chapol_out_keys s is_client prf_id))
