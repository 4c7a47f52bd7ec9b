-- ===== src/Record/Tests.antt =====
-- The protections on small calls: encryption that leaves the data as it is.
use bearssl.Common.{
  ℕ, zero, suc, ◌+◌, ◌-◌, ◌<◌, ◌≡◌, refl, arith, true, false, some, List, [], ◌∷◌, length,
  replicate, All, IsByte,
}
use bearssl.Common.BitLaws.{bit_xor-zero}
use bearssl.Engine.State.{Memory}
use bearssl.Engine.Keys.{Session, chapol_in_keys, chapol_out_keys}
use bearssl.Engine.Run.Steps.{IsLayer}
use bearssl.Prf.{xor_into}
use bearssl.Record.Bytes.{read_bytes, differ_loop}
use bearssl.Record.Channel.{chapol_from, chapol_channel}
use bearssl.Record.Chapol.{
  ChapolContext, Poly, chapol_check_length, gen_chapol_process, chapol_decrypt, chapol_encrypt,
  chapol_layer, mask_nonce,
}
use bearssl.Record.Chapol.Laws.{
  IsPoly, chapol_decrypt-encrypt, chapol_decrypt_authentic, chapol-IsLayer,
}
use bearssl.Record.Gcm.{
  GcmCalls, GcmContext, gcm_check_length, do_tag, do_ctr, gcm_decrypt, gcm_encrypt, gcm_layer,
}
use bearssl.Symcipher.Chacha20.{chacha20_ct_run}
use bearssl.Symcipher.Chacha20.Laws.{chacha20_ct_run-IsChacha}
use bearssl.Symcipher.Poly1305.{poly1305_ctmul_run}
use bearssl.Symcipher.Poly1305.Run.{poly1305_ctmul_run-IsPoly}
use bearssl.Record.Gcm.Laws.{IsGcm, gcm_decrypt-encrypt, gcm_decrypt_authentic, gcm-IsLayer}

abbrev sixteen : ℕ → List ℕ
sixteen b = replicate 16 b

sixteen-IsByte : (b : ℕ) → b < 256 → All IsByte (sixteen b)
sixteen-IsByte b h = all_of 16
  where
    all_of : (n : ℕ) → All IsByte (replicate n b)
    all_of zero = tt
    all_of (suc n) = (h, all_of n)

abbrev plain_poly : Poly
plain_poly key nonce d aad e = (d, sixteen 9)

plain_poly-IsPoly : IsPoly plain_poly
plain_poly-IsPoly = record {
  length_data = λ key nonce d aad e. refl;
  length_tag = λ key nonce d aad e. refl;
  data_bytes = λ key nonce d aad e h. h;
  tag_bytes = λ key nonce d aad e. sixteen-IsByte 9 (omega arith);
  undone = λ key nonce d aad h. refl;
}

abbrev plain_calls : GcmCalls
plain_calls = record {
  Keyed = Unit {0};
  ctr_init = λ key. tt;
  ctr_run = λ k iv c d. d;
  ghash = λ y h d. sixteen 3;
}

xor_into-zeros : (d : List ℕ) → d ≡ xor_into d (replicate (length d) 0)
unfolding xor_into
xor_into-zeros [] = refl
xor_into-zeros (x ∷ d) = sym_cons (bit_xor-zero x) (xor_into-zeros d)
  where
    sym_cons : {y : ℕ} {t : List ℕ} → y ≡ x → d ≡ t → x ∷ d ≡ y ∷ t
    sym_cons e f = cc

plain_calls-IsGcm : IsGcm plain_calls
plain_calls-IsGcm = record {
  length_ctr = λ k iv c d. refl;
  ctr_bytes = λ k iv c d h. h;
  stream = λ k iv c d. xor_into-zeros d;
  length_hash = λ y h d. refl;
  hash_bytes = λ y h d. sixteen-IsByte 3 (omega arith);
}

abbrev memory : Memory
memory p = 5

memory_bytes : (p : ℕ) → memory p < 256
memory_bytes p = omega arith

abbrev chapol : ChapolContext
chapol = record { seq = 0x102; key = replicate 32 1; iv = replicate 12 0 }

abbrev gcm : GcmContext (Unit {0})
gcm = record { seq = 7; bc = tt; iv = replicate 4 2; h = sixteen 4 }

-- The sequence number is xored into the end of the nonce, most significant byte first.
nonce_run :
    mask_nonce 8 0 (replicate 12 0) 0x102 ≡ 0 ∷ 0 ∷ 0 ∷ 0 ∷ 0 ∷ 0 ∷ 0 ∷ 0 ∷ 0 ∷ 0 ∷ 1 ∷ 2 ∷ []
unfolding mask_nonce
nonce_run = refl

chapol_decrypt-encrypt_example :
    let (buf, len, ctx1, m1) = chapol_encrypt plain_poly chapol 23 0x303 2000 100 memory in
    let (plain, ctx2, m2) = chapol_decrypt plain_poly chapol 23 0x303 (buf + 5) (len - 5) m1 in
    (plain ≡ some (2000, 100))
    × (ctx2 ≡ ctx1)
    × (read_bytes m2 2000 100 ≡ read_bytes memory 2000 100)
chapol_decrypt-encrypt_example =
    chapol_decrypt-encrypt plain_poly plain_poly-IsPoly chapol 23 0x303 2000 100 memory
      (omega arith) (omega arith) memory_bytes

-- The library's own ChaCha20 and Poly1305.
chapol-IsLayer_example : IsLayer (chapol_layer (poly1305_ctmul_run chacha20_ct_run) (Unit {0}))
chapol-IsLayer_example =
    chapol-IsLayer (poly1305_ctmul_run chacha20_ct_run)
      (poly1305_ctmul_run-IsPoly chacha20_ct_run chacha20_ct_run-IsChacha) (Unit {0})

gcm_decrypt-encrypt_example :
    let (buf, len, ctx1, m1) = gcm_encrypt plain_calls gcm 23 0x303 2000 100 memory in
    let (plain, ctx2, m2) = gcm_decrypt plain_calls gcm 23 0x303 (buf + 5) (len - 5) m1 in
    (plain ≡ some (2000, 100))
    × (ctx2 ≡ ctx1)
    × (read_bytes m2 2000 100 ≡ read_bytes memory 2000 100)
gcm_decrypt-encrypt_example =
    gcm_decrypt-encrypt plain_calls plain_calls-IsGcm gcm 23 0x303 2000 100 memory (omega arith)
      (omega arith)

gcm-IsLayer_example : IsLayer (gcm_layer plain_calls (Unit {0}))
gcm-IsLayer_example = gcm-IsLayer plain_calls plain_calls-IsGcm (Unit {0})

abbrev place : ℕ
place = 2000

-- Records that end in the tag.
abbrev nines : Memory
nines p = 9

chapol_decrypt_authentic_example :
    (place ≡ 2000)
    × (4 + 16 ≡ 20)
    × (read_bytes nines 2004 16
        ≡ (gen_chapol_process plain_poly chapol 23 0x303 (read_bytes nines 2000 4) false).2)
unfolding chapol_decrypt gen_chapol_process chapol_check_length read_bytes differ_loop
chapol_decrypt_authentic_example =
    chapol_decrypt_authentic plain_poly plain_poly-IsPoly chapol 23 0x303 2000 20 nines 2000 4 refl
      (omega arith) refl

abbrev threes : Memory
threes p = 3

gcm_decrypt_authentic_example :
    let data' = read_bytes threes 2008 4 in
    let tagged = do_tag plain_calls gcm 23 0x303 data' in
    (place + 8 ≡ 2008)
    × (4 + 24 ≡ 28)
    × (read_bytes threes 2012 16
        ≡ (do_ctr plain_calls tagged.0 (read_bytes threes 2000 8) data' tagged.1).1)
unfolding gcm_decrypt do_tag do_ctr gcm_check_length read_bytes differ_loop
gcm_decrypt_authentic_example =
    gcm_decrypt_authentic plain_calls plain_calls-IsGcm gcm 23 0x303 2000 28 threes 2008 4 refl
      (omega arith) refl

-- A session whose pseudorandom function repeats the secret's length.
abbrev session : Session
session = record {
  version = 0x303;
  prf10 = λ n secret label seed. replicate n 1;
  prf_sha256 = λ n secret label seed. replicate n (length secret);
  prf_sha384 = λ n secret label seed. replicate n 3;
  client_random = replicate 32 4;
  server_random = replicate 32 5;
  master_secret = replicate 48 6;
}

chapol_channel_example :
    let sender = chapol_from (chapol_out_keys session true 4) in
    let receiver = chapol_from (chapol_in_keys session false 4) in
    let (buf, len, sender1, m1) = chapol_encrypt plain_poly sender 23 0x303 2000 100 memory in
    let (plain, receiver1, m2) =
      chapol_decrypt plain_poly receiver 23 0x303 (buf + 5) (len - 5) m1 in
    (plain ≡ some (2000, 100))
    × (receiver1 ≡ sender1)
    × (read_bytes m2 2000 100 ≡ read_bytes memory 2000 100)
chapol_channel_example =
    chapol_channel plain_poly plain_poly-IsPoly session true 4 23 0x303 2000 100 memory
      (omega arith) (omega arith) memory_bytes
