-- ===== src/Record/Channel.antt =====
-- Two peers of one session: what one sends after the switch of protection, the other reads.
use bearssl.Common.{ℕ, ◌+◌, ◌-◌, ◌^◌, ◌≤◌, ◌<◌, ◌≡◌, Bool, not, some}
use bearssl.Engine.State.{Memory}
use bearssl.Engine.Receive.Ack.{HoldsBytes}
use bearssl.Engine.Keys.{Session, Keys, gcm_in_keys, gcm_out_keys, chapol_in_keys, chapol_out_keys}
use bearssl.Engine.Keys.Mirror.{mirrored_gcm, mirrored_chapol}
use bearssl.Record.Bytes.{read_bytes}
use bearssl.Record.Chapol.{ChapolContext, Poly, gen_chapol_init, chapol_decrypt, chapol_encrypt}
use bearssl.Record.Chapol.Laws.{IsPoly, chapol_decrypt-encrypt}
use bearssl.Record.Gcm.{GcmCalls, GcmContext, gen_gcm_init, gcm_decrypt, gcm_encrypt}
use bearssl.Record.Gcm.Laws.{IsGcm, gcm_decrypt-encrypt}

abbrev pub chapol_from : Keys → ChapolContext
chapol_from keys = gen_chapol_init keys.cipher_key keys.iv

abbrev pub gcm_from : (I : GcmCalls) → Keys → GcmContext I.Keyed
gcm_from I keys = gen_gcm_init I keys.cipher_key keys.iv

-- With encryption as documented, memory that holds bytes, and room for the header in front of the
-- data, which ends below 2^63: the first record that a peer encrypts with ChaCha20+Poly1305 after its output switch is decrypted
-- by the other peer of the session after its input switch, whichever of them is the client: it
-- yields the plaintext at its place, and the two contexts stay equal for the next record.
pub chapol_channel :
    (ipoly : Poly)
    → IsPoly ipoly
    → (s : Session) (is_client : Bool) (prf_id type version addr n : ℕ) (m : Memory) → 5 ≤ addr
    → addr + n < 2 ^ 63
    → HoldsBytes m
    → let sender = chapol_from (chapol_out_keys s is_client prf_id) in
      let receiver = chapol_from (chapol_in_keys s (not is_client) prf_id) in
      let (buf, len, sender1, m1) = chapol_encrypt ipoly sender type version addr n m in
      let (plain, receiver1, m2) =
        chapol_decrypt ipoly receiver type version (buf + 5) (len - 5) m1 in
      (plain ≡ some (addr, n))
      × (receiver1 ≡ sender1)
      × (read_bytes m2 addr n ≡ read_bytes m addr n)
chapol_channel ipoly law s is_client prf_id type version addr n m low small bytes =
    rw (mirrored_chapol s is_client prf_id) (
      chapol_decrypt-encrypt ipoly law (chapol_from (chapol_out_keys s is_client prf_id)) type
        version addr n m low small bytes)

-- With CTR mode and GHASH as documented, and room for the header and the nonce in front of the data,
-- which ends below 2^63: the first record that a peer encrypts with GCM after its output switch, with a key of any length,
-- is decrypted by the other peer of the session after its input switch, whichever of them is the
-- client: it yields the plaintext at its place, and the two contexts stay equal for the next record.
pub gcm_channel :
    (I : GcmCalls)
    → IsGcm I
    → (s : Session) (is_client : Bool) (prf_id key_len type version addr n : ℕ) (m : Memory)
    → 13 ≤ addr
    → addr + n < 2 ^ 63
    → let sender = gcm_from I (gcm_out_keys s is_client prf_id key_len) in
      let receiver = gcm_from I (gcm_in_keys s (not is_client) prf_id key_len) in
      let (buf, len, sender1, m1) = gcm_encrypt I sender type version addr n m in
      let (plain, receiver1, m2) = gcm_decrypt I receiver type version (buf + 5) (len - 5) m1 in
      (plain ≡ some (addr, n))
      × (receiver1 ≡ sender1)
      × (read_bytes m2 addr n ≡ read_bytes m addr n)
gcm_channel I law s is_client prf_id key_len type version addr n m low small =
    rw (mirrored_gcm s is_client prf_id key_len) (
      gcm_decrypt-encrypt I law (gcm_from I (gcm_out_keys s is_client prf_id key_len)) type version
        addr n m low small)
