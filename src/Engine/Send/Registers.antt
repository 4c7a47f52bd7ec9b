-- ===== src/Engine/Send/Registers.antt =====
-- The invariant on `oxa`, `oxb` and `oxc`, and what the sending calls do under it.
use bearssl.Common.{ℕ, ◌+◌, ◌-◌, ◌^◌, ◌≤◌, ◌<◌, ◌≡◌, ◌≢◌, ◌⊎◌, arith, Bool, true}
use bearssl.Engine.State.{Memory, RecordLayer, OutMode, clear, protected, Engine}
use bearssl.Engine.Buffers.{max_plaintext, make_ready_out, clear_encrypt}
use bearssl.Engine.Send.{sendpld_flush, encrypt}

-- What the record protection promises: `max_plaintext` leaves a non-empty area behind the header,
-- and a record made of plaintext in that area fits in the output buffer.
pub record Protects (R : RecordLayer) : Type 0 where
  pub area :
      (c : R.Out) (len : ℕ)
      → 597 ≤ len
      → len < 2 ^ 63
      → (5 ≤ (R.max_plaintext c 5 (len - 5)).0)
        × ((R.max_plaintext c 5 (len - 5)).0 < (R.max_plaintext c 5 (len - 5)).1)
        × ((R.max_plaintext c 5 (len - 5)).1 ≤ len)
  pub fits :
      (c : R.Out) (type version obuf len n : ℕ) (m : Memory)
      → 597 ≤ len
      → obuf + len < 2 ^ 62
      → (R.max_plaintext c 5 (len - 5)).0 + n ≤ (R.max_plaintext c 5 (len - 5)).1
      → let (p, k, c', m') =
          R.encrypt c type version (obuf + (R.max_plaintext c 5 (len - 5)).0) n m in
        (obuf ≤ p) × (0 < k) × (p + k ≤ obuf + len)

module _ (R : RecordLayer) where
  -- The area for plaintext in the output buffer.
  abbrev pub area_of : Engine R → ℕ × ℕ
  area_of rc = max_plaintext R rc.record_out 5 (rc.obuf_len - 5)

  -- Payload is gathered, from `oxc` up to `oxa`.
  abbrev pub IsFilling : Engine R → Type 0
  IsFilling rc =
      (rc.oxc ≡ (area_of rc).0) × (rc.oxc ≤ rc.oxa) × (rc.oxa < rc.oxb) × (rc.oxb ≤ (area_of rc).1)

  -- A record is sent, from `oxa` up to `oxc`.
  abbrev pub IsDraining : Engine R → Type 0
  IsDraining rc = (rc.oxa ≡ rc.oxb) × (rc.oxa < rc.oxc) × (rc.oxc ≤ rc.obuf_len)

  pub record IsSending (rc : Engine R) : Type 0 where
    pub room : 512 + 85 ≤ rc.obuf_len
    pub no_wrap : rc.obuf + rc.obuf_len < 2 ^ 62
    pub fragment : (0 < rc.max_frag_len) × (rc.max_frag_len ≤ 16384)
    pub phase : IsFilling rc ⊎ IsDraining rc

  module _ (law : Protects R) where
    pub area-bounds :
        (out : OutMode R.Out) (len : ℕ)
        → 597 ≤ len
        → len < 2 ^ 63
        → (5 ≤ (max_plaintext R out 5 (len - 5)).0)
          × ((max_plaintext R out 5 (len - 5)).0 < (max_plaintext R out 5 (len - 5)).1)
          × ((max_plaintext R out 5 (len - 5)).1 ≤ len)
    unfolding max_plaintext
    area-bounds clear len room small = ground arith
    area-bounds (protected c) len room small = law.area c len room small

    encrypt-fits :
        (out : OutMode R.Out) (type version obuf len n : ℕ) (m : Memory)
        → 597 ≤ len
        → obuf + len < 2 ^ 62
        → (max_plaintext R out 5 (len - 5)).0 + n ≤ (max_plaintext R out 5 (len - 5)).1
        → let (p, k, c', m') =
            encrypt R out type version (obuf + (max_plaintext R out 5 (len - 5)).0) n m in
          (obuf ≤ p) × (0 < k) × (p + k ≤ obuf + len)
    unfolding max_plaintext encrypt clear_encrypt
    encrypt-fits clear type version obuf len n m room small h = ground arith
    encrypt-fits (protected c) type version obuf len n m room small h =
        law.fits c type version obuf len n m room small h

    pub make_ready_out-IsSending :
        (rc : Engine R)
        → 597 ≤ rc.obuf_len
        → rc.obuf + rc.obuf_len < 2 ^ 62
        → 0 < rc.max_frag_len
        → rc.max_frag_len ≤ 16384
        → IsSending (make_ready_out R rc)
    unfolding make_ready_out
    make_ready_out-IsSending rc room wrap least most =
        ground (arith, area-bounds rc.record_out rc.obuf_len)

    -- A record is made of the plaintext from `oxc` to `oxa`, whatever `oxb` is.
    pub flushed :
        (rc : Engine R) (force : Bool)
        → 597 ≤ rc.obuf_len
        → rc.obuf + rc.obuf_len < 2 ^ 62
        → 0 < rc.max_frag_len
        → rc.max_frag_len ≤ 16384
        → rc.oxc ≡ (area_of rc).0
        → rc.oxc ≤ rc.oxa
        → rc.oxa ≤ (area_of rc).1
        → rc.oxa ≢ rc.oxb
        → ((rc.oxc < rc.oxa) ⊎ (force ≡ true))
        → IsSending (sendpld_flush R rc force) × IsDraining (sendpld_flush R rc force)
    unfolding sendpld_flush
    flushed rc force room wrap least most start low high ne some_data = ground (
      arith,
      area-bounds rc.record_out rc.obuf_len,
      encrypt-fits rc.record_out rc.record_type_out rc.version_out rc.obuf rc.obuf_len
          (rc.oxa - rc.oxc) rc.mem,
    )
