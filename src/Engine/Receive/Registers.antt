-- ===== src/Engine/Receive/Registers.antt =====
-- The invariant on `ixa`, `ixb` and `ixc`, and what the receiving calls offer under it.
use bearssl.Common.{ℕ, ◌+◌, ◌-◌, ◌^◌, ◌≤◌, ◌<◌, ◌≡◌, ◌⊎◌, arith, true, false, if◌then◌else◌}
use bearssl.Engine.State.{RecordLayer, Engine}
use bearssl.Engine.Receive.{can_read, recvrec_buf, recvpld_buf, recvpld_ack}
use bearssl.Engine.Buffers.{make_ready_in}

module _ (R : RecordLayer) where
  -- The header is being received.
  abbrev pub AtHeader : Engine R → Type 0
  AtHeader rc = (rc.ixa ≡ rc.ixb) × (rc.ixa < 5) × (rc.ixa + rc.ixc ≡ 5)

  -- The length of the record that is being received is that of the header, and was accepted.
  abbrev pub IsAccepted : Engine R → Type 0
  IsAccepted rc =
      (rc.ixa - 5 + rc.ixc < 2 ^ 16)
      × ((if rc.incrypt then R.check_length rc.record_in (rc.ixa - 5 + rc.ixc) else true) ≡ true)

  -- More bytes of the record are expected: with encryption they fit in the buffer, and without
  -- they go to its start.
  abbrev pub IsWaiting : Engine R → Type 0
  IsWaiting rc =
      (rc.ixa ≡ rc.ixb)
      × (5 ≤ rc.ixa)
      × (0 < rc.ixc)
      × (rc.ixa + (if rc.incrypt then rc.ixc else 1) ≤ rc.ibuf_len)
      × ((if rc.incrypt then 5 else rc.ixa) ≡ 5)
      × IsAccepted rc

  -- Payload bytes are there; an encrypted record is then complete.
  abbrev pub HasPayload : Engine R → Type 0
  HasPayload rc =
      (5 ≤ rc.ixa)
      × (rc.ixa < rc.ixb)
      × (rc.ixb ≤ rc.ibuf_len)
      × ((if rc.incrypt then rc.ixc else 0) ≡ 0)

  pub record IsReceiving (rc : Engine R) : Type 0 where
    pub room : 512 + 325 ≤ rc.ibuf_len
    pub no_wrap : rc.ibuf + rc.ibuf_len < 2 ^ 63
    pub left : rc.ixc < 2 ^ 16
    pub phase : AtHeader rc ⊎ IsWaiting rc ⊎ HasPayload rc

  -- Under the invariant an engine in input mode that was not shut down takes record bytes, or
  -- yields payload bytes, and never both. So receiving cannot get stuck on a full buffer.
  pub receiving_never_stuck :
      (rc : Engine R)
      → IsReceiving rc
      → can_read rc.iomode ≡ true
      → rc.shutdown_recv ≡ false
      → ((0 < (recvrec_buf R rc).1) × ((recvpld_buf R rc).1 ≡ 0))
        ⊎ (((recvrec_buf R rc).1 ≡ 0) × (0 < (recvpld_buf R rc).1))
  unfolding recvrec_buf recvpld_buf
  receiving_never_stuck rc inv mode open' = ground arith

  -- What the two calls offer lies inside the input buffer.
  pub receiving_in_bounds :
      (rc : Engine R)
      → IsReceiving rc
      → (((recvrec_buf R rc).1 ≡ 0)
          ⊎ ((rc.ibuf ≤ (recvrec_buf R rc).0)
              × ((recvrec_buf R rc).0 + (recvrec_buf R rc).1 ≤ rc.ibuf + rc.ibuf_len)))
        × (((recvpld_buf R rc).1 ≡ 0)
            ⊎ ((rc.ibuf ≤ (recvpld_buf R rc).0)
                × ((recvpld_buf R rc).0 + (recvpld_buf R rc).1 ≤ rc.ibuf + rc.ibuf_len)))
  unfolding recvrec_buf recvpld_buf
  receiving_in_bounds rc inv = (ground arith, ground arith)

  -- `recvpld_ack` of payload bytes that were offered keeps the invariant.
  pub recvpld_ack-IsReceiving :
      (rc : Engine R) (len : ℕ)
      → IsReceiving rc
      → 0 < len
      → len ≤ (recvpld_buf R rc).1
      → IsReceiving (recvpld_ack R rc len)
  unfolding recvpld_buf recvpld_ack make_ready_in
  recvpld_ack-IsReceiving rc len inv pos offered = ground arith
