-- ===== src/Engine/Send/Laws.antt =====
-- The sending calls keep the invariant, make progress, and stay inside the output buffer.
use bearssl.Common.{
  ℕ, ◌+◌, ◌≤◌, ◌<◌, ◌≡◌, ◌⊎◌, refl, arith, Bool, true, false, inl, inr, ◌&&◌, ◌==◌, if◌then◌else◌,
  Bool-cases, eq→==,
}
use bearssl.Engine.State.{IoMode, io_out, size_sub, size_add, RecordLayer, Engine}
use bearssl.Engine.Receive.{is_inout}
use bearssl.Engine.Send.{
  can_write, sendpld_buf, sendpld_flush, sendpld_ack, sendrec_buf, sendrec_ack,
}
use bearssl.Engine.Send.Registers.{
  Protects, IsSending, IsDraining, area-bounds, make_ready_out-IsSending, flushed,
}

module _ (R : RecordLayer) (law : Protects R) where
  -- Under the invariant an engine in output mode takes payload bytes, or offers record bytes, and
  -- never both; and what it offers lies inside the output buffer.
  pub sending_never_stuck :
      (rc : Engine R)
      → IsSending R rc
      → can_write rc.iomode ≡ true
      → ((0 < (sendpld_buf R rc).1)
          × ((sendrec_buf R rc).1 ≡ 0)
          × (rc.obuf ≤ (sendpld_buf R rc).0)
          × ((sendpld_buf R rc).0 + (sendpld_buf R rc).1 ≤ rc.obuf + rc.obuf_len))
        ⊎ (((sendpld_buf R rc).1 ≡ 0)
            × (0 < (sendrec_buf R rc).1)
            × (rc.obuf ≤ (sendrec_buf R rc).0)
            × ((sendrec_buf R rc).0 + (sendrec_buf R rc).1 ≤ rc.obuf + rc.obuf_len))
  unfolding sendpld_buf sendrec_buf
  sending_never_stuck rc inv mode = ground (arith, area-bounds R law rc.record_out rc.obuf_len)

  flush_draining : (rc : Engine R) (force : Bool) → rc.oxa ≡ rc.oxb → sendpld_flush R rc force ≡ rc
  unfolding sendpld_flush
  flush_draining rc force e = rw (eq→== rc.oxa rc.oxb e)

  flush_empty :
      (rc : Engine R) (force : Bool)
      → rc.oxa ≡ rc.oxc
      → force ≡ false
      → sendpld_flush R rc force ≡ rc
  unfolding sendpld_flush
  flush_empty rc force e plain = elim (Bool-cases (rc.oxa == rc.oxb)) [
    | inl same ↦ rw same
    | inr other ↦ rw (other, plain, eq→== (size_sub rc.oxa rc.oxc) 0 (omega arith))
  ]

  empty_or_not :
      (rc : Engine R) (force : Bool)
      → rc.oxc ≤ rc.oxa
      → ((rc.oxa ≡ rc.oxc) × (force ≡ false)) ⊎ ((rc.oxc < rc.oxa) ⊎ (force ≡ true))
  empty_or_not rc true h = inr (inr refl)
  empty_or_not rc false h = ground arith

  -- `sendpld_flush` of an engine in the invariant keeps it. Gathered payload becomes a record to
  -- send, and with `force` an empty record is made too.
  pub sendpld_flush-IsSending :
      (rc : Engine R) (force : Bool)
      → IsSending R rc
      → IsSending R (sendpld_flush R rc force)
        × (IsDraining R (sendpld_flush R rc force) ⊎ ((rc.oxa ≡ rc.oxc) × (force ≡ false)))
  sendpld_flush-IsSending rc force inv = elim inv.phase [
    | inr d ↦ rw (flush_draining rc force d.0) (inv, inl d)
    | inl f ↦ elim (empty_or_not rc force f.1) [
      | inl e ↦ rw (flush_empty rc force e.0 e.1) (inv, inr e)
      | inr data_there ↦
          let made =
            flushed R law rc force inv.room inv.no_wrap inv.fragment.0 inv.fragment.1 f.0 f.1
              (omega arith) (omega arith) data_there in
          (made.0, inl made.1)
    ]
  ]

  -- `sendpld_ack` of payload bytes that were offered keeps the invariant, and a full area is made
  -- into a record at once.
  pub sendpld_ack-IsSending :
      (rc : Engine R) (len : ℕ)
      → IsSending R rc
      → 0 < len
      → len ≤ (sendpld_buf R rc).1
      → IsSending R (sendpld_ack R rc len)
        × ((rc.oxa + len < rc.oxb) ⊎ IsDraining R (sendpld_ack R rc len))
  unfolding sendpld_buf sendpld_ack
  sendpld_ack-IsSending rc len inv pos offered = ground (
    arith,
    area-bounds R law rc.record_out rc.obuf_len,
    flushed R law
        (record rc {
          iomode = mode;
          oxa = size_add rc.oxa len;
          oxb = size_add (size_add rc.oxa len) 1;
        })
        false,
  )
    where
      mode : IoMode
      mode = if is_inout rc.iomode && rc.ibuf == rc.obuf then io_out else rc.iomode

  -- `sendrec_ack` of record bytes that were offered keeps the invariant; when the last one is gone
  -- the engine gathers payload again.
  pub sendrec_ack-IsSending :
      (rc : Engine R) (len : ℕ)
      → IsSending R rc
      → 0 < len
      → len ≤ (sendrec_buf R rc).1
      → IsSending R (sendrec_ack R rc len)
  unfolding sendrec_buf sendrec_ack
  sendrec_ack-IsSending rc len inv pos offered = ground (
    arith,
    make_ready_out-IsSending R law
        (record rc { oxa = size_add rc.oxa len; oxb = size_add rc.oxa len }),
  )
