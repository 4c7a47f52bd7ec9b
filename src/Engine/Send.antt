-- ===== src/Engine/Send.antt =====
-- The sending side of src/ssl/ssl_engine.c: payload in, record bytes out to the transport.
pub mod Registers
pub mod Laws
pub mod Header
pub mod Inputs
use bearssl.Common.{
  ℕ, ◌+◌, ◌-◌, ◌*◌, ◌/◌, ◌%◌, ◌^◌, Bool, true, false, not, ◌&&◌, ltb, leb, ◌==◌, if◌then◌else◌,
}
use bearssl.Engine.State.{
  IoMode, failed, io_in, io_out, inout, size_add, size_sub, Memory, null, RecordLayer, OutMode,
  clear, protected, EngineState, Engine,
}
use bearssl.Engine.Buffers.{make_ready_out, clear_encrypt}
use bearssl.Engine.Receive.{is_inout}

-- BR_IO_OUT or BR_IO_INOUT
abbrev pub can_write : IoMode → Bool
can_write io_out = true
can_write inout = true
can_write failed = false
can_write io_in = false

module _ (R : RecordLayer) where
  -- `sendpld_buf`
  unfoldable pub sendpld_buf : Engine R → ℕ × ℕ
  sendpld_buf rc =
      if can_write rc.iomode
      then (let len = size_sub rc.oxb rc.oxa in
          ((if len == 0 then null else size_add rc.obuf rc.oxa), len))
      else (null, 0)

  -- the call through `rc->out.vtable->encrypt`
  pub encrypt : OutMode R.Out → ℕ → ℕ → ℕ → ℕ → Memory → ℕ × ℕ × OutMode R.Out × Memory
  encrypt clear record_type version addr len m =
      let (buf, n, m') = clear_encrypt record_type version addr len m in (buf, n, clear, m')
  encrypt (protected c) record_type version addr len m =
      let (buf, n, c', m') = R.encrypt c record_type version addr len m in
      (buf, n, protected c', m')

  -- `sendpld_flush`
  unfoldable pub sendpld_flush : Engine R → Bool → Engine R
  unfolding encrypt
  sendpld_flush rc force =
      let xlen = size_sub rc.oxa rc.oxc in
      if rc.oxa == rc.oxb
      then rc
      else if xlen == 0 && not force
      then rc
      else (let (buf, n, ctx, mem) =
            encrypt rc.record_out rc.record_type_out rc.version_out (size_add rc.obuf rc.oxc) xlen
              rc.mem in
          let a = size_sub buf rc.obuf in
          record rc { record_out = ctx; mem = mem; oxa = a; oxb = a; oxc = size_add a n })

  -- `sendpld_ack`
  unfoldable pub sendpld_ack : Engine R → ℕ → Engine R
  sendpld_ack rc0 len =
      let mode = if is_inout rc0.iomode && rc0.ibuf == rc0.obuf then io_out else rc0.iomode in
      let rc = record rc0 { iomode = mode; oxa = size_add rc0.oxa len } in
      if leb rc.oxb rc.oxa then sendpld_flush (record rc { oxb = size_add rc.oxa 1 }) false else rc

  -- `sendrec_buf`
  unfoldable pub sendrec_buf : Engine R → ℕ × ℕ
  sendrec_buf rc =
      if can_write rc.iomode && ltb rc.oxa rc.oxc
      then (size_add rc.obuf rc.oxa, size_sub rc.oxc rc.oxa)
      else (null, 0)

  -- `sendrec_ack`
  unfoldable pub sendrec_ack : Engine R → ℕ → Engine R
  sendrec_ack rc0 len =
      let rc = record rc0 { oxa = size_add rc0.oxa len; oxb = size_add rc0.oxa len } in
      if rc.oxa == rc.oxc then make_ready_out R rc else rc

  -- `has_rec_tosend`
  unfoldable pub has_rec_tosend : Engine R → Bool
  has_rec_tosend rc = rc.oxa == rc.oxb && not (rc.oxa == rc.oxc)

  -- `br_ssl_engine_has_pld_to_send` of src/inner.h
  unfoldable pub has_pld_to_send : Engine R → Bool
  has_pld_to_send rc = not (rc.oxa == rc.oxb) && not (rc.oxa == rc.oxc)
