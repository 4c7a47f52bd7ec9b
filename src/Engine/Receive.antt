-- ===== src/Engine/Receive.antt =====
-- The receiving side of src/ssl/ssl_engine.c: record bytes in from the transport, payload out.
pub mod Registers
pub mod Ack
pub mod Outputs
use bearssl.Common.{
  ℕ, ◌+◌, ◌-◌, ◌*◌, ◌/◌, ◌%◌, ◌^◌, Bool, true, false, not, ◌&&◌, ◌||◌, ltb, leb, ◌==◌,
  if◌then◌else◌, Option, none, some, List, [], ◌∷◌, ◌>>>◌,
}
use bearssl.Codec.{dec16be}
use bearssl.Engine.Err
use bearssl.Engine.State.{
  IoMode, failed, io_in, io_out, inout, size_add, size_sub, Memory, null, RecordLayer, EngineState,
  Engine,
}
use bearssl.Engine.Buffers.{fail, make_ready_in}

abbrev pub is_inout : IoMode → Bool
is_inout inout = true
is_inout failed = false
is_inout io_in = false
is_inout io_out = false

-- BR_IO_IN or BR_IO_INOUT
abbrev pub can_read : IoMode → Bool
can_read io_in = true
can_read inout = true
can_read failed = false
can_read io_out = false

-- `br_dec16be` at an address
unfoldable pub dec16be_at : Memory → ℕ → ℕ
dec16be_at m p = dec16be (m p ∷ m (size_add p 1) ∷ [])

module _ (R : RecordLayer) where
  -- `recvrec_buf`: an address and a length
  unfoldable pub recvrec_buf : Engine R → ℕ × ℕ
  recvrec_buf rc =
      if rc.shutdown_recv
      then (null, 0)
      else if can_read rc.iomode && rc.ixa == rc.ixb
      then (let room = size_sub rc.ibuf_len rc.ixa in
          (size_add rc.ibuf rc.ixa, (if ltb room rc.ixc then room else rc.ixc)))
      else (null, 0)

  -- The part of `recvrec_ack` that processes a full header, at `ixa == 5`.
  unfoldable pub take_header : Engine R → Engine R
  take_header rc0 =
      let rc1 = record rc0 { record_type_in = rc0.mem rc0.ibuf } in
      let version = dec16be_at rc1.mem (size_add rc1.ibuf 1) in
      if not (version >>> 8 == 3)
      then fail R rc1 Err.unsupported_version
      else if not (rc1.version_in == 0) && not (rc1.version_in == version)
      then fail R rc1 Err.bad_version
      else (let rc = record rc1 { version_in = version } in
          let rlen = dec16be_at rc.mem (size_add rc.ibuf 3) in
          let start =
            if rlen == 0 then make_ready_in R rc else record rc { ixa = 5; ixb = 5; ixc = rlen } in
          if rc.incrypt
          then (if not (R.check_length rc.record_in rlen)
              then fail R rc Err.bad_length
              else if ltb (size_sub rc.ibuf_len 5) rlen
              then fail R rc Err.too_large
              else start)
          else if ltb 16384 rlen
          then fail R rc Err.bad_length
          else start)

  -- What follows the call of `decrypt`; the buffer is an address and a length.
  pub after_decrypt : Engine R → Option (ℕ × ℕ) → R.In → Memory → Engine R
  after_decrypt rc0 none ctx mem = fail R (record rc0 { record_in = ctx; mem = mem }) Err.bad_mac
  after_decrypt rc0 (some (pbuf, pbuf_len)) ctx mem =
      let a = size_sub pbuf rc0.ibuf in
      let rc = record rc0 { record_in = ctx; mem = mem; ixa = a; ixb = size_add a pbuf_len } in
      if rc.ixa == rc.ixb then make_ready_in R rc else rc

  -- the end of `recvrec_ack`, with a full protected record
  pub take_record : Engine R → Engine R
  unfolding after_decrypt
  take_record rc =
      let (plain, ctx, mem) =
        R.decrypt rc.record_in rc.record_type_in rc.version_in (size_add rc.ibuf 5)
          (size_sub rc.ixa 5) rc.mem in
      after_decrypt rc plain ctx mem

  -- `recvrec_ack` once the registers have moved
  pub received : Engine R → Engine R
  unfolding take_header take_record
  received rc =
      if ltb rc.ixa 5
      then rc
      else if rc.ixa == 5
      then take_header rc
      else if not rc.incrypt
      then record rc { ixa = 5 }
      else if not (rc.ixc == 0)
      then rc
      else take_record rc

  -- the first assignments of `recvrec_ack`
  unfoldable pub advance_in : Engine R → ℕ → Engine R
  advance_in rc len =
      let mode = if is_inout rc.iomode && rc.ibuf == rc.obuf then io_in else rc.iomode in
      record rc {
        iomode = mode;
        ixa = size_add rc.ixa len;
        ixb = size_add rc.ixa len;
        ixc = size_sub rc.ixc len;
      }

  -- `recvrec_ack`
  unfoldable pub recvrec_ack : Engine R → ℕ → Engine R
  unfolding advance_in received
  recvrec_ack rc len = received (advance_in rc len)

  -- `br_ssl_engine_recvrec_finished`
  unfoldable pub recvrec_finished : Engine R → Bool
  recvrec_finished rc = if can_read rc.iomode then rc.ixc == 0 || ltb rc.ixa 5 else true

  -- `recvpld_buf`
  unfoldable pub recvpld_buf : Engine R → ℕ × ℕ
  recvpld_buf rc =
      if can_read rc.iomode
      then (let len = size_sub rc.ixb rc.ixa in
          ((if len == 0 then null else size_add rc.ibuf rc.ixa), len))
      else (null, 0)

  -- `recvpld_ack`
  unfoldable pub recvpld_ack : Engine R → ℕ → Engine R
  recvpld_ack rc0 len =
      let rc = record rc0 { ixa = size_add rc0.ixa len } in
      if rc.ixa == rc.ixb
      then if rc.ixc == 0 then make_ready_in R rc else record rc { ixa = 5; ixb = 5 }
      else rc
