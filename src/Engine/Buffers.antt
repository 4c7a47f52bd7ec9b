-- ===== src/Engine/Buffers.antt =====
-- Failing, and setting up the buffers and the registers of src/ssl/ssl_engine.c.
pub mod Laws
pub mod Split
use bearssl.Common.{
  ℕ, zero, suc, ◌+◌, ◌-◌, ◌*◌, ◌%◌, ◌^◌, Bool, true, false, ◌&&◌, ltb, leb, ◌==◌, if◌then◌else◌,
}
use bearssl.Codec.{enc16be, byte_at}
use bearssl.Engine.Err
use bearssl.Engine.State.{
  IoMode, failed, io_in, io_out, inout, size_add, size_sub, Memory, null, RecordLayer, OutMode,
  clear, protected, EngineState, Engine,
}
use mathlib.Core.List.{List, [], ◌∷◌}

-- MAX_OUT_OVERHEAD and MAX_IN_OVERHEAD
abbrev pub max_out_overhead : ℕ
max_out_overhead = 85

abbrev pub max_in_overhead : ℕ
max_in_overhead = 325

abbrev pub is_failed : IoMode → Bool
is_failed failed = true
is_failed io_in = false
is_failed io_out = false
is_failed inout = false

-- a write of bytes at an address
abbrev pub write_bytes : Memory → ℕ → List ℕ → Memory
write_bytes m p [] = m
write_bytes m p (b ∷ bs) = write_bytes (λ q. if q == p then b else m q) (p + 1) bs

-- `clear_max_plaintext`
unfoldable pub clear_max_plaintext : ℕ → ℕ → ℕ × ℕ
clear_max_plaintext start end =
    if ltb 16384 (size_sub end start) then (start, size_add start 16384) else (start, end)

-- `clear_encrypt`: the header goes into the five bytes before the data.
unfoldable pub clear_encrypt : ℕ → ℕ → ℕ → ℕ → Memory → ℕ × ℕ × Memory
unfolding enc16be
clear_encrypt record_type version addr len m =
    let buf = size_sub addr 5 in
    let m1 = write_bytes m buf (record_type % 256 ∷ []) in
    let m2 = write_bytes m1 (buf + 1) (enc16be version) in
    let m3 = write_bytes m2 (buf + 3) (enc16be len) in (buf, size_add len 5, m3)

-- The search of `br_ssl_engine_set_buffers_bidi` for the exponent `u = k + 8`, down from 14;
-- 8 if none fits.
pub frag_log : ℕ → ℕ → ℕ → ℕ
frag_log zero ilen olen = 8
frag_log (suc k) ilen olen =
    let rest = frag_log k ilen olen in
    if leb (2 ^ (k + 9) + max_out_overhead) olen && leb (2 ^ (k + 9) + max_in_overhead) ilen
    then k + 9
    else rest

-- The split of `br_ssl_engine_set_buffer`: the length `w` of the output part.
pub output_part : ℕ → ℕ
output_part buf_len =
    if ltb buf_len (16384 + max_in_overhead + 512 + max_out_overhead)
    then 512 + max_out_overhead
    else size_sub buf_len (16384 + max_in_overhead)

module _ (R : RecordLayer) where
  -- `br_ssl_engine_fail`
  unfoldable pub fail : Engine R → ℕ → Engine R
  fail rc err = if is_failed rc.iomode then rc else record rc { iomode = failed; err = err }

  abbrev pub leave_in : IoMode → IoMode
  leave_in io_in = inout
  leave_in failed = failed
  leave_in io_out = io_out
  leave_in inout = inout

  abbrev pub leave_out : IoMode → IoMode
  leave_out io_out = inout
  leave_out failed = failed
  leave_out io_in = io_in
  leave_out inout = inout

  -- `make_ready_in`
  unfoldable pub make_ready_in : Engine R → Engine R
  make_ready_in rc = record rc { ixa = 0; ixb = 0; ixc = 5; iomode = leave_in rc.iomode }

  -- the call through `rc->out.vtable->max_plaintext`
  unfoldable pub max_plaintext : OutMode R.Out → ℕ → ℕ → ℕ × ℕ
  unfolding clear_max_plaintext
  max_plaintext clear a b = clear_max_plaintext a b
  max_plaintext (protected c) a b = R.max_plaintext c a b

  -- `make_ready_out`
  unfoldable pub make_ready_out : Engine R → Engine R
  make_ready_out rc =
      let (a, b) = max_plaintext rc.record_out 5 (size_sub rc.obuf_len 5) in
      let b' = if ltb rc.max_frag_len (size_sub b a) then size_add a rc.max_frag_len else b in
      record rc { oxa = a; oxb = b'; oxc = a; iomode = leave_out rc.iomode }

  -- `br_ssl_engine_new_max_frag_len`
  unfoldable pub new_max_frag_len : Engine R → ℕ → Engine R
  new_max_frag_len rc len =
      let nxb = size_add rc.oxc len in
      if ltb rc.oxa rc.oxb && ltb nxb rc.oxb && ltb rc.oxa nxb
      then record rc { max_frag_len = len; oxb = nxb }
      else record rc { max_frag_len = len }

  -- `engine_clearbuf`
  unfoldable pub engine_clearbuf : Engine R → Engine R
  unfolding make_ready_in make_ready_out
  engine_clearbuf rc = make_ready_out (make_ready_in rc)

  -- the part of `br_ssl_engine_set_buffers_bidi` after the branch on `ibuf`
  pub start_clear : Engine R → Engine R
  start_clear rc = make_ready_out (make_ready_in (record rc { record_out = clear }))

  -- the assignments at its top
  pub reset_state : Engine R → Engine R
  reset_state rc = record rc {
    iomode = inout;
    incrypt = false;
    err = Err.no_error;
    version_in = 0;
    record_type_in = 0;
    version_out = 0;
    record_type_out = 0;
  }

  pub with_frag_log : Engine R → ℕ → Engine R
  with_frag_log rc u = record rc {
    max_frag_len = 2 ^ u;
    log_max_frag_len = u;
    peer_log_max_frag_len = 0;
  }

  -- its branch for new buffers
  pub with_buffers : Engine R → ℕ → ℕ → ℕ → ℕ → Engine R
  with_buffers rc ibuf ilen obuf olen =
      let rc1 = record rc { ibuf = ibuf; ibuf_len = ilen; obuf = obuf; obuf_len = olen } in
      let u = frag_log 6 ilen olen in
      if u == 8
      then fail rc1 Err.bad_param
      else start_clear (with_frag_log rc1 (if u == 13 then 12 else u))

  -- `br_ssl_engine_set_buffers_bidi`
  pub set_buffers_bidi : Engine R → ℕ → ℕ → ℕ → ℕ → Engine R
  unfolding reset_state with_buffers
  set_buffers_bidi rc0 ibuf ibuf_len obuf obuf_len =
      let rc = reset_state rc0 in
      if ibuf == null
      then start_clear (if rc.ibuf == null then fail rc Err.bad_param else rc)
      else if obuf == null
      then with_buffers rc ibuf ibuf_len ibuf ibuf_len
      else with_buffers rc ibuf ibuf_len obuf obuf_len

  -- `br_ssl_engine_set_buffer`
  pub set_buffer : Engine R → ℕ → ℕ → Bool → Engine R
  unfolding set_buffers_bidi output_part
  set_buffer rc buf buf_len bidi =
      if buf == null
      then set_buffers_bidi rc null 0 null 0
      else if bidi
      then (if ltb buf_len (512 + max_in_overhead + 512 + max_out_overhead)
          then record rc { iomode = failed; err = Err.bad_param }
          else (let w = output_part buf_len in
              set_buffers_bidi rc buf (size_sub buf_len w) (size_add buf w) w))
      else set_buffers_bidi rc buf buf_len null 0
