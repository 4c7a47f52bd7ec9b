-- ===== src/Engine/Run.antt =====
-- What happens to an engine of src/ssl/ssl_engine.c, step by step: the calls that move bytes, the
-- switches to new keys, the resets, and what the handshake processor and the application change.
pub mod Steps
pub mod Live
use bearssl.Common.{ℕ, ◌+◌, ◌≤◌, ◌<◌, ◌≡◌, ◌⊎◌, Bool, true, false}
use bearssl.Engine.State.{Memory, RecordLayer, Engine, protected}
use bearssl.Engine.Buffers.{is_failed, fail, new_max_frag_len, engine_clearbuf}
use bearssl.Engine.Receive.Outputs.{output_view}
use bearssl.Engine.Send.Inputs.{input_view}
use bearssl.Engine.Receive.{recvrec_buf, recvrec_ack, recvpld_buf, recvpld_ack}
use bearssl.Engine.Receive.Ack.{HoldsBytes}
use bearssl.Engine.Receive.Registers.{AtHeader, HasPayload}
use bearssl.Engine.Send.{sendpld_buf, sendpld_flush, sendpld_ack, sendrec_buf, sendrec_ack}
use bearssl.Engine.Send.Registers.{IsDraining}

module _ (R : RecordLayer) where
  -- What the input side of a switch to a new protection does: the end of
  -- `br_ssl_engine_switch_cbc_in`, `br_ssl_engine_switch_gcm_in` and `br_ssl_engine_switch_chapol_in`.
  pub switch_in : Engine R → R.In → Engine R
  switch_in rc ctx = record rc { record_in = ctx; incrypt = true }

  -- The end of the output side.
  pub switch_out : Engine R → R.Out → Engine R
  switch_out rc ctx = record rc { record_out = protected ctx }

  -- Between two records, or at the end of one: all of it was received. The handshake processor
  -- switches the input when it has read the one byte of a ChangeCipherSpec, which `jump_handshake`
  -- acknowledges only later, and has seen that no more bytes of that record are to come.
  abbrev pub AtRecordEnd : Engine R → Type 0
  AtRecordEnd rc = AtHeader R rc ⊎ (HasPayload R rc × (rc.ixc ≡ 0))

  -- One step. The caller may write any bytes to memory before it acknowledges, and acknowledges at
  -- most what was offered. Input is switched at the end of a record, output once the flush has made
  -- a record. `clear_buffers` is the first call of `br_ssl_engine_hs_reset`. The handshake processor,
  -- the application and `br_ssl_engine_close` may change whatever is not a register of either side,
  -- nor the mode, as `other_fields`; what they do to the registers is made of the other steps.
  pub data Step (rc : Engine R) : Engine R → Type 0 where
    receive :
        (m : Memory) (len : ℕ)
        → HoldsBytes m
        → 0 < len
        → len ≤ (recvrec_buf R rc).1
        → Step rc (recvrec_ack R (record rc { mem = m }) len)
    read : (len : ℕ) → 0 < len → len ≤ (recvpld_buf R rc).1 → Step rc (recvpld_ack R rc len)
    write :
        (m : Memory) (len : ℕ)
        → HoldsBytes m
        → 0 < len
        → len ≤ (sendpld_buf R rc).1
        → Step rc (sendpld_ack R (record rc { mem = m }) len)
    flush_data : (force : Bool) → is_failed rc.iomode ≡ false → Step rc (sendpld_flush R rc force)
    send : (len : ℕ) → 0 < len → len ≤ (sendrec_buf R rc).1 → Step rc (sendrec_ack R rc len)
    new_input :
        (ctx : R.In) → is_failed rc.iomode ≡ false → AtRecordEnd rc → Step rc (switch_in rc ctx)
    new_limit : (len : ℕ) → 0 < len → len ≤ 16384 → Step rc (new_max_frag_len R rc len)
    clear_buffers : Step rc (engine_clearbuf R rc)
    give_up : (err : ℕ) → Step rc (fail R rc err)
    other_fields :
        (rc' : Engine R)
        → rc'.iomode ≡ rc.iomode
        → input_view R rc' ≡ input_view R rc
        → output_view R rc' ≡ output_view R rc
        → HoldsBytes rc'.mem
        → Step rc rc'
    new_output :
        (ctx : R.Out) → is_failed rc.iomode ≡ false → IsDraining R rc → Step rc (switch_out rc ctx)

  pub data Reach (rc : Engine R) : Engine R → Type 0 where
    here : Reach rc rc
    next : {rc1 rc2 : Engine R} → Reach rc rc1 → Step rc1 rc2 → Reach rc rc2
