-- ===== src/Engine/Api/States.antt =====
-- What the state flags tell the caller, and which calls keep data of the wrong kind out.
use bearssl.Common.{◌≡◌, ◌⊎◌, arith, false, not, ◌&&◌, ◌||◌}
use bearssl.Engine.State.{RecordLayer, Engine, null}
use bearssl.Engine.Buffers.{is_failed}
use bearssl.Engine.Receive.{recvpld_buf, recvrec_buf}
use bearssl.Engine.Receive.Registers.{IsReceiving}
use bearssl.Engine.Send.{sendpld_buf, sendrec_buf}
use bearssl.Engine.Send.Registers.{IsSending}
use bearssl.Engine.Api.{current_state}

module _ (R : RecordLayer) where
  recv_exclusive :
      (cc : Engine R)
      → IsReceiving R cc
      → ((recvrec_buf R cc).0 ≡ null) ⊎ ((recvpld_buf R cc).0 ≡ null)
  unfolding recvrec_buf recvpld_buf
  recv_exclusive cc inn = ground arith

  send_exclusive :
      (cc : Engine R)
      → IsSending R cc
      → ((sendrec_buf R cc).0 ≡ null) ⊎ ((sendpld_buf R cc).0 ≡ null)
  unfolding sendrec_buf sendpld_buf
  send_exclusive cc out = ground arith

  -- The flags of an engine in the invariants: CLOSED says that the engine has failed, and then no
  -- other flag is set; the caller never sees SENDREC with SENDAPP, nor RECVREC with RECVAPP; and
  -- the application flags are not set before application data is accepted.
  pub current_state-exclusive :
      (cc : Engine R)
      → IsReceiving R cc
      → IsSending R cc
      → ((current_state R cc).is_closed ≡ is_failed cc.iomode)
        × (((current_state R cc).sendrec && (current_state R cc).sendapp) ≡ false)
        × (((current_state R cc).recvrec && (current_state R cc).recvapp) ≡ false)
        × (((current_state R cc).is_closed && (current_state R cc).sendrec) ≡ false)
        × (((current_state R cc).is_closed && (current_state R cc).recvrec) ≡ false)
        × (((current_state R cc).is_closed && (current_state R cc).sendapp) ≡ false)
        × (((current_state R cc).is_closed && (current_state R cc).recvapp) ≡ false)
        × ((((current_state R cc).sendapp || (current_state R cc).recvapp)
              && not cc.application_data)
            ≡ false)
  unfolding current_state
  current_state-exclusive cc inn out =
      let inward = recv_exclusive cc inn in
      let outward = send_exclusive cc out in
      (
        ground arith,
        ground arith,
        ground arith,
        ground arith,
        ground arith,
        ground arith,
        ground arith,
        ground arith,
      )
