-- ===== src/Engine/Api.antt =====
-- The calls of src/ssl/ssl_engine.c that sort records by type and run the handshake processor.
pub mod Handshake
pub mod States
use bearssl.Common.{
  ℕ, zero, suc, ◌+◌, ◌-◌, ◌%◌, ◌^◌, Bool, true, false, not, ◌&&◌, ◌||◌, ltb, leb, ◌==◌,
  if◌then◌else◌, Option, none, some,
}
use bearssl.Engine.Err
use bearssl.Engine.RecordType
use bearssl.Engine.State.{IoMode, failed, size_sub, null, RecordLayer, EngineState, Engine}
use bearssl.Engine.Buffers.{is_failed, fail, engine_clearbuf}
use bearssl.Engine.Receive.{recvrec_buf, recvrec_ack, recvpld_buf, recvpld_ack}
use bearssl.Engine.Send.{
  sendpld_buf, sendpld_ack, sendpld_flush, sendrec_buf, sendrec_ack, has_rec_tosend,
  has_pld_to_send,
}

-- The flags of `br_ssl_engine_current_state`, one for each bit.
pub record Flags : Type 0 where
  pub is_closed : Bool
  pub sendrec : Bool
  pub recvrec : Bool
  pub sendapp : Bool
  pub recvapp : Bool

module _ (R : RecordLayer) where
  -- `br_ssl_engine_closed` of src/inner.h
  abbrev pub closed : Engine R → Bool
  closed cc = is_failed cc.iomode

  -- What `jump_handshake` sets before it runs the processor.
  pub offer_buffers : Engine R → ℕ → Engine R
  offer_buffers cc action =
      let (hin, in_len) = recvpld_buf R cc in
      let (hout, out_len) = sendpld_buf R cc in
      record cc {
        hbuf_in = hin;
        hlen_in =
            (if not (hin == null) && cc.record_type_in == RecordType.application_data
              then 0
              else in_len);
        hbuf_out = hout;
        saved_hbuf_out = hout;
        hlen_out = (if not (hout == null) && has_pld_to_send R cc then 0 else out_len);
        action = action;
      }

  -- The output that the processor produced is acknowledged.
  pub take_output : Engine R → Engine R
  take_output cc =
      if cc.hbuf_out == cc.saved_hbuf_out
      then cc
      else sendpld_ack R cc (size_sub cc.hbuf_out cc.saved_hbuf_out)

  -- `br_ssl_engine_flush_record`
  pub flush_record : Engine R → Engine R
  unfolding take_output
  flush_record cc0 =
      let cc1 = take_output cc0 in
      let cc = if has_pld_to_send R cc1 then sendpld_flush R cc1 false else cc1 in
      let (hout, len) = sendpld_buf R cc in
      record cc { saved_hbuf_out = hout; hbuf_out = hout; hlen_out = len }

  -- `br_ssl_engine_sendapp_buf` and `br_ssl_engine_sendapp_ack`
  pub sendapp_buf : Engine R → ℕ × ℕ
  sendapp_buf cc = if not cc.application_data then (null, 0) else sendpld_buf R cc

  pub sendapp_ack : Engine R → ℕ → Engine R
  sendapp_ack cc len = sendpld_ack R cc len

  -- `br_ssl_engine_recvapp_buf` and `br_ssl_engine_recvapp_ack`
  pub recvapp_buf : Engine R → ℕ × ℕ
  recvapp_buf cc =
      if not cc.application_data || not (cc.record_type_in == RecordType.application_data)
      then (null, 0)
      else recvpld_buf R cc

  pub recvapp_ack : Engine R → ℕ → Engine R
  recvapp_ack cc len = recvpld_ack R cc len

  -- `br_ssl_engine_flush`
  pub flush : Engine R → Bool → Engine R
  flush cc force = if not (closed cc) && cc.application_data then sendpld_flush R cc force else cc

  -- `br_ssl_engine_current_state`
  pub current_state : Engine R → Flags
  unfolding sendapp_buf recvapp_buf
  current_state cc =
      if closed cc
      then record {
        is_closed = true;
        sendrec = false;
        recvrec = false;
        sendapp = false;
        recvapp = false;
      }
      else record {
        is_closed = false;
        sendrec = not ((sendrec_buf R cc).0 == null);
        recvrec = not ((recvrec_buf R cc).0 == null);
        sendapp = not ((sendapp_buf cc).0 == null);
        recvapp = not ((recvapp_buf cc).0 == null);
      }

  -- The handshake processor, generated code that runs as a coroutine, is the argument `hsrun`.
  module _ (hsrun : Engine R → Engine R) where
    -- `jump_handshake`, on fuel: `none` if it runs out.
    pub jump_handshake : ℕ → Engine R → ℕ → Option (Engine R)
    unfolding offer_buffers take_output
    jump_handshake zero cc action = none
    jump_handshake (suc fuel) cc action =
        let offered = offer_buffers cc action in
        let ran = hsrun offered in
        let cc1 = take_output ran in
        let cc2 = recvpld_ack R cc1 (size_sub offered.hlen_in cc1.hlen_in) in
        let again = jump_handshake fuel cc2 0 in
        if closed ran
        then some ran
        else if offered.hlen_in == cc1.hlen_in
        then some cc1
        else if cc2.hlen_in == 0
        then again
        else some cc2

    -- The loop makes at most two rounds: see Engine/Api/Handshake.
    abbrev pub rounds : ℕ
    rounds = 2

    -- `br_ssl_engine_sendrec_ack`
    pub engine_sendrec_ack : Engine R → ℕ → Option (Engine R)
    engine_sendrec_ack cc0 len =
        let cc = sendrec_ack R cc0 len in
        if not (len == 0)
          && not (has_rec_tosend R cc)
          && (not (cc.record_type_out == RecordType.application_data) || not cc.application_data)
        then jump_handshake rounds cc 0
        else some cc

    -- what `br_ssl_engine_recvrec_ack` does with payload of the type of the record
    pub dispatch : Engine R → Option (Engine R)
    dispatch cc =
        if cc.record_type_in == RecordType.change_cipher_spec
          || cc.record_type_in == RecordType.alert
          || cc.record_type_in == RecordType.handshake
        then jump_handshake rounds cc 0
        else if cc.record_type_in == RecordType.application_data && cc.application_data
        then some cc
        else some (fail R cc Err.unexpected)

    -- `br_ssl_engine_recvrec_ack`
    pub engine_recvrec_ack : Engine R → ℕ → Option (Engine R)
    unfolding dispatch
    engine_recvrec_ack cc0 len =
        let cc = recvrec_ack R cc0 len in
        if closed cc then some cc else if (recvpld_buf R cc).0 == null then some cc else dispatch cc

    -- `br_ssl_engine_close`
    pub close : Engine R → Option (Engine R)
    close cc = if closed cc then some cc else jump_handshake rounds cc 1

    -- `br_ssl_engine_renegotiate`: whether it ran, and the engine.
    pub renegotiate : Engine R → Bool × Option (Engine R)
    renegotiate cc =
        if closed cc || cc.reneg == 1 || cc.no_renegotiation
        then (false, some cc)
        else (true, jump_handshake rounds cc 2)

    -- `br_ssl_engine_hs_reset`; `hsinit` sets the processor's state up.
    pub hs_reset : (R.Cpu → R.Cpu) → Engine R → Option (Engine R)
    hs_reset hsinit cc0 =
        let cc = engine_clearbuf R cc0 in
        jump_handshake rounds
          (record cc { cpu = hsinit cc.cpu; shutdown_recv = false; application_data = false }) 0
