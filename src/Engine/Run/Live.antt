-- ===== src/Engine/Run/Live.antt =====
-- Whatever sequence of steps is made, the registers stay in their invariants, and an engine that
-- has not failed always offers something.
use bearssl.Common.{◌+◌, ◌^◌, ◌<◌, ◌≡◌, ◌⊎◌, arith, inr, true}
use bearssl.Engine.State.{failed, RecordLayer, Engine}
use bearssl.Engine.Buffers.{max_plaintext}
use bearssl.Engine.Buffers.Laws.{IsStarted}
use bearssl.Engine.Receive.{recvrec_buf, recvpld_buf}
use bearssl.Engine.Receive.Ack.{HoldsBytes}
use bearssl.Engine.Receive.Registers.{receiving_never_stuck}
use bearssl.Engine.Send.{sendpld_buf, sendrec_buf}
use bearssl.Engine.Send.Laws.{sending_never_stuck}
use bearssl.Engine.Run.{
  Step, Reach, receive, read, write, flush_data, send, new_input, new_output, new_limit,
  clear_buffers, give_up, other_fields, here, next,
}
use bearssl.Engine.Run.Steps.{
  IsLayer, IsLive, receive-IsLive, read-IsLive, write-IsLive, flush-IsLive, send-IsLive,
  new_input-IsLive, new_output-IsLive, new_limit-IsLive, clear_buffers-IsLive, give_up-IsLive,
  other_fields-IsLive,
}

module _ (R : RecordLayer) (law : IsLayer R) where
  pub Step-IsLive : {rc rc' : Engine R} → Step R rc rc' → IsLive R law rc → IsLive R law rc'
  Step-IsLive (receive m len hm pos le) live = receive-IsLive R law _ m len live hm pos le
  Step-IsLive (read len pos le) live = read-IsLive R law _ len live pos le
  Step-IsLive (write m len hm pos le) live = write-IsLive R law _ m len live hm pos le
  Step-IsLive (flush_data force open') live = flush-IsLive R law _ force live open'
  Step-IsLive (send len pos le) live = send-IsLive R law _ len live pos le
  Step-IsLive (new_input ctx open' header) live = new_input-IsLive R law _ ctx live open' header
  Step-IsLive (new_limit len pos le) live = new_limit-IsLive R law _ len live pos le
  Step-IsLive clear_buffers live = clear_buffers-IsLive R law _ live
  Step-IsLive (give_up err) live = give_up-IsLive R law _ err live
  Step-IsLive (other_fields rc' mode ins outs bytes) live =
      other_fields-IsLive R law _ rc' live mode ins outs bytes
  Step-IsLive (new_output ctx open' draining) live = new_output-IsLive R law _ ctx live draining

  pub Reach-IsLive : {rc rc' : Engine R} → Reach R rc rc' → IsLive R law rc → IsLive R law rc'
  Reach-IsLive here live = live
  Reach-IsLive (next path step) live = Step-IsLive step (Reach-IsLive path live)

  started-IsLive :
      (rc : Engine R)
      → IsStarted rc
      → rc.ibuf + rc.ibuf_len < 2 ^ 62
      → rc.obuf + rc.obuf_len < 2 ^ 62
      → HoldsBytes rc.mem
      → IsLive R law rc
  unfolding max_plaintext
  started-IsLive rc start ismall osmall bytes = record {
    receiving = inr (ground (arith, start));
    sending = ground (arith, start);
    bytes = bytes;
  }

  -- With a protection as the engine asks for, buffers that end below 2^62, and memory that holds
  -- bytes: from an engine with fresh buffers, any sequence of the steps of Engine/Run leads to an
  -- engine that has failed, or takes record bytes, yields payload, takes payload or offers record
  -- bytes, unless its input side was shut down. The steps are the acknowledgements of bytes that
  -- were offered, the flush, the switch of the input keys at the end of a record and of the
  -- output keys while a record is being sent, a new fragment length, cleared buffers, a failure,
  -- and changes of the fields that are not registers.
  pub Reach-progress :
      (rc rc' : Engine R)
      → IsStarted rc
      → rc.ibuf + rc.ibuf_len < 2 ^ 62
      → rc.obuf + rc.obuf_len < 2 ^ 62
      → HoldsBytes rc.mem
      → Reach R rc rc'
      → (rc'.iomode ≡ failed)
        ⊎ (rc'.shutdown_recv ≡ true)
        ⊎ (0 < (recvrec_buf R rc').1)
        ⊎ (0 < (recvpld_buf R rc').1)
        ⊎ (0 < (sendpld_buf R rc').1)
        ⊎ (0 < (sendrec_buf R rc').1)
  Reach-progress rc rc' start ismall osmall bytes path =
      let live = Reach-IsLive path (started-IsLive rc start ismall osmall bytes) in
      ground (
        arith,
        live.receiving,
        receiving_never_stuck R rc',
        sending_never_stuck R law.protects rc' live.sending,
      )
