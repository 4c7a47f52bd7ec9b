-- ===== src/Engine/Run/Steps.antt =====
-- The invariant on a whole engine, and each step against it.
use bearssl.Common.{ℕ, ◌≤◌, ◌<◌, ◌≡◌, ◌⊎◌, refl, arith, inl, inr, ◌∙◌, Bool-cases, Bool, false}
use bearssl.Engine.State.{failed, Memory, RecordLayer, OutMode, Engine}
use bearssl.Engine.Buffers.{
  is_failed, fail, new_max_frag_len, engine_clearbuf, make_ready_in, make_ready_out,
}
use bearssl.Engine.Receive.{recvrec_buf, recvrec_ack, recvpld_buf, recvpld_ack}
use bearssl.Engine.Receive.Ack.{DecryptsInPlace, HoldsBytes, recvrec_ack_kept}
use bearssl.Engine.Receive.Outputs.{
  output_view, recvrec_ack-view, recvpld_ack-view, recvrec_ack-mem, recvpld_ack-mem,
}
use bearssl.Engine.Receive.Registers.{IsReceiving, recvpld_ack-IsReceiving}
use bearssl.Engine.Send.{encrypt, sendpld_buf, sendpld_flush, sendpld_ack, sendrec_buf, sendrec_ack}
use bearssl.Engine.Send.Inputs.{
  input_view, sendpld_flush-view, sendpld_ack-view, sendrec_ack-view, sendpld_flush-mem,
  sendpld_ack-mem, sendrec_ack-mem, encrypt-lt,
}
use bearssl.Engine.Send.Laws.{sendpld_flush-IsSending, sendpld_ack-IsSending, sendrec_ack-IsSending}
use bearssl.Engine.Send.Registers.{Protects, IsSending, IsDraining, make_ready_out-IsSending}
use bearssl.Engine.Run.{switch_in, switch_out, AtRecordEnd}

-- What the record protection does to memory: it writes bytes.
pub record WritesBytes (R : RecordLayer) : Type 0 where
  pub by_decrypt :
      (ctx : R.In) (type version addr len : ℕ) (m : Memory)
      → HoldsBytes m
      → HoldsBytes (R.decrypt ctx type version addr len m).2
  pub by_encrypt :
      (ctx : R.Out) (type version addr len : ℕ) (m : Memory)
      → HoldsBytes m
      → HoldsBytes (R.encrypt ctx type version addr len m).3

-- Everything that is asked of a record protection.
pub record IsLayer (R : RecordLayer) : Type 0 where
  pub in_place : DecryptsInPlace R
  pub protects : Protects R
  pub writes_bytes : WritesBytes R

module _ (R : RecordLayer) (law : IsLayer R) where
  -- The invariant between two calls: the engine has failed, or both sides are in order.
  pub record IsLive (rc : Engine R) : Type 0 where
    pub receiving : (rc.iomode ≡ failed) ⊎ IsReceiving R rc
    pub sending : IsSending R rc
    pub bytes : HoldsBytes rc.mem

  -- `IsSending` reads the output registers only, and `IsReceiving` the input registers.
  IsSending-view :
      (a b : Engine R) → output_view R a ≡ output_view R b → IsSending R b → IsSending R a
  IsSending-view a b e h = ground arith

  IsReceiving-view :
      (a b : Engine R) → input_view R a ≡ input_view R b → IsReceiving R b → IsReceiving R a
  IsReceiving-view a b e h = ground arith

  encrypt-bytes :
      (out : OutMode R.Out) (type version addr len : ℕ) (m : Memory)
      → HoldsBytes m
      → HoldsBytes (encrypt R out type version addr len m).3
  encrypt-bytes = encrypt-lt R law.writes_bytes.by_encrypt

  -- A failed engine offers nothing.
  offers_nothing :
      (rc : Engine R)
      → rc.iomode ≡ failed
      → ((recvrec_buf R rc).1 ≡ 0)
        × ((recvpld_buf R rc).1 ≡ 0)
        × ((sendpld_buf R rc).1 ≡ 0)
        × ((sendrec_buf R rc).1 ≡ 0)
  unfolding recvrec_buf recvpld_buf sendpld_buf sendrec_buf
  offers_nothing rc e = ground arith

  pub receive-IsLive :
      (rc : Engine R) (m : Memory) (len : ℕ)
      → IsLive rc
      → HoldsBytes m
      → 0 < len
      → len ≤ (recvrec_buf R rc).1
      → IsLive (recvrec_ack R (record rc { mem = m }) len)
  unfolding recvrec_buf
  receive-IsLive rc m len live hm pos offered = record {
    receiving = elim live.receiving [
      | inl dead ↦ absurd (omega (arith, (offers_nothing rc dead).0))
      | inr inv ↦
          recvrec_ack_kept R filled len law.in_place hm (IsReceiving-view filled rc refl inv) pos
            offered
    ];
    sending = IsSending-view _ rc (recvrec_ack-view R filled len) live.sending;
    bytes = elim (recvrec_ack-mem R filled len) [
      | inl e ↦ rw e hm
      | inr e ↦ rw e (law.writes_bytes.by_decrypt _ _ _ _ _ m hm)
    ];
  }
    where
      filled : Engine R
      filled = record rc { mem = m }

  pub read-IsLive :
      (rc : Engine R) (len : ℕ)
      → IsLive rc
      → 0 < len
      → len ≤ (recvpld_buf R rc).1
      → IsLive (recvpld_ack R rc len)
  read-IsLive rc len live pos offered = record {
    receiving = elim live.receiving [
      | inl dead ↦ absurd (omega (arith, (offers_nothing rc dead).1))
      | inr inv ↦ inr (recvpld_ack-IsReceiving R rc len inv pos offered)
    ];
    sending = IsSending-view _ rc (recvpld_ack-view R rc len) live.sending;
    bytes = rw (recvpld_ack-mem R rc len) live.bytes;
  }

  pub write-IsLive :
      (rc : Engine R) (m : Memory) (len : ℕ)
      → IsLive rc
      → HoldsBytes m
      → 0 < len
      → len ≤ (sendpld_buf R rc).1
      → IsLive (sendpld_ack R (record rc { mem = m }) len)
  unfolding sendpld_buf
  write-IsLive rc m len live hm pos offered = record {
    receiving = elim live.receiving [
      | inl dead ↦ absurd (omega (arith, (offers_nothing rc dead).2))
      | inr inv ↦ inr (IsReceiving-view _ rc (sendpld_ack-view R filled len) inv)
    ];
    sending =
        (sendpld_ack-IsSending R law.protects filled len
          (IsSending-view filled rc refl live.sending) pos offered).0;
    bytes = elim (sendpld_ack-mem R filled len) [
      | inl e ↦ rw e hm
      | inr e ↦ rw e (encrypt-bytes rc.record_out _ _ _ _ m hm)
    ];
  }
    where
      filled : Engine R
      filled = record rc { mem = m }

  pub flush-IsLive :
      (rc : Engine R) (force : Bool)
      → IsLive rc
      → is_failed rc.iomode ≡ false
      → IsLive (sendpld_flush R rc force)
  flush-IsLive rc force live open' = record {
    receiving = elim live.receiving [
      | inl dead ↦ absurd (ground (arith, dead))
      | inr inv ↦ inr (IsReceiving-view _ rc (sendpld_flush-view R rc force) inv)
    ];
    sending = (sendpld_flush-IsSending R law.protects rc force live.sending).0;
    bytes = elim (sendpld_flush-mem R rc force) [
      | inl e ↦ rw e live.bytes
      | inr e ↦ rw e (encrypt-bytes rc.record_out _ _ _ _ rc.mem live.bytes)
    ];
  }

  pub send-IsLive :
      (rc : Engine R) (len : ℕ)
      → IsLive rc
      → 0 < len
      → len ≤ (sendrec_buf R rc).1
      → IsLive (sendrec_ack R rc len)
  send-IsLive rc len live pos offered = record {
    receiving = elim live.receiving [
      | inl dead ↦ absurd (omega (arith, (offers_nothing rc dead).3))
      | inr inv ↦ inr (IsReceiving-view _ rc (sendrec_ack-view R rc len) inv)
    ];
    sending = sendrec_ack-IsSending R law.protects rc len live.sending pos offered;
    bytes = rw (sendrec_ack-mem R rc len) live.bytes;
  }

  pub new_input-IsLive :
      (rc : Engine R) (ctx : R.In)
      → IsLive rc
      → is_failed rc.iomode ≡ false
      → AtRecordEnd R rc
      → IsLive (switch_in R rc ctx)
  unfolding switch_in
  new_input-IsLive rc ctx live open' end = record {
    receiving = ground (arith, live.receiving, end);
    sending = IsSending-view _ rc refl live.sending;
    bytes = live.bytes;
  }

  pub new_output-IsLive :
      (rc : Engine R) (ctx : R.Out) → IsLive rc → IsDraining R rc → IsLive (switch_out R rc ctx)
  unfolding switch_out
  new_output-IsLive rc ctx live draining = record {
    receiving = ground (arith, live.receiving);
    sending = ground (arith, live.sending);
    bytes = live.bytes;
  }

  pub new_limit-IsLive :
      (rc : Engine R) (len : ℕ)
      → IsLive rc
      → 0 < len
      → len ≤ 16384
      → IsLive (new_max_frag_len R rc len)
  unfolding new_max_frag_len
  new_limit-IsLive rc len live pos le = record {
    receiving = ground (arith, live.receiving);
    sending = ground (arith, live.sending);
    bytes = ground (arith, live.bytes);
  }

  pub clear_buffers-IsLive : (rc : Engine R) → IsLive rc → IsLive (engine_clearbuf R rc)
  unfolding engine_clearbuf make_ready_in make_ready_out
  clear_buffers-IsLive rc live = record {
    receiving = ground (arith, live.receiving);
    sending =
        make_ready_out-IsSending R law.protects (make_ready_in R rc) live.sending.room
          live.sending.no_wrap live.sending.fragment.0 live.sending.fragment.1;
    bytes = live.bytes;
  }

  pub give_up-IsLive : (rc : Engine R) (err : ℕ) → IsLive rc → IsLive (fail R rc err)
  unfolding fail
  give_up-IsLive rc err live = elim (Bool-cases (is_failed rc.iomode)) [
    | inl e ↦ rw e live
    | inr e ↦ rw e (record {
      receiving = inl refl;
      sending = IsSending-view _ rc refl live.sending;
      bytes = live.bytes;
    })
  ]

  pub other_fields-IsLive :
      (rc rc' : Engine R)
      → IsLive rc
      → rc'.iomode ≡ rc.iomode
      → input_view R rc' ≡ input_view R rc
      → output_view R rc' ≡ output_view R rc
      → HoldsBytes rc'.mem
      → IsLive rc'
  other_fields-IsLive rc rc' live mode ins outs bytes = record {
    receiving = elim live.receiving [
      | inl dead ↦ inl (mode ∙ dead)
      | inr inv ↦ inr (IsReceiving-view rc' rc ins inv)
    ];
    sending = IsSending-view rc' rc outs live.sending;
    bytes = bytes;
  }
