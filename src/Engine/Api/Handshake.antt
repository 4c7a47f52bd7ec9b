-- ===== src/Engine/Api/Handshake.antt =====
-- The loop of `jump_handshake` ends, and what runs it.
use bearssl.Common.{ℕ, suc, ◌+◌, ◌^◌, ◌≤◌, ◌<◌, ◌≡◌, ◌≢◌, ◌⊎◌, arith, none}
use bearssl.Engine.State.{RecordLayer, Engine, size_sub}
use bearssl.Engine.Receive.{recvpld_buf, recvpld_ack}
use bearssl.Engine.Send.{sendpld_ack, sendpld_flush}
use bearssl.Engine.Buffers.{make_ready_in}
use bearssl.Engine.Api.{offer_buffers, take_output, jump_handshake}

-- What the engine relies on: the processor reads only what was offered, and leaves the input
-- registers alone.
pub record KeepsInput (R : RecordLayer) (hsrun : Engine R → Engine R) : Type 0 where
  pub consumes : (e : Engine R) → (hsrun e).hlen_in ≤ e.hlen_in
  pub same_ixa : (e : Engine R) → (hsrun e).ixa ≡ e.ixa
  pub same_ixb : (e : Engine R) → (hsrun e).ixb ≡ e.ixb

module _ (R : RecordLayer) (hsrun : Engine R → Engine R) (law : KeepsInput R hsrun) where
  take_output-input :
      (cc : Engine R)
      → ((take_output R cc).ixa ≡ cc.ixa)
        × ((take_output R cc).ixb ≡ cc.ixb)
        × ((take_output R cc).hlen_in ≡ cc.hlen_in)
  unfolding take_output sendpld_ack sendpld_flush
  take_output-input cc = ground arith

  -- With no payload to read the first round is the last.
  one_round :
      (fuel : ℕ) (cc : Engine R) (action : ℕ)
      → (offer_buffers R cc action).hlen_in ≡ 0
      → jump_handshake R hsrun (suc fuel) cc action ≢ none
  unfolding jump_handshake
  one_round fuel cc action e = ground (
    arith,
    law.consumes (offer_buffers R cc action),
    take_output-input (hsrun (offer_buffers R cc action)),
  )

  offer_buffers-input :
      (cc : Engine R) (action : ℕ)
      → ((offer_buffers R cc action).ixa ≡ cc.ixa)
        × ((offer_buffers R cc action).ixb ≡ cc.ixb)
        × (((offer_buffers R cc action).hlen_in ≡ 0)
            ⊎ ((offer_buffers R cc action).hlen_in ≡ size_sub cc.ixb cc.ixa))
  unfolding offer_buffers recvpld_buf
  offer_buffers-input cc action = ground arith

  offer_buffers_none :
      (cc : Engine R) (action : ℕ) → cc.ixa ≡ cc.ixb → (offer_buffers R cc action).hlen_in ≡ 0
  offer_buffers_none cc action e = omega (arith, offer_buffers-input cc action)

  recvpld_ack_all :
      (cc : Engine R) (n : ℕ)
      → cc.ixa + n ≡ cc.ixb
      → cc.ixb < 2 ^ 63
      → (recvpld_ack R cc n).ixa ≡ (recvpld_ack R cc n).ixb
  unfolding recvpld_ack make_ready_in
  recvpld_ack_all cc n e small = ground arith

  recvpld_ack-hlen_in : (cc : Engine R) (n : ℕ) → (recvpld_ack R cc n).hlen_in ≡ cc.hlen_in
  unfolding recvpld_ack make_ready_in
  recvpld_ack-hlen_in cc n = ground arith

  -- Two rounds of `jump_handshake` suffice, whatever the processor does within its contract: a
  -- second round is made only when all payload was read, and it finds none.
  pub jump_handshake_ends :
      (fuel : ℕ) (cc : Engine R) (action : ℕ)
      → cc.ixa ≤ cc.ixb
      → cc.ixb < 2 ^ 63
      → jump_handshake R hsrun (suc (suc fuel)) cc action ≢ none
  unfolding jump_handshake
  jump_handshake_ends fuel cc action order small =
      let offered = offer_buffers R cc action in
      let cc1 = take_output R (hsrun offered) in
      let n = size_sub offered.hlen_in cc1.hlen_in in
      ground (
        arith,
        law.consumes offered,
        law.same_ixa offered,
        law.same_ixb offered,
        offer_buffers-input cc action,
        take_output-input (hsrun offered),
        recvpld_ack-hlen_in cc1 n,
        recvpld_ack_all cc1 n,
        offer_buffers_none (recvpld_ack R cc1 n) 0,
        one_round fuel (recvpld_ack R cc1 n) 0,
      )
