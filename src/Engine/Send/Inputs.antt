-- ===== src/Engine/Send/Inputs.antt =====
-- The sending calls leave the input registers alone.
use bearssl.Common.{ℕ, ◌≡◌, ◌<◌, ◌⊎◌, arith, Bool}
use bearssl.Engine.State.{
  size_add, size_sub, Memory, RecordLayer, OutMode, clear, protected, Engine,
}
use bearssl.Engine.Buffers.{make_ready_out, clear_encrypt}
use bearssl.Engine.Send.{encrypt, sendpld_flush, sendpld_ack, sendrec_ack}

module _ (R : RecordLayer) where
  -- The input registers, with the buffer and the record protection.
  abbrev pub input_view : Engine R → ℕ × ℕ × ℕ × ℕ × ℕ × Bool × R.In
  input_view rc = (rc.ibuf, rc.ibuf_len, rc.ixa, rc.ixb, rc.ixc, rc.incrypt, rc.record_in)

  pub sendpld_flush-view :
      (rc : Engine R) (force : Bool) → input_view (sendpld_flush R rc force) ≡ input_view rc
  unfolding sendpld_flush
  sendpld_flush-view rc force = ground arith

  pub sendpld_ack-view :
      (rc : Engine R) (len : ℕ) → input_view (sendpld_ack R rc len) ≡ input_view rc
  unfolding sendpld_ack sendpld_flush
  sendpld_ack-view rc len = ground arith

  pub sendrec_ack-view :
      (rc : Engine R) (len : ℕ) → input_view (sendrec_ack R rc len) ≡ input_view rc
  unfolding sendrec_ack make_ready_out
  sendrec_ack-view rc len = ground arith

  -- Memory after the record of the gathered payload was encrypted.
  abbrev pub encrypted : Engine R → Memory
  encrypted rc =
      (encrypt R rc.record_out rc.record_type_out rc.version_out (size_add rc.obuf rc.oxc)
        (size_sub rc.oxa rc.oxc) rc.mem).3

  pub sendpld_flush-mem :
      (rc : Engine R) (force : Bool)
      → ((sendpld_flush R rc force).mem ≡ rc.mem) ⊎ ((sendpld_flush R rc force).mem ≡ encrypted rc)
  unfolding sendpld_flush
  sendpld_flush-mem rc force = ground arith

  pub sendpld_ack-mem :
      (rc : Engine R) (len : ℕ)
      → ((sendpld_ack R rc len).mem ≡ rc.mem)
        ⊎ ((sendpld_ack R rc len).mem ≡ encrypted (record rc { oxa = size_add rc.oxa len }))
  unfolding sendpld_ack sendpld_flush
  sendpld_ack-mem rc len = ground arith

  pub sendrec_ack-mem : (rc : Engine R) (len : ℕ) → (sendrec_ack R rc len).mem ≡ rc.mem
  unfolding sendrec_ack make_ready_out
  sendrec_ack-mem rc len = ground arith

  -- The header that is written without protection is bytes.
  clear_encrypt-lt :
      (type version addr len : ℕ) (m : Memory)
      → ((p : ℕ) → m p < 256)
      → (q : ℕ) → (clear_encrypt type version addr len m).2 q < 256
  unfolding clear_encrypt
  clear_encrypt-lt type version addr len m h q = ground (arith, h q)

  -- So is a record, when the protection writes bytes.
  pub encrypt-lt :
      ((ctx : R.Out) (type version addr len : ℕ) (m : Memory)
        → ((p : ℕ) → m p < 256)
        → (q : ℕ) → (R.encrypt ctx type version addr len m).3 q < 256)
      → (out : OutMode R.Out) (type version addr len : ℕ) (m : Memory) → ((p : ℕ) → m p < 256)
      → (q : ℕ) → (encrypt R out type version addr len m).3 q < 256
  unfolding encrypt
  encrypt-lt law clear type version addr len m h = clear_encrypt-lt type version addr len m h
  encrypt-lt law (protected c) type version addr len m h = law c type version addr len m h
