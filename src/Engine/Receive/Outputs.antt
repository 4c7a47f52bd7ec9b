-- ===== src/Engine/Receive/Outputs.antt =====
-- The receiving calls leave the output registers alone.
use bearssl.Common.{ℕ, ◌≡◌, refl, ◌⊎◌, arith, Option, none, some, Bool-cases, inl, inr}
use bearssl.Engine.State.{size_add, size_sub, Memory, RecordLayer, OutMode, Engine}
use bearssl.Engine.Buffers.{fail, is_failed, make_ready_in}
use bearssl.Engine.Receive.{
  recvrec_ack, recvpld_ack, received, advance_in, take_header, take_record, after_decrypt,
}

module _ (R : RecordLayer) where
  -- The output registers, with the buffer and the record protection.
  abbrev pub output_view : Engine R → ℕ × ℕ × ℕ × ℕ × ℕ × ℕ × OutMode R.Out
  output_view rc = (rc.obuf, rc.obuf_len, rc.max_frag_len, rc.oxa, rc.oxb, rc.oxc, rc.record_out)

  fail-view : (rc : Engine R) (err : ℕ) → output_view (fail R rc err) ≡ output_view rc
  unfolding fail
  fail-view rc err = elim (Bool-cases (is_failed rc.iomode)) [
    | inl e ↦ rw e refl
    | inr e ↦ rw e refl
  ]

  after_decrypt-view :
      (rc : Engine R) (plain : Option (ℕ × ℕ)) (ctx : R.In) (m : Memory)
      → output_view (after_decrypt R rc plain ctx m) ≡ output_view rc
  unfolding after_decrypt make_ready_in
  after_decrypt-view rc none ctx m = fail-view _ _
  after_decrypt-view rc (some (p, n)) ctx m = ground arith

  take_header-view : (rc : Engine R) → output_view (take_header R rc) ≡ output_view rc
  unfolding take_header fail make_ready_in
  take_header-view rc = ground arith

  take_record-view : (rc : Engine R) → output_view (take_record R rc) ≡ output_view rc
  unfolding take_record
  take_record-view rc = after_decrypt-view rc _ _ _

  received-view : (rc : Engine R) → output_view (received R rc) ≡ output_view rc
  unfolding received
  received-view rc = ground (arith, take_header-view rc, take_record-view rc)

  pub recvrec_ack-view :
      (rc : Engine R) (len : ℕ) → output_view (recvrec_ack R rc len) ≡ output_view rc
  unfolding recvrec_ack advance_in
  recvrec_ack-view rc len = received-view (advance_in R rc len)

  pub recvpld_ack-view :
      (rc : Engine R) (len : ℕ) → output_view (recvpld_ack R rc len) ≡ output_view rc
  unfolding recvpld_ack make_ready_in
  recvpld_ack-view rc len = ground arith

  after_decrypt-mem :
      (rc : Engine R) (plain : Option (ℕ × ℕ)) (ctx : R.In) (m : Memory)
      → (after_decrypt R rc plain ctx m).mem ≡ m
  unfolding after_decrypt fail make_ready_in
  after_decrypt-mem rc none ctx m = ground arith
  after_decrypt-mem rc (some (p, n)) ctx m = ground arith

  take_header-mem : (rc : Engine R) → (take_header R rc).mem ≡ rc.mem
  unfolding take_header fail make_ready_in
  take_header-mem rc = ground arith

  -- Memory after the record of a full buffer was decrypted.
  abbrev pub decrypted : Engine R → Memory
  decrypted rc =
      (R.decrypt rc.record_in rc.record_type_in rc.version_in (size_add rc.ibuf 5)
        (size_sub rc.ixa 5) rc.mem).2

  take_record-mem : (rc : Engine R) → (take_record R rc).mem ≡ decrypted rc
  unfolding take_record
  take_record-mem rc = after_decrypt-mem rc _ _ _

  received-mem :
      (rc : Engine R) → ((received R rc).mem ≡ rc.mem) ⊎ ((received R rc).mem ≡ decrypted rc)
  unfolding received
  received-mem rc = ground (arith, take_header-mem rc, take_record-mem rc)

  pub recvrec_ack-mem :
      (rc : Engine R) (len : ℕ)
      → ((recvrec_ack R rc len).mem ≡ rc.mem)
        ⊎ ((recvrec_ack R rc len).mem ≡ decrypted (record rc { ixa = size_add rc.ixa len }))
  unfolding recvrec_ack advance_in
  recvrec_ack-mem rc len = received-mem (advance_in R rc len)

  pub recvpld_ack-mem : (rc : Engine R) (len : ℕ) → (recvpld_ack R rc len).mem ≡ rc.mem
  unfolding recvpld_ack make_ready_in
  recvpld_ack-mem rc len = ground arith
