-- ===== src/Engine/Receive/Ack.antt =====
-- Received bytes keep the invariant on the input registers, or the engine fails.
use bearssl.Common.{
  ℕ, ◌+◌, ◌-◌, ap, ◌∙◌, true, false, Bool-cases, leb, ltb, ◌==◌, ◌*◌, ◌^◌, ◌≤◌, ◌<◌, ◌≡◌, ◌⊎◌, refl,
  arith, inl, inr, if◌then◌else◌, [], Option, none, some,
}
use bearssl.Engine.State.{failed, size_sub, size_add, Memory, RecordLayer, Engine}
use bearssl.Engine.Receive.{
  recvrec_buf, recvrec_ack, received, advance_in, take_header, take_record, after_decrypt,
  dec16be_at,
}
use bearssl.Engine.Receive.Registers.{IsReceiving, IsAccepted, AtHeader}
use bearssl.Engine.Buffers.{make_ready_in, fail}
use bearssl.Codec.RoundTrip.{dec16be_sum}

-- `decrypt` of a record whose length was accepted works in place: the plaintext lies inside the
-- payload.
abbrev pub DecryptsInPlace : RecordLayer → Type 0
DecryptsInPlace R =
    (ctx : R.In) (type version addr len : ℕ) (m : Memory) (p n : ℕ)
    → R.check_length ctx len ≡ true
    → len < 2 ^ 16
    → addr + len < 2 ^ 63
    → (R.decrypt ctx type version addr len m).0 ≡ some (p, n)
    → (addr ≤ p) × (p + n ≤ addr + len)

-- The bytes of memory are bytes.
abbrev pub HoldsBytes : Memory → Type 0
HoldsBytes m = (p : ℕ) → m p < 256

dec16be_at-lt : (m : Memory) (p : ℕ) → HoldsBytes m → dec16be_at m p < 2 ^ 16
unfolding dec16be_at
dec16be_at-lt m p h =
    omega (arith, dec16be_sum (m p) (m (size_add p 1)) [] (h (size_add p 1)), h p, h (size_add p 1))

module _ (R : RecordLayer) where
  -- Two bytes of the header.
  field_at :
      (rc : Engine R) (k : ℕ)
      → rc.ibuf + k + 1 < 2 ^ 63
      → HoldsBytes rc.mem
      → dec16be_at rc.mem (size_add rc.ibuf k)
        ≡ 256 * rc.mem (rc.ibuf + k) + rc.mem (rc.ibuf + (k + 1))
  unfolding dec16be_at
  field_at rc k wrap bytes =
      let first = ap rc.mem {x = size_add rc.ibuf k} {y = rc.ibuf + k} (omega arith) in
      let second =
        ap rc.mem {x = size_add (size_add rc.ibuf k) 1} {y = rc.ibuf + (k + 1)} (omega arith) in
      omega (
        arith,
        dec16be_sum (rc.mem (size_add rc.ibuf k)) (rc.mem (size_add (size_add rc.ibuf k) 1)) []
            (bytes (size_add (size_add rc.ibuf k) 1)),
        first,
        second,
      )

  take_header-IsReceiving :
      (rc : Engine R)
      → 512 + 325 ≤ rc.ibuf_len
      → rc.ibuf + rc.ibuf_len < 2 ^ 63
      → HoldsBytes rc.mem
      → ((take_header R rc).iomode ≡ failed) ⊎ IsReceiving R (take_header R rc)
  unfolding take_header fail make_ready_in
  take_header-IsReceiving rc room wrap bytes =
      let rlen = dec16be_at rc.mem (size_add rc.ibuf 3) in
      ground (
        arith,
        dec16be_at-lt rc.mem (size_add rc.ibuf 3) bytes,
        ap (R.check_length rc.record_in) {x = rlen} {y = 5 - 5 + rlen} (omega arith),
      )

  -- The five bytes of a header that were accepted, and what was kept of them: the type, a version
  -- 3.x, the same as before if one was known, and a length that the protection accepts and the
  -- buffer can hold, or that is at most 16384 without protection.
  abbrev pub HeaderChecked : Engine R → Engine R → Type 0
  HeaderChecked rc rc' =
      let version = 256 * rc.mem (rc.ibuf + 1) + rc.mem (rc.ibuf + 2) in
      let rlen = 256 * rc.mem (rc.ibuf + 3) + rc.mem (rc.ibuf + 4) in
      (rc'.record_type_in ≡ rc.mem rc.ibuf)
      × (rc'.version_in ≡ version)
      × (rc.mem (rc.ibuf + 1) ≡ 3)
      × ((if rc.version_in == 0 then version else rc.version_in) ≡ version)
      × ((if rc.incrypt then R.check_length rc.record_in rlen else leb rlen 16384) ≡ true)
      × ((if rc.incrypt then 5 + rlen else 5) ≤ rc.ibuf_len)
      × (rc'.ixc ≡ (if rlen == 0 then 5 else rlen))

  take_header-HeaderChecked :
      (rc : Engine R)
      → 512 + 325 ≤ rc.ibuf_len
      → rc.ibuf + rc.ibuf_len < 2 ^ 63
      → HoldsBytes rc.mem
      → ((take_header R rc).iomode ≡ failed) ⊎ HeaderChecked rc (take_header R rc)
  unfolding take_header fail make_ready_in
  take_header-HeaderChecked rc room wrap bytes =
      let version = field_at rc 1 (omega arith) bytes in
      let rlen = field_at rc 3 (omega arith) bytes in
      ground (
        arith,
        version,
        rlen,
        bytes (rc.ibuf + 1),
        bytes (rc.ibuf + 2),
        bytes (rc.ibuf + 3),
        bytes (rc.ibuf + 4),
        ap (R.check_length rc.record_in) rlen,
      )

  after_decrypt-IsReceiving :
      (rc : Engine R) (plain : Option (ℕ × ℕ)) (ctx : R.In) (mem : Memory)
      → ((p n : ℕ) → plain ≡ some (p, n) → (rc.ibuf + 5 ≤ p) × (p + n ≤ rc.ibuf + rc.ixa))
      → 512 + 325 ≤ rc.ibuf_len
      → rc.ibuf + rc.ibuf_len < 2 ^ 63
      → rc.ixa ≤ rc.ibuf_len
      → rc.ixc ≡ 0
      → ((after_decrypt R rc plain ctx mem).iomode ≡ failed)
        ⊎ IsReceiving R (after_decrypt R rc plain ctx mem)
  unfolding after_decrypt fail make_ready_in
  after_decrypt-IsReceiving rc none ctx mem law room wrap high done = ground arith
  after_decrypt-IsReceiving rc (some (p, n)) ctx mem law room wrap high done =
      let bounds = law p n refl in ground arith

  take_record-IsReceiving :
      (rc : Engine R)
      → DecryptsInPlace R
      → 512 + 325 ≤ rc.ibuf_len
      → rc.ibuf + rc.ibuf_len < 2 ^ 63
      → 5 ≤ rc.ixa
      → rc.ixa ≤ rc.ibuf_len
      → rc.ixa - 5 < 2 ^ 16
      → R.check_length rc.record_in (rc.ixa - 5) ≡ true
      → rc.ixc ≡ 0
      → ((take_record R rc).iomode ≡ failed) ⊎ IsReceiving R (take_record R rc)
  unfolding take_record
  take_record-IsReceiving rc law room wrap low high short accepted done =
      let same =
        ap (R.check_length rc.record_in) {x = size_sub rc.ixa 5} {y = rc.ixa - 5} (omega arith) in
      after_decrypt-IsReceiving rc _ _ _
        (λ p n e.
          let bounds =
            law rc.record_in rc.record_type_in rc.version_in (size_add rc.ibuf 5)
              (size_sub rc.ixa 5) rc.mem p n (same ∙ accepted) (omega arith) (omega arith) e in
          omega arith)
        room wrap high done

  -- The registers once the bytes are counted: in the header, just behind it, or in the record.
  abbrev Counted : Engine R → Type 0
  Counted rc =
      AtHeader R rc
      ⊎ (rc.ixa ≡ 5)
      ⊎ ((rc.ixa ≡ rc.ixb)
          × (5 < rc.ixa)
          × (rc.ixa + (if rc.incrypt then rc.ixc else 0) ≤ rc.ibuf_len)
          × IsAccepted R rc)

  advance_in-Counted :
      (rc : Engine R) (len : ℕ)
      → IsReceiving R rc
      → 0 < len
      → len ≤ (recvrec_buf R rc).1
      → Counted (advance_in R rc len) × ((advance_in R rc len).ixc < 2 ^ 16)
  unfolding advance_in recvrec_buf
  advance_in-Counted rc len inv pos offered = ground (
    arith,
    ap (R.check_length rc.record_in) {x = rc.ixa - 5 + rc.ixc}
        {y = size_add rc.ixa len - 5 + size_sub rc.ixc len},
  )

  received-IsReceiving :
      (rc : Engine R)
      → DecryptsInPlace R
      → HoldsBytes rc.mem
      → 512 + 325 ≤ rc.ibuf_len
      → rc.ibuf + rc.ibuf_len < 2 ^ 63
      → rc.ixc < 2 ^ 16
      → Counted rc
      → ((received R rc).iomode ≡ failed) ⊎ IsReceiving R (received R rc)
  unfolding received
  received-IsReceiving rc law bytes room wrap left (inl header) = ground arith
  received-IsReceiving rc law bytes room wrap left (inr (inl full)) =
      ground (arith, take_header-IsReceiving rc room wrap bytes)
  received-IsReceiving rc law bytes room wrap left (inr (inr inside)) = ground (
    arith,
    take_record-IsReceiving rc law room wrap,
    ap (R.check_length rc.record_in) {x = rc.ixa - 5} {y = rc.ixa - 5 + rc.ixc},
  )

  at_five : (rc : Engine R) → rc.ixa ≡ 5 → received R rc ≡ take_header R rc
  unfolding received
  at_five rc e =
      let more : ltb rc.ixa 5 ≡ false = ground (arith, e) in
      let exact : (rc.ixa == 5) ≡ true = ground (arith, e) in rw (more, exact) refl

  completed :
      (rc : Engine R) (len : ℕ)
      → IsReceiving R rc
      → 0 < len
      → len ≤ (recvrec_buf R rc).1
      → HoldsBytes rc.mem
      → ((received R (advance_in R rc len)).iomode ≡ failed)
        ⊎ (((rc.ixa + len == 5) ≡ false) ⊎ HeaderChecked rc (received R (advance_in R rc len)))
  unfolding recvrec_buf advance_in
  completed rc len inv pos offered bytes = elim (Bool-cases (rc.ixa + len == 5)) [
    | inl e ↦
        let small : rc.ixa + len ≡ 5 = ground (arith, e) in
        let at : size_add rc.ixa len ≡ 5 = omega (arith, small) in
        rw (at_five (advance_in R rc len) at)
          (elim (take_header-HeaderChecked (advance_in R rc len) inv.room inv.no_wrap bytes) [
            | inl h ↦ inl h
            | inr h ↦ inr (inr h)
          ])
    | inr e ↦ inr (inl e)
  ]

  pub recvrec_ack_kept :
      (rc : Engine R) (len : ℕ)
      → DecryptsInPlace R
      → HoldsBytes rc.mem
      → IsReceiving R rc
      → 0 < len
      → len ≤ (recvrec_buf R rc).1
      → ((recvrec_ack R rc len).iomode ≡ failed) ⊎ IsReceiving R (recvrec_ack R rc len)
  unfolding recvrec_ack
  recvrec_ack_kept rc len law bytes inv pos offered =
      let counted = advance_in-Counted rc len inv pos offered in
      received-IsReceiving (advance_in R rc len) law (unfold advance_in in bytes)
        (unfold advance_in in inv.room) (unfold advance_in in inv.no_wrap) counted.1 counted.0

  -- `recvrec_ack` of a positive number of bytes that `recvrec_buf` offered keeps the invariant or
  -- fails the engine. When the bytes complete a header and the engine has not failed, that header was
  -- checked: its version is 3.x, the one known before if there was one; its length is one that the
  -- protection accepts and the buffer can hold, or at most 16384 without protection; type, version
  -- and length are kept. Memory holds bytes, and the decryption works in place.
  pub recvrec_ack-IsReceiving :
      (rc : Engine R) (len : ℕ)
      → DecryptsInPlace R
      → HoldsBytes rc.mem
      → IsReceiving R rc
      → 0 < len
      → len ≤ (recvrec_buf R rc).1
      → ((recvrec_ack R rc len).iomode ≡ failed)
        ⊎ (IsReceiving R (recvrec_ack R rc len)
            × (((rc.ixa + len == 5) ≡ false) ⊎ HeaderChecked rc (recvrec_ack R rc len)))
  unfolding recvrec_ack
  recvrec_ack-IsReceiving rc len law bytes inv pos offered =
      both (recvrec_ack_kept rc len law bytes inv pos offered)
        (completed rc len inv pos offered bytes)
    where
      both : {A B C : Type 0} → A ⊎ B → A ⊎ C → A ⊎ (B × C)
      both (inl a) c = inl a
      both (inr b) (inl a) = inl a
      both (inr b) (inr c) = inr (b, c)
