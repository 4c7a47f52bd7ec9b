-- ===== src/Engine/Send/Header.antt =====
-- A record sent without encryption is read back by the receiving side.
use bearssl.Common.{ℕ, ◌+◌, ◌-◌, ◌*◌, ◌/◌, ◌%◌, ◌^◌, ◌≤◌, ◌<◌, ◌≡◌, ◌⊎◌, arith, false, [], ◌∙◌, ap}
use bearssl.Codec.RoundTrip.{dec16be_sum}
use bearssl.Engine.State.{size_add, Memory, RecordLayer, Engine}
use bearssl.Engine.Buffers.{clear_encrypt, fail}
use bearssl.Engine.Receive.{dec16be_at, take_header}

-- The memory after `clear_encrypt`.
abbrev written : ℕ → ℕ → ℕ → ℕ → Memory → Memory
written type version addr len m = (clear_encrypt type version addr len m).2

-- The header in memory.
record HasHeader (type version addr len : ℕ) (m m' : Memory) : Type 0 where
  type_byte : m' (addr - 5) ≡ type
  version_high : m' (addr - 4) ≡ version / 256
  version_low : m' (addr - 3) ≡ version % 256
  len_high : m' (addr - 2) ≡ len / 256
  len_low : m' (addr - 1) ≡ len % 256

module _ (type version addr len : ℕ) (m : Memory) (is_type : type < 256)
    (is_version : version < 2 ^ 16) (is_len : len < 2 ^ 16) (behind : 5 ≤ addr)
    (small : addr < 2 ^ 63) where
  clear_encrypt-HasHeader : HasHeader type version addr len m (written type version addr len m)
  unfolding clear_encrypt
  clear_encrypt-HasHeader = ground arith

  abbrev sent : Memory
  sent = written type version addr len m

  header : HasHeader type version addr len m sent
  header = clear_encrypt-HasHeader

  version_read : (p : ℕ) → p ≡ addr - 4 → dec16be_at sent p ≡ version
  unfolding dec16be_at
  version_read p e = dec16be_sum (sent p) (sent (size_add p 1)) [] (second p e) ∙ join p e
    where
      at : (q : ℕ) → q ≡ addr - 4 → size_add q 1 ≡ addr - 3
      at q e = omega arith

      second : (q : ℕ) → q ≡ addr - 4 → sent (size_add q 1) < 256
      second q e = rw (at q e) (omega (arith, header.version_low))

      join : (q : ℕ) → q ≡ addr - 4 → sent q * 256 + sent (size_add q 1) ≡ version
      join q e = rw (at q e, e) (omega (arith, header.version_low, header.version_high))

  len_read : (p : ℕ) → p ≡ addr - 2 → dec16be_at sent p ≡ len
  unfolding dec16be_at
  len_read p e = dec16be_sum (sent p) (sent (size_add p 1)) [] (second p e) ∙ join p e
    where
      at : (q : ℕ) → q ≡ addr - 2 → size_add q 1 ≡ addr - 1
      at q e = omega arith

      second : (q : ℕ) → q ≡ addr - 2 → sent (size_add q 1) < 256
      second q e = rw (at q e) (omega (arith, header.len_low))

      join : (q : ℕ) → q ≡ addr - 2 → sent q * 256 + sent (size_add q 1) ≡ len
      join q e = rw (at q e, e) (omega (arith, header.len_low, header.len_high))

  module _ (R : RecordLayer) where
    -- A record that `clear_encrypt` builds, of a version 3.x and with 1 to 16384 bytes of data, is
    -- accepted by the header check of `recvrec_ack` while no encryption is active and its version is
    -- expected or none is. The engine then has the type and the version that were sent, and waits
    -- for as many bytes as were sent.
    pub clear_record_received :
        (rc : Engine R)
        → rc.ibuf + 5 ≡ addr
        → rc.mem ≡ written type version addr len m
        → rc.incrypt ≡ false
        → version / 256 ≡ 3
        → ((rc.version_in ≡ 0) ⊎ (rc.version_in ≡ version))
        → 0 < len
        → len ≤ 16384
        → take_header R rc
          ≡ record rc { record_type_in = type; version_in = version; ixa = 5; ixb = 5; ixc = len }
    unfolding take_header fail
    clear_record_received rc at mem plain major expected pos most = ground (
      arith,
      header.type_byte,
      version_read (size_add rc.ibuf 1),
      len_read (size_add rc.ibuf 3),
      ap (λ (f : Memory). f rc.ibuf) mem,
      ap (λ (f : Memory). dec16be_at f (size_add rc.ibuf 1)) mem,
      ap (λ (f : Memory). dec16be_at f (size_add rc.ibuf 3)) mem,
      ap sent {x = addr - 5} {y = rc.ibuf} (omega arith),
    )
