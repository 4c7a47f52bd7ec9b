-- ===== src/Record/Bytes.antt =====
-- Bytes read from memory and written to it, and the comparison of two tags.
use bearssl.Common.{
  ℕ, zero, suc, ◌+◌, ◌≤◌, ◌<◌, ◌≡◌, refl, ap, ap₂, ◌∙◌, arith, ◌==◌, eq→==, ne→==, if◌then◌else◌,
  List, [], ◌∷◌, length, All, IsByte, bit_or, bit_xor, u8, Option, none, some,
}
use bearssl.Common.BitLaws.{bit_xor_self, bit_or-eq-zero, bit_xor-eq-zero}
use bearssl.Codec.{enc16be}
use bearssl.Engine.State.{Memory}
use bearssl.Engine.Buffers.{write_bytes}

-- `n` bytes at an address
unfoldable pub read_bytes : Memory → ℕ → ℕ → List ℕ
read_bytes m p zero = []
read_bytes m p (suc n) = m p ∷ read_bytes m (p + 1) n

-- The loop `bad |= tag[u] ^ buf[len + u]`.
unfoldable pub differ_loop : ℕ → List ℕ → List ℕ → ℕ
differ_loop bad [] bs = bad
differ_loop bad (t ∷ ts) [] = bad
differ_loop bad (t ∷ ts) (b ∷ bs) = differ_loop (bit_or bad (bit_xor t b)) ts bs

-- The header that an encryption writes in front of the record.
pub put_header : Memory → ℕ → ℕ → ℕ → ℕ → Memory
put_header m buf record_type version len =
    let m1 = write_bytes m buf (u8 record_type ∷ []) in
    let m2 = write_bytes m1 (buf + 1) (enc16be version) in write_bytes m2 (buf + 3) (enc16be len)

pub length-read_bytes : (m : Memory) (p n : ℕ) → length (read_bytes m p n) ≡ n
unfolding read_bytes
length-read_bytes m p zero = refl
length-read_bytes m p (suc n) = ap suc (length-read_bytes m (p + 1) n)

pub read_bytes-IsByte :
    (m : Memory) (p n : ℕ) → ((q : ℕ) → m q < 256) → All IsByte (read_bytes m p n)
unfolding read_bytes
read_bytes-IsByte m p zero h = tt
read_bytes-IsByte m p (suc n) h = (h p, read_bytes-IsByte m (p + 1) n h)

-- What lies before or behind the bytes written is left alone.
pub write_bytes-below :
    (m : Memory) (p : ℕ) (bs : List ℕ) (q : ℕ) → q < p → write_bytes m p bs q ≡ m q
write_bytes-below m p [] q h = refl
write_bytes-below m p (b ∷ bs) q h =
    write_bytes-below (λ r. if r == p then b else m r) (p + 1) bs q (omega arith)
    ∙ ap (λ c. if c then b else m q) (ne→== q p (omega arith))

pub write_bytes-above :
    (m : Memory) (p : ℕ) (bs : List ℕ) (q : ℕ) → p + length bs ≤ q → write_bytes m p bs q ≡ m q
write_bytes-above m p [] q h = refl
write_bytes-above m p (b ∷ bs) q h =
    write_bytes-above (λ r. if r == p then b else m r) (p + 1) bs q (omega arith)
    ∙ ap (λ c. if c then b else m q) (ne→== q p (omega arith))

pub write_bytes-lt :
    (m : Memory) (p : ℕ) (bs : List ℕ)
    → ((q : ℕ) → m q < 256)
    → All IsByte bs
    → (q : ℕ) → write_bytes m p bs q < 256
write_bytes-lt m p [] h all q = h q
write_bytes-lt m p (b ∷ bs) h all q =
    write_bytes-lt (λ r. if r == p then b else m r) (p + 1) bs (λ r. ground (arith, h r, all.0))
      all.1 q

-- Reading what was written, and reading beside it.
pub read-write :
    (m : Memory) (p n : ℕ) (bs : List ℕ) → length bs ≡ n → read_bytes (write_bytes m p bs) p n ≡ bs
unfolding read_bytes
read-write m p zero [] e = refl
read-write m p zero (b ∷ bs) e = absurd (omega arith)
read-write m p (suc n) [] e = absurd (omega arith)
read-write m p (suc n) (b ∷ bs) e =
    ap₂ (λ x t. x ∷ t)
      (write_bytes-below (λ r. if r == p then b else m r) (p + 1) bs p (omega arith)
        ∙ ap (λ c. if c then b else m p) (eq→== p p refl))
      (read-write (λ r. if r == p then b else m r) (p + 1) n bs (omega arith))

pub read-write_below :
    (m : Memory) (p : ℕ) (bs : List ℕ) (q n : ℕ)
    → q + n ≤ p
    → read_bytes (write_bytes m p bs) q n ≡ read_bytes m q n
unfolding read_bytes
read-write_below m p bs q zero h = refl
read-write_below m p bs q (suc n) h =
    ap₂ (λ x t. x ∷ t) (write_bytes-below m p bs q (omega arith))
      (read-write_below m p bs (q + 1) n (omega arith))

pub read-write_above :
    (m : Memory) (p : ℕ) (bs : List ℕ) (q n : ℕ)
    → p + length bs ≤ q
    → read_bytes (write_bytes m p bs) q n ≡ read_bytes m q n
unfolding read_bytes
read-write_above m p bs q zero h = refl
read-write_above m p bs q (suc n) h =
    ap₂ (λ x t. x ∷ t) (write_bytes-above m p bs q h)
      (read-write_above m p bs (q + 1) n (omega arith))

-- Equal tags leave no bit, and a tag that leaves no bit is equal.
pub differ_loop_same : (ts : List ℕ) → differ_loop 0 ts ts ≡ 0
unfolding differ_loop
differ_loop_same [] = refl
differ_loop_same (t ∷ ts) =
    ap (λ x. differ_loop x ts ts) (ap (bit_or 0) (bit_xor_self t)) ∙ differ_loop_same ts

pub differ_loop-zero :
    (bad : ℕ) (ts bs : List ℕ)
    → length ts ≡ length bs
    → differ_loop bad ts bs ≡ 0
    → (bad ≡ 0) × (ts ≡ bs)
unfolding differ_loop
differ_loop-zero bad [] [] e h = (h, refl)
differ_loop-zero bad [] (b ∷ bs) e h = absurd (omega arith)
differ_loop-zero bad (t ∷ ts) [] e h = absurd (omega arith)
differ_loop-zero bad (t ∷ ts) (b ∷ bs) e h =
    let rest = differ_loop-zero (bit_or bad (bit_xor t b)) ts bs (omega arith) h in
    let here = bit_or-eq-zero bad (bit_xor t b) rest.0 in
    (here.0, ap₂ (λ x s. x ∷ s) (bit_xor-eq-zero t b here.1) rest.1)

-- The header lies in its five bytes, and is bytes.
pub read-put_header :
    (m : Memory) (buf record_type version len q n : ℕ)
    → buf + 5 ≤ q
    → read_bytes (put_header m buf record_type version len) q n ≡ read_bytes m q n
unfolding put_header enc16be
read-put_header m buf record_type version len q n h =
    read-write_above _ (buf + 3) (enc16be len) q n (omega arith)
    ∙ read-write_above _ (buf + 1) (enc16be version) q n (omega arith)
    ∙ read-write_above m buf (u8 record_type ∷ []) q n (omega arith)

pub put_header-lt :
    (m : Memory) (buf record_type version len : ℕ)
    → ((q : ℕ) → m q < 256)
    → (q : ℕ) → put_header m buf record_type version len q < 256
unfolding put_header enc16be
put_header-lt m buf record_type version len h =
    write_bytes-lt _ (buf + 3) (enc16be len)
      (write_bytes-lt _ (buf + 1) (enc16be version)
        (write_bytes-lt m buf (u8 record_type ∷ []) h (omega arith, tt))
        (omega arith, (omega arith, tt)))
      (omega arith, (omega arith, tt))

-- What a decryption that accepts says of the comparison.
pub accepts :
    (bad a b p n : ℕ)
    → if◌then◌else◌ {A = Option (ℕ × ℕ)} (bad == 0) (some (a, b)) none ≡ some (p, n)
    → (bad ≡ 0) × (p ≡ a) × (n ≡ b)
accepts bad a b p n e = ground (arith, e)
