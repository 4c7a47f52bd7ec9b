-- ===== src/Engine/Buffers/Laws.antt =====
-- What setting up the buffers establishes: sizes, registers, and how one buffer is split.
use bearssl.Common.{
  ℕ, zero, suc, ◌+◌, ◌^◌, ◌≤◌, ◌<◌, ◌≡◌, ◌≢◌, ◌⊎◌, refl, arith, true, false, inl, inr, leb, ◌&&◌,
  ◌==◌, Bool-cases, ==_iff, ap, ne→==, if◌then◌else◌,
}
use bearssl.Engine.State.{failed, inout, null, RecordLayer, EngineState, Engine, clear}
use native.Mathlib.Nat.{pow-le-pow_right}
use bearssl.Engine.Err
use bearssl.Engine.Buffers.{
  max_in_overhead, max_out_overhead, frag_log, fail, make_ready_in, make_ready_out, max_plaintext,
  start_clear, reset_state, with_frag_log, with_buffers, set_buffers_bidi,
}

-- What a fragment of 2 ^ u bytes needs.
abbrev pub Fits : ℕ → ℕ → ℕ → Type 0
Fits u ilen olen = (2 ^ u + max_in_overhead ≤ ilen) × (2 ^ u + max_out_overhead ≤ olen)

frag_log_cases :
    (k ilen olen : ℕ)
    → (frag_log k ilen olen ≡ 8)
      ⊎ ((9 ≤ frag_log k ilen olen)
          × (frag_log k ilen olen ≤ k + 8)
          × Fits (frag_log k ilen olen) ilen olen)
unfolding frag_log
frag_log_cases zero ilen olen = inl refl
frag_log_cases (suc k) ilen olen =
    elim (Bool-cases
      (leb (2 ^ (k' + 9) + max_out_overhead) olen && leb (2 ^ (k' + 9) + max_in_overhead) ilen)) [
        | inl e ↦ rw e (inr (omega arith, omega arith, both e))
        | inr e ↦ rw e (weaken (frag_log_cases k ilen olen))
      ]
  where
    k' : ℕ
    k' = k

    both :
        leb (2 ^ (k' + 9) + max_out_overhead) olen && leb (2 ^ (k' + 9) + max_in_overhead) ilen
          ≡ true
        → Fits (k' + 9) ilen olen
    both e = (ground arith, ground arith)

    weaken :
        {r : ℕ}
        → ((r ≡ 8) ⊎ ((9 ≤ r) × (r ≤ k' + 8) × Fits r ilen olen))
        → ((r ≡ 8) ⊎ ((9 ≤ r) × (r ≤ suc k' + 8) × Fits r ilen olen))
    weaken (inl e) = inl e
    weaken (inr h) = inr (h.0, omega arith, h.2)

-- The search finds an exponent where the buffers hold the smallest fragment.
frag_log_found : (k ilen olen : ℕ) → Fits 9 ilen olen → 9 ≤ frag_log (suc k) ilen olen
unfolding frag_log
frag_log_found zero ilen olen h = ground arith
frag_log_found (suc k) ilen olen h = ground (arith, frag_log_found k ilen olen h)

-- The registers of an engine that expects a record header and has an empty outgoing record.
pub record IsStarted {In Out Cpu : Type 0} (rc : EngineState In Out Cpu) : Type 0 where
  pub mode : rc.iomode ≡ inout
  pub plain : rc.incrypt ≡ false
  pub plain_out : rc.record_out ≡ clear
  pub least : 512 ≤ rc.max_frag_len
  pub most : rc.max_frag_len ≤ 16384
  pub in_fits : rc.max_frag_len + max_in_overhead ≤ rc.ibuf_len
  pub out_fits : rc.max_frag_len + max_out_overhead ≤ rc.obuf_len
  pub at_header : (rc.ixa ≡ 0) × (rc.ixb ≡ 0) × (rc.ixc ≡ 5)
  pub out_empty : (rc.oxa ≡ 5) × (rc.oxb ≡ 5 + rc.max_frag_len) × (rc.oxc ≡ 5)

module _ (R : RecordLayer) where
  start_clear-IsStarted :
      (rc : Engine R) (u : ℕ)
      → rc.iomode ≡ inout
      → rc.incrypt ≡ false
      → rc.obuf_len < 2 ^ 63
      → 512 ≤ 2 ^ u
      → 2 ^ u ≤ 16384
      → Fits u rc.ibuf_len rc.obuf_len
      → IsStarted (start_clear R (with_frag_log R rc u))
  unfolding start_clear with_frag_log make_ready_in make_ready_out max_plaintext
  start_clear-IsStarted rc u mode plain small least most fits = ground arith

  fragment_bounds : (u : ℕ) → 9 ≤ u → u ≤ 14 → (512 ≤ 2 ^ u) × (2 ^ u ≤ 16384)
  fragment_bounds u low high =
      (pow-le-pow_right {n = 2} (omega arith) low, pow-le-pow_right {n = 2} (omega arith) high)

  rounded : (u ilen olen : ℕ) → Fits u ilen olen → Fits (if u == 13 then 12 else u) ilen olen
  rounded u ilen olen h = elim (Bool-cases (u == 13)) [
    | inl e ↦ rw e (omega (arith, ap (λ (t : ℕ). 2 ^ t) ((==_iff u 13).0 e)))
    | inr e ↦ rw e h
  ]

  bidi-IsStarted :
      (rc : Engine R) (u : ℕ)
      → rc.iomode ≡ inout
      → rc.incrypt ≡ false
      → rc.obuf_len < 2 ^ 63
      → 9 ≤ u
      → u ≤ 14
      → Fits u rc.ibuf_len rc.obuf_len
      → IsStarted (start_clear R (with_frag_log R rc (if u == 13 then 12 else u)))
  bidi-IsStarted rc u mode plain small low high fits =
      let bounds = fragment_bounds (if u == 13 then 12 else u) (ground arith) (ground arith) in
      start_clear-IsStarted rc (if u == 13 then 12 else u) mode plain small bounds.0 bounds.1
        (rounded u rc.ibuf_len rc.obuf_len fits)

  -- The outcome of a start with buffers of these lengths.
  abbrev pub Started : ℕ → ℕ → Engine R → Type 0
  Started ilen olen rc =
      (((ilen < 512 + max_in_overhead) ⊎ (olen < 512 + max_out_overhead))
        × (rc.iomode ≡ failed)
        × (rc.err ≡ Err.bad_param))
      ⊎ ((512 + max_in_overhead ≤ ilen) × (512 + max_out_overhead ≤ olen) × IsStarted rc)

  too_small : (ilen olen : ℕ) → frag_log 6 ilen olen ≡ 8 → (ilen < 837) ⊎ (olen < 597)
  too_small ilen olen e = ground (arith, frag_log_found 5 ilen olen)

  with_buffers_lem :
      (rc : Engine R) (ibuf ilen obuf olen : ℕ)
      → rc.iomode ≡ inout
      → rc.incrypt ≡ false
      → olen < 2 ^ 63
      → Started ilen olen (with_buffers R rc ibuf ilen obuf olen)
  unfolding with_buffers fail
  with_buffers_lem rc ibuf ilen obuf olen mode plain small = elim (frag_log_cases 6 ilen olen) [
    | inl e ↦ inl (too_small ilen olen e, rw (e, mode), rw (e, mode))
    | inr found ↦ inr (
      fitting max_in_overhead ilen found.0 found.2.0,
      fitting max_out_overhead olen found.0 found.2.1,
      rw (ne→== (frag_log 6 ilen olen) 8 (omega arith)) (
          bidi-IsStarted (record rc { ibuf = ibuf; ibuf_len = ilen; obuf = obuf; obuf_len = olen })
            (frag_log 6 ilen olen) mode plain small found.0 found.1 found.2),
    )
  ]
    where
      least : 9 ≤ frag_log 6 ilen olen → 512 ≤ 2 ^ frag_log 6 ilen olen
      least low = pow-le-pow_right {n = 2} (omega arith) low

      fitting :
          (c n : ℕ) → 9 ≤ frag_log 6 ilen olen → 2 ^ frag_log 6 ilen olen + c ≤ n → 512 + c ≤ n
      fitting c n low h = omega (arith, least low)

  -- With two buffers, `br_ssl_engine_set_buffers_bidi` fails with BR_ERR_BAD_PARAM exactly when one
  -- cannot hold a 512-byte fragment with its overhead. Else the engine is started: it expects a
  -- header, its outgoing record is empty, and its fragment length, from 512 to 16384, fits both
  -- buffers with the overheads.
  pub set_buffers_bidi_lem :
      (rc : Engine R) (ibuf ilen obuf olen : ℕ)
      → ibuf ≢ null
      → obuf ≢ null
      → olen < 2 ^ 63
      → Started ilen olen (set_buffers_bidi R rc ibuf ilen obuf olen)
  unfolding set_buffers_bidi reset_state
  set_buffers_bidi_lem rc ibuf ilen obuf olen hi ho small =
      rw (ne→== ibuf null hi, ne→== obuf null ho)
        (with_buffers_lem (reset_state R rc) ibuf ilen obuf olen refl refl small)
