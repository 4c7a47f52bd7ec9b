-- ===== src/Hash/Blocks/Update.antt =====
-- The buffering of the update functions: whatever the pieces, the values are
-- those of the whole blocks and the buffer holds the rest.
use bearssl.Common.{
  ℕ, zero, suc, ◌+◌, ◌-◌, ◌*◌, ◌%◌, ◌≤◌, ◌<◌, ◌≡◌, refl, sym, ap, ◌∙◌, arith, List, [], ◌∷◌, ◌++◌,
  length, take, drop, ltb, ◌==◌, if◌then◌else◌, length-append, length-take, length-drop,
  take-append-drop, take-append_at, inl, inr, Bool-cases, false, u64,
}
use bearssl.Hmac.Laws.{append_assoc, append_nil}
use bearssl.Hash.Blocks.{Context, overlay, update_loop, blocks_update}
use bearssl.Hash.Blocks.Spec.{compress, compress-append}

module _ (round : List ℕ → List ℕ → List ℕ) where
  -- The buffer and the values after the message `m`: whole blocks, and a tail in the buffer.
  pub record Buffered (iv buf val m : List ℕ) : Type 0 where
    pub blocks : ℕ
    pub done : List ℕ
    pub tail : List ℕ
    pub parts : done ++ tail ≡ m
    pub whole : length done ≡ 64 * blocks
    pub short : length tail < 64
    pub values : val ≡ compress round blocks iv done
    pub size : length buf ≡ 64
    pub held : take (length tail) buf ≡ tail

  pub length-Buffered :
      (iv buf val m : List ℕ) (s : Buffered iv buf val m) → length m ≡ 64 * s.blocks + length s.tail
  length-Buffered iv buf val m s =
      sym (ap length s.parts) ∙ omega (arith, length-append s.done s.tail, s.whole)

  drop_none : (n : ℕ) (xs : List ℕ) → length xs ≤ n → drop n xs ≡ []
  drop_none zero [] h = refl
  drop_none zero (x ∷ xs) h = absurd (omega arith)
  drop_none (suc n) [] h = refl
  drop_none (suc n) (x ∷ xs) h = drop_none n xs (omega arith)

  -- A piece that ends the block.
  full_block :
      (iv buf val m x : List ℕ) (s : Buffered iv buf val m)
      → length s.tail + length x ≡ 64
      → Buffered iv
          (overlay buf (length s.tail) x)
          (round (overlay buf (length s.tail) x) val)
          (m ++ x)
  unfolding compress
  full_block iv buf val m x s e =
      let block : overlay buf (length s.tail) x ≡ s.tail ++ x =
        rw (s.held, drop_none (length s.tail + length x) buf (omega (arith, s.size)), append_nil x)
          refl in
      rw block (record {
        blocks = s.blocks + 1;
        done = s.done ++ (s.tail ++ x);
        tail = [];
        parts = append_nil _ ∙ sym (append_assoc s.done s.tail x) ∙ ap (λ t. t ++ x) s.parts;
        whole = omega (arith, length-append s.done (s.tail ++ x), length-append s.tail x, s.whole);
        short = omega arith;
        values = sym (
            compress-append round s.blocks 1 iv s.done (s.tail ++ x) s.whole
            ∙ rw (length_block s.tail x e, sym s.values) refl);
        size = length-append s.tail x ∙ e;
        held = refl;
      })
    where
      length_block : (a b : List ℕ) → length a + length b ≡ 64 → take 64 (a ++ b) ≡ a ++ b
      length_block a b e' =
          ap (take 64) (sym (append_nil (a ++ b)))
          ∙ take-append_at 64 (a ++ b) [] (length-append a b ∙ e')

  -- A piece that does not.
  part_block :
      (iv buf val m x : List ℕ) (s : Buffered iv buf val m)
      → length s.tail + length x < 64
      → Buffered iv (overlay buf (length s.tail) x) val (m ++ x)
  part_block iv buf val m x s h = record {
    blocks = s.blocks;
    done = s.done;
    tail = s.tail ++ x;
    parts = sym (append_assoc s.done s.tail x) ∙ ap (λ t. t ++ x) s.parts;
    whole = s.whole;
    short = omega (arith, length-append s.tail x, h);
    values = s.values;
    size = rw s.held (
        omega (
          arith,
          length-append s.tail (x ++ rest),
          length-append x rest,
          length-drop (length s.tail + length x) buf,
          s.size,
          h,
        ));
    held = rw s.held (
        rw (sym (append_assoc s.tail x rest))
          (take-append_at (length (s.tail ++ x)) (s.tail ++ x) rest refl));
  }
    where
      rest : List ℕ
      rest = drop (length s.tail + length x) buf

  pub remainder : (q t n : ℕ) → n ≡ 64 * q + t → t < 64 → n % 64 ≡ t
  remainder q t n e h = omega arith

  -- One turn of the loop, with the place in the buffer.
  chunk :
      (iv buf val m x : List ℕ) (s : Buffered iv buf val m) (ptr clen : ℕ)
      → ptr ≡ length s.tail
      → length x ≡ clen
      → ptr + clen ≤ 64
      → let full = ptr + clen == 64 in
        let buf' = overlay buf ptr x in
        Buffered iv buf' (if full then round buf' val else val) (m ++ x)
        × ((if full then 0 else ptr + clen) ≡ length (m ++ x) % 64)
  chunk iv buf val m x s ptr clen at size fits =
      let all : length (m ++ x) ≡ 64 * s.blocks + ptr + clen =
        omega (arith, length-append m x, length-Buffered iv buf val m s, at, size) in
      elim (Bool-cases (ptr + clen == 64)) [
        | inl e ↦
            let full : ptr + clen ≡ 64 = ground (arith, e) in
            rw (e, at)
              (
                full_block iv buf val m x s (omega (arith, full, at, size)),
                sym (
                    remainder (s.blocks + 1) 0 (length (m ++ x)) (omega (arith, all, full))
                      (omega arith)),
              )
        | inr e ↦
            let part : ptr + clen < 64 = ground (arith, e, fits) in
            rw e (
              rw at (part_block iv buf val m x s (omega (arith, part, at, size))),
              sym (remainder s.blocks (ptr + clen) (length (m ++ x)) (omega (arith, all)) part),
            )
      ]

  -- With as much fuel as bytes the loop takes in all the data.
  update_loop_lem :
      (iv : List ℕ) (fuel ptr : ℕ) (buf val m d all : List ℕ)
      → length d ≤ fuel
      → ptr ≡ length m % 64
      → m ++ d ≡ all
      → Buffered iv buf val m
      → let loop = update_loop round fuel ptr buf val d in Buffered iv loop.0 loop.1 all
  unfolding update_loop
  update_loop_lem iv zero ptr buf val m [] all h p e s = rw (sym e ∙ append_nil m) s
  update_loop_lem iv zero ptr buf val m (x ∷ d) all h p e s = absurd (omega arith)
  update_loop_lem iv (suc fuel) ptr buf val m [] all h p e s = rw (sym e ∙ append_nil m) s
  update_loop_lem iv (suc fuel) ptr buf val m (x ∷ d) all h p e s =
      let clen = if ltb (length (x ∷ d)) (64 - ptr) then length (x ∷ d) else 64 - ptr in
      let piece = take clen (x ∷ d) in
      let at : ptr ≡ length s.tail =
        p ∙ remainder s.blocks _ _ (length-Buffered iv buf val m s) s.short in
      let clen_pos : 0 < clen = ground (arith, at, s.short) in
      let clen_le : clen ≤ length (x ∷ d) = ground arith in
      let clen_fits : ptr + clen ≤ 64 = ground (arith, at, s.short) in
      let clen_eq : length piece ≡ clen = omega (arith, length-take clen (x ∷ d), clen_le) in
      let next = chunk iv buf val m piece s ptr clen at clen_eq clen_fits in
      let joined : (m ++ piece) ++ drop clen (x ∷ d) ≡ all =
        append_assoc m piece (drop clen (x ∷ d))
        ∙ ap (λ t. m ++ t) (take-append-drop clen (x ∷ d))
        ∙ e in
      let some : (length (x ∷ d) == 0) ≡ false = ground arith in
      rw some (
        update_loop_lem iv fuel (if ptr + clen == 64 then 0 else ptr + clen) (overlay buf ptr piece)
          (if ptr + clen == 64 then round (overlay buf ptr piece) val else val) (m ++ piece)
          (drop clen (x ∷ d)) all (omega (arith, length-drop clen (x ∷ d), clen_pos, h)) next.1
          joined next.0)

  -- What a context stands for: the message, with its length modulo 2^64.
  pub record Holds (iv : List ℕ) (ctx : Context) (m : List ℕ) : Type 0 where
    pub counted : ctx.count ≡ u64 (length m)
    pub buffered : Buffered iv ctx.buf ctx.val m

  pub blocks_update-Holds :
      (iv : List ℕ) (ctx : Context) (m d : List ℕ)
      → Holds iv ctx m
      → Holds iv (blocks_update round ctx d) (m ++ d)
  unfolding blocks_update
  blocks_update-Holds iv ctx m d s = record {
    counted = omega (arith, length-append m d, s.counted);
    buffered =
        update_loop_lem iv (length d) (ctx.count % 64) ctx.buf ctx.val m d (m ++ d) (omega arith)
          (omega (arith, s.counted)) refl s.buffered;
  }
