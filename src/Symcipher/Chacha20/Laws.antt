-- ===== src/Symcipher/Chacha20/Laws.antt =====
-- ChaCha20 xors a key stream into the data, so that it undoes itself.
use bearssl.Common.{
  ℕ, zero, suc, ◌+◌, ◌<◌, ◌≡◌, refl, sym, ap, ap₂, ◌∙◌, arith, List, [], ◌∷◌, ◌++◌, length, take,
  drop, ltb, ◌==◌, if◌then◌else◌, false, All, IsByte, u32, length-append, length-take, length-drop,
  take-append_at, drop-append_at, take-append-drop,
}
use bearssl.Common.BitLaws.{bit_xor_cancel, bit_xor-lt}
use bearssl.Codec.{range_dec32le}
use bearssl.Codec.RoundTrip.{range_enc32le-IsByte}
use bearssl.Prf.{xor_into}
use bearssl.Symcipher.Chacha20.{Chacha, key_stream, chacha20_loop, chacha20_ct_run}

-- What `br_poly1305_ctmul_run` and the records rely on in a ChaCha20 implementation, as documented in
-- inc/bearssl_block.h: encryption and decryption are the same operation, and data keeps its length.
pub record IsChacha (run : Chacha) : Type 0 where
  pub length_run : (key iv : List ℕ) (cc : ℕ) (d : List ℕ) → length (run key iv cc d).0 ≡ length d
  pub run_bytes :
      (key iv : List ℕ) (cc : ℕ) (d : List ℕ) → All IsByte d → All IsByte (run key iv cc d).0
  pub run_twice :
      (key iv : List ℕ) (cc : ℕ) (d : List ℕ) → (run key iv cc (run key iv cc d).0).0 ≡ d

xor_into_again : (d s : List ℕ) → xor_into (xor_into d s) s ≡ d
unfolding xor_into
xor_into_again [] s = refl
xor_into_again (x ∷ d) [] = refl
xor_into_again (x ∷ d) (y ∷ s) = ap₂ (λ a t. a ∷ t) (bit_xor_cancel x y) (xor_into_again d s)

length-xor_into : (d s : List ℕ) → length (xor_into d s) ≡ length d
unfolding xor_into
length-xor_into [] s = refl
length-xor_into (x ∷ d) [] = refl
length-xor_into (x ∷ d) (y ∷ s) = ap suc (length-xor_into d s)

xor_into-IsByte : (d s : List ℕ) → All IsByte d → All IsByte s → All IsByte (xor_into d s)
unfolding xor_into
xor_into-IsByte [] s hd hs = tt
xor_into-IsByte (x ∷ d) [] hd hs = hd
xor_into-IsByte (x ∷ d) (y ∷ s) hd hs = (bit_xor-lt 8 x y hd.0 hs.0, xor_into-IsByte d s hd.1 hs.1)

All-append : (xs ys : List ℕ) → All IsByte xs → All IsByte ys → All IsByte (xs ++ ys)
All-append [] ys hx hy = hy
All-append (x ∷ xs) ys hx hy = (hx.0, All-append xs ys hx.1 hy)

All-take : (n : ℕ) (xs : List ℕ) → All IsByte xs → All IsByte (take n xs)
All-take zero xs h = tt
All-take (suc n) [] h = tt
All-take (suc n) (x ∷ xs) h = (h.0, All-take n xs h.1)

All-drop : (n : ℕ) (xs : List ℕ) → All IsByte xs → All IsByte (drop n xs)
All-drop zero xs h = h
All-drop (suc n) [] h = tt
All-drop (suc n) (x ∷ xs) h = All-drop n xs h.1

-- The length of a piece.
abbrev pub piece_len : ℕ → ℕ
piece_len len = if ltb len 64 then len else 64

-- One turn of the loop.
pub loop_step :
    (fuel : ℕ) (kw ivw : List ℕ) (cc : ℕ) (buf : List ℕ)
    → 0 < length buf
    → let clen = piece_len (length buf) in
      let rest = chacha20_loop fuel kw ivw (u32 (cc + 1)) (drop clen buf) in
      chacha20_loop (suc fuel) kw ivw cc buf
      ≡ (xor_into (take clen buf) (key_stream kw ivw cc) ++ rest.0, rest.1)
unfolding chacha20_loop
loop_step fuel kw ivw cc buf h =
    let some : (length buf == 0) ≡ false = ground (arith, h) in rw some refl

-- The same for data that is given in its pieces.
loop_pieces :
    (fuel : ℕ) (kw ivw : List ℕ) (cc n : ℕ) (head tail : List ℕ)
    → length (head ++ tail) ≡ n
    → 0 < n
    → length head ≡ piece_len n
    → (chacha20_loop (suc fuel) kw ivw cc (head ++ tail)).0
      ≡ xor_into head (key_stream kw ivw cc) ++ (chacha20_loop fuel kw ivw (u32 (cc + 1)) tail).0
loop_pieces fuel kw ivw cc n head tail e pos size =
    let clen : length head ≡ piece_len (length (head ++ tail)) = size ∙ ap piece_len (sym e) in
    ap (λ (p : List ℕ × ℕ). p.0) (loop_step fuel kw ivw cc (head ++ tail) (omega (arith, e, pos)))
    ∙ ap₂
        (λ h t. xor_into h (key_stream kw ivw cc) ++ (chacha20_loop fuel kw ivw (u32 (cc + 1)) t).0)
        (take-append_at _ head tail clen) (drop-append_at _ head tail clen)

length-chacha20_loop :
    (fuel : ℕ) (kw ivw : List ℕ) (cc : ℕ) (d : List ℕ)
    → length (chacha20_loop fuel kw ivw cc d).0 ≡ length d
unfolding chacha20_loop
length-chacha20_loop zero kw ivw cc d = refl
length-chacha20_loop (suc fuel) kw ivw cc [] = refl
length-chacha20_loop (suc fuel) kw ivw cc (x ∷ d) =
    let clen = piece_len (length (x ∷ d)) in
    let rest = chacha20_loop fuel kw ivw (u32 (cc + 1)) (drop clen (x ∷ d)) in
    let ih = length-chacha20_loop fuel kw ivw (u32 (cc + 1)) (drop clen (x ∷ d)) in
    ap (λ (p : List ℕ × ℕ). length p.0) (loop_step fuel kw ivw cc (x ∷ d) (omega arith))
    ∙ omega (
      arith,
      length-append (xor_into (take clen (x ∷ d)) (key_stream kw ivw cc)) rest.0,
      length-xor_into (take clen (x ∷ d)) (key_stream kw ivw cc),
      length-take clen (x ∷ d),
      length-drop clen (x ∷ d),
      ih,
    )

chacha20_loop-IsByte :
    (fuel : ℕ) (kw ivw : List ℕ) (cc : ℕ) (d : List ℕ)
    → All IsByte d
    → All IsByte (chacha20_loop fuel kw ivw cc d).0
unfolding chacha20_loop key_stream
chacha20_loop-IsByte zero kw ivw cc d h = h
chacha20_loop-IsByte (suc fuel) kw ivw cc [] h = tt
chacha20_loop-IsByte (suc fuel) kw ivw cc (x ∷ d) h =
    let clen = piece_len (length (x ∷ d)) in
    let some : (length (x ∷ d) == 0) ≡ false = ground arith in
    rw some (
      All-append _ _
        (xor_into-IsByte (take clen (x ∷ d)) _ (All-take clen (x ∷ d) h) (range_enc32le-IsByte _))
        (chacha20_loop-IsByte fuel kw ivw (u32 (cc + 1)) (drop clen (x ∷ d))
          (All-drop clen (x ∷ d) h)))

-- A run over the data that a run gave, with the same key, IV and counter.
chacha20_loop_twice :
    (fuel : ℕ) (kw ivw : List ℕ) (cc : ℕ) (d : List ℕ)
    → (chacha20_loop fuel kw ivw cc (chacha20_loop fuel kw ivw cc d).0).0 ≡ d
chacha20_loop_twice zero kw ivw cc d = unfold chacha20_loop in refl
chacha20_loop_twice (suc fuel) kw ivw cc [] = unfold chacha20_loop in refl
chacha20_loop_twice (suc fuel) kw ivw cc (x ∷ d) =
    let n = length (x ∷ d) in
    let clen = piece_len n in
    let head = take clen (x ∷ d) in
    let tail = drop clen (x ∷ d) in
    let stream = key_stream kw ivw cc in
    let later = u32 (cc + 1) in
    let made = xor_into head stream in
    let rest = (chacha20_loop fuel kw ivw later tail).0 in
    let head_len : length head ≡ clen = ground (arith, length-take clen (x ∷ d)) in
    let sizes : length (made ++ rest) ≡ n = ground (
      arith,
      length-append made rest,
      length-xor_into head stream,
      length-chacha20_loop fuel kw ivw later tail,
      length-drop clen (x ∷ d),
      head_len,
    ) in
    ap (λ (p : List ℕ × ℕ). (chacha20_loop (suc fuel) kw ivw cc p.0).0)
      (loop_step fuel kw ivw cc (x ∷ d) (omega arith))
    ∙ loop_pieces fuel kw ivw cc n made rest sizes (omega arith)
        (length-xor_into head stream ∙ head_len)
    ∙ ap₂ (λ h t. h ++ t) (xor_into_again head stream) (chacha20_loop_twice fuel kw ivw later tail)
    ∙ take-append-drop clen (x ∷ d)

-- `br_chacha20_ct_run` has what is asked of a stream cipher: data keeps its length, bytes give bytes,
-- and a second run with the same key, IV and counter gives the data
-- back, for data of any length.
pub chacha20_ct_run-IsChacha : IsChacha chacha20_ct_run
unfolding chacha20_ct_run
chacha20_ct_run-IsChacha = record {
  length_run = λ key iv cc d. length-chacha20_loop (length d) _ _ cc d;
  run_bytes = λ key iv cc d h. chacha20_loop-IsByte (length d) _ _ cc d h;
  run_twice = λ key iv cc d.
      let kw = range_dec32le 8 key in
      let ivw = range_dec32le 3 iv in
      ap (λ n. (chacha20_loop n kw ivw cc (chacha20_loop (length d) kw ivw cc d).0).0)
        (length-chacha20_loop (length d) kw ivw cc d)
      ∙ chacha20_loop_twice (length d) kw ivw cc d;
}
