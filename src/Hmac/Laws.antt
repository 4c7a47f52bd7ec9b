-- ===== src/Hmac/Laws.antt =====
-- What src/mac/hmac.c computes: HMAC of RFC 2104.
use bearssl.Common.{
  ℕ, zero, suc, ◌-◌, ◌≤◌, ◌≡◌, refl, sym, ap, ap₂, ◌∙◌, arith, inl, inr, Bool-cases, ◌&&◌, ltb,
  if◌then◌else◌, List, [], ◌∷◌, ◌++◌, length, take, replicate, map, bit_xor, length-take_all,
  length-append, length-replicate,
}
use bearssl.Common.Bits.{zero-bit_xor}
use bearssl.Hmac.{
  HashClass, HmacContext, block_size, digest_size, process_key, short_key, key_init, hmac_init,
  hmac_update, hmac_out,
}

-- What is documented of a hash function in inc/bearssl_hash.h: a context stands for the bytes that
-- were injected, the output is a function of them, and a state saved after one block can be
-- restored. `Holds` says what bytes a context stands for.
pub record IsHash (dig : HashClass) (hash : List ℕ → List ℕ) (Holds : dig.Context → List ℕ → Type 0)
    : Type 0 where
  pub start_holds : Holds dig.start []
  pub inject_holds : (c : dig.Context) (m d : List ℕ) → Holds c m → Holds (dig.inject c d) (m ++ d)
  pub out_holds : (c : dig.Context) (m : List ℕ) → Holds c m → dig.out c ≡ hash m
  pub restored :
      (c : dig.Context) (m : List ℕ)
      → Holds c m
      → length m ≡ block_size dig
      → Holds (dig.set_state dig.start (dig.state c) (block_size dig)) m
  pub size : (m : List ℕ) → length (hash m) ≡ digest_size dig
  pub fits : digest_size dig ≤ block_size dig

-- The key of one block: a long one is hashed, and zeros follow.
pub key_block : HashClass → (List ℕ → List ℕ) → List ℕ → List ℕ
key_block dig hash key =
    let k = if ltb (block_size dig) (length key) then hash key else key in
    k ++ replicate (block_size dig - length k) 0

-- HMAC as RFC 2104 defines it.
pub hmac_of : HashClass → (List ℕ → List ℕ) → List ℕ → List ℕ → List ℕ
hmac_of dig hash key m =
    let k = key_block dig hash key in
    hash (map (λ b. bit_xor b 0x5c) k ++ hash (map (λ b. bit_xor b 0x36) k ++ m))

-- The data given in pieces.
unfoldable pub hmac_updates : (dig : HashClass) → HmacContext dig → List (List ℕ) → HmacContext dig
hmac_updates dig ctx [] = ctx
hmac_updates dig ctx (d ∷ ds) = hmac_updates dig (hmac_update dig ctx d) ds

abbrev pub join : List (List ℕ) → List ℕ
join [] = []
join (d ∷ ds) = d ++ join ds

pub append_assoc : (a b c : List ℕ) → (a ++ b) ++ c ≡ a ++ (b ++ c)
append_assoc [] b c = refl
append_assoc (x ∷ a) b c = ap (λ t. x ∷ t) (append_assoc a b c)

pub append_nil : (a : List ℕ) → a ++ [] ≡ a
append_nil [] = refl
append_nil (x ∷ a) = ap (λ t. x ∷ t) (append_nil a)

length-map : (f : ℕ → ℕ) (xs : List ℕ) → length (map f xs) ≡ length xs
length-map f [] = refl
length-map f (x ∷ xs) = ap suc (length-map f xs)

map-zeros : (bb n : ℕ) → map (λ b. bit_xor b bb) (replicate n 0) ≡ replicate n bb
map-zeros bb zero = refl
map-zeros bb (suc n) = ap₂ (λ h t. h ∷ t) (zero-bit_xor bb) (map-zeros bb n)

map-append_zeros :
    (bb n : ℕ) (k : List ℕ)
    → map (λ b. bit_xor b bb) (k ++ replicate n 0) ≡ map (λ b. bit_xor b bb) k ++ replicate n bb
map-append_zeros bb n [] = map-zeros bb n
map-append_zeros bb n (x ∷ k) = ap (λ t. bit_xor x bb ∷ t) (map-append_zeros bb n k)

-- The length of the output that `br_hmac_init` chooses.
abbrev pub chosen_len : HashClass → ℕ → ℕ
chosen_len dig out_len =
    if ltb 0 out_len && ltb out_len (digest_size dig) then out_len else digest_size dig

module _ (dig : HashClass) (hash : List ℕ → List ℕ) (Holds : dig.Context → List ℕ → Type 0)
    (law : IsHash dig hash Holds) where
  -- The key block with every byte xored.
  abbrev masked : List ℕ → ℕ → List ℕ
  masked key bb = map (λ b. bit_xor b bb) (key_block dig hash key)

  injected : (d : List ℕ) → Holds (dig.inject dig.start d) d
  injected d = law.inject_holds dig.start [] d law.start_holds

  short_key_lem :
      (key : List ℕ)
      → (short_key dig key ≡ (if ltb (block_size dig) (length key) then hash key else key))
        × (length (short_key dig key) ≤ block_size dig)
  unfolding short_key
  short_key_lem key = elim (Bool-cases (ltb (block_size dig) (length key))) [
    | inl e ↦
        let hashed : take (digest_size dig) (dig.out (dig.inject dig.start key)) ≡ hash key =
          ap (take (digest_size dig)) (law.out_holds _ key (injected key))
          ∙ length-take_all (digest_size dig) (hash key) (law.size key) in
        rw e (hashed, rw hashed (omega (arith, law.size key, law.fits)))
    | inr e ↦ rw e (refl, ground arith)
  ]

  process_fitting :
      (k : List ℕ) (bb : ℕ)
      → length k ≤ block_size dig
      → Holds
          (dig.set_state dig.start (process_key dig k bb) (block_size dig))
          (map (λ b. bit_xor b bb) (k ++ replicate (block_size dig - length k) 0))
  unfolding process_key
  process_fitting k bb le =
      let n = block_size dig - length k in
      let masked_key = map (λ b. bit_xor b bb) k in
      rw (map-append_zeros bb n k) (
        law.restored _ (masked_key ++ replicate n bb) (injected (masked_key ++ replicate n bb)) (
          omega (
            arith,
            length-append masked_key (replicate n bb),
            length-map (λ b. bit_xor b bb) k,
            length-replicate n bb,
          )))

  -- A saved key state restores to the masked key block.
  process_key_lem :
      (key : List ℕ) (bb : ℕ)
      → Holds
          (dig.set_state dig.start (process_key dig (short_key dig key) bb) (block_size dig))
          (masked key bb)
  unfolding key_block
  process_key_lem key bb =
      let short = short_key_lem key in
      rw (sym short.0) (process_fitting (short_key dig key) bb short.1)

  updates_hold :
      (ctx : HmacContext dig) (m : List ℕ) (ds : List (List ℕ))
      → Holds ctx.running m
      → Holds (hmac_updates dig ctx ds).running (m ++ join ds)
  unfolding hmac_updates hmac_update
  updates_hold ctx m [] h = rw (append_nil m) h
  updates_hold ctx m (d ∷ ds) h =
      rw (sym (append_assoc m d (join ds)))
        (updates_hold (hmac_update dig ctx d) (m ++ d) ds (law.inject_holds ctx.running m d h))

  updates_keep :
      (ctx : HmacContext dig) (ds : List (List ℕ))
      → ((hmac_updates dig ctx ds).outer ≡ ctx.outer)
        × ((hmac_updates dig ctx ds).out_len ≡ ctx.out_len)
  unfolding hmac_updates hmac_update
  updates_keep ctx [] = (refl, refl)
  updates_keep ctx (d ∷ ds) = updates_keep (hmac_update dig ctx d) ds

  out_lem :
      (ctx : HmacContext dig) (key m : List ℕ)
      → Holds ctx.running m
      → ctx.outer ≡ process_key dig (short_key dig key) 0x5c
      → hmac_out dig ctx ≡ take ctx.out_len (hash (masked key 0x5c ++ hash m))
  unfolding hmac_out
  out_lem ctx key m h e =
      let inner : take (digest_size dig) (dig.out ctx.running) ≡ hash m =
        ap (take (digest_size dig)) (law.out_holds ctx.running m h)
        ∙ length-take_all (digest_size dig) (hash m) (law.size m) in
      rw (inner, e)
        (ap (take ctx.out_len) (
          law.out_holds _ _
            (law.inject_holds _ (masked key 0x5c) (hash m) (process_key_lem key 0x5c))))

  -- With a hash function as documented, initialising, giving the data in any pieces and asking for
  -- the output yields HMAC as RFC 2104 defines it on the whole data, cut to the chosen length.
  pub hmac_lem :
      (key : List ℕ) (out_len : ℕ) (ds : List (List ℕ))
      → hmac_out dig (hmac_updates dig (hmac_init dig (key_init dig key) out_len) ds)
        ≡ take (chosen_len dig out_len) (hmac_of dig hash key (join ds))
  unfolding hmac_init key_init hmac_of
  hmac_lem key out_len ds =
      let ctx = hmac_init dig (key_init dig key) out_len in
      let keep = updates_keep ctx ds in
      let data_held = updates_hold ctx (masked key 0x36) ds (process_key_lem key 0x36) in
      out_lem (hmac_updates dig ctx ds) key (masked key 0x36 ++ join ds) data_held keep.0
      ∙ ap (λ n. take n (hmac_of dig hash key (join ds))) keep.1

  pub length-hmac_of : (key m : List ℕ) → length (hmac_of dig hash key m) ≡ digest_size dig
  unfolding hmac_of
  length-hmac_of key m = law.size _

  -- Without a chosen length the output is not cut.
  pub hmac_full :
      (key : List ℕ) (ds : List (List ℕ))
      → hmac_out dig (hmac_updates dig (hmac_init dig (key_init dig key) 0) ds)
        ≡ hmac_of dig hash key (join ds)
  hmac_full key ds =
      hmac_lem key 0 ds
      ∙ length-take_all (digest_size dig) (hmac_of dig hash key (join ds))
          (length-hmac_of key (join ds))
