-- ===== src/Crypto/Stream.antt =====
-- The outer loop: every byte of the payload is mixed with the key stream of its place, so that a
-- second run with the same key, packet and sender takes the first one back.
use mathlib.Core.Logic.{◌⊎◌}
use mathlib.Core.Path.{subst}
use native.Mathlib.Decide.{dec_lt}
use meshtastic_mini.Base.{ℕ, zero, suc, ap₂, ◌+◌, ◌-◌, ◌*◌, ◌/◌, ◌%◌, ◌≤◌, ◌<◌, ◌≡◌, refl, ap, ◌∙◌}
use meshtastic_mini.Base.{List, [], ◌∷◌, ◌++◌, arith, false, some, bit_xor, length, get_or}
use meshtastic_mini.Base.{get_or_ext, xor_twice, u16, inl, inr, lt→ltb, ltb-false, ◌==◌}
use meshtastic_mini.Crypto.{Cryp, Aes, xor_loop, block_len, aes_ecb_block, ctr_loop, aes_ctr_crypt}
use meshtastic_mini.Crypto.{first_nonce, next_nonce, memory_bytes}
use meshtastic_mini.Crypto.Block.{IsMixed, xor_loop-IsMixed, Works, keystream_of, aes_ecb_block_ok}

-- The nonce of block `c`: the packet's number in bytes 0 to 3, the sender in bytes 8 to 11, the
-- block counter in byte 15, and zero elsewhere.
abbrev pub nonce_at : ℕ → ℕ → ℕ → List ℕ
nonce_at packet_id from_node c =
    memory_bytes packet_id ++ 0 ∷ 0 ∷ 0 ∷ 0 ∷ (memory_bytes from_node ++ 0 ∷ 0 ∷ 0 ∷ c % 256 ∷ [])

pub first_nonce-eq : (p f : ℕ) → first_nonce p f ≡ nonce_at p f 0
unfolding first_nonce memory_bytes
first_nonce-eq p f = refl

pub next_nonce-eq : (p f c : ℕ) → next_nonce (nonce_at p f c) ≡ nonce_at p f (c + 1)
unfolding next_nonce memory_bytes
next_nonce-eq p f c =
    ap (λ b. memory_bytes p ++ 0 ∷ 0 ∷ 0 ∷ 0 ∷ (memory_bytes f ++ 0 ∷ 0 ∷ 0 ∷ b ∷ [])) (omega arith)

module _ (cipher : List ℕ → List ℕ → List ℕ) (key : List ℕ) (p f : ℕ) where
  -- The byte of the key stream at index `i`.
  pub stream_byte : ℕ → ℕ
  stream_byte i = get_or (keystream_of cipher key (nonce_at p f (i / 16))) (i % 16) 0

  -- `after` is `before` with the bytes from `off` to `len` mixed with the key stream.
  pub record IsCrypted (off len : ℕ) (before after : List ℕ) : Type 0 where
    pub same_length : length after ≡ length before
    pub crypted :
        (i : ℕ) → off ≤ i → i < len → get_or after i 0 ≡ bit_xor (get_or before i 0) (stream_byte i)
    pub kept : (i : ℕ) → (i < off) ⊎ (len ≤ i) → get_or after i 0 ≡ get_or before i 0

  -- A block in front of what the later rounds do.
  one_block :
      (b len : ℕ) (before mid after : List ℕ)
      → b * 16 < len
      → IsMixed
          (keystream_of cipher key (nonce_at p f b))
          (b * 16)
          0
          (block_len len (b * 16))
          before
          mid
      → IsCrypted ((b + 1) * 16) len mid after
      → IsCrypted (b * 16) len before after
  one_block b len before mid after more m later = record {
    same_length = later.same_length ∙ m.same_length;
    crypted = λ i lo up. elim (dec_lt i ((b + 1) * 16)) [
      | yes inside ↦ in_block i lo up inside
      | no beyond ↦
          later.crypted i (omega arith) up
          ∙ ap (λ t. bit_xor t (stream_byte i)) (m.kept i (inr (block_end i (omega arith))))
    ];
    kept = λ i out. later.kept i (wider i out) ∙ m.kept i (around i out);
  }
    where
      block_end : (i : ℕ) → ((b + 1) * 16 ≤ i) ⊎ (len ≤ i) → b * 16 + block_len len (b * 16) ≤ i
      block_end i out = ground arith

      wider : (i : ℕ) → (i < b * 16) ⊎ (len ≤ i) → (i < (b + 1) * 16) ⊎ (len ≤ i)
      wider i (inl low) = inl (omega arith)
      wider i (inr high) = inr high

      around :
          (i : ℕ)
          → (i < b * 16) ⊎ (len ≤ i)
          → (i < b * 16 + 0) ⊎ (b * 16 + block_len len (b * 16) ≤ i)
      around i (inl low) = inl (omega arith)
      around i (inr high) = inr (block_end i (inr high))

      in_place :
          (j : ℕ)
          → j < 16
          → get_or (keystream_of cipher key (nonce_at p f b)) j 0 ≡ stream_byte (b * 16 + j)
      in_place j small =
          let quotient : b ≡ (b * 16 + j) / 16 = omega arith in
          let rest : j ≡ (b * 16 + j) % 16 = omega arith in
          unfold stream_byte in
          ap₂ (λ c k. get_or (keystream_of cipher key (nonce_at p f c)) k 0) quotient rest

      mixed_at :
          (j : ℕ)
          → j < 16
          → b * 16 + j < len
          → get_or after (b * 16 + j) 0
            ≡ bit_xor (get_or before (b * 16 + j) 0) (stream_byte (b * 16 + j))
      mixed_at j small up =
          later.kept (b * 16 + j) (inl (omega arith))
          ∙ m.mixed j (omega arith) (ground arith)
          ∙ ap (bit_xor (get_or before (b * 16 + j) 0)) (in_place j small)

      in_block :
          (i : ℕ)
          → b * 16 ≤ i
          → i < len
          → i < (b + 1) * 16
          → get_or after i 0 ≡ bit_xor (get_or before i 0) (stream_byte i)
      in_block i lo up inside =
          let e : b * 16 + (i - b * 16) ≡ i = omega arith in
          subst (λ k. get_or after k 0 ≡ bit_xor (get_or before k 0) (stream_byte k)) e
            (mixed_at (i - b * 16) (omega arith) (omega arith))

block_fits :
    (len b : ℕ) (payload : List ℕ)
    → b * 16 < len
    → len ≤ length payload
    → b * 16 + block_len len (b * 16) ≤ length payload
block_fits len b payload more fits = ground arith

module _ (hal : Cryp) (cipher : List ℕ → List ℕ → List ℕ) (works : Works hal cipher) where
  abbrev stream_block : Aes hal → ℕ → ℕ → ℕ → List ℕ
  stream_block s p f b = keystream_of cipher s.hw_key (nonce_at p f b)

  ctr_loop-step :
      (fuel len b p f : ℕ) (payload : List ℕ) (s : Aes hal)
      → len ≤ 65520
      → b * 16 < len
      → ctr_loop hal (suc fuel) len (b * 16) (nonce_at p f b) payload s
        ≡ ctr_loop hal fuel len
            ((b + 1) * 16)
            (nonce_at p f (b + 1))
            (xor_loop (stream_block s p f b) (b * 16) (block_len len (b * 16)) 0 payload)
            (aes_ecb_block hal (nonce_at p f b) s).0
  unfolding ctr_loop
  ctr_loop-step fuel len b p f payload s small more = rw (
    lt→ltb (b * 16) len more,
    (aes_ecb_block_ok hal cipher works (nonce_at p f b) s).0,
    next_nonce-eq p f b,
    next_off,
  )
    where
      next_off : u16 (b * 16 + 16) ≡ (b + 1) * 16
      next_off = omega arith

  -- The loop from block `b` on.
  ctr_loop-IsCrypted :
      (fuel len b p f : ℕ) (payload : List ℕ) (s : Aes hal)
      → len ≤ 65520
      → len ≤ length payload
      → 0 < fuel
      → len + 16 ≤ (b + fuel) * 16
      → (s' : Aes hal) × (out : List ℕ) × (ctr_loop hal fuel len (b * 16) (nonce_at p f b) payload s
          ≡ some (s', out))
        × IsCrypted cipher s.hw_key p f (b * 16) len payload out
        × (s'.hw_key ≡ s.hw_key)
  ctr_loop-IsCrypted zero len b p f payload s small fits some_fuel enough = absurd (omega arith)
  ctr_loop-IsCrypted (suc fuel) len b p f payload s small fits some_fuel enough =
      elim (dec_lt (b * 16) len) [
        | yes more ↦
            let ks = stream_block s p f b in
            let n = block_len len (b * 16) in
            let mid = xor_loop ks (b * 16) n 0 payload in
            let s1 = (aes_ecb_block hal (nonce_at p f b) s).0 in
            let same_key = (aes_ecb_block_ok hal cipher works (nonce_at p f b) s).1 in
            let m =
              xor_loop-IsMixed ks (b * 16) n 0 n payload (omega arith)
                (block_fits len b payload more fits) in
            let (s', out, done, later, key) =
              ctr_loop-IsCrypted fuel len (b + 1) p f mid s1 small (omega (arith, m.same_length))
                (omega arith) (omega arith) in
            (
              s',
              out,
              ctr_loop-step fuel len b p f payload s small more ∙ done,
              one_block cipher s.hw_key p f b len payload mid out more m
                  (subst (λ k. IsCrypted cipher k p f ((b + 1) * 16) len mid out) same_key later),
              key ∙ same_key,
            )
        | no over ↦ (
          s,
          payload,
          unfold ctr_loop in rw (ltb-false (b * 16) len (omega arith)),
          record {
            same_length = refl;
            crypted = λ i lo up. absurd (omega arith);
            kept = λ i out. refl;
          },
          refl,
        )
      ]

  -- On a working device, `aes_ctr_crypt` of a payload of at most 65520 bytes that lies in its
  -- buffer ends, with one round of fuel for each block and one more, keeps the key, and has mixed
  -- each of the bytes with the key stream of its place and changed nothing else.
  pub aes_ctr_crypt-IsCrypted :
      (fuel : ℕ) (payload : List ℕ) (len p f : ℕ) (s : Aes hal)
      → len ≤ 65520
      → len ≤ length payload
      → len + 16 ≤ fuel * 16
      → (s' : Aes hal) × (out : List ℕ) × (aes_ctr_crypt hal fuel payload len p f s
          ≡ some (s', out))
        × IsCrypted cipher s.hw_key p f 0 len payload out
        × (s'.hw_key ≡ s.hw_key)
  unfolding aes_ctr_crypt
  aes_ctr_crypt-IsCrypted fuel payload zero p f s small fits enough = (
    s,
    payload,
    refl,
    record { same_length = refl; crypted = λ i lo up. absurd (omega arith); kept = λ i out. refl },
    refl,
  )
  aes_ctr_crypt-IsCrypted fuel payload (suc n) p f s small fits enough =
      let (s', out, done, mixed, key) =
        ctr_loop-IsCrypted fuel (suc n) 0 p f payload s small fits (omega arith) (omega arith) in
      (s', out, rw (not_empty, first_nonce-eq p f) done, mixed, key)
    where
      not_empty : (suc n == 0) ≡ false
      not_empty = ground arith

  -- A byte mixed twice with the same byte of the key stream.
  same_payload :
      (payload sealed opened : List ℕ) (len p f : ℕ) (key : List ℕ)
      → IsCrypted cipher key p f 0 len payload sealed
      → IsCrypted cipher key p f 0 len sealed opened
      → opened ≡ payload
  same_payload payload sealed opened len p f key c c' =
      get_or_ext 0 opened payload (c'.same_length ∙ c.same_length) λ i inside. elim (dec_lt i len) [
        | yes up ↦
            c'.crypted i (omega arith) up
            ∙ ap (λ x. bit_xor x (stream_byte cipher key p f i)) (c.crypted i (omega arith) up)
            ∙ xor_twice (get_or payload i 0) (stream_byte cipher key p f i)
        | no over ↦ c'.kept i (inr (omega arith)) ∙ c.kept i (inr (omega arith))
      ]

  -- The cipher is its own inverse: with the same key, packet number and sender, a second run gives
  -- the payload back, whatever happened to the device in between.
  pub decrypts :
      (fuel : ℕ) (payload : List ℕ) (len p f : ℕ) (s t : Aes hal)
      → len ≤ 65520
      → len ≤ length payload
      → len + 16 ≤ fuel * 16
      → t.hw_key ≡ s.hw_key
      → (s' t' : Aes hal) × (sealed : List ℕ) × (aes_ctr_crypt hal fuel payload len p f s
          ≡ some (s', sealed))
        × (aes_ctr_crypt hal fuel sealed len p f t ≡ some (t', payload))
  decrypts fuel payload len p f s t small fits enough same_key =
      let (s', sealed, done, c, key) =
        aes_ctr_crypt-IsCrypted fuel payload len p f s small fits enough in
      let (t', opened, done', c', key') =
        aes_ctr_crypt-IsCrypted fuel sealed len p f t small (omega (arith, c.same_length)) enough in
      (
        s',
        t',
        sealed,
        done,
        done'
            ∙ ap (λ l. some (t', l))
                (same_payload payload sealed opened len p f s.hw_key c
                  (subst (λ k. IsCrypted cipher k p f 0 len sealed opened) same_key c')),
      )
