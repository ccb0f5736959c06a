-- ===== src/Crypto/Noted.antt =====
-- The blocks that `aes_ctr_crypt` hands to the hardware, as noted by it: no two of them are the same.
use meshtastic_mini.Base.{ℕ, zero, suc, ◌+◌, ◌/◌, ◌<◌, ◌^◌, ◌≡◌, refl, sym, ap, ◌∙◌, arith, List}
use meshtastic_mini.Base.{get_or, [], ◌∷◌, ◌++◌, length, some, true, false, ◌≤◌, ◌*◌, ◌-◌, ltb}
use meshtastic_mini.Base.{◌==◌, ◌≢◌, ◌⊎◌, inl, inr, Bool-cases, u16, ltb→lt}
use meshtastic_mini.Crypto.{Cryp, Aes, aes_ecb_block, ensure_cryp, ctr_loop, aes_ctr_crypt}
use meshtastic_mini.Crypto.{xor_loop, block_len, next_nonce, bytes_to_be_words, be_words_to_bytes}
use meshtastic_mini.Crypto.Nonces.{nonce_in_round, rounds_differ}

-- Hardware that answers every call, and whose state is the list of the blocks that it was handed.
abbrev pub noting : (List (List ℕ) → List ℕ → List ℕ → List ℕ) → Cryp
noting answer = record {
  Device = List (List ℕ);
  init = λ handed. (handed, true);
  encrypt = λ handed key block. (handed ++ block ∷ [], some (answer handed key block));
}

-- The blocks of `k` rounds from round `c` on.
unfoldable blocks : ℕ → ℕ → ℕ → ℕ → List (List ℕ)
blocks p f c zero = []
blocks p f c (suc k) = bytes_to_be_words (nonce_in_round p f c) ∷ blocks p f (suc c) k

length-blocks : (p f c k : ℕ) → length (blocks p f c k) ≡ k
unfolding blocks
length-blocks p f c zero = refl
length-blocks p f c (suc k) = ap suc (length-blocks p f (suc c) k)

get_or-blocks :
    (p f c k i : ℕ)
    → i < k
    → get_or (blocks p f c k) i [] ≡ bytes_to_be_words (nonce_in_round p f (i + c))
unfolding blocks
get_or-blocks p f c zero i inside = absurd (omega arith)
get_or-blocks p f c (suc k) zero inside =
    let same : c ≡ 0 + c = omega arith in ap (λ r. bytes_to_be_words (nonce_in_round p f r)) same
get_or-blocks p f c (suc k) (suc i) inside =
    let same : i + suc c ≡ suc i + c = omega arith in
    get_or-blocks p f (suc c) k i (omega arith)
    ∙ ap (λ r. bytes_to_be_words (nonce_in_round p f r)) same

with_nothing : (l : List (List ℕ)) → l ++ [] ≡ l
with_nothing [] = refl
with_nothing (x ∷ l) = ap (λ r. x ∷ r) (with_nothing l)

one_behind : (l : List (List ℕ)) (b : List ℕ) (m : List (List ℕ)) → (l ++ b ∷ []) ++ m ≡ l ++ b ∷ m
one_behind [] b m = refl
one_behind (x ∷ l) b m = ap (λ r. x ∷ r) (one_behind l b m)

ctr_loop-done :
    (hal : Cryp) (fuel len off : ℕ) (nonce payload : List ℕ) (s : Aes hal)
    → ltb off len ≡ false
    → ctr_loop hal (suc fuel) len off nonce payload s ≡ some (s, payload)
unfolding ctr_loop
ctr_loop-done hal fuel len off nonce payload s done = rw done refl

ctr_loop-round :
    (hal : Cryp) (fuel len off : ℕ) (nonce payload ks : List ℕ) (s s' : Aes hal)
    → ltb off len ≡ true
    → aes_ecb_block hal nonce s ≡ (s', some ks)
    → ctr_loop hal (suc fuel) len off nonce payload s
      ≡ ctr_loop hal fuel len
          (u16 (off + 16))
          (next_nonce nonce)
          (xor_loop ks off (block_len len off) 0 payload)
          s'
unfolding ctr_loop
ctr_loop-round hal fuel len off nonce payload ks s s' more e =
    rw (more, ap (λ r. r.1) e)
      (ap
        (ctr_loop hal fuel len (u16 (off + 16)) (next_nonce nonce)
          (xor_loop ks off (block_len len off) 0 payload))
        (ap (λ r. r.0) e))

module _ (answer : List (List ℕ) → List ℕ → List ℕ → List ℕ) where
  block_noted :
      (nonce : List ℕ) (s : Aes (noting answer))
      → (t : Aes (noting answer)) × (ks : List ℕ) × (aes_ecb_block (noting answer) nonce s
          ≡ (t, some ks))
        × (t.device ≡ s.device ++ bytes_to_be_words nonce ∷ [])
  unfolding aes_ecb_block ensure_cryp
  block_noted nonce s =
      let words = bytes_to_be_words nonce in
      let handed = s.device ++ words ∷ [] in
      let ks = be_words_to_bytes (answer s.device s.hw_key words) in
      elim (Bool-cases s.cryp_ready) [
        | inl ready ↦ (record s { device = handed }, ks, rw ready refl, refl)
        | inr cold ↦ (record s { device = handed; cryp_ready = true }, ks, rw cold refl, refl)
      ]

  ctr_loop-blocks :
      (fuel len off p f c : ℕ) (payload : List ℕ) (s : Aes (noting answer))
      → len ≤ 240
      → off ≤ 256
      → len ≤ off + 16 * fuel
      → (t : Aes (noting answer)) × (out : List ℕ) × (ctr_loop
            (noting answer)
            (suc fuel)
            len
            off
            (nonce_in_round p f c)
            payload
            s
          ≡ some (t, out))
        × (t.device ≡ s.device ++ blocks p f c ((len - off + 15) / 16))
  unfolding nonce_in_round blocks
  ctr_loop-blocks zero len off p f c payload s small inside enough =
      let done : ltb off len ≡ false = ground arith in
      let none_left : (len - off + 15) / 16 ≡ 0 = omega arith in
      (
        s,
        payload,
        ctr_loop-done (noting answer) 0 len off (nonce_in_round p f c) payload s done,
        rw none_left (sym (with_nothing s.device)),
      )
  ctr_loop-blocks (suc fuel) len off p f c payload s small inside enough =
      elim (Bool-cases (ltb off len)) [
        | inr done ↦
            let none_left : (len - off + 15) / 16 ≡ 0 = ground arith in
            (
              s,
              payload,
              ctr_loop-done (noting answer) (suc fuel) len off (nonce_in_round p f c) payload s
                  done,
              rw none_left (sym (with_nothing s.device)),
            )
        | inl more ↦
            let before = ltb→lt off len more in
            let (s', ks, e, noted) = block_noted (nonce_in_round p f c) s in
            let (t, out, later, behind) =
              ctr_loop-blocks fuel len (u16 (off + 16)) p f (suc c)
                (xor_loop ks off (block_len len off) 0 payload) s' small (omega arith)
                (omega arith) in
            let one_more : (len - off + 15) / 16 ≡ suc ((len - u16 (off + 16) + 15) / 16) =
              omega arith in
            (
              t,
              out,
              ctr_loop-round (noting answer) (suc fuel) len off (nonce_in_round p f c) payload ks s
                    s' more e
                  ∙ later,
              behind
                  ∙ ap (λ l. l ++ blocks p f (suc c) ((len - u16 (off + 16) + 15) / 16)) noted
                  ∙ one_behind s.device (bytes_to_be_words (nonce_in_round p f c))
                      (blocks p f (suc c) ((len - u16 (off + 16) + 15) / 16))
                  ∙ ap (λ k. s.device ++ blocks p f c k) (sym one_more),
            )
      ]

  aes_ctr_crypt-blocks :
      (fuel len p f : ℕ) (payload : List ℕ) (s : Aes (noting answer))
      → len ≤ 240
      → 16 ≤ fuel
      → s.device ≡ []
      → (t : Aes (noting answer)) × (out : List ℕ) × (aes_ctr_crypt
            (noting answer)
            fuel
            payload
            len
            p
            f
            s
          ≡ some (t, out))
        × (t.device ≡ blocks p f 0 ((len + 15) / 16))
  unfolding aes_ctr_crypt
  aes_ctr_crypt-blocks zero len p f payload s small enough fresh = absurd (omega arith)
  aes_ctr_crypt-blocks (suc fuel) len p f payload s small enough fresh =
      elim (Bool-cases (len == 0)) [
        | inl empty ↦
            let none_left : (len + 15) / 16 ≡ 0 = ground arith in
            rw (empty, none_left) (s, payload, refl, unfold blocks in fresh)
        | inr some_bytes ↦
            let from_start : (len - 0 + 15) / 16 ≡ (len + 15) / 16 = omega arith in
            let (t, out, e, noted) =
              ctr_loop-blocks fuel len 0 p f 0 payload s small (omega arith) (omega arith) in
            rw some_bytes (
              t,
              out,
              unfold nonce_in_round in e,
              noted
                  ∙ ap (λ k. s.device ++ blocks p f 0 k) from_start
                  ∙ ap (λ l. l ++ blocks p f 0 ((len + 15) / 16)) fresh,
            )
      ]

-- Two payloads of at most 240 bytes go through `aes_ctr_crypt`, with fuel for 16 rounds, on hardware
-- that answers every call and notes the blocks that it is handed. Both calls return, and each has handed
-- over one block for every 16 bytes, rounded up. If the packet numbers differ, or the senders, or
-- `i` and `j` do, then block `i` of the first and block `j` of the second are not the same.
pub blocks_differ :
    (answer : List (List ℕ) → List ℕ → List ℕ → List ℕ) (fuel len len' p q f g i j : ℕ)
    (payload payload' : List ℕ) (s s' : Aes (noting answer))
    → s.device ≡ []
    → s'.device ≡ []
    → len ≤ 240
    → len' ≤ 240
    → 16 ≤ fuel
    → p < 2 ^ 32
    → q < 2 ^ 32
    → f < 2 ^ 32
    → g < 2 ^ 32
    → i < (len + 15) / 16
    → j < (len' + 15) / 16
    → (p ≢ q) ⊎ (f ≢ g) ⊎ (i ≢ j)
    → (t t' : Aes (noting answer)) × (out out' : List ℕ) × (aes_ctr_crypt
          (noting answer)
          fuel
          payload
          len
          p
          f
          s
        ≡ some (t, out))
      × (aes_ctr_crypt (noting answer) fuel payload' len' q g s' ≡ some (t', out'))
      × (length t.device ≡ (len + 15) / 16)
      × (length t'.device ≡ (len' + 15) / 16)
      × (get_or t.device i [] ≢ get_or t'.device j [])
blocks_differ answer fuel len len' p q f g i j payload payload' s s' fresh fresh' small small'
      enough hp hq hf hg hi hj differ =
    let (t, out, e, noted) =
      aes_ctr_crypt-blocks answer fuel len p f payload s small enough fresh in
    let (t', out', e', noted') =
      aes_ctr_crypt-blocks answer fuel len' q g payload' s' small' enough fresh' in
    let entry : get_or t.device i [] ≡ bytes_to_be_words (nonce_in_round p f (i + 0)) =
      ap (λ l. get_or l i []) noted ∙ get_or-blocks p f 0 _ i hi in
    let entry' : get_or t'.device j [] ≡ bytes_to_be_words (nonce_in_round q g (j + 0)) =
      ap (λ l. get_or l j []) noted' ∙ get_or-blocks q g 0 _ j hj in
    (
      t,
      t',
      out,
      out',
      e,
      e',
      ap length noted ∙ length-blocks p f 0 _,
      ap length noted' ∙ length-blocks q g 0 _,
      λ same.
          (let (ep, ef, er) =
              rounds_differ p q f g (i + 0) (j + 0) hp hq hf hg (omega arith) (omega arith)
                (sym entry ∙ same ∙ entry') in
            elim differ [
              | inl d ↦ d ep
              | inr d ↦ elim d [ inl d' ↦ d' ef | inr d' ↦ d' (omega (arith, er)) ]
            ]),
    )
