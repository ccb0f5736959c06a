-- ===== src/Crypto/Sizes.antt =====
-- The cipher keeps the payload's length, whatever the hardware does.
use meshtastic_mini.Base.{ℕ, zero, suc, ◌+◌, ◌≡◌, refl, ◌∙◌, u16, Option-cases, inl, inr, Option}
use meshtastic_mini.Base.{none, some, List, length, length-set, ◌≤◌, ◌*◌, arith, Bool-cases, ltb→lt}
use meshtastic_mini.Base.{set, get_or, bit_xor, ltb, ◌==◌, if◌then◌else◌, Bool, true, false}
use meshtastic_mini.Crypto.{Cryp, Aes, xor_loop, block_len, ctr_loop, aes_ctr_crypt, aes_ecb_block}
use meshtastic_mini.Crypto.{first_nonce, next_nonce}
use mathlib.Core.Path.{subst}

-- A payload of this length, if the cipher returns.
pub data HasLength {hal : Cryp} (n : ℕ) : Option (Aes hal × List ℕ) → Type 0 where
  not_yet : HasLength n none
  of_length : {s : Aes hal} {out : List ℕ} → length out ≡ n → HasLength n (some (s, out))

length-xor_loop :
    (keystream : List ℕ) (off left j : ℕ) (payload : List ℕ)
    → length (xor_loop keystream off left j payload) ≡ length payload
unfolding xor_loop
length-xor_loop keystream off zero j payload = refl
length-xor_loop keystream off (suc left) j payload =
    let x = bit_xor (get_or payload (off + j) 0) (get_or keystream j 0) in
    length-xor_loop keystream off left (j + 1) (set payload (off + j) x)
    ∙ length-set payload (off + j) x

HasLength-if :
    {hal : Cryp} {n : ℕ} {a b : Option (Aes hal × List ℕ)} (c : Bool)
    → HasLength n a
    → HasLength n b
    → HasLength n (if c then a else b)
HasLength-if true x y = x
HasLength-if false x y = y

ctr_loop-HasLength :
    (hal : Cryp) (fuel len off : ℕ) (nonce payload : List ℕ) (s : Aes hal)
    → HasLength (length payload) (ctr_loop hal fuel len off nonce payload s)
unfolding ctr_loop
ctr_loop-HasLength hal zero len off nonce payload s = not_yet
ctr_loop-HasLength hal (suc fuel) len off nonce payload s =
    let block = aes_ecb_block hal nonce s in
    elim (Option-cases block.1) [
      | inl failed ↦ rw failed (HasLength-if (ltb off len) (of_length refl) (of_length refl))
      | inr (ks, e) ↦
          let mixed = xor_loop ks off (block_len len off) 0 payload in
          let later =
            ctr_loop-HasLength hal fuel len (u16 (off + 16)) (next_nonce nonce) mixed block.0 in
          let same = length-xor_loop ks off (block_len len off) 0 payload in
          rw e (
            HasLength-if (ltb off len)
              (subst
                (λ n.
                  HasLength n
                    (ctr_loop hal fuel len (u16 (off + 16)) (next_nonce nonce) mixed block.0))
                same later)
              (of_length refl))
    ]

-- Whatever the hardware does, the payload comes back with its length.
pub aes_ctr_crypt-HasLength :
    (hal : Cryp) (fuel : ℕ) (payload : List ℕ) (len p f : ℕ) (s : Aes hal)
    → HasLength (length payload) (aes_ctr_crypt hal fuel payload len p f s)
unfolding aes_ctr_crypt
aes_ctr_crypt-HasLength hal fuel payload len p f s =
    HasLength-if (len == 0) (of_length refl)
      (ctr_loop-HasLength hal fuel len 0 (first_nonce p f) payload s)

ctr_loop_ends :
    (hal : Cryp) (fuel len off : ℕ) (nonce payload : List ℕ) (s : Aes hal)
    → len ≤ 240
    → off ≤ 256
    → len ≤ off + 16 * fuel
    → (r : Aes hal × List ℕ) × (ctr_loop hal (suc fuel) len off nonce payload s ≡ some r)
unfolding ctr_loop
ctr_loop_ends hal zero len off nonce payload s small inside enough =
    let done : ltb off len ≡ false = ground arith in rw done ((s, payload), refl)
ctr_loop_ends hal (suc fuel) len off nonce payload s small inside enough =
    let block = aes_ecb_block hal nonce s in
    elim (Bool-cases (ltb off len)) [
      | inr done ↦ rw done ((s, payload), refl)
      | inl more ↦ elim (Option-cases block.1) [
        | inl failed ↦ rw (more, failed) ((block.0, payload), refl)
        | inr (ks, e) ↦
            let before = ltb→lt off len more in
            let (r, later) =
              ctr_loop_ends hal fuel len (u16 (off + 16)) (next_nonce nonce)
                (xor_loop ks off (block_len len off) 0 payload) block.0 small (omega arith)
                (omega arith) in
            (r, rw (more, e) later)
      ]
    ]

-- A payload of at most 240 bytes is through within 16 rounds, whatever the hardware does.
pub aes_ctr_crypt_ends :
    (hal : Cryp) (fuel : ℕ) (payload : List ℕ) (len p f : ℕ) (s : Aes hal)
    → len ≤ 240
    → 16 ≤ fuel
    → (r : Aes hal × List ℕ) × (aes_ctr_crypt hal fuel payload len p f s ≡ some r)
unfolding aes_ctr_crypt
aes_ctr_crypt_ends hal zero payload len p f s small enough = absurd (omega arith)
aes_ctr_crypt_ends hal (suc fuel) payload len p f s small enough = elim (Bool-cases (len == 0)) [
  | inl empty ↦ rw empty ((s, payload), refl)
  | inr some_bytes ↦
      rw some_bytes
        (ctr_loop_ends hal fuel len 0 (first_nonce p f) payload s small (omega arith) (omega arith))
]
