-- ===== src/Crypto/Bytes.antt =====
-- The cipher turns bytes into bytes, whatever the hardware does.
use meshtastic_mini.Base.{ℕ, zero, suc, ◌+◌, u16, Option-cases, inl, inr, Option, none, some, List}
use meshtastic_mini.Base.{get_or, bit_xor-lt, ltb, ◌==◌, if◌then◌else◌, Bool, true, false, arith}
use meshtastic_mini.Base.{AllBytes, AllBytes-set, AllBytes-get_or, Bool-cases}
use meshtastic_mini.Crypto.{Cryp, Aes, xor_loop, block_len, ctr_loop, aes_ctr_crypt, aes_ecb_block}
use meshtastic_mini.Crypto.{ensure_cryp, be_words_to_bytes, be_bytes, first_nonce, next_nonce}
use meshtastic_mini.Crypto.{bytes_to_be_words}
use mathlib.Core.Path.{subst}

-- Bytes, if the cipher returns.
pub data GivesBytes {hal : Cryp} : Option (Aes hal × List ℕ) → Type 0 where
  not_yet : GivesBytes none
  of_bytes : {s : Aes hal} {out : List ℕ} → AllBytes out → GivesBytes (some (s, out))

xor_loop-AllBytes :
    (keystream : List ℕ) (off left j : ℕ) (payload : List ℕ)
    → AllBytes keystream
    → AllBytes payload
    → AllBytes (xor_loop keystream off left j payload)
unfolding xor_loop
xor_loop-AllBytes keystream off zero j payload k v = v
xor_loop-AllBytes keystream off (suc left) j payload k v =
    let mixed =
      bit_xor-lt 8 (get_or payload (off + j) 0) (get_or keystream j 0)
        (AllBytes-get_or payload (off + j) v) (AllBytes-get_or keystream j k) in
    xor_loop-AllBytes keystream off left (j + 1) _ k (AllBytes-set payload (off + j) _ v mixed)

be_words_to_bytes-AllBytes : (w : List ℕ) → AllBytes (be_words_to_bytes w)
unfolding be_words_to_bytes be_bytes
be_words_to_bytes-AllBytes w = omega arith

-- What there is of a block is made of bytes.
abbrev AreBytes : Option (List ℕ) → Type 0
AreBytes none = Unit
AreBytes (some ks) = AllBytes ks

encrypted-AreBytes :
    (o : Option (List ℕ)) → AreBytes (elim o [ none ↦ none | some w ↦ some (be_words_to_bytes w) ])
encrypted-AreBytes none = tt
encrypted-AreBytes (some w) = be_words_to_bytes-AllBytes w

module _ (hal : Cryp) where
  block-AreBytes : (nonce : List ℕ) (s : Aes hal) → AreBytes (aes_ecb_block hal nonce s).1
  unfolding aes_ecb_block
  block-AreBytes nonce s =
      let (s', ready) = ensure_cryp hal s in
      elim (Bool-cases ready) [
        | inl can ↦
            rw can
              (encrypted-AreBytes (hal.encrypt s'.device s'.hw_key (bytes_to_be_words nonce)).1)
        | inr cannot ↦ rw cannot tt
      ]

  GivesBytes-if :
      {a b : Option (Aes hal × List ℕ)} (c : Bool)
      → GivesBytes a
      → GivesBytes b
      → GivesBytes (if c then a else b)
  GivesBytes-if true x y = x
  GivesBytes-if false x y = y

  ctr_loop-GivesBytes :
      (fuel len off : ℕ) (nonce payload : List ℕ) (s : Aes hal)
      → AllBytes payload
      → GivesBytes (ctr_loop hal fuel len off nonce payload s)
  unfolding ctr_loop
  ctr_loop-GivesBytes zero len off nonce payload s v = not_yet
  ctr_loop-GivesBytes (suc fuel) len off nonce payload s v =
      let block = aes_ecb_block hal nonce s in
      elim (Option-cases block.1) [
        | inl failed ↦ rw failed (GivesBytes-if (ltb off len) (of_bytes v) (of_bytes v))
        | inr (ks, e) ↦
            let keys : AllBytes ks = subst AreBytes e (block-AreBytes nonce s) in
            rw e (
              GivesBytes-if (ltb off len)
                (ctr_loop-GivesBytes fuel len (u16 (off + 16)) (next_nonce nonce) _ block.0
                  (xor_loop-AllBytes ks off (block_len len off) 0 payload keys v))
                (of_bytes v))
      ]

  -- Whatever the hardware does, a payload of bytes comes back as bytes.
  pub aes_ctr_crypt-GivesBytes :
      (fuel : ℕ) (payload : List ℕ) (len p f : ℕ) (s : Aes hal)
      → AllBytes payload
      → GivesBytes (aes_ctr_crypt hal fuel payload len p f s)
  unfolding aes_ctr_crypt
  aes_ctr_crypt-GivesBytes fuel payload len p f s v =
      GivesBytes-if (len == 0) (of_bytes v)
        (ctr_loop-GivesBytes fuel len 0 (first_nonce p f) payload s v)
