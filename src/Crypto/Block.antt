-- ===== src/Crypto/Block.antt =====
-- One block of the key stream, and the inner loop that mixes it into the payload.
use mathlib.Core.Logic.{◌⊎◌}
use meshtastic_mini.Base.{ℕ, zero, suc, ◌+◌, ◌≤◌, ◌<◌, ◌≡◌, refl, ◌∙◌, List, arith, true, some}
use meshtastic_mini.Base.{bit_xor, length, length-set, get_or, set, get_or-set_eq, get_or-set_other}
use meshtastic_mini.Crypto.{Cryp, Aes, bytes_to_be_words, be_words_to_bytes, xor_loop, ensure_cryp}
use meshtastic_mini.Crypto.{aes_ecb_block}

-- What the inner loop has done to the payload between `lo` and `hi`.
pub record IsMixed (keystream : List ℕ) (off lo hi : ℕ) (before after : List ℕ) : Type 0 where
  pub same_length : length after ≡ length before
  pub mixed :
      (j : ℕ)
      → lo ≤ j
      → j < hi
      → get_or after (off + j) 0 ≡ bit_xor (get_or before (off + j) 0) (get_or keystream j 0)
  pub kept : (i : ℕ) → (i < off + lo) ⊎ (off + hi ≤ i) → get_or after i 0 ≡ get_or before i 0

pub xor_loop-IsMixed :
    (keystream : List ℕ) (off left j hi : ℕ) (payload : List ℕ)
    → j + left ≡ hi
    → off + hi ≤ length payload
    → IsMixed keystream off j hi payload (xor_loop keystream off left j payload)
unfolding xor_loop
xor_loop-IsMixed keystream off zero j hi payload e fits = record {
  same_length = refl;
  mixed = λ i lo up. absurd (omega arith);
  kept = λ i out. refl;
}
xor_loop-IsMixed keystream off (suc left) j hi payload e fits =
    let x = bit_xor (get_or payload (off + j) 0) (get_or keystream j 0) in
    let after = set payload (off + j) x in
    let rest =
      xor_loop-IsMixed keystream off left (j + 1) hi after (omega arith)
        (omega (arith, length-set payload (off + j) x)) in
    record {
      same_length = rest.same_length ∙ length-set payload (off + j) x;
      mixed = λ i lo up. ground (
        arith,
        rest.mixed i,
        rest.kept (off + i),
        get_or-set_eq payload (off + j) x 0,
        get_or-set_other payload (off + j) (off + i) x 0,
      );
      kept = λ i out. ground (arith, rest.kept i, get_or-set_other payload (off + j) i x 0);
    }

-- A device that works: its initialisation succeeds, and it enciphers every block, by a function of
-- the key and the block alone.
pub record Works (hal : Cryp) (cipher : List ℕ → List ℕ → List ℕ) : Type 0 where
  pub init_ok : (d : hal.Device) → (hal.init d).1 ≡ true
  pub encrypt_ok :
      (d : hal.Device) (key block : List ℕ) → (hal.encrypt d key block).1 ≡ some (cipher key block)

-- The key stream of a block.
abbrev pub keystream_of : (List ℕ → List ℕ → List ℕ) → List ℕ → List ℕ → List ℕ
keystream_of cipher key nonce = be_words_to_bytes (cipher key (bytes_to_be_words nonce))

module _ (hal : Cryp) (cipher : List ℕ → List ℕ → List ℕ) (works : Works hal cipher) where
  ensure_cryp_ok :
      (s : Aes hal) → ((ensure_cryp hal s).1 ≡ true) × ((ensure_cryp hal s).0.hw_key ≡ s.hw_key)
  unfolding ensure_cryp
  ensure_cryp_ok s = ground (arith, works.init_ok s.device)

  -- On such a device a block succeeds from every state, with the key that the state holds.
  pub aes_ecb_block_ok :
      (block : List ℕ) (s : Aes hal)
      → ((aes_ecb_block hal block s).1 ≡ some (keystream_of cipher s.hw_key block))
        × ((aes_ecb_block hal block s).0.hw_key ≡ s.hw_key)
  unfolding aes_ecb_block
  aes_ecb_block_ok block s =
      let s' = (ensure_cryp hal s).0 in
      ground
        (arith, ensure_cryp_ok s, works.encrypt_ok s'.device s'.hw_key (bytes_to_be_words block))
