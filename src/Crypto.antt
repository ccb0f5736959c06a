-- ===== src/Crypto.antt =====
-- firmware/Crypto/aes_meshtastic.c: AES-128 in counter mode, in the build with the hardware AES.
-- The hardware and its driver are a parameter. The MCU is little-endian, so `memcpy` of a `uint32_t`
-- stores its lowest byte first.
pub mod Words
pub mod Block
pub mod Stream
pub mod Nonces
pub mod Noted
pub mod Failure
pub mod Sizes
pub mod Bytes
mod Tests
use meshtastic_mini.Base.{ℕ, zero, suc, ◌+◌, ◌-◌, ◌*◌, ◌/◌, ◌%◌, Bool, true, false, ltb, ◌==◌}
use meshtastic_mini.Base.{if◌then◌else◌, Option, none, some, List, [], ◌∷◌, bit_or, bit_xor, ◌<<<◌}
use meshtastic_mini.Base.{◌>>>◌, u8, u16, get_or, set, blit, replicate, take}

-- `HAL_CRYP_Init` and `HAL_CRYP_Encrypt` of the STM32WL HAL on a device in some state. The handle is
-- set to fetch the key through `pKey` at every call, so a call of `encrypt` takes the four words
-- there, and the four words of the block. `false` and `none` stand for any status but `HAL_OK`.
pub record Cryp : Type 1 where
  pub Device : Type 0
  pub init : Device → Device × Bool
  pub encrypt : Device → List ℕ → List ℕ → Device × Option (List ℕ)

abbrev pub mesh_aes_key_len : ℕ
mesh_aes_key_len = 16

-- The static variables; `hcryp` is the device's.
pub record Aes (hal : Cryp) : Type 0 where
  pub channel_key : List ℕ
  pub hw_key : List ℕ
  pub cryp_ready : Bool
  pub device : hal.Device

-- Word `i` of `bytes_to_be_words`.
unfoldable pub be_word : List ℕ → ℕ → ℕ
be_word b i =
    bit_or
      (bit_or (bit_or (get_or b (i * 4) 0 <<< 24) (get_or b (i * 4 + 1) 0 <<< 16))
        (get_or b (i * 4 + 2) 0 <<< 8))
      (get_or b (i * 4 + 3) 0)

unfoldable pub bytes_to_be_words : List ℕ → List ℕ
bytes_to_be_words b = be_word b 0 ∷ be_word b 1 ∷ be_word b 2 ∷ be_word b 3 ∷ []

-- The bytes of a word, highest first, before those of `rest`.
unfoldable pub be_bytes : ℕ → List ℕ → List ℕ
be_bytes w rest = u8 (w >>> 24) ∷ u8 (w >>> 16) ∷ u8 (w >>> 8) ∷ u8 w ∷ rest

unfoldable pub be_words_to_bytes : List ℕ → List ℕ
be_words_to_bytes w =
    be_bytes (get_or w 0 0)
      (be_bytes (get_or w 1 0) (be_bytes (get_or w 2 0) (be_bytes (get_or w 3 0) [])))

-- The bytes of a `uint32_t` in memory.
unfoldable pub memory_bytes : ℕ → List ℕ
memory_bytes x = x % 256 ∷ x / 256 % 256 ∷ x / 65536 % 256 ∷ x / 16777216 % 256 ∷ []

-- The nonce as it is set up before the loop.
unfoldable pub first_nonce : ℕ → ℕ → List ℕ
first_nonce packet_id from_node =
    blit (blit (replicate 16 0) 0 (memory_bytes packet_id)) 8 (memory_bytes from_node)

-- `nonce[15]++`
unfoldable pub next_nonce : List ℕ → List ℕ
next_nonce nonce = set nonce 15 (u8 (get_or nonce 15 0 + 1))

-- The inner loop at index `j`, with `left` rounds to go.
unfoldable pub xor_loop : List ℕ → ℕ → ℕ → ℕ → List ℕ → List ℕ
xor_loop keystream off zero j payload = payload
xor_loop keystream off (suc left) j payload =
    xor_loop keystream off left (j + 1)
      (set payload (off + j) (bit_xor (get_or payload (off + j) 0) (get_or keystream j 0)))

-- The bytes of the block at `off` that belong to the payload.
abbrev pub block_len : ℕ → ℕ → ℕ
block_len len off = if ltb 16 (len - off) then 16 else len - off

module _ (hal : Cryp) where
  unfoldable pub ensure_cryp : Aes hal → Aes hal × Bool
  ensure_cryp s =
      if s.cryp_ready
      then (s, true)
      else (let (device, ready) = hal.init s.device in
          if ready
          then (record s { device = device; cryp_ready = true }, true)
          else (record s { device = device }, false))

  unfoldable pub aes_ecb_block : List ℕ → Aes hal → Aes hal × Option (List ℕ)
  aes_ecb_block block s =
      let (s', ready) = ensure_cryp s in
      if ready
      then (let (device, out) = hal.encrypt s'.device s'.hw_key (bytes_to_be_words block) in
          (
            record s' { device = device },
            elim out [ none ↦ none | some w ↦ some (be_words_to_bytes w) ],
          ))
      else (s', none)

  -- The outer loop of `aes_ctr_crypt`, with fuel for its rounds; `none` if it still runs.
  unfoldable pub ctr_loop : ℕ → ℕ → ℕ → List ℕ → List ℕ → Aes hal → Option (Aes hal × List ℕ)
  ctr_loop zero len off nonce payload s = none
  ctr_loop (suc fuel) len off nonce payload s =
      let (s', block) = aes_ecb_block nonce s in
      let round : Option (Aes hal × List ℕ) = elim block [
        | none ↦ some (s', payload)
        | some keystream ↦
            ctr_loop fuel len (u16 (off + 16)) (next_nonce nonce)
              (xor_loop keystream off (block_len len off) 0 payload) s'
      ] in
      if ltb off len then round else some (s, payload)

  -- `aes_ctr_crypt`: the state and the payload afterwards.
  unfoldable pub aes_ctr_crypt : ℕ → List ℕ → ℕ → ℕ → ℕ → Aes hal → Option (Aes hal × List ℕ)
  aes_ctr_crypt fuel payload len packet_id from_node s =
      if len == 0
      then some (s, payload)
      else ctr_loop fuel len 0 (first_nonce packet_id from_node) payload s

  unfoldable pub aes_set_channel_key : Option (List ℕ) → Aes hal → Aes hal
  aes_set_channel_key none s = s
  aes_set_channel_key (some key) s =
      let channel_key = take mesh_aes_key_len key in
      record s {
        channel_key = channel_key;
        hw_key = bytes_to_be_words channel_key;
        cryp_ready = false;
      }
