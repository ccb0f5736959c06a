-- ===== src/Crypto/Nonces.antt =====
-- The nonces of the rounds of the cipher's loop: no two of them are the same.
use meshtastic_mini.Base.{ℕ, zero, suc, ◌+◌, ◌/◌, ◌%◌, ◌<◌, ◌^◌, ◌≡◌, refl, sym, ap, ◌∙◌, arith}
use meshtastic_mini.Base.{List, get_or, AllBytes}
use meshtastic_mini.Crypto.{first_nonce, next_nonce, memory_bytes, bytes_to_be_words}
use meshtastic_mini.Crypto.{be_words_to_bytes}
use meshtastic_mini.Crypto.Words.{be_words_to_bytes-bytes_to_be_words}
use meshtastic_mini.Crypto.Stream.{nonce_at, first_nonce-eq, next_nonce-eq}

-- The nonce in round `c` of the loop of `aes_ctr_crypt`.
unfoldable pub nonce_in_round : ℕ → ℕ → ℕ → List ℕ
nonce_in_round packet_id from_node zero = first_nonce packet_id from_node
nonce_in_round packet_id from_node (suc c) = next_nonce (nonce_in_round packet_id from_node c)

nonce_in_round-eq : (p f c : ℕ) → nonce_in_round p f c ≡ nonce_at p f c
unfolding nonce_in_round
nonce_in_round-eq p f zero = first_nonce-eq p f
nonce_in_round-eq p f (suc c) =
    let one_more : c + 1 ≡ suc c = omega arith in
    ap next_nonce (nonce_in_round-eq p f c) ∙ next_nonce-eq p f c ∙ ap (nonce_at p f) one_more

nonce_at-AllBytes : (p f c : ℕ) → AllBytes (nonce_at p f c)
unfolding memory_bytes
nonce_at-AllBytes p f c = omega arith

-- A number below 2 ^ 32 is its four bytes.
same_number :
    (x y : ℕ)
    → x < 2 ^ 32
    → y < 2 ^ 32
    → x % 256 ≡ y % 256
    → x / 256 % 256 ≡ y / 256 % 256
    → x / 65536 % 256 ≡ y / 65536 % 256
    → x / 16777216 % 256 ≡ y / 16777216 % 256
    → x ≡ y
same_number x y hx hy a b c d = omega arith

same_nonce :
    (p q f g c d : ℕ)
    → p < 2 ^ 32
    → q < 2 ^ 32
    → f < 2 ^ 32
    → g < 2 ^ 32
    → c < 256
    → d < 256
    → nonce_at p f c ≡ nonce_at q g d
    → (p ≡ q) × (f ≡ g) × (c ≡ d)
unfolding memory_bytes
same_nonce p q f g c d hp hq hf hg hc hd e =
    let byte = λ (i : ℕ). ap (λ l. get_or l i 0) e in
    (
      same_number p q hp hq (byte 0) (byte 1) (byte 2) (byte 3),
      same_number f g hf hg (byte 8) (byte 9) (byte 10) (byte 11),
      omega (arith, byte 15),
    )

-- Two nonces of the first 256 rounds make the same four words only if they are of the same round, for
-- the same packet number and the same sender.
pub rounds_differ :
    (p q f g c d : ℕ)
    → p < 2 ^ 32
    → q < 2 ^ 32
    → f < 2 ^ 32
    → g < 2 ^ 32
    → c < 256
    → d < 256
    → bytes_to_be_words (nonce_in_round p f c) ≡ bytes_to_be_words (nonce_in_round q g d)
    → (p ≡ q) × (f ≡ g) × (c ≡ d)
unfolding memory_bytes
rounds_differ p q f g c d hp hq hf hg hc hd same =
    let back = λ (p f c : ℕ).
      be_words_to_bytes-bytes_to_be_words (nonce_at p f c) refl (nonce_at-AllBytes p f c) in
    same_nonce p q f g c d hp hq hf hg hc hd (
      sym (back p f c)
      ∙ ap be_words_to_bytes (
          ap bytes_to_be_words (sym (nonce_in_round-eq p f c))
          ∙ same
          ∙ ap bytes_to_be_words (nonce_in_round-eq q g d))
      ∙ back q g d)
