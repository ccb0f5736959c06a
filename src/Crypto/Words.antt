-- ===== src/Crypto/Words.antt =====
-- The block as four big-endian words, and back.
use meshtastic_mini.Base.{ℕ, ◌+◌, ◌*◌, ◌<◌, ◌≡◌, ap, ◌∙◌, bit_or, ◌<<<◌, List, [], ◌∷◌, arith}
use meshtastic_mini.Base.{AllBytes, bit_or_above, length, u8, ◌>>>◌}
use meshtastic_mini.Crypto.{be_word, be_bytes, bytes_to_be_words, be_words_to_bytes}

join_high :
    (a b c d : ℕ)
    → b < 256
    → c < 256
    → d < 256
    → bit_or (bit_or (bit_or (a <<< 24) (b <<< 16)) (c <<< 8)) d
      ≡ a * 16777216 + b * 65536 + c * 256 + d
join_high a b c d hb hc hd =
    ap (λ t. bit_or (bit_or t (c <<< 8)) d) (bit_or_above 24 (b * 65536) a (omega arith) ∙ two)
    ∙ ap (λ t. bit_or t d) (bit_or_above 16 (c * 256) (a * 256 + b) (omega arith) ∙ three)
    ∙ bit_or_above 8 d (a * 65536 + b * 256 + c) hd
    ∙ four
  where
    two : b * 65536 + a * 16777216 ≡ (a * 256 + b) * 65536
    two = omega arith

    three : c * 256 + (a * 256 + b) * 65536 ≡ (a * 65536 + b * 256 + c) * 256
    three = omega arith

    four : d + (a * 65536 + b * 256 + c) * 256 ≡ a * 16777216 + b * 65536 + c * 256 + d
    four = omega arith

split_high :
    (a b c d : ℕ) (rest : List ℕ)
    → a < 256
    → b < 256
    → c < 256
    → d < 256
    → be_bytes (bit_or (bit_or (bit_or (a <<< 24) (b <<< 16)) (c <<< 8)) d) rest
      ≡ a ∷ b ∷ c ∷ d ∷ rest
unfolding be_bytes
split_high a b c d rest ha hb hc hd =
    rw (join_high a b c d hb hc hd) λ i. first i ∷ second i ∷ third i ∷ fourth i ∷ rest
  where
    first : u8 ((a * 16777216 + b * 65536 + c * 256 + d) >>> 24) ≡ a
    first = omega arith

    second : u8 ((a * 16777216 + b * 65536 + c * 256 + d) >>> 16) ≡ b
    second = omega arith

    third : u8 ((a * 16777216 + b * 65536 + c * 256 + d) >>> 8) ≡ c
    third = omega arith

    fourth : u8 (a * 16777216 + b * 65536 + c * 256 + d) ≡ d
    fourth = omega arith

-- A block of 16 bytes turned into words is turned back into itself.
pub be_words_to_bytes-bytes_to_be_words :
    (b : List ℕ) → length b ≡ 16 → AllBytes b → be_words_to_bytes (bytes_to_be_words b) ≡ b
unfolding be_words_to_bytes bytes_to_be_words be_word
be_words_to_bytes-bytes_to_be_words
      (a0 ∷ a1 ∷ a2 ∷ a3 ∷ a4 ∷ a5 ∷ a6 ∷ a7 ∷ a8 ∷ a9 ∷ a10 ∷ a11 ∷ a12 ∷ a13 ∷ a14 ∷ a15 ∷ []) h
      v =
    let v4 = v.1.1.1.1 in
    let v8 = v4.1.1.1.1 in
    let v12 = v8.1.1.1.1 in
    split_high a0 a1 a2 a3 _ v.0 v.1.0 v.1.1.0 v.1.1.1.0
    ∙ ap (λ l. a0 ∷ a1 ∷ a2 ∷ a3 ∷ l)
        (split_high a4 a5 a6 a7 _ v4.0 v4.1.0 v4.1.1.0 v4.1.1.1.0
          ∙ ap (λ l. a4 ∷ a5 ∷ a6 ∷ a7 ∷ l)
              (split_high a8 a9 a10 a11 _ v8.0 v8.1.0 v8.1.1.0 v8.1.1.1.0
                ∙ ap (λ l. a8 ∷ a9 ∷ a10 ∷ a11 ∷ l)
                    (split_high a12 a13 a14 a15 [] v12.0 v12.1.0 v12.1.1.0 v12.1.1.1.0)))
be_words_to_bytes-bytes_to_be_words _ h v = absurd (omega arith)
