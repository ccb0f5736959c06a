-- ===== src/Mesh/Packet/Bytes.antt =====
-- The four little-endian bytes of a word, as arithmetic.
use meshtastic_mini.Base.{ℕ, ◌+◌, ◌*◌, ◌/◌, ◌%◌, ◌^◌, ◌<◌, bit_or, ◌<<<◌, ◌≡◌, List, ◌∷◌, arith}
use meshtastic_mini.Base.{bit_or_below, bit_and_255}
use meshtastic_mini.Mesh.Packet.{le32_bytes}

-- Four bytes joined by `|` and `<<` make a sum.
pub join_bytes :
    (a b c d : ℕ)
    → a < 256
    → b < 256
    → c < 256
    → bit_or (bit_or (bit_or a (b <<< 8)) (c <<< 16)) (d <<< 24)
      ≡ a + b * 256 + c * 65536 + d * 16777216
join_bytes a b c d ha hb hc =
    rw
      (
        bit_or_below 8 a b (omega arith),
        bit_or_below 16 (a + b * 2 ^ 8) c (omega arith),
        bit_or_below 24 (a + b * 2 ^ 8 + c * 2 ^ 16) d (omega arith),
      )
      (omega arith)

-- The four bytes that the code stores, as remainders.
pub le32_bytes-eq :
    (x : ℕ) (rest : List ℕ)
    → le32_bytes x rest ≡ x % 256 ∷ x / 256 % 256 ∷ x / 65536 % 256 ∷ x / 16777216 % 256 ∷ rest
unfolding le32_bytes
le32_bytes-eq x rest =
    rw (bit_and_255 x, bit_and_255 (x / 2 ^ 8), bit_and_255 (x / 2 ^ 16), bit_and_255 (x / 2 ^ 24))
