-- ===== src/Core/Protobuf/Encode.antt =====
-- Decoding what was encoded.
use meshtastic_mini.Base.{ℕ, zero, suc, ◌+◌, ◌-◌, ◌%◌, ◌≤◌, ◌<◌, ◌≡◌, refl, ap, ◌∙◌, true, List}
use meshtastic_mini.Base.{◌∷◌, some, arith, ◌==◌, ==_iff, holds_below, holds_below-at, length, take}
use meshtastic_mini.Base.{blit_nothing, take_all, take-append, u8, ltb-false, ◌^◌, ◌↔◌, ◌⊎◌, drop}
use meshtastic_mini.Base.{blit, blit_start, get_or, bit_and, bit_or, u16, u32, ◌<<<◌, leb-false}
use meshtastic_mini.Base.{le→leb, zero-bit_or}
use meshtastic_mini.Core.Protobuf.{read_varint, decode_round, varint_field, sized_field}
use meshtastic_mini.Core.Protobuf.{varint_done, sized_done, onward, nothing, finished, decode_loop}
use meshtastic_mini.Core.Protobuf.{proceed, pb_decode_data, pb_encode_data}

low_table : holds_below 256 (λ x. bit_and x 0x7f == x % 128) ≡ true
unfolding holds_below
low_table = refl

pub low_bits : (b : ℕ) → b < 256 → bit_and b 0x7f ≡ b % 128
low_bits b h = (==_iff _ _).0 (holds_below-at 256 _ b low_table h)

high_table : holds_below 128 (λ x. bit_and x 0x80 == 0) ≡ true
unfolding holds_below
high_table = refl

pub last_of_varint : (b : ℕ) → b < 128 → bit_and b 0x80 ≡ 0
last_of_varint b h = (==_iff _ _).0 (holds_below-at 128 _ b high_table h)

-- A byte below 128 is a whole number.
pub read_varint-one :
    (bytes : List ℕ) (left pos b : ℕ)
    → get_or bytes pos 0 ≡ b
    → b < 128
    → pos < 65535
    → read_varint bytes (suc left) pos 0 0 ≡ some (suc pos, b)
unfolding read_varint
read_varint-one bytes left pos b e small inside =
    rw (e, last_of_varint b small) λ i. some (next i, value i)
  where
    next : u16 (pos + 1) ≡ suc pos
    next = omega arith

    value : bit_or 0 (u32 (bit_and b 0x7f <<< 0)) ≡ b
    value = omega (arith, zero-bit_or (u32 (bit_and b 0x7f <<< 0)), low_bits b (omega arith))

-- The same, with the bytes left given as a difference.
read_varint-one_of :
    (bytes : List ℕ) (left pos b : ℕ)
    → 0 < left
    → get_or bytes pos 0 ≡ b
    → b < 128
    → pos < 65535
    → read_varint bytes left pos 0 0 ≡ some (suc pos, b)
read_varint-one_of bytes zero pos b some_left e small inside = absurd (omega arith)
read_varint-one_of bytes (suc left) pos b some_left e small inside =
    read_varint-one bytes left pos b e small inside

-- A message as it is encoded, before any other bytes.
abbrev pub message : ℕ → ℕ → List ℕ → List ℕ
message p n tail = 0x08 ∷ p ∷ 0x12 ∷ n ∷ tail

module _ (p n : ℕ) (tail : List ℕ) (p_small : p < 128) (n_small : n < 128) where
  port_round :
      decode_round (message p n tail) (n + 4) 0 nothing ≡ onward 2 (record nothing { portnum = p })
  unfolding decode_round varint_field
  port_round =
      rw
        (
          read_varint-one_of (message p n tail) (n + 4 - 1) 1 p (omega arith) refl p_small
              (omega arith),
          decode_round,
          varint_field,
          varint_done,
        )
        (ap (λ q. onward 2 (record nothing { portnum = q })) (omega arith))

  payload_round :
      decode_round (message p n tail) (n + 4) 2 (record nothing { portnum = p })
      ≡ onward (n + 4) (record { portnum = p; payload = some 4; payload_len = n })
  unfolding decode_round sized_field
  payload_round =
      rw
        (
          leb-false (n + 4) 3 (omega arith),
          read_varint-one_of (message p n tail) (n + 4 - 3) 3 n (omega arith) refl n_small
              (omega arith),
          decode_round,
          sized_field,
          sized_done,
        )
        (ground arith)

  decode_encoded :
      (fuel : ℕ)
      → pb_decode_data (message p n tail) (n + 4) (suc (suc (suc fuel)))
        ≡ finished (record { portnum = p; payload = some 4; payload_len = n })
  unfolding pb_decode_data decode_loop proceed
  decode_encoded fuel = rw (
    leb-false (n + 4) 0 (omega arith),
    port_round,
    leb-false (n + 4) 2 (omega arith),
    payload_round,
    le→leb (n + 4) (n + 4) (omega arith),
    decode_loop,
    proceed,
  )

pub with_fuel :
    (p n fuel : ℕ) (tail : List ℕ)
    → p < 128
    → n < 128
    → 3 ≤ fuel
    → pb_decode_data (message p n tail) (n + 4) fuel
      ≡ finished (record { portnum = p; payload = some 4; payload_len = n })
with_fuel p n (suc (suc (suc fuel))) tail hp hn enough = decode_encoded p n tail hp hn fuel
with_fuel p n _ tail hp hn enough = absurd (omega arith)

-- What a successful encoding leaves in the output buffer.
pub encode-eq :
    (a b c d : ℕ) (rest : List ℕ) (max_out p : ℕ) (payload : List ℕ)
    → length payload ≤ 127
    → length payload + 4 ≤ max_out
    → pb_encode_data (a ∷ b ∷ c ∷ d ∷ rest) max_out p payload (length payload)
      ≡ (message p (length payload) (blit rest 0 payload), length payload + 4)
unfolding pb_encode_data
encode-eq a b c d rest max_out p payload small fits =
    rw
      (
        ltb-false max_out (u16 (2 + 2 + length payload)) (omega arith),
        ltb-false 127 (length payload) small,
        take_all payload (length payload) (omega arith),
      )
      λ i. (message p (size i) (blit (blit_nothing rest i) 0 payload), total i)
  where
    size : u8 (length payload) ≡ length payload
    size = omega arith

    total : u16 (4 + length payload) ≡ length payload + 4
    total = omega arith

-- A payload of at most 127 bytes that fits the output buffer, encoded with a port below 128, is
-- decoded with any fuel from 3 on to that port and to the payload, which stands at offset 4 of the
-- output; the returned length is the payload's plus 4.
pub decode-encode :
    (out : List ℕ) (max_out p : ℕ) (payload : List ℕ) (fuel : ℕ)
    → p < 128
    → length payload ≤ 127
    → length payload + 4 ≤ max_out
    → max_out ≤ length out
    → 3 ≤ fuel
    → let (out', len) = pb_encode_data out max_out p payload (length payload) in
      (len ≡ length payload + 4)
      × (pb_decode_data out' len fuel
          ≡ finished (record { portnum = p; payload = some 4; payload_len = length payload }))
      × (take (length payload) (drop 4 out') ≡ payload)
decode-encode (a ∷ b ∷ c ∷ d ∷ rest) max_out p payload fuel hp small fits room enough =
    rw (encode-eq a b c d rest max_out p payload small fits) (
      refl,
      with_fuel p (length payload) fuel (blit rest 0 payload) hp (omega arith) enough,
      ap (take (length payload)) (blit_start rest payload (omega arith))
          ∙ take-append payload (drop (length payload) rest),
    )
decode-encode _ max_out p payload fuel hp small fits room enough = absurd (omega arith)

-- For a payload of less than 65532 bytes, the encoder returns 0 exactly if it has more than 127 or
-- does not fit.
pub encode_refuses :
    (out : List ℕ) (max_out p : ℕ) (payload : List ℕ)
    → length payload < 2 ^ 16 - 4
    → ((pb_encode_data out max_out p payload (length payload)).1 ≡ 0)
      ↔ ((127 < length payload) ⊎ (max_out < length payload + 4))
unfolding pb_encode_data
encode_refuses out max_out p payload size = ground arith
