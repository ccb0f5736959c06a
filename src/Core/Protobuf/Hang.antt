-- ===== src/Core/Protobuf/Hang.antt =====
-- Data on which the decoder does not do its work: a length that wraps the position around to 0
-- keeps it in its loop for ever, and a number of more than five bytes shifts by 35.
use meshtastic_mini.Base.{ℕ, zero, suc, ◌-◌, ◌%◌, ◌^◌, ◌≤◌, ◌<◌, ◌≡◌, refl, List, ◌∷◌, some, none}
use meshtastic_mini.Base.{arith, true, false, ◌==◌, holds_below, holds_below-at, ==_iff, bit_and}
use meshtastic_mini.Base.{leb-false, ltb, ◌||◌, not, ◌⊎◌, inl, inr}
use meshtastic_mini.Core.Protobuf.{Decoded, nothing, read_varint, onward, bad_shift, varint_field}
use meshtastic_mini.Core.Protobuf.{sized_field, varint_done, sized_done, decode_round, undefined}
use meshtastic_mini.Core.Protobuf.{running, decode_loop, pb_decode_data, proceed}

wire_table : holds_below 256 (λ x. bit_and x 0x07 == x % 8) ≡ true
unfolding holds_below
wire_table = refl

wire-eq : (tag : ℕ) → tag < 256 → bit_and tag 0x07 ≡ tag % 8
wire-eq tag h = (==_iff _ _).0 (holds_below-at 256 _ tag wire_table h)

-- The length 65532 in three bytes: 4 + 65532 is 2 ^ 16.
read_varint-65532 :
    (tag : ℕ) (tail : List ℕ) (left : ℕ)
    → 3 ≤ left
    → read_varint (tag ∷ 0xfc ∷ 0xff ∷ 0x03 ∷ tail) left 1 0 0 ≡ some (4, 65532)
unfolding read_varint
read_varint-65532 tag tail (suc (suc (suc left))) enough = refl
read_varint-65532 tag tail _ enough = absurd (omega arith)

back_to_start :
    (tag : ℕ) (tail : List ℕ) (len : ℕ) (d : Decoded)
    → tag < 256
    → tag % 8 ≡ 2
    → 4 ≤ len
    → len < 2 ^ 16
    → decode_round (tag ∷ 0xfc ∷ 0xff ∷ 0x03 ∷ tail) len 0 d ≡ onward 0 d
unfolding decode_round sized_field sized_done
back_to_start tag tail len d byte wire enough small =
    rw
      (
        wire-eq tag byte,
        wire,
        leb-false len 1 (omega arith),
        read_varint-65532 tag tail (len - 1) (omega arith),
        leb-false 65532 (len - 4) (omega arith),
        decode_round,
        sized_field,
        sized_done,
      )
      (ground arith)

stays :
    (tag : ℕ) (tail : List ℕ) (len fuel : ℕ) (d : Decoded)
    → tag < 256
    → tag % 8 ≡ 2
    → 4 ≤ len
    → len < 2 ^ 16
    → decode_loop (tag ∷ 0xfc ∷ 0xff ∷ 0x03 ∷ tail) len fuel 0 d ≡ running
unfolding decode_loop proceed
stays tag tail len zero d byte wire enough small = refl
stays tag tail len (suc fuel) d byte wire enough small =
    rw (leb-false len 0 (omega arith), back_to_start tag tail len d byte wire enough small)
      (stays tag tail len fuel d byte wire enough small)

-- The decoder never returns, however long it runs, on data that begin with any tag of a
-- length-delimited field and the length 65532, 4 to 65535 bytes in all.
pub decoder_hangs :
    (tag : ℕ) (tail : List ℕ) (len fuel : ℕ)
    → tag < 256
    → tag % 8 ≡ 2
    → 4 ≤ len
    → len < 2 ^ 16
    → pb_decode_data (tag ∷ 0xfc ∷ 0xff ∷ 0x03 ∷ tail) len fuel ≡ running
unfolding pb_decode_data
decoder_hangs tag tail len fuel byte wire enough small =
    stays tag tail len fuel nothing byte wire enough small

more_table : holds_below 256 (λ x. ltb x 128 || not (bit_and x 0x80 == 0)) ≡ true
unfolding holds_below
more_table = refl

goes_on : (b : ℕ) → 128 ≤ b → b < 256 → (bit_and b 0x80 == 0) ≡ false
goes_on b high byte =
    ground
      (arith, holds_below-at 256 (λ x. ltb x 128 || not (bit_and x 0x80 == 0)) b more_table byte)

-- Five bytes with the top bit set.
abbrev pub Continued : ℕ → Type 0
Continued b = (128 ≤ b) × (b < 256)

overlong :
    (t a b c d e : ℕ) (tail : List ℕ) (left : ℕ)
    → Continued a
    → Continued b
    → Continued c
    → Continued d
    → Continued e
    → 6 ≤ left
    → read_varint (t ∷ a ∷ b ∷ c ∷ d ∷ e ∷ tail) left 1 0 0 ≡ none
unfolding read_varint
overlong t a b c d e tail (suc (suc (suc (suc (suc (suc left)))))) ha hb hc hd he enough = rw (
  goes_on a ha.0 ha.1,
  goes_on b hb.0 hb.1,
  goes_on c hc.0 hc.1,
  goes_on d hd.0 hd.1,
  goes_on e he.0 he.1,
)
overlong t a b c d e tail _ ha hb hc hd he enough = absurd (omega arith)

undefined_round :
    (t : ℕ) (rest : List ℕ) (len : ℕ)
    → t < 256
    → (t % 8 ≡ 0) ⊎ (t % 8 ≡ 2)
    → 1 < len
    → read_varint (t ∷ rest) (len - 1) 1 0 0 ≡ none
    → decode_round (t ∷ rest) len 0 nothing ≡ bad_shift
unfolding decode_round varint_field varint_done sized_field sized_done
undefined_round t rest len byte (inl w) long number =
    rw (wire-eq t byte, w, number, decode_round, varint_field, varint_done)
undefined_round t rest len byte (inr w) long number =
    rw (wire-eq t byte, w, leb-false len 1 long, number, decode_round, sized_field, sized_done)

-- Data that begin with a varint or length-delimited field whose number has five bytes or more with
-- the top bit set, and a byte after them, lead to a shift of a 32-bit value by 35, which C leaves
-- undefined.
pub overlong_number_undefined :
    (t a b c d e : ℕ) (tail : List ℕ) (len fuel : ℕ)
    → t < 256
    → (t % 8 ≡ 0) ⊎ (t % 8 ≡ 2)
    → Continued a
    → Continued b
    → Continued c
    → Continued d
    → Continued e
    → 7 ≤ len
    → 0 < fuel
    → pb_decode_data (t ∷ a ∷ b ∷ c ∷ d ∷ e ∷ tail) len fuel ≡ undefined
unfolding pb_decode_data decode_loop proceed
overlong_number_undefined t a b c d e tail len zero byte wire ha hb hc hd he enough some_fuel =
    absurd (omega arith)
overlong_number_undefined t a b c d e tail len (suc fuel) byte wire ha hb hc hd he enough
      some_fuel =
    rw (
      leb-false len 0 (omega arith),
      undefined_round t (a ∷ b ∷ c ∷ d ∷ e ∷ tail) len byte wire (omega arith) number,
    )
  where
    bytes : List ℕ
    bytes = t ∷ a ∷ b ∷ c ∷ d ∷ e ∷ tail

    number : read_varint bytes (len - 1) 1 0 0 ≡ none
    number = overlong t a b c d e tail (len - 1) ha hb hc hd he (omega arith)
