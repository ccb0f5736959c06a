-- ===== src/Core/Protobuf/Terminate.antt =====
-- The decoder ends, unless a field claims so many bytes that the position wraps around.
use meshtastic_mini.Base.{ℕ, zero, suc, ◌+◌, ◌-◌, ◌^◌, ◌≤◌, ◌<◌, ◌≡◌, List, [], ◌∷◌, get_or, some}
use meshtastic_mini.Base.{arith, leb, u16, Bool-cases, inl, inr, if_both, refl, leb-false-lt}
use meshtastic_mini.Core.Protobuf.{Decoded, nothing, read_varint, Round, onward, leave, bad_shift}
use meshtastic_mini.Core.Protobuf.{varint_field, sized_field, varint_done, sized_done, decode_round}
use meshtastic_mini.Core.Protobuf.{Ending, finished, decode_loop, pb_decode_data, proceed}
use meshtastic_mini.Core.Protobuf.Encode.{read_varint-one}
use meshtastic_mini.Core.Protobuf.Rounds.{decode_round_cases}
use meshtastic_mini.Core.Protobuf.Safety.{read_varint_bounds}

-- Read from any position in the data, a number is read, without a shift that C leaves undefined, and
-- does not reach past what a `uint16_t` position can hold.
abbrev pub IsTame : List ℕ → ℕ → Type 0
IsTame bytes len =
    (pos : ℕ)
    → pos ≤ len
    → (pos' : ℕ) × (n : ℕ) × (read_varint bytes (len - pos) pos 0 0 ≡ some (pos', n))
      × (pos' + n < 2 ^ 16)

-- The round leaves the position behind where it was, or the loop.
abbrev Advances : ℕ → Round → Type 0
Advances pos (onward pos' d) = pos < pos'
Advances pos (leave d) = Unit
Advances pos bad_shift = ⊥

module _ (bytes : List ℕ) (len : ℕ) (small : len ≤ 65000) (tame : IsTame bytes len) where
  decode_round-Advances :
      (pos : ℕ) (d : Decoded) → pos < len → Advances pos (decode_round bytes len pos d)
  decode_round-Advances pos d before =
      let after = u16 (pos + 1) in
      let (p, n, e, fits) = tame after (omega arith) in
      let onward_from = read_varint_bounds bytes (len - after) after 0 0 p n (omega arith) e in
      decode_round_cases (Advances pos) bytes len pos d
        (λ field. unfold varint_field varint_done in rw e (omega (arith, onward_from)))
        (λ field.
          unfold sized_field sized_done in
          if_both (Advances pos) (leb len after) (leave d)
            (sized_done len field d (read_varint bytes (len - after) after 0 0)) tt
            (rw e (omega (arith, onward_from, fits))))
        (omega arith) (omega arith) tt

  proceed-ends :
      (loop : ℕ → Decoded → Ending) (pos : ℕ) (r : Round)
      → ((p : ℕ) (x : Decoded) → pos < p → (d : Decoded) × (loop p x ≡ finished d))
      → Advances pos r
      → (d : Decoded) × (proceed loop r ≡ finished d)
  unfolding proceed
  proceed-ends loop pos (onward p x) later on = later p x on
  proceed-ends loop pos (leave x) later on = (x, refl)
  proceed-ends loop pos bad_shift later on = absurd on

  decode_loop-ends :
      (fuel pos : ℕ) (d : Decoded)
      → 0 < fuel
      → len < pos + fuel
      → (d' : Decoded) × (decode_loop bytes len fuel pos d ≡ finished d')
  unfolding decode_loop
  decode_loop-ends zero pos d some_fuel enough = absurd (omega arith)
  decode_loop-ends (suc fuel) pos d some_fuel enough = elim (Bool-cases (leb len pos)) [
    | inl over ↦ rw over (d, refl)
    | inr more ↦ rw more (
        proceed-ends (decode_loop bytes len fuel) pos (decode_round bytes len pos d)
          (λ p x on.
            decode_loop-ends fuel p x (omega (arith, leb-false-lt len pos more)) (omega arith))
          (decode_round-Advances pos d (leb-false-lt len pos more)))
  ]

-- The decoder comes to its end, without a shift that C leaves undefined, within as many rounds as there
-- are bytes, and one more, on any data of at most 65000 bytes in which every number, read from any
-- position in them, is read without such a shift, and does not lead past the range of a `uint16_t`.
pub decoder_ends :
    (bytes : List ℕ) (len fuel : ℕ)
    → len ≤ 65000
    → IsTame bytes len
    → len < fuel
    → (d : Decoded) × (pb_decode_data bytes len fuel ≡ finished d)
unfolding pb_decode_data
decoder_ends bytes len fuel small tame enough =
    decode_loop-ends bytes len small tame fuel 0 nothing (omega arith) (omega arith)

abbrev pub AllLow : List ℕ → Type 0
AllLow [] = Unit
AllLow (b ∷ bs) = (b < 128) × AllLow bs

AllLow-get_or : (bs : List ℕ) (i : ℕ) → AllLow bs → get_or bs i 0 < 128
AllLow-get_or [] i low = omega arith
AllLow-get_or (b ∷ bs) zero low = low.0
AllLow-get_or (b ∷ bs) (suc i) low = AllLow-get_or bs i low.1

-- A number of such bytes is one byte, or none at the end of the data.
one_byte :
    (bytes : List ℕ) (left pos : ℕ)
    → AllLow bytes
    → pos + left < 65535
    → (p : ℕ) × (n : ℕ) × (read_varint bytes left pos 0 0 ≡ some (p, n))
      × (p + n ≤ pos + left + 127)
unfolding read_varint
one_byte bytes zero pos low fits = (pos, 0, refl, omega arith)
one_byte bytes (suc left) pos low fits =
    let b = get_or bytes pos 0 in
    let small = AllLow-get_or bytes pos low in
    (suc pos, b, read_varint-one bytes left pos b refl small (omega arith), omega (arith, small))

-- Data without a top bit are tame: every number is a single byte.
pub AllLow-IsTame : (bytes : List ℕ) (len : ℕ) → len ≤ 65000 → AllLow bytes → IsTame bytes len
AllLow-IsTame bytes len small low pos inside =
    let (p, n, e, fits) = one_byte bytes (len - pos) pos low (omega arith) in
    (p, n, e, omega (arith, fits))
