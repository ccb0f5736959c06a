-- ===== src/Core/Protobuf.antt =====
-- The minimal protobuf codec of firmware/Core/main_loop.c, for a message with a port number and a
-- payload. Positions are `uint16_t` and wrap around; a shift of a 32-bit value by 32 or more is
-- undefined in C, and is an outcome of its own; so is a loop that has not ended within its fuel.
mod Rounds
pub mod Encode
pub mod Safety
pub mod Hang
pub mod Terminate
use meshtastic_mini.Base.{ℕ, zero, suc, ◌+◌, ◌-◌, Bool, true, false, ◌&&◌, ◌||◌, ltb, leb, ◌==◌}
use meshtastic_mini.Base.{if◌then◌else◌, Option, none, some, List, [], ◌∷◌, bit_and, bit_or, ◌<<<◌}
use meshtastic_mini.Base.{◌>>>◌, u8, u16, u32, get_or, blit, take}

-- `pb_encode_data`: what `out` holds afterwards, and the returned length.
unfoldable pub pb_encode_data : List ℕ → ℕ → ℕ → List ℕ → ℕ → List ℕ × ℕ
pb_encode_data out max_out portnum payload payload_len =
    let need = u16 (2 + 2 + payload_len) in
    if ltb max_out need || ltb 127 payload_len then (out, 0) else (
      blit (blit out 0 (0x08 ∷ portnum ∷ 0x12 ∷ u8 payload_len ∷ [])) 4 (take payload_len payload),
      u16 (4 + payload_len),
    )

-- The three results: `payload` is an offset into the data, `none` for NULL.
pub record Decoded : Type 0 where
  pub portnum : ℕ
  pub payload : Option ℕ
  pub payload_len : ℕ

abbrev pub nothing : Decoded
nothing = record { portnum = 0; payload = none; payload_len = 0 }

-- The varint loop, with `left` bytes before the end of the data: the position behind the number
-- and the number. The position rises by one a round, so `left` is 0 when the loop's test fails.
-- `none` is an undefined shift.
unfoldable pub read_varint : List ℕ → ℕ → ℕ → ℕ → ℕ → Option (ℕ × ℕ)
read_varint bytes zero pos val shift = some (pos, val)
read_varint bytes (suc left) pos val shift =
    let b = get_or bytes pos 0 in
    let pos' = u16 (pos + 1) in
    let val' = bit_or val (u32 (bit_and b 0x7f <<< shift)) in
    let rest = read_varint bytes left pos' val' (shift + 7) in
    if leb 32 shift then none else (if bit_and b 0x80 == 0 then some (pos', val') else rest)

-- What one round of the outer loop comes to.
pub data Round : Type 0 where
  onward : ℕ → Decoded → Round
  leave : Decoded → Round
  bad_shift : Round

-- Behind the number of a varint field.
unfoldable pub varint_done : ℕ → Decoded → Option (ℕ × ℕ) → Round
varint_done field d none = bad_shift
varint_done field d (some (pos, val)) =
    onward pos (if field == 1 then record d { portnum = u8 val } else d)

-- Behind the length of a length-delimited field.
unfoldable pub sized_done : ℕ → ℕ → Decoded → Option (ℕ × ℕ) → Round
sized_done len field d none = bad_shift
sized_done len field d (some (pos, flen)) = onward (u16 (pos + flen)) (
    if field == 2 && leb flen (len - pos)
    then record d { payload = some pos; payload_len = u16 flen }
    else d)

module _ (bytes : List ℕ) (len : ℕ) where
  -- A varint field, from the position behind the tag.
  unfoldable pub varint_field : ℕ → ℕ → Decoded → Round
  unfolding varint_done
  varint_field field pos d = varint_done field d (read_varint bytes (len - pos) pos 0 0)

  -- A length-delimited field, from the position behind the tag.
  unfoldable pub sized_field : ℕ → ℕ → Decoded → Round
  unfolding sized_done
  sized_field field pos d =
      if leb len pos
      then leave d
      else sized_done len field d (read_varint bytes (len - pos) pos 0 0)

  -- The body of the outer loop at a position before the end.
  unfoldable pub decode_round : ℕ → Decoded → Round
  decode_round pos d =
      let tag = get_or bytes pos 0 in
      let pos' = u16 (pos + 1) in
      let field = tag >>> 3 in
      let wire = bit_and tag 0x07 in
      if wire == 0
      then varint_field field pos' d
      else (if wire == 2
          then sized_field field pos' d
          else (if wire == 5
              then onward (u16 (pos' + 4)) d
              else (if wire == 1 then onward (u16 (pos' + 8)) d else leave d)))

-- How a call of the decoder ends: with its results, in an undefined shift, or not within the fuel.
pub data Ending : Type 0 where
  finished : Decoded → Ending
  undefined : Ending
  running : Ending

-- After a round, on to the next one or out.
unfoldable pub proceed : (ℕ → Decoded → Ending) → Round → Ending
proceed loop (onward pos d) = loop pos d
proceed loop (leave d) = finished d
proceed loop bad_shift = undefined

module _ (bytes : List ℕ) (len : ℕ) where
  -- The outer loop, with fuel for its rounds.
  unfoldable pub decode_loop : ℕ → ℕ → Decoded → Ending
  decode_loop zero pos d = running
  decode_loop (suc fuel) pos d =
      if leb len pos then finished d else proceed (decode_loop fuel) (decode_round bytes len pos d)

  unfoldable pub pb_decode_data : ℕ → Ending
  pb_decode_data fuel = decode_loop fuel 0 nothing

-- The returned value: was a payload found?
abbrev pub found : Decoded → Bool
found d = elim d.payload [ none ↦ false | some pos ↦ true ]
