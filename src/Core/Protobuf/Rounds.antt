-- ===== src/Core/Protobuf/Rounds.antt =====
-- The cases of a round of the decoder.
use meshtastic_mini.Base.{ℕ, ◌+◌, List, ◌==◌, if◌then◌else◌, if_both, u16, bit_and, get_or, ◌>>>◌}
use meshtastic_mini.Core.Protobuf.{Decoded, Round, onward, leave, varint_field, sized_field}
use meshtastic_mini.Core.Protobuf.{decode_round}

-- What holds of every way a round can go holds of the round.
pub decode_round_cases :
    (P : Round → Type 0) (bytes : List ℕ) (len pos : ℕ) (d : Decoded)
    → ((field : ℕ) → P (varint_field bytes len field (u16 (pos + 1)) d))
    → ((field : ℕ) → P (sized_field bytes len field (u16 (pos + 1)) d))
    → P (onward (u16 (u16 (pos + 1) + 4)) d)
    → P (onward (u16 (u16 (pos + 1) + 8)) d)
    → P (leave d)
    → P (decode_round bytes len pos d)
unfolding decode_round
decode_round_cases P bytes len pos d varint sized fixed32 fixed64 other =
    if_both P (wire == 0) (varint_field bytes len field after d) on_sized (varint field) (
      if_both P (wire == 2) (sized_field bytes len field after d) on_fixed (sized field) (
        if_both P (wire == 5) (onward (u16 (after + 4)) d) on_fixed64 fixed32
          (if_both P (wire == 1) (onward (u16 (after + 8)) d) (leave d) fixed64 other)))
  where
    after : ℕ
    after = u16 (pos + 1)

    wire : ℕ
    wire = bit_and (get_or bytes pos 0) 0x07

    field : ℕ
    field = get_or bytes pos 0 >>> 3

    on_fixed64 : Round
    on_fixed64 = if wire == 1 then onward (u16 (after + 8)) d else leave d

    on_fixed : Round
    on_fixed = if wire == 5 then onward (u16 (after + 4)) d else on_fixed64

    on_sized : Round
    on_sized = if wire == 2 then sized_field bytes len field after d else on_fixed
