-- ===== src/Core/Protobuf/Safety.antt =====
-- The decoder hands out no payload that reaches outside its data.
use meshtastic_mini.Base.{ℕ, zero, suc, ◌+◌, ◌-◌, ◌^◌, ◌≤◌, ◌<◌, ◌≡◌, refl, List, some, none}
use meshtastic_mini.Base.{Option, arith, leb, u16, u32, Bool-cases, inl, inr, get_or, ◌<<<◌}
use meshtastic_mini.Base.{bit_and, bit_or, min, leb-false-lt}
use meshtastic_mini.Core.Protobuf.{Decoded, nothing, varint_done, sized_done, read_varint, Round}
use meshtastic_mini.Core.Protobuf.{onward, leave, bad_shift, varint_field, sized_field}
use meshtastic_mini.Core.Protobuf.{decode_round, Ending, finished, decode_loop, pb_decode_data}
use meshtastic_mini.Core.Protobuf.{proceed}
use meshtastic_mini.Core.Protobuf.Rounds.{decode_round_cases}

-- A number ends within the data, and takes a byte if there is one.
pub read_varint_bounds :
    (bytes : List ℕ) (left pos val shift pos' val' : ℕ)
    → pos + left < 2 ^ 16
    → read_varint bytes left pos val shift ≡ some (pos', val')
    → (pos + min left 1 ≤ pos') × (pos' ≤ pos + left)
unfolding read_varint
read_varint_bounds bytes zero pos val shift pos' val' fits e = ground arith
read_varint_bounds bytes (suc left) pos val shift pos' val' fits e = ground (
  arith,
  read_varint_bounds bytes left (u16 (pos + 1))
      (bit_or val (u32 (bit_and (get_or bytes pos 0) 0x7f <<< shift))) (shift + 7) pos' val',
)

-- A payload, if there is one, lies inside the data.
abbrev pub Inside : ℕ → Option ℕ → ℕ → Type 0
Inside len none n = Unit
Inside len (some off) n = off + n ≤ len

abbrev pub IsInside : ℕ → Decoded → Type 0
IsInside len d = Inside len d.payload d.payload_len

abbrev RoundInside : ℕ → Round → Type 0
RoundInside len (onward pos d) = IsInside len d
RoundInside len (leave d) = IsInside len d
RoundInside len bad_shift = Unit

varint_done-IsInside :
    (len field : ℕ) (d : Decoded) (r : Option (ℕ × ℕ))
    → IsInside len d
    → RoundInside len (varint_done field d r)
unfolding varint_done
varint_done-IsInside len field d none safe = tt
varint_done-IsInside len field d (some (pos, val)) safe = ground arith

sized_done-IsInside :
    (len field : ℕ) (d : Decoded) (r : Option (ℕ × ℕ))
    → len < 2 ^ 16
    → ((pos n : ℕ) → r ≡ some (pos, n) → pos ≤ len)
    → IsInside len d
    → RoundInside len (sized_done len field d r)
unfolding sized_done
sized_done-IsInside len field d none small within safe = tt
sized_done-IsInside len field d (some (pos, flen)) small within safe =
    ground (arith, within pos flen refl)

finished-injective : (d d' : Decoded) → finished d ≡ finished d' → d ≡ d'
finished-injective d d' e = cc

module _ (bytes : List ℕ) (len : ℕ) (small : len < 2 ^ 16) where
  varint_field-IsInside :
      (field pos : ℕ) (d : Decoded)
      → IsInside len d
      → RoundInside len (varint_field bytes len field pos d)
  unfolding varint_field
  varint_field-IsInside field pos d safe =
      varint_done-IsInside len field d (read_varint bytes (len - pos) pos 0 0) safe

  sized_field-IsInside :
      (field pos : ℕ) (d : Decoded)
      → pos ≤ len
      → IsInside len d
      → RoundInside len (sized_field bytes len field pos d)
  unfolding sized_field
  sized_field-IsInside field pos d before safe = elim (Bool-cases (leb len pos)) [
    | inl e ↦ rw (e, RoundInside) safe
    | inr e ↦
        rw (e, RoundInside)
          (sized_done-IsInside len field d (read_varint bytes (len - pos) pos 0 0) small
            (λ p n r.
              omega (arith, read_varint_bounds bytes (len - pos) pos 0 0 p n (omega arith) r))
            safe)
  ]

  decode_round-IsInside :
      (pos : ℕ) (d : Decoded)
      → pos < len
      → IsInside len d
      → RoundInside len (decode_round bytes len pos d)
  unfolding decode_round
  decode_round-IsInside pos d before safe =
      decode_round_cases (RoundInside len) bytes len pos d
        (λ field. varint_field-IsInside field (u16 (pos + 1)) d safe)
        (λ field. sized_field-IsInside field (u16 (pos + 1)) d (omega arith) safe) safe safe safe

  proceed-IsInside :
      (loop : ℕ → Decoded → Ending) (r : Round) (d' : Decoded)
      → ((p : ℕ) (x : Decoded) → IsInside len x → loop p x ≡ finished d' → IsInside len d')
      → RoundInside len r
      → proceed loop r ≡ finished d'
      → IsInside len d'
  unfolding proceed
  proceed-IsInside loop (onward p x) d' later inside e = later p x inside e
  proceed-IsInside loop (leave x) d' later inside e = rw (finished-injective x d' e) at inside
  proceed-IsInside loop bad_shift d' later inside e = cc

  decode_loop-IsInside :
      (fuel pos : ℕ) (d d' : Decoded)
      → IsInside len d
      → decode_loop bytes len fuel pos d ≡ finished d'
      → IsInside len d'
  unfolding decode_loop
  decode_loop-IsInside zero pos d d' safe e = cc
  decode_loop-IsInside (suc fuel) pos d d' safe e = elim (Bool-cases (leb len pos)) [
    | inl over ↦ rw (finished-injective d d' (rw over at e)) at safe
    | inr more ↦
        proceed-IsInside (decode_loop bytes len fuel) (decode_round bytes len pos d) d'
          (λ p x inside done. decode_loop-IsInside fuel p x d' inside done)
          (decode_round-IsInside pos d (leb-false-lt len pos more) safe) (rw more at e)
  ]

-- Whatever the data, a payload that the decoder reports lies wholly inside the data.
pub payload_inside :
    (bytes : List ℕ) (len fuel : ℕ) {d : Decoded} {off : ℕ}
    → len < 2 ^ 16
    → pb_decode_data bytes len fuel ≡ finished d
    → d.payload ≡ some off
    → off + d.payload_len ≤ len
unfolding pb_decode_data
payload_inside bytes len fuel {d} {off} small e at =
    let inside = decode_loop-IsInside bytes len small fuel 0 nothing d tt e in rw at at inside
