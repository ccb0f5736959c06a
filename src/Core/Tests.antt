-- ===== src/Core/Tests.antt =====
-- The codec at concrete data.
use meshtastic_mini.Base.{ℕ, ◌+◌, ◌≤◌, ◌≡◌, refl, some, List, [], ◌∷◌, ◌++◌, arith, take, drop}
use meshtastic_mini.Base.{replicate}
use meshtastic_mini.Core.Protobuf.{Decoded, pb_encode_data, pb_decode_data, decode_loop}
use meshtastic_mini.Core.Protobuf.{decode_round, varint_field, sized_field, varint_done, sized_done}
use meshtastic_mini.Core.Protobuf.{read_varint, proceed, finished, running}
use meshtastic_mini.Core.Protobuf.Encode.{decode-encode}
use meshtastic_mini.Core.Protobuf.Safety.{payload_inside}
use meshtastic_mini.Core.Protobuf.Terminate.{AllLow-IsTame, decoder_ends}
use meshtastic_mini.Core.Protobuf.Hang.{decoder_hangs}

abbrev ping : List ℕ
ping = 112 ∷ 105 ∷ 110 ∷ 103 ∷ []

abbrev ping_message : List ℕ
ping_message = 0x08 ∷ 1 ∷ 0x12 ∷ 4 ∷ ping

abbrev ping_decoded : Decoded
ping_decoded = record { portnum = 1; payload = some 4; payload_len = 4 }

encode-ping : pb_encode_data (replicate 10 0) 10 1 ping 4 ≡ (ping_message ++ (0 ∷ 0 ∷ []), 8)
unfolding pb_encode_data
encode-ping = refl

decode-ping : pb_decode_data ping_message 8 9 ≡ finished ping_decoded
unfolding pb_decode_data decode_loop proceed decode_round varint_field varint_done sized_field
    sized_done read_varint
decode-ping = refl

decode-encode_example :
    ((pb_encode_data (replicate 10 0) 10 1 ping 4).1 ≡ 8)
    × (pb_decode_data
          (pb_encode_data (replicate 10 0) 10 1 ping 4).0
          (pb_encode_data (replicate 10 0) 10 1 ping 4).1
          9
        ≡ finished ping_decoded)
    × (take 4 (drop 4 (pb_encode_data (replicate 10 0) 10 1 ping 4).0) ≡ ping)
decode-encode_example =
    decode-encode (replicate 10 0) 10 1 ping 9 (omega arith) (omega arith) (omega arith)
      (omega arith) (omega arith)

payload_inside_example : 4 + 4 ≤ 8
payload_inside_example =
    payload_inside ping_message 8 9 {d = ping_decoded} (omega arith) decode-ping refl

decoder_hangs_example : pb_decode_data (0x0a ∷ 0xfc ∷ 0xff ∷ 0x03 ∷ []) 4 1000 ≡ running
decoder_hangs_example = decoder_hangs 0x0a [] 4 1000 (omega arith) refl (omega arith) (omega arith)

decoder_ends_example : (d : Decoded) × (pb_decode_data ping_message 8 9 ≡ finished d)
decoder_ends_example =
    decoder_ends ping_message 8 9 (omega arith)
      (AllLow-IsTame ping_message 8 (omega arith) (omega arith)) (omega arith)
