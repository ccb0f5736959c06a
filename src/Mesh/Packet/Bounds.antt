-- ===== src/Mesh/Packet/Bounds.antt =====
-- A parsed header fits its fields, and a built one is made of bytes.
use meshtastic_mini.Base.{ℕ, ◌+◌, ◌^◌, ◌<◌, List, arith, length, get_or, drop, AllBytes}
use meshtastic_mini.Base.{AllBytes-get_or, AllBytes-append, AllBytes-drop, ◌≤◌}
use meshtastic_mini.Mesh.Packet.{Header, IsHeader, read_le32, read_header, header_bytes}
use meshtastic_mini.Mesh.Packet.{write_header}
use meshtastic_mini.Mesh.Packet.Bytes.{join_bytes, le32_bytes-eq}
use meshtastic_mini.Mesh.Packet.RoundTrip.{write_header-eq}

-- What a buffer of bytes is parsed to fits the fields.
pub read_header-IsHeader : (buf : List ℕ) → AllBytes buf → IsHeader (read_header buf)
unfolding read_header
read_header-IsHeader buf v = record {
  to_fits = word 0;
  from_fits = word 4;
  packet_fits = word 8;
  flags_fit = byte 12;
  channel_fits = byte 13;
  next_hop_fits = byte 14;
  relay_fits = byte 15;
}
  where
    byte : (i : ℕ) → get_or buf i 0 < 256
    byte i = AllBytes-get_or buf i v

    word : (off : ℕ) → read_le32 buf off < 2 ^ 32
    word off =
        unfold read_le32 in
        omega (
          arith,
          join_bytes (get_or buf off 0) (get_or buf (off + 1) 0) (get_or buf (off + 2) 0)
              (get_or buf (off + 3) 0) (byte off) (byte (off + 1)) (byte (off + 2)),
          byte off,
          byte (off + 1),
          byte (off + 2),
          byte (off + 3),
        )

header_bytes-AllBytes : (h : Header) → IsHeader h → AllBytes (header_bytes h)
unfolding header_bytes
header_bytes-AllBytes h v = rw (le32_bytes-eq, le32_bytes-eq, le32_bytes-eq) (omega arith)

pub write_header-AllBytes :
    (h : Header) (buf : List ℕ)
    → IsHeader h
    → AllBytes buf
    → 16 ≤ length buf
    → AllBytes (write_header h buf)
write_header-AllBytes h buf v w fits = rw (write_header-eq h buf fits) (
    AllBytes-append (header_bytes h) (drop 16 buf) (header_bytes-AllBytes h v)
      (AllBytes-drop 16 buf w))
