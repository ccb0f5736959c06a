-- ===== src/Mesh/Packet.antt =====
-- firmware/Mesh/mesh_packet.c and mesh_packet.h: the header in the clear at the head of every
-- LoRa packet. A pointer that the code tests against NULL is an `Option`; a buffer is the list of
-- its bytes. A byte shifted by at most 24 fits 32 bits, so no cast of the parser cuts anything.
pub mod Bytes
pub mod RoundTrip
pub mod Bounds
pub mod Hop
use meshtastic_mini.Base.{ℕ, ◌+◌, bit_and, bit_or, ◌<<<◌, ◌>>>◌, List, [], ◌∷◌, Option, none, some}
use meshtastic_mini.Base.{get_or, blit, ◌^◌, ◌<◌}

abbrev pub mesh_header_size : ℕ
mesh_header_size = 16

abbrev pub mesh_broadcast_id : ℕ
mesh_broadcast_id = 0xffff_ffff

-- `mesh_lora_header_t`
pub record Header : Type 0 where
  pub to_id : ℕ
  pub from_id : ℕ
  pub packet_id : ℕ
  pub flags : ℕ
  pub channel : ℕ
  pub next_hop : ℕ
  pub relay : ℕ

-- The `uint32_t` that four bytes from `off` on stand for, lowest byte first.
unfoldable pub read_le32 : List ℕ → ℕ → ℕ
read_le32 buf off =
    bit_or
      (bit_or (bit_or (get_or buf off 0) (get_or buf (off + 1) 0 <<< 8))
        (get_or buf (off + 2) 0 <<< 16))
      (get_or buf (off + 3) 0 <<< 24)

unfoldable pub read_header : List ℕ → Header
read_header buf = record {
  to_id = read_le32 buf 0;
  from_id = read_le32 buf 4;
  packet_id = read_le32 buf 8;
  flags = get_or buf 12 0;
  channel = get_or buf 13 0;
  next_hop = get_or buf 14 0;
  relay = get_or buf 15 0;
}

-- `mesh_header_from_buf`: what `*h` holds afterwards.
unfoldable pub mesh_header_from_buf : Option Header → Option (List ℕ) → Option Header
mesh_header_from_buf (some h) (some buf) = some (read_header buf)
mesh_header_from_buf h buf = h

-- The four bytes of a `uint32_t`, before the bytes of `rest`.
unfoldable pub le32_bytes : ℕ → List ℕ → List ℕ
le32_bytes x rest =
    bit_and x 0xff
    ∷ bit_and (x >>> 8) 0xff
    ∷ bit_and (x >>> 16) 0xff
    ∷ bit_and (x >>> 24) 0xff
    ∷ rest

-- What `mesh_header_to_buf` stores at `buf[0]` to `buf[15]`.
unfoldable pub header_bytes : Header → List ℕ
header_bytes h = le32_bytes h.to_id (
    le32_bytes h.from_id (le32_bytes h.packet_id (h.flags ∷ h.channel ∷ h.next_hop ∷ h.relay ∷ [])))

unfoldable pub write_header : Header → List ℕ → List ℕ
unfolding header_bytes le32_bytes
write_header h buf = blit buf 0 (header_bytes h)

-- `mesh_header_to_buf`: what `buf` holds afterwards.
unfoldable pub mesh_header_to_buf : Option Header → Option (List ℕ) → Option (List ℕ)
mesh_header_to_buf (some h) (some buf) = some (write_header h buf)
mesh_header_to_buf h buf = buf

-- `mesh_hop_limit`
unfoldable pub mesh_hop_limit : ℕ → ℕ
mesh_hop_limit flags = bit_and flags 0x0f

-- Every field is within its C type.
pub record IsHeader (h : Header) : Type 0 where
  pub to_fits : h.to_id < 2 ^ 32
  pub from_fits : h.from_id < 2 ^ 32
  pub packet_fits : h.packet_id < 2 ^ 32
  pub flags_fit : h.flags < 256
  pub channel_fits : h.channel < 256
  pub next_hop_fits : h.next_hop < 256
  pub relay_fits : h.relay < 256
