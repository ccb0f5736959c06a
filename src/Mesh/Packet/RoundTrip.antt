-- ===== src/Mesh/Packet/RoundTrip.antt =====
-- Parsing and building a header undo one another.
use meshtastic_mini.Base.{ℕ, ◌+◌, ◌*◌, ◌/◌, ◌%◌, ◌^◌, ◌≤◌, ◌<◌, ◌≡◌, ap, ◌∙◌, List, [], ◌∷◌, ◌++◌}
use meshtastic_mini.Base.{some, arith, AllBytes, bit_and, bit_or, ◌<<<◌, ◌>>>◌, bit_and_255, length}
use meshtastic_mini.Base.{take, drop, blit_start, blit_nothing}
use meshtastic_mini.Mesh.Packet.{Header, IsHeader, read_le32, read_header, le32_bytes, header_bytes}
use meshtastic_mini.Mesh.Packet.{write_header, mesh_header_from_buf, mesh_header_to_buf}
use meshtastic_mini.Mesh.Packet.Bytes.{join_bytes, le32_bytes-eq}

pub write_header-eq :
    (h : Header) (buf : List ℕ)
    → 16 ≤ length buf
    → write_header h buf ≡ header_bytes h ++ drop 16 buf
unfolding write_header header_bytes le32_bytes
write_header-eq h buf fits = blit_start buf (header_bytes h) fits

rejoin :
    (x : ℕ)
    → x < 2 ^ 32
    → x % 256 + x / 256 % 256 * 256 + x / 65536 % 256 * 65536 + x / 16777216 % 256 * 16777216 ≡ x
rejoin x h = omega arith

-- The word that the parser makes of the four bytes that the builder stores.
word_again :
    (x : ℕ)
    → x < 2 ^ 32
    → bit_or
        (bit_or
          (bit_or (bit_and x 0xff) (bit_and (x >>> 8) 0xff <<< 8))
          (bit_and (x >>> 16) 0xff <<< 16))
        (bit_and (x >>> 24) 0xff <<< 24)
      ≡ x
word_again x h =
    rw (bit_and_255 x, bit_and_255 (x / 2 ^ 8), bit_and_255 (x / 2 ^ 16), bit_and_255 (x / 2 ^ 24))
      (join_bytes (x % 256) (x / 256 % 256) (x / 65536 % 256) (x / 16777216 % 256) (omega arith)
          (omega arith) (omega arith)
        ∙ rejoin x h)

pub read_header-bytes :
    {h : Header} (rest : List ℕ) → IsHeader h → read_header (header_bytes h ++ rest) ≡ h
unfolding read_header header_bytes read_le32 le32_bytes
read_header-bytes {h} rest v = λ i. record {
  to_id = word_again h.to_id v.to_fits i;
  from_id = word_again h.from_id v.from_fits i;
  packet_id = word_again h.packet_id v.packet_fits i;
  flags = h.flags;
  channel = h.channel;
  next_hop = h.next_hop;
  relay = h.relay;
}

-- The bytes of the word that four bytes were parsed to are those bytes.
bytes_again :
    (a b c d : ℕ) (rest : List ℕ) (more : List ℕ)
    → AllBytes (a ∷ b ∷ c ∷ d ∷ more)
    → le32_bytes (bit_or (bit_or (bit_or a (b <<< 8)) (c <<< 16)) (d <<< 24)) rest
      ≡ a ∷ b ∷ c ∷ d ∷ rest
bytes_again a b c d rest more v =
    rw (join_bytes a b c d v.0 v.1.0 v.1.1.0, le32_bytes-eq)
      λ i. first i ∷ second i ∷ third i ∷ fourth i ∷ rest
  where
    first : (a + b * 256 + c * 65536 + d * 16777216) % 256 ≡ a
    first = omega arith

    second : (a + b * 256 + c * 65536 + d * 16777216) / 256 % 256 ≡ b
    second = omega arith

    third : (a + b * 256 + c * 65536 + d * 16777216) / 65536 % 256 ≡ c
    third = omega arith

    fourth : (a + b * 256 + c * 65536 + d * 16777216) / 16777216 % 256 ≡ d
    fourth = omega arith

-- A header written into any buffer that can hold it is read back unchanged.
pub from_buf-to_buf :
    (h g : Header) (buf : List ℕ)
    → IsHeader h
    → 16 ≤ length buf
    → mesh_header_from_buf (some g) (mesh_header_to_buf (some h) (some buf)) ≡ some h
unfolding mesh_header_from_buf mesh_header_to_buf
from_buf-to_buf h g buf v fits =
    ap some (rw (write_header-eq h buf fits) (read_header-bytes (drop 16 buf) v))

-- Building the header that a buffer was parsed to gives the buffer back.
pub write-read_header :
    (buf : List ℕ)
    → 16 ≤ length buf
    → AllBytes (take 16 buf)
    → write_header (read_header buf) buf ≡ buf
unfolding write_header header_bytes read_header read_le32
write-read_header
      (a0 ∷ a1 ∷ a2 ∷ a3 ∷ a4 ∷ a5 ∷ a6 ∷ a7 ∷ a8 ∷ a9 ∷ a10 ∷ a11 ∷ a12 ∷ a13 ∷ a14 ∷ a15 ∷ rest) h
      v =
    let v4 = v.1.1.1.1 in
    let v8 = v4.1.1.1.1 in
    rw (
      bytes_again a0 a1 a2 a3 _
          (a4 ∷ a5 ∷ a6 ∷ a7 ∷ a8 ∷ a9 ∷ a10 ∷ a11 ∷ a12 ∷ a13 ∷ a14 ∷ a15 ∷ []) v,
      bytes_again a4 a5 a6 a7 _ (a8 ∷ a9 ∷ a10 ∷ a11 ∷ a12 ∷ a13 ∷ a14 ∷ a15 ∷ []) v4,
      bytes_again a8 a9 a10 a11 _ (a12 ∷ a13 ∷ a14 ∷ a15 ∷ []) v8,
      blit_nothing rest,
    )
write-read_header _ h v = absurd (omega arith)

-- Writing a header back into the buffer of bytes that it was read from changes no byte of it.
pub to_buf-from_buf :
    (g : Header) (buf : List ℕ)
    → 16 ≤ length buf
    → AllBytes (take 16 buf)
    → mesh_header_to_buf (mesh_header_from_buf (some g) (some buf)) (some buf) ≡ some buf
unfolding mesh_header_from_buf mesh_header_to_buf
to_buf-from_buf g buf fits v = ap some (write-read_header buf fits v)
