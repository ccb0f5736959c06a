-- ===== src/Core/MainLoop/Bytes.antt =====
-- The buffers of a node hold bytes, whatever it receives, types and sends.

use meshtastic_mini.Base.{ℕ, ◌+◌, ◌^◌, ◌≤◌, ◌<◌, ◌≡◌, arith, Bool, List, [], ◌∷◌, length, take}
use meshtastic_mini.Base.{drop, replicate, blit, u8, u16, ltb, ◌==◌, ◌||◌, bit_and, bit_and_255}
use meshtastic_mini.Base.{Bool-cases, inl, inr, Option, none, some, AllBytes, AllBytes-append}
use meshtastic_mini.Base.{AllBytes-drop, AllBytes-take, AllBytes-blit, AllBytes-replicate, Returns}
use meshtastic_mini.Base.{returned, never, Returns-bind, Returns-if}
use meshtastic_mini.Mesh.Packet.{IsHeader}
use meshtastic_mini.Mesh.Packet.Bounds.{write_header-AllBytes}
use meshtastic_mini.Mesh.Router.{flood_prepare_forward}
use meshtastic_mini.Mesh.Router.Forward.{flood_prepare_forward-relays}
use meshtastic_mini.Crypto.{Cryp, Aes}
use meshtastic_mini.Crypto.Bytes.{GivesBytes, not_yet, of_bytes, aes_ctr_crypt-GivesBytes}
use meshtastic_mini.Radio.Phy.{RadioPhyOps, ops_of}
use meshtastic_mini.Radio.Lora.{lora_tx, after_driver}
use meshtastic_mini.Core.Protobuf.{pb_encode_data}
use meshtastic_mini.Core.MainLoop.{Node, header_to, plain_packet, sealed, seal_packet, after_tx}
use meshtastic_mini.Core.MainLoop.{send_buffer, send_lora_packet}
use meshtastic_mini.Core.MainLoop.Receive.{or_else}
use meshtastic_mini.Core.MainLoop.Invariant.{IsNode}

-- A driver puts bytes into the buffer.
pub record PollsBytes {S : Type 0} (ops : RadioPhyOps S) : Type 0 where
  pub polls_bytes :
      (buf : List ℕ) (s : S)
      → AllBytes buf
      → AllBytes (or_else buf (ops.rx_poll (some buf) 256 s).1)

-- The buffers are made of bytes.
pub record HoldBytes {S : Type 0} (rx tx line ring : List ℕ) (ops : Option (RadioPhyOps S))
    : Type 0 where
  pub rx_bytes : AllBytes rx
  pub tx_bytes : AllBytes tx
  pub line_bytes : AllBytes line
  pub ring_bytes : AllBytes ring
  pub driver_bytes : PollsBytes (ops_of ops)

abbrev pub HoldsBytes : {cryp : Cryp} {S : Type 0} → Node cryp S → Type 0
HoldsBytes n = HoldBytes n.lora_rx_buf n.lora_tx_buf n.line_buf n.ring.rx_ring n.lora.s_ops

encoded-AllBytes :
    (text : List ℕ) (len : ℕ)
    → AllBytes text
    → AllBytes (pb_encode_data (replicate 240 0) 240 1 text len).0
unfolding pb_encode_data
encoded-AllBytes text len v =
    let blank = AllBytes-replicate 240 0 (omega arith) in
    let tags = 0x08 ∷ 1 ∷ 0x12 ∷ u8 len ∷ [] in
    let headed = AllBytes-blit (replicate 240 0) 0 tags blank (omega arith) in
    elim (Bool-cases (ltb 240 (u16 (2 + 2 + len)) || ltb 127 len)) [
      | inl refused ↦ rw refused blank
      | inr fits ↦ rw fits (
          AllBytes-blit (blit (replicate 240 0) 0 tags) 4 (take len text) headed
            (AllBytes-take len text v))
    ]

pub relayed-AllBytes :
    (rx : List ℕ) (len id : ℕ)
    → length rx ≡ 256
    → len ≤ 256
    → AllBytes rx
    → AllBytes (or_else rx (flood_prepare_forward (some rx) len (bit_and id 0xff)))
relayed-AllBytes rx len id size whole v = elim (Bool-cases (ltb len 16)) [
  | inl short ↦ unfold flood_prepare_forward in rw short v
  | inr header ↦
      let (out, e, read, kept, same, bytes) =
        flood_prepare_forward-relays rx len (bit_and id 0xff) v (ground arith) (omega arith)
          (omega (arith, bit_and_255 id)) in
      rw e bytes
]

module _ {cryp : Cryp} {S : Type 0} where
  plain_packet-AllBytes :
      (to_id : ℕ) (pb : List ℕ) (len : ℕ) (n : Node cryp S)
      → to_id < 2 ^ 32
      → AllBytes pb
      → IsNode n
      → HoldsBytes n
      → AllBytes (plain_packet to_id pb len n)
  unfolding plain_packet header_to
  plain_packet-AllBytes to_id pb len n fits v sound w =
      let header : IsHeader (header_to to_id n) = omega arith in
      AllBytes-blit _ 16 (take len pb)
        (write_header-AllBytes (header_to to_id n) n.lora_tx_buf header w.tx_bytes (omega arith))
        (AllBytes-take len pb v)

  sealed-HoldsBytes :
      (to_id : ℕ) (packet : List ℕ) (n : Node cryp S) {o : Option (Aes cryp × List ℕ)}
      → AllBytes packet
      → HoldsBytes n
      → GivesBytes o
      → Returns HoldsBytes (sealed to_id packet n o)
  unfolding sealed
  sealed-HoldsBytes to_id packet n v w not_yet = never
  sealed-HoldsBytes to_id packet n v w (of_bytes {s} {out} e) = returned (record {
    rx_bytes = w.rx_bytes;
    tx_bytes = AllBytes-append (take 16 packet) out (AllBytes-take 16 packet v) e;
    line_bytes = w.line_bytes;
    ring_bytes = w.ring_bytes;
    driver_bytes = w.driver_bytes;
  })

  after_tx-HoldsBytes :
      (n : Node cryp S) (o : Option (S × Bool))
      → HoldsBytes n
      → Returns (λ r. HoldsBytes r.0) (after_tx n (after_driver n.lora o))
  unfolding after_tx after_driver
  after_tx-HoldsBytes n none w = never
  after_tx-HoldsBytes n (some (driver, sent)) w = returned w

  pub send_buffer-HoldsBytes :
      (buf : List ℕ) (len : ℕ) (n : Node cryp S)
      → HoldsBytes n
      → Returns (λ r. HoldsBytes r.0) (send_buffer buf len n)
  unfolding send_buffer lora_tx
  send_buffer-HoldsBytes buf len n w =
      after_tx-HoldsBytes n ((ops_of n.lora.s_ops).tx (some buf) len n.lora.driver) w

  pub send_lora_packet-HoldsBytes :
      (fuel to_id : ℕ) (text : List ℕ) (text_len : ℕ) (n : Node cryp S)
      → to_id < 2 ^ 32
      → AllBytes text
      → IsNode n
      → HoldsBytes n
      → Returns (λ r. HoldsBytes r.0) (send_lora_packet fuel to_id text text_len n)
  unfolding send_lora_packet seal_packet
  send_lora_packet-HoldsBytes fuel to_id text text_len n fits v sound w =
      let (pb, pb_len) = pb_encode_data (replicate 240 0) 240 1 text text_len in
      let packet = plain_packet to_id pb pb_len n in
      let bytes =
        plain_packet-AllBytes to_id pb pb_len n fits (encoded-AllBytes text text_len v) sound w in
      Returns-if (pb_len == 0) (returned w) (
        Returns-bind
          (sealed-HoldsBytes to_id packet n bytes w (
            aes_ctr_crypt-GivesBytes cryp fuel (drop 16 packet) pb_len _ _ n.aes
              (AllBytes-drop 16 packet bytes)))
          λ n' w'. send_buffer-HoldsBytes n'.lora_tx_buf (u16 (16 + pb_len)) n' w')
