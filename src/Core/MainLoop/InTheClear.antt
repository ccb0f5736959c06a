-- ===== src/Core/MainLoop/InTheClear.antt =====
-- What `send_lora_packet` sends when the hardware that encrypts fails.
use meshtastic_mini.Base.{ℕ, suc, zero, ◌+◌, ◌<◌, ◌≡◌, refl, ap, ◌∙◌, u16, u32, ◌==◌, false, List}
use meshtastic_mini.Base.{arith, length, take, drop, replicate, length-blit, length-drop, take-blit}
use meshtastic_mini.Base.{take-append-drop, ok}
use meshtastic_mini.Mesh.Packet.{header_bytes}
use meshtastic_mini.Mesh.Router.{flood_seen}
use meshtastic_mini.Crypto.{Cryp, Aes}
use meshtastic_mini.Crypto.Failure.{fails_in_the_clear}
use meshtastic_mini.Core.Protobuf.Encode.{message}
use meshtastic_mini.Core.MainLoop.{Node, header_to, plain_packet, sealed, seal_packet, send_buffer}
use meshtastic_mini.Core.MainLoop.{send_lora_packet}
use meshtastic_mini.Core.MainLoop.Seal.{plain_parts}
use meshtastic_mini.Core.MainLoop.Delivery.{CanSend, encoded, encoded-eq, encoded_start}

module _ {cryp : Cryp} {S : Type 0} where
  -- The node once it has packed a message and taken note of its packet.
  abbrev packed : List ℕ → Aes cryp → Node cryp S → Node cryp S
  packed buf aes n = record n {
    lora_tx_buf = buf;
    next_packet_id = u32 (n.next_packet_id + 1);
    aes = aes;
    router = flood_seen n.router n.g_config.node_id n.next_packet_id;
  }

  seals_plain :
      (fuel to_id : ℕ) (pb : List ℕ) (len : ℕ) (n : Node cryp S)
      → 0 < len
      → n.aes.cryp_ready ≡ false
      → (cryp.init n.aes.device).1 ≡ false
      → (aes : Aes cryp) × (seal_packet (suc fuel) to_id pb len n
          ≡ ok (packed (plain_packet to_id pb len n) aes n))
  unfolding seal_packet sealed header_to
  seals_plain fuel to_id pb len n some_bytes cold broken =
      let plain = plain_packet to_id pb len n in
      let (aes, done) =
        fails_in_the_clear cryp fuel (drop 16 plain) len n.next_packet_id n.g_config.node_id n.aes
          some_bytes cold broken in
      (
        aes,
        ap (sealed to_id plain n) done
            ∙ ap (λ buf. ok (packed buf aes n)) (take-append-drop 16 plain),
      )

  -- The hardware is not ready and does not initialise: of a text of 1 to 127 bytes, with fuel for one
  -- block, `send_lora_packet` hands to the radio a header, and behind it the encoded message with the
  -- plain text.
  pub sends_in_the_clear :
      (a : Node cryp S) (fuel to_id : ℕ) (text : List ℕ)
      → CanSend a to_id text
      → 0 < fuel
      → a.aes.cryp_ready ≡ false
      → (cryp.init a.aes.device).1 ≡ false
      → (a' : Node cryp S) × (send_lora_packet fuel to_id text (length text) a
          ≡ send_buffer a'.lora_tx_buf (length text + 20) a')
        × (take 16 a'.lora_tx_buf ≡ header_bytes (header_to to_id a))
        × (take (length text + 4) (drop 16 a'.lora_tx_buf) ≡ message 1 (length text) text)
  unfolding send_lora_packet
  sends_in_the_clear a zero to_id text can some_fuel cold broken = absurd (omega arith)
  sends_in_the_clear a (suc fuel) to_id text can some_fuel cold broken =
      let k = length text in
      let (aes, done) = seals_plain fuel to_id (encoded text) (k + 4) a (omega arith) cold broken in
      let (head, tail) = plain_parts to_id (encoded text) (k + 4) a can.tx_size in
      let not_empty : (k + 4 == 0) ≡ false = ground arith in
      let size : u16 (16 + (k + 4)) ≡ k + 20 = omega (arith, can.small) in
      (
        packed (plain_packet to_id (encoded text) (k + 4) a) aes a,
        rw (encoded-eq text can.small, not_empty, done, size) refl,
        head,
        ap (take (k + 4)) tail
            ∙ take-blit (k + 4) (drop 16 a.lora_tx_buf) (encoded text)
                (omega (arith, can.small, can.tx_size, length-drop 16 a.lora_tx_buf))
                (omega (arith, can.small, length-blit (replicate 236 0) 0 text))
            ∙ encoded_start text can.small,
      )
