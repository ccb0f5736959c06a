-- ===== src/Core/MainLoop/Arrival.antt =====
-- The text at the other node: what `mesh_mini_loop` does behind a packet that was sent to it.

use meshtastic_mini.Base.{ℕ, ◌+◌, ◌≤◌, ◌≡◌, ◌⊎◌, refl, sym, ap, ◌∙◌, arith, Option, none, some}
use meshtastic_mini.Base.{List, ◌++◌, length, take, drop, Bool, true, ◌||◌, ◌==◌, if◌then◌else◌}
use meshtastic_mini.Base.{Run, ok, running, undefined, ◌>>=◌, length-blit, length-drop, replicate}
use meshtastic_mini.Base.{take-blit}
use meshtastic_mini.Mesh.Packet.{mesh_broadcast_id}
use meshtastic_mini.Mesh.Router.{flood_seen, flood_should_forward}
use meshtastic_mini.Crypto.{Cryp, Aes}
use meshtastic_mini.Crypto.Block.{Works}
use meshtastic_mini.Radio.Lora.{Lora, lora_tx}
use meshtastic_mini.Core.MainLoop.{Node, header_to, send_buffer, after_tx, send_lora_packet}
use meshtastic_mini.Core.MainLoop.Seal.{payload_in}
use meshtastic_mini.Core.MainLoop.Open.{take_packet-answers}
use meshtastic_mini.Core.MainLoop.Delivery.{CanSend, encoded, encoded_start, heard_parts}
use meshtastic_mini.Core.MainLoop.Delivery.{header_to-IsHeader, send_lora_packet-sends}
use meshtastic_mini.Core.MainLoop.Receive.{answer_message, receive_packet, relay_packet}

module _ {cryp : Cryp} {S : Type 0} where
  result_of : Node cryp S → Run (Node cryp S × Bool) → Node cryp S
  result_of n (ok (n', sent)) = n'
  result_of n running = n
  result_of n undefined = n

  -- A call of `lora_tx` that returns leaves the packet and the router.
  pub after_tx-keeps :
      (n a' : Node cryp S) (sent : Bool) (o : Option (Lora S × Bool))
      → after_tx n o ≡ ok (a', sent)
      → (a'.lora_tx_buf ≡ n.lora_tx_buf) × (a'.router ≡ n.router)
  unfolding after_tx result_of
  after_tx-keeps n a' sent none e = cc
  after_tx-keeps n a' sent (some (lora, s)) e =
      (sym (ap (λ r. (result_of n r).lora_tx_buf) e), sym (ap (λ r. (result_of n r).router) e))

-- The packet is for the node, by its number or for all.
abbrev pub IsFor : {cryp : Cryp} {S : Type 0} → ℕ → Node cryp S → Type 0
IsFor to_id b = (to_id ≡ mesh_broadcast_id) ⊎ (to_id ≡ b.g_config.node_id)

hears_test :
    {cryp : Cryp} {S : Type 0} (to_id : ℕ) (b : Node cryp S)
    → IsFor to_id b
    → (to_id == mesh_broadcast_id || to_id == b.g_config.node_id) ≡ true
hears_test to_id b hears = ground arith

-- Two nodes with working hardware and the same key: what `send_lora_packet` has sent of a text of
-- 1 to 127 bytes, received whole by a node that it is for, is handed to `answer_message` there as that
-- text, from that sender, with the packet registered and the key kept, and then relayed if it is to be
-- relayed.
pub message_taken :
    {cryp cryp' : Cryp} {S S' : Type 0} (cipher : List ℕ → List ℕ → List ℕ)
    → Works cryp cipher
    → Works cryp' cipher
    → (a a' : Node cryp S) (b : Node cryp' S') (sent : Bool) (fuel to_id : ℕ) (text : List ℕ)
    → CanSend a to_id text
    → 16 ≤ fuel
    → send_lora_packet fuel to_id text (length text) a ≡ ok (a', sent)
    → take (length text + 20) b.lora_rx_buf ≡ take (length text + 20) a'.lora_tx_buf
    → length b.lora_rx_buf ≡ 256
    → b.aes.hw_key ≡ a.aes.hw_key
    → IsFor to_id b
    → (aes : Aes cryp') × (rest : List ℕ) × (aes.hw_key ≡ a.aes.hw_key)
      × (receive_packet fuel (length text + 20) b ≡ (
          answer_message fuel (header_to to_id a) (text ++ rest) (length text) (record b {
            router = flood_seen b.router a.g_config.node_id a.next_packet_id;
            aes = aes;
          })
          >>= (λ n.
              if flood_should_forward b.router (some b.lora_rx_buf) (length text + 20)
              then relay_packet (length text + 20) n
              else ok n)))
unfolding receive_packet header_to send_buffer
message_taken {cryp} {cryp'} {S} {S'} cipher works works' a a' b sent fuel to_id text can enough
      done heard whole same_key hears =
    let (a'', sends, sealed) = send_lora_packet-sends cipher works a fuel to_id text can enough in
    let wire = sealed.sealed_bytes in
    let h = header_to to_id a in
    let k = length text in
    let (kept, router) =
      after_tx-keeps a'' a' sent (lora_tx (some a''.lora_tx_buf) (k + 20) a''.lora)
        (sym sends ∙ done) in
    let (head, behind) =
      heard_parts h b.lora_rx_buf wire k (header_to-IsHeader cipher works a to_id text can)
        (heard ∙ ap (take (k + 20)) (kept ∙ sealed.packet)) in
    let body = payload_in a.lora_tx_buf (encoded text) (k + 4) in
    let body_size : length body ≡ 240 =
      length-blit (drop 16 a.lora_tx_buf) 0 (take (k + 4) (encoded text))
      ∙ length-drop 16 a.lora_tx_buf
      ∙ omega (arith, can.tx_size) in
    let plain =
      take-blit (k + 4) (drop 16 a.lora_tx_buf) (encoded text)
        (omega (arith, can.small, can.tx_size, length-drop 16 a.lora_tx_buf))
        (omega (arith, can.small, length-blit (replicate 236 0) 0 text))
      ∙ encoded_start text can.small in
    let noted = record b { router = flood_seen b.router h.from_id h.packet_id } in
    let (aes, rest, taken, key) =
      take_packet-answers cipher works' fuel h a.aes.hw_key text body wire noted sealed.crypted
        plain behind same_key can.some_text can.small (omega (arith, can.small))
        (omega (arith, can.small)) enough in
    (aes, rest, key, rw (head, hears_test to_id b hears, taken) refl)
