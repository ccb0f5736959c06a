-- ===== src/Core/MainLoop/Own.antt =====
-- A node and its own packets.
use meshtastic_mini.Base.{ℕ, ◌+◌, ◌≤◌, ◌≡◌, sym, ap, ◌∙◌, arith, Bool, false, some, List, length}
use meshtastic_mini.Base.{ok, AllBytes}
use meshtastic_mini.Mesh.Packet.{read_header}
use meshtastic_mini.Mesh.Packet.RoundTrip.{read_header-bytes}
use meshtastic_mini.Mesh.Router.{Seen, flood_should_forward, flood_seen}
use meshtastic_mini.Mesh.Router.History.{see_all}
use meshtastic_mini.Mesh.Router.Recent.{IsRouter}
use meshtastic_mini.Mesh.Router.Flood.{relay_through, no_second_relay}
use meshtastic_mini.Crypto.{Cryp}
use meshtastic_mini.Crypto.Block.{Works}
use meshtastic_mini.Radio.Lora.{lora_tx}
use meshtastic_mini.Core.MainLoop.{Node, header_to, send_buffer, send_lora_packet}
use meshtastic_mini.Core.MainLoop.Delivery.{CanSend, header_to-IsHeader, send_lora_packet-sends}
use meshtastic_mini.Core.MainLoop.Arrival.{after_tx-keeps}

module _ {cryp : Cryp} {S : Type 0} (cipher : List ℕ → List ℕ → List ℕ)
    (works : Works cryp cipher) where
  -- A node never relays what it has sent itself: a packet of bytes that `send_lora_packet` has made of
  -- a text of 1 to 127 bytes, back through any chain of other nodes, is refused as long as the node
  -- has registered at most 31 other packets since.
  pub own_packet_refused :
      (a a' : Node cryp S) (sent : Bool) (fuel to_id : ℕ) (text : List ℕ) (nodes : List ℕ)
      (others : List Seen)
      → CanSend a to_id text
      → 16 ≤ fuel
      → IsRouter a.router
      → send_lora_packet fuel to_id text (length text) a ≡ ok (a', sent)
      → AllBytes a'.lora_tx_buf
      → length text + 20 ≤ length a'.lora_tx_buf
      → AllBytes nodes
      → length others ≤ 31
      → (out : List ℕ) × (relay_through nodes (some a'.lora_tx_buf) (length text + 20) ≡ some out)
        × (flood_should_forward (see_all a'.router others) (some out) (length text + 20) ≡ false)
  unfolding send_buffer header_to
  own_packet_refused a a' sent fuel to_id text nodes others can enough rv done v whole ids few =
      let (a'', sends, sealed) = send_lora_packet-sends cipher works a fuel to_id text can enough in
      let k = length text in
      let (kept, router) =
        after_tx-keeps a'' a' sent (lora_tx (some a''.lora_tx_buf) (k + 20) a''.lora)
          (sym sends ∙ done) in
      let head : read_header a'.lora_tx_buf ≡ header_to to_id a =
        ap read_header (kept ∙ sealed.packet)
        ∙ read_header-bytes sealed.sealed_bytes
            (header_to-IsHeader cipher works a to_id text can) in
      let (out, e, refused) =
        no_second_relay nodes a'.lora_tx_buf (k + 20) others v (omega arith) whole ids rv few in
      let registered : a'.router
          ≡ flood_seen a.router (read_header a'.lora_tx_buf).from_id
              (read_header a'.lora_tx_buf).packet_id =
        router
        ∙ sealed.registered
        ∙ sym (ap (λ h. flood_seen a.router h.from_id h.packet_id) head) in
      (
        out,
        e,
        ap (λ r. flood_should_forward (see_all r others) (some out) (k + 20)) registered ∙ refused,
      )
