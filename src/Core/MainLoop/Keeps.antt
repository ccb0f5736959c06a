-- ===== src/Core/MainLoop/Keeps.antt =====
-- `mesh_mini_loop` keeps a node sound.

use meshtastic_mini.Base.{◌≤◌, ℕ, ◌-◌, ◌≡◌, refl, ap, ◌∙◌, List, length, take, drop, u16, ltb, leb}
use meshtastic_mini.Base.{◌==◌, ◌||◌, length-blit, bit_and, Returns, returned, never, anything}
use meshtastic_mini.Base.{Returns-bind, Returns-if, Option, none, some, Bool-cases, inl, inr}
use meshtastic_mini.Mesh.Packet.{Header, write_header, header_bytes, read_header, mesh_broadcast_id}
use meshtastic_mini.Mesh.Router.{flood_seen, flood_prepare_forward, relayed, flood_should_forward}
use meshtastic_mini.Crypto.{Cryp, Aes}
use meshtastic_mini.Radio.Lora.{lora_rx_poll}
use meshtastic_mini.Radio.Phy.{ops_of}
use meshtastic_mini.Core.Led.{led_tick}
use meshtastic_mini.Core.Protobuf.{pb_decode_data, Ending, finished}
use meshtastic_mini.Core.MainLoop.{Node}
use meshtastic_mini.Core.MainLoop.Receive.{show_message, answer_message, take_data, opened}
use meshtastic_mini.Core.MainLoop.Receive.{take_packet, take_text, or_else, relay_packet}
use meshtastic_mini.Core.MainLoop.Receive.{receive_packet, mesh_mini_loop, pong, is_pong}
use meshtastic_mini.Core.MainLoop.Invariant.{IsNode, send_buffer-IsNode, send_lora_packet-IsNode}
use meshtastic_mini.Core.MainLoop.Editing.{with_rx, with_router, uart_rx_line_poll-IsNode}

length-relayed :
    (rx : List ℕ) (len me : ℕ)
    → length (or_else rx (flood_prepare_forward (some rx) len me)) ≡ length rx
unfolding flood_prepare_forward write_header
length-relayed rx len me = elim (Bool-cases (ltb len 16)) [
  | inl short ↦ rw short refl
  | inr whole ↦ rw whole (length-blit rx 0 (header_bytes (relayed (read_header rx) me)))
]

module _ {cryp : Cryp} {S : Type 0} where
  answer_message-IsNode :
      (fuel : ℕ) (h : Header) (text : List ℕ) (text_len : ℕ) (n : Node cryp S)
      → IsNode n
      → Returns IsNode (answer_message fuel h text text_len n)
  unfolding answer_message show_message
  answer_message-IsNode fuel h text text_len n v =
      Returns-if (is_pong (take text_len text)) (returned v) (
        Returns-bind
          (send_lora_packet-IsNode fuel h.from_id pong 4 (show_message text text_len n) v)
          λ r w. returned w)

  take_text-IsNode :
      (fuel : ℕ) (h : Header) (dec_buf : List ℕ) (off : Option ℕ) (text_len : ℕ) (n : Node cryp S)
      → IsNode n
      → Returns IsNode (take_text fuel h dec_buf off text_len n)
  unfolding take_text
  take_text-IsNode fuel h dec_buf none text_len n v = returned v
  take_text-IsNode fuel h dec_buf (some off) text_len n v =
      Returns-if (ltb 0 text_len) (answer_message-IsNode fuel h (drop off dec_buf) text_len n v)
        (returned v)

  take_data-IsNode :
      (fuel : ℕ) (h : Header) (dec_buf : List ℕ) (e : Ending) (n : Node cryp S)
      → IsNode n
      → Returns IsNode (take_data fuel h dec_buf e n)
  unfolding take_data
  take_data-IsNode fuel h dec_buf Ending.running n v = never
  take_data-IsNode fuel h dec_buf Ending.undefined n v = anything
  take_data-IsNode fuel h dec_buf (finished d) n v =
      take_text-IsNode fuel h dec_buf d.payload d.payload_len n v

  opened-IsNode :
      (fuel : ℕ) (h : Header) (enc_len : ℕ) (n : Node cryp S) (o : Option (Aes cryp × List ℕ))
      → IsNode n
      → Returns IsNode (opened fuel h enc_len n o)
  unfolding opened
  opened-IsNode fuel h enc_len n none v = never
  opened-IsNode fuel h enc_len n (some (aes, dec_buf)) v =
      take_data-IsNode fuel h dec_buf (pb_decode_data dec_buf enc_len fuel) (record n { aes = aes })
        v

  pub take_packet-IsNode :
      (fuel : ℕ) (h : Header) (len : ℕ) (n : Node cryp S)
      → IsNode n
      → Returns IsNode (take_packet fuel h len n)
  unfolding take_packet
  take_packet-IsNode fuel h len n v = opened-IsNode fuel h (u16 (len - 16)) n _ v

  relay_packet-IsNode : (len : ℕ) (n : Node cryp S) → IsNode n → Returns IsNode (relay_packet len n)
  unfolding relay_packet
  relay_packet-IsNode len n v =
      let me = bit_and n.g_config.node_id 0xff in
      let buf = or_else n.lora_rx_buf (flood_prepare_forward (some n.lora_rx_buf) len me) in
      let size = length-relayed n.lora_rx_buf len me ∙ v.rx_size in
      Returns-bind
        (send_buffer-IsNode buf len (record n { lora_rx_buf = buf }) (with_rx n buf v size))
        λ r w. returned w

  pub receive_packet-IsNode :
      (fuel len : ℕ) (n : Node cryp S) → IsNode n → Returns IsNode (receive_packet fuel len n)
  unfolding receive_packet
  receive_packet-IsNode fuel len n v =
      let h = read_header n.lora_rx_buf in
      let noted = record n { router = flood_seen n.router h.from_id h.packet_id } in
      let sound = with_router n h.from_id h.packet_id v in
      Returns-bind
        (Returns-if (h.to_id == mesh_broadcast_id || h.to_id == n.g_config.node_id)
          (take_packet-IsNode fuel h len noted sound) (returned sound))
        λ n' w.
          Returns-if (flood_should_forward n.router (some n.lora_rx_buf) len)
            (relay_packet-IsNode len n' w) (returned w)

  -- The node once the radio was polled.
  pub received-IsNode :
      (n : Node cryp S)
      → IsNode n
      → (let poll = lora_rx_poll (some n.lora_rx_buf) 256 n.lora in
          IsNode (record n { lora = poll.0; lora_rx_buf = or_else n.lora_rx_buf poll.1 })
          × (poll.2 ≤ 256)
          × (poll.0.s_ops ≡ n.lora.s_ops))
  unfolding lora_rx_poll
  received-IsNode n w =
      let (out, e, size, bound) = w.driver_sound.polled n.lora_rx_buf 256 n.lora.driver in
      let poll = (ops_of n.lora.s_ops).rx_poll (some n.lora_rx_buf) 256 n.lora.driver in
      let buf = or_else n.lora_rx_buf poll.1 in
      let after = record n { lora = record n.lora { driver = poll.0 } } in
      let whole = ap (λ o. length (or_else n.lora_rx_buf o)) e ∙ size ∙ w.rx_size in
      (with_rx after buf w whole, bound, refl)

  -- A node that is sound stays so over every round of the main loop that returns: with a driver that
  -- keeps to its buffer, whatever comes in over the UART and the radio, the buffers keep their sizes,
  -- the line, the rings and the packet number stay within bounds.
  pub mesh_mini_loop-IsNode :
      (rounds fuel now : ℕ) (coming : List (List ℕ)) (n : Node cryp S)
      → IsNode n
      → Returns IsNode (mesh_mini_loop rounds fuel now coming n)
  unfolding mesh_mini_loop
  mesh_mini_loop-IsNode rounds fuel now coming n v =
      Returns-bind
        (uart_rx_line_poll-IsNode rounds fuel coming (record n { led = led_tick now n.led }) v)
        λ polled w.
          let sound = (received-IsNode polled w).0 in
          let poll = lora_rx_poll (some polled.lora_rx_buf) 256 polled.lora in
          let received = record polled {
            lora = poll.0;
            lora_rx_buf = or_else polled.lora_rx_buf poll.1;
          } in
          Returns-if (leb poll.2 16) (returned sound)
            (receive_packet-IsNode fuel poll.2 received sound)
