-- ===== src/Core/MainLoop/Typed.antt =====
-- A round of the main loop keeps the buffers of a node full of bytes.
use meshtastic_mini.Core.MainLoop.TypedLines.{ComeAsBytes, with_rx_bytes, poll-HoldsBytes}
use meshtastic_mini.Base.{ℕ, ◌-◌, ◌^◌, ◌≤◌, ◌<◌, arith, List, take, drop, u16, ltb, leb, ◌==◌, ◌||◌}
use meshtastic_mini.Base.{bit_and, Option, none, some, Returns, returned, never, anything}
use meshtastic_mini.Base.{Returns-bind, Returns-if, Returns-both}
use meshtastic_mini.Mesh.Packet.{Header, read_header, mesh_broadcast_id}
use meshtastic_mini.Mesh.Packet.Bounds.{read_header-IsHeader}
use meshtastic_mini.Mesh.Router.{flood_seen, flood_prepare_forward, flood_should_forward}
use meshtastic_mini.Crypto.{Cryp, Aes}
use meshtastic_mini.Radio.Lora.{lora_rx_poll}
use meshtastic_mini.Core.Led.{led_tick}
use meshtastic_mini.Core.Protobuf.{pb_decode_data, Ending, finished}
use meshtastic_mini.Core.MainLoop.{Node}
use meshtastic_mini.Core.MainLoop.Receive.{show_message, answer_message, take_text, take_data}
use meshtastic_mini.Core.MainLoop.Receive.{opened, take_packet, relay_packet, receive_packet}
use meshtastic_mini.Core.MainLoop.Receive.{mesh_mini_loop, pong, is_pong, or_else}
use meshtastic_mini.Core.MainLoop.Invariant.{IsNode}
use meshtastic_mini.Core.MainLoop.Editing.{with_router, uart_rx_line_poll-IsNode}
use meshtastic_mini.Core.MainLoop.Keeps.{received-IsNode, take_packet-IsNode, mesh_mini_loop-IsNode}
use meshtastic_mini.Core.MainLoop.Bytes.{HoldsBytes, relayed-AllBytes, send_buffer-HoldsBytes}
use meshtastic_mini.Core.MainLoop.Bytes.{send_lora_packet-HoldsBytes}

module _ {cryp : Cryp} {S : Type 0} where
  answer_message-HoldsBytes :
      (fuel : ℕ) (h : Header) (text : List ℕ) (text_len : ℕ) (n : Node cryp S)
      → h.from_id < 2 ^ 32
      → IsNode n
      → HoldsBytes n
      → Returns HoldsBytes (answer_message fuel h text text_len n)
  unfolding answer_message show_message
  answer_message-HoldsBytes fuel h text text_len n fits v w =
      Returns-if (is_pong (take text_len text)) (returned w) (
        Returns-bind
          (send_lora_packet-HoldsBytes fuel h.from_id pong 4 (show_message text text_len n) fits
            (omega arith) v w)
          λ r k. returned k)

  take_text-HoldsBytes :
      (fuel : ℕ) (h : Header) (dec_buf : List ℕ) (off : Option ℕ) (text_len : ℕ) (n : Node cryp S)
      → h.from_id < 2 ^ 32
      → IsNode n
      → HoldsBytes n
      → Returns HoldsBytes (take_text fuel h dec_buf off text_len n)
  unfolding take_text
  take_text-HoldsBytes fuel h dec_buf none text_len n fits v w = returned w
  take_text-HoldsBytes fuel h dec_buf (some off) text_len n fits v w =
      Returns-if (ltb 0 text_len)
        (answer_message-HoldsBytes fuel h (drop off dec_buf) text_len n fits v w) (returned w)

  take_data-HoldsBytes :
      (fuel : ℕ) (h : Header) (dec_buf : List ℕ) (e : Ending) (n : Node cryp S)
      → h.from_id < 2 ^ 32
      → IsNode n
      → HoldsBytes n
      → Returns HoldsBytes (take_data fuel h dec_buf e n)
  unfolding take_data
  take_data-HoldsBytes fuel h dec_buf Ending.running n fits v w = never
  take_data-HoldsBytes fuel h dec_buf Ending.undefined n fits v w = anything
  take_data-HoldsBytes fuel h dec_buf (finished d) n fits v w =
      take_text-HoldsBytes fuel h dec_buf d.payload d.payload_len n fits v w

  opened-HoldsBytes :
      (fuel : ℕ) (h : Header) (enc_len : ℕ) (n : Node cryp S) (o : Option (Aes cryp × List ℕ))
      → h.from_id < 2 ^ 32
      → IsNode n
      → HoldsBytes n
      → Returns HoldsBytes (opened fuel h enc_len n o)
  unfolding opened
  opened-HoldsBytes fuel h enc_len n none fits v w = never
  opened-HoldsBytes fuel h enc_len n (some (aes, dec_buf)) fits v w =
      take_data-HoldsBytes fuel h dec_buf (pb_decode_data dec_buf enc_len fuel)
        (record n { aes = aes }) fits v w

  take_packet-HoldsBytes :
      (fuel : ℕ) (h : Header) (len : ℕ) (n : Node cryp S)
      → h.from_id < 2 ^ 32
      → IsNode n
      → HoldsBytes n
      → Returns HoldsBytes (take_packet fuel h len n)
  unfolding take_packet
  take_packet-HoldsBytes fuel h len n fits v w =
      opened-HoldsBytes fuel h (u16 (len - 16)) n _ fits v w

  relay_packet-HoldsBytes :
      (len : ℕ) (n : Node cryp S)
      → len ≤ 256
      → IsNode n
      → HoldsBytes n
      → Returns HoldsBytes (relay_packet len n)
  unfolding relay_packet
  relay_packet-HoldsBytes len n whole v w =
      let rx = n.lora_rx_buf in
      let me = n.g_config.node_id in
      let buf = or_else rx (flood_prepare_forward (some rx) len (bit_and me 0xff)) in
      Returns-bind
        (send_buffer-HoldsBytes buf len (record n { lora_rx_buf = buf })
          (with_rx_bytes n buf w (relayed-AllBytes rx len me v.rx_size whole w.rx_bytes)))
        λ r k. returned k

  receive_packet-HoldsBytes :
      (fuel len : ℕ) (n : Node cryp S)
      → len ≤ 256
      → IsNode n
      → HoldsBytes n
      → Returns HoldsBytes (receive_packet fuel len n)
  unfolding receive_packet
  receive_packet-HoldsBytes fuel len n whole v w =
      let h = read_header n.lora_rx_buf in
      let noted = record n { router = flood_seen n.router h.from_id h.packet_id } in
      let sound = with_router n h.from_id h.packet_id v in
      let fits = (read_header-IsHeader n.lora_rx_buf w.rx_bytes).from_fits in
      Returns-bind
        (Returns-if (h.to_id == mesh_broadcast_id || h.to_id == n.g_config.node_id)
          (Returns-both (take_packet-IsNode fuel h len noted sound)
            (take_packet-HoldsBytes fuel h len noted fits sound w))
          (returned (sound, w)))
        λ n' k.
          Returns-if (flood_should_forward n.router (some n.lora_rx_buf) len)
            (relay_packet-HoldsBytes len n' whole k.0 k.1) (returned k.1)

  -- Over every round of the main loop that returns, the values stay within their C types: for a sound
  -- node with a driver that reads bytes, and bytes that come in over the UART, the node stays sound,
  -- and the buffers of the radio, the line and the ring stay buffers of bytes, whatever the hardware
  -- that encrypts gives.
  pub mesh_mini_loop-HoldsBytes :
      (rounds fuel now : ℕ) (coming : List (List ℕ)) (n : Node cryp S)
      → ComeAsBytes coming
      → IsNode n
      → HoldsBytes n
      → Returns (λ n'. IsNode n' × HoldsBytes n') (mesh_mini_loop rounds fuel now coming n)
  mesh_mini_loop-HoldsBytes rounds fuel now coming n c v w =
      Returns-both (mesh_mini_loop-IsNode rounds fuel now coming n v) (
        unfold mesh_mini_loop in
        Returns-bind
          (Returns-both
            (uart_rx_line_poll-IsNode rounds fuel coming (record n { led = led_tick now n.led }) v)
            (poll-HoldsBytes rounds fuel coming (record n { led = led_tick now n.led }) c v w))
          λ polled k.
            let (sound, bound, same) = received-IsNode polled k.0 in
            let rx = polled.lora_rx_buf in
            let poll = lora_rx_poll (some rx) 256 polled.lora in
            let received = record polled { lora = poll.0; lora_rx_buf = or_else rx poll.1 } in
            let bytes : HoldsBytes received =
              unfold lora_rx_poll in
              with_rx_bytes (record polled { lora = poll.0 }) (or_else rx poll.1) k.1
                (k.1.driver_bytes.polls_bytes rx polled.lora.driver k.1.rx_bytes) in
            Returns-if (leb poll.2 16) (returned bytes)
              (receive_packet-HoldsBytes fuel poll.2 received bound sound bytes))
