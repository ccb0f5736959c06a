-- ===== src/Core/MainLoop/Tests.antt =====
-- The main loop's theorems at work on two nodes.
use meshtastic_mini.Crypto.{Cryp, Aes}
use meshtastic_mini.Core.MainLoop.Delivery.{CanSend}
use meshtastic_mini.Core.MainLoop.InTheClear.{sends_in_the_clear}
use meshtastic_mini.Core.MainLoop.{send_buffer, Node, header_to, send_lora_packet}
use meshtastic_mini.Core.Protobuf.Encode.{message}
use meshtastic_mini.Mesh.Packet.{header_bytes, mesh_broadcast_id}
use meshtastic_mini.Base.{take, drop, none, ℕ, ◌+◌, ◌≡◌, inl, refl, some, List, [], ◌∷◌, ◌++◌}
use meshtastic_mini.Base.{arith, true, false, length, replicate, ok, ◌>>=◌, codes, if◌then◌else◌}
use meshtastic_mini.Base.{Ends, ap, inr, Returns, AllBytes-replicate, ◌≢◌}
use meshtastic_mini.Mesh.Router.{flood_seen, flood_should_forward}
use meshtastic_mini.Core.MainLoop.Receive.{receive_packet, relay_packet, mesh_mini_loop}
use meshtastic_mini.Core.MainLoop.Shown.{message_arrives, with_shown}
use meshtastic_mini.Core.MainLoop.Typing.{type_bytes}
use meshtastic_mini.Mesh.Router.Recent.{start-IsRouter}
use meshtastic_mini.Core.MainLoop.Invariant.{IsNode}
use meshtastic_mini.Core.SerialIo.Queue.{waiting}
use meshtastic_mini.Core.MainLoop.Line.{uart_rx_line_poll}
use meshtastic_mini.Core.MainLoop.Bytes.{HoldsBytes}
use meshtastic_mini.Core.MainLoop.TypedLines.{default_ops-PollsBytes}
use meshtastic_mini.Core.MainLoop.Typed.{mesh_mini_loop-HoldsBytes}
use meshtastic_mini.Radio.Phy.{ops_of}
use meshtastic_mini.Core.MainLoop.Polls.{uart_rx_line_poll-Ends}
use meshtastic_mini.Core.MainLoop.Sending.{typed_text_is_sent, report, cleared}
use meshtastic_mini.Core.MainLoop.Own.{own_packet_refused}
use meshtastic_mini.Mesh.Router.Flood.{relay_through}
use meshtastic_mini.Mesh.Router.History.{see_all}
use meshtastic_mini.Core.MainLoop.Nodes.{sent_bytes, sent_size, toy_cipher, toy_device}
use meshtastic_mini.Core.MainLoop.Nodes.{toy_device-Works, alice, hello, alice_sent, alice_sends}
use meshtastic_mini.Core.MainLoop.Nodes.{bob, bob_size, alice-CanSend, alice-IsNode, alice-IsPrompt}
use meshtastic_mini.Core.MainLoop.Nodes.{alice_none}

hello_no_pong : hello ≢ codes "pong"
hello_no_pong = λ e. omega (arith, ap length e)

message_arrives_example :
    (aes : Aes toy_device) × (aes.hw_key ≡ alice.aes.hw_key)
    × (receive_packet 20 (5 + 20) bob ≡ (
        send_lora_packet 20 1
          (codes "pong")
          4
          (with_shown hello (record bob { router = flood_seen bob.router 1 5; aes = aes }))
        >>= (λ r. ok r.0)
        >>= (λ n.
            if flood_should_forward bob.router (some bob.lora_rx_buf) (5 + 20)
            then relay_packet (5 + 20) n
            else ok n)))
message_arrives_example =
    message_arrives toy_cipher toy_device-Works toy_device-Works alice alice_sent bob true 20
      mesh_broadcast_id hello alice-CanSend hello_no_pong (omega arith) alice_sends refl bob_size
      refl refl (inl refl)

uart_rx_line_poll-Ends_example :
    Ends
      (λ n'. (waiting n'.ring ≡ []) × IsNode n' × (n'.lora.s_ops ≡ alice.lora.s_ops))
      (uart_rx_line_poll 4 16 ((104 ∷ 105 ∷ 13 ∷ []) ∷ []) alice)
uart_rx_line_poll-Ends_example =
    uart_rx_line_poll-Ends 4 16 ((104 ∷ 105 ∷ 13 ∷ []) ∷ []) alice alice-IsNode alice-IsPrompt
      (omega arith) (omega (arith, ap length alice_none))

hello_no_help : hello ≢ codes "help"
hello_no_help = λ e. omega (arith, ap length e)

hello_no_info : hello ≢ codes "info"
hello_no_info = λ e. omega (arith, ap length e)

typed_text_is_sent_example :
    (buf : List ℕ) × (type_bytes 20 (hello ++ 13 ∷ []) alice ≡ (
      send_lora_packet 20 mesh_broadcast_id hello 5 (record alice { line_buf = buf; line_len = 5 })
      >>= λ r. ok (cleared (report r))))
typed_text_is_sent_example =
    typed_text_is_sent 20 hello 13 alice (omega arith) (cc) (omega arith) hello_no_help
      hello_no_info (inr ((λ e. omega arith), (λ e. omega arith))) (inl refl) refl refl

own_packet_refused_example :
    (out : List ℕ) × (relay_through (7 ∷ 8 ∷ []) (some alice_sent.lora_tx_buf) 25 ≡ some out)
    × (flood_should_forward (see_all alice_sent.router []) (some out) 25 ≡ false)
own_packet_refused_example =
    own_packet_refused toy_cipher toy_device-Works alice alice_sent true 20 mesh_broadcast_id hello
      (7 ∷ 8 ∷ []) [] alice-CanSend (omega arith) start-IsRouter alice_sends sent_bytes sent_size
      (omega arith) (omega arith)

abbrev wordy : List ℕ
wordy = replicate 130 120

alice-HoldsBytes : HoldsBytes alice
unfolding ops_of
alice-HoldsBytes = record {
  rx_bytes = AllBytes-replicate 256 0 (omega arith);
  tx_bytes = AllBytes-replicate 256 0 (omega arith);
  line_bytes = AllBytes-replicate 200 0 (omega arith);
  ring_bytes = AllBytes-replicate 256 0 (omega arith);
  driver_bytes = default_ops-PollsBytes;
}

mesh_mini_loop-HoldsBytes_example :
    Returns
      (λ n'. IsNode n' × HoldsBytes n')
      (mesh_mini_loop 4 16 700 ((104 ∷ 105 ∷ 13 ∷ []) ∷ []) alice)
mesh_mini_loop-HoldsBytes_example =
    mesh_mini_loop-HoldsBytes 4 16 700 ((104 ∷ 105 ∷ 13 ∷ []) ∷ []) alice (omega arith) alice-IsNode
      alice-HoldsBytes

abbrev broken_device : Cryp
broken_device = record { Device = ℕ; init = λ d. (d, false); encrypt = λ d key block. (d, none) }

abbrev eve : Node broken_device (Unit {0})
eve = record {
  lora_rx_buf = alice.lora_rx_buf;
  lora_tx_buf = alice.lora_tx_buf;
  g_config = alice.g_config;
  next_packet_id = 5;
  line_buf = alice.line_buf;
  line_len = 0;
  led = alice.led;
  ring = alice.ring;
  uart = alice.uart;
  router = alice.router;
  aes = record {
    channel_key = replicate 16 0;
    hw_key = 1 ∷ 2 ∷ 3 ∷ 4 ∷ [];
    cryp_ready = false;
    device = 0;
  };
  lora = alice.lora;
}

eve-CanSend : CanSend eve mesh_broadcast_id hello
eve-CanSend = record {
  some_text = omega arith;
  small = omega arith;
  tx_size = refl;
  to_fits = omega arith;
  from_fits = omega arith;
  number_fits = omega arith;
}

sends_in_the_clear_example :
    (a' : Node broken_device (Unit {0})) × (send_lora_packet 20 mesh_broadcast_id hello 5 eve
      ≡ send_buffer a'.lora_tx_buf 25 a')
    × (take 16 a'.lora_tx_buf ≡ header_bytes (header_to mesh_broadcast_id eve))
    × (take 9 (drop 16 a'.lora_tx_buf) ≡ message 1 5 hello)
sends_in_the_clear_example =
    sends_in_the_clear eve 20 mesh_broadcast_id hello eve-CanSend (omega arith) refl refl
