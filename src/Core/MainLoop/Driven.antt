-- ===== src/Core/MainLoop/Driven.antt =====
-- A property of the driver's state that its operations keep is kept by the main loop.
use mathlib.Core.Path.{subst}
use meshtastic_mini.Base.{ℕ, zero, suc, ◌+◌, ◌-◌, ◌≤◌, ◌≡◌, refl, sym, ap, ◌∙◌, arith, Bool, Option}
use meshtastic_mini.Base.{none, some, List, [], ◌∷◌, take, drop, set, get_or, u16, ltb, leb, ◌==◌}
use meshtastic_mini.Base.{◌||◌, ◌&&◌, replicate, bit_and, if_both, Returns, returned, never}
use meshtastic_mini.Base.{anything, Returns-bind, Returns-if}
use meshtastic_mini.Mesh.Packet.{Header, read_header, mesh_broadcast_id}
use meshtastic_mini.Mesh.Router.{flood_seen, flood_should_forward, flood_prepare_forward}
use meshtastic_mini.Crypto.{Cryp, Aes}
use meshtastic_mini.Radio.Phy.{RadioPhyOps, ops_of}
use meshtastic_mini.Radio.Lora.{lora_tx, lora_rx_poll, after_driver}
use meshtastic_mini.Core.Led.{led_tick}
use meshtastic_mini.Core.Protobuf.{pb_encode_data, pb_decode_data, Ending, finished}
use meshtastic_mini.Core.SerialIo.{serial_push_byte, serial_get_byte}
use meshtastic_mini.Core.MainLoop.{Node, plain_packet, sealed, seal_packet, after_tx, send_buffer}
use meshtastic_mini.Core.MainLoop.{send_lora_packet}
use meshtastic_mini.Core.MainLoop.Line.{set_node_id, show_info, send_line, do_line, line_byte}
use meshtastic_mini.Core.MainLoop.Line.{bytes_come_in, uart_rx_line_poll, is_node_command, is_help}
use meshtastic_mini.Core.MainLoop.Line.{is_info, first_of, rest_of, byte_of}
use meshtastic_mini.Core.MainLoop.Receive.{show_message, answer_message, take_text, take_data}
use meshtastic_mini.Core.MainLoop.Receive.{opened, take_packet, relay_packet, receive_packet}
use meshtastic_mini.Core.MainLoop.Receive.{mesh_mini_loop, pong, is_pong, or_else}
use meshtastic_mini.Core.MainLoop.Invariant.{IsDriver}
use meshtastic_mini.Core.MainLoop.Ends.{encoded_small}

-- The driver's `tx` of at most 256 bytes and its `rx_poll` keep the property.
pub record KeepsDriver {S : Type 0} (ops : RadioPhyOps S) (Q : S → Type 0) : Type 0 where
  pub sends :
      (buf : List ℕ) (len : ℕ) (s : S) (r : S × Bool)
      → len ≤ 256
      → Q s
      → ops.tx (some buf) len s ≡ some r
      → Q r.0
  pub polls : (buf : List ℕ) (s : S) → Q s → Q (ops.rx_poll (some buf) 256 s).0

module _ {cryp : Cryp} {S : Type 0} (ops : RadioPhyOps S) (Q : S → Type 0)
    (keeps : KeepsDriver ops Q) where
  -- The driver is this one, in a state with the property.
  abbrev pub Has : Node cryp S → Type 0
  Has n = (ops_of n.lora.s_ops ≡ ops) × Q n.lora.driver

  sealed-Has :
      (to_id : ℕ) (packet : List ℕ) (n : Node cryp S) (o : Option (Aes cryp × List ℕ))
      → Has n
      → Returns Has (sealed to_id packet n o)
  unfolding sealed
  sealed-Has to_id packet n none v = never
  sealed-Has to_id packet n (some (aes, payload)) v = returned v

  after_tx-Has :
      (n : Node cryp S) (o : Option (S × Bool))
      → ops_of n.lora.s_ops ≡ ops
      → ((r : S × Bool) → o ≡ some r → Q r.0)
      → Returns (λ r. Has r.0) (after_tx n (after_driver n.lora o))
  unfolding after_tx after_driver
  after_tx-Has n none e q = never
  after_tx-Has n (some (driver, sent)) e q = returned (e, q (driver, sent) refl)

  send_buffer-Has :
      (buf : List ℕ) (len : ℕ) (n : Node cryp S)
      → len ≤ 256
      → Has n
      → Returns (λ r. Has r.0) (send_buffer buf len n)
  unfolding send_buffer lora_tx
  send_buffer-Has buf len n whole (e, q) =
      after_tx-Has n ((ops_of n.lora.s_ops).tx (some buf) len n.lora.driver) e λ r sends.
        keeps.sends buf len n.lora.driver r whole q
          (ap (λ o. o.tx (some buf) len n.lora.driver) (sym e) ∙ sends)

  send_lora_packet-Has :
      (fuel to_id : ℕ) (text : List ℕ) (text_len : ℕ) (n : Node cryp S)
      → Has n
      → Returns (λ r. Has r.0) (send_lora_packet fuel to_id text text_len n)
  unfolding send_lora_packet seal_packet
  send_lora_packet-Has fuel to_id text text_len n v =
      let (pb, pb_len) = pb_encode_data (replicate 240 0) 240 1 text text_len in
      let small = encoded_small (replicate 240 0) 1 text text_len in
      Returns-if (pb_len == 0) (returned v) (
        Returns-bind (sealed-Has to_id (plain_packet to_id pb pb_len n) n _ v)
          λ n' v'. send_buffer-Has n'.lora_tx_buf (u16 (16 + pb_len)) n' (omega (arith, small)) v')

  do_line-Has : (fuel : ℕ) (n : Node cryp S) → Has n → Returns Has (do_line fuel n)
  unfolding do_line set_node_id show_info send_line
  do_line-Has fuel n v =
      let digit = get_or n.line_buf 1 0 in
      Returns-if (is_node_command n.line_buf n.line_len)
        (returned (if_both Has (leb 49 digit && leb digit 57) _ _ v v))
        (Returns-if (is_help n.line_buf n.line_len) (returned v) (
          Returns-if (is_info n.line_buf n.line_len) (returned v) (
            Returns-bind (send_lora_packet-Has fuel mesh_broadcast_id n.line_buf n.line_len n v)
              λ r w. returned (if_both Has r.1 _ _ w w))))

  line_byte-Has : (fuel b : ℕ) (n : Node cryp S) → Has n → Returns Has (line_byte fuel b n)
  unfolding line_byte
  line_byte-Has fuel b n v =
      Returns-if (b == 13 || b == 10)
        (Returns-if (n.line_len == 0) (returned v) (
          Returns-bind (do_line-Has fuel (record n { line_buf = set n.line_buf n.line_len 0 }) v)
            λ n' w. returned w))
        (returned (if_both Has (ltb n.line_len 199) _ _ v v))

  bytes_come_in-Has : (bs : List ℕ) (n : Node cryp S) → Has n → Has (bytes_come_in bs n)
  unfolding bytes_come_in
  bytes_come_in-Has [] n v = v
  bytes_come_in-Has (b ∷ bs) n v =
      bytes_come_in-Has bs (record n { ring = serial_push_byte n.ring b }) v

  uart_rx_line_poll-Has :
      (rounds fuel : ℕ) (coming : List (List ℕ)) (n : Node cryp S)
      → Has n
      → Returns Has (uart_rx_line_poll rounds fuel coming n)
  unfolding uart_rx_line_poll
  uart_rx_line_poll-Has zero fuel coming n v = never
  uart_rx_line_poll-Has (suc rounds) fuel coming n v =
      let filled = bytes_come_in (first_of coming) n in
      let w = bytes_come_in-Has (first_of coming) n v in
      let got = serial_get_byte (some 0) filled.ring in
      Returns-if got.returned
        (Returns-bind (line_byte-Has fuel (byte_of got.out) (record filled { ring = got.ring }) w)
          λ n' v'. uart_rx_line_poll-Has rounds fuel (rest_of coming) n' v')
        (returned w)

  answer_message-Has :
      (fuel : ℕ) (h : Header) (text : List ℕ) (text_len : ℕ) (n : Node cryp S)
      → Has n
      → Returns Has (answer_message fuel h text text_len n)
  unfolding answer_message show_message
  answer_message-Has fuel h text text_len n v =
      Returns-if (is_pong (take text_len text)) (returned v) (
        Returns-bind (send_lora_packet-Has fuel h.from_id pong 4 (show_message text text_len n) v)
          λ r w. returned w)

  take_text-Has :
      (fuel : ℕ) (h : Header) (dec_buf : List ℕ) (off : Option ℕ) (text_len : ℕ) (n : Node cryp S)
      → Has n
      → Returns Has (take_text fuel h dec_buf off text_len n)
  unfolding take_text
  take_text-Has fuel h dec_buf none text_len n v = returned v
  take_text-Has fuel h dec_buf (some off) text_len n v =
      Returns-if (ltb 0 text_len) (answer_message-Has fuel h (drop off dec_buf) text_len n v)
        (returned v)

  take_data-Has :
      (fuel : ℕ) (h : Header) (dec_buf : List ℕ) (e : Ending) (n : Node cryp S)
      → Has n
      → Returns Has (take_data fuel h dec_buf e n)
  unfolding take_data
  take_data-Has fuel h dec_buf Ending.running n v = never
  take_data-Has fuel h dec_buf Ending.undefined n v = anything
  take_data-Has fuel h dec_buf (finished d) n v =
      take_text-Has fuel h dec_buf d.payload d.payload_len n v

  opened-Has :
      (fuel : ℕ) (h : Header) (enc_len : ℕ) (n : Node cryp S) (o : Option (Aes cryp × List ℕ))
      → Has n
      → Returns Has (opened fuel h enc_len n o)
  unfolding opened
  opened-Has fuel h enc_len n none v = never
  opened-Has fuel h enc_len n (some (aes, dec_buf)) v =
      take_data-Has fuel h dec_buf (pb_decode_data dec_buf enc_len fuel) (record n { aes = aes }) v

  relay_packet-Has :
      (len : ℕ) (n : Node cryp S) → len ≤ 256 → Has n → Returns Has (relay_packet len n)
  unfolding relay_packet
  relay_packet-Has len n whole v =
      let buf =
        or_else n.lora_rx_buf
          (flood_prepare_forward (some n.lora_rx_buf) len (bit_and n.g_config.node_id 0xff)) in
      Returns-bind (send_buffer-Has buf len (record n { lora_rx_buf = buf }) whole v)
        λ r w. returned w

  receive_packet-Has :
      (fuel len : ℕ) (n : Node cryp S) → len ≤ 256 → Has n → Returns Has (receive_packet fuel len n)
  unfolding receive_packet take_packet
  receive_packet-Has fuel len n whole v =
      let h = read_header n.lora_rx_buf in
      let noted = record n { router = flood_seen n.router h.from_id h.packet_id } in
      Returns-bind
        (Returns-if (h.to_id == mesh_broadcast_id || h.to_id == n.g_config.node_id)
          (opened-Has fuel h (u16 (len - 16)) noted _ v) (returned v))
        λ n' w.
          Returns-if (flood_should_forward n.router (some n.lora_rx_buf) len)
            (relay_packet-Has len n' whole w) (returned w)

  -- What the main loop's rounds that return do to the driver.
  pub mesh_mini_loop-Has :
      (rounds fuel now : ℕ) (coming : List (List ℕ)) (n : Node cryp S)
      → IsDriver ops
      → Has n
      → Returns Has (mesh_mini_loop rounds fuel now coming n)
  unfolding mesh_mini_loop lora_rx_poll
  mesh_mini_loop-Has rounds fuel now coming n driver v =
      Returns-bind
        (uart_rx_line_poll-Has rounds fuel coming (record n { led = led_tick now n.led }) v)
        λ polled w.
          let rx = polled.lora_rx_buf in
          let poll = (ops_of polled.lora.s_ops).rx_poll (some rx) 256 polled.lora.driver in
          let (out, filled, size, bound) = driver.polled rx 256 polled.lora.driver in
          let kept =
            subst (λ o. Q (o.rx_poll (some rx) 256 polled.lora.driver).0) (sym w.0)
              (keeps.polls rx polled.lora.driver w.1) in
          let small =
            subst (λ o. (o.rx_poll (some rx) 256 polled.lora.driver).2 ≤ 256) (sym w.0) bound in
          let after = record polled {
            lora = record polled.lora { driver = poll.0 };
            lora_rx_buf = or_else rx poll.1;
          } in
          Returns-if (leb poll.2 16) (returned (w.0, kept))
            (receive_packet-Has fuel poll.2 after small (w.0, kept))
