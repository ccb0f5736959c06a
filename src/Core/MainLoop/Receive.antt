-- ===== src/Core/MainLoop/Receive.antt =====
-- `mesh_mini_loop` and `mesh_mini_init` of firmware/Core/main_loop.c.
use meshtastic_mini.Base.{ℕ, ◌+◌, ◌-◌, ◌^◌, Bool, false, ltb, leb, ◌==◌, ◌&&◌, ◌||◌, if◌then◌else◌}
use meshtastic_mini.Base.{Option, none, some, List, [], ◌∷◌, take, drop, u16, blit, replicate}
use meshtastic_mini.Base.{bit_and, Run, ok, running, undefined, ◌>>=◌, codes}
use meshtastic_mini.Mesh.Packet.{Header, mesh_header_size, mesh_broadcast_id, read_header}
use meshtastic_mini.Mesh.Router.{flood_seen, flood_should_forward, flood_prepare_forward}
use meshtastic_mini.Crypto.{Cryp, Aes, aes_ctr_crypt, aes_set_channel_key}
use meshtastic_mini.Config.{FlashHal, config_set_defaults, config_load}
use meshtastic_mini.Radio.Lora.{lora_init, lora_set_region_preset, lora_rx_poll, lora_last_rssi}
use meshtastic_mini.Radio.Lora.{lora_last_snr}
use meshtastic_mini.Core.Protobuf.{pb_decode_data, Ending, finished}
use meshtastic_mini.Core.Uart.{serial_write}
use meshtastic_mini.Core.Led.{led_init, led_tick}
use meshtastic_mini.Core.MainLoop.{Node, puts, put_int16, send_lora_packet, lora_buf_size}
use meshtastic_mini.Core.MainLoop.{send_buffer}
use meshtastic_mini.Core.MainLoop.Line.{uart_rx_line_poll}

abbrev pub pong : List ℕ
pong = codes "pong"

-- `text_len != 4 || memcmp(text, "pong", 4) != 0` is the negation of this.
unfoldable pub is_pong : List ℕ → Bool
is_pong (a ∷ b ∷ c ∷ d ∷ []) = a == 112 && b == 111 && c == 110 && d == 103
is_pong _ = false

-- What a call left at a pointer that is not NULL.
abbrev pub or_else : {A : Type 0} → A → Option A → A
or_else a none = a
or_else a (some b) = b

-- `(int16_t)` of an `int8_t`, in two's complement.
abbrev pub widen_int8 : ℕ → ℕ
widen_int8 x = if ltb x 128 then x else x + 2 ^ 16 - 2 ^ 8

-- `dec_buf`, before it is decrypted. What it holds beyond the packet is not read.
unfoldable pub dec_buf_of : List ℕ → ℕ → List ℕ
dec_buf_of lora_rx_buf enc_len =
    blit (replicate lora_buf_size 0) 0 (take enc_len (drop mesh_header_size lora_rx_buf))

module _ {cryp : Cryp} {S : Type 0} where
  -- What `mesh_mini_loop` prints of a message.
  unfoldable pub show_message : List ℕ → ℕ → Node cryp S → Node cryp S
  show_message text text_len n =
      let head = puts (codes "RX: ") n in
      let body = record head { uart = serial_write (some text) text_len head.uart } in
      let rssi = put_int16 (lora_last_rssi n.lora) (puts (codes "  RSSI: ") body) in
      let snr = put_int16 (widen_int8 (lora_last_snr n.lora)) (puts (codes " dBm  SNR: ") rssi) in
      puts (codes " dB\r\n") snr

  -- A message with a text: it is printed, and answered unless it is the answer itself.
  unfoldable pub answer_message : ℕ → Header → List ℕ → ℕ → Node cryp S → Run (Node cryp S)
  answer_message fuel h text text_len n =
      let shown = show_message text text_len n in
      let reply : Run (Node cryp S) =
        send_lora_packet fuel h.from_id pong 4 shown >>= (λ r. ok r.0) in
      if is_pong (take text_len text) then ok shown else reply

  -- `text`, as an offset into `dec_buf`, and `text_len`
  unfoldable pub take_text : ℕ → Header → List ℕ → Option ℕ → ℕ → Node cryp S → Run (Node cryp S)
  take_text fuel h dec_buf none text_len n = ok n
  take_text fuel h dec_buf (some off) text_len n =
      if ltb 0 text_len then answer_message fuel h (drop off dec_buf) text_len n else ok n

  -- What becomes of the decoded `Data`.
  unfoldable pub take_data : ℕ → Header → List ℕ → Ending → Node cryp S → Run (Node cryp S)
  unfolding take_text
  take_data fuel h dec_buf Ending.running n = running
  take_data fuel h dec_buf Ending.undefined n = undefined
  take_data fuel h dec_buf (finished d) n = take_text fuel h dec_buf d.payload d.payload_len n

  -- What becomes of the decrypted packet.
  unfoldable pub opened :
      ℕ → Header → ℕ → Node cryp S → Option (Aes cryp × List ℕ) → Run (Node cryp S)
  unfolding take_data
  opened fuel h enc_len n none = running
  opened fuel h enc_len n (some (aes, dec_buf)) =
      take_data fuel h dec_buf (pb_decode_data dec_buf enc_len fuel) (record n { aes = aes })

  -- A packet of `len` bytes for this node.
  unfoldable pub take_packet : ℕ → Header → ℕ → Node cryp S → Run (Node cryp S)
  unfolding opened
  take_packet fuel h len n =
      let enc_len = u16 (len - mesh_header_size) in
      opened fuel h enc_len n (
        aes_ctr_crypt cryp fuel (dec_buf_of n.lora_rx_buf enc_len) enc_len h.packet_id h.from_id
          n.aes)

  -- The relaying of the packet in `lora_rx_buf`.
  unfoldable pub relay_packet : ℕ → Node cryp S → Run (Node cryp S)
  relay_packet len n =
      let buf =
        or_else n.lora_rx_buf
          (flood_prepare_forward (some n.lora_rx_buf) len (bit_and n.g_config.node_id 0xff)) in
      send_buffer buf len (record n { lora_rx_buf = buf }) >>= (λ r. ok r.0)

  -- `mesh_mini_loop` behind a received packet of `len` bytes.
  unfoldable pub receive_packet : ℕ → ℕ → Node cryp S → Run (Node cryp S)
  receive_packet fuel len n =
      let h = read_header n.lora_rx_buf in
      let should_fwd = flood_should_forward n.router (some n.lora_rx_buf) len in
      let noted = record n { router = flood_seen n.router h.from_id h.packet_id } in
      let handled =
        if h.to_id == mesh_broadcast_id || h.to_id == n.g_config.node_id
        then take_packet fuel h len noted
        else ok noted in
      handled >>= (λ n'. if should_fwd then relay_packet len n' else ok n')

  -- `mesh_mini_loop`, at a tick, with the bytes that come in over the UART meanwhile.
  unfoldable pub mesh_mini_loop : ℕ → ℕ → ℕ → List (List ℕ) → Node cryp S → Run (Node cryp S)
  mesh_mini_loop rounds fuel now coming n =
      uart_rx_line_poll rounds fuel coming (record n { led = led_tick now n.led }) >>= (λ polled.
        let (lora, out, len) = lora_rx_poll (some polled.lora_rx_buf) lora_buf_size polled.lora in
        let buf = or_else polled.lora_rx_buf out in
        let received = record polled { lora = lora; lora_rx_buf = buf } in
        if leb len mesh_header_size then ok received else receive_packet fuel len received)

  -- `mesh_mini_init`, with the flash that the configuration is in. It ignores the returned values.
  unfoldable pub mesh_mini_init : (flash : FlashHal) → flash.Flash → Node cryp S → Node cryp S
  mesh_mini_init flash f n =
      let config =
        or_else n.g_config (config_load flash f (config_set_defaults (some n.g_config))).0 in
      let ready = (lora_init n.lora).0 in
      record n {
        led = led_init n.led;
        g_config = config;
        lora = (lora_set_region_preset 0 4 ready).0;
        aes = aes_set_channel_key cryp (some config.channel_psk) n.aes;
      }
