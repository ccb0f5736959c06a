-- ===== src/Core/MainLoop/OnAir/Tests.antt =====
-- A node on a radio whose HAL always succeeds, with alice's message pending.
use meshtastic_mini.Base.{ℕ, ◌/◌, ◌%◌, ◌^◌, ◌≡◌, refl, true, false, some, List, [], ◌∷◌, length}
use meshtastic_mini.Base.{replicate, take, ok, arith, Ends, sym}
use meshtastic_mini.Mesh.Packet.{write_header, header_bytes, le32_bytes, read_le32, read_header}
use meshtastic_mini.Mesh.Router.{flood_seen}
use meshtastic_mini.Crypto.{aes_ctr_crypt, ctr_loop, first_nonce, memory_bytes, next_nonce}
use meshtastic_mini.Crypto.{xor_loop, aes_ecb_block, ensure_cryp, be_words_to_bytes, be_bytes}
use meshtastic_mini.Crypto.{bytes_to_be_words, be_word}
use meshtastic_mini.Radio.Phy.{default_ops, ops_of, stm32wl_ops}
use meshtastic_mini.Radio.Lora.{lora_tx, after_driver, params_of, lora_rx_poll}
use meshtastic_mini.Core.MainLoop.{header_to, send_lora_packet, send_buffer, after_tx, seal_packet}
use meshtastic_mini.Core.MainLoop.{sealed, plain_packet, Node}
use meshtastic_mini.Core.Protobuf.{pb_encode_data, decode_loop, decode_round, read_varint}
use meshtastic_mini.Core.Protobuf.{varint_field, varint_done, sized_field, sized_done, proceed}
use meshtastic_mini.Core.Protobuf.{pb_decode_data}
use meshtastic_mini.Core.MainLoop.Receive.{dec_buf_of, mesh_mini_loop}
use meshtastic_mini.Radio.{Hal, HalCall, Radio, read_buffer, enable_irq, write_pin, calls}
use meshtastic_mini.Radio.Driver.{radio_rx_poll, rx_fetch, rx_take, receive_again}
use meshtastic_mini.Radio.RfCtrl.{rf_ctrl_set_rx}
use meshtastic_mini.Radio.Values.{set_rx}
use meshtastic_mini.Radio.Listening.{Clock, listening, irq_on, mode, mode_after, pin, is_receiving}
use meshtastic_mini.Radio.Polling.{IsCareful}
use meshtastic_mini.Mesh.Router.Recent.{start-IsRouter}
use meshtastic_mini.Core.Led.{led_tick}
use meshtastic_mini.Core.SerialIo.{serial_get_byte}
use meshtastic_mini.Core.SerialIo.Queue.{waiting, going_on, no_bytes-IsRing}
use meshtastic_mini.Core.MainLoop.Line.{uart_rx_line_poll, bytes_come_in}
use meshtastic_mini.Core.MainLoop.Invariant.{IsNode}
use mathlib.Core.Path.{subst}
use meshtastic_mini.Core.MainLoop.Driver.{stm32wl_ops-IsDriver, stm32wl_ops-IsPrompt}
use meshtastic_mini.Core.MainLoop.Ends.{IsPrompt}
use meshtastic_mini.Core.MainLoop.Handling.{decrypted, found-IsDecoded}
use meshtastic_mini.Core.MainLoop.Rounds.{received, known-IsUnderstood, IsUnderstood}
use meshtastic_mini.Core.MainLoop.Rounds.{mesh_mini_loop-Ends}
use meshtastic_mini.Core.MainLoop.OnAir.{round-IsCareful, round_listens}
use meshtastic_mini.Core.MainLoop.Nodes.{toy_device, alice_sent, bob, bob_clear, bob_decoded}
use meshtastic_mini.Core.MainLoop.Nodes.{bob_decodes}

abbrev answer : List HalCall → List ℕ
answer (read_buffer off n ∷ l) = take n alice_sent.lora_tx_buf
answer _ = 25 ∷ 128 ∷ 0 ∷ []

abbrev air_hal : Hal
air_hal = record { ok = λ l. true; bytes = answer; tick = λ l. length l / 1000 % 2 ^ 32 }

air_hal-Clock : Clock air_hal
air_hal-Clock = record {
  micros = length;
  tick_is = λ l. refl;
  goes_on = λ c l. omega arith;
  in_time = λ c l. omega arith;
}

abbrev dave : Node toy_device Radio
dave = record {
  lora_rx_buf = replicate 256 0;
  lora_tx_buf = replicate 256 0;
  g_config = bob.g_config;
  next_packet_id = 0;
  line_buf = replicate 200 0;
  line_len = 0;
  led = bob.led;
  ring = bob.ring;
  uart = bob.uart;
  router = bob.router;
  aes = bob.aes;
  lora = record {
    s_params = params_of 0 4;
    s_inited = true;
    s_ops = some (stm32wl_ops air_hal 5001002);
    driver = record {
      last_rssi = 0;
      last_snr = 0;
      rx_buf = replicate 256 0;
      rx_len = 0;
      rx_pending = true;
      log = set_rx ∷ write_pin 5 false ∷ write_pin 4 true ∷ enable_irq ∷ [];
    };
  };
}

dave-IsNode : IsNode dave
unfolding ops_of
dave-IsNode = record {
  rx_size = refl;
  tx_size = refl;
  line_size = refl;
  line_fits = omega arith;
  number_fits = omega arith;
  node_fits = omega arith;
  ring_sound = no_bytes-IsRing;
  router_sound = start-IsRouter;
  driver_sound = stm32wl_ops-IsDriver air_hal 5001002;
}

abbrev dave_polled : Node toy_device Radio
dave_polled = record dave { led = led_tick 0 dave.led }

dave_polls : uart_rx_line_poll 1 16 [] dave_polled ≡ ok dave_polled
unfolding uart_rx_line_poll bytes_come_in serial_get_byte
dave_polls = refl

dave_decrypts : decrypted 16 25 (received dave_polled).0 ≡ some bob_clear
unfolding lora_rx_poll stm32wl_ops radio_rx_poll rx_fetch rx_take receive_again calls rf_ctrl_set_rx
    led_tick dec_buf_of read_header read_le32 send_lora_packet send_buffer after_tx seal_packet
    sealed plain_packet header_to write_header header_bytes le32_bytes pb_encode_data aes_ctr_crypt
    ctr_loop first_nonce memory_bytes next_nonce xor_loop aes_ecb_block ensure_cryp
    be_words_to_bytes be_bytes bytes_to_be_words be_word flood_seen lora_tx after_driver ops_of
    default_ops pb_decode_data decode_loop decode_round read_varint varint_field varint_done
    sized_field sized_done proceed
dave_decrypts = refl

dave-IsUnderstood : IsUnderstood 1 16 0 [] dave
unfolding lora_rx_poll ops_of stm32wl_ops radio_rx_poll rx_fetch rx_take calls
dave-IsUnderstood = known-IsUnderstood 1 16 0 [] dave dave_polled dave_polls (
    found-IsDecoded 16 25 (received dave_polled).0 bob_clear.0 bob_clear.1 bob_decoded dave_decrypts
      bob_decodes)

dave_none : length (waiting dave.ring) ≡ 0
unfolding waiting going_on
dave_none = refl

dave_driver : ops_of dave.lora.s_ops ≡ stm32wl_ops air_hal 5001002
unfolding ops_of
dave_driver = refl

round-IsCareful_example :
    Ends (λ n'. IsNode n' × IsCareful 4 n'.lora.driver) (mesh_mini_loop 1 16 0 [] dave)
unfolding irq_on
round-IsCareful_example =
    round-IsCareful air_hal air_hal-Clock 5001002 (omega arith) 1 16 0 [] dave dave-IsNode
      dave_driver (omega arith) (omega (arith, dave_none)) dave-IsUnderstood refl

round_listens_example :
    Ends
      (λ n'. IsNode n' × (listening air_hal n'.lora.driver.log ≡ true))
      (mesh_mini_loop 1 16 0 [] dave)
unfolding irq_on listening mode mode_after pin is_receiving
round_listens_example =
    round_listens air_hal air_hal-Clock 5001002 (omega arith) 1 16 0 [] dave dave-IsNode dave_driver
      (omega arith) (omega (arith, dave_none)) dave-IsUnderstood (λ l. refl) refl

mesh_mini_loop-Ends_example : Ends IsNode (mesh_mini_loop 1 16 0 [] dave)
mesh_mini_loop-Ends_example =
    mesh_mini_loop-Ends 1 16 0 [] dave dave-IsNode
      (subst IsPrompt (sym dave_driver)
        (stm32wl_ops-IsPrompt air_hal 5001002 air_hal-Clock (omega arith)))
      (omega arith) (omega (arith, dave_none)) dave-IsUnderstood
