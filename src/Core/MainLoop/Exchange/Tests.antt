-- ===== src/Core/MainLoop/Exchange/Tests.antt =====
-- Alice hears the answer that bob gave to her message.
use meshtastic_mini.Base.{ℕ, ◌+◌, ◌≡◌, inl, refl, some, List, ◌++◌, arith, true, false, ok, running}
use meshtastic_mini.Base.{undefined, length, if◌then◌else◌}
use meshtastic_mini.Mesh.Packet.{mesh_broadcast_id, write_header, header_bytes, le32_bytes}
use meshtastic_mini.Mesh.Packet.{read_le32, read_header, mesh_hop_limit}
use meshtastic_mini.Mesh.Router.{flood_seen, flood_should_forward, flood_was_seen, seen_loop}
use meshtastic_mini.Mesh.Router.{flood_prepare_forward, relayed, with_hop}
use meshtastic_mini.Crypto.{Aes, aes_ctr_crypt, ctr_loop, first_nonce, memory_bytes, next_nonce}
use meshtastic_mini.Crypto.{xor_loop, aes_ecb_block, ensure_cryp, be_words_to_bytes, be_bytes}
use meshtastic_mini.Crypto.{bytes_to_be_words, be_word}
use meshtastic_mini.Radio.Phy.{ops_of, default_ops}
use meshtastic_mini.Radio.Lora.{lora_tx, after_driver, lora_last_rssi, lora_last_snr}
use meshtastic_mini.Core.Uart.{serial_puts, puts_len, transmit, serial_put_int16, int16_text}
use meshtastic_mini.Core.Uart.{decimal, digit_loop, store_loop}
use meshtastic_mini.Core.Protobuf.{pb_encode_data, pb_decode_data, decode_loop, decode_round}
use meshtastic_mini.Core.Protobuf.{read_varint, varint_field, varint_done, sized_field, sized_done}
use meshtastic_mini.Core.Protobuf.{proceed}
use meshtastic_mini.Core.MainLoop.{Node, header_to, send_lora_packet, send_buffer, after_tx}
use meshtastic_mini.Core.MainLoop.{seal_packet, sealed, plain_packet}
use meshtastic_mini.Core.MainLoop.Delivery.{CanSend}
use meshtastic_mini.Core.MainLoop.Receive.{receive_packet, take_packet, opened, take_data}
use meshtastic_mini.Core.MainLoop.Receive.{take_text, answer_message, show_message, relay_packet}
use meshtastic_mini.Core.MainLoop.Receive.{is_pong, pong, dec_buf_of}
use meshtastic_mini.Core.MainLoop.Nodes.{toy_cipher, toy_device, toy_device-Works, alice, hello}
use meshtastic_mini.Core.MainLoop.Nodes.{alice_sent, alice_sends, bob, bob_size, alice-CanSend}
use meshtastic_mini.Core.MainLoop.Exchange.{exchange_ends}

abbrev bob_later : Node toy_device (Unit {0})
bob_later = elim (receive_packet 20 25 bob) as (λ r. Node toy_device (Unit {0})) [
  | ok n ↦ n
  | running ↦ bob
  | undefined ↦ bob
]

bob_handles : receive_packet 20 (5 + 20) bob ≡ ok bob_later
unfolding receive_packet take_packet opened take_data take_text answer_message show_message
    relay_packet is_pong flood_should_forward flood_was_seen seen_loop flood_prepare_forward
    mesh_hop_limit relayed with_hop lora_last_rssi lora_last_snr serial_puts puts_len transmit
    serial_put_int16 int16_text decimal digit_loop store_loop dec_buf_of read_header read_le32
    send_lora_packet send_buffer after_tx seal_packet sealed plain_packet header_to write_header
    header_bytes le32_bytes pb_encode_data aes_ctr_crypt ctr_loop first_nonce memory_bytes
    next_nonce xor_loop aes_ecb_block ensure_cryp be_words_to_bytes be_bytes bytes_to_be_words
    be_word flood_seen lora_tx after_driver ops_of default_ops pb_decode_data decode_loop
    decode_round read_varint varint_field varint_done sized_field sized_done proceed
bob_handles = refl

abbrev alice_later : Node toy_device (Unit {0})
alice_later = record alice_sent { lora_rx_buf = bob_later.lora_tx_buf }

alice_size : length alice_later.lora_rx_buf ≡ 256
unfolding receive_packet take_packet opened take_data take_text answer_message show_message
    relay_packet is_pong flood_should_forward flood_was_seen seen_loop flood_prepare_forward
    mesh_hop_limit relayed with_hop lora_last_rssi lora_last_snr serial_puts puts_len transmit
    serial_put_int16 int16_text decimal digit_loop store_loop dec_buf_of read_header read_le32
    send_lora_packet send_buffer after_tx seal_packet sealed plain_packet header_to write_header
    header_bytes le32_bytes pb_encode_data aes_ctr_crypt ctr_loop first_nonce memory_bytes
    next_nonce xor_loop aes_ecb_block ensure_cryp be_words_to_bytes be_bytes bytes_to_be_words
    be_word flood_seen lora_tx after_driver ops_of default_ops pb_decode_data decode_loop
    decode_round read_varint varint_field varint_done sized_field sized_done proceed
alice_size = refl

alice_key : alice_later.aes.hw_key ≡ alice.aes.hw_key
unfolding receive_packet take_packet opened take_data take_text answer_message show_message
    relay_packet is_pong flood_should_forward flood_was_seen seen_loop flood_prepare_forward
    mesh_hop_limit relayed with_hop lora_last_rssi lora_last_snr serial_puts puts_len transmit
    serial_put_int16 int16_text decimal digit_loop store_loop dec_buf_of read_header read_le32
    send_lora_packet send_buffer after_tx seal_packet sealed plain_packet header_to write_header
    header_bytes le32_bytes pb_encode_data aes_ctr_crypt ctr_loop first_nonce memory_bytes
    next_nonce xor_loop aes_ecb_block ensure_cryp be_words_to_bytes be_bytes bytes_to_be_words
    be_word flood_seen lora_tx after_driver ops_of default_ops pb_decode_data decode_loop
    decode_round read_varint varint_field varint_done sized_field sized_done proceed
alice_key = refl

alice_id : alice_later.g_config.node_id ≡ alice.g_config.node_id
unfolding receive_packet take_packet opened take_data take_text answer_message show_message
    relay_packet is_pong flood_should_forward flood_was_seen seen_loop flood_prepare_forward
    mesh_hop_limit relayed with_hop lora_last_rssi lora_last_snr serial_puts puts_len transmit
    serial_put_int16 int16_text decimal digit_loop store_loop dec_buf_of read_header read_le32
    send_lora_packet send_buffer after_tx seal_packet sealed plain_packet header_to write_header
    header_bytes le32_bytes pb_encode_data aes_ctr_crypt ctr_loop first_nonce memory_bytes
    next_nonce xor_loop aes_ecb_block ensure_cryp be_words_to_bytes be_bytes bytes_to_be_words
    be_word flood_seen lora_tx after_driver ops_of default_ops pb_decode_data decode_loop
    decode_round read_varint varint_field varint_done sized_field sized_done proceed
alice_id = refl

no_pong : is_pong hello ≡ false
unfolding is_pong
no_pong = refl

bob-CanSend : CanSend bob alice.g_config.node_id pong
bob-CanSend = record {
  some_text = omega arith;
  small = omega arith;
  tx_size = refl;
  to_fits = omega arith;
  from_fits = omega arith;
  number_fits = omega arith;
}

exchange_ends_example :
    (aes : Aes toy_device) × (rest : List ℕ) × (receive_packet 20 24 alice_later ≡ (
      let shown = show_message (pong ++ rest) 4 (record alice_later {
        router = flood_seen alice_later.router bob.g_config.node_id bob.next_packet_id;
        aes = aes;
      }) in
      if flood_should_forward alice_later.router (some alice_later.lora_rx_buf) 24
      then relay_packet 24 shown
      else ok shown))
exchange_ends_example =
    exchange_ends toy_cipher toy_device-Works toy_device-Works alice alice_sent alice_later bob
      bob_later true 20 mesh_broadcast_id hello alice-CanSend no_pong (omega arith) alice_sends refl
      bob_size refl (inl refl) bob-CanSend bob_handles refl alice_size alice_key alice_id
