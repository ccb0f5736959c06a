-- ===== src/Core/MainLoop/Nodes.antt =====
-- Two nodes with toy hardware and the default driver, alice and bob, with a message from one to the
-- other.
use meshtastic_mini.Base.{ℕ, ◌+◌, ◌≡◌, refl, some, none, List, [], ◌∷◌, arith, true, false, length}
use meshtastic_mini.Base.{get_or, replicate, ok, running, undefined, codes, AllBytes, ◌≤◌}
use meshtastic_mini.Mesh.Packet.{mesh_broadcast_id, write_header, header_bytes, le32_bytes}
use meshtastic_mini.Mesh.Packet.{read_le32, read_header}
use meshtastic_mini.Mesh.Router.{start, flood_seen}
use meshtastic_mini.Crypto.{Cryp, Aes, aes_ctr_crypt, ctr_loop, first_nonce, memory_bytes}
use meshtastic_mini.Crypto.{next_nonce, xor_loop, aes_ecb_block, ensure_cryp, be_words_to_bytes}
use meshtastic_mini.Crypto.{be_bytes, bytes_to_be_words, be_word}
use meshtastic_mini.Crypto.Block.{Works}
use meshtastic_mini.Config.{default_config, FlashHal}
use meshtastic_mini.Radio.Lora.{params_of, lora_tx, after_driver}
use meshtastic_mini.Core.SerialIo.{no_bytes}
use meshtastic_mini.Core.MainLoop.{Node, header_to, send_lora_packet, send_buffer, after_tx}
use meshtastic_mini.Core.MainLoop.{seal_packet, sealed, plain_packet}
use meshtastic_mini.Core.Protobuf.{pb_encode_data, pb_decode_data, decode_loop, decode_round}
use meshtastic_mini.Core.Protobuf.{read_varint, varint_field, varint_done, sized_field, sized_done}
use meshtastic_mini.Core.Protobuf.{proceed, finished, Decoded}
use meshtastic_mini.Radio.Phy.{ops_of, default_ops}
use meshtastic_mini.Core.MainLoop.Delivery.{CanSend}
use meshtastic_mini.Mesh.Router.Recent.{start-IsRouter}
use meshtastic_mini.Core.SerialIo.Queue.{no_bytes-IsRing, waiting, going_on}
use meshtastic_mini.Core.MainLoop.Invariant.{IsNode}
use meshtastic_mini.Core.MainLoop.Driver.{default_ops-IsDriver, default_ops-IsPrompt}
use meshtastic_mini.Core.MainLoop.Ends.{IsPrompt}
use meshtastic_mini.Core.MainLoop.Handling.{decrypted}
use meshtastic_mini.Core.MainLoop.Receive.{dec_buf_of}

abbrev pub toy_cipher : List ℕ → List ℕ → List ℕ
toy_cipher key block = get_or key 0 0 ∷ get_or block 0 0 ∷ get_or block 3 0 ∷ get_or key 3 0 ∷ []

abbrev pub toy_device : Cryp
toy_device = record {
  Device = ℕ;
  init = λ d. (d, true);
  encrypt = λ d key block. (d + 1, some (toy_cipher key block));
}

pub toy_device-Works : Works toy_device toy_cipher
toy_device-Works = record { init_ok = λ d. refl; encrypt_ok = λ d key block. refl }

abbrev pub alice : Node toy_device (Unit {0})
alice = record {
  lora_rx_buf = replicate 256 0;
  lora_tx_buf = replicate 256 0;
  g_config = default_config;
  next_packet_id = 5;
  line_buf = replicate 200 0;
  line_len = 0;
  led = record { led_last_toggle_ms = 0; pin_high = true };
  ring = no_bytes;
  uart = record { instance_set = true; handed = [] };
  router = start;
  aes = record {
    channel_key = replicate 16 0;
    hw_key = 1 ∷ 2 ∷ 3 ∷ 4 ∷ [];
    cryp_ready = false;
    device = 0;
  };
  lora = record { s_params = params_of 0 4; s_inited = true; s_ops = none; driver = tt };
}

abbrev pub hello : List ℕ
hello = codes "hello"

abbrev pub alice_sent : Node toy_device (Unit {0})
alice_sent =
    elim (send_lora_packet 20 mesh_broadcast_id hello 5 alice)
      as (λ r. Node toy_device (Unit {0})) [
        | ok (n, sent) ↦ n
        | running ↦ alice
        | undefined ↦ alice
      ]

pub alice_sends : send_lora_packet 20 mesh_broadcast_id hello 5 alice ≡ ok (alice_sent, true)
unfolding send_lora_packet send_buffer after_tx seal_packet sealed plain_packet header_to
    write_header header_bytes le32_bytes pb_encode_data aes_ctr_crypt ctr_loop first_nonce
    memory_bytes next_nonce xor_loop aes_ecb_block ensure_cryp be_words_to_bytes be_bytes
    bytes_to_be_words be_word flood_seen lora_tx after_driver ops_of default_ops
alice_sends = refl

abbrev pub bob : Node toy_device (Unit {0})
bob = record alice {
  lora_rx_buf = alice_sent.lora_tx_buf;
  g_config = record default_config { node_id = 2 };
}

pub bob_size : length bob.lora_rx_buf ≡ 256
unfolding send_lora_packet send_buffer after_tx seal_packet sealed plain_packet header_to
    write_header header_bytes le32_bytes pb_encode_data aes_ctr_crypt ctr_loop first_nonce
    memory_bytes next_nonce xor_loop aes_ecb_block ensure_cryp be_words_to_bytes be_bytes
    bytes_to_be_words be_word flood_seen lora_tx after_driver ops_of default_ops
bob_size = refl

pub alice-CanSend : CanSend alice mesh_broadcast_id hello
alice-CanSend = record {
  some_text = omega arith;
  small = omega arith;
  tx_size = refl;
  to_fits = omega arith;
  from_fits = omega arith;
  number_fits = omega arith;
}

pub alice-IsNode : IsNode alice
unfolding ops_of
alice-IsNode = record {
  rx_size = refl;
  tx_size = refl;
  line_size = refl;
  line_fits = omega arith;
  number_fits = omega arith;
  node_fits = omega arith;
  ring_sound = no_bytes-IsRing;
  router_sound = start-IsRouter;
  driver_sound = default_ops-IsDriver;
}

pub alice-IsPrompt : IsPrompt (ops_of alice.lora.s_ops)
unfolding ops_of
alice-IsPrompt = default_ops-IsPrompt

pub alice_none : waiting alice.ring ≡ []
unfolding waiting going_on
alice_none = refl

pub bob-IsNode : IsNode bob
unfolding ops_of
bob-IsNode = record {
  rx_size = bob_size;
  tx_size = refl;
  line_size = refl;
  line_fits = omega arith;
  number_fits = omega arith;
  node_fits = omega arith;
  ring_sound = no_bytes-IsRing;
  router_sound = start-IsRouter;
  driver_sound = default_ops-IsDriver;
}

abbrev pub bob_clear : Aes toy_device × List ℕ
bob_clear = elim (decrypted 16 25 bob) as (λ o. Aes toy_device × List ℕ) [
  | none ↦ (bob.aes, [])
  | some opened ↦ opened
]

abbrev pub bob_decoded : Decoded
bob_decoded = record { portnum = 1; payload = some 4; payload_len = 5 }

pub bob_decrypts : decrypted 16 25 bob ≡ some bob_clear
unfolding dec_buf_of read_header read_le32 send_lora_packet send_buffer after_tx seal_packet sealed
    plain_packet header_to write_header header_bytes le32_bytes pb_encode_data aes_ctr_crypt
    ctr_loop first_nonce memory_bytes next_nonce xor_loop aes_ecb_block ensure_cryp
    be_words_to_bytes be_bytes bytes_to_be_words be_word flood_seen lora_tx after_driver ops_of
    default_ops
bob_decrypts = refl

pub bob_decodes : pb_decode_data bob_clear.1 9 16 ≡ finished bob_decoded
unfolding dec_buf_of read_header read_le32 send_lora_packet send_buffer after_tx seal_packet sealed
    plain_packet header_to write_header header_bytes le32_bytes pb_encode_data aes_ctr_crypt
    ctr_loop first_nonce memory_bytes next_nonce xor_loop aes_ecb_block ensure_cryp
    be_words_to_bytes be_bytes bytes_to_be_words be_word flood_seen lora_tx after_driver ops_of
    default_ops pb_decode_data decode_loop decode_round read_varint varint_field varint_done
    sized_field sized_done proceed
bob_decodes = refl

-- A flash that was never written.
abbrev pub blank_flash : FlashHal
blank_flash = record {
  Flash = Unit {0};
  unlock = λ f. (f, true);
  lock = λ f. f;
  erase_page = λ page f. (f, true);
  program = λ addr b f. (f, true);
  read = λ f a. 0xff;
}

pub sent_size : length hello + 20 ≤ length alice_sent.lora_tx_buf
sent_size = omega (arith, bob_size)

pub sent_bytes : AllBytes alice_sent.lora_tx_buf
unfolding send_lora_packet send_buffer after_tx seal_packet sealed plain_packet header_to
    write_header header_bytes le32_bytes pb_encode_data aes_ctr_crypt ctr_loop first_nonce
    memory_bytes next_nonce xor_loop aes_ecb_block ensure_cryp be_words_to_bytes be_bytes
    bytes_to_be_words be_word flood_seen lora_tx after_driver ops_of default_ops
sent_bytes = omega arith
