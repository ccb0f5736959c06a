-- ===== src/Core/MainLoop.antt =====
-- The main loop of firmware/Core/main_loop.c over the other components: `Node` is its static
-- variables and the state of the components that it calls.
pub mod Line
pub mod Seal
pub mod Open
pub mod Delivery
pub mod InTheClear
pub mod Arrival
pub mod Shown
pub mod Own
pub mod Exchange
pub mod Typing
pub mod Commands
pub mod Sending
pub mod Invariant
pub mod Editing
pub mod Keeps
pub mod Bytes
pub mod TypedLines
pub mod Typed
pub mod Reachable
pub mod Ends
pub mod Polls
pub mod Handling
pub mod Rounds
pub mod Driven
pub mod Driver
pub mod OnAir
pub mod Receive
pub mod Nodes
mod Tests
use meshtastic_mini.Base.{ℕ, zero, suc, ◌+◌, ◌-◌, ◌/◌, ◌%◌, ◌^◌, Bool, true, false, ltb, leb, ◌==◌}
use meshtastic_mini.Base.{not, ◌&&◌, ◌||◌, if◌then◌else◌, Option, none, some, List, [], ◌∷◌, ◌++◌}
use meshtastic_mini.Base.{take, drop, u8, u16, u32, get_or, set, blit, replicate, bit_and, Run, ok}
use meshtastic_mini.Base.{running, undefined, ◌>>=◌, codes}
use meshtastic_mini.Mesh.Packet.{Header, mesh_header_size, mesh_broadcast_id, read_header}
use meshtastic_mini.Mesh.Packet.{write_header}
use meshtastic_mini.Mesh.Router.{Router, flood_seen, flood_should_forward, flood_prepare_forward}
use meshtastic_mini.Crypto.{Cryp, Aes, aes_ctr_crypt, aes_set_channel_key}
use meshtastic_mini.Config.{DeviceConfig, FlashHal, config_set_defaults, config_load}
use meshtastic_mini.Radio.Lora.{Lora, lora_init, lora_set_region_preset, lora_tx, lora_rx_poll}
use meshtastic_mini.Radio.Lora.{lora_last_rssi, lora_last_snr}
use meshtastic_mini.Core.Protobuf.{pb_encode_data, pb_decode_data, Decoded, Ending, finished, found}
use meshtastic_mini.Core.Protobuf
use meshtastic_mini.Core.SerialIo.{RxRing, serial_push_byte, serial_get_byte, Got}
use meshtastic_mini.Core.Uart.{Uart, serial_puts, serial_write, serial_put_int16}
use meshtastic_mini.Core.Led.{Led, led_init, led_tick}

abbrev pub lora_buf_size : ℕ
lora_buf_size = 256

abbrev pub line_buf_size : ℕ
line_buf_size = 200

abbrev pub portnum_text_message : ℕ
portnum_text_message = 1

pub record Node (cryp : Cryp) (S : Type 0) : Type 0 where
  pub lora_rx_buf : List ℕ
  pub lora_tx_buf : List ℕ
  pub g_config : DeviceConfig
  pub next_packet_id : ℕ
  pub line_buf : List ℕ
  pub line_len : ℕ
  pub led : Led
  pub ring : RxRing
  pub uart : Uart
  pub router : Router
  pub aes : Aes cryp
  pub lora : Lora S

module _ {cryp : Cryp} {S : Type 0} where
  -- `serial_puts` of a literal
  abbrev pub puts : List ℕ → Node cryp S → Node cryp S
  puts text n = record n { uart = serial_puts (some text) n.uart }

  abbrev pub put_int16 : ℕ → Node cryp S → Node cryp S
  put_int16 v n = record n { uart = serial_put_int16 v n.uart }

  -- The header that `send_lora_packet` builds.
  unfoldable pub header_to : ℕ → Node cryp S → Header
  header_to to_id n = record {
    to_id = to_id;
    from_id = n.g_config.node_id;
    packet_id = n.next_packet_id;
    flags = 3;
    channel = 0;
    next_hop = 0;
    relay = 0;
  }

  -- The packet in `lora_tx_buf` before its payload is encrypted.
  unfoldable pub plain_packet : ℕ → List ℕ → ℕ → Node cryp S → List ℕ
  plain_packet to_id pb_buf pb_len n =
      blit (write_header (header_to to_id n) n.lora_tx_buf) mesh_header_size (take pb_len pb_buf)

  -- What `send_lora_packet` keeps once the payload is encrypted.
  unfoldable pub sealed : ℕ → List ℕ → Node cryp S → Option (Aes cryp × List ℕ) → Run (Node cryp S)
  sealed to_id packet n none = running
  sealed to_id packet n (some (aes, payload)) =
      let h = header_to to_id n in
      ok (record n {
        lora_tx_buf = take mesh_header_size packet ++ payload;
        next_packet_id = u32 (n.next_packet_id + 1);
        aes = aes;
        router = flood_seen n.router h.from_id h.packet_id;
      })

  -- `send_lora_packet` from the header to `flood_seen`.
  unfoldable pub seal_packet : ℕ → ℕ → List ℕ → ℕ → Node cryp S → Run (Node cryp S)
  unfolding sealed
  seal_packet fuel to_id pb_buf pb_len n =
      let h = header_to to_id n in
      let packet = plain_packet to_id pb_buf pb_len n in
      sealed to_id packet n
        (aes_ctr_crypt cryp fuel (drop mesh_header_size packet) pb_len h.packet_id h.from_id n.aes)

  -- What a call of `lora_tx` leaves.
  unfoldable pub after_tx : Node cryp S → Option (Lora S × Bool) → Run (Node cryp S × Bool)
  after_tx n none = running
  after_tx n (some (lora, sent)) = ok (record n { lora = lora }, sent)

  -- `lora_tx` of a buffer.
  unfoldable pub send_buffer : List ℕ → ℕ → Node cryp S → Run (Node cryp S × Bool)
  unfolding after_tx
  send_buffer buf len n = after_tx n (lora_tx (some buf) len n.lora)

  -- `send_lora_packet`. The bytes of `pb_buf` that the encoder does not write are never read.
  unfoldable pub send_lora_packet : ℕ → ℕ → List ℕ → ℕ → Node cryp S → Run (Node cryp S × Bool)
  send_lora_packet fuel to_id text text_len n =
      let (pb_buf, pb_len) =
        pb_encode_data (replicate 240 0) 240 portnum_text_message text text_len in
      let send : Run (Node cryp S × Bool) =
        seal_packet fuel to_id pb_buf pb_len n
        >>= (λ sealed. send_buffer sealed.lora_tx_buf (u16 (mesh_header_size + pb_len)) sealed) in
      if pb_len == 0 then ok (n, false) else send
