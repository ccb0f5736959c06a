-- ===== src/Core/MainLoop/Invariant.antt =====
-- The buffers and indices of a node stay sound, whatever it receives, types and sends.
use mathlib.Core.Path.{subst}
use meshtastic_mini.Base.{ℕ, ◌+◌, ◌^◌, ◌≤◌, ◌<◌, ◌≡◌, ◌∙◌, arith, Bool, List, length, take, drop}
use meshtastic_mini.Base.{u16, ◌==◌, length-append, length-blit, length-drop, length-take, Returns}
use meshtastic_mini.Base.{returned, never, Returns-bind, Returns-if, Option, none, some, replicate}
use meshtastic_mini.Mesh.Packet.{write_header, header_bytes}
use meshtastic_mini.Mesh.Router.{Router}
use meshtastic_mini.Mesh.Router.Recent.{IsRouter, flood_seen-IsRouter}
use meshtastic_mini.Crypto.{Cryp, Aes, aes_ctr_crypt}
use meshtastic_mini.Crypto.Sizes.{HasLength, not_yet, of_length, aes_ctr_crypt-HasLength}
use meshtastic_mini.Radio.Phy.{RadioPhyOps, ops_of}
use meshtastic_mini.Radio.Lora.{lora_tx, after_driver}
use meshtastic_mini.Core.SerialIo.{RxRing}
use meshtastic_mini.Core.SerialIo.Queue.{IsRing}
use meshtastic_mini.Core.Protobuf.{pb_encode_data}
use meshtastic_mini.Core.MainLoop.{Node, header_to, plain_packet, sealed, seal_packet, after_tx}
use meshtastic_mini.Core.MainLoop.{send_buffer, send_lora_packet}

-- What the main loop relies on of a driver: a poll keeps the size of the buffer, and returns no more
-- than it was allowed to.
pub record IsDriver {S : Type 0} (ops : RadioPhyOps S) : Type 0 where
  pub polled :
      (buf : List ℕ) (max_len : ℕ) (s : S)
      → (out : List ℕ) × ((ops.rx_poll (some buf) max_len s).1 ≡ some out)
        × (length out ≡ length buf)
        × ((ops.rx_poll (some buf) max_len s).2 ≤ max_len)

-- The sizes and bounds of a node's buffers, indices and numbers.
pub record AreSound {S : Type 0} (rx tx line : List ℕ) (line_len number node_id : ℕ) (ring : RxRing)
    (router : Router) (ops : Option (RadioPhyOps S)) : Type 0 where
  pub rx_size : length rx ≡ 256
  pub tx_size : length tx ≡ 256
  pub line_size : length line ≡ 200
  pub line_fits : line_len ≤ 199
  pub number_fits : number < 2 ^ 32
  pub node_fits : node_id < 2 ^ 32
  pub ring_sound : IsRing ring
  pub router_sound : IsRouter router
  pub driver_sound : IsDriver (ops_of ops)

abbrev pub IsNode : {cryp : Cryp} {S : Type 0} → Node cryp S → Type 0
IsNode n =
    AreSound n.lora_rx_buf n.lora_tx_buf n.line_buf n.line_len n.next_packet_id n.g_config.node_id
      n.ring n.router n.lora.s_ops

module _ {cryp : Cryp} {S : Type 0} where
  length-plain_packet :
      (to_id : ℕ) (pb : List ℕ) (len : ℕ) (n : Node cryp S)
      → length (plain_packet to_id pb len n) ≡ length n.lora_tx_buf
  unfolding plain_packet write_header
  length-plain_packet to_id pb len n =
      length-blit (write_header (header_to to_id n) n.lora_tx_buf) 16 (take len pb)
      ∙ length-blit n.lora_tx_buf 0 (header_bytes (header_to to_id n))

  sealed-IsNode :
      (to_id : ℕ) (packet : List ℕ) (n : Node cryp S) {o : Option (Aes cryp × List ℕ)}
      → IsNode n
      → length packet ≡ 256
      → HasLength 240 o
      → Returns IsNode (sealed to_id packet n o)
  unfolding sealed header_to
  sealed-IsNode to_id packet n v size not_yet = never
  sealed-IsNode to_id packet n v size (of_length {s} {out} e) = returned (record {
    rx_size = v.rx_size;
    tx_size = length-append (take 16 packet) out ∙ omega (arith, length-take 16 packet);
    line_size = v.line_size;
    line_fits = v.line_fits;
    number_fits = omega arith;
    node_fits = v.node_fits;
    ring_sound = v.ring_sound;
    router_sound = flood_seen-IsRouter n.g_config.node_id n.next_packet_id v.router_sound;
    driver_sound = v.driver_sound;
  })

  seal_packet-IsNode :
      (fuel to_id : ℕ) (pb : List ℕ) (len : ℕ) (n : Node cryp S)
      → IsNode n
      → Returns IsNode (seal_packet fuel to_id pb len n)
  unfolding seal_packet
  seal_packet-IsNode fuel to_id pb len n v =
      let packet = plain_packet to_id pb len n in
      let size = length-plain_packet to_id pb len n ∙ v.tx_size in
      let body : length (drop 16 packet) ≡ 240 = length-drop 16 packet ∙ omega arith in
      sealed-IsNode to_id packet n v size (
        subst
          (λ k. HasLength k (
            aes_ctr_crypt cryp fuel (drop 16 packet) len (header_to to_id n).packet_id
              (header_to to_id n).from_id n.aes))
          body
          (aes_ctr_crypt-HasLength cryp fuel (drop 16 packet) len (header_to to_id n).packet_id
            (header_to to_id n).from_id n.aes))

  after_tx-IsNode :
      (n : Node cryp S) (o : Option (S × Bool))
      → IsNode n
      → Returns (λ r. IsNode r.0) (after_tx n (after_driver n.lora o))
  unfolding after_tx after_driver
  after_tx-IsNode n none v = never
  after_tx-IsNode n (some (driver, sent)) v = returned v

  pub send_buffer-IsNode :
      (buf : List ℕ) (len : ℕ) (n : Node cryp S)
      → IsNode n
      → Returns (λ r. IsNode r.0) (send_buffer buf len n)
  unfolding send_buffer lora_tx
  send_buffer-IsNode buf len n v =
      after_tx-IsNode n ((ops_of n.lora.s_ops).tx (some buf) len n.lora.driver) v

  pub send_lora_packet-IsNode :
      (fuel to_id : ℕ) (text : List ℕ) (text_len : ℕ) (n : Node cryp S)
      → IsNode n
      → Returns (λ r. IsNode r.0) (send_lora_packet fuel to_id text text_len n)
  unfolding send_lora_packet
  send_lora_packet-IsNode fuel to_id text text_len n v =
      let (pb, pb_len) = pb_encode_data (replicate 240 0) 240 1 text text_len in
      Returns-if (pb_len == 0) (returned v) (
        Returns-bind (seal_packet-IsNode fuel to_id pb pb_len n v)
          λ n' v'. send_buffer-IsNode n'.lora_tx_buf (u16 (16 + pb_len)) n' v')
