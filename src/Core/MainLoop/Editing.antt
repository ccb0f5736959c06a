-- ===== src/Core/MainLoop/Editing.antt =====
-- The line editor keeps a node sound.
use meshtastic_mini.Base.{ℕ, zero, suc, ◌+◌, ◌≤◌, ◌≡◌, ◌∙◌, arith, List, [], ◌∷◌, length, set}
use meshtastic_mini.Base.{get_or, u16, ltb, leb, ◌==◌, ◌||◌, ◌&&◌, length-set, Returns, returned}
use meshtastic_mini.Base.{never, Returns-bind, Returns-if, some, if_both, Bool-cases, inl, inr}
use meshtastic_mini.Mesh.Packet.{mesh_broadcast_id}
use meshtastic_mini.Mesh.Router.{flood_seen}
use meshtastic_mini.Mesh.Router.Recent.{flood_seen-IsRouter}
use meshtastic_mini.Crypto.{Cryp}
use meshtastic_mini.Core.SerialIo.{RxRing, serial_push_byte, serial_get_byte}
use meshtastic_mini.Core.SerialIo.Queue.{IsRing, push-IsRing, get-IsRing}
use meshtastic_mini.Core.MainLoop.{Node}
use meshtastic_mini.Core.MainLoop.Line.{set_node_id, show_info, send_line, do_line, line_byte}
use meshtastic_mini.Core.MainLoop.Line.{bytes_come_in, uart_rx_line_poll, is_node_command, is_help}
use meshtastic_mini.Core.MainLoop.Line.{is_info, first_of, rest_of, byte_of}
use meshtastic_mini.Core.MainLoop.Invariant.{IsNode, send_lora_packet-IsNode}

module _ {cryp : Cryp} {S : Type 0} where
  pub with_line :
      (n : Node cryp S) (line : List ℕ) (len : ℕ)
      → IsNode n
      → length line ≡ 200
      → len ≤ 199
      → IsNode (record n { line_buf = line; line_len = len })
  with_line n line len v size fits = record {
    rx_size = v.rx_size;
    tx_size = v.tx_size;
    line_size = size;
    line_fits = fits;
    number_fits = v.number_fits;
    node_fits = v.node_fits;
    ring_sound = v.ring_sound;
    router_sound = v.router_sound;
    driver_sound = v.driver_sound;
  }

  pub with_ring :
      (n : Node cryp S) (ring : RxRing) → IsNode n → IsRing ring → IsNode (record n { ring = ring })
  with_ring n ring v sound = record {
    rx_size = v.rx_size;
    tx_size = v.tx_size;
    line_size = v.line_size;
    line_fits = v.line_fits;
    number_fits = v.number_fits;
    node_fits = v.node_fits;
    ring_sound = sound;
    router_sound = v.router_sound;
    driver_sound = v.driver_sound;
  }

  pub with_rx :
      (n : Node cryp S) (rx : List ℕ)
      → IsNode n
      → length rx ≡ 256
      → IsNode (record n { lora_rx_buf = rx })
  with_rx n rx v size = record {
    rx_size = size;
    tx_size = v.tx_size;
    line_size = v.line_size;
    line_fits = v.line_fits;
    number_fits = v.number_fits;
    node_fits = v.node_fits;
    ring_sound = v.ring_sound;
    router_sound = v.router_sound;
    driver_sound = v.driver_sound;
  }

  pub with_router :
      (n : Node cryp S) (from id : ℕ)
      → IsNode n
      → IsNode (record n { router = flood_seen n.router from id })
  with_router n from id v = record {
    rx_size = v.rx_size;
    tx_size = v.tx_size;
    line_size = v.line_size;
    line_fits = v.line_fits;
    number_fits = v.number_fits;
    node_fits = v.node_fits;
    ring_sound = v.ring_sound;
    router_sound = flood_seen-IsRouter from id v.router_sound;
    driver_sound = v.driver_sound;
  }

  pub set_node_id-IsNode : (n : Node cryp S) → IsNode n → IsNode (set_node_id n)
  unfolding set_node_id
  set_node_id-IsNode n v =
      let digit = get_or n.line_buf 1 0 in
      elim (Bool-cases (leb 49 digit && leb digit 57)) [
        | inl is_digit ↦ rw is_digit (record {
          rx_size = v.rx_size;
          tx_size = v.tx_size;
          line_size = v.line_size;
          line_fits = v.line_fits;
          number_fits = v.number_fits;
          node_fits = ground arith;
          ring_sound = v.ring_sound;
          router_sound = v.router_sound;
          driver_sound = v.driver_sound;
        })
        | inr other ↦ rw other v
      ]

  pub do_line-IsNode : (fuel : ℕ) (n : Node cryp S) → IsNode n → Returns IsNode (do_line fuel n)
  unfolding do_line show_info send_line
  do_line-IsNode fuel n v =
      Returns-if (is_node_command n.line_buf n.line_len) (returned (set_node_id-IsNode n v)) (
        Returns-if (is_help n.line_buf n.line_len) (returned v) (
          Returns-if (is_info n.line_buf n.line_len) (returned v) (
            Returns-bind (send_lora_packet-IsNode fuel mesh_broadcast_id n.line_buf n.line_len n v)
              λ r w. returned (if_both IsNode r.1 _ _ w w))))

  pub line_byte-IsNode :
      (fuel b : ℕ) (n : Node cryp S) → IsNode n → Returns IsNode (line_byte fuel b n)
  unfolding line_byte
  line_byte-IsNode fuel b n v =
      Returns-if (b == 13 || b == 10)
        (Returns-if (n.line_len == 0) (returned v) (
          Returns-bind
            (do_line-IsNode fuel (record n { line_buf = set n.line_buf n.line_len 0 })
              (with_line n (set n.line_buf n.line_len 0) n.line_len v
                (length-set n.line_buf n.line_len 0 ∙ v.line_size) v.line_fits))
            λ n' w. returned (with_line n' n'.line_buf 0 w w.line_size (omega arith))))
        (elim (Bool-cases (ltb n.line_len 199)) [
          | inl room ↦ rw room (
              returned (
                with_line n (set n.line_buf n.line_len b) (u16 (n.line_len + 1)) v
                  (length-set n.line_buf n.line_len b ∙ v.line_size) (ground arith)))
          | inr full ↦ rw full (returned v)
        ])

  pub bytes_come_in-IsNode :
      (bs : List ℕ) (n : Node cryp S) → IsNode n → IsNode (bytes_come_in bs n)
  unfolding bytes_come_in
  bytes_come_in-IsNode [] n v = v
  bytes_come_in-IsNode (b ∷ bs) n v =
      bytes_come_in-IsNode bs (record n { ring = serial_push_byte n.ring b })
        (with_ring n (serial_push_byte n.ring b) v (push-IsRing b v.ring_sound))

  pub uart_rx_line_poll-IsNode :
      (rounds fuel : ℕ) (coming : List (List ℕ)) (n : Node cryp S)
      → IsNode n
      → Returns IsNode (uart_rx_line_poll rounds fuel coming n)
  unfolding uart_rx_line_poll
  uart_rx_line_poll-IsNode zero fuel coming n v = never
  uart_rx_line_poll-IsNode (suc rounds) fuel coming n v =
      let filled = bytes_come_in (first_of coming) n in
      let w = bytes_come_in-IsNode (first_of coming) n v in
      let got = serial_get_byte (some 0) filled.ring in
      let taken = record filled { ring = got.ring } in
      let sound = with_ring filled got.ring w (get-IsRing (some 0) w.ring_sound) in
      Returns-if got.returned
        (Returns-bind (line_byte-IsNode fuel (byte_of got.out) taken sound)
          λ n' v'. uart_rx_line_poll-IsNode rounds fuel (rest_of coming) n' v')
        (returned sound)
