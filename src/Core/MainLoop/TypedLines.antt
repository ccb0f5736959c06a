-- ===== src/Core/MainLoop/TypedLines.antt =====
-- The line editor keeps the buffers of a node full of bytes.
use mathlib.Core.Path.{subst}
use meshtastic_mini.Base.{ℕ, zero, suc, ◌+◌, ◌<◌, sym, ◌∙◌, arith, List, [], ◌∷◌, set, get_or, u16}
use meshtastic_mini.Base.{ltb, leb, ◌==◌, ◌||◌, ◌&&◌, if_both, some, AllBytes, AllBytes-get_or}
use meshtastic_mini.Base.{AllBytes-set, length-set, Returns, returned, never, Returns-bind}
use meshtastic_mini.Base.{Returns-if, Returns-both}
use meshtastic_mini.Mesh.Packet.{mesh_broadcast_id}
use meshtastic_mini.Crypto.{Cryp}
use meshtastic_mini.Radio.{Hal, HalCall}
use meshtastic_mini.Radio.Receive.{ReadsAll}
use meshtastic_mini.Radio.Bytes.{radio_rx_poll-AllBytes}
use meshtastic_mini.Core.MainLoop.Bytes.{PollsBytes, HoldsBytes, send_lora_packet-HoldsBytes}
use meshtastic_mini.Radio.Phy.{default_ops, stm32wl_ops}
use meshtastic_mini.Core.SerialIo.{RxRing, Got, serial_push_byte, serial_get_byte}
use meshtastic_mini.Core.SerialIo.Queue.{get-IsRing}
use meshtastic_mini.Core.MainLoop.{Node}
use meshtastic_mini.Core.MainLoop.Line.{set_node_id, show_info, send_line, do_line, line_byte}
use meshtastic_mini.Core.MainLoop.Line.{bytes_come_in, uart_rx_line_poll, is_node_command, is_help}
use meshtastic_mini.Core.MainLoop.Line.{is_info, first_of, rest_of, byte_of}
use meshtastic_mini.Core.MainLoop.Receive.{or_else}
use meshtastic_mini.Core.MainLoop.Invariant.{IsNode}
use meshtastic_mini.Core.MainLoop.Editing.{with_line, with_ring, line_byte-IsNode}
use meshtastic_mini.Core.MainLoop.Editing.{bytes_come_in-IsNode}

pub default_ops-PollsBytes : {S : Type 0} → PollsBytes (default_ops S)
unfolding default_ops
default_ops-PollsBytes = record { polls_bytes = λ buf s v. v }

-- The STM32WL driver over a HAL that reads bytes, and as many as it is asked for.
pub stm32wl_ops-PollsBytes :
    (hal : Hal) (fuel : ℕ)
    → ((l : List HalCall) → AllBytes (hal.bytes l))
    → ReadsAll hal
    → PollsBytes (stm32wl_ops hal fuel)
unfolding stm32wl_ops
stm32wl_ops-PollsBytes hal fuel bytes_read all = record {
  polls_bytes = λ buf s v.
      let (out, e, bytes) = radio_rx_poll-AllBytes hal bytes_read all buf 256 s v in
      subst (λ o. AllBytes (or_else buf o)) (sym e) bytes;
}

-- What comes in over the UART is bytes.
abbrev pub ComeAsBytes : List (List ℕ) → Type 0
ComeAsBytes [] = Unit
ComeAsBytes (bs ∷ later) = AllBytes bs × ComeAsBytes later

first-AllBytes : (coming : List (List ℕ)) → ComeAsBytes coming → AllBytes (first_of coming)
first-AllBytes [] c = tt
first-AllBytes (bs ∷ later) c = c.0

rest-ComeAsBytes : (coming : List (List ℕ)) → ComeAsBytes coming → ComeAsBytes (rest_of coming)
rest-ComeAsBytes [] c = tt
rest-ComeAsBytes (bs ∷ later) c = c.1

push-AllBytes :
    (s : RxRing) (b : ℕ) → b < 256 → AllBytes s.rx_ring → AllBytes (serial_push_byte s b).rx_ring
unfolding serial_push_byte
push-AllBytes s b h v =
    if_both (λ (r : RxRing). AllBytes r.rx_ring) _ _ _ v (AllBytes-set s.rx_ring s.rx_head b v h)

got-AllBytes :
    (s : RxRing)
    → AllBytes s.rx_ring
    → AllBytes (serial_get_byte (some 0) s).ring.rx_ring
      × (byte_of (serial_get_byte (some 0) s).out < 256)
unfolding serial_get_byte
got-AllBytes s v =
    if_both (λ (g : Got). AllBytes g.ring.rx_ring × (byte_of g.out < 256)) _ _ _ (v, omega arith)
      (v, AllBytes-get_or s.rx_ring s.rx_tail v)

module _ {cryp : Cryp} {S : Type 0} where
  do_line-HoldsBytes :
      (fuel : ℕ) (n : Node cryp S) → IsNode n → HoldsBytes n → Returns HoldsBytes (do_line fuel n)
  unfolding do_line set_node_id show_info send_line
  do_line-HoldsBytes fuel n v w =
      let digit = get_or n.line_buf 1 0 in
      Returns-if (is_node_command n.line_buf n.line_len)
        (returned (if_both HoldsBytes (leb 49 digit && leb digit 57) _ _ w w))
        (Returns-if (is_help n.line_buf n.line_len) (returned w) (
          Returns-if (is_info n.line_buf n.line_len) (returned w) (
            Returns-bind
              (send_lora_packet-HoldsBytes fuel mesh_broadcast_id n.line_buf n.line_len n
                (omega arith) w.line_bytes v w)
              λ r k. returned (if_both HoldsBytes r.1 _ _ k k))))

  with_line_bytes :
      (n : Node cryp S) (line : List ℕ) (len : ℕ)
      → HoldsBytes n
      → AllBytes line
      → HoldsBytes (record n { line_buf = line; line_len = len })
  with_line_bytes n line len w bytes = record {
    rx_bytes = w.rx_bytes;
    tx_bytes = w.tx_bytes;
    line_bytes = bytes;
    ring_bytes = w.ring_bytes;
    driver_bytes = w.driver_bytes;
  }

  with_ring_bytes :
      (n : Node cryp S) (ring : RxRing)
      → HoldsBytes n
      → AllBytes ring.rx_ring
      → HoldsBytes (record n { ring = ring })
  with_ring_bytes n ring w bytes = record {
    rx_bytes = w.rx_bytes;
    tx_bytes = w.tx_bytes;
    line_bytes = w.line_bytes;
    ring_bytes = bytes;
    driver_bytes = w.driver_bytes;
  }

  pub with_rx_bytes :
      (n : Node cryp S) (rx : List ℕ)
      → HoldsBytes n
      → AllBytes rx
      → HoldsBytes (record n { lora_rx_buf = rx })
  with_rx_bytes n rx w bytes = record {
    rx_bytes = bytes;
    tx_bytes = w.tx_bytes;
    line_bytes = w.line_bytes;
    ring_bytes = w.ring_bytes;
    driver_bytes = w.driver_bytes;
  }

  line_byte-HoldsBytes :
      (fuel b : ℕ) (n : Node cryp S)
      → b < 256
      → IsNode n
      → HoldsBytes n
      → Returns HoldsBytes (line_byte fuel b n)
  unfolding line_byte
  line_byte-HoldsBytes fuel b n h v w =
      let ended = set n.line_buf n.line_len 0 in
      let sound =
        with_line n ended n.line_len v (length-set n.line_buf n.line_len 0 ∙ v.line_size)
          v.line_fits in
      let bytes =
        with_line_bytes n ended n.line_len w
          (AllBytes-set n.line_buf n.line_len 0 w.line_bytes (omega arith)) in
      let stored =
        with_line_bytes n (set n.line_buf n.line_len b) (u16 (n.line_len + 1)) w
          (AllBytes-set n.line_buf n.line_len b w.line_bytes h) in
      Returns-if (b == 13 || b == 10)
        (Returns-if (n.line_len == 0) (returned w) (
          Returns-bind (do_line-HoldsBytes fuel (record n { line_buf = ended }) sound bytes)
            λ n' k. returned (with_line_bytes n' n'.line_buf 0 k k.line_bytes)))
        (returned (if_both HoldsBytes (ltb n.line_len 199) _ _ stored w))

  bytes_come_in-HoldsBytes :
      (bs : List ℕ) (n : Node cryp S) → AllBytes bs → HoldsBytes n → HoldsBytes (bytes_come_in bs n)
  unfolding bytes_come_in
  bytes_come_in-HoldsBytes [] n h w = w
  bytes_come_in-HoldsBytes (b ∷ bs) n h w =
      bytes_come_in-HoldsBytes bs (record n { ring = serial_push_byte n.ring b }) h.1
        (with_ring_bytes n (serial_push_byte n.ring b) w (push-AllBytes n.ring b h.0 w.ring_bytes))

  pub poll-HoldsBytes :
      (rounds fuel : ℕ) (coming : List (List ℕ)) (n : Node cryp S)
      → ComeAsBytes coming
      → IsNode n
      → HoldsBytes n
      → Returns HoldsBytes (uart_rx_line_poll rounds fuel coming n)
  unfolding uart_rx_line_poll
  poll-HoldsBytes zero fuel coming n c v w = never
  poll-HoldsBytes (suc rounds) fuel coming n c v w =
      let filled = bytes_come_in (first_of coming) n in
      let v' = bytes_come_in-IsNode (first_of coming) n v in
      let w' = bytes_come_in-HoldsBytes (first_of coming) n (first-AllBytes coming c) w in
      let got = serial_get_byte (some 0) filled.ring in
      let (ring, byte) = got-AllBytes filled.ring w'.ring_bytes in
      let taken = record filled { ring = got.ring } in
      let sound = with_ring filled got.ring v' (get-IsRing (some 0) v'.ring_sound) in
      let bytes = with_ring_bytes filled got.ring w' ring in
      Returns-if got.returned
        (Returns-bind
          (Returns-both (line_byte-IsNode fuel (byte_of got.out) taken sound)
            (line_byte-HoldsBytes fuel (byte_of got.out) taken byte sound bytes))
          λ n' k.
            poll-HoldsBytes rounds fuel (rest_of coming) n' (rest-ComeAsBytes coming c) k.0 k.1)
        (returned bytes)
