-- ===== src/Serial/Framing/Lost.antt =====
-- The receiver does not look for START2, which the sender writes: the two do not fit together. And
-- a frame of length 0 takes one byte too many.
use mathlib.Core.List.{append-nil}
use meshtastic_mini.Base.{ℕ, ◌+◌, ◌*◌, ◌/◌, ◌%◌, ◌≤◌, ◌<◌, ◌≡◌, refl, ap, ◌∙◌, Bool, true}
use meshtastic_mini.Base.{ltb-false, List, [], ◌∷◌, ◌++◌, some, arith, length, take_all, length-set}
use meshtastic_mini.Base.{bit_and, bit_and_255, u8, ◌>>>◌, set}
use meshtastic_mini.Serial.Framing.{Framing, sync, serial_send_packet, feed, serial_rx_byte}
use meshtastic_mini.Serial.Framing.{rx_switch, deliver}
use meshtastic_mini.Serial.Framing.Safety.{join_len}
use meshtastic_mini.Serial.Framing.Receive.{IsIdle, IsNoise, skips_noise, feed-append}

-- The bytes of the buffers, as they go over the line.
abbrev pub on_line : List (List ℕ) → List ℕ
on_line [] = []
on_line (b ∷ bs) = b ++ on_line bs

-- What the sender writes for a packet: two start bytes, the length, the packet.
pub sent-eq :
    (packet : List ℕ)
    → length packet ≤ 512
    → on_line (serial_send_packet (some packet) (length packet))
      ≡ 0x94 ∷ 0xc3 ∷ length packet / 256 ∷ length packet % 256 ∷ packet
unfolding serial_send_packet
sent-eq packet small =
    rw (ltb-false 512 (length packet) small, take_all packet (length packet) (omega arith))
      λ i. 0x94 ∷ 0xc3 ∷ high i ∷ low i ∷ append-nil packet i
  where
    high : u8 (length packet >>> 8) ≡ length packet / 256
    high = omega arith

    low : u8 (bit_and (length packet) 0xff) ≡ length packet % 256
    low = omega (arith, bit_and_255 (length packet))

after_start2 :
    (hi len idx : ℕ) (buf : List ℕ) (cb : Bool)
    → hi < 256
    → (len' : ℕ) × (feed
          (record { rx_state = sync; rx_len = len; rx_idx = idx; rx_buf = buf; rx_cb = cb })
          (0x94 ∷ 0xc3 ∷ hi ∷ [])
        ≡ (record { rx_state = sync; rx_len = len'; rx_idx = idx; rx_buf = buf; rx_cb = true }, []))
unfolding feed deliver serial_rx_byte rx_switch
after_start2 hi len idx buf cb small = (0xc3 * 256 + hi, rw (join_len 0xc3 hi small) (ground arith))

-- No packet that `serial_send_packet` writes is ever delivered by `serial_rx_byte`: START2 is taken
-- for the high byte of a length above 512, and the rest is skipped. The packet has at most 512
-- bytes; neither it nor the low byte of its length holds a byte equal to START1, by which the
-- receiver would start on a frame once more.
pub sent_is_lost :
    (packet : List ℕ) (s : Framing)
    → length packet ≤ 512
    → IsNoise (length packet % 256 ∷ packet)
    → IsIdle s
    → (s' : Framing) × (feed s (on_line (serial_send_packet (some packet) (length packet)))
        ≡ (s', []))
      × IsIdle s'
sent_is_lost packet s small quiet v =
    let n = length packet in
    let (len', back) = after_start2 (n / 256) s.rx_len s.rx_idx s.rx_buf s.rx_cb (omega arith) in
    let (s', skipped, w) =
      skips_noise (n % 256 ∷ packet)
        (record {
          rx_state = sync;
          rx_len = len';
          rx_idx = s.rx_idx;
          rx_buf = s.rx_buf;
          rx_cb = true;
        })
        (record { waits = refl; full_size = v.full_size }) quiet in
    (
      s',
      ap (feed s) (sent-eq packet small)
          ∙ ap (λ q. feed (record s { rx_state = q }) (0x94 ∷ 0xc3 ∷ n / 256 ∷ n % 256 ∷ packet))
              v.waits
          ∙ feed-append (0x94 ∷ 0xc3 ∷ n / 256 ∷ []) (n % 256 ∷ packet) _
          ∙ rw (back, skipped) refl,
      w,
    )

-- A frame of length 0 delivers its empty packet only with the next byte, and takes that byte from
-- the line, whatever it is, START1 of the next frame included.
pub empty_frame_swallows :
    (s : Framing) (b : ℕ)
    → IsIdle s
    → (feed s (0x94 ∷ 0 ∷ 0 ∷ [])).1 ≡ []
      × (s' : Framing) × (feed s (0x94 ∷ 0 ∷ 0 ∷ b ∷ []) ≡ (s', [] ∷ []))
      × IsIdle s'
unfolding feed deliver serial_rx_byte rx_switch
empty_frame_swallows s b v = (
  ap (λ q. (feed (record s { rx_state = q }) (0x94 ∷ 0 ∷ 0 ∷ [])).1) v.waits,
  record { rx_state = sync; rx_len = 0; rx_idx = 1; rx_buf = set s.rx_buf 0 b; rx_cb = true },
  ap (λ q. feed (record s { rx_state = q }) (0x94 ∷ 0 ∷ 0 ∷ b ∷ [])) v.waits,
  record { waits = refl; full_size = length-set s.rx_buf 0 b ∙ v.full_size },
)
