-- ===== src/Serial/Tests.antt =====
-- The framing at concrete lines.
use meshtastic_mini.Base.{◌<◌, ◌≡◌, refl, some, List, [], ◌∷◌, arith, length}
use meshtastic_mini.Serial.Framing.{Framing, start, feed, deliver, serial_rx_byte, rx_switch}
use meshtastic_mini.Serial.Framing.{serial_send_packet}
use meshtastic_mini.Serial.Framing.Safety.{never_overflows}
use meshtastic_mini.Serial.Framing.Receive.{IsIdle, Piece, spoken, receives_line}
use meshtastic_mini.Serial.Framing.Lost.{on_line, sent_is_lost}

abbrev two_pieces : List Piece
two_pieces =
    record { noise = 1 ∷ 0xc3 ∷ []; packet = 10 ∷ 0x94 ∷ 30 ∷ [] }
    ∷ record { noise = []; packet = 7 ∷ [] }
    ∷ []

start-IsIdle : IsIdle start
start-IsIdle = record { waits = refl; full_size = refl }

spoken-two_pieces :
    spoken two_pieces ≡ 1 ∷ 0xc3 ∷ 0x94 ∷ 0 ∷ 3 ∷ 10 ∷ 0x94 ∷ 30 ∷ 0x94 ∷ 0 ∷ 1 ∷ 7 ∷ []
unfolding spoken
spoken-two_pieces = refl

heard :
    (feed start (1 ∷ 0xc3 ∷ 0x94 ∷ 0 ∷ 3 ∷ 10 ∷ 0x94 ∷ 30 ∷ 0x94 ∷ 0 ∷ 1 ∷ 7 ∷ [])).1
    ≡ (10 ∷ 0x94 ∷ 30 ∷ []) ∷ (7 ∷ []) ∷ []
unfolding feed deliver serial_rx_byte rx_switch
heard = refl

sent : serial_send_packet (some (1 ∷ 2 ∷ [])) 2 ≡ (0x94 ∷ 0xc3 ∷ 0 ∷ 2 ∷ []) ∷ (1 ∷ 2 ∷ []) ∷ []
unfolding serial_send_packet
sent = refl

receives_line_example : (feed start (spoken two_pieces)).1 ≡ (10 ∷ 0x94 ∷ 30 ∷ []) ∷ (7 ∷ []) ∷ []
receives_line_example = receives_line two_pieces (grind arith)

-- After two of three bytes of a body the machine is in `body` at index 2.
never_overflows_example :
    let s = (feed start (0x94 ∷ 0 ∷ 3 ∷ 1 ∷ 2 ∷ [])).0 in s.rx_idx < length s.rx_buf
unfolding feed serial_rx_byte rx_switch
never_overflows_example = never_overflows (0x94 ∷ 0 ∷ 3 ∷ 1 ∷ 2 ∷ []) (omega arith) refl

sent_is_lost_example :
    (s' : Framing) × (feed start (on_line (serial_send_packet (some (1 ∷ 2 ∷ [])) 2)) ≡ (s', []))
    × IsIdle s'
sent_is_lost_example = sent_is_lost (1 ∷ 2 ∷ []) start (omega arith) (omega arith) start-IsIdle
