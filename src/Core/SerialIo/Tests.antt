-- ===== src/Core/SerialIo/Tests.antt =====
-- The ring with two bytes in it, and with none.
use meshtastic_mini.Base.{◌≡◌, refl, some, [], ◌∷◌, if◌then◌else◌, List, none}
use meshtastic_mini.Core.SerialIo.{RxRing, no_bytes, serial_push_byte, serial_get_byte}
use meshtastic_mini.Core.SerialIo.{interrupted_get, push_all, is_empty}
use meshtastic_mini.Core.SerialIo.Interrupts.{interrupted_get-serial_get_byte}
use meshtastic_mini.Core.SerialIo.Queue.{IsRing, no_bytes-IsRing, push-IsRing, waiting, going_on}
use meshtastic_mini.Core.SerialIo.Fifo.{RingOp, push_byte, get_byte, ring_answers, queue_answers}
use meshtastic_mini.Core.SerialIo.Fifo.{ring_is_fifo}

abbrev two : RxRing
two = serial_push_byte (serial_push_byte no_bytes 65) 66

two-IsRing : IsRing two
two-IsRing = push-IsRing 66 (push-IsRing 65 no_bytes-IsRing)

waiting-two : waiting two ≡ 65 ∷ 66 ∷ []
unfolding waiting going_on serial_push_byte
waiting-two = refl

abbrev three_ops : List RingOp
three_ops = push_byte 65 ∷ get_byte ∷ get_byte ∷ []

ring_is_fifo_example : ring_answers three_ops no_bytes ≡ queue_answers three_ops []
ring_is_fifo_example = ring_is_fifo three_ops

answers-three_ops : ring_answers three_ops no_bytes ≡ some 65 ∷ none ∷ []
unfolding ring_answers serial_push_byte serial_get_byte
answers-three_ops = refl

interrupted_get-serial_get_byte_example : interrupted_get 9 (67 ∷ []) (68 ∷ 69 ∷ []) two ≡ (
    if is_empty two
    then record (serial_get_byte (some 9) two) { ring = push_all (67 ∷ 68 ∷ 69 ∷ []) two }
    else serial_get_byte (some 9) (push_all (67 ∷ 68 ∷ 69 ∷ []) two))
interrupted_get-serial_get_byte_example =
    interrupted_get-serial_get_byte 9 (67 ∷ []) (68 ∷ 69 ∷ []) two two-IsRing
