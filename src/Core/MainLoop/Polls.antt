-- ===== src/Core/MainLoop/Polls.antt =====
-- `uart_rx_line_poll` returns: it takes the bytes that wait, and those that come in meanwhile.
use meshtastic_mini.Base.{ℕ, zero, suc, ◌+◌, ◌≤◌, ◌≡◌, refl, ap, ◌∙◌, arith, List, [], ◌∷◌, length}
use meshtastic_mini.Base.{Bool-cases, inl, inr, false, ◌<◌, sym, Ends, ended, Ends-bind}
use meshtastic_mini.Base.{Ends-weaken, Ends-Returns}
use meshtastic_mini.Crypto.{Cryp}
use meshtastic_mini.Radio.Phy.{ops_of}
use meshtastic_mini.Core.SerialIo.{RxRing, serial_push_byte, serial_get_byte, front, is_empty}
use meshtastic_mini.Core.SerialIo.{advance}
use meshtastic_mini.Core.SerialIo.Queue.{IsRing, push-IsRing, waiting, going_on, length-going_on}
use meshtastic_mini.Core.SerialIo.Queue.{count, nothing_waits, something_waits, advance-IsRing}
use meshtastic_mini.Core.MainLoop.{Node}
use meshtastic_mini.Core.MainLoop.Line.{bytes_come_in, uart_rx_line_poll, first_of, rest_of}
use meshtastic_mini.Core.MainLoop.Invariant.{IsNode}
use mathlib.Core.Path.{subst}
use meshtastic_mini.Core.MainLoop.Editing.{uart_rx_line_poll-IsNode}
use meshtastic_mini.Core.MainLoop.Ends.{IsPrompt, line_byte-Ends}

count-push : (s : RxRing) (b : ℕ) → IsRing s → count (serial_push_byte s b) ≤ count s + 1
unfolding serial_push_byte
count-push s b v = ground arith

-- The number of bytes that come in.
abbrev pub total : List (List ℕ) → ℕ
total [] = 0
total (bs ∷ later) = length bs + total later

first-total :
    (coming : List (List ℕ)) → length (first_of coming) + total (rest_of coming) ≡ total coming
first-total [] = refl
first-total (bs ∷ later) = refl

count-advance : (s : RxRing) → IsRing s → is_empty s ≡ false → count (advance s) < count s
count-advance s v some_wait = ground arith

module _ {cryp : Cryp} {S : Type 0} where
  bytes_come_in-IsRing :
      (bs : List ℕ) (n : Node cryp S) → IsRing n.ring → IsRing (bytes_come_in bs n).ring
  unfolding bytes_come_in
  bytes_come_in-IsRing [] n v = v
  bytes_come_in-IsRing (b ∷ bs) n v =
      bytes_come_in-IsRing bs (record n { ring = serial_push_byte n.ring b }) (push-IsRing b v)

  bytes_come_in-counts :
      (bs : List ℕ) (n : Node cryp S)
      → IsRing n.ring
      → (count (bytes_come_in bs n).ring ≤ count n.ring + length bs)
        × ((bytes_come_in bs n).lora.s_ops ≡ n.lora.s_ops)
  unfolding bytes_come_in
  bytes_come_in-counts [] n v = (omega arith, refl)
  bytes_come_in-counts (b ∷ bs) n v =
      let pushed = record n { ring = serial_push_byte n.ring b } in
      let (few, same) = bytes_come_in-counts bs pushed (push-IsRing b v) in
      (omega (arith, few, count-push n.ring b v), same)

  poll-Ends :
      (rounds fuel : ℕ) (coming : List (List ℕ)) (n : Node cryp S)
      → IsRing n.ring
      → IsPrompt (ops_of n.lora.s_ops)
      → 16 ≤ fuel
      → count n.ring + total coming < rounds
      → Ends
          (λ n'. (count n'.ring ≡ 0) × (n'.lora.s_ops ≡ n.lora.s_ops))
          (uart_rx_line_poll rounds fuel coming n)
  unfolding uart_rx_line_poll serial_get_byte
  poll-Ends zero fuel coming n v prompt enough few = absurd (omega arith)
  poll-Ends (suc rounds) fuel coming n v prompt enough few =
      let filled = bytes_come_in (first_of coming) n in
      let (counted, same) = bytes_come_in-counts (first_of coming) n v in
      let sound = bytes_come_in-IsRing (first_of coming) n v in
      elim (Bool-cases (is_empty filled.ring)) [
        | inl empty ↦ rw empty (ended (nothing_waits filled.ring sound empty, same))
        | inr some_wait ↦
            let taken = record filled { ring = advance filled.ring } in
            let one_less = something_waits filled.ring sound some_wait in
            let still = subst (λ o. IsPrompt (ops_of o)) (sym same) prompt in
            rw some_wait (
              Ends-bind (line_byte-Ends fuel (front filled.ring) taken enough still) λ n' l.
                let still' = subst (λ o. IsPrompt (ops_of o)) (sym l.1) still in
                let sound' = subst IsRing (sym l.0) (advance-IsRing sound) in
                let fewer : count n'.ring + total (rest_of coming) < rounds = omega (
                  arith,
                  counted,
                  first-total coming,
                  ap count l.0,
                  count-advance filled.ring sound some_wait,
                ) in
                Ends-weaken (poll-Ends rounds fuel (rest_of coming) n' sound' still' enough fewer)
                  λ n'' k. (k.0, k.1 ∙ l.1 ∙ same))
      ]

  -- For a sound node with a driver whose `tx` returns, and fuel for 16 blocks, the poll returns within
  -- a round for each byte that waits or comes in meanwhile and one more, whatever the hardware that
  -- encrypts does: no byte waits any more, the node is sound, and the driver is the same.
  pub uart_rx_line_poll-Ends :
      (rounds fuel : ℕ) (coming : List (List ℕ)) (n : Node cryp S)
      → IsNode n
      → IsPrompt (ops_of n.lora.s_ops)
      → 16 ≤ fuel
      → length (waiting n.ring) + total coming < rounds
      → Ends
          (λ n'. (waiting n'.ring ≡ []) × IsNode n' × (n'.lora.s_ops ≡ n.lora.s_ops))
          (uart_rx_line_poll rounds fuel coming n)
  unfolding waiting going_on
  uart_rx_line_poll-Ends rounds fuel coming n v prompt enough few =
      let all = length-going_on n.ring.rx_ring n.ring.rx_tail (count n.ring) in
      let polled = poll-Ends rounds fuel coming n v.ring_sound prompt enough (omega (arith, all)) in
      Ends-weaken (Ends-Returns polled (uart_rx_line_poll-IsNode rounds fuel coming n v))
        λ n' k. (ap (going_on n'.ring.rx_ring n'.ring.rx_tail) k.0.0, k.1, k.0.1)
