-- ===== src/Core/SerialIo/Fifo.antt =====
-- The ring behaves as a queue of at most 255 bytes, over any sequence of pushes and takes.
use meshtastic_mini.Base.{ℕ, ◌≡◌, refl, ap, ◌∙◌, Bool, Option, none, some, List, [], ◌∷◌}
use meshtastic_mini.Base.{if◌then◌else◌}
use meshtastic_mini.Core.SerialIo.{RxRing, no_bytes, serial_push_byte, serial_get_byte}
use meshtastic_mini.Core.SerialIo.Queue.{IsRing, no_bytes-IsRing, push-IsRing, get-IsRing, waiting}
use meshtastic_mini.Core.SerialIo.Queue.{going_on, enqueue, waiting-push, Takes, took, found_none}
use meshtastic_mini.Core.SerialIo.Queue.{serial_get_byte-Takes}

-- What is done to the ring: a byte is pushed, or one is asked for.
pub data RingOp : Type 0 where
  push_byte : ℕ → RingOp
  get_byte : RingOp

-- The answers to the questions, in order: a byte, or none.
unfoldable pub ring_answers : List RingOp → RxRing → List (Option ℕ)
ring_answers [] s = []
ring_answers (push_byte b ∷ ops) s = ring_answers ops (serial_push_byte s b)
ring_answers (get_byte ∷ ops) s =
    let got = serial_get_byte (some 0) s in
    (if got.returned then got.out else none) ∷ ring_answers ops got.ring

unfoldable pub queue_answers : List RingOp → List ℕ → List (Option ℕ)
queue_answers [] q = []
queue_answers (push_byte b ∷ ops) q = queue_answers ops (enqueue q b)
queue_answers (get_byte ∷ ops) [] = none ∷ queue_answers ops []
queue_answers (get_byte ∷ ops) (b ∷ q) = some b ∷ queue_answers ops q

Takes-step :
    {before behind : List ℕ} {out : Option ℕ} {returned : Bool} (ops : List RingOp)
    (answers : List (Option ℕ))
    → Takes before 0 behind out returned
    → answers ≡ queue_answers ops behind
    → ((if returned then out else none) ∷ answers) ≡ queue_answers (get_byte ∷ ops) before
unfolding queue_answers
Takes-step ops answers (took {b}) e = ap (λ l. some b ∷ l) e
Takes-step ops answers found_none e = ap (λ l. none ∷ l) e

answers-eq :
    (ops : List RingOp) (s : RxRing) → IsRing s → ring_answers ops s ≡ queue_answers ops (waiting s)
unfolding ring_answers queue_answers
answers-eq [] s v = refl
answers-eq (push_byte b ∷ ops) s v =
    answers-eq ops (serial_push_byte s b) (push-IsRing b v)
    ∙ ap (queue_answers ops) (waiting-push b v)
answers-eq (get_byte ∷ ops) s v =
    Takes-step ops _ (serial_get_byte-Takes 0 v)
      (answers-eq ops (serial_get_byte (some 0) s).ring (get-IsRing (some 0) v))

-- From start-up on, whatever bytes are pushed and however often one is asked for, in any order: the
-- ring gives the answers of a queue that keeps the bytes in their order and drops a byte that is pushed
-- while 255 wait.
pub ring_is_fifo : (ops : List RingOp) → ring_answers ops no_bytes ≡ queue_answers ops []
unfolding waiting going_on
ring_is_fifo ops = answers-eq ops no_bytes no_bytes-IsRing
