-- ===== src/Core/SerialIo/Interrupts.antt =====
-- The interrupt between the steps of `serial_get_byte`.
use meshtastic_mini.Base.{ℕ, ◌+◌, ◌%◌, ◌≡◌, ◌≢◌, refl, sym, ◌∙◌, arith, List, [], ◌∷◌, ◌++◌, true}
use meshtastic_mini.Base.{false, some, u16, get_or-set_other, ◌==◌, if◌then◌else◌, Bool-cases, inl}
use meshtastic_mini.Base.{inr}
use meshtastic_mini.Core.SerialIo.{RxRing, serial_push_byte, serial_get_byte, is_empty, front}
use meshtastic_mini.Core.SerialIo.{push_all, interrupted_get}
use meshtastic_mini.Core.SerialIo.Queue.{IsRing, push-IsRing}

-- A push leaves the oldest byte that waits where it is.
front-push :
    (s : RxRing) (b : ℕ)
    → IsRing s
    → is_empty s ≡ false
    → (is_empty (serial_push_byte s b) ≡ false) × (front (serial_push_byte s b) ≡ front s)
unfolding serial_push_byte
front-push s b v some_wait =
    let apart : s.rx_head ≢ s.rx_tail = ground arith in
    elim (Bool-cases (u16 ((s.rx_head + 1) % 256) == s.rx_tail)) [
      | inl full ↦ rw full (some_wait, refl)
      | inr room ↦ rw room (ground arith, get_or-set_other s.rx_ring s.rx_head s.rx_tail b 0 apart)
    ]

front-push_all :
    (bs : List ℕ) (s : RxRing)
    → IsRing s
    → is_empty s ≡ false
    → (is_empty (push_all bs s) ≡ false) × (front (push_all bs s) ≡ front s)
unfolding push_all
front-push_all [] s v some_wait = (some_wait, refl)
front-push_all (b ∷ bs) s v some_wait =
    let (waits, same) = front-push s b v some_wait in
    let (waits', same') = front-push_all bs (serial_push_byte s b) (push-IsRing b v) waits in
    (waits', same' ∙ same)

push_all-append :
    (bs cs : List ℕ) (s : RxRing) → push_all (bs ++ cs) s ≡ push_all cs (push_all bs s)
unfolding push_all
push_all-append [] cs s = refl
push_all-append (b ∷ bs) cs s = push_all-append bs cs (serial_push_byte s b)

went_on :
    (old : ℕ) (between behind : List ℕ) (s : RxRing)
    → IsRing s
    → is_empty s ≡ false
    → interrupted_get old between behind s
      ≡ serial_get_byte (some old) (push_all (between ++ behind) s)
unfolding interrupted_get serial_get_byte
went_on old between behind s v some_wait =
    let (waits, whole) = front-push_all (between ++ behind) s v some_wait in
    let read = (front-push_all between s v some_wait).1 ∙ sym whole in
    rw (waits, some_wait, read, push_all-append between behind s) refl

gave_up :
    (old : ℕ) (between behind : List ℕ) (s : RxRing)
    → is_empty s ≡ true
    → interrupted_get old between behind s
      ≡ record (serial_get_byte (some old) s) { ring = push_all (between ++ behind) s }
unfolding interrupted_get serial_get_byte
gave_up old between behind s empty = rw (empty, push_all-append between behind s) refl

-- On a well-formed ring, a call of `serial_get_byte` that the interrupt breaks into between any of
-- its steps, with any bytes, is the same as an undivided call: one after all these bytes were pushed,
-- if a byte was waiting at the start, and otherwise one before they are pushed.
pub interrupted_get-serial_get_byte :
    (old : ℕ) (between behind : List ℕ) (s : RxRing)
    → IsRing s
    → interrupted_get old between behind s ≡ (
        if is_empty s
        then record (serial_get_byte (some old) s) { ring = push_all (between ++ behind) s }
        else serial_get_byte (some old) (push_all (between ++ behind) s))
interrupted_get-serial_get_byte old between behind s v = elim (Bool-cases (is_empty s)) [
  | inl empty ↦ rw empty (gave_up old between behind s empty)
  | inr some_wait ↦ rw some_wait (went_on old between behind s v some_wait)
]
