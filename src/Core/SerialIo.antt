-- ===== src/Core/SerialIo.antt =====
-- The receive ring of firmware/Core/serial_io.c: filled by the interrupt, emptied by the main loop.
pub mod Queue
pub mod Fifo
pub mod Interrupts
mod Tests
use meshtastic_mini.Base.{ℕ, ◌+◌, ◌%◌, Bool, true, false, ◌==◌, if◌then◌else◌, Option, none, some}
use meshtastic_mini.Base.{List, [], ◌∷◌, u16, get_or, set, replicate}

abbrev pub rx_ring_size : ℕ
rx_ring_size = 256

-- `rx_ring`, `rx_head` and `rx_tail`
pub record RxRing : Type 0 where
  pub rx_ring : List ℕ
  pub rx_head : ℕ
  pub rx_tail : ℕ

abbrev pub no_bytes : RxRing
no_bytes = record { rx_ring = replicate rx_ring_size 0; rx_head = 0; rx_tail = 0 }

unfoldable pub serial_push_byte : RxRing → ℕ → RxRing
serial_push_byte s b =
    let next = u16 ((s.rx_head + 1) % rx_ring_size) in
    if next == s.rx_tail
    then s
    else record s { rx_ring = set s.rx_ring s.rx_head b; rx_head = next }

-- The three steps of `serial_get_byte`: the test, the read, and the new tail.
abbrev pub is_empty : RxRing → Bool
is_empty s = s.rx_tail == s.rx_head

abbrev pub front : RxRing → ℕ
front s = get_or s.rx_ring s.rx_tail 0

abbrev pub advance : RxRing → RxRing
advance s = record s { rx_tail = u16 ((s.rx_tail + 1) % rx_ring_size) }

-- What a call leaves: the ring, `*out` (`none` for NULL), and the returned value.
pub record Got : Type 0 where
  pub ring : RxRing
  pub out : Option ℕ
  pub returned : Bool

unfoldable pub serial_get_byte : Option ℕ → RxRing → Got
serial_get_byte none s = record { ring = s; out = none; returned = false }
serial_get_byte (some old) s =
    if is_empty s
    then record { ring = s; out = some old; returned = false }
    else record { ring = advance s; out = some (front s); returned = true }

-- The bytes that the interrupt pushes, one after the other.
unfoldable pub push_all : List ℕ → RxRing → RxRing
push_all [] s = s
push_all (b ∷ bs) s = push_all bs (serial_push_byte s b)

-- `serial_get_byte` with a place for the byte, when the interrupt pushes some bytes between the test
-- and the read, and others between the read and the new tail.
unfoldable pub interrupted_get : ℕ → List ℕ → List ℕ → RxRing → Got
interrupted_get old between behind s =
    let tested = push_all between s in
    let read = push_all behind tested in
    if is_empty s
    then record { ring = read; out = some old; returned = false }
    else record { ring = advance read; out = some (front tested); returned = true }
