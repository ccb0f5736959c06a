-- ===== src/Core/SerialIo/Queue.antt =====
-- The ring against a queue of at most 255 bytes that drops what does not fit.

use meshtastic_mini.Base.{ℕ, zero, suc, ◌+◌, ◌-◌, ◌%◌, ◌<◌, ◌≡◌, ◌≢◌, refl, ap, ap₂, ◌∙◌, List, []}
use meshtastic_mini.Base.{◌∷◌, ◌++◌, arith, Bool, true, false, Option, none, some, ltb, ◌==◌}
use meshtastic_mini.Base.{length, length-set, get_or, set, get_or-set_eq, get_or-set_other, u16}
use meshtastic_mini.Base.{if◌then◌else◌, Bool-cases, ==_iff, inl, inr}
use meshtastic_mini.Core.SerialIo.{RxRing, no_bytes, serial_push_byte, serial_get_byte, is_empty}
use meshtastic_mini.Core.SerialIo.{front, advance}

pub record IsRing (s : RxRing) : Type 0 where
  pub full_size : length s.rx_ring ≡ 256
  pub head_in : s.rx_head < 256
  pub tail_in : s.rx_tail < 256

pub no_bytes-IsRing : IsRing no_bytes
no_bytes-IsRing = record { full_size = refl; head_in = omega arith; tail_in = omega arith }

pub push-IsRing : {s : RxRing} (b : ℕ) → IsRing s → IsRing (serial_push_byte s b)
unfolding serial_push_byte
push-IsRing {s} b v = ground (arith, length-set s.rx_ring s.rx_head b)

pub advance-IsRing : {s : RxRing} → IsRing s → IsRing (advance s)
advance-IsRing v = omega arith

-- The `n` bytes from index `i` on, round the end.
unfoldable pub going_on : List ℕ → ℕ → ℕ → List ℕ
going_on buf i zero = []
going_on buf i (suc n) = get_or buf i 0 ∷ going_on buf ((i + 1) % 256) n

pub length-going_on : (buf : List ℕ) (i n : ℕ) → length (going_on buf i n) ≡ n
unfolding going_on
length-going_on buf i zero = refl
length-going_on buf i (suc n) = ap suc (length-going_on buf ((i + 1) % 256) n)

abbrev pub count : RxRing → ℕ
count s = (s.rx_head + 256 - s.rx_tail) % 256

-- The bytes that wait in the ring, the oldest first.
unfoldable pub waiting : RxRing → List ℕ
waiting s = going_on s.rx_ring s.rx_tail (count s)

going_on-set :
    (buf : List ℕ) (b n t h : ℕ)
    → length buf ≡ 256
    → t < 256
    → n < 256
    → h ≡ (t + n) % 256
    → going_on (set buf h b) t (suc n) ≡ going_on buf t n ++ b ∷ []
unfolding going_on
going_on-set buf b zero t h full ht hn e =
    let same : h ≡ t = omega arith in
    ap (λ x. x ∷ []) (rw same (get_or-set_eq buf t b 0 (omega arith)))
going_on-set buf b (suc n) t h full ht hn e =
    ap₂ ◌∷◌ (get_or-set_other buf h t b 0 (λ q. omega arith))
      (going_on-set buf b n ((t + 1) % 256) h full (omega arith) (omega arith) (omega arith))

-- The queue that the ring stands for.
abbrev pub enqueue : List ℕ → ℕ → List ℕ
enqueue q b = if ltb (length q) 255 then q ++ b ∷ [] else q

push_room :
    {s : RxRing} (b : ℕ)
    → IsRing s
    → u16 ((s.rx_head + 1) % 256) ≢ s.rx_tail
    → going_on
        (set s.rx_ring s.rx_head b)
        s.rx_tail
        ((u16 ((s.rx_head + 1) % 256) + 256 - s.rx_tail) % 256)
      ≡ going_on s.rx_ring s.rx_tail (count s) ++ b ∷ []
push_room {s} b v room =
    let one_more : (u16 ((s.rx_head + 1) % 256) + 256 - s.rx_tail) % 256 ≡ suc (count s) =
      omega arith in
    ap (going_on (set s.rx_ring s.rx_head b) s.rx_tail) one_more
    ∙ going_on-set s.rx_ring b (count s) s.rx_tail s.rx_head v.full_size v.tail_in (omega arith)
        (omega arith)

-- On a well-formed ring, a pushed byte is appended to those that wait if they are fewer than 255,
-- and is dropped otherwise.
pub waiting-push :
    {s : RxRing} (b : ℕ) → IsRing s → waiting (serial_push_byte s b) ≡ enqueue (waiting s) b
unfolding waiting serial_push_byte
waiting-push {s} b v = elim (Bool-cases (u16 ((s.rx_head + 1) % 256) == s.rx_tail)) [
  | inl full ↦ ground (
    arith,
    length-going_on s.rx_ring s.rx_tail (count s),
    (==_iff (u16 ((s.rx_head + 1) % 256)) s.rx_tail).0 full,
  )
  | inr room ↦
      let apart : u16 ((s.rx_head + 1) % 256) ≢ s.rx_tail = ground arith in
      let few : ltb (count s) 255 ≡ true = ground arith in
      rw (room, length-going_on s.rx_ring s.rx_tail (count s), few) (push_room b v apart)
]

-- The ring after the oldest byte was taken, for `n` waiting bytes.
going_on-advance :
    (s : RxRing) (n : ℕ)
    → IsRing s
    → count s ≡ suc n
    → going_on s.rx_ring s.rx_tail (suc n)
      ≡ front s ∷ going_on s.rx_ring (advance s).rx_tail (count (advance s))
unfolding going_on
going_on-advance s n v e =
    let less : n ≡ count (advance s) = omega arith in
    let here : (s.rx_tail + 1) % 256 ≡ u16 ((s.rx_tail + 1) % 256) = omega arith in
    ap₂ (λ i k. front s ∷ going_on s.rx_ring i k) here less

pub nothing_waits : (s : RxRing) → IsRing s → is_empty s ≡ true → count s ≡ 0
nothing_waits s v none_wait = ground arith

pub something_waits : (s : RxRing) → IsRing s → is_empty s ≡ false → count s ≡ suc (count s - 1)
something_waits s v some_wait = ground arith

-- What `serial_get_byte` does to the queue: it takes the oldest byte that waits, or fails with
-- `*out` as it was if there is none.
pub data Takes : List ℕ → ℕ → List ℕ → Option ℕ → Bool → Type 0 where
  took : {b old : ℕ} {rest : List ℕ} → Takes (b ∷ rest) old rest (some b) true
  found_none : {old : ℕ} → Takes [] old [] (some old) false

-- With a place for the byte, `serial_get_byte` on a well-formed ring takes the oldest byte that
-- waits and returns true, or leaves everything and returns false if none does.
pub serial_get_byte-Takes :
    {s : RxRing} (old : ℕ)
    → IsRing s
    → Takes
        (waiting s)
        old
        (waiting (serial_get_byte (some old) s).ring)
        (serial_get_byte (some old) s).out
        (serial_get_byte (some old) s).returned
unfolding waiting serial_get_byte going_on
serial_get_byte-Takes {s} old v = elim (Bool-cases (is_empty s)) [
  | inl empty ↦ rw (empty, nothing_waits s v empty) found_none
  | inr some_wait ↦
      rw
        (
          some_wait,
          something_waits s v some_wait,
          going_on-advance s (count s - 1) v (something_waits s v some_wait),
        )
        took
]

pub get-IsRing : {s : RxRing} (out : Option ℕ) → IsRing s → IsRing (serial_get_byte out s).ring
unfolding serial_get_byte
get-IsRing none v = v
get-IsRing {s} (some old) v = ground (arith, advance-IsRing v)
