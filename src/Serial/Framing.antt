-- ===== src/Serial/Framing.antt =====
-- firmware/Serial/serial_framing.c: the receiver is a state machine over the bytes of the line, the
-- sender writes a header of four bytes and the body. The static variables are the record `Framing`;
-- of the callback only matters whether it is NULL. `uart_tx` is the list of the buffers sent.
pub mod Safety
pub mod Receive
pub mod Lost
use meshtastic_mini.Base.{ℕ, ◌+◌, Bool, true, false, ltb, leb, ◌==◌, if◌then◌else◌, Option, none}
use meshtastic_mini.Base.{some, List, [], ◌∷◌, ◌++◌, bit_and, bit_or, ◌<<<◌, ◌>>>◌, u8, u16, set}
use meshtastic_mini.Base.{take, replicate}

abbrev pub serial_start1 : ℕ
serial_start1 = 0x94

abbrev pub serial_start2 : ℕ
serial_start2 = 0xc3

abbrev pub serial_max_payload : ℕ
serial_max_payload = 512

-- `enum { SYNC, LEN_MSB, LEN_LSB, BODY }`
pub data RxState : Type 0 where
  sync : RxState
  len_msb : RxState
  len_lsb : RxState
  body : RxState

pub record Framing : Type 0 where
  pub rx_state : RxState
  pub rx_len : ℕ
  pub rx_idx : ℕ
  pub rx_buf : List ℕ
  pub rx_cb : Bool

-- Static storage starts out zeroed, and SYNC is 0.
abbrev pub start : Framing
start = record {
  rx_state = sync;
  rx_len = 0;
  rx_idx = 0;
  rx_buf = replicate serial_max_payload 0;
  rx_cb = false;
}

-- The arguments of a call of the callback.
pub record Call : Type 0 where
  pub buf : List ℕ
  pub len : ℕ

-- What a call of `serial_rx_byte` does: the new state, the callback's call, the returned value.
pub record Outcome : Type 0 where
  pub next : Framing
  pub called : Option Call
  pub returned : ℕ

-- `break`, to `return 0`
abbrev quiet : Framing → Outcome
quiet s = record { next = s; called = none; returned = 0 }

-- The `switch`, over the state with its callback already stored.
unfoldable pub rx_switch : RxState → Framing → ℕ → Outcome
rx_switch sync s byte =
    if byte == serial_start1 then quiet (record s { rx_state = len_msb }) else quiet s
rx_switch len_msb s byte = quiet (record s { rx_len = u16 (byte <<< 8); rx_state = len_lsb })
rx_switch len_lsb s byte =
    let len = bit_or s.rx_len byte in
    if ltb serial_max_payload len
    then quiet (record s { rx_len = len; rx_state = sync })
    else quiet (record s { rx_len = len; rx_idx = 0; rx_state = body })
rx_switch body s byte =
    let idx = u16 (s.rx_idx + 1) in
    let buf = set s.rx_buf s.rx_idx byte in
    if leb s.rx_len idx
    then record {
      next = record s { rx_buf = buf; rx_idx = idx; rx_state = sync };
      called = if s.rx_cb then some (record { buf = buf; len = s.rx_len }) else none;
      returned = 1;
    }
    else quiet (record s { rx_buf = buf; rx_idx = idx })

unfoldable pub serial_rx_byte : Framing → ℕ → Bool → Outcome
serial_rx_byte s byte callback = rx_switch s.rx_state (record s { rx_cb = callback }) byte

-- `serial_send_packet`: the buffers handed to `uart_tx`, in order.
unfoldable pub serial_send_packet : Option (List ℕ) → ℕ → List (List ℕ)
serial_send_packet none body_len = []
serial_send_packet (some bytes) body_len =
    if ltb serial_max_payload body_len
    then []
    else (serial_start1 ∷ serial_start2 ∷ u8 (body_len >>> 8) ∷ u8 (bit_and body_len 0xff) ∷ [])
      ∷ take body_len bytes
      ∷ []

-- The packet that the callback gets: the `len` bytes at `buf`, in front of the later ones.
unfoldable pub deliver : Option Call → List (List ℕ) → List (List ℕ)
deliver none later = later
deliver (some c) later = take c.len c.buf ∷ later

-- A caller that hands the bytes of the line over one by one, with a callback: the state in the end
-- and the packets that the callback got.
unfoldable pub feed : Framing → List ℕ → Framing × List (List ℕ)
feed s [] = (s, [])
feed s (b ∷ bs) =
    let o = serial_rx_byte s b true in
    let (s', later) = feed o.next bs in (s', deliver o.called later)
