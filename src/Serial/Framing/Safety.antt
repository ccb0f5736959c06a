-- ===== src/Serial/Framing/Safety.antt =====
-- The receiver never writes outside its buffer, whatever comes over the line.
use meshtastic_mini.Base.{ℕ, ◌+◌, ◌*◌, ◌≤◌, ◌<◌, ◌≡◌, Bool, true, List, [], ◌∷◌, ◌⊎◌, arith, refl}
use meshtastic_mini.Base.{bit_or, bit_or_above, length, length-set, AllBytes}
use meshtastic_mini.Serial.Framing.{RxState, Framing, sync, len_msb, len_lsb, body, start}
use meshtastic_mini.Serial.Framing.{rx_switch, serial_rx_byte, feed}

-- What each state of the machine guarantees of the variables.
abbrev pub Holds : RxState → ℕ → ℕ → Type 0
Holds sync len idx = Unit
Holds len_msb len idx = Unit
Holds len_lsb len idx = (hi : ℕ) × (len ≡ hi * 256) × (hi < 256)
Holds body len idx = (len ≤ 512) × ((idx < len) ⊎ (idx ≡ 0))

pub record IsFraming (s : Framing) : Type 0 where
  pub full_size : length s.rx_buf ≡ 512
  pub in_state : Holds s.rx_state s.rx_len s.rx_idx

pub start-IsFraming : IsFraming start
start-IsFraming = record { full_size = refl; in_state = tt }

-- The bytes of the length field, joined.
pub join_len : (hi lo : ℕ) → lo < 256 → bit_or (hi * 256) lo ≡ hi * 256 + lo
join_len hi lo h = omega (arith, bit_or_above 8 lo hi h)

switch-IsFraming :
    (q : RxState) (len idx : ℕ) (buf : List ℕ) (cb : Bool) (b : ℕ)
    → length buf ≡ 512
    → Holds q len idx
    → b < 256
    → IsFraming
        (rx_switch q
          (record { rx_state = q; rx_len = len; rx_idx = idx; rx_buf = buf; rx_cb = cb })
          b).next
unfolding rx_switch
switch-IsFraming sync len idx buf cb b full h small = ground arith
switch-IsFraming len_msb len idx buf cb b full h small = record {
  full_size = full;
  in_state = (b, omega arith, small);
}
switch-IsFraming len_lsb len idx buf cb b full h small = ground arith
switch-IsFraming body len idx buf cb b full h small = ground (arith, length-set buf idx b)

-- Every byte keeps the receiver well-formed: its buffer keeps 512 bytes, and before a byte of a
-- body is stored the index lies inside the buffer.
pub serial_rx_byte-IsFraming :
    (s : Framing) (b : ℕ) (cb : Bool)
    → IsFraming s
    → b < 256
    → IsFraming (serial_rx_byte s b cb).next
unfolding serial_rx_byte
serial_rx_byte-IsFraming s b cb v small =
    switch-IsFraming s.rx_state s.rx_len s.rx_idx s.rx_buf cb b v.full_size v.in_state small

pub feed-IsFraming :
    (bs : List ℕ) (s : Framing) → AllBytes bs → IsFraming s → IsFraming (feed s bs).0
unfolding feed
feed-IsFraming [] s w f = f
feed-IsFraming (b ∷ bs) s w f =
    feed-IsFraming bs (serial_rx_byte s b true).next w.1 (serial_rx_byte-IsFraming s b true f w.0)

in_buffer : (q : RxState) (len idx : ℕ) → Holds q len idx → q ≡ body → idx < 512
in_buffer body len idx h e = ground arith
in_buffer sync len idx h e = cc
in_buffer len_msb len idx h e = cc
in_buffer len_lsb len idx h e = cc

-- Whatever bytes came over the line since start-up, the next byte of a body is stored inside the
-- buffer of 512 bytes.
pub never_overflows :
    (line : List ℕ)
    → AllBytes line
    → let s = (feed start line).0 in s.rx_state ≡ body → s.rx_idx < length s.rx_buf
never_overflows line v e = omega (
  arith,
  (feed-IsFraming line start v start-IsFraming).full_size,
  in_buffer _ _ _ (feed-IsFraming line start v start-IsFraming).in_state e,
)
