-- ===== src/Core/Uart.antt =====
-- The output of firmware/Core/serial_io.c. `HAL_UART_Transmit` is the end of the model: the state
-- holds the bytes handed to it, in order. Its status is ignored in the source.
pub mod Decimal
mod Tests
use meshtastic_mini.Base.{ℕ, zero, suc, ◌+◌, ◌-◌, ◌/◌, ◌%◌, ◌^◌, Bool, true, false, ltb, leb, ◌==◌}
use meshtastic_mini.Base.{not, ◌||◌, if◌then◌else◌, Option, none, some, List, [], ◌∷◌, ◌++◌, take}
use meshtastic_mini.Base.{u8, u16}

-- `instance_set` is `huart1.Instance != NULL`.
pub record Uart : Type 0 where
  pub instance_set : Bool
  pub handed : List ℕ

-- `serial_init`: the handle names USART1, also if the HAL's initialisation fails.
unfoldable pub serial_init : Uart → Uart
serial_init u = record u { instance_set = true }

unfoldable pub transmit : List ℕ → Uart → Uart
transmit bytes u = record u { handed = u.handed ++ bytes }

-- The loop of `serial_puts`, with `left` rounds to go: the bytes of a C string up to the NUL.
unfoldable pub puts_len : List ℕ → ℕ → ℕ
puts_len s zero = 0
puts_len [] (suc left) = 0
puts_len (c ∷ s) (suc left) = if c == 0 then 0 else suc (puts_len s left)

unfoldable pub serial_puts : Option (List ℕ) → Uart → Uart
serial_puts none u = u
serial_puts (some s) u =
    let n = puts_len s 256 in
    if not u.instance_set then u else if ltb 0 n then transmit (take n s) u else u

unfoldable pub serial_write : Option (List ℕ) → ℕ → Uart → Uart
serial_write none len u = u
serial_write (some bytes) len u =
    if not u.instance_set || len == 0 then u else transmit (take len bytes) u

-- The loop that divides, with `left` places of `digits[5]` free: the digits, the lowest first.
unfoldable pub digit_loop : ℕ → ℕ → List ℕ
digit_loop zero u = []
digit_loop (suc left) u = if u == 0 then [] else (u % 10) ∷ digit_loop left (u / 10)

-- The loop that stores the digits from the highest down, before the bytes of `rest`.
unfoldable pub store_loop : List ℕ → List ℕ → List ℕ
store_loop [] rest = rest
store_loop (d ∷ digits) rest = store_loop digits (u8 (48 + d) ∷ rest)

-- The bytes in `buf` for the absolute value.
unfoldable pub decimal : ℕ → List ℕ
decimal u = if u == 0 then 48 ∷ [] else store_loop (digit_loop 5 u) []

-- The bytes in `buf`, for an `int16_t` in two's complement.
unfoldable pub int16_text : ℕ → List ℕ
int16_text v = if leb (2 ^ 15) v then 45 ∷ decimal (2 ^ 16 - v) else decimal v

unfoldable pub serial_put_int16 : ℕ → Uart → Uart
serial_put_int16 v u = if not u.instance_set then u else transmit (int16_text v) u

-- The retargeted `uart_tx`
unfoldable pub uart_tx : Option (List ℕ) → ℕ → Uart → Uart
uart_tx none len u = u
uart_tx (some bytes) len u = if not u.instance_set then u else transmit (take len bytes) u
