-- ===== src/Core/Led.antt =====
-- The status light of firmware/Core/led.c, in the build with the HAL. `HAL_GetTick` is an argument,
-- and the pin is part of the state: the light is on while it is low.
pub mod Blinks
mod Tests
use meshtastic_mini.Base.{ℕ, ◌+◌, ◌-◌, ◌%◌, ◌^◌, Bool, true, not, leb, if◌then◌else◌}

abbrev pub led_half_period_ms : ℕ
led_half_period_ms = 500

pub record Led : Type 0 where
  pub led_last_toggle_ms : ℕ
  pub pin_high : Bool

unfoldable pub led_init : Led → Led
led_init s = record { led_last_toggle_ms = 0; pin_high = true }

-- The test of `led_tick`, a difference of `uint32_t`.
unfoldable pub is_due : ℕ → Led → Bool
is_due now s = leb led_half_period_ms ((now + 2 ^ 32 - s.led_last_toggle_ms) % 2 ^ 32)

unfoldable pub led_tick : ℕ → Led → Led
led_tick now s =
    if is_due now s then record { led_last_toggle_ms = now; pin_high = not s.pin_high } else s

unfoldable pub led_toggle_from_isr : Led → Led
led_toggle_from_isr s = record s { pin_high = not s.pin_high }
