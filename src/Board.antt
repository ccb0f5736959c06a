-- ===== src/Board.antt =====
-- What the firmware sets of a pin: `GPIO_InitTypeDef` of the HAL, with the values that it uses.
use meshtastic_mini.Base.{ℕ, Bool}

pub data GpioMode : Type 0 where
  gpio_mode_output_pp : GpioMode
  gpio_mode_af_pp : GpioMode

pub data GpioPull : Type 0 where
  gpio_nopull : GpioPull
  gpio_pullup : GpioPull

pub data GpioSpeed : Type 0 where
  gpio_speed_freq_low : GpioSpeed

-- The function of a pin in the alternate mode is a number, and 0 elsewhere.
pub record GpioInit : Type 0 where
  pub mode : GpioMode
  pub pull : GpioPull
  pub speed : GpioSpeed
  pub alternate : ℕ

-- An output as the antenna switch and the light have it.
abbrev pub plain_output : GpioInit
plain_output = record {
  mode = gpio_mode_output_pp;
  pull = gpio_nopull;
  speed = gpio_speed_freq_low;
  alternate = 0;
}

-- `UART_HandleTypeDef` as `serial_init` fills it, with the sizes in bits.
pub record UartInit : Type 0 where
  pub baud_rate : ℕ
  pub word_length : ℕ
  pub stop_bits : ℕ
  pub parity : Bool
  pub sends : Bool
  pub receives : Bool
  pub hw_flow_ctl : Bool
  pub over_sampling : ℕ
  pub one_bit_sampling : Bool
  pub clock_prescaler : ℕ
