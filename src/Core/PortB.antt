-- ===== src/Core/PortB.antt =====
-- The setting up of the UART in firmware/Core/serial_io.c and of the light in firmware/Core/led.c: calls
-- of the HAL on port B and USART1, in their order. What `HAL_UART_Init` returns is an argument; it calls
-- `HAL_UART_MspInit` first.
use meshtastic_mini.Base.{ℕ, Bool, true, false, not, ◌&&◌, if◌then◌else◌, List, [], ◌∷◌, ◌++◌, ◌≡◌}
use meshtastic_mini.Base.{refl}
use meshtastic_mini.Board.{GpioInit, UartInit, plain_output, gpio_mode_af_pp, gpio_pullup}
use meshtastic_mini.Board.{gpio_speed_freq_low}

pub data PortBCall : Type 0 where
  gpiob_clk_enable : PortBCall
  usart1_clk_from_pclk2 : PortBCall
  usart1_clk_enable : PortBCall
  gpio_init : ℕ → GpioInit → PortBCall
  gpio_write_pin : ℕ → Bool → PortBCall
  uart_init : UartInit → PortBCall
  uart_enable_it_rxne : PortBCall
  usart1_set_priority : ℕ → PortBCall
  usart1_enable_irq : PortBCall

-- `HAL_UART_MspInit`, for a handle that is that of USART1 or not. The two pins are set up by one call.
unfoldable hal_uart_msp_init : Bool → List PortBCall
hal_uart_msp_init is_usart1 =
    let g : GpioInit = record {
      mode = gpio_mode_af_pp;
      pull = gpio_pullup;
      speed = gpio_speed_freq_low;
      alternate = 7;
    } in
    if not is_usart1
    then []
    else usart1_clk_from_pclk2
      ∷ usart1_clk_enable
      ∷ gpiob_clk_enable
      ∷ gpio_init 6 g
      ∷ gpio_init 7 g
      ∷ []

-- The settings of `serial_init`: 115200 baud, 8 bits, no parity, one stop bit.
abbrev huart1_init : UartInit
huart1_init = record {
  baud_rate = 115200;
  word_length = 8;
  stop_bits = 1;
  parity = false;
  sends = true;
  receives = true;
  hw_flow_ctl = false;
  over_sampling = 16;
  one_bit_sampling = false;
  clock_prescaler = 1;
}

-- The calls of `serial_init`, by what `HAL_UART_Init` returns.
unfoldable serial_init_calls : Bool → List PortBCall
serial_init_calls init_ok =
    hal_uart_msp_init true
    ++ uart_init huart1_init
      ∷ (if init_ok
          then uart_enable_it_rxne ∷ usart1_set_priority 2 ∷ usart1_enable_irq ∷ []
          else [])

-- The calls of `led_init`.
unfoldable led_init_calls : List PortBCall
led_init_calls = gpiob_clk_enable ∷ gpio_init 5 plain_output ∷ gpio_write_pin 5 true ∷ []

-- The calls on port B from the reset to the loop: `serial_init` and then `led_init`.
unfoldable port_b_calls : Bool → List PortBCall
port_b_calls init_ok = serial_init_calls init_ok ++ led_init_calls

-- The interrupt of USART1 is on behind these calls.
unfoldable rx_irq_on : List PortBCall → Bool
rx_irq_on [] = false
rx_irq_on (usart1_enable_irq ∷ calls) = true
rx_irq_on (_ ∷ calls) = rx_irq_on calls

-- The calls come in order, by what is on before them: the port's clock, the UART's, and the UART: a pin
-- is configured with the clock of the port on, the UART initialised with its own, and its interrupts
-- enabled behind that.
unfoldable in_order : Bool → Bool → Bool → List PortBCall → Bool
in_order port clocked ready [] = true
in_order port clocked ready (gpiob_clk_enable ∷ calls) = in_order true clocked ready calls
in_order port clocked ready (usart1_clk_enable ∷ calls) = in_order port true ready calls
in_order port clocked ready (gpio_init n g ∷ calls) = port && in_order port clocked ready calls
in_order port clocked ready (gpio_write_pin n v ∷ calls) = port && in_order port clocked ready calls
in_order port clocked ready (uart_init u ∷ calls) =
    (port && clocked) && in_order port clocked true calls
in_order port clocked ready (uart_enable_it_rxne ∷ calls) =
    ready && in_order port clocked ready calls
in_order port clocked ready (usart1_enable_irq ∷ calls) = ready && in_order port clocked ready calls
in_order port clocked ready (_ ∷ calls) = in_order port clocked ready calls

-- Whatever `HAL_UART_Init` returns, the calls come in order, and the interrupt that fills the ring is on
-- exactly if it succeeded.
port_b_calls-in_order :
    (init_ok : Bool)
    → (in_order false false false (port_b_calls init_ok) ≡ true)
      × (rx_irq_on (port_b_calls init_ok) ≡ init_ok)
unfolding in_order rx_irq_on port_b_calls serial_init_calls led_init_calls hal_uart_msp_init
port_b_calls-in_order true = (refl, refl)
port_b_calls-in_order false = (refl, refl)
