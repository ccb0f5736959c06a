-- ===== src/Radio/SetUp.antt =====
-- The order of the driver's calls: what a call needs was set up before it.
pub mod Keeps
use mathlib.Core.Path.{subst}
use meshtastic_mini.Base.{ℕ, zero, suc, ◌≡◌, refl, sym, ◌∙◌, ap, arith, Bool, true, false, not}
use meshtastic_mini.Base.{◌&&◌, ◌||◌, ◌==◌, ltb, if◌then◌else◌, if_both, Bool-cases, inl, inr}
use meshtastic_mini.Base.{Option, none, some, List, [], ◌∷◌, ◌++◌, get_or}
use meshtastic_mini.Radio.{HalCall, Command, set_up, SetUpCall, exec_set_cmd, exec_get_cmd}
use meshtastic_mini.Radio.{write_registers, read_register, write_buffer, read_buffer, write_pin}
use meshtastic_mini.Radio.{disable_irq, enable_irq, clear_pending_irq, get_tick, wait_busy}
use meshtastic_mini.Radio.{rf_reset, delay, gpioa_clk_enable, gpio_init, subghzspi_clk_enable}
use meshtastic_mini.Radio.{clear_spi_cr1_spe, set_spi_cr1_spe, write_spi_cr1, write_spi_cr2}
use meshtastic_mini.Radio.{nvic_set_priority, Hal, Radio, calls, radio_get_irqstatus}
use meshtastic_mini.Radio.{radio_get_rxbufferstatus, radio_get_packetstatus}
use meshtastic_mini.Radio.Driver.{subghz_spi_init_before_reset, radio_irq_init}
use meshtastic_mini.Radio.RfCtrl.{rf_ctrl_init, rf_ctrl_set_off, rf_ctrl_set_rx, rf_ctrl_set_tx}

-- What is set up of the chip: the clock of port A, the pins 4 and 5 of the antenna switch, the SPI's
-- clock and the SPI, the radio behind a reset that came with the SPI on, and the interrupt's priority.
pub record SetUp : Type 0 where
  pub port_a : Bool
  pub pin_4 : Bool
  pub pin_5 : Bool
  pub clocked : Bool
  pub spi_on : Bool
  pub reset : Bool
  pub priority : Bool

abbrev nothing_set_up : SetUp
nothing_set_up = record {
  port_a = false;
  pin_4 = false;
  pin_5 = false;
  clocked = false;
  spi_on = false;
  reset = false;
  priority = false;
}

abbrev all_set_up : SetUp
all_set_up = record {
  port_a = true;
  pin_4 = true;
  pin_5 = true;
  clocked = true;
  spi_on = true;
  reset = true;
  priority = true;
}

unfoldable pub after_set_up : SetUpCall → SetUp → SetUp
after_set_up gpioa_clk_enable u = record u { port_a = true }
after_set_up (gpio_init n g) u = record u { pin_4 = n == 4 || u.pin_4; pin_5 = n == 5 || u.pin_5 }
after_set_up subghzspi_clk_enable u = record u { clocked = true }
after_set_up clear_spi_cr1_spe u = record u { spi_on = false }
after_set_up set_spi_cr1_spe u = record u { spi_on = true }
after_set_up (nvic_set_priority p q) u = record u { priority = true }
after_set_up _ u = u

unfoldable pub after_call : HalCall → SetUp → SetUp
after_call (set_up c) u = after_set_up c u
after_call rf_reset u = record u { reset = u.spi_on }
after_call _ u = u

unfoldable pub set_up_of : List HalCall → SetUp
set_up_of [] = nothing_set_up
set_up_of (c ∷ l) = after_call c (set_up_of l)

-- What a call of the set-up needs: a pin its port's clock, the SPI's registers their clock, and its
-- two control registers that it is off while they are written.
unfoldable pub set_up_allowed : SetUpCall → SetUp → Bool
set_up_allowed (gpio_init n g) u = u.port_a
set_up_allowed clear_spi_cr1_spe u = u.clocked
set_up_allowed set_spi_cr1_spe u = u.clocked
set_up_allowed (write_spi_cr1 bits) u = u.clocked && not u.spi_on
set_up_allowed (write_spi_cr2 bits) u = u.clocked && not u.spi_on
set_up_allowed _ u = true

-- What any call needs: a level its pin, an interrupt its priority, and a call that talks to the radio
-- the SPI and the reset.
unfoldable pub allowed : HalCall → SetUp → Bool
allowed (set_up c) u = set_up_allowed c u
allowed (exec_set_cmd c args) u = u.spi_on && u.reset
allowed (exec_get_cmd c n) u = u.spi_on && u.reset
allowed (write_registers a b) u = u.spi_on && u.reset
allowed (read_register a) u = u.spi_on && u.reset
allowed (write_buffer off b) u = u.spi_on && u.reset
allowed (read_buffer off n) u = u.spi_on && u.reset
allowed (write_pin n v) u = if n == 4 then u.pin_4 else if n == 5 then u.pin_5 else false
allowed enable_irq u = u.priority
allowed rf_reset u = u.spi_on
allowed _ u = true

unfoldable pub in_order : List HalCall → Bool
in_order [] = true
in_order (c ∷ l) = allowed c (set_up_of l) && in_order l

-- A history in order, behind which all is set up.
abbrev pub IsSetUp : Radio → Type 0
IsSetUp s = (set_up_of s.log ≡ all_set_up) × (in_order s.log ≡ true)

-- The calls that set nothing up, of the pins the antenna's.
unfoldable pub is_plain : HalCall → Bool
is_plain (set_up c) = false
is_plain (write_pin n v) = n == 4 || n == 5
is_plain _ = true

unfoldable pub all_plain : List HalCall → Bool
all_plain [] = true
all_plain (c ∷ cs) = is_plain c && all_plain cs

plain_allowed :
    (c : HalCall)
    → is_plain c ≡ true
    → (after_call c all_set_up ≡ all_set_up) × (allowed c all_set_up ≡ true)
unfolding is_plain after_call allowed
plain_allowed (set_up c) p = absurd (cc)
plain_allowed (exec_set_cmd c args) p = (refl, refl)
plain_allowed (exec_get_cmd c n) p = (refl, refl)
plain_allowed (write_registers a b) p = (refl, refl)
plain_allowed (read_register a) p = (refl, refl)
plain_allowed (write_buffer off b) p = (refl, refl)
plain_allowed (read_buffer off n) p = (refl, refl)
plain_allowed (write_pin n v) p = (refl, ground arith)
plain_allowed disable_irq p = (refl, refl)
plain_allowed enable_irq p = (refl, refl)
plain_allowed clear_pending_irq p = (refl, refl)
plain_allowed get_tick p = (refl, refl)
plain_allowed wait_busy p = (refl, refl)
plain_allowed rf_reset p = (refl, refl)
plain_allowed (delay n) p = (refl, refl)

-- Plain calls keep a chip that is set up so.
pub calls-IsSetUp :
    (cs : List HalCall) (s : Radio) → all_plain cs ≡ true → IsSetUp s → IsSetUp (calls cs s)
unfolding calls all_plain set_up_of in_order
calls-IsSetUp [] s plain v = v
calls-IsSetUp (c ∷ cs) s plain (up, order) =
    let first : is_plain c ≡ true = ground arith in
    let others : all_plain cs ≡ true = ground arith in
    let (keeps, allows) = plain_allowed c first in
    calls-IsSetUp cs (record s { log = c ∷ s.log }) others
      (ap (after_call c) up ∙ keeps, rw (up, allows) order)
