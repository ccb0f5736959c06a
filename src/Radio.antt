-- ===== src/Radio.antt =====
-- The radio of firmware/Radio: the calls that the driver makes of the HAL, and what the HAL answers.
-- The HAL is a parameter: an answer is a function of all the calls so far, the newest first.
pub mod RfCtrl
pub mod Values
pub mod Driver
pub mod Listening
pub mod Guarded
pub mod SetUp
pub mod Bytes
pub mod Receive
pub mod Polling
pub mod Frequency
pub mod Phy
pub mod Lora
pub mod Preset
mod Tests
use meshtastic_mini.Base.{ℕ, Bool, true, false, List, [], ◌∷◌}
use meshtastic_mini.Board.{GpioInit}

-- The `RADIO_` commands of the HAL that the driver sends.
pub data Command : Type 0 where
  radio_set_standby : Command
  radio_set_regulatormode : Command
  radio_clr_error : Command
  radio_set_tcxomode : Command
  radio_get_error : Command
  radio_calibrate : Command
  radio_calibrateimage : Command
  radio_set_txfallbackmode : Command
  radio_set_packettype : Command
  radio_set_rffrequency : Command
  radio_set_modulationparams : Command
  radio_set_packetparams : Command
  radio_set_bufferbaseaddress : Command
  radio_set_rfswitchmode : Command
  radio_set_paconfig : Command
  radio_set_txparams : Command
  radio_cfg_dioirq : Command
  radio_clr_irqstatus : Command
  radio_get_irqstatus : Command
  radio_set_rx : Command
  radio_set_tx : Command
  radio_get_rxbufferstatus : Command
  radio_get_packetstatus : Command

-- The bits of the SPI's two control registers that the driver sets.
pub data SpiBit : Type 0 where
  spi_cr1_mstr : SpiBit
  spi_cr1_ssi : SpiBit
  spi_cr1_ssm : SpiBit
  subghzspi_baudrateprescaler_2 : SpiBit
  spi_cr2_frxth : SpiBit
  spi_cr2_ds_0 : SpiBit
  spi_cr2_ds_1 : SpiBit
  spi_cr2_ds_2 : SpiBit

-- A call or a register access that sets up the chip around the radio. A pin is one of port A. The
-- priority is that of the radio's interrupt, and `spi_cr1_spe` the bit that turns the SPI on.
pub data SetUpCall : Type 0 where
  gpioa_clk_enable : SetUpCall
  gpio_init : ℕ → GpioInit → SetUpCall
  subghzspi_clk_enable : SetUpCall
  dsb : SetUpCall
  clear_spi_cr1_spe : SetUpCall
  set_spi_cr1_spe : SetUpCall
  write_spi_cr1 : List SpiBit → SetUpCall
  write_spi_cr2 : List SpiBit → SetUpCall
  unselect_nss : SetUpCall
  nvic_set_priority : ℕ → ℕ → SetUpCall
  exti_enable_rising_trig : ℕ → SetUpCall
  exti_enable_it : ℕ → SetUpCall
  set_radio_busy_trigger_wu_it : SetUpCall
  clear_flag_rfbusy : SetUpCall

-- A call that the driver makes. `wait_busy` is a whole `subghz_wait_busy`, and `rf_reset` the reset
-- pulse between `LL_RCC_RF_EnableReset` and `LL_RCC_RF_DisableReset`: they only wait.
pub data HalCall : Type 0 where
  set_up : SetUpCall → HalCall
  exec_set_cmd : Command → List ℕ → HalCall
  exec_get_cmd : Command → ℕ → HalCall
  write_registers : ℕ → List ℕ → HalCall
  read_register : ℕ → HalCall
  write_buffer : ℕ → List ℕ → HalCall
  read_buffer : ℕ → ℕ → HalCall
  write_pin : ℕ → Bool → HalCall
  disable_irq : HalCall
  enable_irq : HalCall
  clear_pending_irq : HalCall
  get_tick : HalCall
  wait_busy : HalCall
  rf_reset : HalCall
  delay : ℕ → HalCall

-- The answers to the newest call of a history: whether its status is `HAL_OK`, the bytes it read,
-- and the tick it returned.
pub record Hal : Type 0 where
  pub ok : List HalCall → Bool
  pub bytes : List HalCall → List ℕ
  pub tick : List HalCall → ℕ

-- The driver's variables, and the calls it has made, the newest first. `last_rssi` and `last_snr`
-- are the two's complement of their 16 and 8 bits.
pub record Radio : Type 0 where
  pub last_rssi : ℕ
  pub last_snr : ℕ
  pub rx_buf : List ℕ
  pub rx_len : ℕ
  pub rx_pending : Bool
  pub log : List HalCall

-- Calls in the order they are made.
unfoldable pub calls : List HalCall → Radio → Radio
calls [] s = s
calls (c ∷ cs) s = calls cs (record s { log = c ∷ s.log })
