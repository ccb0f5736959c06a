-- ===== src/Radio/Phy.antt =====
-- firmware/Radio/radio_phy.c: the driver behind a table of operations, or the default one without.
use meshtastic_mini.Base.{ℕ, Bool, true, Option, none, some, List}
use meshtastic_mini.Radio.{Hal, Radio}
use meshtastic_mini.Radio.Driver.{radio_init, radio_set_freq, radio_set_lora, radio_tx}
use meshtastic_mini.Radio.Driver.{radio_rx_poll}

-- A driver with the state `S`. A `tx` of `none` has not returned.
pub record RadioPhyOps (S : Type 0) : Type 0 where
  pub init : S → S × Bool
  pub set_freq : ℕ → S → S × Bool
  pub set_lora : ℕ → ℕ → ℕ → S → S × Bool
  pub tx : Option (List ℕ) → ℕ → S → Option (S × Bool)
  pub rx_poll : Option (List ℕ) → ℕ → S → S × Option (List ℕ) × ℕ
  pub get_last_rssi_snr : S → ℕ × ℕ

unfoldable pub default_ops : (S : Type 0) → RadioPhyOps S
default_ops S = record {
  init = λ s. (s, true);
  set_freq = λ f s. (s, true);
  set_lora = λ sf bw cr s. (s, true);
  tx = λ d l s. some (s, true);
  rx_poll = λ b m s. (s, b, 0);
  get_last_rssi_snr = λ s. (0, 0);
}

unfoldable pub ops_of : {S : Type 0} → Option (RadioPhyOps S) → RadioPhyOps S
ops_of {S} none = default_ops S
ops_of (some ops) = ops

-- `stm32wl_ops`, with the fuel for its polling loop.
unfoldable pub stm32wl_ops : Hal → ℕ → RadioPhyOps Radio
stm32wl_ops hal fuel = record {
  init = radio_init hal;
  set_freq = radio_set_freq hal;
  set_lora = radio_set_lora hal;
  tx = radio_tx hal fuel;
  rx_poll = radio_rx_poll hal;
  get_last_rssi_snr = λ s. (s.last_rssi, s.last_snr);
}
