-- ===== src/Radio/Tests.antt =====
-- A radio whose HAL always succeeds, reads what it is asked for, and whose clock ticks.
use meshtastic_mini.Base.{ℕ, zero, suc, ◌+◌, ◌*◌, ◌/◌, ◌%◌, ◌^◌, ◌≤◌, ◌<◌, ◌≡◌, refl, Bool, true}
use meshtastic_mini.Base.{List, [], ◌∷◌, arith, length, replicate, some, ◌↔◌}
use meshtastic_mini.Radio.{Hal, HalCall, Radio, read_buffer}
use meshtastic_mini.Radio.Driver.{radio_tx, radio_rx_poll}
use meshtastic_mini.Radio.Values.{rf_bytes, freq_to_rf_reg, rssi_of}
use meshtastic_mini.Radio.Listening.{Clock, Obeys, irq_on, listening, went_out, tx_listens}
use meshtastic_mini.Radio.Receive.{ReadsAll, Polled, rx_poll_delivers}
use meshtastic_mini.Radio.Frequency.{register_of, rf_bytes-freq_to_rf_reg, rssi_right_iff}
use meshtastic_mini.Radio.Phy.{stm32wl_ops}
use meshtastic_mini.Radio.Lora.{Lora, params_of, lora_set_region_preset}
use meshtastic_mini.Radio.Preset.{IsTuned, lora_set_region_preset-IsTuned}

abbrev answer : List HalCall → List ℕ
answer (read_buffer off n ∷ l) = replicate n 7
answer _ = 5 ∷ 128 ∷ 0 ∷ []

abbrev good_hal : Hal
good_hal = record { ok = λ l. true; bytes = answer; tick = λ l. length l / 1000 % 2 ^ 32 }

good_hal-Clock : Clock good_hal
good_hal-Clock = record {
  micros = length;
  tick_is = λ l. refl;
  goes_on = λ c l. omega arith;
  in_time = λ c l. omega arith;
}

good_hal-Obeys : Obeys good_hal
good_hal-Obeys = record { stands_by = λ l. refl; receives = λ l. refl }

length-replicate : (n : ℕ) → length {A = ℕ} (replicate n 7) ≡ n
length-replicate zero = refl
length-replicate (suc n) = λ i. suc (length-replicate n i)

good_hal-ReadsAll : ReadsAll good_hal
good_hal-ReadsAll off n l = length-replicate n

abbrev waiting_radio : Radio
waiting_radio = record {
  last_rssi = 0;
  last_snr = 0;
  rx_buf = replicate 256 0;
  rx_len = 0;
  rx_pending = true;
  log = [];
}

abbrev room : List ℕ
room = replicate 256 0

tx_listens_example :
    (s' : Radio) × (tx_ok : Bool) × (radio_tx good_hal 6000000 (some (1 ∷ 2 ∷ [])) 2 waiting_radio
      ≡ some (s', tx_ok))
    × (irq_on s'.log ≡ true)
    × (listening good_hal s'.log ≡ went_out good_hal (1 ∷ 2 ∷ []) 2 waiting_radio)
tx_listens_example =
    tx_listens good_hal good_hal-Clock good_hal-Obeys (1 ∷ 2 ∷ []) 2 6000000 waiting_radio
      (omega arith) (omega arith)

rx_poll_delivers_example :
    (s' : Radio) × (buf' : List ℕ) × (n : ℕ) × (radio_rx_poll good_hal (some room) 256 waiting_radio
      ≡ (s', some buf', n))
    × Polled good_hal 256 waiting_radio room s' buf' n
rx_poll_delivers_example =
    rx_poll_delivers good_hal room 256 waiting_radio good_hal-ReadsAll good_hal-Obeys
      (λ e. omega arith) (omega arith) refl refl

rf_bytes-freq_to_rf_reg_example :
    (register_of (rf_bytes (freq_to_rf_reg 869525000)) * 32000000 ≤ 869525000 * 2 ^ 25)
    × (869525000 * 2 ^ 25 < (register_of (rf_bytes (freq_to_rf_reg 869525000)) + 1) * 32000000)
rf_bytes-freq_to_rf_reg_example = rf_bytes-freq_to_rf_reg 869525000 (omega arith)

rssi_right_iff_example : ((rssi_of 200 + 200 / 2) % 2 ^ 16 ≡ 0) ↔ (200 < 128)
rssi_right_iff_example = rssi_right_iff 200 (omega arith)

lora_set_region_preset-IsTuned_example :
    (l' : Lora Radio) × (lora_set_region_preset 1 4 (record {
      s_params = params_of 0 0;
      s_inited = true;
      s_ops = some (stm32wl_ops good_hal 9);
      driver = waiting_radio;
    })
      ≡ (l', true))
    × IsTuned good_hal 1 4 l'
lora_set_region_preset-IsTuned_example =
    lora_set_region_preset-IsTuned good_hal 9 1 4 (params_of 0 0) true waiting_radio (λ l. refl)
      (omega arith) (omega arith)
