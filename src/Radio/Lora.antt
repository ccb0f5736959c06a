-- ===== src/Radio/Lora.antt =====
-- firmware/Radio/lora_meshtastic.c: regions and presets, over a driver.
use meshtastic_mini.Base.{ℕ, Bool, true, false, leb, ◌==◌, not, ◌||◌, if◌then◌else◌, Option, none}
use meshtastic_mini.Base.{some, List, [], ◌∷◌, get_or}
use meshtastic_mini.Radio.Phy.{RadioPhyOps, ops_of}

pub record LoraParams : Type 0 where
  pub sf : ℕ
  pub bw_hz : ℕ
  pub cr : ℕ
  pub freq_hz : ℕ

abbrev pub region_count : ℕ
region_count = 4

abbrev pub modem_count : ℕ
modem_count = 7

abbrev pub region_freq_default : List ℕ
region_freq_default = 869525000 ∷ 906875000 ∷ 433875000 ∷ 2403000000 ∷ []

-- A preset's spreading factor, bandwidth and coding rate.
abbrev pub modem_presets : List (ℕ × ℕ × ℕ)
modem_presets =
    (7, 250000, 5)
    ∷ (8, 250000, 5)
    ∷ (9, 250000, 5)
    ∷ (10, 250000, 5)
    ∷ (11, 250000, 5)
    ∷ (12, 125000, 8)
    ∷ (12, 125000, 8)
    ∷ []

-- The static variables, those of `radio_phy.c` and the driver's.
pub record Lora (S : Type 0) : Type 0 where
  pub s_params : LoraParams
  pub s_inited : Bool
  pub s_ops : Option (RadioPhyOps S)
  pub driver : S

-- The parameters of a region and a preset.
unfoldable pub params_of : ℕ → ℕ → LoraParams
params_of region preset =
    let (sf, bw, cr) = get_or modem_presets preset (0, 0, 0) in
    record { freq_hz = get_or region_freq_default region 0; sf = sf; bw_hz = bw; cr = cr }

module _ {S : Type 0} where
  unfoldable pub radio_phy_set_ops : RadioPhyOps S → Lora S → Lora S
  radio_phy_set_ops ops l = record l { s_ops = some ops }

  unfoldable pub lora_init : Lora S → Lora S × Bool
  lora_init l =
      let default_params : LoraParams = record {
        freq_hz = 869525000;
        sf = 11;
        bw_hz = 250000;
        cr = 5;
      } in
      let (driver, done) = (ops_of l.s_ops).init l.driver in
      if l.s_inited
      then (l, true)
      else if not done
      then (record l { s_params = default_params; driver = driver }, false)
      else (record l { s_params = default_params; driver = driver; s_inited = true }, true)

  unfoldable pub lora_set_region_preset : ℕ → ℕ → Lora S → Lora S × Bool
  lora_set_region_preset region preset l =
      let p = params_of region preset in
      let ops = ops_of l.s_ops in
      let (tuned, freq_ok) = ops.set_freq p.freq_hz l.driver in
      let (set_up, lora_ok) = ops.set_lora p.sf p.bw_hz p.cr tuned in
      if leb region_count region || leb modem_count preset
      then (l, false)
      else if not freq_ok
      then (record l { s_params = p; driver = tuned }, false)
      else (record l { s_params = p; driver = set_up }, lora_ok)

  -- What a driver's `tx` leaves.
  unfoldable pub after_driver : Lora S → Option (S × Bool) → Option (Lora S × Bool)
  after_driver l none = none
  after_driver l (some (driver, sent)) = some (record l { driver = driver }, sent)

  unfoldable pub lora_tx : Option (List ℕ) → ℕ → Lora S → Option (Lora S × Bool)
  unfolding after_driver
  lora_tx none len l = some (l, false)
  lora_tx (some payload) len l = after_driver l ((ops_of l.s_ops).tx (some payload) len l.driver)

  unfoldable pub lora_rx_poll : Option (List ℕ) → ℕ → Lora S → Lora S × Option (List ℕ) × ℕ
  lora_rx_poll none max_len l = (l, none, 0)
  lora_rx_poll (some buf) max_len l =
      let (driver, out, n) = (ops_of l.s_ops).rx_poll (some buf) max_len l.driver in
      if max_len == 0 then (l, some buf, 0) else (record l { driver = driver }, out, n)

  unfoldable pub lora_last_rssi : Lora S → ℕ
  lora_last_rssi l = ((ops_of l.s_ops).get_last_rssi_snr l.driver).0

  unfoldable pub lora_last_snr : Lora S → ℕ
  lora_last_snr l = ((ops_of l.s_ops).get_last_rssi_snr l.driver).1
