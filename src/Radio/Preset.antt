-- ===== src/Radio/Preset.antt =====
-- A region and a preset, from the tables down to the chip.
use meshtastic_mini.Base.{ℕ, ◌<◌, ◌≡◌, refl, Bool, true, false, leb, some, List, [], ◌∷◌, arith}
use meshtastic_mini.Base.{◌++◌, zero, suc, ◌+◌, ltb, get_or, ap, ◌∙◌, if◌then◌else◌}
use meshtastic_mini.Radio.{Hal, HalCall, Radio, exec_set_cmd, radio_set_rffrequency}
use meshtastic_mini.Radio.{radio_set_modulationparams, calls, wait_busy, write_registers}
use meshtastic_mini.Radio.{radio_set_packetparams}
use meshtastic_mini.Radio.Driver.{radio_set_freq, radio_set_lora}
use meshtastic_mini.Radio.Values.{set_standby, set_rx, packet_bytes, freq_to_rf_reg, rf_bytes}
use meshtastic_mini.Radio.Values.{modulation_bytes, bw_to_param, cr_to_param}
use meshtastic_mini.Radio.Lora.{region_freq_default, Lora, LoraParams, params_of}
use meshtastic_mini.Radio.Lora.{lora_set_region_preset}
use meshtastic_mini.Radio.RfCtrl.{rf_ctrl_set_rx}
use meshtastic_mini.Radio.Phy.{ops_of, stm32wl_ops}
use meshtastic_mini.Radio.Listening.{listening, mode, mode_after, pin, is_receiving}

-- The arguments of the newest frequency command and of the newest modulation command.
unfoldable pub frequency_sent : List HalCall → List ℕ
frequency_sent [] = []
frequency_sent (exec_set_cmd radio_set_rffrequency b ∷ l) = b
frequency_sent (_ ∷ l) = frequency_sent l

unfoldable pub modulation_sent : List HalCall → List ℕ
modulation_sent [] = []
modulation_sent (exec_set_cmd radio_set_modulationparams b ∷ l) = b
modulation_sent (_ ∷ l) = modulation_sent l

-- What the regions EU_868, US_915, EU_433 and LORA_24 stand for: the frequency in Hz, and the four
-- bytes of its register, in steps of 32 MHz / 2 ^ 25.
unfoldable pub region_hz : ℕ → ℕ
region_hz zero = 869525000
region_hz (suc zero) = 906875000
region_hz (suc (suc zero)) = 433875000
region_hz _ = 2403000000

unfoldable pub region_bytes : ℕ → List ℕ
region_bytes zero = 0x36 ∷ 0x58 ∷ 0x66 ∷ 0x66 ∷ []
region_bytes (suc zero) = 0x38 ∷ 0xae ∷ 0x00 ∷ 0x00 ∷ []
region_bytes (suc (suc zero)) = 0x1b ∷ 0x1e ∷ 0x00 ∷ 0x00 ∷ []
region_bytes _ = 0x96 ∷ 0x30 ∷ 0x00 ∷ 0x00 ∷ []

-- What the presets stand for, of which the first five, SHORT_FAST to LONG_FAST, have the spreading
-- factors 7 to 11 at 250 kHz and the rate 4/5, and the two slow ones 12 at 125 kHz and 4/8: the
-- parameters, and the four bytes of the modulation, with the low data rate in the last.
unfoldable pub preset_params : ℕ → ℕ → LoraParams
preset_params hz preset =
    if ltb preset 5
    then record { sf = 7 + preset; bw_hz = 250000; cr = 5; freq_hz = hz }
    else record { sf = 12; bw_hz = 125000; cr = 8; freq_hz = hz }

unfoldable pub preset_bytes : ℕ → List ℕ
preset_bytes preset = if ltb preset 5 then (7 + preset) ∷ 5 ∷ 1 ∷ 0 ∷ [] else 12 ∷ 4 ∷ 4 ∷ 1 ∷ []

-- The radio listens, and the parameters that are kept and those that were sent are what the region and
-- the preset stand for.
pub record IsTuned (hal : Hal) (region preset : ℕ) (l : Lora Radio) : Type 0 where
  pub kept : l.s_params ≡ preset_params (region_hz region) preset
  pub frequency : frequency_sent l.driver.log ≡ region_bytes region
  pub modulation : modulation_sent l.driver.log ≡ preset_bytes preset
  pub listens : listening hal l.driver.log ≡ true

-- The tables have what a region and a preset stand for.
region-eq :
    (region : ℕ)
    → region < 4
    → (get_or region_freq_default region 0 ≡ region_hz region)
      × (rf_bytes (freq_to_rf_reg (get_or region_freq_default region 0)) ≡ region_bytes region)
unfolding region_hz region_bytes rf_bytes freq_to_rf_reg
region-eq zero known = (refl, refl)
region-eq (suc zero) known = (refl, refl)
region-eq (suc (suc zero)) known = (refl, refl)
region-eq (suc (suc (suc zero))) known = (refl, refl)
region-eq (suc (suc (suc (suc region)))) known = absurd (omega arith)

abbrev Fits : ℕ → ℕ → Type 0
Fits region preset =
    let p = params_of region preset in
    (p ≡ preset_params (get_or region_freq_default region 0) preset)
    × (modulation_bytes p.sf p.bw_hz p.cr ≡ preset_bytes preset)

preset-eq : (region preset : ℕ) → preset < 7 → Fits region preset
unfolding params_of preset_params preset_bytes modulation_bytes bw_to_param cr_to_param
preset-eq region zero known = (refl, refl)
preset-eq region (suc zero) known = (refl, refl)
preset-eq region (suc (suc zero)) known = (refl, refl)
preset-eq region (suc (suc (suc zero))) known = (refl, refl)
preset-eq region (suc (suc (suc (suc zero)))) known = (refl, refl)
preset-eq region (suc (suc (suc (suc (suc zero))))) known = (refl, refl)
preset-eq region (suc (suc (suc (suc (suc (suc zero)))))) known = (refl, refl)
preset-eq region (suc (suc (suc (suc (suc (suc (suc preset))))))) known = absurd (omega arith)

module _ (hal : Hal) (ok : (l : List HalCall) → hal.ok l ≡ true) where
  abbrev retuned : ℕ → Radio → Radio
  retuned freq s =
      calls
        (set_standby
            ∷ exec_set_cmd radio_set_rffrequency (rf_bytes (freq_to_rf_reg freq))
            ∷ wait_busy
            ∷ rf_ctrl_set_rx
          ++ set_rx ∷ [])
        s

  abbrev set_up : ℕ → ℕ → ℕ → Radio → Radio
  set_up sf bw cr s =
      calls
        (set_standby
            ∷ exec_set_cmd radio_set_modulationparams (modulation_bytes sf bw cr)
            ∷ exec_set_cmd radio_set_packetparams (packet_bytes 0xff)
            ∷ write_registers 0x0740 (0x2b ∷ 0x44 ∷ [])
            ∷ wait_busy
            ∷ rf_ctrl_set_rx
          ++ set_rx ∷ [])
        s

  radio_set_freq_ok : (freq : ℕ) (s : Radio) → radio_set_freq hal freq s ≡ (retuned freq s, true)
  unfolding radio_set_freq calls rf_ctrl_set_rx
  radio_set_freq_ok freq s =
      rw
        (ok (
          exec_set_cmd radio_set_rffrequency (rf_bytes (freq_to_rf_reg freq))
          ∷ set_standby
          ∷ s.log))
        refl

  radio_set_lora_ok :
      (sf bw cr : ℕ) (s : Radio) → radio_set_lora hal sf bw cr s ≡ (set_up sf bw cr s, true)
  unfolding radio_set_lora calls rf_ctrl_set_rx
  radio_set_lora_ok sf bw cr s =
      let first =
        exec_set_cmd radio_set_modulationparams (modulation_bytes sf bw cr) ∷ set_standby ∷ s.log in
      rw (ok first, ok (exec_set_cmd radio_set_packetparams (packet_bytes 0xff) ∷ first)) refl

set_up-IsTuned :
    (hal : Hal) (region preset : ℕ) (inited : Bool) (fuel : ℕ) (driver : Radio)
    → (ok : (l : List HalCall) → hal.ok l ≡ true) → region < 4
    → preset < 7
    → let p = params_of region preset in
      IsTuned hal region preset (record {
        s_params = p;
        s_inited = inited;
        s_ops = some (stm32wl_ops hal fuel);
        driver = set_up hal ok p.sf p.bw_hz p.cr (retuned hal ok p.freq_hz driver);
      })
unfolding calls frequency_sent modulation_sent listening mode mode_after pin is_receiving params_of
    rf_ctrl_set_rx
set_up-IsTuned hal region preset inited fuel driver ok known known' =
    let (hz, register) = region-eq region known in
    let (params, modulation) = preset-eq region preset known' in
    record {
      kept = params ∙ ap (λ f. preset_params f preset) hz;
      frequency = register;
      modulation = modulation;
      listens = rw (ok _) refl;
    }

-- Over the STM32WL driver whose calls all succeed, `lora_set_region_preset` of one of the 4 regions
-- and the 7 presets returns true, with the radio listening at what the region and the preset stand
-- for: 869.525, 906.875, 433.875 and 2403 MHz, and the modulations of `preset_params`.
pub lora_set_region_preset-IsTuned :
    (hal : Hal) (fuel region preset : ℕ) (p : LoraParams) (inited : Bool) (driver : Radio)
    → ((l : List HalCall) → hal.ok l ≡ true)
    → region < 4
    → preset < 7
    → (l' : Lora Radio) × (lora_set_region_preset region preset (record {
      s_params = p;
      s_inited = inited;
      s_ops = some (stm32wl_ops hal fuel);
      driver = driver;
    })
        ≡ (l', true))
      × IsTuned hal region preset l'
unfolding lora_set_region_preset ops_of stm32wl_ops
lora_set_region_preset-IsTuned hal fuel region preset p inited driver ok known known' =
    let no_region : leb 4 region ≡ false = ground arith in
    let no_preset : leb 7 preset ≡ false = ground arith in
    let q = params_of region preset in
    (
      _,
      rw
          (
            no_region,
            no_preset,
            radio_set_freq_ok hal ok q.freq_hz driver,
            radio_set_lora_ok hal ok q.sf q.bw_hz q.cr (retuned hal ok q.freq_hz driver),
          )
          refl,
      set_up-IsTuned hal region preset inited fuel driver ok known known',
    )
