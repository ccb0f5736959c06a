-- ===== src/Core/Main/Tunes.antt =====
-- What the start-up tunes the radio to.
use mathlib.Core.Path.{subst}
use meshtastic_mini.Base.{ℕ, ◌≡◌, refl, sym, ap, arith, Bool, true, some, List, if_both, not}
use meshtastic_mini.Crypto.{Cryp}
use meshtastic_mini.Config.{FlashHal}
use meshtastic_mini.Radio.{Hal, HalCall, Radio}
use meshtastic_mini.Radio.Phy.{ops_of, stm32wl_ops}
use meshtastic_mini.Radio.Lora.{Lora, lora_init, lora_set_region_preset, radio_phy_set_ops}
use meshtastic_mini.Radio.Preset.{IsTuned, lora_set_region_preset-IsTuned}
use meshtastic_mini.Core.MainLoop.{Node}
use meshtastic_mini.Core.MainLoop.Receive.{mesh_mini_init}
use meshtastic_mini.Core.Main.{main_start, radio_stm32wl_register}

-- The two steps of the radio's start over the STM32WL driver.
abbrev OnDriver : Hal → ℕ → Lora Radio → Type 0
OnDriver hal fuel l = l.s_ops ≡ some (stm32wl_ops hal fuel)

module _ (hal : Hal) (fuel : ℕ) (ok : (l : List HalCall) → hal.ok l ≡ true) where
  preset-IsTuned :
      (l : Lora Radio) → OnDriver hal fuel l → IsTuned hal 0 4 (lora_set_region_preset 0 4 l).0
  preset-IsTuned l e =
      let (l', done, tuned) =
        lora_set_region_preset-IsTuned hal fuel 0 4 l.s_params l.s_inited l.driver ok (omega arith)
          (omega arith) in
      let same : record l { s_ops = some (stm32wl_ops hal fuel) } ≡ l =
        ap (λ o. record l { s_ops = o }) (sym e) in
      subst (λ m. IsTuned hal 0 4 (lora_set_region_preset 0 4 m).0) same
        (subst (λ (r : Lora Radio × Bool). IsTuned hal 0 4 r.0) (sym done) tuned)

  init-OnDriver : (l : Lora Radio) → OnDriver hal fuel l → OnDriver hal fuel (lora_init l).0
  unfolding lora_init
  init-OnDriver l e =
      if_both (λ (r : Lora Radio × Bool). OnDriver hal fuel r.0) l.s_inited _ _ e
        (if_both (λ (r : Lora Radio × Bool). OnDriver hal fuel r.0)
          (not ((ops_of l.s_ops).init l.driver).1) _ _ e e)

  -- Over a HAL whose calls all succeed, the start-up leaves the radio listening at the parameters of the
  -- tables for EU_868 and LONG_FAST, whatever region and preset the stored configuration has.
  pub main_start-IsTuned :
      {cryp : Cryp} (flash : FlashHal) (f : flash.Flash) (n : Node cryp Radio)
      → IsTuned hal 0 4 (main_start hal fuel flash f n).lora
  unfolding main_start mesh_mini_init radio_stm32wl_register radio_phy_set_ops
  main_start-IsTuned flash f n =
      let registered = radio_stm32wl_register hal fuel n.lora in
      preset-IsTuned (lora_init registered).0 (init-OnDriver registered refl)
