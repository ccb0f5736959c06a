-- ===== src/Core/Main/Ordered.antt =====
-- The calls of the radio's driver from the reset on.
use mathlib.Core.Path.{subst}
use meshtastic_mini.Base.{ℕ, ◌≡◌, refl, sym, ap, Bool, false, true, some, [], not, leb, ◌||◌}
use meshtastic_mini.Base.{if_both, Returns, ok-Returns}
use meshtastic_mini.Crypto.{Cryp}
use meshtastic_mini.Config.{FlashHal}
use meshtastic_mini.Radio.{Hal, Radio}
use meshtastic_mini.Radio.Driver.{rx_cplt_callback, radio_set_freq}
use meshtastic_mini.Radio.Guarded.{IfReturns, returned_state}
use meshtastic_mini.Radio.SetUp.{IsSetUp, in_order}
use meshtastic_mini.Radio.SetUp.Keeps.{radio_init-IsSetUp, set_freq-IsSetUp, set_lora-IsSetUp}
use meshtastic_mini.Radio.SetUp.Keeps.{tx-IsSetUp, rx_poll-IsSetUp}
use meshtastic_mini.Radio.Phy.{ops_of, stm32wl_ops}
use meshtastic_mini.Radio.Lora.{Lora, radio_phy_set_ops, lora_init, lora_set_region_preset}
use meshtastic_mini.Radio.Lora.{params_of, region_count, modem_count}
use meshtastic_mini.Core.MainLoop.{Node}
use meshtastic_mini.Core.MainLoop.Receive.{mesh_mini_init}
use meshtastic_mini.Core.MainLoop.Driver.{stm32wl_ops-IsDriver}
use meshtastic_mini.Core.MainLoop.Driven.{KeepsDriver, mesh_mini_loop-Has}
use meshtastic_mini.Core.MainLoop.Reachable.{Reachable, began, went_round, interrupted}
use meshtastic_mini.Core.Main.{main_start, radio_stm32wl_register}

-- What the radio's interrupt does to the driver: its handler calls the callback.
abbrev pub Receives : Radio → Radio → Type 0
Receives s s' = s' ≡ rx_cplt_callback s

module _ (hal : Hal) (fuel : ℕ) where
  IsSetUp-KeepsDriver : KeepsDriver (stm32wl_ops hal fuel) IsSetUp
  unfolding stm32wl_ops
  IsSetUp-KeepsDriver = record {
    sends = λ buf len s r small v e.
        returned_state (subst (IfReturns IsSetUp) e (tx-IsSetUp hal fuel buf len s v));
    polls = λ buf s v. rx_poll-IsSetUp hal buf 256 s v;
  }

  -- The STM32WL driver, in a state in which all is set up.
  abbrev OnAir : Lora Radio → Type 0
  OnAir l = (l.s_ops ≡ some (stm32wl_ops hal fuel)) × IsSetUp l.driver

  started-OnAir :
      (l : Lora Radio)
      → l.s_inited ≡ false
      → in_order l.driver.log ≡ true
      → OnAir (lora_init (radio_stm32wl_register hal fuel l)).0
  unfolding lora_init radio_stm32wl_register radio_phy_set_ops ops_of stm32wl_ops
  started-OnAir l first order = rw first (
      if_both (λ (r : Lora Radio × Bool). OnAir r.0) _ _ _
        (refl, radio_init-IsSetUp hal l.driver order) (refl, radio_init-IsSetUp hal l.driver order))

  registered-OnAir :
      (region preset : ℕ) (l : Lora Radio)
      → IsSetUp l.driver
      → OnAir
          (lora_set_region_preset region preset
            (record l { s_ops = some (stm32wl_ops hal fuel) })).0
  unfolding lora_set_region_preset ops_of stm32wl_ops
  registered-OnAir region preset l v =
      let p = params_of region preset in
      let tuned = set_freq-IsSetUp hal p.freq_hz l.driver v in
      let rated = set_lora-IsSetUp hal p.sf p.bw_hz p.cr _ tuned in
      if_both (λ (r : Lora Radio × Bool). OnAir r.0)
        (leb region_count region || leb modem_count preset) _ _ (refl, v)
        (if_both (λ (r : Lora Radio × Bool). OnAir r.0)
          (not (radio_set_freq hal p.freq_hz l.driver).1) _ _ (refl, tuned) (refl, rated))

  preset-OnAir :
      (region preset : ℕ) (l : Lora Radio)
      → OnAir l
      → OnAir (lora_set_region_preset region preset l).0
  preset-OnAir region preset l (e, v) =
      subst (λ (m : Lora Radio). OnAir (lora_set_region_preset region preset m).0)
        (ap (λ o. record l { s_ops = o }) (sym e)) (registered-OnAir region preset l v)

  module _ {cryp : Cryp} where
    main_start-OnAir :
        (flash : FlashHal) (f : flash.Flash) (n : Node cryp Radio)
        → n.lora.s_inited ≡ false
        → in_order n.lora.driver.log ≡ true
        → OnAir (main_start hal fuel flash f n).lora
    unfolding main_start mesh_mini_init
    main_start-OnAir flash f n first order =
        preset-OnAir 0 4 (lora_init (radio_stm32wl_register hal fuel n.lora)).0
          (started-OnAir n.lora first order)

    Reachable-Has :
        {first n : Node cryp Radio}
        → (ops_of first.lora.s_ops ≡ stm32wl_ops hal fuel) × IsSetUp first.lora.driver
        → Reachable Receives first n
        → (ops_of n.lora.s_ops ≡ stm32wl_ops hal fuel) × IsSetUp n.lora.driver
    unfolding rx_cplt_callback
    Reachable-Has v began = v
    Reachable-Has v (went_round {n} {n'} rounds steps now coming before e) = ok-Returns (
        subst (Returns (λ m. (ops_of m.lora.s_ops ≡ stm32wl_ops hal fuel) × IsSetUp m.lora.driver))
          e
          (mesh_mini_loop-Has (stm32wl_ops hal fuel) IsSetUp IsSetUp-KeepsDriver rounds steps now
            coming n (stm32wl_ops-IsDriver hal fuel) (Reachable-Has v before)))
    Reachable-Has v (interrupted {n} s before handled) =
        let (same, up) = Reachable-Has v before in (same, subst IsSetUp (sym handled) up)

    -- From a reset, with the STM32WL driver, whatever the radio's HAL, the cipher's and the flash do:
    -- after the start-up and any number of rounds of the main loop, with packets that come in between
    -- them, every call that the driver has made had what it needs set up before it. The pins of the
    -- antenna switch were configured before they were written, with the clock of their port on; the
    -- SPI's control registers were written with its clock on, while it was off; the radio was reset with
    -- the SPI on, and talked to only then; and the interrupt had its priority when it was enabled.
    pub main-in_order :
        (flash : FlashHal) (f : flash.Flash) (first : Node cryp Radio) {n : Node cryp Radio}
        → first.lora.s_inited ≡ false
        → first.lora.driver.log ≡ []
        → Reachable Receives (main_start hal fuel flash f first) n
        → in_order n.lora.driver.log ≡ true
    unfolding in_order ops_of
    main-in_order flash f first {n} new no_calls reached =
        let (ops, up) = main_start-OnAir flash f first new (ap in_order no_calls) in
        (Reachable-Has (ap ops_of ops, up) reached).1.1
