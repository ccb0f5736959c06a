-- ===== src/Core/Main/Tests.antt =====
-- A node on a radio whose HAL always succeeds, through a round of the main loop and an interrupt.
use meshtastic_mini.Base.{◌≡◌, refl, [], true, false, ok, running, undefined, replicate, none}
use meshtastic_mini.Base.{arith}
use meshtastic_mini.Radio.{Hal, Radio, calls}
use meshtastic_mini.Radio.Lora.{Lora, params_of, radio_phy_set_ops, lora_init}
use meshtastic_mini.Radio.Lora.{lora_set_region_preset, lora_rx_poll}
use meshtastic_mini.Core.MainLoop.{Node}
use meshtastic_mini.Core.MainLoop.Receive.{mesh_mini_loop, mesh_mini_init}
use meshtastic_mini.Core.MainLoop.Invariant.{IsNode}
use meshtastic_mini.Core.MainLoop.Nodes.{toy_device, alice, blank_flash}
use meshtastic_mini.Core.MainLoop.Reachable.{reset_node, began, went_round, interrupted}
use meshtastic_mini.Core.Main.{main_start, radio_stm32wl_register}
use meshtastic_mini.Core.Main.Starts.{main-IsNode}
use meshtastic_mini.Radio.Driver.{rx_cplt_callback, receive_again, fall_back_to_crystal}
use meshtastic_mini.Radio.Driver.{apply_pa_tx_params, start_oscillator, radio_apply_lora_params}
use meshtastic_mini.Radio.Driver.{radio_init, subghz_spi_init_before_reset, radio_irq_init}
use meshtastic_mini.Radio.Driver.{radio_set_freq, radio_set_lora, rx_take, rx_fetch, radio_rx_poll}
use meshtastic_mini.Radio.RfCtrl.{rf_ctrl_set_off, rf_ctrl_set_rx, rf_ctrl_init}
use meshtastic_mini.Radio.Values.{freq_to_rf_reg, bw_to_param, cr_to_param, rf_bytes}
use meshtastic_mini.Radio.Values.{modulation_bytes, packet_bytes, rssi_of, snr_of}
use meshtastic_mini.Radio.Phy.{ops_of, stm32wl_ops}
use meshtastic_mini.Core.MainLoop.Line.{uart_rx_line_poll, bytes_come_in}
use meshtastic_mini.Core.SerialIo.{serial_get_byte}
use meshtastic_mini.Core.Main.Tunes.{main_start-IsTuned}
use meshtastic_mini.Core.Main.Ordered.{main-in_order}
use meshtastic_mini.Radio.SetUp.{in_order}
use meshtastic_mini.Radio.Preset.{IsTuned}

abbrev good_hal : Hal
good_hal = record { ok = λ l. true; bytes = λ l. []; tick = λ l. 0 }

abbrev idle_radio : Radio
idle_radio = record {
  last_rssi = 0;
  last_snr = 0;
  rx_buf = replicate 256 0;
  rx_len = 0;
  rx_pending = false;
  log = [];
}

abbrev idle_lora : Lora Radio
idle_lora = record { s_params = params_of 0 4; s_inited = false; s_ops = none; driver = idle_radio }

abbrev carol : Node toy_device Radio
carol = main_start good_hal 0 blank_flash tt (reset_node alice.led alice.uart alice.aes idle_lora)

abbrev carol_later : Node toy_device Radio
carol_later = elim (mesh_mini_loop 1 16 700 [] carol) as (λ r. Node toy_device Radio) [
  | ok n ↦ n
  | running ↦ carol
  | undefined ↦ carol
]

carol_goes_on : mesh_mini_loop 1 16 700 [] carol ≡ ok carol_later
unfolding calls rf_ctrl_set_off rf_ctrl_set_rx freq_to_rf_reg bw_to_param cr_to_param rf_bytes
    modulation_bytes packet_bytes rssi_of snr_of rx_cplt_callback receive_again fall_back_to_crystal
    rf_ctrl_init subghz_spi_init_before_reset radio_irq_init apply_pa_tx_params start_oscillator
    radio_apply_lora_params radio_init radio_set_freq radio_set_lora rx_take rx_fetch radio_rx_poll
    ops_of stm32wl_ops radio_phy_set_ops lora_init lora_set_region_preset lora_rx_poll
    uart_rx_line_poll bytes_come_in serial_get_byte mesh_mini_loop mesh_mini_init main_start
    radio_stm32wl_register
carol_goes_on = refl

main-IsNode_example :
    IsNode (record carol_later { lora = record carol_later.lora { driver = idle_radio } })
main-IsNode_example =
    main-IsNode good_hal 0 blank_flash tt (λ a. omega arith) alice.led alice.uart alice.aes
      idle_lora (λ s s'. s' ≡ idle_radio)
      (interrupted idle_radio (went_round 1 16 700 [] began carol_goes_on) refl)

main_start-IsTuned_example : IsTuned good_hal 0 4 carol.lora
main_start-IsTuned_example =
    main_start-IsTuned good_hal 0 (λ l. refl) blank_flash tt
      (reset_node alice.led alice.uart alice.aes idle_lora)

abbrev carol_heard : Radio
carol_heard = rx_cplt_callback carol_later.lora.driver

main-in_order_example : in_order carol_heard.log ≡ true
main-in_order_example =
    main-in_order good_hal 0 blank_flash tt (reset_node alice.led alice.uart alice.aes idle_lora)
      refl refl (interrupted carol_heard (went_round 1 16 700 [] began carol_goes_on) refl)
