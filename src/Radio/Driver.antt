-- ===== src/Radio/Driver.antt =====
-- The operations of firmware/Radio/radio_stm32wl.c, in the build for an RFO_HP board with TCXO.
use meshtastic_mini.Base.{ℕ, zero, suc, ◌+◌, ◌-◌, ◌%◌, ◌^◌, Bool, true, false, ltb, ◌==◌, not, ◌&&◌}
use meshtastic_mini.Base.{◌||◌, if◌then◌else◌, Option, none, some, List, [], ◌∷◌, ◌++◌, bit_or}
use meshtastic_mini.Base.{bit_and, ◌<<<◌, u8, u16, get_or, blit, take}
use meshtastic_mini.Radio.{radio_set_regulatormode, radio_clr_error, radio_set_tcxomode}
use meshtastic_mini.Radio.{radio_get_error, radio_calibrate, radio_calibrateimage}
use meshtastic_mini.Radio.{radio_set_txfallbackmode, radio_set_packettype, radio_set_rffrequency}
use meshtastic_mini.Radio.{radio_set_modulationparams, radio_set_packetparams}
use meshtastic_mini.Radio.{radio_set_bufferbaseaddress, radio_set_rfswitchmode, radio_set_paconfig}
use meshtastic_mini.Radio.{radio_set_txparams, radio_cfg_dioirq, radio_get_irqstatus}
use meshtastic_mini.Radio.{radio_get_rxbufferstatus, radio_get_packetstatus, HalCall, exec_set_cmd}
use meshtastic_mini.Radio.{exec_get_cmd, write_registers, read_register, write_buffer, read_buffer}
use meshtastic_mini.Radio.{disable_irq, enable_irq, clear_pending_irq, get_tick, wait_busy}
use meshtastic_mini.Radio.{rf_reset, delay, Hal, Radio, calls, spi_cr1_mstr, spi_cr1_ssi}
use meshtastic_mini.Radio.{spi_cr1_ssm, subghzspi_baudrateprescaler_2, spi_cr2_frxth, spi_cr2_ds_0}
use meshtastic_mini.Radio.{spi_cr2_ds_1, spi_cr2_ds_2, set_up, subghzspi_clk_enable, dsb}
use meshtastic_mini.Radio.{clear_spi_cr1_spe, set_spi_cr1_spe, write_spi_cr1, write_spi_cr2}
use meshtastic_mini.Radio.{unselect_nss, nvic_set_priority, exti_enable_rising_trig, exti_enable_it}
use meshtastic_mini.Radio.{set_radio_busy_trigger_wu_it, clear_flag_rfbusy}
use meshtastic_mini.Radio.RfCtrl.{rf_ctrl_set_off, rf_ctrl_set_rx, rf_ctrl_set_tx, rf_ctrl_init}
use meshtastic_mini.Radio.Values.{freq_to_rf_reg, rf_bytes, modulation_bytes, packet_bytes}
use meshtastic_mini.Radio.Values.{set_standby, clear_irqs, set_rx, set_tx, rssi_of, snr_of}

unfoldable pub subghz_spi_init_before_reset : List HalCall
subghz_spi_init_before_reset =
    set_up subghzspi_clk_enable
    ∷ set_up dsb
    ∷ set_up clear_spi_cr1_spe
    ∷ set_up (
        write_spi_cr1
          (spi_cr1_mstr ∷ spi_cr1_ssi ∷ spi_cr1_ssm ∷ subghzspi_baudrateprescaler_2 ∷ []))
    ∷ set_up (write_spi_cr2 (spi_cr2_frxth ∷ spi_cr2_ds_0 ∷ spi_cr2_ds_1 ∷ spi_cr2_ds_2 ∷ []))
    ∷ set_up set_spi_cr1_spe
    ∷ set_up unselect_nss
    ∷ []

-- The calls of `stm32wl_radio_init` that stand for `HAL_SUBGHZ_Init`: the interrupt and its line.
unfoldable pub radio_irq_init : List HalCall
radio_irq_init =
    set_up (nvic_set_priority 2 0)
    ∷ enable_irq
    ∷ set_up (exti_enable_rising_trig 44)
    ∷ set_up (exti_enable_it 44)
    ∷ set_up set_radio_busy_trigger_wu_it
    ∷ set_up clear_flag_rfbusy
    ∷ []

unfoldable pub rx_cplt_callback : Radio → Radio
rx_cplt_callback s = record s { rx_pending = true }

-- The way back of `rx_poll` once the radio is to receive again.
unfoldable pub receive_again : Radio → Radio
receive_again s =
    calls (wait_busy ∷ rf_ctrl_set_rx ++ set_rx ∷ clear_pending_irq ∷ enable_irq ∷ []) s

-- What `radio_apply_lora_params` does if the oscillator did not start.
unfoldable pub fall_back_to_crystal : Radio → Radio
fall_back_to_crystal = calls (
    rf_reset
    ∷ delay 5
    ∷ wait_busy
    ∷ set_standby
    ∷ wait_busy
    ∷ exec_set_cmd radio_set_regulatormode (0x01 ∷ [])
    ∷ wait_busy
    ∷ [])

-- From the written buffer to the call that sends.
unfoldable pub tx_send : Radio → Radio
tx_send = calls (wait_busy ∷ rf_ctrl_set_tx ++ wait_busy ∷ set_tx ∷ [])

-- The end of `tx`, once it has polled.
unfoldable pub tx_finish : Radio → Radio
tx_finish = calls (
    set_standby ∷ wait_busy ∷ rf_ctrl_set_off
    ++ clear_irqs
      ∷ exec_set_cmd radio_set_packetparams (packet_bytes 0xff)
      ∷ wait_busy
      ∷ rf_ctrl_set_rx
    ++ set_rx ∷ clear_pending_irq ∷ enable_irq ∷ [])

module _ (hal : Hal) where
  unfoldable pub apply_pa_tx_params : Radio → Radio
  apply_pa_tx_params s =
      let read =
        calls
          (exec_set_cmd radio_set_paconfig (0x02 ∷ 0x02 ∷ 0x00 ∷ 0x01 ∷ [])
            ∷ read_register 0x08d8
            ∷ [])
          s in
      let v = get_or (hal.bytes read.log) 0 0 in
      calls
        (write_registers 0x08d8 (u8 (bit_or v (0x0f <<< 1)) ∷ [])
          ∷ write_registers 0x08e7 (0x38 ∷ [])
          ∷ exec_set_cmd radio_set_txparams (14 ∷ 0x04 ∷ [])
          ∷ [])
        read

  -- The start of `radio_apply_lora_params`, to the end of the TCXO's detection.
  unfoldable pub start_oscillator : Radio → Radio
  start_oscillator s =
      let asked =
        calls
          (set_standby
            ∷ wait_busy
            ∷ exec_set_cmd radio_set_regulatormode (0x01 ∷ [])
            ∷ wait_busy
            ∷ exec_set_cmd radio_clr_error (0 ∷ 0 ∷ [])
            ∷ wait_busy
            ∷ exec_set_cmd radio_set_tcxomode (0x01 ∷ 0x00 ∷ 0x02 ∷ 0x80 ∷ [])
            ∷ wait_busy
            ∷ exec_get_cmd radio_get_error 2
            ∷ [])
          s in
      let err = hal.bytes asked.log in
      let dev_err = u16 (bit_or (get_or err 0 0 <<< 8) (get_or err 1 0)) in
      if bit_and dev_err 0x0020 == 0 then asked else fall_back_to_crystal asked

  unfoldable pub radio_apply_lora_params : ℕ → ℕ → ℕ → ℕ → Radio → Radio
  radio_apply_lora_params freq_hz sf bw_hz cr s =
      let tuned =
        calls
          (exec_set_cmd radio_calibrate (0x7f ∷ [])
            ∷ wait_busy
            ∷ delay 10
            ∷ exec_set_cmd radio_calibrateimage (0xd7 ∷ 0xdb ∷ [])
            ∷ exec_set_cmd radio_set_txfallbackmode (0x20 ∷ [])
            ∷ exec_set_cmd radio_set_packettype (0x01 ∷ [])
            ∷ exec_set_cmd radio_set_rffrequency (rf_bytes (freq_to_rf_reg freq_hz))
            ∷ exec_set_cmd radio_set_modulationparams (modulation_bytes sf bw_hz cr)
            ∷ exec_set_cmd radio_set_packetparams (packet_bytes 0xff)
            ∷ write_registers 0x0740 (0x2b ∷ 0x44 ∷ [])
            ∷ exec_set_cmd radio_set_bufferbaseaddress (0x00 ∷ 0x80 ∷ [])
            ∷ exec_set_cmd radio_set_rfswitchmode (0x01 ∷ [])
            ∷ [])
          (start_oscillator s) in
      calls
        (exec_set_cmd radio_cfg_dioirq (0x02 ∷ 0x03 ∷ 0x02 ∷ 0x03 ∷ 0x00 ∷ 0x00 ∷ 0x00 ∷ 0x00 ∷ [])
          ∷ [])
        (apply_pa_tx_params tuned)

  -- `stm32wl_radio_init`
  unfoldable pub radio_init : Radio → Radio × Bool
  radio_init s =
      let fresh = record s { rx_pending = false; rx_len = 0; last_rssi = 0; last_snr = 0 } in
      let reset =
        calls
          (rf_ctrl_init
            ++ subghz_spi_init_before_reset
            ++ rf_reset ∷ delay 5 ∷ wait_busy ∷ radio_irq_init
            ++ rf_ctrl_set_off)
          fresh in
      let tuned = radio_apply_lora_params 868100000 11 250000 5 reset in
      (calls (clear_irqs ∷ wait_busy ∷ rf_ctrl_set_rx ++ set_rx ∷ delay 5 ∷ []) tuned, true)

  unfoldable pub radio_set_freq : ℕ → Radio → Radio × Bool
  radio_set_freq freq_hz s =
      let sent =
        calls
          (set_standby
            ∷ exec_set_cmd radio_set_rffrequency (rf_bytes (freq_to_rf_reg freq_hz))
            ∷ [])
          s in
      if hal.ok sent.log
      then (calls (wait_busy ∷ rf_ctrl_set_rx ++ set_rx ∷ []) sent, true)
      else (sent, false)

  unfoldable pub radio_set_lora : ℕ → ℕ → ℕ → Radio → Radio × Bool
  radio_set_lora sf bw_hz cr s =
      let modulated =
        calls
          (set_standby
            ∷ exec_set_cmd radio_set_modulationparams (modulation_bytes sf bw_hz cr)
            ∷ [])
          s in
      let framed = calls (exec_set_cmd radio_set_packetparams (packet_bytes 0xff) ∷ []) modulated in
      if not (hal.ok modulated.log)
      then (modulated, false)
      else if not (hal.ok framed.log)
      then (framed, false)
      else (
        calls
            (write_registers 0x0740 (0x2b ∷ 0x44 ∷ []) ∷ wait_busy ∷ rf_ctrl_set_rx ++ set_rx ∷ [])
            framed,
        true,
      )

  -- The polling loop of `tx`, with fuel for its rounds; `none` if it still polls.
  unfoldable pub tx_wait : ℕ → ℕ → Radio → Option (Radio × Bool)
  tx_wait zero t0 s = none
  tx_wait (suc fuel) t0 s =
      let timed = calls (get_tick ∷ []) s in
      let asked = calls (exec_get_cmd radio_get_irqstatus 2 ∷ []) timed in
      let irq = hal.bytes asked.log in
      let final_irq = u16 (bit_or (get_or irq 0 0 <<< 8) (get_or irq 1 0)) in
      let rest = tx_wait fuel t0 asked in
      if ltb ((hal.tick timed.log + 2 ^ 32 - t0) % 2 ^ 32) 4000
      then (if hal.ok asked.log && not (bit_and final_irq 0x0201 == 0)
          then some (asked, not (bit_and final_irq 0x01 == 0))
          else rest)
      else some (timed, false)

  -- From the start of `tx` to the call that writes the buffer.
  unfoldable pub tx_load : List ℕ → ℕ → Radio → Radio
  tx_load payload len s =
      let idle = calls (disable_irq ∷ set_standby ∷ wait_busy ∷ []) s in
      calls
        (wait_busy ∷ rf_ctrl_set_off
          ++ clear_irqs
            ∷ exec_set_cmd radio_set_packetparams (packet_bytes len)
            ∷ write_buffer 0 (take len payload)
            ∷ [])
        (apply_pa_tx_params idle)

  -- The polling and the end of `tx`.
  unfoldable pub tx_complete : ℕ → Radio → Option (Radio × Bool)
  tx_complete fuel sent =
      let started = calls (get_tick ∷ []) sent in
      elim (tx_wait fuel (hal.tick started.log) started) [
        | none ↦ none
        | some (polled, tx_ok) ↦ some (tx_finish polled, tx_ok)
      ]

  -- `stm32wl_radio_tx`; `none` for the data stands for NULL, and for the result, for a loop that
  -- still polls.
  unfoldable pub radio_tx : ℕ → Option (List ℕ) → ℕ → Radio → Option (Radio × Bool)
  radio_tx fuel none len s = some (s, false)
  radio_tx fuel (some payload) len s =
      let loaded = tx_load payload len s in
      let sent = tx_send loaded in
      if ltb 256 len
      then some (s, false)
      else if not (hal.ok loaded.log)
      then some (calls (enable_irq ∷ []) loaded, false)
      else if not (hal.ok sent.log)
      then some (calls (rf_ctrl_set_rx ++ enable_irq ∷ []) sent, false)
      else tx_complete fuel sent

  -- `rx_poll` once the packet is in `rx_buf`: the copy and the packet's status.
  unfoldable pub rx_take : List ℕ → ℕ → Radio → Radio × List ℕ × ℕ
  rx_take buf payload_len s =
      let packet = take payload_len (hal.bytes s.log) in
      let kept = record s { rx_buf = blit s.rx_buf 0 packet; rx_len = payload_len } in
      let asked = calls (clear_irqs ∷ exec_get_cmd radio_get_packetstatus 3 ∷ []) kept in
      let pkt_status = hal.bytes asked.log in
      let rated =
        if hal.ok asked.log
        then record asked {
          last_rssi = rssi_of (get_or pkt_status 1 0);
          last_snr = snr_of (get_or pkt_status 2 0);
        }
        else asked in
      (receive_again rated, blit buf 0 (take payload_len kept.rx_buf), payload_len)

  -- `rx_poll` once a packet is pending: the state, the buffer and the returned length.
  unfoldable pub rx_fetch : List ℕ → ℕ → Radio → Radio × List ℕ × ℕ
  rx_fetch buf max_len s =
      let asked =
        calls (disable_irq ∷ exec_get_cmd radio_get_rxbufferstatus 2 ∷ [])
          (record s { rx_pending = false }) in
      let status = hal.bytes asked.log in
      let payload_len = get_or status 0 0 in
      let read = calls (read_buffer (get_or status 1 0) payload_len ∷ []) asked in
      if not (hal.ok asked.log)
      then (calls (clear_pending_irq ∷ enable_irq ∷ []) asked, buf, 0)
      else if payload_len == 0 || ltb max_len payload_len || ltb 256 payload_len
      then (receive_again asked, buf, 0)
      else if not (hal.ok read.log)
      then (receive_again read, buf, 0)
      else rx_take buf payload_len read

  -- `stm32wl_radio_rx_poll`; `none` for the buffer stands for NULL.
  unfoldable pub radio_rx_poll : Option (List ℕ) → ℕ → Radio → Radio × Option (List ℕ) × ℕ
  radio_rx_poll none max_len s = (s, none, 0)
  radio_rx_poll (some buf) max_len s =
      let (s', buf', n) = rx_fetch buf max_len s in
      if max_len == 0 || not s.rx_pending then (s, some buf, 0) else (s', some buf', n)
