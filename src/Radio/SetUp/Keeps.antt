-- ===== src/Radio/SetUp/Keeps.antt =====
-- The driver's operations call in order: the initialisation sets all up, and the others keep it so.

use meshtastic_mini.Base.{ℕ, zero, suc, ◌≡◌, refl, Bool, true, false, not, ◌||◌, ◌==◌, ltb, if_both}
use meshtastic_mini.Base.{Bool-cases, inl, inr, Option, none, some, List, [], ◌∷◌, ◌++◌, get_or}
use meshtastic_mini.Radio.{Hal, Radio, calls, exec_get_cmd, disable_irq, read_buffer}
use meshtastic_mini.Radio.{clear_pending_irq, enable_irq, radio_get_rxbufferstatus}
use meshtastic_mini.Radio.{radio_get_packetstatus, rf_reset, delay, wait_busy, exec_set_cmd}
use meshtastic_mini.Radio.{radio_set_modulationparams, radio_set_packetparams}
use meshtastic_mini.Radio.Driver.{subghz_spi_init_before_reset, radio_irq_init, radio_init}
use meshtastic_mini.Radio.Driver.{radio_apply_lora_params, start_oscillator, fall_back_to_crystal}
use meshtastic_mini.Radio.Driver.{apply_pa_tx_params, radio_set_freq, radio_set_lora, tx_wait}
use meshtastic_mini.Radio.Driver.{tx_load, tx_send, tx_finish, tx_complete, radio_tx, rx_take}
use meshtastic_mini.Radio.Driver.{rx_fetch, radio_rx_poll, receive_again}
use meshtastic_mini.Radio.RfCtrl.{rf_ctrl_init, rf_ctrl_set_off, rf_ctrl_set_rx, rf_ctrl_set_tx}
use meshtastic_mini.Radio.Values.{set_standby, modulation_bytes, packet_bytes, clear_irqs}
use meshtastic_mini.Radio.Guarded.{IfReturns, never, returns, IfReturns-if}
use meshtastic_mini.Radio.SetUp.{IsSetUp, calls-IsSetUp, all_plain, is_plain, set_up_of, in_order}
use meshtastic_mini.Radio.SetUp.{after_call, after_set_up, allowed, set_up_allowed}

module _ (hal : Hal) where
  apply_pa-IsSetUp : (s : Radio) → IsSetUp s → IsSetUp (apply_pa_tx_params hal s)
  unfolding apply_pa_tx_params all_plain is_plain
  apply_pa-IsSetUp s v = calls-IsSetUp _ _ refl (calls-IsSetUp _ s refl v)

  oscillator-IsSetUp : (s : Radio) → IsSetUp s → IsSetUp (start_oscillator hal s)
  unfolding start_oscillator fall_back_to_crystal all_plain is_plain
  oscillator-IsSetUp s v =
      let asked = calls-IsSetUp _ s refl v in
      if_both IsSetUp _ _ _ asked (calls-IsSetUp _ _ refl asked)

  apply-IsSetUp :
      (freq sf bw cr : ℕ) (s : Radio)
      → IsSetUp s
      → IsSetUp (radio_apply_lora_params hal freq sf bw cr s)
  unfolding radio_apply_lora_params all_plain is_plain
  apply-IsSetUp freq sf bw cr s v =
      calls-IsSetUp _ _ refl (apply_pa-IsSetUp _ (calls-IsSetUp _ _ refl (oscillator-IsSetUp s v)))

  reset-IsSetUp :
      (s : Radio)
      → in_order s.log ≡ true
      → IsSetUp (
          calls
            (rf_ctrl_init
              ++ subghz_spi_init_before_reset
              ++ rf_reset ∷ delay 5 ∷ wait_busy ∷ radio_irq_init
              ++ rf_ctrl_set_off)
            s)
  unfolding calls rf_ctrl_init subghz_spi_init_before_reset radio_irq_init rf_ctrl_set_off
      rf_ctrl_set_rx set_up_of after_call after_set_up in_order allowed set_up_allowed
  reset-IsSetUp s order = (refl, order)

  -- Whatever was set up before, all is set up behind the initialisation.
  pub radio_init-IsSetUp : (s : Radio) → in_order s.log ≡ true → IsSetUp (radio_init hal s).0
  unfolding radio_init all_plain is_plain rf_ctrl_set_rx
  radio_init-IsSetUp s order =
      let fresh = record s { rx_pending = false; rx_len = 0; last_rssi = 0; last_snr = 0 } in
      calls-IsSetUp _ _ refl (apply-IsSetUp 868100000 11 250000 5 _ (reset-IsSetUp fresh order))

  pub set_freq-IsSetUp : (freq : ℕ) (s : Radio) → IsSetUp s → IsSetUp (radio_set_freq hal freq s).0
  unfolding radio_set_freq all_plain is_plain rf_ctrl_set_rx
  set_freq-IsSetUp freq s v =
      let sent = calls-IsSetUp _ s refl v in
      if_both (λ (r : Radio × Bool). IsSetUp r.0) _ _ _ (calls-IsSetUp _ _ refl sent) sent

  pub set_lora-IsSetUp :
      (sf bw cr : ℕ) (s : Radio) → IsSetUp s → IsSetUp (radio_set_lora hal sf bw cr s).0
  unfolding radio_set_lora all_plain is_plain rf_ctrl_set_rx
  set_lora-IsSetUp sf bw cr s v =
      let asked =
        set_standby ∷ exec_set_cmd radio_set_modulationparams (modulation_bytes sf bw cr) ∷ [] in
      let modulated = calls asked s in
      let m = calls-IsSetUp asked s refl v in
      let params = exec_set_cmd radio_set_packetparams (packet_bytes 0xff) ∷ [] in
      let framed = calls params modulated in
      let f = calls-IsSetUp params modulated refl m in
      elim (Bool-cases (hal.ok modulated.log)) [
        | inr failed ↦ rw failed m
        | inl known ↦ elim (Bool-cases (hal.ok framed.log)) [
          | inr failed ↦ rw (known, failed) f
          | inl done ↦ rw (known, done) (calls-IsSetUp _ framed refl f)
        ]
      ]

  tx_wait-IsSetUp :
      (fuel t0 : ℕ) (s : Radio) → IsSetUp s → IfReturns IsSetUp (tx_wait hal fuel t0 s)
  unfolding tx_wait all_plain is_plain
  tx_wait-IsSetUp zero t0 s v = never
  tx_wait-IsSetUp (suc fuel) t0 s v =
      let timed = calls-IsSetUp _ s refl v in
      let asked = calls-IsSetUp _ _ refl timed in
      IfReturns-if _ (IfReturns-if _ (returns asked) (tx_wait-IsSetUp fuel t0 _ asked))
        (returns timed)

  finish-IsSetUp : (s : Radio) → IsSetUp s → IsSetUp (tx_finish s)
  unfolding tx_finish all_plain is_plain rf_ctrl_set_rx rf_ctrl_set_off
  finish-IsSetUp s v = calls-IsSetUp _ s refl v

  tx_complete-IsSetUp :
      (fuel : ℕ) (s : Radio) → IsSetUp s → IfReturns IsSetUp (tx_complete hal fuel s)
  unfolding tx_complete all_plain is_plain
  tx_complete-IsSetUp fuel s v = finish _ (tx_wait-IsSetUp fuel _ _ (calls-IsSetUp _ s refl v))
    where
      finish :
          (o : Option (Radio × Bool))
          → IfReturns IsSetUp o
          → IfReturns IsSetUp
              (elim o [ none ↦ none | some (polled, tx_ok) ↦ some (tx_finish polled, tx_ok) ])
      finish none c = never
      finish (some (r, result)) (returns c) = returns (finish-IsSetUp r c)

  load-IsSetUp :
      (payload : List ℕ) (len : ℕ) (s : Radio) → IsSetUp s → IsSetUp (tx_load hal payload len s)
  unfolding tx_load all_plain is_plain rf_ctrl_set_off
  load-IsSetUp payload len s v =
      calls-IsSetUp _ _ refl (apply_pa-IsSetUp _ (calls-IsSetUp _ s refl v))

  send-IsSetUp : (s : Radio) → IsSetUp s → IsSetUp (tx_send s)
  unfolding tx_send all_plain is_plain rf_ctrl_set_tx
  send-IsSetUp s v = calls-IsSetUp _ s refl v

  pub tx-IsSetUp :
      (fuel : ℕ) (payload : List ℕ) (len : ℕ) (s : Radio)
      → IsSetUp s
      → IfReturns IsSetUp (radio_tx hal fuel (some payload) len s)
  unfolding radio_tx all_plain is_plain rf_ctrl_set_rx
  tx-IsSetUp fuel payload len s v =
      let loaded = tx_load hal payload len s in
      let l = load-IsSetUp payload len s v in
      let sent = send-IsSetUp loaded l in
      IfReturns-if (ltb 256 len) (returns v) (
        IfReturns-if (not (hal.ok loaded.log)) (returns (calls-IsSetUp _ loaded refl l)) (
          IfReturns-if (not (hal.ok (tx_send loaded).log))
            (returns (calls-IsSetUp _ (tx_send loaded) refl sent))
            (tx_complete-IsSetUp fuel (tx_send loaded) sent)))

  again-IsSetUp : (s : Radio) → IsSetUp s → IsSetUp (receive_again s)
  unfolding receive_again all_plain is_plain rf_ctrl_set_rx
  again-IsSetUp s v = calls-IsSetUp _ s refl v

  rx_take-IsSetUp : (buf : List ℕ) (n : ℕ) (s : Radio) → IsSetUp s → IsSetUp (rx_take hal buf n s).0
  unfolding rx_take calls all_plain is_plain
  rx_take-IsSetUp buf n s v =
      let asked = clear_irqs ∷ exec_get_cmd radio_get_packetstatus 3 ∷ [] in
      let a : IsSetUp (calls asked s) = calls-IsSetUp asked s refl v in
      if_both (λ (r : Radio). IsSetUp (receive_again r)) (hal.ok (calls asked s).log) _ _
        (again-IsSetUp _ a) (again-IsSetUp _ a)

  rx_fetch-IsSetUp :
      (buf : List ℕ) (max_len : ℕ) (s : Radio) → IsSetUp s → IsSetUp (rx_fetch hal buf max_len s).0
  unfolding rx_fetch all_plain is_plain
  rx_fetch-IsSetUp buf max_len s v =
      let status = disable_irq ∷ exec_get_cmd radio_get_rxbufferstatus 2 ∷ [] in
      let idle = record s { rx_pending = false } in
      let asked = calls status idle in
      let a = calls-IsSetUp status idle refl v in
      let n = get_or (hal.bytes asked.log) 0 0 in
      let reads = read_buffer (get_or (hal.bytes asked.log) 1 0) n ∷ [] in
      let read = calls reads asked in
      let r = calls-IsSetUp reads asked refl a in
      elim (Bool-cases (hal.ok asked.log)) [
        | inr failed ↦ rw failed (calls-IsSetUp (clear_pending_irq ∷ enable_irq ∷ []) asked refl a)
        | inl known ↦ elim (Bool-cases (n == 0 || ltb max_len n || ltb 256 n)) [
          | inl bad ↦ rw (known, bad) (again-IsSetUp asked a)
          | inr good ↦ elim (Bool-cases (hal.ok read.log)) [
            | inr failed ↦ rw (known, good, failed) (again-IsSetUp read r)
            | inl whole ↦ rw (known, good, whole) (rx_take-IsSetUp buf n read r)
          ]
        ]
      ]

  pub rx_poll-IsSetUp :
      (buf : List ℕ) (max_len : ℕ) (s : Radio)
      → IsSetUp s
      → IsSetUp (radio_rx_poll hal (some buf) max_len s).0
  unfolding radio_rx_poll
  rx_poll-IsSetUp buf max_len s v = elim (Bool-cases (max_len == 0 || not s.rx_pending)) [
    | inl idle ↦ rw idle v
    | inr busy ↦ rw busy (rx_fetch-IsSetUp buf max_len s v)
  ]
