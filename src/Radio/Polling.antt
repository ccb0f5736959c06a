-- ===== src/Radio/Polling.antt =====
-- A poll of the radio: it talks to the radio with the interrupt off, and leaves it listening.
use meshtastic_mini.Base.{ℕ, ◌≡◌, refl, true, false, not, ◌||◌, ◌==◌, ltb, if_both, Bool-cases, inl}
use meshtastic_mini.Base.{inr, some, List, [], ◌∷◌, get_or}
use meshtastic_mini.Radio.{Hal, Radio, HalCall, calls, disable_irq, exec_get_cmd, read_buffer}
use meshtastic_mini.Radio.{radio_get_rxbufferstatus, radio_get_packetstatus}
use meshtastic_mini.Radio.Driver.{radio_rx_poll, rx_fetch, rx_take, receive_again}
use meshtastic_mini.Radio.RfCtrl.{rf_ctrl_set_rx}
use meshtastic_mini.Radio.Values.{clear_irqs}
use meshtastic_mini.Radio.Listening.{irq_on, listening, mode, mode_after, pin, is_receiving}
use meshtastic_mini.Radio.Guarded.{guarded, uses_spi}

-- The history is guarded behind its first calls, and the interrupt is on.
pub record IsCareful (since : ℕ) (s : Radio) : Type 0 where
  pub careful : guarded since s.log ≡ true
  pub irq_again : irq_on s.log ≡ true

receive_again-IsCareful :
    (since : ℕ) (s : Radio)
    → irq_on s.log ≡ false
    → guarded since s.log ≡ true
    → IsCareful since (receive_again s)
unfolding receive_again calls irq_on guarded uses_spi rf_ctrl_set_rx
receive_again-IsCareful since s off g = record { careful = rw off g; irq_again = refl }

receive_again-listens :
    (hal : Hal)
    → ((l : List HalCall) → hal.ok l ≡ true)
    → (s : Radio) → listening hal (receive_again s).log ≡ true
unfolding receive_again calls listening mode mode_after pin is_receiving rf_ctrl_set_rx
receive_again-listens hal ok s = rw (ok _) refl

module _ (hal : Hal) where
  rx_take-IsCareful :
      (since : ℕ) (buf : List ℕ) (n : ℕ) (s : Radio)
      → irq_on s.log ≡ false
      → guarded since s.log ≡ true
      → IsCareful since (rx_take hal buf n s).0
  unfolding rx_take calls irq_on guarded uses_spi
  rx_take-IsCareful since buf n s off g =
      if_both (λ (r : Radio). IsCareful since (receive_again r))
        (hal.ok (exec_get_cmd radio_get_packetstatus 3 ∷ clear_irqs ∷ s.log)) _ _
        (receive_again-IsCareful since _ off (rw off g))
        (receive_again-IsCareful since _ off (rw off g))

  rx_fetch-IsCareful :
      (since : ℕ) (buf : List ℕ) (max_len : ℕ) (s : Radio)
      → guarded since s.log ≡ true
      → IsCareful since (rx_fetch hal buf max_len s).0
  unfolding rx_fetch calls irq_on guarded uses_spi
  rx_fetch-IsCareful since buf max_len s g =
      let asked =
        calls (disable_irq ∷ exec_get_cmd radio_get_rxbufferstatus 2 ∷ [])
          (record s { rx_pending = false }) in
      let n = get_or (hal.bytes asked.log) 0 0 in
      let read = calls (read_buffer (get_or (hal.bytes asked.log) 1 0) n ∷ []) asked in
      elim (Bool-cases (hal.ok asked.log)) [
        | inr failed ↦ rw failed (record { careful = g; irq_again = refl })
        | inl known ↦ elim (Bool-cases (n == 0 || ltb max_len n || ltb 256 n)) [
          | inl bad ↦ rw (known, bad) (receive_again-IsCareful since asked refl g)
          | inr good ↦ elim (Bool-cases (hal.ok read.log)) [
            | inr failed ↦ rw (known, good, failed) (receive_again-IsCareful since read refl g)
            | inl whole ↦ rw (known, good, whole) (rx_take-IsCareful since buf n read refl g)
          ]
        ]
      ]

  -- Whatever the HAL does, `rx_poll` leaves the driver careful if it was.
  pub rx_poll-IsCareful :
      (since : ℕ) (buf : List ℕ) (max_len : ℕ) (s : Radio)
      → IsCareful since s
      → IsCareful since (radio_rx_poll hal (some buf) max_len s).0
  unfolding radio_rx_poll
  rx_poll-IsCareful since buf max_len s v = elim (Bool-cases (max_len == 0 || not s.rx_pending)) [
    | inl idle ↦ rw idle v
    | inr busy ↦ rw busy (rx_fetch-IsCareful since buf max_len s v.careful)
  ]

module _ (hal : Hal) (ok : (l : List HalCall) → hal.ok l ≡ true) where
  rx_fetch-listens :
      (buf : List ℕ) (max_len : ℕ) (s : Radio)
      → listening hal (rx_fetch hal buf max_len s).0.log ≡ true
  unfolding rx_fetch rx_take
  rx_fetch-listens buf max_len s =
      let asked =
        calls (disable_irq ∷ exec_get_cmd radio_get_rxbufferstatus 2 ∷ [])
          (record s { rx_pending = false }) in
      let n = get_or (hal.bytes asked.log) 0 0 in
      let read = calls (read_buffer (get_or (hal.bytes asked.log) 1 0) n ∷ []) asked in
      elim (Bool-cases (n == 0 || ltb max_len n || ltb 256 n)) [
        | inl bad ↦ rw (ok asked.log, bad) (receive_again-listens hal ok asked)
        | inr good ↦ rw (ok asked.log, good, ok read.log) (receive_again-listens hal ok _)
      ]

  -- Over a HAL whose calls all succeed, the radio listens after `rx_poll` if it did before.
  pub rx_poll-listens :
      (buf : List ℕ) (max_len : ℕ) (s : Radio)
      → listening hal s.log ≡ true
      → listening hal (radio_rx_poll hal (some buf) max_len s).0.log ≡ true
  unfolding radio_rx_poll
  rx_poll-listens buf max_len s v = elim (Bool-cases (max_len == 0 || not s.rx_pending)) [
    | inl idle ↦ rw idle v
    | inr busy ↦ rw busy (rx_fetch-listens buf max_len s)
  ]
