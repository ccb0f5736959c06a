-- ===== src/Core/MainLoop/Driver.antt =====
-- The drivers keep to the buffer that the main loop hands them.
use meshtastic_mini.Base.{true, ℕ, ◌≤◌, ◌≡◌, refl, false, not, ltb, ◌==◌, ◌||◌, arith, List, length}
use meshtastic_mini.Base.{length-blit, Bool-cases, inl, inr, get_or, [], ◌∷◌}
use meshtastic_mini.Radio.{Hal, Radio, calls, disable_irq, exec_get_cmd, read_buffer}
use meshtastic_mini.Radio.{radio_get_rxbufferstatus}
use meshtastic_mini.Radio.Driver.{radio_rx_poll, rx_fetch, rx_take}
use meshtastic_mini.Radio.Phy.{default_ops, stm32wl_ops}
use meshtastic_mini.Core.MainLoop.Invariant.{IsDriver}
use meshtastic_mini.Radio.Listening.{Clock, tx_returns}
use meshtastic_mini.Core.MainLoop.Ends.{IsPrompt}

-- A result of a poll: a buffer of the same size, and a length in bounds.
abbrev InBounds : List ℕ → ℕ → Radio × List ℕ × ℕ → Type 0
InBounds buf max_len r = (length r.1 ≡ length buf) × (r.2 ≤ max_len)

rx_fetch-InBounds :
    (hal : Hal) (buf : List ℕ) (max_len : ℕ) (s : Radio)
    → InBounds buf max_len (rx_fetch hal buf max_len s)
unfolding rx_fetch rx_take
rx_fetch-InBounds hal buf max_len s =
    let asked =
      calls (disable_irq ∷ exec_get_cmd radio_get_rxbufferstatus 2 ∷ [])
        (record s { rx_pending = false }) in
    let n = get_or (hal.bytes asked.log) 0 0 in
    let read = calls (read_buffer (get_or (hal.bytes asked.log) 1 0) n ∷ []) asked in
    elim (Bool-cases (hal.ok asked.log)) [
      | inr failed ↦ rw failed (refl, omega arith)
      | inl known ↦ elim (Bool-cases (n == 0 || ltb max_len n || ltb 256 n)) [
        | inl bad ↦ rw (known, bad) (refl, omega arith)
        | inr good ↦ elim (Bool-cases (hal.ok read.log)) [
          | inr failed ↦ rw (known, good, failed) (refl, omega arith)
          | inl whole ↦ rw (known, good, whole) (length-blit buf 0 _, ground arith)
        ]
      ]
    ]

pub default_ops-IsDriver : {S : Type 0} → IsDriver (default_ops S)
unfolding default_ops
default_ops-IsDriver = record { polled = λ buf max_len s. (buf, refl, refl, omega arith) }

pub default_ops-IsPrompt : {S : Type 0} → IsPrompt (default_ops S)
unfolding default_ops
default_ops-IsPrompt = record { sends = λ buf len s whole. ((s, true), refl) }

-- The STM32WL driver keeps the size of the buffer, and returns no more than it was allowed to.
pub stm32wl_ops-IsDriver : (hal : Hal) (fuel : ℕ) → IsDriver (stm32wl_ops hal fuel)
unfolding stm32wl_ops radio_rx_poll
stm32wl_ops-IsDriver hal fuel = record {
  polled = λ buf max_len s.
      let fetched = rx_fetch hal buf max_len s in
      elim (Bool-cases (max_len == 0 || not s.rx_pending)) [
        | inl idle ↦ rw idle (buf, refl, refl, omega arith)
        | inr busy ↦ rw busy (
          fetched.1,
          refl,
          (rx_fetch-InBounds hal buf max_len s).0,
          (rx_fetch-InBounds hal buf max_len s).1,
        )
      ];
}

-- With a clock behind the tick, the STM32WL driver's `tx` returns, given fuel for each microsecond of
-- five seconds.
pub stm32wl_ops-IsPrompt :
    (hal : Hal) (fuel : ℕ) → Clock hal → 5001002 ≤ fuel → IsPrompt (stm32wl_ops hal fuel)
unfolding stm32wl_ops
stm32wl_ops-IsPrompt hal fuel clock enough = record {
  sends = λ buf len s whole.
      let (s', tx_ok, e, left) = tx_returns hal clock buf len fuel s whole enough in
      ((s', tx_ok), e);
}
