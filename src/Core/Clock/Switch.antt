-- ===== src/Core/Clock/Switch.antt =====
-- The switch of the system clock ends, and comes after what it needs.
use meshtastic_mini.Base.{ℕ, ◌≤◌, ◌≡◌, Bool, true, false, not}
use meshtastic_mini.Base.{◌&&◌, ◌||◌, ◌==◌, List, [], ◌∷◌, ◌++◌, replicate}
use meshtastic_mini.Base.{◌⊎◌}
use meshtastic_mini.Core.Clock.{msi, is_msi, Chip, LlCall}
use meshtastic_mini.Core.Clock.{flash_set_latency}
use meshtastic_mini.Core.Clock.{flash_get_latency, pwr_set_voltage_range, pwr_is_active_flag_vos}
use meshtastic_mini.Core.Clock.{msi_enable, msi_is_ready, msi_set_range, set_sys_clk_source}
use meshtastic_mini.Core.Clock.{get_sys_clk_source}

-- The voltage range and the MSI's range that were set last.
unfoldable pub range_told : List LlCall → ℕ
range_told [] = 0
range_told (pwr_set_voltage_range n ∷ l) = n
range_told (_ ∷ l) = range_told l

unfoldable pub msi_range_told : List LlCall → ℕ
msi_range_told [] = 0
msi_range_told (msi_set_range n ∷ l) = n
msi_range_told (_ ∷ l) = msi_range_told l

module _ (chip : Chip) where
  -- The last answer on the wait states was two, and they were not set since.
  unfoldable pub latency_known : List LlCall → Bool
  latency_known [] = false
  latency_known (flash_get_latency ∷ l) = chip.latency (flash_get_latency ∷ l) == 2
  latency_known (flash_set_latency n ∷ l) = false
  latency_known (_ ∷ l) = latency_known l

  -- The voltage is that of range 1, the high one, was last seen at rest, and was not set since.
  unfoldable pub voltage_known : List LlCall → Bool
  voltage_known [] = false
  voltage_known (pwr_is_active_flag_vos ∷ l) =
      chip.vos (pwr_is_active_flag_vos ∷ l) == 0 && range_told l == 1
  voltage_known (pwr_set_voltage_range n ∷ l) = false
  voltage_known (_ ∷ l) = voltage_known l

  -- The MSI was last seen to run.
  unfoldable pub msi_known : List LlCall → Bool
  msi_known [] = false
  msi_known (msi_is_ready ∷ l) = not (chip.msi_ready (msi_is_ready ∷ l) == 0)
  msi_known (_ ∷ l) = msi_known l

  -- The last answer on the source was the MSI, and it was not set since.
  unfoldable pub source_known : List LlCall → Bool
  source_known [] = false
  source_known (get_sys_clk_source ∷ l) = is_msi (chip.source (get_sys_clk_source ∷ l))
  source_known (set_sys_clk_source c ∷ l) = false
  source_known (_ ∷ l) = source_known l

  -- The calls that can make the processor faster.
  unfoldable pub speeds_up : LlCall → Bool
  speeds_up (msi_set_range r) = true
  speeds_up (set_sys_clk_source c) = true
  speeds_up _ = false

  -- No call of a history made the processor faster, but when the flash's wait states, the voltage and
  -- the MSI were known to be ready for it.
  unfoldable pub careful_switch : List LlCall → Bool
  careful_switch [] = true
  careful_switch (c ∷ l) =
      (not (speeds_up c) || (latency_known l && voltage_known l && msi_known l)) && careful_switch l

-- A chip that does what it is told within so many questions, of what it can be told: up to two wait
-- states, one of its two voltage ranges, and the MSI as the source once it was seen to run.
pub record Settles (chip : Chip) (questions : ℕ) : Type 0 where
  pub takes_latency :
      (n k : ℕ) (l : List LlCall)
      → n ≤ 2
      → questions ≤ k
      → chip.latency (replicate k flash_get_latency ++ flash_set_latency n ∷ l) ≡ n
  pub takes_voltage :
      (n k : ℕ) (l : List LlCall)
      → (n ≡ 1) ⊎ (n ≡ 2)
      → questions ≤ k
      → chip.vos (replicate k pwr_is_active_flag_vos ++ pwr_set_voltage_range n ∷ l) ≡ 0
  pub starts_msi :
      (k : ℕ) (l : List LlCall)
      → questions ≤ k
      → chip.msi_ready (replicate k msi_is_ready ++ msi_enable ∷ l) ≡ 1
  pub takes_msi :
      (k : ℕ) (l : List LlCall)
      → msi_known chip l ≡ true
      → questions ≤ k
      → chip.source (replicate k get_sys_clk_source ++ set_sys_clk_source msi ∷ l) ≡ msi

-- A careful history behind which the wait states are known, and then the voltage too.
abbrev HasLatency : Chip → List LlCall → Type 0
HasLatency chip l = (careful_switch chip l ≡ true) × (latency_known chip l ≡ true)

abbrev HasVoltage : Chip → List LlCall → Type 0
HasVoltage chip l =
    (careful_switch chip l ≡ true) × (latency_known chip l ≡ true) × (voltage_known chip l ≡ true)
