-- ===== src/Core/Clock.antt =====
-- firmware/Core/system_clock_ll.c: the system clock, 48 MHz from the MSI oscillator, set up by calls of
-- ST's LL library. The chip is a parameter: an answer is a function of all the calls so far, the newest
-- first, so that a loop that polls it can end at any time, or never.
pub mod Switch
mod Tests
use meshtastic_mini.Base.{ℕ, zero, suc, Bool, true, false, not, ◌==◌, if◌then◌else◌, List, ◌∷◌, Run}
use meshtastic_mini.Base.{ok, running, ◌>>=◌}

-- The sources of the system clock.
pub data ClockSource : Type 0 where
  msi : ClockSource
  hsi : ClockSource
  hse : ClockSource
  pll : ClockSource

unfoldable pub is_msi : ClockSource → Bool
is_msi msi = true
is_msi _ = false

-- The `LL_` calls of the function: the flash's wait states, the voltage range, the range of the MSI,
-- and the prescalers by what they divide by. The last one is `SystemCoreClockUpdate`.
pub data LlCall : Type 0 where
  flash_set_latency : ℕ → LlCall
  flash_get_latency : LlCall
  pwr_set_voltage_range : ℕ → LlCall
  pwr_is_active_flag_vos : LlCall
  msi_enable : LlCall
  msi_is_ready : LlCall
  msi_enable_range_selection : LlCall
  msi_set_range : ℕ → LlCall
  msi_set_calib_trimming : ℕ → LlCall
  set_sys_clk_source : ClockSource → LlCall
  get_sys_clk_source : LlCall
  set_ahb_prescaler : ℕ → LlCall
  set_ahb3_prescaler : ℕ → LlCall
  set_apb1_prescaler : ℕ → LlCall
  set_apb2_prescaler : ℕ → LlCall
  system_core_clock_update : LlCall

-- The answers to the newest call of a history, if it asks for the flash's wait states, for the flag
-- that the voltage is changing, for the flag that the MSI is ready, or for the system clock's source.
pub record Chip : Type 0 where
  pub latency : List LlCall → ℕ
  pub vos : List LlCall → ℕ
  pub msi_ready : List LlCall → ℕ
  pub source : List LlCall → ClockSource

-- A loop that asks until the answer is the one it waits for, with fuel for its rounds.
unfoldable pub wait_until : (List LlCall → Bool) → LlCall → ℕ → List LlCall → Run (List LlCall)
wait_until done ask zero l = running
wait_until done ask (suc fuel) l =
    let asked = ask ∷ l in
    let rest = wait_until done ask fuel asked in if done asked then ok asked else rest

module _ (chip : Chip) where
  -- The four answers that are waited for.
  abbrev pub two_wait_states : List LlCall → Bool
  two_wait_states l = chip.latency l == 2

  abbrev pub voltage_stands : List LlCall → Bool
  voltage_stands l = chip.vos l == 0

  abbrev pub msi_runs : List LlCall → Bool
  msi_runs l = not (chip.msi_ready l == 0)

  abbrev pub clock_is_msi : List LlCall → Bool
  clock_is_msi l = is_msi (chip.source l)

  -- `SystemClock_Config_LL`, from the calls so far to the calls with its own.
  unfoldable pub system_clock_config : ℕ → List LlCall → Run (List LlCall)
  system_clock_config fuel l =
      wait_until two_wait_states flash_get_latency fuel (flash_set_latency 2 ∷ l)
      >>= (λ l. wait_until voltage_stands pwr_is_active_flag_vos fuel (pwr_set_voltage_range 1 ∷ l))
      >>= (λ l. wait_until msi_runs msi_is_ready fuel (msi_enable ∷ l))
      >>= (λ l. wait_until clock_is_msi get_sys_clk_source fuel (
          set_sys_clk_source msi
          ∷ msi_set_calib_trimming 0
          ∷ msi_set_range 11
          ∷ msi_enable_range_selection
          ∷ l))
      >>= (λ l. ok (
          system_core_clock_update
          ∷ set_apb2_prescaler 1
          ∷ set_apb1_prescaler 1
          ∷ set_ahb3_prescaler 1
          ∷ set_ahb_prescaler 1
          ∷ l))
