-- ===== src/Config/Failures.antt =====
-- A save that fails.
use meshtastic_mini.Base.{ℕ, zero, suc, ◌+◌, ◌≡◌, ◌⊎◌, inl, inr, refl, Bool, true, false, some}
use meshtastic_mini.Base.{List, ◌++◌, take, drop, Bool-cases}
use meshtastic_mini.Config.{FlashHal, DeviceConfig, config_magic, config_flash_addr}
use meshtastic_mini.Config.{config_flash_page, word_bytes, config_bytes, program_loop, config_save}

module _ (hal : FlashHal) where
  -- Whatever the flash does, the loop programs it to the end, or fails and locks it.
  program_loop_locks :
      (left addr : ℕ) (bytes : List ℕ) (f : hal.Flash)
      → (g : hal.Flash) × ((program_loop hal left addr bytes f ≡ (g, true))
          ⊎ (program_loop hal left addr bytes f ≡ (hal.lock g, false)))
  unfolding program_loop
  program_loop_locks zero addr bytes f = (f, inl refl)
  program_loop_locks (suc left) addr bytes f =
      let next = hal.program addr (take 8 bytes) f in
      elim (Bool-cases next.1) [
        | inl done ↦ rw done (program_loop_locks left (addr + 8) (drop 8 bytes) next.0)
        | inr failed ↦ rw failed (next.0, inr refl)
      ]

  -- Whatever the flash does and wherever it fails: `config_save` leaves it locked, whether it returns
  -- true or false, but for one case: the flash did not unlock, nothing else was done, and it returns
  -- false.
  pub config_save_locks :
      (c : DeviceConfig) (f : hal.Flash)
      → ((g : hal.Flash) × (saved : Bool) × (config_save hal (some c) f ≡ (hal.lock g, saved)))
        ⊎ (((hal.unlock f).1 ≡ false) × (config_save hal (some c) f ≡ ((hal.unlock f).0, false)))
  unfolding config_save
  config_save_locks c f =
      let opened = (hal.unlock f).0 in
      let erased = (hal.erase_page config_flash_page opened).0 in
      let bytes = word_bytes config_magic ++ config_bytes c in
      let (g, ends) = program_loop_locks 8 config_flash_addr bytes erased in
      elim (Bool-cases (hal.unlock f).1) [
        | inr locked ↦ inr (locked, rw locked refl)
        | inl opens ↦ elim (Bool-cases (hal.erase_page config_flash_page opened).1) [
          | inr failed ↦ rw (opens, failed) (inl (erased, false, refl))
          | inl blank ↦ elim ends [
            | inl written ↦ rw (opens, blank, written) (inl (g, true, refl))
            | inr failed ↦ rw (opens, blank, failed) (inl (g, false, refl))
          ]
        ]
      ]
