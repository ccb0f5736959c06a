-- ===== src/Config/Tests.antt =====
-- A flash that is a map of its bytes.
use meshtastic_mini.Base.{ℕ, ◌+◌, ◌-◌, ◌*◌, ◌≡◌, refl, true, leb, ltb, ◌&&◌, if◌then◌else◌, arith}
use meshtastic_mini.Base.{get_or, some, ◌==◌, false}
use meshtastic_mini.Config.{FlashHal, default_config, config_save, config_load, config_flash_addr}
use meshtastic_mini.Config.Torn.{StopsAfterFirst, torn_config, torn_save_is_loaded}
use meshtastic_mini.Config.Stores.{IsFlash, IsConfig, load-save}

abbrev map_flash : FlashHal
map_flash = record {
  Flash = ℕ → ℕ;
  unlock = λ m. (m, true);
  lock = λ m. m;
  erase_page = λ page m. (
    λ a.
        if leb (0x0800_0000 + page * 2048) a && ltb a (0x0800_0000 + page * 2048 + 2048)
        then 0xff
        else m a,
    true,
  );
  program = λ addr b m.
      (λ a. if leb addr a && ltb a (addr + 8) then get_or b (a - addr) 0 else m a, true);
  read = λ m a. m a;
}

map_flash-IsFlash : IsFlash map_flash
map_flash-IsFlash = record {
  IsOpen = λ m. Unit {0};
  unlock_ok = λ m. (refl, tt);
  erase_ok = λ page m o. (refl, tt);
  erased = λ page m i o h. ground arith;
  program_ok = λ addr b m o aligned blank. (refl, tt);
  programmed = λ addr b m i o aligned blank h. ground arith;
  others_stay = λ addr b m a h. ground arith;
  locked = λ m a. refl;
}

default_config-IsConfig : IsConfig default_config
default_config-IsConfig = record {
  node_fits = omega arith;
  psk_size = refl;
  short_size = refl;
  long_size = refl;
}

abbrev fresh : ℕ → ℕ
fresh a = 0xff

load-save_example :
    (f' : ℕ → ℕ) × (config_save map_flash (some default_config) fresh ≡ (f', true))
    × (config_load map_flash f' (some default_config) ≡ (some default_config, true))
load-save_example =
    load-save map_flash map_flash-IsFlash default_config default_config fresh
      default_config-IsConfig

-- The same flash with a page that takes one double word.
abbrev worn_flash : FlashHal
worn_flash = record map_flash {
  program =
      λ addr b m. if addr == config_flash_addr then map_flash.program addr b m else (m, false);
}

default-StopsAfterFirst : StopsAfterFirst worn_flash default_config fresh
default-StopsAfterFirst = record {
  opens = refl;
  erases = refl;
  first_done = refl;
  second_fails = refl;
  holds_first = λ i h. ground arith;
  holds_blank = λ i late h. ground arith;
}

torn_save_is_loaded_example :
    (f' : ℕ → ℕ) × (config_save worn_flash (some default_config) fresh ≡ (f', false))
    × (config_load worn_flash f' (some default_config) ≡ (some (torn_config 1), true))
torn_save_is_loaded_example =
    torn_save_is_loaded worn_flash default_config default_config fresh (omega arith)
      default-StopsAfterFirst
