-- ===== src/Config.antt =====
-- firmware/Config/config_store.c: the configuration in the last page of the flash, in the build with
-- the flash HAL. The HAL is a parameter. The MCU is little-endian, `device_config_t` has 58 bytes of
-- members and 2 of padding, which are zero since the `memset` of the defaults, and the page is the one
-- at 0x0803F800 that the source names.
mod Reads
pub mod Stores
pub mod Torn
pub mod Failures
mod Tests
use meshtastic_mini.Base.{ℕ, zero, suc, ◌+◌, ◌*◌, ◌/◌, ◌%◌, Bool, true, false, not, ◌==◌}
use meshtastic_mini.Base.{if◌then◌else◌, Option, none, some, List, [], ◌∷◌, ◌++◌, get_or, take}
use meshtastic_mini.Base.{drop, replicate}

-- `HAL_FLASH_Unlock`, `HAL_FLASH_Lock`, `HAL_FLASHEx_Erase` of a page, `HAL_FLASH_Program` of a
-- double word, as its 8 bytes, at an address, and the byte that a read at an address gives. `false`
-- stands for any status but `HAL_OK`.
pub record FlashHal : Type 1 where
  pub Flash : Type 0
  pub unlock : Flash → Flash × Bool
  pub lock : Flash → Flash
  pub erase_page : ℕ → Flash → Flash × Bool
  pub program : ℕ → List ℕ → Flash → Flash × Bool
  pub read : Flash → ℕ → ℕ

-- `device_config_t`
pub record DeviceConfig : Type 0 where
  pub node_id : ℕ
  pub region : ℕ
  pub modem_preset : ℕ
  pub channel_psk : List ℕ
  pub short_name : List ℕ
  pub long_name : List ℕ

abbrev pub config_magic : ℕ
config_magic = 0x4d43_4647

abbrev pub config_flash_page : ℕ
config_flash_page = 127

abbrev pub config_flash_addr : ℕ
config_flash_addr = 0x0803_f800

-- A `uint32_t` in memory, and back.
unfoldable pub word_bytes : ℕ → List ℕ
word_bytes x = x % 256 ∷ x / 256 % 256 ∷ x / 65536 % 256 ∷ x / 16777216 % 256 ∷ []

unfoldable pub word_at : List ℕ → ℕ
word_at b = get_or b 0 0 + get_or b 1 0 * 256 + get_or b 2 0 * 65536 + get_or b 3 0 * 16777216

-- The 60 bytes of a `device_config_t` in memory, and back.
unfoldable pub config_bytes : DeviceConfig → List ℕ
config_bytes c =
    word_bytes c.node_id
    ++ c.region ∷ c.modem_preset ∷ (c.channel_psk ++ (c.short_name ++ (c.long_name ++ 0 ∷ 0 ∷ [])))

unfoldable pub config_of : List ℕ → DeviceConfig
config_of b = record {
  node_id = word_at b;
  region = get_or b 4 0;
  modem_preset = get_or b 5 0;
  channel_psk = take 16 (drop 6 b);
  short_name = take 4 (drop 16 (drop 6 b));
  long_name = take 32 (drop 4 (drop 16 (drop 6 b)));
}

abbrev pub meshtastic_default_psk : List ℕ
meshtastic_default_psk =
    0xd4 ∷ 0xf1 ∷ 0xbb ∷ 0x3a ∷ 0x20 ∷ 0x29 ∷ 0x05 ∷ 0x13 ∷ 0xf0 ∷ 0x08 ∷ 0x8a ∷ 0xa3 ∷ 0x5a ∷ 0xd3
    ∷ 0x4a ∷ 0x1c ∷ []

abbrev pub default_config : DeviceConfig
default_config = record {
  node_id = 1;
  region = 0;
  modem_preset = 4;
  channel_psk = meshtastic_default_psk;
  short_name = replicate 4 0;
  long_name = replicate 32 0;
}

-- `config_set_defaults`: what `*cfg` holds afterwards, `none` for NULL.
unfoldable pub config_set_defaults : Option DeviceConfig → Option DeviceConfig
config_set_defaults none = none
config_set_defaults (some cfg) = some default_config

module _ (hal : FlashHal) where
  -- The `n` bytes at an address.
  unfoldable pub read_bytes : hal.Flash → ℕ → ℕ → List ℕ
  read_bytes f addr zero = []
  read_bytes f addr (suc n) = hal.read f addr ∷ read_bytes f (addr + 1) n

  unfoldable pub config_from_flash : hal.Flash → DeviceConfig → DeviceConfig × Bool
  config_from_flash f cfg =
      if word_at (read_bytes f config_flash_addr 4) == config_magic
      then (config_of (read_bytes f (config_flash_addr + 4) 60), true)
      else (cfg, false)

  -- `config_load`: `*cfg` and the returned value.
  unfoldable pub config_load : hal.Flash → Option DeviceConfig → Option DeviceConfig × Bool
  config_load f none = (none, false)
  config_load f (some cfg) =
      let (loaded, valid) = config_from_flash f cfg in
      if valid then (some loaded, true) else (config_set_defaults (some loaded), true)

  -- The loop of `config_save`, with `left` double words to go; it locks the flash if one fails.
  unfoldable pub program_loop : ℕ → ℕ → List ℕ → hal.Flash → hal.Flash × Bool
  program_loop zero addr bytes f = (f, true)
  program_loop (suc left) addr bytes f =
      let (f', done) = hal.program addr (take 8 bytes) f in
      let rest = program_loop left (addr + 8) (drop 8 bytes) f' in
      if done then rest else (hal.lock f', false)

  unfoldable pub config_save : Option DeviceConfig → hal.Flash → hal.Flash × Bool
  config_save none f = (f, false)
  config_save (some cfg) f =
      let (opened, is_open) = hal.unlock f in
      let (erased, is_erased) = hal.erase_page config_flash_page opened in
      let (written, is_written) =
        program_loop 8 config_flash_addr (word_bytes config_magic ++ config_bytes cfg) erased in
      if not is_open
      then (opened, false)
      else if not is_erased
      then (hal.lock erased, false)
      else if not is_written
      then (written, false)
      else (hal.lock written, true)
