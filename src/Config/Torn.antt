-- ===== src/Config/Torn.antt =====
-- A save that stops after its first double word.
use meshtastic_mini.Base.{◌-◌, ℕ, zero, suc, ◌+◌, ◌≤◌, ◌<◌, ◌^◌, ◌≡◌, refl, sym, ap, ◌∙◌, arith}
use meshtastic_mini.Base.{Bool, true, false, some, List, ◌++◌, take, drop, replicate, get_or, ◌==◌}
use meshtastic_mini.Base.{get_or-take, get_or-drop}
use native.Mathlib.Decide.{dec_lt}
use meshtastic_mini.Config.{FlashHal, DeviceConfig, config_magic, config_flash_addr}
use meshtastic_mini.Config.{config_flash_page, config_of, config_from_flash, word_bytes, word_at}
use meshtastic_mini.Config.{config_bytes, program_loop, config_save, config_load, read_bytes}
use meshtastic_mini.Config.Reads.{read_stored, word_at-word_bytes}

-- The 64 bytes of the flash behind such a save: the magic, the node's number, and erased flash.
abbrev torn_image : ℕ → List ℕ
torn_image node_id = word_bytes config_magic ++ (word_bytes node_id ++ replicate 56 0xff)

-- What a load makes of them.
abbrev pub torn_config : ℕ → DeviceConfig
torn_config node_id = record {
  node_id = node_id;
  region = 0xff;
  modem_preset = 0xff;
  channel_psk = replicate 16 0xff;
  short_name = replicate 4 0xff;
  long_name = replicate 32 0xff;
}

get_or-replicate_inside : (n i x : ℕ) → i < n → get_or (replicate n x) i 0 ≡ x
get_or-replicate_inside zero i x h = absurd (omega arith)
get_or-replicate_inside (suc n) zero x h = refl
get_or-replicate_inside (suc n) (suc i) x h = get_or-replicate_inside n i x (omega arith)

module _ (hal : FlashHal) where
  -- The flash at the steps of a save: unlocked, erased, and behind the first and the second double
  -- word.
  abbrev opened : hal.Flash → hal.Flash
  opened f = (hal.unlock f).0

  abbrev erased : hal.Flash → hal.Flash
  erased f = (hal.erase_page config_flash_page (opened f)).0

  abbrev pub first_word : DeviceConfig → hal.Flash → hal.Flash × Bool
  first_word c f =
      hal.program config_flash_addr (word_bytes config_magic ++ word_bytes c.node_id) (erased f)

  abbrev pub second_word : DeviceConfig → hal.Flash → hal.Flash × Bool
  second_word c f =
      hal.program (config_flash_addr + 8) (take 8 (drop 4 (config_bytes c))) (first_word c f).0

  -- The flash programs the first double word of a save and fails at the second, and then holds the
  -- first one on an erased page.
  pub record StopsAfterFirst (c : DeviceConfig) (f : hal.Flash) : Type 0 where
    pub opens : (hal.unlock f).1 ≡ true
    pub erases : (hal.erase_page config_flash_page (opened f)).1 ≡ true
    pub first_done : (first_word c f).1 ≡ true
    pub second_fails : (second_word c f).1 ≡ false
    pub holds_first :
        (i : ℕ)
        → i < 8
        → hal.read (hal.lock (second_word c f).0) (config_flash_addr + i)
          ≡ get_or (word_bytes config_magic ++ word_bytes c.node_id) i 0
    pub holds_blank :
        (i : ℕ)
        → 8 ≤ i
        → i < 64
        → hal.read (hal.lock (second_word c f).0) (config_flash_addr + i) ≡ 0xff

  torn_bytes :
      (c : DeviceConfig) (f : hal.Flash) (i : ℕ)
      → StopsAfterFirst c f
      → i < 64
      → hal.read (hal.lock (second_word c f).0) (config_flash_addr + i)
        ≡ get_or (torn_image c.node_id) i 0
  unfolding word_bytes
  torn_bytes c f i s inside = elim (dec_lt i 8) [
    | yes early ↦ s.holds_first i early ∙ get_or-take 8 i (torn_image c.node_id) 0 early
    | no late ↦
        s.holds_blank i (omega arith) inside
        ∙ sym (get_or-replicate_inside 56 (i - 8) 0xff (omega arith))
        ∙ get_or-drop 8 i (i - 8) (torn_image c.node_id) 0 (omega arith)
  ]

  -- The magic number is programmed first: if the flash fails at the second double word, `config_save`
  -- returns false, but a later load takes what the flash holds for a configuration, with the new
  -- number of the node, and 0xff for everything else, the channel's key included.
  pub torn_save_is_loaded :
      (c old : DeviceConfig) (f : hal.Flash)
      → c.node_id < 2 ^ 32
      → StopsAfterFirst c f
      → (f' : hal.Flash) × (config_save hal (some c) f ≡ (f', false))
        × (config_load hal f' (some old) ≡ (some (torn_config c.node_id), true))
  unfolding config_save config_load config_from_flash program_loop config_of config_bytes word_bytes
      word_at
  torn_save_is_loaded c old f fits s =
      let f' = hal.lock (second_word c f).0 in
      let read = λ (i : ℕ) (h : i < 64). torn_bytes c f i s h in
      let magic =
        read_stored hal f' config_flash_addr 0 4 (torn_image c.node_id) read (omega arith) in
      let body =
        read_stored hal f' config_flash_addr 4 60 (torn_image c.node_id) read (omega arith) in
      let valid : (word_at (read_bytes hal f' config_flash_addr 4) == config_magic) ≡ true =
        ap (λ b. word_at b == config_magic) magic ∙ refl in
      let node = word_at-word_bytes c.node_id (replicate 56 0xff) fits in
      (
        f',
        rw (s.opens, s.erases, s.first_done, s.second_fails) refl,
        rw (valid, body)
            (ap (λ x. (some (record (torn_config c.node_id) { node_id = x }), true)) node),
      )
