-- ===== src/Config/Stores.antt =====
-- What a load reads after a save.
use mathlib.Core.Path.{subst}
use meshtastic_mini.Base.{ℕ, zero, suc, ◌+◌, ◌-◌, ◌*◌, ◌%◌, ◌^◌, ◌≤◌, ◌<◌, ◌≡◌, ◌⊎◌, inl, inr, refl}
use meshtastic_mini.Base.{ap, ◌∙◌, List, [], ◌∷◌, ◌++◌, arith, length, take, drop, get_or, Bool}
use meshtastic_mini.Base.{true, some, ◌==◌, length-append, take-append, drop-append, get_or-take}
use meshtastic_mini.Base.{get_or-drop, take_all}
use native.Mathlib.Decide.{dec_lt}
use meshtastic_mini.Config.{FlashHal, DeviceConfig, config_magic, config_flash_addr, word_bytes}
use meshtastic_mini.Config.{config_flash_page, word_at, config_bytes, config_of, read_bytes}
use meshtastic_mini.Config.{program_loop, config_from_flash, config_load, config_save}
use meshtastic_mini.Config.Reads.{read_stored, word_at-word_bytes}

-- The documented behaviour of a flash: once unlocked it stays so until it is locked, an erased page
-- reads as 0xff, a double word can be programmed at an address divisible by 8 where the flash reads
-- as 0xff, which changes no other byte, and locking changes none.
pub record IsFlash (hal : FlashHal) : Type 1 where
  pub IsOpen : hal.Flash → Type 0
  pub unlock_ok : (f : hal.Flash) → ((hal.unlock f).1 ≡ true) × IsOpen (hal.unlock f).0
  pub erase_ok :
      (page : ℕ) (f : hal.Flash)
      → IsOpen f
      → ((hal.erase_page page f).1 ≡ true) × IsOpen (hal.erase_page page f).0
  pub erased :
      (page : ℕ) (f : hal.Flash) (i : ℕ)
      → IsOpen f
      → i < 2048
      → hal.read (hal.erase_page page f).0 (0x0800_0000 + page * 2048 + i) ≡ 0xff
  pub program_ok :
      (addr : ℕ) (b : List ℕ) (f : hal.Flash)
      → IsOpen f
      → addr % 8 ≡ 0
      → ((i : ℕ) → i < 8 → hal.read f (addr + i) ≡ 0xff)
      → ((hal.program addr b f).1 ≡ true) × IsOpen (hal.program addr b f).0
  pub programmed :
      (addr : ℕ) (b : List ℕ) (f : hal.Flash) (i : ℕ)
      → IsOpen f
      → addr % 8 ≡ 0
      → ((j : ℕ) → j < 8 → hal.read f (addr + j) ≡ 0xff)
      → i < 8
      → hal.read (hal.program addr b f).0 (addr + i) ≡ get_or b i 0
  pub others_stay :
      (addr : ℕ) (b : List ℕ) (f : hal.Flash) (a : ℕ)
      → (a < addr) ⊎ (addr + 8 ≤ a)
      → hal.read (hal.program addr b f).0 a ≡ hal.read f a
  pub locked : (f : hal.Flash) (a : ℕ) → hal.read (hal.lock f) a ≡ hal.read f a

-- The members of a `device_config_t` fit their types.
pub record IsConfig (c : DeviceConfig) : Type 0 where
  pub node_fits : c.node_id < 2 ^ 32
  pub psk_size : length c.channel_psk ≡ 16
  pub short_size : length c.short_name ≡ 4
  pub long_size : length c.long_name ≡ 32

module _ (hal : FlashHal) (flash : IsFlash hal) where
  -- What the loop has written, from erased flash on.
  record Written (left addr : ℕ) (bytes : List ℕ) (before : hal.Flash) (r : hal.Flash × Bool)
      : Type 0 where
    done : r.1 ≡ true
    stored : (i : ℕ) → i < left * 8 → hal.read r.0 (addr + i) ≡ get_or bytes i 0
    kept : (a : ℕ) → a < addr → hal.read r.0 a ≡ hal.read before a

  program_loop-Written :
      (left addr : ℕ) (bytes : List ℕ) (f : hal.Flash)
      → flash.IsOpen f
      → addr % 8 ≡ 0
      → ((i : ℕ) → i < left * 8 → hal.read f (addr + i) ≡ 0xff)
      → Written left addr bytes f (program_loop hal left addr bytes f)
  unfolding program_loop
  program_loop-Written zero addr bytes f is_open aligned erased = record {
    done = refl;
    stored = λ i h. absurd (omega arith);
    kept = λ a h. refl;
  }
  program_loop-Written (suc left) addr bytes f is_open aligned erased =
      let word = take 8 bytes in
      let f' = (hal.program addr word f).0 in
      let blank = λ (i : ℕ) (h : i < 8). erased i (omega arith) in
      let (written, still_open) = flash.program_ok addr word f is_open aligned blank in
      let later =
        program_loop-Written left (addr + 8) (drop 8 bytes) f' still_open (omega arith) λ i h.
          flash.others_stay addr word f (addr + 8 + i) (inr (omega arith))
          ∙ ap (hal.read f) (omega arith)
          ∙ erased (8 + i) (omega arith) in
      let r = program_loop hal left (addr + 8) (drop 8 bytes) f' in
      rw written (record {
        done = later.done;
        stored = λ i h. elim (dec_lt i 8) [
          | yes here ↦
              later.kept (addr + i) (omega arith)
              ∙ flash.programmed addr word f i is_open aligned blank here
              ∙ get_or-take 8 i bytes 0 here
          | no behind ↦
              ap (hal.read r.0) (omega arith)
              ∙ later.stored (i - 8) (omega arith)
              ∙ get_or-drop 8 i (i - 8) bytes 0 (omega arith)
        ];
        kept = λ a h. later.kept a (omega arith) ∙ flash.others_stay addr word f a (inl h);
      })

take_front : (xs ys : List ℕ) (n : ℕ) → length xs ≡ n → take n (xs ++ ys) ≡ xs
take_front xs ys n e = subst (λ k. take k (xs ++ ys) ≡ xs) e (take-append xs ys)

drop_front : (xs ys : List ℕ) (n : ℕ) → length xs ≡ n → drop n (xs ++ ys) ≡ ys
drop_front xs ys n e = subst (λ k. drop k (xs ++ ys) ≡ ys) e (drop-append xs ys)

length-config_bytes : (c : DeviceConfig) → IsConfig c → length (config_bytes c) ≡ 60
unfolding config_bytes word_bytes
length-config_bytes c v = omega (
  arith,
  v.psk_size,
  v.short_size,
  v.long_size,
  length-append c.channel_psk (c.short_name ++ (c.long_name ++ 0 ∷ 0 ∷ [])),
  length-append c.short_name (c.long_name ++ 0 ∷ 0 ∷ []),
  length-append c.long_name (0 ∷ 0 ∷ []),
)

-- A configuration in memory is read back.
config_of-config_bytes : (c : DeviceConfig) → IsConfig c → config_of (config_bytes c) ≡ c
unfolding config_of config_bytes word_bytes
config_of-config_bytes c v =
    let names = c.short_name ++ (c.long_name ++ 0 ∷ 0 ∷ []) in
    let longs = c.long_name ++ 0 ∷ 0 ∷ [] in
    let tail = drop_front c.channel_psk names 16 v.psk_size in
    let last = drop_front c.short_name longs 4 v.short_size in
    let psk = take_front c.channel_psk names 16 v.psk_size in
    let short = ap (take 4) tail ∙ take_front c.short_name longs 4 v.short_size in
    let long =
      ap (λ l. take 32 (drop 4 l)) tail
      ∙ ap (take 32) last
      ∙ take_front c.long_name (0 ∷ 0 ∷ []) 32 v.long_size in
    let node =
      word_at-word_bytes c.node_id (c.region ∷ c.modem_preset ∷ (c.channel_psk ++ names))
        v.node_fits in
    λ i. record {
      node_id = node i;
      region = c.region;
      modem_preset = c.modem_preset;
      channel_psk = psk i;
      short_name = short i;
      long_name = long i;
    }

-- The 64 bytes that a save programs.
abbrev image : DeviceConfig → List ℕ
image c = word_bytes config_magic ++ config_bytes c

length-image : (c : DeviceConfig) → IsConfig c → length (image c) ≡ 64
unfolding word_bytes
length-image c v = omega (arith, length-config_bytes c v)

module _ (hal : FlashHal) (flash : IsFlash hal) where
  -- A load of a flash that holds the image of a configuration.
  load_image :
      (f : hal.Flash) (c old : DeviceConfig)
      → IsConfig c
      → ((i : ℕ) → i < 64 → hal.read f (config_flash_addr + i) ≡ get_or (image c) i 0)
      → config_load hal f (some old) ≡ (some c, true)
  unfolding config_load config_from_flash word_bytes word_at
  load_image f c old v stored =
      let whole = length-image c v in
      let read = λ (i : ℕ) (h : i < length (image c)). stored i (omega arith) in
      let magic = read_stored hal f config_flash_addr 0 4 (image c) read (omega arith) in
      let body =
        read_stored hal f config_flash_addr 4 60 (image c) read (omega arith)
        ∙ take_all (config_bytes c) 60 (omega (arith, length-config_bytes c v)) in
      let valid : (word_at (read_bytes hal f config_flash_addr 4) == config_magic) ≡ true =
        ap (λ b. word_at b == config_magic) magic ∙ refl in
      rw (valid, body, config_of-config_bytes c v) refl

  -- On a flash that works, a configuration whose members fit their types is saved with success, and a
  -- later load gives it back, whatever the flash and the loading structure held before.
  pub load-save :
      (c old : DeviceConfig) (f : hal.Flash)
      → IsConfig c
      → (f' : hal.Flash) × (config_save hal (some c) f ≡ (f', true))
        × (config_load hal f' (some old) ≡ (some c, true))
  unfolding config_save
  load-save c old f v =
      let opened = (hal.unlock f).0 in
      let (open_done, is_open) = flash.unlock_ok f in
      let erased = (hal.erase_page config_flash_page opened).0 in
      let (erase_done, still_open) = flash.erase_ok config_flash_page opened is_open in
      let written =
        program_loop-Written hal flash 8 config_flash_addr (image c) erased still_open (omega arith)
          λ i h. flash.erased config_flash_page opened i is_open (omega arith) in
      let r = program_loop hal 8 config_flash_addr (image c) erased in
      (
        hal.lock r.0,
        rw (open_done, erase_done, written.done) refl,
        load_image (hal.lock r.0) c old v
            λ i h. flash.locked r.0 (config_flash_addr + i) ∙ written.stored i (omega arith),
      )
