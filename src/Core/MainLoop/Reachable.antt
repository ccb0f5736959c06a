-- ===== src/Core/MainLoop/Reachable.antt =====
-- The states that a node comes to, round after round of the main loop.
use mathlib.Core.Path.{subst}
use meshtastic_mini.Base.{ℕ, ◌+◌, ◌^◌, ◌<◌, ◌≡◌, refl, sym, ◌∙◌, arith, Bool, Option, some, List}
use meshtastic_mini.Base.{replicate, ok, Returns, ok-Returns, if_both, leb, not, ◌||◌, ◌==◌}
use meshtastic_mini.Mesh.Router.{start}
use meshtastic_mini.Mesh.Router.Recent.{start-IsRouter}
use meshtastic_mini.Crypto.{Cryp, Aes}
use meshtastic_mini.Config.{FlashHal, DeviceConfig, config_load, config_from_flash}
use meshtastic_mini.Config.{config_set_defaults, config_of, read_bytes, word_at, config_magic}
use meshtastic_mini.Config.{config_flash_addr, default_config}
use meshtastic_mini.Radio.Phy.{ops_of}
use meshtastic_mini.Radio.Lora.{Lora, lora_init, lora_set_region_preset, params_of, region_count}
use meshtastic_mini.Radio.Lora.{modem_count}
use meshtastic_mini.Core.Led.{Led}
use meshtastic_mini.Core.Uart.{Uart}
use meshtastic_mini.Core.SerialIo.{no_bytes}
use meshtastic_mini.Core.SerialIo.Queue.{no_bytes-IsRing}
use meshtastic_mini.Core.MainLoop.{Node}
use meshtastic_mini.Core.MainLoop.Receive.{mesh_mini_loop, mesh_mini_init, or_else}
use meshtastic_mini.Core.MainLoop.Invariant.{IsNode, IsDriver}
use meshtastic_mini.Core.MainLoop.Keeps.{mesh_mini_loop-IsNode}

-- The configuration of the zeroed static variables.
abbrev zero_config : DeviceConfig
zero_config = record {
  node_id = 0;
  region = 0;
  modem_preset = 0;
  channel_psk = replicate 16 0;
  short_name = replicate 4 0;
  long_name = replicate 32 0;
}

stored_fits :
    (flash : FlashHal) (f : flash.Flash)
    → ((a : ℕ) → flash.read f a < 256)
    → (config_from_flash flash f default_config).0.node_id < 2 ^ 32
unfolding config_from_flash config_of read_bytes word_at
stored_fits flash f bytes =
    if_both (λ (r : DeviceConfig × Bool). r.0.node_id < 2 ^ 32)
      (word_at (read_bytes flash f config_flash_addr 4) == config_magic) _ _
      (omega (
        arith,
        bytes (config_flash_addr + 4),
        bytes (config_flash_addr + 5),
        bytes (config_flash_addr + 6),
        bytes (config_flash_addr + 7),
      ))
      (omega arith)

loaded_fits :
    (flash : FlashHal) (f : flash.Flash) (old : DeviceConfig)
    → ((a : ℕ) → flash.read f a < 256)
    → (or_else old (config_load flash f (config_set_defaults (some old))).0).node_id < 2 ^ 32
unfolding config_load config_set_defaults
loaded_fits flash f old bytes =
    if_both (λ (r : Option DeviceConfig × Bool). (or_else old r.0).node_id < 2 ^ 32)
      (config_from_flash flash f default_config).1 _ _ (stored_fits flash f bytes) (omega arith)

pub tuned-keeps :
    {S : Type 0} (region preset : ℕ) (l : Lora S)
    → (lora_set_region_preset region preset l).0.s_ops ≡ l.s_ops
unfolding lora_set_region_preset
tuned-keeps {S} region preset l =
    let p = params_of region preset in
    let ops = ops_of l.s_ops in
    if_both (λ (r : Lora S × Bool). r.0.s_ops ≡ l.s_ops)
      (leb region_count region || leb modem_count preset) _ _ refl
      (if_both (λ (r : Lora S × Bool). r.0.s_ops ≡ l.s_ops)
        (not (ops.set_freq p.freq_hz l.driver).1) _ _ refl refl)

pub ready-keeps : {S : Type 0} (l : Lora S) → (lora_init l).0.s_ops ≡ l.s_ops
unfolding lora_init
ready-keeps {S} l =
    if_both (λ (r : Lora S × Bool). r.0.s_ops ≡ l.s_ops) l.s_inited _ _ refl
      (if_both (λ (r : Lora S × Bool). r.0.s_ops ≡ l.s_ops) (not ((ops_of l.s_ops).init l.driver).1)
        _ _ refl refl)

module _ {cryp : Cryp} {S : Type 0} where
  -- The static variables at a reset, over the states of the light, the UART, the cipher and the radio.
  abbrev pub reset_node : Led → Uart → Aes cryp → Lora S → Node cryp S
  reset_node led uart aes lora = record {
    lora_rx_buf = replicate 256 0;
    lora_tx_buf = replicate 256 0;
    g_config = zero_config;
    next_packet_id = 0;
    line_buf = replicate 200 0;
    line_len = 0;
    led = led;
    ring = no_bytes;
    uart = uart;
    router = start;
    aes = aes;
    lora = lora;
  }

  -- The nodes that a node becomes from a first one: by a round of the main loop that returns, and by
  -- an interrupt of the radio between two rounds, which changes the driver's state as `Handles` says.
  pub data Reachable (Handles : S → S → Type 0) (first : Node cryp S) : Node cryp S → Type 0 where
    began : Reachable Handles first first
    went_round :
        {n n' : Node cryp S} (rounds fuel now : ℕ) (coming : List (List ℕ))
        → Reachable Handles first n
        → mesh_mini_loop rounds fuel now coming n ≡ ok n'
        → Reachable Handles first n'
    interrupted :
        {n : Node cryp S} (s : S)
        → Reachable Handles first n
        → Handles n.lora.driver s
        → Reachable Handles first (record n { lora = record n.lora { driver = s } })

  pub mesh_mini_init-IsNode :
      (flash : FlashHal) (f : flash.Flash) (led : Led) (uart : Uart) (aes : Aes cryp)
      (lora : Lora S)
      → ((a : ℕ) → flash.read f a < 256)
      → IsDriver (ops_of lora.s_ops)
      → IsNode (mesh_mini_init flash f (reset_node led uart aes lora))
  unfolding mesh_mini_init
  mesh_mini_init-IsNode flash f led uart aes lora bytes driver = record {
    rx_size = refl;
    tx_size = refl;
    line_size = refl;
    line_fits = omega arith;
    number_fits = omega arith;
    node_fits = loaded_fits flash f zero_config bytes;
    ring_sound = no_bytes-IsRing;
    router_sound = start-IsRouter;
    driver_sound =
        subst (λ o. IsDriver (ops_of o))
          (sym (tuned-keeps 0 4 (lora_init lora).0 ∙ ready-keeps lora)) driver;
  }

  pub reachable-IsNode :
      {Handles : S → S → Type 0} {first n : Node cryp S}
      → IsNode first
      → Reachable Handles first n
      → IsNode n
  reachable-IsNode v began = v
  reachable-IsNode v (went_round {n} {n'} rounds fuel now coming before e) = ok-Returns (
      subst (Returns IsNode) e
        (mesh_mini_loop-IsNode rounds fuel now coming n (reachable-IsNode v before)))
  reachable-IsNode v (interrupted {n} s before handled) =
      let w = reachable-IsNode v before in
      record {
        rx_size = w.rx_size;
        tx_size = w.tx_size;
        line_size = w.line_size;
        line_fits = w.line_fits;
        number_fits = w.number_fits;
        node_fits = w.node_fits;
        ring_sound = w.ring_sound;
        router_sound = w.router_sound;
        driver_sound = w.driver_sound;
      }
