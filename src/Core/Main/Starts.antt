-- ===== src/Core/Main/Starts.antt =====
-- The node from its reset on.

use meshtastic_mini.Base.{ℕ, ◌<◌}
use meshtastic_mini.Crypto.{Cryp, Aes}
use meshtastic_mini.Config.{FlashHal}
use meshtastic_mini.Radio.{Hal, Radio}
use meshtastic_mini.Radio.Phy.{ops_of}
use meshtastic_mini.Radio.Lora.{Lora, radio_phy_set_ops}
use meshtastic_mini.Core.Led.{Led}
use meshtastic_mini.Core.Uart.{Uart, serial_init}
use meshtastic_mini.Core.MainLoop.{Node}
use meshtastic_mini.Core.MainLoop.Invariant.{IsNode}
use meshtastic_mini.Core.MainLoop.Driver.{stm32wl_ops-IsDriver}
use meshtastic_mini.Core.MainLoop.Reachable.{reset_node, Reachable, mesh_mini_init-IsNode}
use meshtastic_mini.Core.MainLoop.Reachable.{reachable-IsNode}
use meshtastic_mini.Core.Main.{main_start, radio_stm32wl_register}

module _ {cryp : Cryp} (hal : Hal) (fuel : ℕ) (flash : FlashHal) (f : flash.Flash)
    (bytes : (a : ℕ) → flash.read f a < 256) where
  main_start-IsNode :
      (led : Led) (uart : Uart) (aes : Aes cryp) (lora : Lora Radio)
      → IsNode (main_start hal fuel flash f (reset_node led uart aes lora))
  unfolding main_start radio_stm32wl_register radio_phy_set_ops ops_of
  main_start-IsNode led uart aes lora =
      mesh_mini_init-IsNode flash f led (serial_init uart) aes
        (radio_stm32wl_register hal fuel lora) bytes (stm32wl_ops-IsDriver hal fuel)

  -- From a reset, with the STM32WL driver and a flash of bytes, whatever the radio's HAL, the cipher's
  -- and the flash do: after the start-up and any number of rounds of the main loop, with interrupts of
  -- the radio between them that change the driver in whatever way, and whatever has come in over the UART and the radio, the buffers have
  -- their sizes, and the line, the rings, the packet number and the node's number are within bounds.
  pub main-IsNode :
      (led : Led) (uart : Uart) (aes : Aes cryp) (lora : Lora Radio)
      (Handles : Radio → Radio → Type 0) {n : Node cryp Radio}
      → Reachable Handles (main_start hal fuel flash f (reset_node led uart aes lora)) n
      → IsNode n
  main-IsNode led uart aes lora Handles reached =
      reachable-IsNode (main_start-IsNode led uart aes lora) reached
